-- ===== src/Threaded/System/Conservation.antt =====
-- Runs of the pipeline: what holds of their states, and where the tasks go.
use real_time_system_project.Common.{ℕ, ◌+◌, refl, List, [], ◌∷◌, none, some, arith, Text, Result}
use real_time_system_project.Event.{Event}
use real_time_system_project.Histogram.{Histogram}
use real_time_system_project.Threaded.Heap.{BinaryHeap}
use real_time_system_project.Threaded.System.{Step, System, step, run}
use real_time_system_project.Threaded.System.Invariant.{
  IsSound, Goes, arriving, finishing, step-Goes,
}

module _ (std : BinaryHeap) (hist : Histogram) {E : Type 0} (from_str : Text → Result E Event) where
  -- the tasks that the steps of a run are given, and those that they finish
  abbrev pub arrived : System std hist → List Step → ℕ
  arrived s [] = 0
  arrived s (e ∷ steps) =
      arriving std hist from_str s e
      + elim (step std hist from_str s e) [ none ↦ 0 | some s' ↦ arrived s' steps ]

  abbrev pub finished : System std hist → List Step → ℕ
  finished s [] = 0
  finished s (e ∷ steps) =
      finishing std hist from_str s e
      + elim (step std hist from_str s e) [ none ↦ 0 | some s' ↦ finished s' steps ]

  -- From a sound state on, no steps panic, and every state keeps the queue within its capacity and the
  -- controller well formed; of the tasks that were pending before or have arrived, each has been finished
  -- by a worker or is pending: queued, held by a worker, or counted as dropped. The counts are modulo
  -- the width of the overflow counter.
  pub run-Goes :
      (steps : List Step) (s : System std hist)
      → IsSound std hist s
      → Goes std hist s (arrived s steps) (finished s steps) (run std hist from_str s steps)
  unfolding run
  run-Goes [] s v = record { after = s; returns = refl; sound = v; balance = refl }
  run-Goes (e ∷ steps) s v =
      let first = step-Goes std hist from_str s e v in
      let rest = run-Goes steps first.after first.sound in
      rw (run, first.returns)
        (record {
          after = rest.after;
          returns = rest.returns;
          sound = rest.sound;
          balance = omega (arith, first.balance, rest.balance);
        })
