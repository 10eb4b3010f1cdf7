-- ===== src/Async/System/Conservation.antt =====
-- Where the tasks of humans go.
use real_time_system_project.Common.{
  ℕ, ◌+◌, ◌%◌, ◌^◌, ◌≡◌, refl, ap, Bool, true, false, List, [], ◌∷◌, arith, length, length-append,
  length-drop, Text, Result, if◌then◌else◌, drop,
}
use real_time_system_project.Time.{Instant}
use real_time_system_project.Event.{Event, Task}
use real_time_system_project.Ring.{DropOldestRing, push, push_all}
use real_time_system_project.Ring.Bounds.{IsBounded, push-IsBounded}
use real_time_system_project.Histogram.{Histogram}
use real_time_system_project.FailSafe
use real_time_system_project.Leaderboard.{LbCmd}
use real_time_system_project.Async.Parser.{LaneState}
use real_time_system_project.Async.Parser.Lanes.{human_task, dispatch_lanes}
use real_time_system_project.Async.Scheduler.{process}
use real_time_system_project.Async.Scheduler.Order.{work_hi, work_lo, work_none}
use real_time_system_project.Async.System.{System, Step, step, run, after_recv}
use real_time_system_project.Async.System.Invariant.{IsSound, step-IsSound, shared_of, work_stopped}

-- The tasks that a lane holds or has dropped.
abbrev pub held_or_dropped : DropOldestRing Task → ℕ
held_or_dropped r = r.overflow + length r.queue

push_held :
    (r : DropOldestRing Task) (t : Task)
    → IsBounded r
    → held_or_dropped (push r t).1 % 2 ^ 64 ≡ (held_or_dropped r + 1) % 2 ^ 64
unfolding push
push_held r t v = ground (
  arith,
  length-append r.queue (t ∷ []),
  length-append (drop 1 r.queue) (t ∷ []),
  length-drop 1 r.queue,
)

push_all_held :
    (ts : List Task) (r : DropOldestRing Task)
    → IsBounded r
    → held_or_dropped (push_all r ts) % 2 ^ 64 ≡ (held_or_dropped r + length ts) % 2 ^ 64
unfolding push_all
push_all_held [] r v = omega arith
push_all_held (t ∷ ts) r v =
    omega (arith, push_held r t v, push_all_held ts (push r t).1 (push-IsBounded t v))

abbrev one_if_some : List Task → ℕ
one_if_some [] = 0
one_if_some (t ∷ ts) = 1

module _ (hist : Histogram) {E : Type 0} (from_str : Text → Result E Event) where
  -- the tasks of humans that a step is given, and those that it serves
  abbrev pub arriving : Step → ℕ
  arriving (Step.parse clock raw) = length (human_task from_str clock (from_str raw))
  arriving (Step.serve begin finish) = 0
  arriving Step.ticks = 0
  arriving Step.lead = 0
  arriving Step.cancel = 0

  abbrev pub serving : System hist → Step → ℕ
  serving s (Step.parse clock raw) = 0
  serving s (Step.serve begin finish) = if s.cancelled then 0 else one_if_some s.hi.queue
  serving s Step.ticks = 0
  serving s Step.lead = 0
  serving s Step.cancel = 0

  abbrev pub arrived : List Step → ℕ
  arrived [] = 0
  arrived (e ∷ steps) = arriving e + arrived steps

  abbrev pub served_humans : System hist → List Step → ℕ
  served_humans s [] = 0
  served_humans s (e ∷ steps) = serving s e + served_humans (step hist from_str s e) steps

  serve_held :
      (c : Bool) (hi lo : List Task) (s : System hist) (begin finish : Instant)
      → s.cancelled ≡ c
      → s.hi.queue ≡ hi
      → s.lo.queue ≡ lo
      → held_or_dropped (step hist from_str s (Step.serve begin finish)).hi
          + (if c then 0 else one_if_some hi)
        ≡ held_or_dropped s.hi
  unfolding step process
  serve_held true hi lo s begin finish ec eh el =
      rw (work_stopped hist (shared_of hist s) begin finish ec) (omega arith)
  serve_held false (t ∷ hi) lo s begin finish ec eh el =
      rw (ec, work_hi hist (shared_of hist s) begin finish t hi eh) (omega (arith, ap length eh))
  serve_held false [] (t ∷ lo) s begin finish ec eh el =
      rw (ec, work_lo hist (shared_of hist s) begin finish t lo eh el) (omega arith)
  serve_held false [] [] s begin finish ec eh el =
      rw (ec, work_none hist (shared_of hist s) begin finish eh el) (omega arith)

  step_held :
      (s : System hist) (e : Step)
      → IsSound hist s
      → (held_or_dropped (step hist from_str s e).hi + serving s e) % 2 ^ 64
        ≡ (held_or_dropped s.hi + arriving e) % 2 ^ 64
  unfolding step
  step_held s (Step.parse clock raw) v =
      let degraded = FailSafe.is_degraded hist s.recorded.failsafe in
      let lanes : LaneState = record { hi = s.hi; lo = s.lo; shared = s.shared } in
      let (h, l) = dispatch_lanes from_str degraded clock raw lanes (from_str raw) refl in
      omega (
        arith,
        ap held_or_dropped h,
        push_all_held (human_task from_str clock (from_str raw)) s.hi v.hi.bounded,
      )
  step_held s (Step.serve begin finish) v =
      omega (arith, serve_held s.cancelled s.hi.queue s.lo.queue s begin finish refl refl refl)
  step_held s Step.ticks v = ground arith
  step_held s Step.lead v = lead_held s.channel
    where
      lead_held :
          (channel : List LbCmd)
          → (held_or_dropped (after_recv hist s channel).hi + 0) % 2 ^ 64
            ≡ (held_or_dropped s.hi + 0) % 2 ^ 64
      lead_held [] = refl
      lead_held (cmd ∷ channel) = refl
  step_held s Step.cancel v = refl

  -- From any sound state on, the tasks of humans that the high lane holds or has counted as dropped,
  -- with those that the workers have taken from it, are those of before and those that have been
  -- parsed since, modulo the width of the counter: none is lost without being counted.
  pub humans_conserved :
      (steps : List Step) (s : System hist)
      → IsSound hist s
      → (held_or_dropped (run hist from_str s steps).hi + served_humans s steps) % 2 ^ 64
        ≡ (held_or_dropped s.hi + arrived steps) % 2 ^ 64
  unfolding run
  humans_conserved [] s v = refl
  humans_conserved (e ∷ steps) s v = omega (
    arith,
    step_held s e v,
    humans_conserved steps (step hist from_str s e) (step-IsSound hist from_str s e v),
  )
