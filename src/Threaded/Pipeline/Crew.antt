-- ===== src/Threaded/Pipeline/Crew.antt =====
-- The pipeline keeps the workers that it has started.
use real_time_system_project.Common.{
  ℕ, ◌≡◌, refl, ap, ◌∙◌, Bool, true, false, not, ◌&&◌, List, [], ◌∷◌, ◌++◌, Option, none, some,
  if◌then◌else◌, Text, Result, length, length-set, get_elem?, set,
}
use mathlib.Core.Option.{some_inj}
use real_time_system_project.Time.{Instant}
use real_time_system_project.Event.{Event, Task}
use real_time_system_project.Histogram.{Histogram}
use real_time_system_project.Watchdog.{is_stale}
use real_time_system_project.FailSafe.{tick}
use real_time_system_project.Leaderboard.{LbCmd}
use real_time_system_project.Admission.{Log}
use real_time_system_project.Workers.{Worker, looking, holding, ended}
use real_time_system_project.Threaded.Heap.{BinaryHeap}
use real_time_system_project.Threaded.PriorityQueue.{PriorityQueue, pop}
use real_time_system_project.Threaded.Parser.{QueueState}
use real_time_system_project.Threaded.System.{
  Step, parse, work, check, ticks, lead, cancel, System, found, move, finish_task, after_recv,
  after_dispatch, step, run,
}

module _ (std : BinaryHeap) (hist : Histogram) where
  abbrev pub SameCrew : System std hist → System std hist → Type 0
  SameCrew s s' = length s'.workers ≡ length s.workers

  found-SameCrew :
      (s : System std hist) (i : ℕ) (o : Option (Task × PriorityQueue std))
      → SameCrew s (found std hist s i o)
  found-SameCrew s i none = refl
  found-SameCrew s i (some (t, q)) = length-set s.workers i (holding t)

  move-SameCrew :
      (s : System std hist) (i : ℕ) (begin finish : Instant) (o : Option Worker)
      → SameCrew s (move std hist s i begin finish o)
  unfolding move finish_task
  move-SameCrew s i begin finish none = refl
  move-SameCrew s i begin finish (some ended) = refl
  move-SameCrew s i begin finish (some (holding t)) = length-set s.workers i looking
  move-SameCrew s i begin finish (some looking) = stops_or_looks s.cancelled
    where
      stops_or_looks :
          (c : Bool)
          → SameCrew s (
              if c
              then record s { workers = set s.workers i ended }
              else found std hist s i (pop std s.queue))
      stops_or_looks true = length-set s.workers i ended
      stops_or_looks false = found-SameCrew s i (pop std s.queue)

  module _ {E : Type 0} (from_str : Text → Result E Event) where
    abbrev pub SameCrewOr : System std hist → Option (System std hist) → Type 0
    SameCrewOr s none = Unit
    SameCrewOr s (some s') = SameCrew s s'

    dispatch-SameCrew :
        (s : System std hist) (o : Option (QueueState std × Option (Log E)))
        → SameCrewOr s (after_dispatch std hist from_str s o)
    dispatch-SameCrew s none = tt
    dispatch-SameCrew s (some (q, log)) = refl

    step-SameCrew : (s : System std hist) (e : Step) → SameCrewOr s (step std hist from_str s e)
    unfolding step
    step-SameCrew s (parse clock raw) = dispatch-SameCrew s _
    step-SameCrew s (work i begin finish) = move-SameCrew s i begin finish (get_elem? s.workers i)
    step-SameCrew s (check now) = checks (not s.cancelled && is_stale s.shared.watchdog now)
      where
        checks :
            (b : Bool)
            → SameCrew s (if b then record s { warnings = s.warnings ++ (now ∷ []) } else s)
        checks true = refl
        checks false = refl
    step-SameCrew s ticks = ticks_or_not s.cancelled
      where
        ticks_or_not :
            (c : Bool)
            → SameCrew s (
                if c then s else record s {
                  recorded = record s.recorded { failsafe = tick hist s.recorded.failsafe };
                })
        ticks_or_not true = refl
        ticks_or_not false = refl
    step-SameCrew s lead = receives s.channel
      where
        receives : (channel : List LbCmd) → SameCrew s (after_recv std hist s channel)
        receives [] = refl
        receives (cmd ∷ channel) = refl
    step-SameCrew s cancel = refl

    goes_on :
        (s : System std hist) (steps : List Step) (o : Option (System std hist))
        → SameCrewOr s o
        → ((s' : System std hist) → SameCrewOr s' (run std hist from_str s' steps))
        → SameCrewOr s (elim o [ none ↦ none | some s' ↦ run std hist from_str s' steps ])
    goes_on s steps none first rest = tt
    goes_on s steps (some s') first rest = joined (run std hist from_str s' steps) (rest s')
      where
        joined : (o : Option (System std hist)) → SameCrewOr s' o → SameCrewOr s o
        joined none h = tt
        joined (some t) h = h ∙ first

    pub run-SameCrew :
        (steps : List Step) (s : System std hist) → SameCrewOr s (run std hist from_str s steps)
    unfolding run
    run-SameCrew [] s = refl
    run-SameCrew (e ∷ steps) s =
        goes_on s steps (step std hist from_str s e) (step-SameCrew s e)
          (λ s'. run-SameCrew steps s')

    -- A run is that of its beginning and then of its rest.
    pub run_both :
        (before after : List Step) (s : System std hist) {s' : System std hist}
        → run std hist from_str s before ≡ some s'
        → run std hist from_str s (before ++ after) ≡ run std hist from_str s' after
    unfolding run
    run_both [] after s e = ap (λ t. run std hist from_str t after) (some_inj.0 e)
    run_both (x ∷ before) after s {s'} e =
        through (step std hist from_str s x) (λ t h. run_both before after t h) e
      where
        through :
            (o : Option (System std hist))
            → ((t : System std hist)
                → run std hist from_str t before ≡ some s'
                → run std hist from_str t (before ++ after) ≡ run std hist from_str s' after)
            → (elim o [ none ↦ none | some t ↦ run std hist from_str t before ]) ≡ some s'
            → (elim o [ none ↦ none | some t ↦ run std hist from_str t (before ++ after) ])
              ≡ run std hist from_str s' after
        through none rest h = cc
        through (some t) rest h = rest t h
