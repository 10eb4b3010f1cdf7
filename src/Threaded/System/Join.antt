-- ===== src/Threaded/System/Join.antt =====
-- The workers end: what the joins at the end of `run` wait for.
use real_time_system_project.Workers.{Worker, looking, holding, ended, all_ended}
use real_time_system_project.Workers.Rounds.{left_of, set_left, idle_left, ended_all, left_of-le}
use real_time_system_project.Common.{
  ℕ, ◌+◌, ◌-◌, ◌≤◌, ◌<◌, ◌≡◌, refl, ap, ◌∙◌, subst, Bool, true, false, not, List, [], ◌∷◌, Option,
  none, some, arith, Text, Result, if◌then◌else◌, get_elem?, set, length, length-set, ◌==◌,
}
use mathlib.Core.Bool.{false≢true}
use real_time_system_project.Threaded.PriorityQueue.{pop}
use real_time_system_project.Time.{Instant}
use real_time_system_project.Event.{Event}
use real_time_system_project.Histogram.{Histogram}
use real_time_system_project.FailSafe.{is_degraded, tick}
use real_time_system_project.Leaderboard.{LbCmd}
use real_time_system_project.Threaded.Heap.{BinaryHeap}
use real_time_system_project.Threaded.Parser.{QueueState, dispatch}
use real_time_system_project.Admission.{Log}
use real_time_system_project.Threaded.System.{
  Step, parse, work, check, ticks, lead, cancel, System, found, finish_task, move, after_recv,
  after_dispatch, step, run,
}

-- the rounds of worker `i` among some steps
abbrev pub rounds_in : ℕ → List Step → ℕ
rounds_in i [] = 0
rounds_in i (work j begin finish ∷ steps) = (if j == i then 1 else 0) + rounds_in i steps
rounds_in i (_ ∷ steps) = rounds_in i steps

module _ (std : BinaryHeap) (hist : Histogram) where
  -- What a step from a cancelled state leaves of the rounds of worker `i`.
  record Winds (s : System std hist) (i made : ℕ) (s' : System std hist) : Type 0 where
    cancelled : s'.cancelled ≡ true
    crew : length s'.workers ≡ length s.workers
    left : left_of (get_elem? s'.workers i) ≡ left_of (get_elem? s.workers i) - made

  unwound : (s : System std hist) (i : ℕ) → s.cancelled ≡ true → Winds s i 0 s
  unwound s i c = record { cancelled = c; crew = refl; left = omega arith }

  move-Winds :
      (s : System std hist) (i j : ℕ) (begin finish : Instant) (o : Option Worker)
      → get_elem? s.workers j ≡ o
      → s.cancelled ≡ true
      → Winds s i (if j == i then 1 else 0) (move std hist s j begin finish o)
  unfolding move finish_task
  move-Winds s i j begin finish none w c = record {
    cancelled = c;
    crew = refl;
    left = idle_left s.workers i j (ap left_of w);
  }
  move-Winds s i j begin finish (some ended) w c = record {
    cancelled = c;
    crew = refl;
    left = idle_left s.workers i j (ap left_of w);
  }
  move-Winds s i j begin finish (some (holding t)) w c = record {
    cancelled = c;
    crew = length-set s.workers j looking;
    left = set_left s.workers i j looking w refl;
  }
  move-Winds s i j begin finish (some looking) w c = stops s.cancelled c
    where
      stops :
          (b : Bool)
          → b ≡ true
          → Winds s i (if j == i then 1 else 0) (
              if b
              then record s { workers = set s.workers j ended }
              else found std hist s j (pop std s.queue))
      stops true e = record {
        cancelled = c;
        crew = length-set s.workers j ended;
        left = set_left s.workers i j ended w refl;
      }
      stops false e = absurd (false≢true e)

  -- The same of a step that may have panicked, for the rounds of worker `i` in it.
  abbrev WindsOr : System std hist → ℕ → ℕ → Option (System std hist) → Type 0
  WindsOr s i made none = Unit
  WindsOr s i made (some s') = Winds s i made s'

  module _ {E : Type 0} (from_str : Text → Result E Event) where
    step-Winds :
        (s : System std hist) (i : ℕ) (e : Step)
        → s.cancelled ≡ true
        → WindsOr s i (rounds_in i (e ∷ [])) (step std hist from_str s e)
    unfolding step
    step-Winds s i (parse clock raw) c = dispatched (
        dispatch std from_str (is_degraded hist s.recorded.failsafe) clock raw
          (record { queue = s.queue; shared = s.shared }))
      where
        dispatched :
            (o : Option (QueueState std × Option (Log E)))
            → WindsOr s i 0 (after_dispatch std hist from_str s o)
        dispatched none = tt
        dispatched (some (q, log)) = record { cancelled = c; crew = refl; left = omega arith }
    step-Winds s i (work j begin finish) c =
        let m = move-Winds s i j begin finish (get_elem? s.workers j) refl c in
        record { cancelled = m.cancelled; crew = m.crew; left = omega (arith, m.left) }
    step-Winds s i (check now) c = rw (ap not c) (unwound s i c)
    step-Winds s i ticks c = advances s.cancelled
      where
        advances :
            (b : Bool)
            → Winds s i 0 (
                if b then s else record s {
                  recorded = record s.recorded { failsafe = tick hist s.recorded.failsafe };
                })
        advances true = unwound s i c
        advances false = record { cancelled = c; crew = refl; left = omega arith }
    step-Winds s i lead c = receives s.channel
      where
        receives : (channel : List LbCmd) → Winds s i 0 (after_recv std hist s channel)
        receives [] = unwound s i c
        receives (cmd ∷ channel) = record { cancelled = c; crew = refl; left = omega arith }
    step-Winds s i cancel c = record { cancelled = refl; crew = refl; left = omega arith }

    Winds-trans :
        (s s' : System std hist) (i made more : ℕ) (o : Option (System std hist))
        → Winds s i made s'
        → WindsOr s' i more o
        → WindsOr s i (made + more) o
    Winds-trans s s' i made more none v w = tt
    Winds-trans s s' i made more (some s'') v w = record {
      cancelled = w.cancelled;
      crew = w.crew ∙ v.crew;
      left = omega (arith, v.left, w.left);
    }

    goes_on :
        (s : System std hist) (i made : ℕ) (steps : List Step) (o : Option (System std hist))
        → WindsOr s i made o
        → ((s' : System std hist)
            → s'.cancelled ≡ true
            → WindsOr s' i (rounds_in i steps) (run std hist from_str s' steps))
        → WindsOr s i
            (made + rounds_in i steps)
            (elim o [ none ↦ none | some s' ↦ run std hist from_str s' steps ])
    goes_on s i made steps none w rest = tt
    goes_on s i made steps (some s') w rest =
        Winds-trans s s' i made (rounds_in i steps) (run std hist from_str s' steps) w
          (rest s' w.cancelled)

    rounds_in-cons :
        (i : ℕ) (e : Step) (steps : List Step)
        → rounds_in i (e ∷ []) + rounds_in i steps ≡ rounds_in i (e ∷ steps)
    rounds_in-cons i (parse clock raw) steps = omega arith
    rounds_in-cons i (work j begin finish) steps = omega arith
    rounds_in-cons i (check now) steps = omega arith
    rounds_in-cons i ticks steps = omega arith
    rounds_in-cons i lead steps = omega arith
    rounds_in-cons i cancel steps = omega arith

    run-Winds :
        (steps : List Step) (s : System std hist) (i : ℕ)
        → s.cancelled ≡ true
        → WindsOr s i (rounds_in i steps) (run std hist from_str s steps)
    unfolding run
    run-Winds [] s i c = unwound s i c
    run-Winds (e ∷ steps) s i c =
        subst (λ n. WindsOr s i n (run std hist from_str s (e ∷ steps))) (rounds_in-cons i e steps)
          (goes_on s i (rounds_in i (e ∷ [])) steps (step std hist from_str s e)
            (step-Winds s i e c) (λ s' c'. run-Winds steps s' i c'))

    -- Once the cancellation is set, two rounds of each worker end them all, in whatever order they come
    -- and whatever else happens in between: the joins return.
    pub run-all_ended :
        (steps : List Step) (s : System std hist) {s' : System std hist}
        → s.cancelled ≡ true
        → run std hist from_str s steps ≡ some s'
        → ((i : ℕ) → i < length s.workers → 2 ≤ rounds_in i steps)
        → all_ended s'.workers ≡ true
    run-all_ended steps s {s'} c e twice = ended_all s'.workers λ i below.
        let w = subst (WindsOr s i (rounds_in i steps)) e (run-Winds steps s i c) in
        omega (arith, w.left, left_of-le (get_elem? s.workers i), twice i (omega (arith, w.crew)))
