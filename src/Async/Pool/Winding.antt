-- ===== src/Async/Pool/Winding.antt =====
-- What the workers still do once the pipeline is cancelled.
use mathlib.Core.Bool.{true≢false}
use real_time_system_project.Common.{
  ℕ, ◌+◌, ◌≤◌, ◌≡◌, refl, sym, ◌∙◌, subst, true, List, [], ◌∷◌, Option, none, some, Text, Result,
  length, All, arith, get_elem?, set, length-append, length-set,
}
use real_time_system_project.Time.{Instant}
use real_time_system_project.Event.{Event}
use real_time_system_project.Histogram.{Histogram}
use real_time_system_project.Leaderboard.{LbCmd}
use real_time_system_project.Workers.{
  Worker, looking, holding, ended, load_of, in_flight, in_flight-set,
}
use real_time_system_project.Async.Scheduler.{select, Selection, stop, sleep, take_hi, take_lo}
use real_time_system_project.Async.System as AsyncSystem
use real_time_system_project.Async.System.{System, Step, after_recv}
use real_time_system_project.Async.Pool.{
  Pool, Move, parse, take, finish, ticks, lead, cancel, ask, chosen, take_turn, finish_turn, step,
  run,
}
use real_time_system_project.Async.Pool.Updates.{IsQuiet, name_sent, sent, sent_names}

module _ (hist : Histogram) {E : Type 0} (from_str : Text → Result E Event) where
  -- From a cancelled state on nobody takes a task, and a worker sends one update at most.
  pub record Winds (p : Pool hist) (names : List Text) (p' : Pool hist) : Type 0 where
    pub cancelled : p'.base.cancelled ≡ true
    pub few : length names + in_flight p'.workers ≤ in_flight p.workers

  length-name_sent :
      (channel : List LbCmd) (w : Option Worker) → length (name_sent channel w) ≤ load_of w
  length-name_sent channel none = omega arith
  length-name_sent channel (some looking) = omega arith
  length-name_sent channel (some ended) = omega arith
  length-name_sent channel (some (holding t)) = ground arith

  finish-Winds :
      (p : Pool hist) (i : ℕ) (begin finished : Instant) (w : Option Worker)
      → get_elem? p.workers i ≡ w
      → p.base.cancelled ≡ true
      → Winds p (name_sent p.base.channel w) (finish_turn hist p i begin finished w)
  finish-Winds p i begin finished none e c = record { cancelled = c; few = omega arith }
  finish-Winds p i begin finished (some looking) e c = record { cancelled = c; few = omega arith }
  finish-Winds p i begin finished (some ended) e c = record { cancelled = c; few = omega arith }
  finish-Winds p i begin finished (some (holding t)) e c = record {
    cancelled = c;
    few = omega (
      arith,
      in_flight-set p.workers i looking e,
      length-name_sent p.base.channel (some (holding t)),
    );
  }

  select_cancelled :
      (p : Pool hist) → p.base.cancelled ≡ true → select p.base.cancelled p.base.hi p.base.lo ≡ stop
  unfolding select
  select_cancelled p c = rw c refl

  take-Winds :
      (p : Pool hist) (i : ℕ) (w : Option Worker)
      → get_elem? p.workers i ≡ w
      → p.base.cancelled ≡ true
      → Winds p [] (take_turn hist p i w)
  take-Winds p i none e c = record { cancelled = c; few = omega arith }
  take-Winds p i (some (holding t)) e c = record { cancelled = c; few = omega arith }
  take-Winds p i (some ended) e c = record { cancelled = c; few = omega arith }
  take-Winds p i (some looking) e c =
      subst (λ sel. Winds p [] (chosen hist p i sel)) (sym (select_cancelled p c))
        (record { cancelled = c; few = omega (arith, in_flight-set p.workers i ended e) })

  lead_cancelled :
      (s : System hist) (channel : List LbCmd)
      → s.cancelled ≡ true
      → (after_recv hist s channel).cancelled ≡ true
  lead_cancelled s [] c = c
  lead_cancelled s (cmd ∷ channel) c = c

  step-Winds :
      (p : Pool hist) (m : Move)
      → IsQuiet m
      → p.base.cancelled ≡ true
      → Winds p (sent hist from_str p m) (step hist from_str p m)
  unfolding step AsyncSystem.step
  step-Winds p (parse clock raw) q c = record { cancelled = c; few = omega arith }
  step-Winds p (take i) q c = take-Winds p i (get_elem? p.workers i) refl c
  step-Winds p (finish i begin finished) q c =
      finish-Winds p i begin finished (get_elem? p.workers i) refl c
  step-Winds p ticks q c = record { cancelled = rw c refl; few = omega arith }
  step-Winds p lead q c = record {
    cancelled = lead_cancelled p.base p.base.channel c;
    few = omega arith;
  }
  step-Winds p cancel q c = record { cancelled = refl; few = omega arith }
  step-Winds p ask q c = absurd (true≢false q)

  pub run-Winds :
      (moves : List Move) (p : Pool hist)
      → All IsQuiet moves
      → p.base.cancelled ≡ true
      → Winds p (sent_names hist from_str p moves) (run hist from_str p moves)
  unfolding run
  run-Winds [] p q c = record { cancelled = c; few = omega arith }
  run-Winds (m ∷ moves) p q c =
      let first = step-Winds p m q.0 c in
      let rest = run-Winds moves (step hist from_str p m) q.1 first.cancelled in
      record {
        cancelled = rest.cancelled;
        few = omega (
          arith,
          first.few,
          rest.few,
          length-append (sent hist from_str p m)
              (sent_names hist from_str (step hist from_str p m) moves),
        );
      }

  -- The workers stay as many as they are.
  crew_set : (p : Pool hist) (i : ℕ) (w : Worker) → length (set p.workers i w) ≡ length p.workers
  crew_set p i w = length-set p.workers i w

  chosen_crew :
      (p : Pool hist) (i : ℕ) (sel : Selection)
      → length (chosen hist p i sel).workers ≡ length p.workers
  chosen_crew p i stop = crew_set p i ended
  chosen_crew p i sleep = refl
  chosen_crew p i (take_hi t hi) = crew_set p i (holding t)
  chosen_crew p i (take_lo t lo) = crew_set p i (holding t)

  take_crew :
      (p : Pool hist) (i : ℕ) (w : Option Worker)
      → length (take_turn hist p i w).workers ≡ length p.workers
  take_crew p i none = refl
  take_crew p i (some looking) = chosen_crew p i (select p.base.cancelled p.base.hi p.base.lo)
  take_crew p i (some (holding t)) = refl
  take_crew p i (some ended) = refl

  finish_crew :
      (p : Pool hist) (i : ℕ) (begin finished : Instant) (w : Option Worker)
      → length (finish_turn hist p i begin finished w).workers ≡ length p.workers
  finish_crew p i begin finished none = refl
  finish_crew p i begin finished (some looking) = refl
  finish_crew p i begin finished (some (holding t)) = crew_set p i looking
  finish_crew p i begin finished (some ended) = refl

  step_crew :
      (p : Pool hist) (m : Move) → length (step hist from_str p m).workers ≡ length p.workers
  unfolding step
  step_crew p (parse clock raw) = refl
  step_crew p (take i) = take_crew p i (get_elem? p.workers i)
  step_crew p (finish i begin finished) = finish_crew p i begin finished (get_elem? p.workers i)
  step_crew p ticks = refl
  step_crew p lead = refl
  step_crew p cancel = refl
  step_crew p ask = ground arith

  pub run_crew :
      (moves : List Move) (p : Pool hist)
      → length (run hist from_str p moves).workers ≡ length p.workers
  unfolding run
  run_crew [] p = refl
  run_crew (m ∷ moves) p = run_crew moves (step hist from_str p m) ∙ step_crew p m

pub in_flight-le : (ws : List Worker) → in_flight ws ≤ length ws
in_flight-le [] = omega arith
in_flight-le (looking ∷ ws) = omega (arith, in_flight-le ws)
in_flight-le (holding t ∷ ws) = omega (arith, in_flight-le ws)
in_flight-le (ended ∷ ws) = omega (arith, in_flight-le ws)
