-- ===== src/Async/Parser/Lanes.antt =====
-- What the calls of the parser leave in the lanes.
use real_time_system_project.Common.{
  ◌≡◌, refl, sym, ap, ◌∙◌, Bool, ◌&&◌, not, List, [], ◌∷◌, ◌++◌, if◌then◌else◌, arith, Text, Result,
  ok, err,
}
use real_time_system_project.Priority.{Priority, human, bot}
use real_time_system_project.Event.{Event, Task, into_owned, parse_one}
use real_time_system_project.Ring.{DropOldestRing, push, push_all}
use real_time_system_project.Admission.{Clock, admit}
use real_time_system_project.Async.Parser.{LaneState, dispatch, dispatch_all}

module _ {E : Type 0} (from_str : Text → Result E Event) where
  -- the tasks of the events of one class, if the mode lets the class in
  abbrev pub task_of : Priority → Clock → Event → Task
  task_of p clock e = record { event = into_owned e; priority = p; enqueued_at = clock.enqueued_at }

  abbrev pub human_task : Clock → Result E Event → List Task
  human_task clock (err x) = []
  human_task clock (ok e) = if e.bot then [] else task_of human clock e ∷ []

  abbrev pub bot_task : Bool → Clock → Result E Event → List Task
  bot_task degraded clock (err x) = []
  bot_task degraded clock (ok e) = if e.bot && not degraded then task_of bot clock e ∷ [] else []

  abbrev pub human_tasks : List (Bool × Clock × Text) → List Task
  human_tasks [] = []
  human_tasks ((degraded, clock, raw) ∷ calls) =
      human_task clock (from_str raw) ++ human_tasks calls

  abbrev pub bot_tasks : List (Bool × Clock × Text) → List Task
  bot_tasks [] = []
  bot_tasks ((degraded, clock, raw) ∷ calls) =
      bot_task degraded clock (from_str raw) ++ bot_tasks calls

  pub dispatch_lanes :
      (degraded : Bool) (clock : Clock) (raw : Text) (s : LaneState) (r : Result E Event)
      → from_str raw ≡ r
      → let s' = (dispatch from_str degraded clock raw s).0 in
        (s'.hi ≡ push_all s.hi (human_task clock r))
        × (s'.lo ≡ push_all s.lo (bot_task degraded clock r))
  unfolding dispatch admit parse_one push_all
  dispatch_lanes degraded clock raw s (err x) h = ground arith
  dispatch_lanes degraded clock raw s (ok e) h = ground arith

  push_all-append :
      (r : DropOldestRing Task) (xs ys : List Task)
      → push_all r (xs ++ ys) ≡ push_all (push_all r xs) ys
  unfolding push_all
  push_all-append r [] ys = refl
  push_all-append r (x ∷ xs) ys = push_all-append (push r x).1 xs ys

  -- After any calls, the high lane has been pushed the tasks of all the events of humans, and the low
  -- lane those of the events of bots that were parsed while the mode was normal, each in order and
  -- nothing else: payloads that do not parse push nothing, and degraded mode holds back bots alone.
  pub dispatch_all_lanes :
      (calls : List (Bool × Clock × Text)) (s : LaneState)
      → let s' = dispatch_all from_str calls s in
        (s'.hi ≡ push_all s.hi (human_tasks calls)) × (s'.lo ≡ push_all s.lo (bot_tasks calls))
  unfolding dispatch_all push_all
  dispatch_all_lanes [] s = (refl, refl)
  dispatch_all_lanes ((degraded, clock, raw) ∷ calls) s =
      let here = dispatch_lanes degraded clock raw s (from_str raw) refl in
      let rest = dispatch_all_lanes calls (dispatch from_str degraded clock raw s).0 in
      (
        rest.0
            ∙ ap (λ r. push_all r (human_tasks calls)) here.0
            ∙ sym (push_all-append s.hi (human_task clock (from_str raw)) (human_tasks calls)),
        rest.1
            ∙ ap (λ r. push_all r (bot_tasks calls)) here.1
            ∙ sym (push_all-append s.lo (bot_task degraded clock (from_str raw)) (bot_tasks calls)),
      )
