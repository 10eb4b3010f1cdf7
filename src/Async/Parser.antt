-- ===== src/Async/Parser.antt =====
-- crates/rts-async/src/parser.rs: a payload into one of the two lanes.
pub mod Lanes
pub mod Heartbeat
pub mod Tests
use real_time_system_project.Common.{
  ℕ, ◌≡◌, Bool, List, [], ◌∷◌, Option, none, some, if◌then◌else◌, Text, Result,
}
use real_time_system_project.Priority.{is_human}
use real_time_system_project.Event.{Event, Task, RtsError}
use real_time_system_project.Ring.{DropOldestRing, PushOutcome, ok, dropped_oldest, push, len}
use real_time_system_project.Admission.{
  Shared, Clock, Admission, refused, shed, admitted, admit, Log, parse_error, bot_dropped, log_push,
}

pub record LaneState : Type 0 where
  pub hi : DropOldestRing Task
  pub lo : DropOldestRing Task
  pub shared : Shared

module _ {E : Type 0} where
  enqueue : LaneState → Clock → Admission E → LaneState × Option (Log E)
  enqueue s clock (refused e) = (s, some (parse_error e))
  enqueue s clock shed = (s, some bot_dropped)
  enqueue s clock (admitted task) =
      let (outcome, ring) = push (if is_human task.priority then s.hi else s.lo) task in
      (
        if is_human task.priority then record s { hi = ring } else record s { lo = ring },
        log_push outcome clock.overflow_ns (len ring),
      )

  unfoldable pub dispatch :
      (Text → Result E Event) → Bool → Clock → Text → LaneState → LaneState × Option (Log E)
  unfolding enqueue
  dispatch from_str degraded clock raw s =
      let (admission, shared) = admit from_str degraded clock raw s.shared in
      enqueue (record s { shared = shared }) clock admission

  -- The calls of the ingest sink, each with the mode of the controller and the clock at its time.
  unfoldable pub dispatch_all :
      (Text → Result E Event) → List (Bool × Clock × Text) → LaneState → LaneState
  unfolding dispatch
  dispatch_all from_str [] s = s
  dispatch_all from_str ((degraded, clock, raw) ∷ calls) s =
      dispatch_all from_str calls (dispatch from_str degraded clock raw s).0
