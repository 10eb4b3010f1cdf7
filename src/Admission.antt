-- ===== src/Admission.antt =====
-- The part that crates/rts-async/src/parser.rs and crates/rts-threaded/src/parser.rs share word for word:
-- parsing a payload, the heartbeat, the class, and the test for degraded mode.
use real_time_system_project.Common.{
  ℕ, Bool, ◌&&◌, if◌then◌else◌, Text, Result, Option, none, some, ok, err,
}
use real_time_system_project.Time.{Instant}
use real_time_system_project.Priority.{Priority, from_bot_flag, is_bot}
use real_time_system_project.Event.{Event, Task, RtsError, CowCounts, into_owned, parse_one}
use real_time_system_project.Ring.{PushOutcome, ok as pushed, dropped_oldest}
use real_time_system_project.Watchdog.{WatchdogState, touch}

-- What the two parsers share with the rest of the process beside the queue.
pub record Shared : Type 0 where
  pub watchdog : WatchdogState
  pub counts : CowCounts

-- The readings of the clock in one call, in order: `touch`, `enqueued_at`, and `ts_ns` of an overflow.
pub record Clock : Type 0 where
  pub touched_ns : ℕ
  pub enqueued_at : Instant
  pub overflow_ns : ℕ

pub data Admission (E : Type 0) : Type 0 where
  refused : RtsError E → Admission E
  shed : Admission E
  admitted : Task → Admission E

-- The logged event of a call.
pub data Log (E : Type 0) : Type 0 where
  parse_error : RtsError E → Log E
  bot_dropped : Log E
  overflow : ℕ → ℕ → Log E

make_task : Event → Priority → Instant → Task
make_task e p t = record { event = into_owned e; priority = p; enqueued_at = t }

module _ {E : Type 0} where
  abbrev pub log_push : PushOutcome → ℕ → ℕ → Option (Log E)
  log_push pushed ts_ns queue_depth = none
  log_push dropped_oldest ts_ns queue_depth = some (overflow ts_ns queue_depth)

  admit_event : Bool → Clock → Result (RtsError E) Event → Shared → Admission E × Shared
  unfolding make_task
  admit_event degraded clock (err e) s = (refused e, s)
  admit_event degraded clock (ok event) s =
      let s' : Shared = record s { watchdog = touch s.watchdog clock.touched_ns } in
      let priority = from_bot_flag event.bot in
      if is_bot priority && degraded
      then (shed, s')
      else (admitted (make_task event priority clock.enqueued_at), s')

  -- `degraded` is what `failsafe.is_degraded()` returns in the call.
  unfoldable pub admit :
      (Text → Result E Event) → Bool → Clock → Text → Shared → Admission E × Shared
  unfolding admit_event from_bot_flag
  admit from_str degraded clock raw s =
      let (parsed, counts) = parse_one from_str s.counts raw in
      admit_event degraded clock parsed (record s { counts = counts })
