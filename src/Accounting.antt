-- ===== src/Accounting.antt =====
-- What a worker records of one task, the same in crates/rts-async/src/scheduler.rs and in
-- crates/rts-threaded/src/scheduler.rs, around a send to the leaderboard.
pub mod Folds
pub mod Samples
pub mod Tests
use real_time_system_project.Common.{
  ℕ, ◌-◌, Bool, true, false, if◌then◌else◌, ltb, Text, List, [], ◌∷◌, to_u64,
}
use real_time_system_project.Time.{Instant, Duration, duration_since}
use real_time_system_project.Priority.{Priority}
use real_time_system_project.Event.{Task}
use real_time_system_project.Histogram.{Histogram}
use real_time_system_project.FailSafe.{FailSafeController}
use real_time_system_project.FailSafe
use real_time_system_project.Metrics.{Metrics, record_drift, record_deadline_miss}
use real_time_system_project.Metrics

abbrev pub deadline_ns : ℕ
deadline_ns = 2_000_000

-- The logged event of a task.
pub record TaskLog : Type 0 where
  pub priority : Priority
  pub drift_ns : ℕ
  pub duration_ns : ℕ
  pub deadline_miss : Bool

module _ (hist : Histogram) where
  pub record Recorded : Type 0 where
    pub metrics : Metrics hist
    pub failsafe : FailSafeController hist

  -- `actual_start` is read before and `finished` after the send to the leaderboard.
  unfoldable pub account : Recorded → Task → Instant → Instant → Recorded × TaskLog
  account r task actual_start finished =
      let drift = duration_since actual_start task.enqueued_at in
      let total = duration_since finished actual_start in
      let metrics =
        Metrics.record_jitter hist (record_drift hist r.metrics task.priority drift) total in
      let deadline_miss = ltb deadline_ns total in
      (
        record {
          metrics =
              if deadline_miss then record_deadline_miss hist metrics task.priority else metrics;
          failsafe = FailSafe.record_jitter hist r.failsafe total;
        },
        record {
          priority = task.priority;
          drift_ns = to_u64 drift;
          duration_ns = to_u64 total;
          deadline_miss = deadline_miss;
        },
      )

  -- One task after the other, each with its two readings of the clock.
  unfoldable pub account_all : Recorded → List (Task × Instant × Instant) → Recorded
  unfolding account
  account_all r [] = r
  account_all r ((task, start, finish) ∷ runs) = account_all (account r task start finish).0 runs
