-- ===== src/Accounting/Folds.antt =====
-- What any tasks leave in each histogram, in the window of the fail-safe and in the log.
use real_time_system_project.Common.{
  ◌≡◌, refl, ap, ◌∙◌, Bool, true, false, List, [], ◌∷◌, map, if◌then◌else◌, ltb, to_u64,
}
use real_time_system_project.Time.{Instant, Duration, duration_since}
use real_time_system_project.Priority.{Priority, human, bot, is_human, is_bot}
use real_time_system_project.Event.{Task}
use real_time_system_project.Histogram.{Histogram}
use real_time_system_project.FailSafe.{FailSafeController, record_all}
use real_time_system_project.FailSafe
use real_time_system_project.Metrics.{Metrics, keep_sample, record_drift, record_deadline_miss}
use real_time_system_project.Metrics
use real_time_system_project.Accounting.{Recorded, TaskLog, account, account_all}

-- the delays of the tasks of a class, and how long all tasks ran
abbrev pub drifts_of : (Priority → Bool) → List (Task × Instant × Instant) → List Duration
drifts_of class [] = []
drifts_of class ((task, start, finish) ∷ runs) =
    if class task.priority
    then duration_since start task.enqueued_at ∷ drifts_of class runs
    else drifts_of class runs

abbrev pub duration_of : Task × Instant × Instant → Duration
duration_of (task, start, finish) = duration_since finish start

-- The log of a task: two milliseconds are the deadline.
abbrev pub log_of : Task × Instant × Instant → TaskLog
log_of (task, start, finish) = record {
  priority = task.priority;
  drift_ns = to_u64 (duration_since start task.enqueued_at);
  duration_ns = to_u64 (duration_since finish start);
  deadline_miss = ltb 2_000_000 (duration_since finish start);
}

module _ (hist : Histogram) where
  open hist use {Hist}

  -- A histogram after samples, in order.
  abbrev pub keep_samples : Hist → List Duration → Hist
  keep_samples h [] = h
  keep_samples h (d ∷ ds) = keep_samples (keep_sample hist h d) ds

  -- The tasks are in the histograms of their class and in that of the jitter, and in the window.
  pub record Folds (r r' : Recorded hist) (runs : List (Task × Instant × Instant)) : Type 0 where
    pub human :
        r'.metrics.drift_human ≡ keep_samples r.metrics.drift_human (drifts_of is_human runs)
    pub bot : r'.metrics.drift_bot ≡ keep_samples r.metrics.drift_bot (drifts_of is_bot runs)
    pub jitter : r'.metrics.jitter ≡ keep_samples r.metrics.jitter (map duration_of runs)
    pub window : r'.failsafe ≡ record_all hist r.failsafe (map duration_of runs)

  pub account-log :
      (r : Recorded hist) (task : Task) (start finish : Instant)
      → (account hist r task start finish).1 ≡ log_of (task, start, finish)
  unfolding account
  account-log r task start finish = refl

  miss_keeps :
      (b : Bool) (p : Priority) (m : Metrics hist)
      → let m' = if b then record_deadline_miss hist m p else m in
        (m'.drift_human ≡ m.drift_human) × (m'.drift_bot ≡ m.drift_bot) × (m'.jitter ≡ m.jitter)
  unfolding record_deadline_miss
  miss_keeps false p m = (refl, refl, refl)
  miss_keeps true human m = (refl, refl, refl)
  miss_keeps true bot m = (refl, refl, refl)

  account_one :
      (p : Priority) (r : Recorded hist) (task : Task) (start finish : Instant)
      → task.priority ≡ p
      → let m = r.metrics in
        let m' = (account hist r task start finish).0.metrics in
        let drift = duration_since start task.enqueued_at in
        (m'.drift_human
          ≡ (if is_human p then keep_sample hist m.drift_human drift else m.drift_human))
        × (m'.drift_bot ≡ (if is_bot p then keep_sample hist m.drift_bot drift else m.drift_bot))
        × (m'.jitter ≡ keep_sample hist m.jitter (duration_since finish start))
  unfolding account record_drift Metrics.record_jitter
  account_one human r task start finish e = rw e (
      miss_keeps (ltb 2_000_000 (duration_since finish start)) human (
        Metrics.record_jitter hist
          (record_drift hist r.metrics human (duration_since start task.enqueued_at))
          (duration_since finish start)))
  account_one bot r task start finish e = rw e (
      miss_keeps (ltb 2_000_000 (duration_since finish start)) bot (
        Metrics.record_jitter hist
          (record_drift hist r.metrics bot (duration_since start task.enqueued_at))
          (duration_since finish start)))

  account-window :
      (r : Recorded hist) (task : Task) (start finish : Instant)
      → (account hist r task start finish).0.failsafe
        ≡ FailSafe.record_jitter hist r.failsafe (duration_since finish start)
  unfolding account
  account-window r task start finish = refl

  keep_if :
      (b : Bool) (d : Duration) (ds : List Duration) (h h' : Hist)
      → h' ≡ (if b then keep_sample hist h d else h)
      → keep_samples h' ds ≡ keep_samples h (if b then d ∷ ds else ds)
  keep_if true d ds h h' e = ap (λ h. keep_samples h ds) e
  keep_if false d ds h h' e = ap (λ h. keep_samples h ds) e

  pub account_all-Folds :
      (r : Recorded hist) (runs : List (Task × Instant × Instant))
      → Folds r (account_all hist r runs) runs
  unfolding account_all record_all
  account_all-Folds r [] = record { human = refl; bot = refl; jitter = refl; window = refl }
  account_all-Folds r ((task, start, finish) ∷ runs) =
      let one = account_one task.priority r task start finish refl in
      let rest = account_all-Folds (account hist r task start finish).0 runs in
      let drift = duration_since start task.enqueued_at in
      record {
        human =
            rest.human ∙ keep_if (is_human task.priority) drift (drifts_of is_human runs) _ _ one.0;
        bot = rest.bot ∙ keep_if (is_bot task.priority) drift (drifts_of is_bot runs) _ _ one.1;
        jitter = rest.jitter ∙ ap (λ h. keep_samples h (map duration_of runs)) one.2;
        window =
            rest.window
            ∙ ap (λ c. record_all hist c (map duration_of runs))
                (account-window r task start finish);
      }
