-- ===== src/Accounting/Samples.antt =====
-- The histograms and counters after any tasks.
use real_time_system_project.Common.{
  ℕ, ◌+◌, ◌%◌, ◌^◌, ◌≤◌, ◌≡◌, refl, Bool, if◌then◌else◌, ltb, List, [], ◌∷◌, All, arith, min,
  u64_max, length, map, subst, sym,
}
use real_time_system_project.Time.{Instant, duration_since}
use real_time_system_project.Priority.{Priority, human, bot, is_human, is_bot}
use real_time_system_project.Event.{Task}
use real_time_system_project.Histogram.{Histogram, max_value}
use real_time_system_project.Metrics.{
  Metrics, CsvRow, record_drift, record_deadline_miss, csv_rows, record_jitter,
}
use real_time_system_project.Metrics
use real_time_system_project.Metrics.Counting.{len-keep_sample}
use real_time_system_project.Accounting.{Recorded, account, account_all, deadline_ns}

-- The delay and the run of a task last at most a minute, the largest value of the histograms.
abbrev pub InRange : Task × Instant × Instant → Type 0
InRange (task, start, finish) =
    (duration_since start task.enqueued_at ≤ max_value) × (duration_since finish start ≤ max_value)

-- the number of tasks of a class, and of those that missed the deadline
abbrev pub count_of : (Priority → Bool) → List (Task × Instant × Instant) → ℕ
count_of class [] = 0
count_of class ((task, start, finish) ∷ runs) =
    (if class task.priority then 1 else 0) + count_of class runs

abbrev pub late_of : (Priority → Bool) → List (Task × Instant × Instant) → ℕ
late_of class [] = 0
late_of class ((task, start, finish) ∷ runs) =
    (if class task.priority
      then (if ltb deadline_ns (duration_since finish start) then 1 else 0)
      else 0)
    + late_of class runs

module _ (hist : Histogram) where
  open hist use {len}

  -- `h` tasks of humans and `b` of bots have been recorded.
  pub record Holds (m : Metrics hist) (h b : ℕ) : Type 0 where
    pub human : len m.drift_human ≡ min h u64_max
    pub bot : len m.drift_bot ≡ min b u64_max
    pub jitter : len m.jitter ≡ min (h + b) u64_max

  account-Holds :
      (p : Priority) (r : Recorded hist) (task : Task) (start finish : Instant) {h b : ℕ}
      → task.priority ≡ p
      → InRange (task, start, finish)
      → Holds r.metrics h b
      → Holds
          (account hist r task start finish).0.metrics
          ((if is_human p then 1 else 0) + h)
          ((if is_bot p then 1 else 0) + b)
  unfolding account record_drift record_jitter record_deadline_miss
  account-Holds human r task start finish e range v = ground (
    arith,
    len-keep_sample hist r.metrics.drift_human (duration_since start task.enqueued_at),
    len-keep_sample hist r.metrics.jitter (duration_since finish start),
  )
  account-Holds bot r task start finish e range v = ground (
    arith,
    len-keep_sample hist r.metrics.drift_bot (duration_since start task.enqueued_at),
    len-keep_sample hist r.metrics.jitter (duration_since finish start),
  )

  account_all-Holds :
      (r : Recorded hist) (runs : List (Task × Instant × Instant)) {h b : ℕ}
      → All InRange runs
      → Holds r.metrics h b
      → Holds
          (account_all hist r runs).metrics
          (count_of is_human runs + h)
          (count_of is_bot runs + b)
  unfolding account_all
  account_all-Holds r [] range v = omega (arith, v.human, v.bot, v.jitter)
  account_all-Holds r ((task, start, finish) ∷ runs) range v =
      let rest =
        account_all-Holds (account hist r task start finish).0 runs range.1
          (account-Holds task.priority r task start finish refl range.0 v) in
      omega (arith, rest.human, rest.bot, rest.jitter)

  classes :
      (runs : List (Task × Instant × Instant))
      → count_of is_human runs + count_of is_bot runs ≡ length runs
  classes [] = refl
  classes ((task, start, finish) ∷ runs) = ground (arith, classes runs, each task.priority)
    where
      each : (p : Priority) → (if is_human p then 1 else 0) + (if is_bot p then 1 else 0) ≡ 1
      each human = refl
      each bot = refl

  new-Holds : Holds (Metrics.new hist) 0 0
  unfolding Metrics.new
  new-Holds = omega (arith, hist.len-new)

  -- the count that `dump_csv` writes into the row of the jitter
  abbrev pub jitter_row_count : Metrics hist → ℕ
  jitter_row_count m = (len m.drift_human + len m.drift_bot) % 2 ^ 64

  -- After any tasks, fewer than a `u64` counts, whose delays and runs last at most a minute, recorded on
  -- new metrics, the drift histograms hold one sample for each task of their class, and the jitter
  -- histogram holds as many as the row of the jitter in the CSV file says.
  pub account_all_counts :
      (r : Recorded hist) (runs : List (Task × Instant × Instant))
      → r.metrics ≡ Metrics.new hist
      → All InRange runs
      → length runs ≤ u64_max
      → let m = (account_all hist r runs).metrics in
        (len m.drift_human ≡ count_of is_human runs)
        × (len m.drift_bot ≡ count_of is_bot runs)
        × (len m.jitter ≡ length runs)
        × (map (λ (row : CsvRow). row.sample_count) (csv_rows hist m)
            ≡ count_of is_human runs ∷ count_of is_bot runs ∷ len m.jitter ∷ [])
  unfolding csv_rows
  account_all_counts r runs e range few =
      let v = account_all-Holds r runs range (subst (λ m. Holds m 0 0) (sym e) new-Holds) in
      let m = (account_all hist r runs).metrics in
      let humans : len m.drift_human ≡ count_of is_human runs =
        omega (arith, v.human, classes runs) in
      let bots : len m.drift_bot ≡ count_of is_bot runs = omega (arith, v.bot, classes runs) in
      let all : len m.jitter ≡ length runs = omega (arith, v.jitter, classes runs) in
      let row : jitter_row_count m ≡ len m.jitter =
        omega (arith, humans, bots, all, classes runs) in
      (humans, bots, all, cc)

  miss_step :
      (p : Priority) (r : Recorded hist) (task : Task) (start finish : Instant)
      → task.priority ≡ p
      → let m = r.metrics in
        let m' = (account hist r task start finish).0.metrics in
        let late : ℕ = if ltb deadline_ns (duration_since finish start) then 1 else 0 in
        (m'.deadline_miss_human % 2 ^ 64
          ≡ (m.deadline_miss_human + (if is_human p then late else 0)) % 2 ^ 64)
        × (m'.deadline_miss_bot % 2 ^ 64
            ≡ (m.deadline_miss_bot + (if is_bot p then late else 0)) % 2 ^ 64)
  unfolding account record_drift record_jitter record_deadline_miss
  miss_step human r task start finish e = ground arith
  miss_step bot r task start finish e = ground arith

  -- The two miss counters grow by the number of tasks of their class that ran for more than two
  -- milliseconds, modulo their width.
  pub account_all_misses :
      (r : Recorded hist) (runs : List (Task × Instant × Instant))
      → let m = r.metrics in
        let m' = (account_all hist r runs).metrics in
        (m'.deadline_miss_human % 2 ^ 64 ≡ (m.deadline_miss_human + late_of is_human runs) % 2 ^ 64)
        × (m'.deadline_miss_bot % 2 ^ 64 ≡ (m.deadline_miss_bot + late_of is_bot runs) % 2 ^ 64)
  unfolding account_all
  account_all_misses r [] = omega arith
  account_all_misses r ((task, start, finish) ∷ runs) = omega (
    arith,
    account_all_misses (account hist r task start finish).0 runs,
    miss_step task.priority r task start finish refl,
  )
