-- ===== src/Metrics/Counting.antt =====
-- How many samples the histograms hold.
use real_time_system_project.Common.{ℕ, ◌+◌, ◌≤◌, ◌≡◌, arith, min, u64_max}
use real_time_system_project.Time.{Duration}
use real_time_system_project.Priority.{Priority, human, bot}
use real_time_system_project.Histogram.{Histogram, max_value}
use real_time_system_project.Metrics.{keep_sample, sample_ns}

abbrev pub drift_human_add : Priority → ℕ
drift_human_add human = 1
drift_human_add bot = 0

abbrev pub drift_bot_add : Priority → ℕ
drift_bot_add human = 0
drift_bot_add bot = 1

module _ (hist : Histogram) where
  open hist use {Hist, len, record_value, record_value_in_range}

  -- A sample of at most a minute is kept, and one of no nanoseconds counts as one nanosecond.
  pub len-keep_sample :
      (h : Hist) (d : Duration)
      → d ≤ max_value
      → len (keep_sample hist h d) ≡ min (len h + 1) u64_max
  len-keep_sample h d in_range =
      let (h', e, l) = record_value_in_range h (sample_ns d) (omega arith) (omega arith) in rw e l
