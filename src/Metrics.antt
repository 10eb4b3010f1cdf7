-- ===== src/Metrics.antt =====
-- crates/rts-core/src/metrics.rs: the histograms of drift and jitter, and the counters. A row of the CSV
-- file is a record of its numbers; the texts of the files are in Files.
pub mod Counting
pub mod Files
use real_time_system_project.Common.{
  ℕ, ◌+◌, ◌%◌, ◌^◌, List, [], ◌∷◌, Text, bytes, wrapping_suc, to_u64, max, Option, none, some,
}
use real_time_system_project.Time.{Duration}
use real_time_system_project.Priority.{Priority, human, bot}
use real_time_system_project.Histogram.{Histogram}
use real_time_system_project.FailSafe.{or_keep}

pub record MetricsSnapshot : Type 0 where
  pub drift_human_p50 : ℕ
  pub drift_human_p90 : ℕ
  pub drift_human_p99 : ℕ
  pub drift_human_p999 : ℕ
  pub drift_bot_p50 : ℕ
  pub drift_bot_p90 : ℕ
  pub drift_bot_p99 : ℕ
  pub drift_bot_p999 : ℕ
  pub jitter_p50 : ℕ
  pub jitter_p90 : ℕ
  pub jitter_p99 : ℕ
  pub jitter_p999 : ℕ
  pub deadline_miss_human : ℕ
  pub deadline_miss_bot : ℕ
  pub overflow_count : ℕ
  pub sample_count_human : ℕ
  pub sample_count_bot : ℕ

pub record CsvRow : Type 0 where
  pub metric : Text
  pub p50 : ℕ
  pub p90 : ℕ
  pub p99 : ℕ
  pub p999 : ℕ
  pub sample_count : ℕ

-- `u64::try_from(d.as_nanos()).unwrap_or(u64::MAX).max(1)`
abbrev pub sample_ns : Duration → ℕ
sample_ns d = max (to_u64 d) 1

module _ (hist : Histogram) where
  open hist use {Hist, new as new_hist, record_value, len, value_at_quantile}

  pub record Metrics : Type 0 where
    pub drift_human : Hist
    pub drift_bot : Hist
    pub jitter : Hist
    pub deadline_miss_human : ℕ
    pub deadline_miss_bot : ℕ
    pub overflow_count : ℕ

  unfoldable pub new : Metrics
  new = record {
    drift_human = new_hist;
    drift_bot = new_hist;
    jitter = new_hist;
    deadline_miss_human = 0;
    deadline_miss_bot = 0;
    overflow_count = 0;
  }

  abbrev pub keep_sample : Hist → Duration → Hist
  keep_sample h d = or_keep h (record_value h (sample_ns d))

  unfoldable pub record_drift : Metrics → Priority → Duration → Metrics
  record_drift m human d = record m { drift_human = keep_sample m.drift_human d }
  record_drift m bot d = record m { drift_bot = keep_sample m.drift_bot d }

  unfoldable pub record_jitter : Metrics → Duration → Metrics
  record_jitter m j = record m { jitter = keep_sample m.jitter j }

  unfoldable pub record_deadline_miss : Metrics → Priority → Metrics
  record_deadline_miss m human = record m {
    deadline_miss_human = wrapping_suc m.deadline_miss_human;
  }
  record_deadline_miss m bot = record m { deadline_miss_bot = wrapping_suc m.deadline_miss_bot }

  unfoldable pub snapshot : Metrics → MetricsSnapshot
  snapshot m =
      let dh = m.drift_human in
      let db = m.drift_bot in
      let j = m.jitter in
      record {
        drift_human_p50 = value_at_quantile dh 500;
        drift_human_p90 = value_at_quantile dh 900;
        drift_human_p99 = value_at_quantile dh 990;
        drift_human_p999 = value_at_quantile dh 999;
        drift_bot_p50 = value_at_quantile db 500;
        drift_bot_p90 = value_at_quantile db 900;
        drift_bot_p99 = value_at_quantile db 990;
        drift_bot_p999 = value_at_quantile db 999;
        jitter_p50 = value_at_quantile j 500;
        jitter_p90 = value_at_quantile j 900;
        jitter_p99 = value_at_quantile j 990;
        jitter_p999 = value_at_quantile j 999;
        deadline_miss_human = m.deadline_miss_human;
        deadline_miss_bot = m.deadline_miss_bot;
        overflow_count = m.overflow_count;
        sample_count_human = len dh;
        sample_count_bot = len db;
      }

  -- The rows of `dump_csv` below its heading.
  unfoldable pub csv_rows : Metrics → List CsvRow
  unfolding snapshot
  csv_rows m =
      let s = snapshot m in
      record {
        metric = bytes "drift_human";
        p50 = s.drift_human_p50;
        p90 = s.drift_human_p90;
        p99 = s.drift_human_p99;
        p999 = s.drift_human_p999;
        sample_count = s.sample_count_human;
      }
      ∷ record {
        metric = bytes "drift_bot";
        p50 = s.drift_bot_p50;
        p90 = s.drift_bot_p90;
        p99 = s.drift_bot_p99;
        p999 = s.drift_bot_p999;
        sample_count = s.sample_count_bot;
      }
      ∷ record {
        metric = bytes "jitter";
        p50 = s.jitter_p50;
        p90 = s.jitter_p90;
        p99 = s.jitter_p99;
        p999 = s.jitter_p999;
        sample_count = (s.sample_count_human + s.sample_count_bot) % 2 ^ 64;
      }
      ∷ []
