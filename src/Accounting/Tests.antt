-- ===== src/Accounting/Tests.antt =====
-- A human and a late bot, and instances of the theorems on what is recorded.
use real_time_system_project.Common.{bytes}
use real_time_system_project.Time.{Instant}
use real_time_system_project.Priority.{is_bot, Priority}
use real_time_system_project.Event.{Task}
use real_time_system_project.Histogram.Sample.{samples}
use real_time_system_project.FailSafe
use real_time_system_project.Metrics
use real_time_system_project.Metrics.{Metrics, csv_rows, CsvRow}
use real_time_system_project.Accounting.{Recorded}

abbrev pub edit : Priority → Instant → Task
edit p t = record {
  event = record { user = bytes "ann"; bot = is_bot p; server_name = bytes "en" };
  priority = p;
  enqueued_at = t;
}

abbrev pub nothing : Recorded samples
nothing = record { metrics = Metrics.new samples; failsafe = FailSafe.new samples }
