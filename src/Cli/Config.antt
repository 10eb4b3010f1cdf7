-- ===== src/Cli/Config.antt =====
-- From the arguments of `run-async` and `run-threaded` in crates/rts-cli/src/main.rs to what the pipelines
-- are started with, and the defaults of the `PipelineConfig` of both crates.
pub mod Started
use real_time_system_project.Common.{ℕ, ◌+◌, ◌*◌, ◌^◌, ◌-◌, max, Option, none, some, Text, bytes}
use real_time_system_project.Time.{Duration, Instant}

-- The arguments of both commands have the same fields: `RunAsyncArgs` and `RunThreadedArgs`.
pub record RunArgs : Type 0 where
  pub url : Text
  pub limit : Option ℕ
  pub duration : Option Duration
  pub workers : Option ℕ
  pub capacity : ℕ
  pub log_path : Option Text
  pub metrics_path : Option Text

-- Without the token of the cancellation, which belongs to the running pipeline.
pub record PipelineConfig : Type 0 where
  pub url : Text
  pub limit : Option ℕ
  pub workers : ℕ
  pub capacity : ℕ
  pub metrics_path : Option Text

abbrev pub default_url : Text
default_url = bytes "https://stream.wikimedia.org/v2/stream/recentchange"

-- What `clap` fills in for the options that are not given.
abbrev pub no_options : RunArgs
no_options = record {
  url = default_url;
  limit = none;
  duration = none;
  workers = none;
  capacity = 256;
  log_path = none;
  metrics_path = none;
}

abbrev pub unwrap_or : Option ℕ → ℕ → ℕ
unwrap_or none d = d
unwrap_or (some a) d = a

-- `num_cpus::get()` is an argument.
abbrev pub threaded_workers : ℕ → ℕ
threaded_workers cpus = max (cpus - 2) 1

unfoldable pub async_config : ℕ → RunArgs → PipelineConfig
async_config cpus args = record {
  url = args.url;
  limit = args.limit;
  workers = unwrap_or args.workers cpus;
  capacity = args.capacity;
  metrics_path = args.metrics_path;
}

unfoldable pub threaded_config : ℕ → RunArgs → PipelineConfig
threaded_config cpus args = record {
  url = args.url;
  limit = args.limit;
  workers = unwrap_or args.workers (threaded_workers cpus);
  capacity = args.capacity;
  metrics_path = args.metrics_path;
}

-- `PipelineConfig::default()` of crates/rts-async and of crates/rts-threaded.
unfoldable pub async_default : ℕ → PipelineConfig
async_default cpus = record {
  url = default_url;
  limit = none;
  workers = cpus;
  capacity = 256;
  metrics_path = none;
}

unfoldable pub threaded_default : ℕ → PipelineConfig
threaded_default cpus = record {
  url = default_url;
  limit = none;
  workers = threaded_workers cpus;
  capacity = 256;
  metrics_path = none;
}

pub record RecordArgs : Type 0 where
  pub url : Text
  pub duration : Duration
  pub out : Text

pub record PlayArgs (R : Type 0) : Type 0 where
  pub fixture : Text
  pub rate : R
  pub port : ℕ

pub record StressArgs : Type 0 where
  pub duration : Duration
  pub threads : Option ℕ

-- `R` is the type of a replay rate.
pub data Command (R : Type 0) : Type 0 where
  run_async run_threaded : RunArgs → Command R
  record_trace : RecordArgs → Command R
  play : PlayArgs R → Command R
  stress : StressArgs → Command R

-- The file of the per-event log, which `main` opens before it runs the command.
unfoldable pub log_path_of : {R : Type 0} → Command R → Option Text
log_path_of (run_async args) = args.log_path
log_path_of (run_threaded args) = args.log_path
log_path_of (record_trace args) = none
log_path_of (play args) = none
log_path_of (stress args) = none

-- What the stress command does: its threads spin until the deadline, and it waits a little longer.
pub record StressPlan : Type 0 where
  pub threads : ℕ
  pub deadline : Instant
  pub wait : Duration

unfoldable pub stress_plan : ℕ → Instant → StressArgs → StressPlan
stress_plan cpus now args = record {
  threads = unwrap_or args.threads cpus;
  deadline = now + args.duration;
  wait = args.duration + 100 * 10 ^ 6;
}
