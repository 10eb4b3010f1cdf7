-- ===== src/Cli/Run.antt =====
-- What `main` of crates/rts-cli/src/main.rs does with a command and how it ends, and when the handlers that
-- it installs cancel a run. The pipelines, the recorder and the server are functions of what they are given.
pub mod Replays
use real_time_system_project.Common.{
  ℕ, ◌+◌, min, List, Option, none, some, Text, bytes, Result, ok, err, ◌>>=◌, map_err,
}
use real_time_system_project.Time.{Instant, Duration}
use real_time_system_project.Cli.Config.{
  RecordArgs, PlayArgs, PipelineConfig, Command, run_async, run_threaded, record_trace, play,
  stress, async_config, threaded_config,
}

-- The first of the ticks of two clocks, if there is one.
abbrev pub earlier : Option Instant → Option Instant → Option Instant
earlier none b = b
earlier (some a) none = some a
earlier (some a) (some b) = some (min a b)

-- The timer of `--duration`, started at an instant.
abbrev pub timer : Instant → Option Duration → Option Instant
timer now none = none
timer now (some d) = some (now + d)

-- When Ctrl-C or the timer cancel the run. The second argument is what waiting for Ctrl-C yields; an error of
-- the handler cancels nothing.
unfoldable pub cancelled_at :
    {I : Type 0} → Instant → Option (Result I Instant) → Option Duration → Option Instant
cancelled_at now none d = timer now d
cancelled_at now (some (err e)) d = timer now d
cancelled_at now (some (ok pressed)) d = earlier (some pressed) (timer now d)

-- `G`, `P` and `R` are the errors of the ingest, of the server and of the recorder.
pub data Cause (G P R : Type 0) : Type 0 where
  ingest : G → Cause G P R
  thread_panic : Cause G P R
  playing : P → Cause G P R
  recording : R → Cause G P R

-- An `anyhow::Error`: a context and what it is the context of.
pub record Report (G P R : Type 0) : Type 0 where
  pub context : Text
  pub cause : Cause G P R

-- What the commands run; `none` is a panic of the thread of the pipeline, and `F` the type of a rate.
pub record Services (G P R F : Type 0) : Type 0 where
  pub async_run : PipelineConfig → Result G (Unit {0})
  pub threaded_run : PipelineConfig → Option (Result G (Unit {0}))
  pub trace_run : RecordArgs → Result R ℕ
  pub serve_run : PlayArgs F → Result P (Unit {0})

module _ {G P R : Type 0} where
  abbrev pub with_context :
      {X A : Type 0} → Text → (X → Cause G P R) → Result X A → Result (Report G P R) A
  with_context text cause r = map_err (λ e. record { context = text; cause = cause e }) r

  unfoldable pub threaded_result : Option (Result G (Unit {0})) → Result (Report G P R) (Unit {0})
  threaded_result none =
      err (record { context = bytes "threaded pipeline thread panicked"; cause = thread_panic })
  threaded_result (some r) = with_context (bytes "threaded pipeline") ingest r

  -- `num_cpus::get()` is an argument. The stress command returns when its threads have.
  unfoldable pub main :
      {F : Type 0} → Services G P R F → ℕ → Command F → Result (Report G P R) (Unit {0})
  unfolding threaded_result
  main services cpus (run_async args) =
      with_context (bytes "async pipeline") ingest (services.async_run (async_config cpus args))
  main services cpus (run_threaded args) =
      threaded_result (services.threaded_run (threaded_config cpus args))
  main services cpus (record_trace args) =
      with_context (bytes "replay record") recording (services.trace_run args) >>= λ count. ok tt
  main services cpus (play args) =
      with_context (bytes "replay play") playing (services.serve_run args)
  main services cpus (stress args) = ok tt
