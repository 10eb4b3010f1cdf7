-- ===== src/Cli/Tests.antt =====
-- Durations as the tests of main.rs read them, and instances of the theorems.
use real_time_system_project.Common.{
  ℕ, ◌*◌, ◌^◌, ◌≤◌, length, ◌≡◌, ◌↔◌, leb, refl, true, false, none, some, Text, bytes, ok, err,
}
use real_time_system_project.Float.Fixed.{fixed_point}
use real_time_system_project.Event.{CowCounts}
use real_time_system_project.Histogram.Sample.{samples}
use real_time_system_project.Threaded.Heap.ListHeap.{list_heap}
use real_time_system_project.Threaded.System.Invariant.{IsSound}
use real_time_system_project.Async.System.Invariant as AsyncInvariant
use real_time_system_project.Cli.Config.{
  RunArgs, no_options, async_config, threaded_config, async_default, threaded_default, run_threaded,
  log_path_of,
}
use real_time_system_project.Cli.Run.{Services, thread_panic, main, cancelled_at}
use real_time_system_project.Cli.Config.Started.{threaded_start, async_start, defaults_agree}
use real_time_system_project.Cli.Duration.{parse_duration}
use real_time_system_project.Cli.Duration.Accepts.{
  rejects, parse_duration_accepts_iff, parse_duration_panics_iff,
}
use real_time_system_project.Cli.Duration.Reads.{Reads}

durations :
    (parse_duration fixed_point (bytes "3") ≡ some (ok (3 * 10 ^ 9)))
    × (parse_duration fixed_point (bytes "250ms") ≡ some (ok (250 * 10 ^ 6)))
    × (parse_duration fixed_point (bytes "1.5m") ≡ some (ok (90 * 10 ^ 9)))
    × (parse_duration fixed_point (bytes "abc") ≡ some (err (bytes "invalid duration: abc")))
    × (parse_duration fixed_point (bytes "3xyz") ≡ some (err (bytes "unknown duration unit: xyz")))
    × (parse_duration fixed_point (bytes "1.2.3") ≡ some (err (bytes "invalid duration: 1.2.3")))
unfolding parse_duration
durations = (refl, refl, refl, refl, refl, refl)

-- 2^64 hours
abbrev too_many_hours : Text
too_many_hours = bytes "18446744073709551616h"

parse_duration_panics_iff_example :
    (parse_duration fixed_point too_many_hours ≡ none)
    ↔ ((secs : ℕ) × Reads fixed_point too_many_hours secs × (leb (2 ^ 64 * 10 ^ 9) secs ≡ true))
parse_duration_panics_iff_example = parse_duration_panics_iff fixed_point too_many_hours

parse_duration_accepts_iff_example :
    (rejects (parse_duration fixed_point (bytes "1.5h")) ≡ false)
    ↔ ((secs : ℕ) × Reads fixed_point (bytes "1.5h") secs)
parse_duration_accepts_iff_example = parse_duration_accepts_iff fixed_point (bytes "1.5h")

too_many_hours_panic : parse_duration fixed_point too_many_hours ≡ none
unfolding parse_duration
too_many_hours_panic = refl

abbrev no_counts : CowCounts
no_counts = record { borrowed_count = 0; owned_count = 0 }

started_by_default :
    (threaded_config 8 no_options ≡ threaded_default 8)
    × (async_config 8 no_options ≡ async_default 8)
    × IsSound list_heap samples (threaded_start list_heap samples (threaded_default 8) 0 no_counts)
    × AsyncInvariant.IsSound samples (async_start list_heap samples (async_default 8) 0 no_counts)
    × (1 ≤ length (threaded_start list_heap samples (threaded_default 8) 0 no_counts).workers)
    × (length (threaded_start list_heap samples (threaded_default 8) 0 no_counts).workers ≤ 8)
started_by_default = defaults_agree list_heap samples 8 0 no_counts

abbrev one_worker : RunArgs
one_worker = record no_options { workers = some 1; log_path = some (bytes "run.ndjson") }

given_options :
    ((threaded_config 8 one_worker).workers ≡ 1)
    × (log_path_of {R = ℕ} (run_threaded one_worker) ≡ some (bytes "run.ndjson"))
unfolding threaded_config log_path_of
given_options = (refl, refl)

-- Services that all succeed but for the threaded pipeline.
abbrev services : Services Text Text Text ℕ
services = record {
  async_run = λ cfg. ok tt;
  threaded_run = λ cfg. none;
  trace_run = λ args. ok 3;
  serve_run = λ args. ok tt;
}

a_panic_is_reported :
    main services 8 (run_threaded one_worker)
    ≡ err (record { context = bytes "threaded pipeline thread panicked"; cause = thread_panic })
unfolding main
a_panic_is_reported = refl

cancelled_by_the_first :
    (cancelled_at {I = Text} 10 (some (ok 25)) (some 20) ≡ some 25)
    × (cancelled_at {I = Text} 10 (some (ok 35)) (some 20) ≡ some 30)
    × (cancelled_at 10 (some (err (bytes "no handler"))) none ≡ none)
unfolding cancelled_at
cancelled_by_the_first = (refl, refl, refl)
