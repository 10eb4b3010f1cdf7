-- ===== src/Threaded/Pipeline/Tests.antt =====
-- Two workers, one task, and an ingest that ends.
use real_time_system_project.Common.{
  none, ℕ, zero, suc, ◌%◌, ◌^◌, ◌≤◌, ◌<◌, ◌≡◌, refl, List, [], ◌∷◌, ◌++◌, Option, some, bytes, Text,
  ok, err, arith,
}
use real_time_system_project.Event.{CowCounts, parse_one}
use real_time_system_project.Histogram.Sample.{samples}
use real_time_system_project.Leaderboard.{Counts}
use real_time_system_project.Leaderboard.Counts.{total_of}
use real_time_system_project.Leaderboard.Snapshots.{IsDescending}
use real_time_system_project.Async.Parser.Tests.{from_payload, at}
use real_time_system_project.Cli.Config.{PipelineConfig, default_url}
use real_time_system_project.Threaded.Heap.ListHeap.{list_heap}
use real_time_system_project.Threaded.Ingest.{IngestOutcome}
use real_time_system_project.Threaded.System.{
  run, step, Step, parse, work, check, lead, cancel, System, start,
}
use real_time_system_project.Threaded.System.Join.{rounds_in}
use real_time_system_project.Threaded.Parser.{dispatch}
use real_time_system_project.Threaded.PriorityQueue.{push, new, evict}
use real_time_system_project.Admission.{admit}
use real_time_system_project.Watchdog
use real_time_system_project.Watchdog.{touch}
use real_time_system_project.Threaded.Pipeline.{Dumps, summary, dumped, run_pipeline}
use real_time_system_project.Threaded.Pipeline.Prints.{edits_finished, run_pipeline_prints}

abbrev config : PipelineConfig
config = record {
  url = default_url;
  limit = some 1;
  workers = 2;
  capacity = 4;
  metrics_path = some (bytes "out");
}

abbrev no_counts : CowCounts
no_counts = record { borrowed_count = 0; owned_count = 0 }

-- The disk is full when the second file is written.
abbrev dumps : Option (Dumps Text)
dumps = some (record {
  csv_path = bytes "out.csv";
  hgrm_path = bytes "out.hgrm";
  csv = ok tt;
  hgrm = err (bytes "full");
})

abbrev during : List Step
during = parse (at 10) (0 ∷ 65 ∷ []) ∷ work 1 20 21 ∷ check 30 ∷ lead ∷ []

abbrev joins : List Step
joins = work 0 40 41 ∷ work 1 42 43 ∷ work 1 44 45 ∷ lead ∷ work 0 46 47 ∷ []

two_rounds : (i : ℕ) → i < 2 → 2 ≤ rounds_in i joins
two_rounds zero h = omega arith
two_rounds (suc zero) h = omega arith
two_rounds (suc (suc i)) h = absurd (omega (arith, h))

run_pipeline_prints_example :
    (s : System list_heap samples) × (reply : Counts) × (run_pipeline list_heap samples {G = Text}
        from_payload dumps config 0 no_counts during IngestOutcome.limit_reached joins
      ≡ some (record {
        result = ok tt;
        state = s;
        lines = summary list_heap samples s reply ++ (dumped dumps).0;
      }))
    × (total_of (65 ∷ []) reply % 2 ^ 64
        ≡ edits_finished list_heap samples from_payload
            (65 ∷ [])
            (start list_heap samples 4 2 0 no_counts)
            (during ++ (cancel ∷ joins))
          % 2 ^ 64)
    × IsDescending reply
run_pipeline_prints_example =
    run_pipeline_prints list_heap samples from_payload dumps config 0 no_counts during joins
      IngestOutcome.limit_reached (65 ∷ []) (omega arith) two_rounds

-- `--capacity 0`: the first event of a human is a panic of the thread.
capacity_0_panics :
    run_pipeline list_heap samples {G = Text} from_payload dumps
      (record config { capacity = 0 })
      0
      no_counts
      during
      IngestOutcome.limit_reached
      joins
    ≡ none
unfolding run_pipeline run start step dispatch admit parse_one push new evict Watchdog.new touch
capacity_0_panics = refl
