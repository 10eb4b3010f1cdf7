-- ===== src/Threaded/Pipeline.antt =====
-- `run` of crates/rts-threaded/src/pipeline.rs from its start to its end, over the steps of Threaded.System:
-- those while the ingest runs, and those of the joins behind it.
pub mod Crew
pub mod Prints
mod Tests
use real_time_system_project.Common.{ℕ, List, [], ◌∷◌, ◌++◌, Option, none, some, Text, Result, ok}
use real_time_system_project.Event.{Event, CowCounts}
use real_time_system_project.Histogram.{Histogram}
use real_time_system_project.Metrics.{snapshot}
use real_time_system_project.Leaderboard.{Counts}
use real_time_system_project.Summary.{threaded_summary, dump_lines}
use real_time_system_project.Cli.Config.{PipelineConfig}
use real_time_system_project.Threaded.Heap.{BinaryHeap}
use real_time_system_project.Threaded.PriorityQueue.{overflow_count}
use real_time_system_project.Threaded.Ingest.{IngestOutcome}
use real_time_system_project.Threaded.System.{Step, cancel, System, start, run, shutdown}

-- The two dumps of `--metrics-path` and their results.
pub record Dumps (D : Type 0) : Type 0 where
  pub csv_path : Text
  pub hgrm_path : Text
  pub csv : Result D Unit
  pub hgrm : Result D Unit

abbrev pub dumped : {D : Type 0} → Option (Dumps D) → List Text × List D
dumped none = ([], [])
dumped (some d) = dump_lines d.csv_path d.hgrm_path d.csv d.hgrm

module _ (std : BinaryHeap) (hist : Histogram) where
  -- What `run` returns, the state that it leaves, and what it has printed.
  pub record Ending (G : Type 0) : Type 0 where
    pub result : Result G Unit
    pub state : System std hist
    pub lines : List Text

  abbrev pub summary : System std hist → Counts → List Text
  summary s reply =
      threaded_summary (some reply) (snapshot hist s.recorded.metrics) (overflow_count std s.queue)
        s.shared.counts

  module _ {G E D : Type 0} (from_str : Text → Result E Event) (dumps : Option (Dumps D)) where
    -- `none` while a worker is not joined.
    abbrev pub reported : System std hist → Option Counts → Option (Ending G)
    reported s none = none
    reported s (some reply) =
        some (record { result = ok tt; state = s; lines = summary s reply ++ (dumped dumps).0 })

    abbrev pub after_joins : Option (System std hist) → Option (Ending G)
    after_joins none = none
    after_joins (some s) = reported s (shutdown std hist s)

    -- The ingest only returns outcomes: each of its errors is a sleep and another attempt. The outcome is logged.
    abbrev pub after_ingest : IngestOutcome → List Step → System std hist → Option (Ending G)
    after_ingest outcome joins s = after_joins (run std hist from_str s (cancel ∷ joins))

    abbrev pub after_steps :
        IngestOutcome → List Step → Option (System std hist) → Option (Ending G)
    after_steps outcome joins none = none
    after_steps outcome joins (some s) = after_ingest outcome joins s

    -- `none` is a panic of a push, or a worker that is not joined.
    unfoldable pub run_pipeline :
        PipelineConfig → ℕ → CowCounts → List Step → IngestOutcome → List Step → Option (Ending G)
    run_pipeline cfg now counts during outcome joins =
        after_steps outcome joins
          (run std hist from_str (start std hist cfg.capacity cfg.workers now counts) during)
