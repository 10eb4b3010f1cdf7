-- ===== src/Threaded/Pipeline/Prints.antt =====
-- A run whose ingest ends prints the work that its workers have done.
use real_time_system_project.Common.{
  ℕ, ◌%◌, ◌^◌, ◌≤◌, ◌<◌, ◌≡◌, refl, ap, sym, ◌∙◌, subst, true, List, ◌∷◌, ◌++◌, Option, some, Text,
  Result, ok, arith, length, length-replicate, map,
}
use real_time_system_project.Event.{Event, CowCounts}
use real_time_system_project.Histogram.{Histogram}
use real_time_system_project.Leaderboard.{Counts, update}
use real_time_system_project.Leaderboard.Counts.{edits, total_of}
use real_time_system_project.Leaderboard.Snapshots.{IsDescending}
use real_time_system_project.Workers.{looking}
use real_time_system_project.Cli.Config.{PipelineConfig}
use real_time_system_project.Threaded.Heap.{BinaryHeap}
use real_time_system_project.Threaded.Ingest.{IngestOutcome}
use real_time_system_project.Threaded.System.{Step, cancel, System, start, step, run}
use real_time_system_project.Threaded.System.Invariant.{start-IsSound}
use real_time_system_project.Threaded.System.Conservation.{run-Goes}
use real_time_system_project.Threaded.System.Join.{rounds_in, run-all_ended}
use real_time_system_project.Threaded.System.Updates.{finished_names}
use real_time_system_project.Threaded.System.Shutdown.{shutdown_counts}
use real_time_system_project.Threaded.Pipeline.{
  Dumps, summary, dumped, after_joins, after_steps, reported, run_pipeline,
}
use real_time_system_project.Threaded.Pipeline.Crew.{SameCrewOr, run-SameCrew, run_both}

module _ (std : BinaryHeap) (hist : Histogram) {E : Type 0} (from_str : Text → Result E Event) where
  -- The edits of the wiki `k` that the workers have finished.
  abbrev pub edits_finished : Text → System std hist → List Step → ℕ
  edits_finished k s steps = edits k (map update (finished_names std hist from_str s steps))

  start-crew :
      (cfg : PipelineConfig) (now : ℕ) (counts : CowCounts)
      → length (start std hist cfg.capacity cfg.workers now counts).workers ≡ cfg.workers
  unfolding start
  start-crew cfg now counts = length-replicate cfg.workers looking

  cancelled_run :
      (s : System std hist) (joins : List Step)
      → run std hist from_str s (cancel ∷ joins)
        ≡ run std hist from_str (record s { cancelled = true }) joins
  unfolding run step
  cancelled_run s joins = refl

  module _ {G D : Type 0} (dumps : Option (Dumps D)) where
    -- With a capacity that is not zero, and behind an ingest that ends, whatever the threads do before: if each worker
    -- makes two rounds more, the run ends well and prints the summary of its last state, with a leaderboard
    -- that counts for each wiki exactly the tasks that the workers have finished, modulo the width of
    -- the counts, in descending order.
    pub run_pipeline_prints :
        (cfg : PipelineConfig) (now : ℕ) (counts : CowCounts) (during joins : List Step)
        (outcome : IngestOutcome) (k : Text)
        → 0 < cfg.capacity
        → ((i : ℕ) → i < cfg.workers → 2 ≤ rounds_in i joins)
        → let begun = start std hist cfg.capacity cfg.workers now counts in
          (s : System std hist) × (reply : Counts) × (run_pipeline std hist {G = G} from_str dumps
              cfg now counts during outcome joins
            ≡ some (record {
              result = ok tt;
              state = s;
              lines = summary std hist s reply ++ (dumped dumps).0;
            }))
          × (total_of k reply % 2 ^ 64
              ≡ edits_finished k begun (during ++ (cancel ∷ joins)) % 2 ^ 64)
          × IsDescending reply
    unfolding run_pipeline
    run_pipeline_prints cfg now counts during joins outcome k h twice =
        let begun = start std hist cfg.capacity cfg.workers now counts in
        let first =
          run-Goes std hist from_str during begun
            (start-IsSound std hist cfg.capacity cfg.workers now counts h) in
        let last = run-Goes std hist from_str (cancel ∷ joins) first.after first.sound in
        let crew : length first.after.workers ≡ cfg.workers =
          subst (SameCrewOr std hist from_str begun) first.returns
            (run-SameCrew std hist from_str during begun)
          ∙ start-crew cfg now counts in
        let ended =
          run-all_ended std hist from_str joins (record first.after { cancelled = true }) refl
            (sym (cancelled_run first.after joins) ∙ last.returns)
            (λ i below. twice i (omega (arith, below, crew))) in
        let all =
          run_both std hist from_str during (cancel ∷ joins) begun first.returns ∙ last.returns in
        let (reply, replied, counts_all, once, descending) =
          shutdown_counts std hist from_str cfg.capacity cfg.workers now counts
            (during ++ (cancel ∷ joins)) k all ended in
        (
          last.after,
          reply,
          ap (after_steps std hist from_str dumps outcome joins) first.returns
              ∙ ap (after_joins std hist from_str dumps) last.returns
              ∙ ap (reported std hist from_str dumps last.after) replied,
          counts_all,
          descending,
        )
