-- ===== src/Cli/Config/Started.antt =====
-- What the two pipelines are started with.
use real_time_system_project.Common.{ℕ, ◌≤◌, ◌≡◌, refl, max, arith, length, length-replicate}
use real_time_system_project.Event.{CowCounts}
use real_time_system_project.Histogram.{Histogram}
use real_time_system_project.Workers.{looking}
use real_time_system_project.Threaded.Heap.{BinaryHeap}
use real_time_system_project.Threaded.System.{System, start}
use real_time_system_project.Threaded.System.Invariant.{IsSound, start-IsSound}
use real_time_system_project.Async.System as AsyncSystem
use real_time_system_project.Async.System.Invariant as AsyncInvariant
use real_time_system_project.Cli.Config.{
  PipelineConfig, no_options, async_config, threaded_config, async_default, threaded_default,
  threaded_workers,
}

module _ (std : BinaryHeap) (hist : Histogram) where
  abbrev pub threaded_start : PipelineConfig → ℕ → CowCounts → System std hist
  threaded_start cfg now counts = start std hist cfg.capacity cfg.workers now counts

  abbrev pub async_start : PipelineConfig → ℕ → CowCounts → AsyncSystem.System hist
  async_start cfg now counts = AsyncSystem.start hist cfg.capacity now counts

  started_workers :
      (cfg : PipelineConfig) (now : ℕ) (counts : CowCounts)
      → length (threaded_start cfg now counts).workers ≡ cfg.workers
  unfolding start
  started_workers cfg now counts = length-replicate cfg.workers looking

  -- Without options both commands run their pipeline with its own default configuration; both start
  -- well formed, and the threaded one with at least one worker and no more than there are processors,
  -- if there are any.
  pub defaults_agree :
      (cpus now : ℕ) (counts : CowCounts)
      → (threaded_config cpus no_options ≡ threaded_default cpus)
        × (async_config cpus no_options ≡ async_default cpus)
        × IsSound std hist (threaded_start (threaded_default cpus) now counts)
        × AsyncInvariant.IsSound hist (async_start (async_default cpus) now counts)
        × (1 ≤ length (threaded_start (threaded_default cpus) now counts).workers)
        × (length (threaded_start (threaded_default cpus) now counts).workers ≤ max cpus 1)
  unfolding threaded_config threaded_default async_config async_default
  defaults_agree cpus now counts = (
    refl,
    refl,
    start-IsSound std hist 256 (threaded_workers cpus) now counts (omega arith),
    AsyncInvariant.start-IsSound hist 256 now counts (omega arith),
    omega (arith, started_workers (threaded_default cpus) now counts),
    omega (arith, started_workers (threaded_default cpus) now counts),
  )
