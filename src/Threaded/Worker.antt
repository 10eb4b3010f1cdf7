-- ===== src/Threaded/Worker.antt =====
-- crates/rts-threaded/src/scheduler.rs: a worker on its own thread.
pub mod Accounts
mod Tests
use real_time_system_project.Common.{Bool, List, [], ◌∷◌, ◌++◌}
use real_time_system_project.Time.{Instant}
use real_time_system_project.Event.{Task}
use real_time_system_project.Histogram.{Histogram}
use real_time_system_project.Leaderboard.{LbCmd, update}
use real_time_system_project.Accounting.{Recorded, TaskLog, account}
use real_time_system_project.Threaded.Heap.{BinaryHeap}
use real_time_system_project.Threaded.PriorityQueue.{PriorityQueue, Popped, pop_blocking}

module _ (std : BinaryHeap) (hist : Histogram) where
  -- One pass of the loop: the rounds of `pop_blocking`, and the two readings of the clock.
  pub record Pass : Type 0 where
    pub rounds : List (Bool × PriorityQueue std)
    pub actual_start : Instant
    pub finished : Instant

  -- What a worker has done: its records, the channel to the leaderboard, which has no bound, and the logs.
  pub record Work : Type 0 where
    pub recorded : Recorded hist
    pub channel : List LbCmd
    pub logs : List TaskLog

  process : Work → Task → Instant → Instant → Work
  process w task actual_start finished =
      let (recorded, log) = account hist w.recorded task actual_start finished in
      record {
        recorded = recorded;
        channel = w.channel ++ (update task.event.server_name ∷ []);
        logs = w.logs ++ (log ∷ []);
      }

  -- The loop, over all its passes: it ends with the first call that returns no task.
  unfoldable pub worker : Work → List Pass → Work
  unfolding process
  worker w [] = w
  worker w (p ∷ passes) = elim (pop_blocking std p.rounds) [
    | Popped.cancelled ↦ w
    | Popped.waiting ↦ w
    | Popped.task t q ↦ worker (process w t p.actual_start p.finished) passes
  ]
