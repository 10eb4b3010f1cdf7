-- ===== src/Async/Scheduler.antt =====
-- crates/rts-async/src/scheduler.rs: a worker, which polls the human lane before the lane of the bots.
pub mod Order
mod Tests
use real_time_system_project.Common.{
  ℕ, Bool, true, false, List, [], ◌∷◌, ◌++◌, Option, none, some, if◌then◌else◌, ltb, length,
}
use real_time_system_project.Time.{Instant}
use real_time_system_project.Event.{Task}
use real_time_system_project.Ring.{DropOldestRing, try_pop}
use real_time_system_project.Histogram.{Histogram}
use real_time_system_project.Leaderboard.{LbCmd, update}
use real_time_system_project.Accounting.{Recorded, TaskLog, account}

-- `mpsc::channel::<LbCmd>(1024)`: `try_send` drops the command if the channel is full.
abbrev pub channel_capacity : ℕ
channel_capacity = 1024

unfoldable pub try_send : List LbCmd → LbCmd → List LbCmd
try_send channel cmd =
    if ltb (length channel) channel_capacity then channel ++ (cmd ∷ []) else channel

-- The first branch of the biased `select!` that is ready.
pub data Selection : Type 0 where
  stop sleep : Selection
  take_hi take_lo : Task → DropOldestRing Task → Selection

select_lo : Option (Task × DropOldestRing Task) → Selection
select_lo none = sleep
select_lo (some (t, lo)) = take_lo t lo

select_hi : Option (Task × DropOldestRing Task) → Selection → Selection
select_hi none otherwise = otherwise
select_hi (some (t, hi)) otherwise = take_hi t hi

unfoldable pub select : Bool → DropOldestRing Task → DropOldestRing Task → Selection
unfolding select_hi select_lo
select cancelled hi lo = if cancelled then stop else select_hi (try_pop hi) (select_lo (try_pop lo))

module _ (hist : Histogram) where
  -- What a worker shares with the other tasks of the process.
  pub record WorkerState : Type 0 where
    pub hi : DropOldestRing Task
    pub lo : DropOldestRing Task
    pub recorded : Recorded hist
    pub channel : List LbCmd

  unfoldable pub process : WorkerState → Task → Instant → Instant → WorkerState × TaskLog
  process w task actual_start finished =
      let (recorded, log) = account hist w.recorded task actual_start finished in
      (
        record w {
          recorded = recorded;
          channel = try_send w.channel (update task.event.server_name);
        },
        log,
      )

  -- How one round of the loop ends.
  pub data Turn : Type 0 where
    stopped asleep : Turn
    worked : Task → WorkerState × TaskLog → Turn

  turn : WorkerState → Instant → Instant → Selection → Turn
  unfolding process
  turn w start finish stop = stopped
  turn w start finish sleep = asleep
  turn w start finish (take_hi t hi) = worked t (process (record w { hi = hi }) t start finish)
  turn w start finish (take_lo t lo) = worked t (process (record w { lo = lo }) t start finish)

  -- One round, with the two readings of the clock; no await point lies behind the selection.
  unfoldable pub work : WorkerState → Bool → Instant → Instant → Turn
  unfolding turn select
  work w cancelled start finish = turn w start finish (select cancelled w.hi w.lo)

  -- The tasks of the workers' rounds while nothing is pushed and nobody cancels.
  unfoldable pub serve : WorkerState → List (Instant × Instant) → List Task
  serve w [] = []
  serve w ((start, finish) ∷ clock) = elim (work w false start finish) [
    | stopped ↦ []
    | asleep ↦ []
    | worked t after ↦ t ∷ serve after.0 clock
  ]
