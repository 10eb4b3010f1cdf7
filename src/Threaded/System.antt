-- ===== src/Threaded/System.antt =====
-- The running pipeline of crates/rts-threaded/src/pipeline.rs: the queue, the watchdog, the controller, the
-- metrics and the leaderboard that `run` creates, the state of each worker thread, and one step for each
-- time that a thread acts: the ingest's sink, a worker, the ticker, the checker, the actor, a cancellation.
pub mod Invariant
pub mod Conservation
pub mod Updates
pub mod Shutdown
pub mod Join
mod Tests
use real_time_system_project.Workers.{Worker, looking, holding, ended, all_ended}
use real_time_system_project.Common.{
  ℕ, ◌+◌, Bool, true, false, ◌&&◌, not, List, [], ◌∷◌, ◌++◌, Option, none, some, if◌then◌else◌,
  Text, Result, replicate, set, get_elem?,
}
use real_time_system_project.Time.{Instant}
use real_time_system_project.Event.{Event, Task, CowCounts}
use real_time_system_project.Watchdog
use real_time_system_project.Watchdog.{is_stale}
use real_time_system_project.Metrics
use real_time_system_project.FailSafe
use real_time_system_project.FailSafe.{is_degraded, tick}
use real_time_system_project.Histogram.{Histogram}
use real_time_system_project.Leaderboard.{LbCmd, update, snapshot, Counts, last_reply}
use real_time_system_project.Leaderboard
use real_time_system_project.Accounting.{Recorded, account}
use real_time_system_project.Admission.{Shared, Clock, Log}
use real_time_system_project.Threaded.Heap.{BinaryHeap}
use real_time_system_project.Threaded.PriorityQueue.{PriorityQueue, pop}
use real_time_system_project.Threaded.PriorityQueue
use real_time_system_project.Threaded.Parser.{QueueState, dispatch}

pub data Step : Type 0 where
  parse : Clock → Text → Step
  work : ℕ → Instant → Instant → Step
  check : ℕ → Step
  ticks lead cancel : Step

module _ (std : BinaryHeap) (hist : Histogram) where
  pub record System : Type 0 where
    pub queue : PriorityQueue std
    pub shared : Shared
    pub recorded : Recorded hist
    pub channel : List LbCmd
    pub board : Counts
    pub workers : List Worker
    pub warnings : List ℕ
    pub cancelled : Bool

  -- What `run` creates for a capacity and a number of workers; the counters of borrowed and owned parses
  -- are those of the process.
  unfoldable pub start : ℕ → ℕ → ℕ → CowCounts → System
  start capacity workers now counts = record {
    queue = PriorityQueue.new std capacity;
    shared = record { watchdog = Watchdog.new now; counts = counts };
    recorded = record { metrics = Metrics.new hist; failsafe = FailSafe.new hist };
    channel = [];
    board = [];
    workers = replicate workers looking;
    warnings = [];
    cancelled = false;
  }

  -- One round of `pop_blocking` of worker `i`, under the lock; without a task it waits, 100 milliseconds
  -- at most, and looks again.
  abbrev pub found : System → ℕ → Option (Task × PriorityQueue std) → System
  found s i none = s
  found s i (some (task, queue)) = record s {
    queue = queue;
    workers = set s.workers i (holding task);
  }

  -- The body of the loop of worker `i`, on the task that it holds.
  unfoldable pub finish_task : System → ℕ → Task → Instant → Instant → System
  finish_task s i task actual_start finished = record s {
    recorded = (account hist s.recorded task actual_start finished).0;
    channel = s.channel ++ (update task.event.server_name ∷ []);
    workers = set s.workers i looking;
  }

  unfoldable pub move : System → ℕ → Instant → Instant → Option Worker → System
  unfolding finish_task
  move s i actual_start finished none = s
  move s i actual_start finished (some ended) = s
  move s i actual_start finished (some looking) =
      if s.cancelled
      then record s { workers = set s.workers i ended }
      else found s i (pop std s.queue)
  move s i actual_start finished (some (holding task)) = finish_task s i task actual_start finished

  abbrev pub after_recv : System → List LbCmd → System
  after_recv s [] = s
  after_recv s (cmd ∷ channel) = record s {
    channel = channel;
    board = (Leaderboard.run s.board (cmd ∷ [])).1;
  }

  module _ {E : Type 0} (from_str : Text → Result E Event) where
    abbrev pub after_dispatch : System → Option (QueueState std × Option (Log E)) → Option System
    after_dispatch s none = none
    after_dispatch s (some (q, log)) = some (record s { queue = q.queue; shared = q.shared })

    -- `none` is a panic of the ingest thread in the push.
    unfoldable pub step : System → Step → Option System
    unfolding move
    step s (parse clock raw) = after_dispatch s (
        dispatch std from_str (is_degraded hist s.recorded.failsafe) clock raw
          (record { queue = s.queue; shared = s.shared }))
    step s (work i actual_start finished) =
        some (move s i actual_start finished (get_elem? s.workers i))
    step s (check now) = some (
        if not s.cancelled && is_stale s.shared.watchdog now
        then record s { warnings = s.warnings ++ (now ∷ []) }
        else s)
    step s ticks = some (
        if s.cancelled
        then s
        else record s { recorded = record s.recorded { failsafe = tick hist s.recorded.failsafe } })
    step s lead = some (after_recv s s.channel)
    step s cancel = some (record s { cancelled = true })

    unfoldable pub run : System → List Step → Option System
    unfolding step
    run s [] = some s
    run s (e ∷ steps) = elim (step s e) [ none ↦ none | some s' ↦ run s' steps ]

  -- Once all the workers are joined, `run` sends a snapshot and drops the last sender; the actor takes
  -- what is left in the channel. The result is the reply to it, the last one, `none` while a worker is not joined.
  unfoldable pub shutdown : System → Option Counts
  shutdown s =
      if all_ended s.workers
      then last_reply (Leaderboard.run s.board (s.channel ++ (snapshot ∷ []))).0
      else none
