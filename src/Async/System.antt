-- ===== src/Async/System.antt =====
-- The running pipeline of crates/rts-async/src/pipeline.rs: the lanes, the watchdog, the controller, the
-- metrics and the leaderboard that `run` creates, and one step for each time a task of the runtime runs:
-- the sink of the ingest, a worker, the ticker of the controller, the actor, the cancellation.
pub mod Invariant
pub mod Conservation
pub mod Channel
mod Tests
use real_time_system_project.Common.{
  ℕ, Bool, true, false, List, [], ◌∷◌, ◌++◌, Option, if◌then◌else◌, Text, Result,
}
use real_time_system_project.Time.{Instant}
use real_time_system_project.Event.{Event, Task, CowCounts}
use real_time_system_project.Ring.{DropOldestRing}
use real_time_system_project.Ring
use real_time_system_project.Watchdog
use real_time_system_project.Metrics
use real_time_system_project.FailSafe
use real_time_system_project.FailSafe.{is_degraded, tick}
use real_time_system_project.Histogram.{Histogram}
use real_time_system_project.Leaderboard.{LbCmd, snapshot, Counts, last_reply}
use real_time_system_project.Leaderboard
use real_time_system_project.Accounting.{Recorded}
use real_time_system_project.Admission.{Shared, Clock}
use real_time_system_project.Async.Parser.{LaneState, dispatch}
use real_time_system_project.Async.Scheduler.{WorkerState, Turn, work}

-- One run of a task of the runtime, with the readings of the clock that it makes.
pub data Step : Type 0 where
  parse : Clock → Text → Step
  serve : Instant → Instant → Step
  ticks lead cancel : Step

module _ (hist : Histogram) where
  pub record System : Type 0 where
    pub hi : DropOldestRing Task
    pub lo : DropOldestRing Task
    pub shared : Shared
    pub recorded : Recorded hist
    pub channel : List LbCmd
    pub board : Counts
    pub cancelled : Bool

  -- What `run` creates; the counters of borrowed and owned parses are those of the process.
  unfoldable pub start : ℕ → ℕ → CowCounts → System
  start capacity now counts = record {
    hi = Ring.new capacity;
    lo = Ring.new capacity;
    shared = record { watchdog = Watchdog.new now; counts = counts };
    recorded = record { metrics = Metrics.new hist; failsafe = FailSafe.new hist };
    channel = [];
    board = [];
    cancelled = false;
  }

  after_dispatch : System → LaneState → System
  after_dispatch s l = record s { hi = l.hi; lo = l.lo; shared = l.shared }

  after_turn : System → Turn hist → System
  after_turn s Turn.stopped = s
  after_turn s Turn.asleep = s
  after_turn s (Turn.worked t (w, log)) = record s {
    hi = w.hi;
    lo = w.lo;
    recorded = w.recorded;
    channel = w.channel;
  }

  abbrev pub after_recv : System → List LbCmd → System
  after_recv s [] = s
  after_recv s (cmd ∷ channel) = record s {
    channel = channel;
    board = (Leaderboard.run s.board (cmd ∷ [])).1;
  }

  module _ {E : Type 0} (from_str : Text → Result E Event) where
    -- A background task that reads the cancellation ends: its step changes nothing.
    unfoldable pub step : System → Step → System
    unfolding after_dispatch after_turn
    step s (parse clock raw) =
        after_dispatch s
          (dispatch from_str (is_degraded hist s.recorded.failsafe) clock raw
            (record { hi = s.hi; lo = s.lo; shared = s.shared })).0
    step s (serve begin finish) = after_turn s (
        work hist (record { hi = s.hi; lo = s.lo; recorded = s.recorded; channel = s.channel })
          s.cancelled begin finish)
    step s ticks =
        if s.cancelled
        then s
        else record s { recorded = record s.recorded { failsafe = tick hist s.recorded.failsafe } }
    step s lead = after_recv s s.channel
    step s cancel = record s { cancelled = true }

    unfoldable pub run : System → List Step → System
    unfolding step
    run s [] = s
    run s (e ∷ steps) = run (step s e) steps
