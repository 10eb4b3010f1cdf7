-- ===== src/Async/Pool.antt =====
-- The worker tasks of crates/rts-async/src/pipeline.rs one by one, on the state of Async.System. A round of
-- `worker` is two steps, between which other tasks run: it takes a task, and it measures and sends.
-- The snapshot that `run` sends at the end is a step too, and the replies are kept.
pub mod Updates
pub mod Winding
pub mod Missed
mod Tests
use real_time_system_project.Common.{
  ℕ, Bool, true, false, List, [], ◌∷◌, ◌++◌, Option, none, some, if◌then◌else◌, ltb, length,
  replicate, set, get_elem?, Text, Result,
}
use real_time_system_project.Time.{Instant}
use real_time_system_project.Event.{Event, Task, CowCounts}
use real_time_system_project.Histogram.{Histogram}
use real_time_system_project.Leaderboard.{LbCmd, snapshot, Counts}
use real_time_system_project.Leaderboard
use real_time_system_project.Admission.{Clock}
use real_time_system_project.Workers.{Worker, looking, holding, ended}
use real_time_system_project.Async.Scheduler.{
  Selection, stop, sleep, take_hi, take_lo, select, process, channel_capacity,
}
use real_time_system_project.Async.System as AsyncSystem
use real_time_system_project.Async.System.{System, Step, after_recv}

pub data Move : Type 0 where
  parse : Clock → Text → Move
  take : ℕ → Move
  finish : ℕ → Instant → Instant → Move
  ticks lead cancel ask : Move

module _ (hist : Histogram) where
  pub record Pool : Type 0 where
    pub base : System hist
    pub workers : List Worker
    pub replies : List Counts

  unfoldable pub start : ℕ → ℕ → ℕ → CowCounts → Pool
  start capacity workers now counts = record {
    base = AsyncSystem.start hist capacity now counts;
    workers = replicate workers looking;
    replies = [];
  }

  -- The branch of the `select!` that worker `i` takes.
  abbrev pub chosen : Pool → ℕ → Selection → Pool
  chosen p i stop = record p { workers = set p.workers i ended }
  chosen p i sleep = p
  chosen p i (take_hi t hi) = record p {
    base = record p.base { hi = hi };
    workers = set p.workers i (holding t);
  }
  chosen p i (take_lo t lo) = record p {
    base = record p.base { lo = lo };
    workers = set p.workers i (holding t);
  }

  abbrev pub take_turn : Pool → ℕ → Option Worker → Pool
  take_turn p i (some looking) = chosen p i (select p.base.cancelled p.base.hi p.base.lo)
  take_turn p i _ = p

  -- The rest of the round, behind the `select!`.
  abbrev pub processed : System hist → Task → Instant → Instant → System hist
  processed s t begin finished =
      let (w, log) =
        process hist (record { hi = s.hi; lo = s.lo; recorded = s.recorded; channel = s.channel }) t
          begin finished in
      record s { recorded = w.recorded; channel = w.channel }

  abbrev pub finish_turn : Pool → ℕ → Instant → Instant → Option Worker → Pool
  finish_turn p i begin finished (some (holding t)) = record p {
    base = processed p.base t begin finished;
    workers = set p.workers i looking;
  }
  finish_turn p i begin finished _ = p

  -- The actor takes a command; a snapshot is replied to.
  abbrev pub replied : Counts → List LbCmd → List Counts
  replied board [] = []
  replied board (cmd ∷ channel) = (Leaderboard.run board (cmd ∷ [])).0

  module _ {E : Type 0} (from_str : Text → Result E Event) where
    unfoldable pub step : Pool → Move → Pool
    step p (parse clock raw) = record p {
      base = AsyncSystem.step hist from_str p.base (Step.parse clock raw);
    }
    step p (take i) = take_turn p i (get_elem? p.workers i)
    step p (finish i begin finished) = finish_turn p i begin finished (get_elem? p.workers i)
    step p ticks = record p { base = AsyncSystem.step hist from_str p.base Step.ticks }
    step p lead = record p {
      base = after_recv hist p.base p.base.channel;
      replies = p.replies ++ replied p.base.board p.base.channel;
    }
    step p cancel = record p { base = AsyncSystem.step hist from_str p.base Step.cancel }
    step p ask =
        if ltb (length p.base.channel) channel_capacity
        then record p { base = record p.base { channel = p.base.channel ++ (snapshot ∷ []) } }
        else p

    unfoldable pub run : Pool → List Move → Pool
    unfolding step
    run p [] = p
    run p (m ∷ moves) = run (step p m) moves
