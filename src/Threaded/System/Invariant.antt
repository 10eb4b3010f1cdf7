-- ===== src/Threaded/System/Invariant.antt =====
-- What holds of every state of the running pipeline.
use real_time_system_project.Workers.{
  Worker, looking, holding, ended, load_of, in_flight, in_flight-set,
}
use real_time_system_project.Common.{
  ℕ, ◌+◌, ◌%◌, ◌^◌, ◌<◌, ◌≡◌, refl, ap, Bool, true, false, List, [], ◌∷◌, arith, Option, none, some,
  Text, Result, get_elem?, Option-cases, inl, inr, length, length-perm, set, if◌then◌else◌, not,
  ◌&&◌, ◌++◌,
}
use real_time_system_project.Time.{Instant, duration_since}
use real_time_system_project.Event.{Event, CowCounts}
use real_time_system_project.Histogram.{Histogram}
use real_time_system_project.FailSafe.{is_degraded, tick}
use real_time_system_project.Watchdog.{is_stale}
use real_time_system_project.FailSafe.Invariant.{
  IsValid, new-IsValid, record_jitter-IsValid, tick-IsValid,
}
use real_time_system_project.Leaderboard.{LbCmd}
use real_time_system_project.Accounting.{account}
use real_time_system_project.Admission.{admit}
use real_time_system_project.Threaded.Heap.{BinaryHeap}
use real_time_system_project.Threaded.PriorityQueue.{pop, new, to_task}
use real_time_system_project.Threaded.PriorityQueue.Bounds.{IsBounded, held_or_dropped}
use real_time_system_project.Threaded.PriorityQueue.Polling.{pop-none, pop-some}
use real_time_system_project.Threaded.Parser.Progress.{dispatch-Served, tasks_of}
use real_time_system_project.Threaded.System.{
  Step, parse, work, check, ticks, lead, cancel, System, start, found, finish_task, move,
  after_recv, step,
}

module _ (std : BinaryHeap) (hist : Histogram) where
  open std use {pop_heap, pop_heap-perm, into_vec}

  -- The queue holds at most its capacity, which is not zero, and the controller is well formed.
  pub record IsSound (s : System std hist) : Type 0 where
    pub queue : IsBounded std s.queue
    pub failsafe : IsValid hist s.recorded.failsafe

  pub start-IsSound :
      (capacity workers now : ℕ) (counts : CowCounts)
      → 0 < capacity
      → IsSound (start std hist capacity workers now counts)
  unfolding start new
  start-IsSound capacity workers now counts h = record {
    queue = omega (arith, ap length std.into_vec-empty);
    failsafe = new-IsValid hist;
  }

  -- The tasks that the pipeline holds, in the queue or in a worker, or has dropped.
  abbrev pub pending : System std hist → ℕ
  pending s = held_or_dropped std s.queue + in_flight s.workers

  record Moves (s : System std hist) (done : ℕ) (s' : System std hist) : Type 0 where
    sound : IsSound s'
    balance : pending s' + done ≡ pending s

  looks :
      (s : System std hist) (i : ℕ)
      → get_elem? s.workers i ≡ some looking
      → IsSound s
      → Moves s 0 (found std hist s i (pop std s.queue))
  looks s i w v = elim (Option-cases (pop_heap s.queue.inner)) [
    | inl none_left ↦
        rw (pop-none std s.queue none_left) (record { sound = v; balance = omega arith })
    | inr (p, e) ↦ rw (pop-some std s.queue p e) (record {
      sound = record {
        queue =
            omega
              (arith, v.queue.room, v.queue.within, length-perm (pop_heap-perm s.queue.inner e));
        failsafe = v.failsafe;
      };
      balance = omega (
        arith,
        length-perm (pop_heap-perm s.queue.inner e),
        in_flight-set s.workers i (holding (to_task p.0)) w,
      );
    })
  ]

  moves :
      (s : System std hist) (i : ℕ) (begin finish : Instant) (o : Option Worker)
      → get_elem? s.workers i ≡ o
      → IsSound s
      → Moves s (load_of o) (move std hist s i begin finish o)
  unfolding move finish_task account
  moves s i begin finish none w v = record { sound = v; balance = omega arith }
  moves s i begin finish (some ended) w v = record { sound = v; balance = omega arith }
  moves s i begin finish (some (holding t)) w v = record {
    sound = record {
      queue = v.queue;
      failsafe = record_jitter-IsValid hist (duration_since finish begin) v.failsafe;
    };
    balance = omega (arith, in_flight-set s.workers i looking w);
  }
  moves s i begin finish (some looking) w v = stops_or_looks s.cancelled
    where
      stops_or_looks :
          (c : Bool)
          → Moves s 0 (
              if c
              then record s { workers = set s.workers i ended }
              else found std hist s i (pop std s.queue))
      stops_or_looks true = record {
        sound = record { queue = v.queue; failsafe = v.failsafe };
        balance = omega (arith, in_flight-set s.workers i ended w);
      }
      stops_or_looks false = looks s i w v

  -- A step from `s` neither panics nor breaks what holds, and each task that arrives is pending or done.
  pub record Goes (s : System std hist) (arriving done : ℕ) (o : Option (System std hist))
      : Type 0 where
    pub after : System std hist
    pub returns : o ≡ some after
    pub sound : IsSound after
    pub balance : (pending after + done) % 2 ^ 64 ≡ (pending s + arriving) % 2 ^ 64

  module _ {E : Type 0} (from_str : Text → Result E Event) where
    -- the tasks that a step is given, and those that it finishes
    abbrev pub arriving : System std hist → Step → ℕ
    arriving s (parse clock raw) =
        tasks_of std from_str
          (admit from_str (is_degraded hist s.recorded.failsafe) clock raw s.shared).0
    arriving s (work i begin finish) = 0
    arriving s (check now) = 0
    arriving s ticks = 0
    arriving s lead = 0
    arriving s cancel = 0

    abbrev pub finishing : System std hist → Step → ℕ
    finishing s (parse clock raw) = 0
    finishing s (work i begin finish) = load_of (get_elem? s.workers i)
    finishing s (check now) = 0
    finishing s ticks = 0
    finishing s lead = 0
    finishing s cancel = 0

    unmoved : (s : System std hist) → IsSound s → Goes s 0 0 (some s)
    unmoved s v = record { after = s; returns = refl; sound = v; balance = refl }

    pub step-Goes :
        (s : System std hist) (e : Step)
        → IsSound s
        → Goes s (arriving s e) (finishing s e) (step std hist from_str s e)
    unfolding step
    step-Goes s (parse clock raw) v =
        let served =
          dispatch-Served std from_str (is_degraded hist s.recorded.failsafe) clock raw
            (record { queue = s.queue; shared = s.shared }) v.queue in
        record {
          after = record s { queue = served.after.queue; shared = served.after.shared };
          returns = rw (served.returns) refl;
          sound = record { queue = served.bounded; failsafe = v.failsafe };
          balance = omega (arith, served.balance);
        }
    step-Goes s (work i begin finish) v =
        let m = moves s i begin finish (get_elem? s.workers i) refl v in
        record {
          after = move std hist s i begin finish (get_elem? s.workers i);
          returns = refl;
          sound = m.sound;
          balance = omega (arith, m.balance);
        }
    step-Goes s (check now) v = checks (not s.cancelled && is_stale s.shared.watchdog now)
      where
        checks :
            (b : Bool)
            → Goes s 0 0 (some (if b then record s { warnings = s.warnings ++ (now ∷ []) } else s))
        checks false = unmoved s v
        checks true = record {
          after = record s { warnings = s.warnings ++ (now ∷ []) };
          returns = refl;
          sound = record { queue = v.queue; failsafe = v.failsafe };
          balance = refl;
        }
    step-Goes s ticks v = advances s.cancelled
      where
        advances :
            (c : Bool)
            → Goes s 0 0 (
                some (
                  if c then s else record s {
                    recorded = record s.recorded { failsafe = tick hist s.recorded.failsafe };
                  }))
        advances true = unmoved s v
        advances false = record {
          after = record s {
            recorded = record s.recorded { failsafe = tick hist s.recorded.failsafe };
          };
          returns = refl;
          sound = record { queue = v.queue; failsafe = tick-IsValid hist v.failsafe };
          balance = refl;
        }
    step-Goes s lead v = receives s.channel
      where
        receives : (channel : List LbCmd) → Goes s 0 0 (some (after_recv std hist s channel))
        receives [] = unmoved s v
        receives (cmd ∷ channel) = record {
          after = after_recv std hist s (cmd ∷ channel);
          returns = refl;
          sound = record { queue = v.queue; failsafe = v.failsafe };
          balance = refl;
        }
    step-Goes s cancel v = record {
      after = record s { cancelled = true };
      returns = refl;
      sound = record { queue = v.queue; failsafe = v.failsafe };
      balance = refl;
    }
