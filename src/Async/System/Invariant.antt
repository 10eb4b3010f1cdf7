-- ===== src/Async/System/Invariant.antt =====
-- What holds of every state of the running pipeline.
use real_time_system_project.Common.{
  ℕ, ◌≤◌, ◌<◌, ◌≡◌, refl, Bool, true, false, List, [], ◌∷◌, ◌++◌, arith, length, length-append,
  Text, Result, ok, err, drop, if◌then◌else◌, ◌==◌, ap, ◌∙◌, All, All-append, subst, sym,
}
use real_time_system_project.Priority.{is_human, is_bot}
use real_time_system_project.Event.{Event, Task, CowCounts}
use real_time_system_project.Ring.{DropOldestRing, new, push, push_all}
use real_time_system_project.Ring.Bounds.{IsBounded, new-IsBounded, push-IsBounded}
use real_time_system_project.Histogram.{Histogram}
use real_time_system_project.FailSafe
use real_time_system_project.FailSafe.Invariant.{
  IsValid, new-IsValid, record_jitter-IsValid, tick-IsValid,
}
use real_time_system_project.Leaderboard.{LbCmd}
use real_time_system_project.Accounting.{account}
use real_time_system_project.Admission.{Clock}
use real_time_system_project.Async.Parser.{LaneState}
use real_time_system_project.Time.{Instant, duration_since}
use real_time_system_project.Async.Parser.Lanes.{human_task, bot_task, dispatch_lanes}
use real_time_system_project.Async.Scheduler.Order.{work_hi, work_lo, work_none}
use real_time_system_project.Async.Scheduler.{
  WorkerState, Turn, process, channel_capacity, try_send, work,
}
use real_time_system_project.Async.System.{System, Step, start, step, run, after_turn, after_recv}

-- A lane holds at most its capacity, which is not zero, and tasks of its class alone.
pub record IsLane (class : Task → Bool) (r : DropOldestRing Task) : Type 0 where
  pub bounded : IsBounded r
  pub pure : All (λ t. class t ≡ true) r.queue

abbrev pub of_human : Task → Bool
of_human t = is_human t.priority

abbrev pub of_bot : Task → Bool
of_bot t = is_bot t.priority

pushed_pure :
    (class : Task → Bool) (b : Bool) (t : Task) (q : List Task)
    → class t ≡ true
    → All (λ t. class t ≡ true) q
    → All (λ t. class t ≡ true) (if b then drop 1 q ++ (t ∷ []) else q ++ (t ∷ []))
pushed_pure class true t [] h v = (h, tt)
pushed_pure class true t (x ∷ q) h v = All-append _ q (t ∷ []) v.1 (h, tt)
pushed_pure class false t q h v = All-append _ q (t ∷ []) v (h, tt)

queue-push :
    (r : DropOldestRing Task) (t : Task)
    → (push r t).1.queue
      ≡ (if length r.queue == r.capacity then drop 1 r.queue ++ (t ∷ []) else r.queue ++ (t ∷ []))
unfolding push
queue-push r t = ground arith

push-IsLane :
    {class : Task → Bool} {r : DropOldestRing Task} (t : Task)
    → class t ≡ true
    → IsLane class r
    → IsLane class (push r t).1
push-IsLane {class} {r} t h v = record {
  bounded = push-IsBounded t v.bounded;
  pure =
      subst (All (λ t. class t ≡ true)) (sym (queue-push r t))
        (pushed_pure class (length r.queue == r.capacity) t r.queue h v.pure);
}

push_all-IsLane :
    {class : Task → Bool} (ts : List Task) {r : DropOldestRing Task}
    → All (λ t. class t ≡ true) ts
    → IsLane class r
    → IsLane class (push_all r ts)
unfolding push_all
push_all-IsLane [] h v = v
push_all-IsLane (t ∷ ts) {r} h v = push_all-IsLane ts {r = (push r t).1} h.1 (push-IsLane t h.0 v)

new-IsLane : (class : Task → Bool) (capacity : ℕ) → 0 < capacity → IsLane class (new capacity)
unfolding new
new-IsLane class capacity h = record { bounded = new-IsBounded capacity h; pure = tt }

pop-IsLane :
    {class : Task → Bool} {r : DropOldestRing Task} {t : Task} {q : List Task}
    → r.queue ≡ t ∷ q
    → IsLane class r
    → IsLane class (record r { queue = q })
pop-IsLane {class} {r} {t} {q} e v = record {
  bounded = record { room = v.bounded.room; within = omega (arith, v.bounded.within, ap length e) };
  pure = (subst (All (λ t. class t ≡ true)) e v.pure).1;
}

try_send-bounded :
    (channel : List LbCmd) (cmd : LbCmd)
    → length channel ≤ channel_capacity
    → length (try_send channel cmd) ≤ channel_capacity
unfolding try_send
try_send-bounded channel cmd h = ground (arith, length-append channel (cmd ∷ []))

module _ (hist : Histogram) where
  pub record IsSound (s : System hist) : Type 0 where
    pub hi : IsLane of_human s.hi
    pub lo : IsLane of_bot s.lo
    pub failsafe : IsValid hist s.recorded.failsafe
    pub channel : length s.channel ≤ channel_capacity

  pub start-IsSound :
      (capacity now : ℕ) (counts : CowCounts)
      → 0 < capacity
      → IsSound (start hist capacity now counts)
  unfolding start
  start-IsSound capacity now counts h = record {
    hi = new-IsLane of_human capacity h;
    lo = new-IsLane of_bot capacity h;
    failsafe = new-IsValid hist;
    channel = omega arith;
  }

  abbrev pub shared_of : System hist → WorkerState hist
  shared_of s = record { hi = s.hi; lo = s.lo; recorded = s.recorded; channel = s.channel }

  pub work_stopped :
      (w : WorkerState hist) {c : Bool} (begin finish : Instant)
      → c ≡ true
      → work hist w c begin finish ≡ Turn.stopped
  unfolding work
  work_stopped w begin finish e = rw e

  processed-IsValid :
      (s : System hist) (t : Task) (begin finish : Instant)
      → IsValid hist s.recorded.failsafe
      → IsValid hist (account hist s.recorded t begin finish).0.failsafe
  unfolding account
  processed-IsValid s t begin finish v = record_jitter-IsValid hist (duration_since finish begin) v

  module _ {E : Type 0} (from_str : Text → Result E Event) where
    human_task-pure :
        (clock : Clock) (r : Result E Event)
        → All (λ t. of_human t ≡ true) (human_task from_str clock r)
    human_task-pure clock (err x) = tt
    human_task-pure clock (ok e) = ground arith

    bot_task-pure :
        (degraded : Bool) (clock : Clock) (r : Result E Event)
        → All (λ t. of_bot t ≡ true) (bot_task from_str degraded clock r)
    bot_task-pure degraded clock (err x) = tt
    bot_task-pure degraded clock (ok e) = ground arith

    parse-IsSound :
        (s : System hist) (clock : Clock) (raw : Text)
        → IsSound s
        → IsSound (step hist from_str s (Step.parse clock raw))
    unfolding step
    parse-IsSound s clock raw v =
        let degraded = FailSafe.is_degraded hist s.recorded.failsafe in
        let lanes : LaneState = record { hi = s.hi; lo = s.lo; shared = s.shared } in
        let (h, l) = dispatch_lanes from_str degraded clock raw lanes (from_str raw) refl in
        record {
          hi = subst (IsLane of_human) (sym h) (
              push_all-IsLane (human_task from_str clock (from_str raw))
                (human_task-pure clock (from_str raw)) v.hi);
          lo = subst (IsLane of_bot) (sym l) (
              push_all-IsLane (bot_task from_str degraded clock (from_str raw))
                (bot_task-pure degraded clock (from_str raw)) v.lo);
          failsafe = v.failsafe;
          channel = v.channel;
        }

    serve-IsSound :
        (c : Bool) (hi lo : List Task) (s : System hist) (begin finish : Instant)
        → s.cancelled ≡ c
        → s.hi.queue ≡ hi
        → s.lo.queue ≡ lo
        → IsSound s
        → IsSound (step hist from_str s (Step.serve begin finish))
    unfolding step process
    serve-IsSound true hi lo s begin finish ec eh el v =
        subst (λ t. IsSound (after_turn hist s t))
          (sym (work_stopped (shared_of s) begin finish ec)) v
    serve-IsSound false (t ∷ hi) lo s begin finish ec eh el v =
        subst (λ t. IsSound (after_turn hist s t))
          (sym (
            ap (λ c. work hist (shared_of s) c begin finish) ec
            ∙ work_hi hist (shared_of s) begin finish t hi eh))
          (record {
            hi = pop-IsLane eh v.hi;
            lo = v.lo;
            failsafe = processed-IsValid s t begin finish v.failsafe;
            channel = try_send-bounded s.channel _ v.channel;
          })
    serve-IsSound false [] (t ∷ lo) s begin finish ec eh el v =
        subst (λ t. IsSound (after_turn hist s t))
          (sym (
            ap (λ c. work hist (shared_of s) c begin finish) ec
            ∙ work_lo hist (shared_of s) begin finish t lo eh el))
          (record {
            hi = v.hi;
            lo = pop-IsLane el v.lo;
            failsafe = processed-IsValid s t begin finish v.failsafe;
            channel = try_send-bounded s.channel _ v.channel;
          })
    serve-IsSound false [] [] s begin finish ec eh el v =
        subst (λ t. IsSound (after_turn hist s t))
          (sym (
            ap (λ c. work hist (shared_of s) c begin finish) ec
            ∙ work_none hist (shared_of s) begin finish eh el))
          v

    ticks-IsSound :
        (c : Bool) (s : System hist)
        → IsSound s
        → IsSound (
            if c then s else record s {
              recorded = record s.recorded { failsafe = FailSafe.tick hist s.recorded.failsafe };
            })
    ticks-IsSound true s v = v
    ticks-IsSound false s v = record {
      hi = v.hi;
      lo = v.lo;
      failsafe = tick-IsValid hist v.failsafe;
      channel = v.channel;
    }

    lead-IsSound :
        (channel : List LbCmd) (s : System hist)
        → s.channel ≡ channel
        → IsSound s
        → IsSound (after_recv hist s channel)
    lead-IsSound [] s e v = v
    lead-IsSound (cmd ∷ channel) s e v = record {
      hi = v.hi;
      lo = v.lo;
      failsafe = v.failsafe;
      channel = omega (arith, v.channel, ap length e);
    }

    pub step-IsSound : (s : System hist) (e : Step) → IsSound s → IsSound (step hist from_str s e)
    unfolding step
    step-IsSound s (Step.parse clock raw) v = parse-IsSound s clock raw v
    step-IsSound s (Step.serve begin finish) v =
        serve-IsSound s.cancelled s.hi.queue s.lo.queue s begin finish refl refl refl v
    step-IsSound s Step.ticks v = ticks-IsSound s.cancelled s v
    step-IsSound s Step.lead v = lead-IsSound s.channel s refl v
    step-IsSound s Step.cancel v = record {
      hi = v.hi;
      lo = v.lo;
      failsafe = v.failsafe;
      channel = v.channel;
    }

    -- In every state that a pipeline of a capacity that is not zero reaches, each lane holds at most its
    -- capacity, the high lane tasks of humans alone and the low lane tasks of bots alone, the controller
    -- is well formed, and the channel of the leaderboard holds at most 1024 commands.
    pub run-IsSound :
        (steps : List Step) (s : System hist) → IsSound s → IsSound (run hist from_str s steps)
    unfolding run
    run-IsSound [] s v = v
    run-IsSound (e ∷ steps) s v = run-IsSound steps (step hist from_str s e) (step-IsSound s e v)
