-- ===== src/TailLatency.antt =====
-- crates/rts-bench/benches/tail_latency.rs: a batch of tasks that workers drain from a queue, while the main
-- thread waits for the worker that finishes the last one. The two kernels differ in the queue.
pub mod Lanes
pub mod Blocking
pub mod Samples
pub mod Balance
pub mod Trace
pub mod Batch
pub mod Kernels
pub mod Progress
mod Tests
use real_time_system_project.Common.{
  ℕ, zero, suc, ◌+◌, ◌*◌, ◌-◌, ◌%◌, ◌^◌, ◌<◌, ◌≡◌, Bool, true, false, not, ◌&&◌, ◌||◌, List, [],
  ◌∷◌, Option, none, some, if◌then◌else◌, ltb, ◌==◌, length, get_elem?, set, replicate, bytes,
}
use real_time_system_project.Time.{Instant, duration_since}
use real_time_system_project.Priority.{Priority, from_bot_flag}
use real_time_system_project.Event.{Task}
use real_time_system_project.Histogram.{Histogram}
use real_time_system_project.Metrics.{Metrics, record_drift, record_jitter, snapshot}
use real_time_system_project.Metrics
use real_time_system_project.Workers.{Worker, looking, holding, ended, all_ended}

abbrev pub batch_sizes : List ℕ
batch_sizes = 256 ∷ 1_024 ∷ 4_096 ∷ []

unfoldable pub make_task : ℕ → Instant → Task
make_task idx now =
    let bot = idx % 2 == 0 in
    record {
      event = record {
        user = bytes "bench_user";
        bot = bot;
        server_name = bytes "en.wikipedia.org";
      };
      priority = from_bot_flag bot;
      enqueued_at = now;
    }

-- The tasks from number `idx` on, with what the clock reads for each.
unfoldable pub make_tasks : ℕ → List Instant → List Task
make_tasks idx [] = []
make_tasks idx (now ∷ clock) = make_task idx now ∷ make_tasks (suc idx) clock

-- What the workers draw from. `count f q` is the sum of `f` over the tasks in the queue.
pub record TaskQueue : Type 1 where
  pub Queue : Type 0
  pub new : ℕ → Queue
  -- `none` is a panic
  pub push : Queue → Task → Option Queue
  pub pop : Queue → Option (Task × Queue)
  pub HasCapacity : ℕ → Queue → Type 0
  pub count : (Priority → ℕ) → Queue → ℕ
  pub new-HasCapacity : (capacity : ℕ) → HasCapacity capacity (new capacity)
  pub count-new : (f : Priority → ℕ) (capacity : ℕ) → count f (new capacity) ≡ 0
  pub push_room :
      (capacity : ℕ) (q : Queue) (t : Task)
      → HasCapacity capacity q
      → count (λ p. 1) q < capacity
      → (q' : Queue) × (push q t ≡ some q')
        × HasCapacity capacity q'
        × ((f : Priority → ℕ) → count f q' ≡ f t.priority + count f q)
  pub pop-none : (q : Queue) (f : Priority → ℕ) → pop q ≡ none → count f q ≡ 0
  pub pop-some :
      (q : Queue) (f : Priority → ℕ) {t : Task} {q' : Queue}
      → pop q ≡ some (t, q')
      → count f q ≡ f t.priority + count f q'

-- A worker looks for a task and takes it, or is behind it; the main thread waits for `done_rx`.
pub data Move : Type 0 where
  take : ℕ → Move
  finish : ℕ → Instant → Instant → Move
  receive : Move

module _ (tasks : TaskQueue) (hist : Histogram) where
  open tasks use {Queue, new, push, pop}

  -- `done` is the message in the channel, whose capacity is one.
  pub record Kernel : Type 0 where
    pub queue : Queue
    pub metrics : Metrics hist
    pub remaining : ℕ
    pub done : Bool
    pub workers : List Worker
    pub cancelled : Bool

  abbrev pub found : Kernel → ℕ → Option (Task × Queue) → Kernel
  found k i none = k
  found k i (some (t, queue)) = record k { queue = queue; workers = set k.workers i (holding t) }

  abbrev pub take_turn : Kernel → ℕ → Option Worker → Kernel
  take_turn k i (some looking) =
      if k.cancelled then record k { workers = set k.workers i ended } else found k i (pop k.queue)
  take_turn k i _ = k

  -- `fetch_sub(1)` gives the value before.
  abbrev pub finish_turn : Kernel → ℕ → Instant → Instant → Option Worker → Kernel
  finish_turn k i start now (some (holding t)) =
      let drift = duration_since start t.enqueued_at in
      record k {
        metrics =
            record_jitter hist (record_drift hist k.metrics t.priority drift)
              (duration_since now start);
        remaining = (k.remaining + (2 ^ 64 - 1)) % 2 ^ 64;
        done = k.done || (k.remaining == 1);
        workers = set k.workers i looking;
      }
  finish_turn k i start now _ = k

  -- `recv` ends with a message, and also where all the senders are dropped.
  abbrev pub received : Kernel → Kernel
  received k =
      if k.done || all_ended k.workers then record k { done = false; cancelled = true } else k

  unfoldable pub step : Kernel → Move → Kernel
  step k (take i) = take_turn k i (get_elem? k.workers i)
  step k (finish i start now) = finish_turn k i start now (get_elem? k.workers i)
  step k receive = if k.cancelled then k else received k

  unfoldable pub run : Kernel → List Move → Kernel
  unfolding step
  run k [] = k
  run k (m ∷ moves) = run (step k m) moves

  unfoldable pub push_all : Queue → List Task → Option Queue
  push_all q [] = some q
  push_all q (t ∷ ts) = elim (push q t) [ none ↦ none | some q' ↦ push_all q' ts ]

  abbrev pub spawned : ℕ → ℕ → Queue → Kernel
  spawned n workers queue = record {
    queue = queue;
    metrics = Metrics.new hist;
    remaining = n;
    done = false;
    workers = replicate workers looking;
    cancelled = false;
  }

  -- The state after the moves, of a batch with one task for each reading of the clock.
  unfoldable pub bench_kernel : List Instant → ℕ → List Move → Option Kernel
  unfolding run push_all
  bench_kernel clock workers moves =
      let n = length clock in
      elim (push_all (new (n + 1)) (make_tasks 0 clock)) [
        | none ↦ none
        | some queue ↦ some (run (spawned n workers queue) moves)
      ]

  -- The async kernel reads the metrics behind the cancellation, the threaded one behind the joins.
  unfoldable pub async_result : Kernel → Option (ℕ × ℕ)
  async_result k =
      let snap = snapshot hist k.metrics in
      if k.cancelled then some (snap.drift_human_p99, snap.drift_bot_p99) else none

  unfoldable pub threaded_result : Kernel → Option (ℕ × ℕ)
  threaded_result k =
      let snap = snapshot hist k.metrics in
      if k.cancelled && all_ended k.workers
      then some (snap.drift_human_p99, snap.drift_bot_p99)
      else none
