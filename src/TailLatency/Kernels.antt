-- ===== src/TailLatency/Kernels.antt =====
-- The two kernels, and what they measure.
use real_time_system_project.Common.{
  ℕ, ◌+◌, ◌/◌, ◌≤◌, ◌<◌, ◌≡◌, refl, ap, sym, ◌∙◌, Bool, true, false, ◌&&◌, ◌||◌, List, Option, none,
  some, if◌then◌else◌, ◌==◌, ==_iff, length, subst, arith, All, u64_max,
}
use mathlib.Core.Option.{some_inj}
use real_time_system_project.Time.{Instant}
use real_time_system_project.Histogram.{Histogram}
use real_time_system_project.Metrics
use real_time_system_project.Metrics.{Metrics, snapshot}
use real_time_system_project.Workers.{all_ended}
use real_time_system_project.Threaded.Heap.{BinaryHeap}
use real_time_system_project.TailLatency.{
  TaskQueue, Move, Kernel, bench_kernel, async_result, threaded_result, push_all, make_tasks,
  spawned,
}
use real_time_system_project.TailLatency.Trace.{
  HoldsRuns, finished_tasks, Traced, bench_kernel-Traced,
}
use real_time_system_project.TailLatency.Lanes.{lanes}
use real_time_system_project.TailLatency.Blocking.{blocking}
use real_time_system_project.TailLatency.Balance.{IsTimely, Balanced}
use real_time_system_project.TailLatency.Batch.{bench_kernel-Balanced}

abbrev pub result_of : {A : Type 0} → (A → Option (ℕ × ℕ)) → Option A → Option (ℕ × ℕ)
result_of f none = none
result_of f (some k) = f k

module _ (hist : Histogram) where
  unfoldable pub bench_async_kernel : List Instant → ℕ → List Move → Option (ℕ × ℕ)
  bench_async_kernel clock workers moves =
      result_of (async_result lanes hist) (bench_kernel lanes hist clock workers moves)

  unfoldable pub bench_threaded_kernel : BinaryHeap → List Instant → ℕ → List Move → Option (ℕ × ℕ)
  bench_threaded_kernel std clock workers moves =
      result_of (threaded_result (blocking std) hist)
        (bench_kernel (blocking std) hist clock workers moves)

  open hist use {len}

  -- The percentiles are those of metrics that hold, of each task that a worker finishes in the moves of a batch,
  -- its delay in the histogram of its class and its run in that of the jitter, and of no other task; half of
  -- the samples of delays are of humans, and there is one of a run for each task of the batch.
  pub record MeasuresAll (tasks : TaskQueue) (clock : List Instant) (workers : ℕ)
      (moves : List Move) (p : ℕ × ℕ) : Type 0 where
    pub queue : tasks.Queue
    pub pushed :
        push_all tasks hist (tasks.new (length clock + 1)) (make_tasks 0 clock) ≡ some queue
    pub metrics : Metrics hist
    pub holds :
        HoldsRuns tasks hist
          (Metrics.new hist)
          metrics
          (finished_tasks tasks hist (spawned tasks hist (length clock) workers queue) moves)
    pub percentiles :
        p ≡ ((snapshot hist metrics).drift_human_p99, (snapshot hist metrics).drift_bot_p99)
    pub humans : len metrics.drift_human ≡ length clock / 2
    pub bots : len metrics.drift_bot ≡ (length clock + 1) / 2
    pub jitter : len metrics.jitter ≡ length clock

  -- The two numbers that the kernels return.
  abbrev p99s : {tasks : TaskQueue} → Kernel tasks hist → ℕ × ℕ
  p99s k = ((snapshot hist k.metrics).drift_human_p99, (snapshot hist k.metrics).drift_bot_p99)

  none_remains : (d c : Bool) (r : ℕ) → (d || c) ≡ (r == 0) → c ≡ true → r ≡ 0
  none_remains true c r e h = (==_iff r 0).0 (sym e)
  none_remains false c r e h = (==_iff r 0).0 (sym e ∙ h)

  measured :
      {tasks : TaskQueue} (clock : List Instant) (workers : ℕ) (moves : List Move)
      (k : Kernel tasks hist)
      → Balanced tasks hist (length clock / 2) ((length clock + 1) / 2) k
      → Traced tasks hist clock workers moves k
      → k.cancelled ≡ true
      → MeasuresAll tasks clock workers moves (p99s k)
  measured clock workers moves k v t c =
      let z = none_remains k.done k.cancelled k.remaining v.signalled c in
      record {
        queue = t.queue;
        pushed = t.pushed;
        metrics = k.metrics;
        holds = t.holds;
        percentiles = refl;
        humans = omega (arith, v.humans, v.bots, v.both, v.jitter, z);
        bots = omega (arith, v.humans, v.bots, v.both, v.jitter, z);
        jitter = omega (arith, v.jitter, z);
      }

  returned :
      {tasks : TaskQueue} (clock : List Instant) (workers : ℕ) (moves : List Move)
      (k : Kernel tasks hist) (b : Bool) {p : ℕ × ℕ}
      → Balanced tasks hist (length clock / 2) ((length clock + 1) / 2) k
      → Traced tasks hist clock workers moves k
      → (b ≡ true → k.cancelled ≡ true)
      → (if b then some (p99s k) else none) ≡ some p
      → MeasuresAll tasks clock workers moves p
  returned clock workers moves k false v t c h = cc
  returned {tasks} clock workers moves k true v t c h =
      subst (MeasuresAll tasks clock workers moves) (some_inj.0 h)
        (measured clock workers moves k v t (c refl))

  both_true : (b c : Bool) → (b && c) ≡ true → b ≡ true
  both_true true c h = refl
  both_true false c h = h

  async_measures :
      (clock : List Instant) (workers : ℕ) (moves : List Move) {p : ℕ × ℕ}
      → 0 < length clock
      → length clock ≤ u64_max
      → 0 < workers
      → All IsTimely moves
      → bench_async_kernel clock workers moves ≡ some p
      → MeasuresAll lanes clock workers moves p
  unfolding bench_async_kernel async_result
  async_measures clock workers moves some_task few some_worker timely h =
      let r =
        bench_kernel-Balanced lanes hist clock workers moves some_task few some_worker timely in
      returned clock workers moves r.after r.after.cancelled r.balanced
        (bench_kernel-Traced lanes hist clock workers moves r.after r.returns) (λ c. c)
        (sym (ap (result_of (async_result lanes hist)) r.returns) ∙ h)

  threaded_measures :
      (std : BinaryHeap) (clock : List Instant) (workers : ℕ) (moves : List Move) {p : ℕ × ℕ}
      → 0 < length clock
      → length clock ≤ u64_max
      → 0 < workers
      → All IsTimely moves
      → bench_threaded_kernel std clock workers moves ≡ some p
      → MeasuresAll (blocking std) clock workers moves p
  unfolding bench_threaded_kernel threaded_result
  threaded_measures std clock workers moves some_task few some_worker timely h =
      let r =
        bench_kernel-Balanced (blocking std) hist clock workers moves some_task few some_worker
          timely in
      returned clock workers moves r.after (r.after.cancelled && all_ended r.after.workers)
        r.balanced (bench_kernel-Traced (blocking std) hist clock workers moves r.after r.returns)
        (both_true r.after.cancelled (all_ended r.after.workers))
        (sym (ap (result_of (threaded_result (blocking std) hist)) r.returns) ∙ h)

  -- For a batch with a task and workers, on a clock that stays in the range of the histograms, and whatever the
  -- order of the moves of either kernel: when they have returned, the percentiles of each are those of metrics
  -- that hold exactly, in order and for each task that its workers finish in these moves, the time from its
  -- `enqueued_at` to the start of its run in the histogram of its class, and the length of its run; there
  -- is one sample of drift for every task of the batch, half of them humans, and one of jitter for each.
  pub bench_kernels_measure :
      (std : BinaryHeap) (clock : List Instant) (workers : ℕ) (async_moves moves : List Move)
      {p q : ℕ × ℕ}
      → 0 < length clock
      → length clock ≤ u64_max
      → 0 < workers
      → All IsTimely async_moves
      → All IsTimely moves
      → bench_async_kernel clock workers async_moves ≡ some p
      → bench_threaded_kernel std clock workers moves ≡ some q
      → MeasuresAll lanes clock workers async_moves p
        × MeasuresAll (blocking std) clock workers moves q
  bench_kernels_measure std clock workers async_moves moves some_task few some_worker t u h g = (
    async_measures clock workers async_moves some_task few some_worker t h,
    threaded_measures std clock workers moves some_task few some_worker u g,
  )
