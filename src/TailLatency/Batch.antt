-- ===== src/TailLatency/Batch.antt =====
-- A whole batch: it is enqueued without loss, and what the workers make of it.
use real_time_system_project.Common.{
  ℕ, suc, ◌+◌, ◌-◌, ◌/◌, ◌%◌, ◌≤◌, ◌<◌, ◌≡◌, refl, List, [], ◌∷◌, Option, some, ◌==◌, Bool-cases,
  ==_iff, total-one, length, length-replicate, total, total-replicate, arith, All, u64_max, inl,
  inr,
}
use real_time_system_project.Time.{Instant}
use real_time_system_project.Priority.{Priority, from_bot_flag}
use real_time_system_project.Event.{Task}
use real_time_system_project.Histogram.{Histogram}
use real_time_system_project.Metrics
use real_time_system_project.Metrics.Counting.{drift_human_add, drift_bot_add}
use real_time_system_project.Workers.{looking}
use real_time_system_project.TailLatency.{
  TaskQueue, Move, Kernel, make_task, make_tasks, push_all, spawned, run, bench_kernel,
}
use real_time_system_project.TailLatency.Balance.{IsTimely, carries, one, Balanced, run-Balanced}
use real_time_system_project.Workers.{is_over}

-- The sum of `f` over the tasks of a batch.
abbrev pub batch_sum : (Priority → ℕ) → List Task → ℕ
batch_sum f ts = total (λ (t : Task). f t.priority) ts

-- Every second task is of a bot, the first one included.
classes :
    (clock : List Instant) (idx : ℕ)
    → (batch_sum drift_human_add (make_tasks idx clock) ≡ (length clock + idx % 2) / 2)
      × (batch_sum drift_bot_add (make_tasks idx clock) ≡ (length clock + (1 - idx % 2)) / 2)
      × (batch_sum one (make_tasks idx clock) ≡ length clock)
unfolding make_tasks make_task from_bot_flag
classes [] idx = omega arith
classes (now ∷ clock) idx = elim (Bool-cases (idx % 2 == 0)) [
  | inl even ↦
      let rest = classes clock (suc idx) in
      rw even (
        omega (arith, rest.0, (==_iff (idx % 2) 0).0 even),
        omega (arith, rest.1, (==_iff (idx % 2) 0).0 even),
        omega (arith, rest.2),
      )
  | inr odd ↦
      let rest = classes clock (suc idx) in
      let o : idx % 2 ≡ 1 = ground (arith, odd) in
      rw odd (omega (arith, rest.0, o), omega (arith, rest.1, o), omega (arith, rest.2))
]

module _ (tasks : TaskQueue) (hist : Histogram) where
  open tasks use {Queue, count, push, push_room, HasCapacity, new-HasCapacity, count-new}
  open hist use {len, len-new}

  record Pushed (q : Queue) (ts : List Task) (o : Option Queue) : Type 0 where
    after : Queue
    returns : o ≡ some after
    counts : (f : Priority → ℕ) → count f after ≡ count f q + batch_sum f ts

  push_all-Pushed :
      (capacity : ℕ) (q : Queue) (ts : List Task)
      → HasCapacity capacity q
      → count one q + length ts ≤ capacity
      → Pushed q ts (push_all tasks hist q ts)
  unfolding push_all
  push_all-Pushed capacity q [] sized room = record {
    after = q;
    returns = refl;
    counts = λ f. omega arith;
  }
  push_all-Pushed capacity q (t ∷ ts) sized room =
      let (q', e, sized', grown) = push_room capacity q t sized (omega (arith, room)) in
      let rest = push_all-Pushed capacity q' ts sized' (omega (arith, room, grown one)) in
      record {
        after = rest.after;
        returns = rw (push_all, e) rest.returns;
        counts = λ f. omega (arith, rest.counts f, grown f);
      }

  -- The state after the moves of a batch with `n` tasks.
  pub record Benched (n : ℕ) (o : Option (Kernel tasks hist)) : Type 0 where
    pub after : Kernel tasks hist
    pub returns : o ≡ some after
    pub balanced : Balanced tasks hist (n / 2) ((n + 1) / 2) after

  spawned-Balanced :
      (h b n workers : ℕ) (q : Queue)
      → 0 < n
      → 0 < workers
      → h + b ≡ n
      → count one q ≡ n
      → count drift_human_add q ≡ h
      → count drift_bot_add q ≡ b
      → Balanced tasks hist h b (spawned tasks hist n workers q)
  unfolding Metrics.new
  spawned-Balanced h b n workers q some_task some_worker e all humans bots = record {
    left = omega (arith, all, total-replicate (carries one) workers looking);
    humans =
        omega (arith, humans, len-new, total-replicate (carries drift_human_add) workers looking);
    bots = omega (arith, bots, len-new, total-replicate (carries drift_bot_add) workers looking);
    both = omega (arith, len-new);
    jitter = omega (arith, e, len-new);
    signalled = ground (arith, some_task);
    crew = omega (arith, some_worker, length-replicate workers looking);
    awake = inr (omega (arith, total-replicate is_over workers looking));
  }

  -- For a batch with a task and workers, on a clock that stays in the range of the histograms, and whatever the
  -- order of the moves: no push panics or drops a task, and in every state the samples of each class and
  -- the tasks of the class that are queued or with a worker make up its half of the batch; bots come
  -- first. The main thread is given the message exactly if no task is left, before its cancellation.
  pub bench_kernel-Balanced :
      (clock : List Instant) (workers : ℕ) (moves : List Move)
      → 0 < length clock
      → length clock ≤ u64_max
      → 0 < workers
      → All IsTimely moves
      → Benched (length clock) (bench_kernel tasks hist clock workers moves)
  unfolding bench_kernel
  bench_kernel-Balanced clock workers moves some_task few some_worker timely =
      let n = length clock in
      let c = classes clock 0 in
      let p =
        push_all-Pushed (n + 1) (tasks.new (n + 1)) (make_tasks 0 clock) (new-HasCapacity (n + 1))
          (omega (arith, c.2, count-new one (n + 1), total-one (make_tasks 0 clock))) in
      record {
        after = run tasks hist (spawned tasks hist n workers p.after) moves;
        returns = rw (bench_kernel, p.returns) refl;
        balanced =
            run-Balanced tasks hist (n / 2) ((n + 1) / 2) (omega (arith, few))
              (spawned tasks hist n workers p.after) moves timely
              (spawned-Balanced (n / 2) ((n + 1) / 2) n workers p.after some_task some_worker
                (omega arith) (omega (arith, p.counts one, count-new one (n + 1), c.2))
                (omega (arith, p.counts drift_human_add, count-new drift_human_add (n + 1), c.0))
                (omega (arith, p.counts drift_bot_add, count-new drift_bot_add (n + 1), c.1)));
      }
