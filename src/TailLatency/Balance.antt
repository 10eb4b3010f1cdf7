-- ===== src/TailLatency/Balance.antt =====
-- What holds of every state of a kernel: where the tasks of the batch are, and what has been recorded.
use mathlib.Core.Bool.{true≢false}
use real_time_system_project.Common.{
  ℕ, ◌+◌, ◌≤◌, ◌<◌, ◌≡◌, ◌⊎◌, refl, ap, sym, ◌∙◌, Bool, true, false, ◌||◌, List, [], ◌∷◌, Option,
  none, some, if◌then◌else◌, ◌==◌, length, length-set, get_elem?, set, total, total-set, arith, All,
  u64_max, Option-cases, inl, inr,
}
use real_time_system_project.Time.{Instant, duration_since}
use real_time_system_project.Priority.{Priority}
use real_time_system_project.Event.{Task}
use real_time_system_project.Histogram.{Histogram, max_value}
use real_time_system_project.Metrics.{record_jitter, keep_sample}
use real_time_system_project.Metrics.Counting.{drift_human_add, drift_bot_add, len-keep_sample}
use real_time_system_project.Workers.{Worker, looking, holding, ended, all_ended}
use real_time_system_project.TailLatency.{
  TaskQueue, Move, take, finish, receive, Kernel, found, take_turn, finish_turn, received, step,
  run,
}
use real_time_system_project.Workers.{is_over}
use real_time_system_project.TailLatency.Samples.{still_awake, all_ended-false, signals, samples}

-- What the clock reads lies in the range of the histograms.
abbrev pub IsTimely : Move → Type 0
IsTimely (take i) = Unit
IsTimely (finish i start now) = (start ≤ max_value) × (now ≤ max_value)
IsTimely receive = Unit

-- The sum of `f` over the tasks that workers hold.
abbrev pub carries : (Priority → ℕ) → Worker → ℕ
carries f looking = 0
carries f (holding t) = f t.priority
carries f ended = 0

abbrev pub one : Priority → ℕ
one p = 1

module _ (tasks : TaskQueue) (hist : Histogram) where
  open tasks use {count, pop, pop-none, pop-some}
  open hist use {len}

  -- Tasks in the queue and with the workers.
  abbrev pub pending : (Priority → ℕ) → Kernel tasks hist → ℕ
  pending f k = count f k.queue + total (carries f) k.workers

  -- Of a batch with `h` tasks of humans and `b` of bots. The main thread has a message or has taken it
  -- exactly if all the tasks are finished.
  pub record Balanced (h b : ℕ) (k : Kernel tasks hist) : Type 0 where
    pub left : pending one k ≡ k.remaining
    pub humans : len k.metrics.drift_human + pending drift_human_add k ≡ h
    pub bots : len k.metrics.drift_bot + pending drift_bot_add k ≡ b
    pub both : len k.metrics.drift_human + len k.metrics.drift_bot ≡ len k.metrics.jitter
    pub jitter : len k.metrics.jitter + k.remaining ≡ h + b
    pub signalled : (k.done || k.cancelled) ≡ (k.remaining == 0)
    pub crew : 0 < length k.workers
    pub awake : (k.cancelled ≡ true) ⊎ (total is_over k.workers ≡ 0)

  module _ (h b : ℕ) (few : h + b ≤ u64_max) where
    taken :
        (k : Kernel tasks hist) (i : ℕ)
        → get_elem? k.workers i ≡ some looking
        → k.cancelled ≡ false
        → Balanced h b k
        → Balanced h b (found tasks hist k i (pop k.queue))
    taken k i w c v = elim (Option-cases (pop k.queue)) [
      | inl none_left ↦ rw none_left v
      | inr (p, e) ↦ rw e (record {
        left = omega (
          arith,
          v.left,
          pop-some k.queue one e,
          total-set (carries one) k.workers i (holding p.0) w,
        );
        humans = omega (
          arith,
          v.humans,
          pop-some k.queue drift_human_add e,
          total-set (carries drift_human_add) k.workers i (holding p.0) w,
        );
        bots = omega (
          arith,
          v.bots,
          pop-some k.queue drift_bot_add e,
          total-set (carries drift_bot_add) k.workers i (holding p.0) w,
        );
        both = v.both;
        jitter = v.jitter;
        signalled = v.signalled;
        crew = omega (arith, v.crew, length-set k.workers i (holding p.0));
        awake = still_awake k.workers i (holding p.0) w refl v.awake;
      })
    ]

    taken_or_ends :
        (k : Kernel tasks hist) (i : ℕ) (c : Bool)
        → get_elem? k.workers i ≡ some looking
        → k.cancelled ≡ c
        → Balanced h b k
        → Balanced h b (
            if c
            then record k { workers = set k.workers i ended }
            else found tasks hist k i (pop k.queue))
    taken_or_ends k i false w c v = taken k i w c v
    taken_or_ends k i true w c v = record {
      left = omega (arith, v.left, total-set (carries one) k.workers i ended w);
      humans = omega (arith, v.humans, total-set (carries drift_human_add) k.workers i ended w);
      bots = omega (arith, v.bots, total-set (carries drift_bot_add) k.workers i ended w);
      both = v.both;
      jitter = v.jitter;
      signalled = v.signalled;
      crew = omega (arith, v.crew, length-set k.workers i ended);
      awake = inl c;
    }

    take-Balanced :
        (k : Kernel tasks hist) (i : ℕ) (o : Option Worker)
        → get_elem? k.workers i ≡ o
        → Balanced h b k
        → Balanced h b (take_turn tasks hist k i o)
    take-Balanced k i none w v = v
    take-Balanced k i (some looking) w v = taken_or_ends k i k.cancelled w refl v
    take-Balanced k i (some (holding t)) w v = v
    take-Balanced k i (some ended) w v = v

    finished :
        (k : Kernel tasks hist) (i : ℕ) (start now : Instant) (t : Task)
        → get_elem? k.workers i ≡ some (holding t)
        → start ≤ max_value
        → now ≤ max_value
        → Balanced h b k
        → Balanced h b (finish_turn tasks hist k i start now (some (holding t)))
    unfolding record_jitter
    finished k i start now t w r r' v =
        let drift = duration_since start t.enqueued_at in
        let all = total-set (carries one) k.workers i looking w in
        let humans = total-set (carries drift_human_add) k.workers i looking w in
        let bots = total-set (carries drift_bot_add) k.workers i looking w in
        let s = samples hist k.metrics t.priority drift (omega (arith, r)) in
        let last =
          len-keep_sample hist k.metrics.jitter (duration_since now start) (omega (arith, r')) in
        record {
          left = omega (arith, v.left, v.jitter, all, few);
          humans =
              omega (arith, v.humans, few, humans, s.human (omega (arith, v.humans, humans, few)));
          bots = omega (arith, v.bots, few, bots, s.bot (omega (arith, v.bots, bots, few)));
          both = omega (
            arith,
            v.both,
            few,
            humans,
            bots,
            s.human (omega (arith, v.humans, humans, few)),
            s.bot (omega (arith, v.bots, bots, few)),
            s.class,
            v.jitter,
            v.left,
            all,
            last,
            ap (λ h. len (keep_sample hist h (duration_since now start))) s.jitter,
          );
          jitter = omega (
            arith,
            v.jitter,
            v.left,
            all,
            few,
            last,
            ap (λ h. len (keep_sample hist h (duration_since now start))) s.jitter,
          );
          signalled =
              signals k.done k.cancelled k.remaining v.signalled (omega (arith, v.left, all))
                (omega (arith, v.jitter, few));
          crew = omega (arith, v.crew, length-set k.workers i looking);
          awake = still_awake k.workers i looking w refl v.awake;
        }

    finish-Balanced :
        (k : Kernel tasks hist) (i : ℕ) (start now : Instant) (o : Option Worker)
        → get_elem? k.workers i ≡ o
        → start ≤ max_value
        → now ≤ max_value
        → Balanced h b k
        → Balanced h b (finish_turn tasks hist k i start now o)
    finish-Balanced k i start now none w r r' v = v
    finish-Balanced k i start now (some looking) w r r' v = v
    finish-Balanced k i start now (some ended) w r r' v = v
    finish-Balanced k i start now (some (holding t)) w r r' v = finished k i start now t w r r' v

    message :
        (k : Kernel tasks hist)
        → Balanced h b k
        → k.done ≡ true
        → Balanced h b (record k { done = false; cancelled = true })
    message k v d = record {
      left = v.left;
      humans = v.humans;
      bots = v.bots;
      both = v.both;
      jitter = v.jitter;
      signalled = cc (v.signalled, d);
      crew = v.crew;
      awake = inl refl;
    }

    nobody_ended :
        (k : Kernel tasks hist) → k.cancelled ≡ false → Balanced h b k → all_ended k.workers ≡ false
    nobody_ended k ce v = from_awake v.awake
      where
        from_awake :
            (k.cancelled ≡ true) ⊎ (total is_over k.workers ≡ 0) → all_ended k.workers ≡ false
        from_awake (inl c) = absurd (true≢false (sym c ∙ ce))
        from_awake (inr z) = all_ended-false k.workers v.crew z

    receive-Balanced :
        (k : Kernel tasks hist) (c d : Bool)
        → k.cancelled ≡ c
        → k.done ≡ d
        → Balanced h b k
        → Balanced h b (if c then k else received tasks hist k)
    receive-Balanced k true d ce de v = v
    receive-Balanced k false true ce de v = rw de (message k v de)
    receive-Balanced k false false ce de v = simp (de, nobody_ended k ce v) v

    pub step-Balanced :
        (k : Kernel tasks hist) (m : Move)
        → IsTimely m
        → Balanced h b k
        → Balanced h b (step tasks hist k m)
    unfolding step
    step-Balanced k (take i) q v = take-Balanced k i (get_elem? k.workers i) refl v
    step-Balanced k (finish i start now) q v =
        finish-Balanced k i start now (get_elem? k.workers i) refl q.0 q.1 v
    step-Balanced k receive q v = receive-Balanced k k.cancelled k.done refl refl v

    pub run-Balanced :
        (k : Kernel tasks hist) (moves : List Move)
        → All IsTimely moves
        → Balanced h b k
        → Balanced h b (run tasks hist k moves)
    unfolding run
    run-Balanced k [] q v = v
    run-Balanced k (m ∷ moves) q v =
        run-Balanced (step tasks hist k m) moves q.1 (step-Balanced k m q.0 v)
