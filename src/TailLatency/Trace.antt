-- ===== src/TailLatency/Trace.antt =====
-- Which samples the metrics of a kernel hold.
use real_time_system_project.Common.{
  ◌+◌, length, subst, ℕ, ◌≡◌, refl, ap, ◌∙◌, Bool, List, [], ◌∷◌, ◌++◌, map, Option, none, some,
  get_elem?, set, if◌then◌else◌, ◌||◌, true, false,
}
use mathlib.Core.Option.{some_inj}
use real_time_system_project.Metrics
use real_time_system_project.Time.{Instant, duration_since}
use real_time_system_project.Priority.{Priority, human, bot, is_human, is_bot}
use real_time_system_project.Event.{Task}
use real_time_system_project.Histogram.{Histogram}
use real_time_system_project.Metrics.{Metrics, keep_sample, record_drift, record_jitter}
use real_time_system_project.Workers.{Worker, looking, holding, ended, all_ended}
use real_time_system_project.Accounting.Folds.{drifts_of, duration_of, keep_samples}
use real_time_system_project.TailLatency.{
  TaskQueue, Move, take, finish, receive, Kernel, found, take_turn, finish_turn, step, run,
  push_all, make_tasks, spawned, bench_kernel,
}

module _ (tasks : TaskQueue) (hist : Histogram) where
  open tasks use {Queue}

  -- The task that a worker holds, with the two readings of the clock, if it finishes it.
  abbrev held : Instant → Instant → Option Worker → List (Task × Instant × Instant)
  held start now (some (holding t)) = (t, start, now) ∷ []
  held start now _ = []

  abbrev finished_in : Kernel tasks hist → Move → List (Task × Instant × Instant)
  finished_in k (take i) = []
  finished_in k (finish i start now) = held start now (get_elem? k.workers i)
  finished_in k receive = []

  -- The tasks that the workers finish, in order, each with the start and the end of its run.
  abbrev pub finished_tasks : Kernel tasks hist → List Move → List (Task × Instant × Instant)
  finished_tasks k [] = []
  finished_tasks k (m ∷ moves) = finished_in k m ++ finished_tasks (step tasks hist k m) moves

  -- Metrics that hold the samples of tasks beside those of others.
  pub record HoldsRuns (m m' : Metrics hist) (runs : List (Task × Instant × Instant)) : Type 0 where
    pub human : m'.drift_human ≡ keep_samples hist m.drift_human (drifts_of is_human runs)
    pub bot : m'.drift_bot ≡ keep_samples hist m.drift_bot (drifts_of is_bot runs)
    pub jitter : m'.jitter ≡ keep_samples hist m.jitter (map duration_of runs)

  none_held : (m : Metrics hist) → HoldsRuns m m []
  none_held m = record { human = refl; bot = refl; jitter = refl }

  one_held :
      (p : Priority) (m : Metrics hist) (t : Task) (start now : Instant)
      → t.priority ≡ p
      → HoldsRuns m
          (record_jitter hist
            (record_drift hist m p (duration_since start t.enqueued_at))
            (duration_since now start))
          ((t, start, now) ∷ [])
  unfolding record_jitter record_drift
  one_held human m t start now e = record { human = rw e refl; bot = rw e refl; jitter = refl }
  one_held bot m t start now e = record { human = rw e refl; bot = rw e refl; jitter = refl }

  drifts-append :
      (class : Priority → Bool) (h : hist.Hist) (xs ys : List (Task × Instant × Instant))
      → keep_samples hist (keep_samples hist h (drifts_of class xs)) (drifts_of class ys)
        ≡ keep_samples hist h (drifts_of class (xs ++ ys))
  drifts-append class h [] ys = refl
  drifts-append class h ((t, start, now) ∷ xs) ys =
      by_class (class t.priority) (λ h. drifts-append class h xs ys)
    where
      by_class :
          (b : Bool)
          → ((h : hist.Hist)
              → keep_samples hist (keep_samples hist h (drifts_of class xs)) (drifts_of class ys)
                ≡ keep_samples hist h (drifts_of class (xs ++ ys)))
          → keep_samples hist
              (keep_samples hist h (
                if b
                then duration_since start t.enqueued_at ∷ drifts_of class xs
                else drifts_of class xs))
              (drifts_of class ys)
            ≡ keep_samples hist h (
                if b
                then duration_since start t.enqueued_at ∷ drifts_of class (xs ++ ys)
                else drifts_of class (xs ++ ys))
      by_class true rest = rest (keep_sample hist h (duration_since start t.enqueued_at))
      by_class false rest = rest h

  durations-append :
      (h : hist.Hist) (xs ys : List (Task × Instant × Instant))
      → keep_samples hist (keep_samples hist h (map duration_of xs)) (map duration_of ys)
        ≡ keep_samples hist h (map duration_of (xs ++ ys))
  durations-append h [] ys = refl
  durations-append h (x ∷ xs) ys = durations-append (keep_sample hist h (duration_of x)) xs ys

  both_held :
      (m m' m'' : Metrics hist) (xs ys : List (Task × Instant × Instant))
      → HoldsRuns m m' xs
      → HoldsRuns m' m'' ys
      → HoldsRuns m m'' (xs ++ ys)
  both_held m m' m'' xs ys v w = record {
    human =
        w.human
        ∙ ap (λ h. keep_samples hist h (drifts_of is_human ys)) v.human
        ∙ drifts-append is_human m.drift_human xs ys;
    bot =
        w.bot
        ∙ ap (λ h. keep_samples hist h (drifts_of is_bot ys)) v.bot
        ∙ drifts-append is_bot m.drift_bot xs ys;
    jitter =
        w.jitter
        ∙ ap (λ h. keep_samples hist h (map duration_of ys)) v.jitter
        ∙ durations-append m.jitter xs ys;
  }

  take-HoldsRuns :
      (k : Kernel tasks hist) (i : ℕ) (o : Option Worker)
      → HoldsRuns k.metrics (take_turn tasks hist k i o).metrics []
  take-HoldsRuns k i none = none_held k.metrics
  take-HoldsRuns k i (some (holding t)) = none_held k.metrics
  take-HoldsRuns k i (some ended) = none_held k.metrics
  take-HoldsRuns k i (some looking) = stops_or_looks k.cancelled
    where
      finds : (o : Option (Task × Queue)) → HoldsRuns k.metrics (found tasks hist k i o).metrics []
      finds none = none_held k.metrics
      finds (some (t, q)) = none_held k.metrics

      stops_or_looks :
          (c : Bool)
          → HoldsRuns k.metrics
              (if c
                then record k { workers = set k.workers i ended }
                else found tasks hist k i (tasks.pop k.queue)).metrics
              []
      stops_or_looks true = none_held k.metrics
      stops_or_looks false = finds (tasks.pop k.queue)

  finish-HoldsRuns :
      (k : Kernel tasks hist) (i : ℕ) (start now : Instant) (o : Option Worker)
      → HoldsRuns k.metrics (finish_turn tasks hist k i start now o).metrics (held start now o)
  finish-HoldsRuns k i start now none = none_held k.metrics
  finish-HoldsRuns k i start now (some looking) = none_held k.metrics
  finish-HoldsRuns k i start now (some ended) = none_held k.metrics
  finish-HoldsRuns k i start now (some (holding t)) = one_held t.priority k.metrics t start now refl

  receive-HoldsRuns :
      (k : Kernel tasks hist) (c d : Bool)
      → HoldsRuns k.metrics
          (if c then k else (if d then record k { done = false; cancelled = true } else k)).metrics
          []
  receive-HoldsRuns k true d = none_held k.metrics
  receive-HoldsRuns k false true = none_held k.metrics
  receive-HoldsRuns k false false = none_held k.metrics

  step-HoldsRuns :
      (k : Kernel tasks hist) (m : Move)
      → HoldsRuns k.metrics (step tasks hist k m).metrics (finished_in k m)
  unfolding step
  step-HoldsRuns k (take i) = take-HoldsRuns k i (get_elem? k.workers i)
  step-HoldsRuns k (finish i start now) = finish-HoldsRuns k i start now (get_elem? k.workers i)
  step-HoldsRuns k receive = receive-HoldsRuns k k.cancelled (k.done || all_ended k.workers)

  pub run-HoldsRuns :
      (moves : List Move) (k : Kernel tasks hist)
      → HoldsRuns k.metrics (run tasks hist k moves).metrics (finished_tasks k moves)
  unfolding run
  run-HoldsRuns [] k = none_held k.metrics
  run-HoldsRuns (m ∷ moves) k =
      both_held _ _ _ (finished_in k m) _ (step-HoldsRuns k m)
        (run-HoldsRuns moves (step tasks hist k m))

  -- The queue of a batch that has been pushed, and the metrics that its kernel ends with.
  pub record Traced (clock : List Instant) (workers : ℕ) (moves : List Move) (k : Kernel tasks hist)
      : Type 0 where
    pub queue : Queue
    pub pushed :
        push_all tasks hist (tasks.new (length clock + 1)) (make_tasks 0 clock) ≡ some queue
    pub holds :
        HoldsRuns
          (Metrics.new hist)
          k.metrics
          (finished_tasks (spawned tasks hist (length clock) workers queue) moves)

  pub bench_kernel-Traced :
      (clock : List Instant) (workers : ℕ) (moves : List Move) (k : Kernel tasks hist)
      → bench_kernel tasks hist clock workers moves ≡ some k
      → Traced clock workers moves k
  unfolding bench_kernel
  bench_kernel-Traced clock workers moves k h =
      of_queue (push_all tasks hist (tasks.new (length clock + 1)) (make_tasks 0 clock)) refl h
    where
      of_queue :
          (o : Option Queue)
          → push_all tasks hist (tasks.new (length clock + 1)) (make_tasks 0 clock) ≡ o
          → (elim o [
            | none ↦ none
            | some queue ↦
                some (run tasks hist (spawned tasks hist (length clock) workers queue) moves)
          ])
            ≡ some k
          → Traced clock workers moves k
      of_queue none e h = cc
      of_queue (some queue) e h = record {
        queue = queue;
        pushed = e;
        holds =
            subst
              (λ (k : Kernel tasks hist).
                HoldsRuns (Metrics.new hist) k.metrics
                  (finished_tasks (spawned tasks hist (length clock) workers queue) moves))
              (some_inj.0 h)
              (run-HoldsRuns moves (spawned tasks hist (length clock) workers queue));
      }
