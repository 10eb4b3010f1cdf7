-- ===== src/Threaded/Worker/Accounts.antt =====
-- What a worker leaves behind for the tasks that it takes.
use real_time_system_project.Common.{
  subst, ap, ◌%◌, ◌^◌, ◌≡◌, refl, sym, ◌∙◌, List, [], ◌∷◌, ◌++◌, map, append_assoc, append-nil, ◌+◌,
}
use real_time_system_project.Time.{Instant}
use real_time_system_project.Event.{Task}
use real_time_system_project.Histogram.{Histogram}
use real_time_system_project.Leaderboard.{LbCmd, update}
use real_time_system_project.Priority.{is_human, is_bot}
use real_time_system_project.FailSafe.{record_all}
use real_time_system_project.Accounting.{Recorded, account_all}
use real_time_system_project.Accounting.Samples.{late_of, account_all_misses}
use real_time_system_project.Accounting.Folds.{
  Folds, keep_samples, drifts_of, duration_of, log_of, account_all-Folds,
}
use real_time_system_project.Threaded.Heap.{BinaryHeap}
use real_time_system_project.Threaded.PriorityQueue.{Popped, pop_blocking}
use real_time_system_project.Threaded.Worker.{Pass, Work, worker, process}

module _ (std : BinaryHeap) (hist : Histogram) where
  -- the tasks of the passes before the first call that returns none, with their readings of the clock
  abbrev pub taken : List (Pass std hist) → List (Task × Instant × Instant)
  taken [] = []
  taken (p ∷ passes) = elim (pop_blocking std p.rounds) [
    | Popped.cancelled ↦ []
    | Popped.waiting ↦ []
    | Popped.task t q ↦ (t, p.actual_start, p.finished) ∷ taken passes
  ]

  abbrev pub update_of : Task × Instant × Instant → LbCmd
  update_of (t, start, finish) = update t.event.server_name

  abbrev Accounted : Work std hist → Work std hist → List (Task × Instant × Instant) → Type 0
  Accounted w w' ts =
      (w'.recorded ≡ account_all hist w.recorded ts)
      × (w'.channel ≡ w.channel ++ map update_of ts)
      × (w'.logs ≡ w.logs ++ map log_of ts)

  Accounted-none : (w : Work std hist) → Accounted w w []
  unfolding account_all
  Accounted-none w = (refl, sym (append-nil w.channel), sym (append-nil w.logs))

  Accounted-one :
      (w w' : Work std hist) (t : Task) (start finish : Instant)
      (ts : List (Task × Instant × Instant))
      → Accounted (process std hist w t start finish) w' ts
      → Accounted w w' ((t, start, finish) ∷ ts)
  unfolding process account_all
  Accounted-one w w' t start finish ts (r, c, l) = (
    r,
    c ∙ append_assoc w.channel _ (map update_of ts),
    l ∙ append_assoc w.logs _ (map log_of ts),
  )

  Accounted-pass :
      (p : Pass std hist) (passes : List (Pass std hist)) (w : Work std hist) (o : Popped std)
      → ((w : Work std hist) → Accounted w (worker std hist w passes) (taken passes))
      → Accounted w
          (elim o [
            | Popped.cancelled ↦ w
            | Popped.waiting ↦ w
            | Popped.task t q ↦
                worker std hist (process std hist w t p.actual_start p.finished) passes
          ])
          (elim o [
            | Popped.cancelled ↦ []
            | Popped.waiting ↦ []
            | Popped.task t q ↦ (t, p.actual_start, p.finished) ∷ taken passes
          ])
  Accounted-pass p passes w Popped.cancelled rest = Accounted-none w
  Accounted-pass p passes w Popped.waiting rest = Accounted-none w
  Accounted-pass p passes w (Popped.task t q) rest =
      Accounted-one w _ t p.actual_start p.finished (taken passes)
        (rest (process std hist w t p.actual_start p.finished))

  worker-Accounted :
      (passes : List (Pass std hist)) (w : Work std hist)
      → Accounted w (worker std hist w passes) (taken passes)
  unfolding worker
  worker-Accounted [] w = Accounted-none w
  worker-Accounted (p ∷ passes) w =
      Accounted-pass p passes w (pop_blocking std p.rounds) (worker-Accounted passes)

  -- For the tasks that it takes, and for nothing else, a worker: keeps the delay of each in the histogram of
  -- its class and its run in that of the jitter and in the window of the fail-safe, in order; counts as
  -- missed, modulo the width of the counters, those of each class that run for more than two milliseconds;
  -- sends the leaderboard one update for each, in order; and logs for each its class, delay, run and
  -- whether it missed the deadline.
  pub worker_accounts :
      (passes : List (Pass std hist)) (w : Work std hist)
      → let w' = worker std hist w passes in
        let ts = taken passes in
        let m = w.recorded.metrics in
        let m' = w'.recorded.metrics in
        (m'.drift_human ≡ keep_samples hist m.drift_human (drifts_of is_human ts))
        × (m'.drift_bot ≡ keep_samples hist m.drift_bot (drifts_of is_bot ts))
        × (m'.jitter ≡ keep_samples hist m.jitter (map duration_of ts))
        × (w'.recorded.failsafe ≡ record_all hist w.recorded.failsafe (map duration_of ts))
        × (m'.deadline_miss_human % 2 ^ 64 ≡ (m.deadline_miss_human + late_of is_human ts) % 2 ^ 64)
        × (m'.deadline_miss_bot % 2 ^ 64 ≡ (m.deadline_miss_bot + late_of is_bot ts) % 2 ^ 64)
        × (w'.channel ≡ w.channel ++ map update_of ts)
        × (w'.logs ≡ w.logs ++ map log_of ts)
  worker_accounts passes w =
      let ts = taken passes in
      let (r, c, l) = worker-Accounted passes w in
      let folds =
        subst (λ (o : Recorded hist). Folds hist w.recorded o ts) (sym r)
          (account_all-Folds hist w.recorded ts) in
      let misses = account_all_misses hist w.recorded ts in
      (
        folds.human,
        folds.bot,
        folds.jitter,
        folds.window,
        ap (λ (o : Recorded hist). o.metrics.deadline_miss_human % 2 ^ 64) r ∙ misses.0,
        ap (λ (o : Recorded hist). o.metrics.deadline_miss_bot % 2 ^ 64) r ∙ misses.1,
        c,
        l,
      )
