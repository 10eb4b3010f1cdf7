-- ===== src/Async/Scheduler/Order.antt =====
-- The order in which the workers take the tasks.
use real_time_system_project.Common.{◌≡◌, refl, ap, false, List, [], ◌∷◌, ◌++◌, length, take}
use real_time_system_project.Time.{Instant}
use real_time_system_project.Event.{Task}
use real_time_system_project.Ring.{try_pop}
use real_time_system_project.Histogram.{Histogram}
use real_time_system_project.Async.Scheduler.{WorkerState, Turn, work, serve, process}

module _ (hist : Histogram) where
  pub work_hi :
      (w : WorkerState hist) (start finish : Instant) (t : Task) (q : List Task)
      → w.hi.queue ≡ t ∷ q
      → work hist w false start finish
        ≡ Turn.worked t (process hist (record w { hi = record w.hi { queue = q } }) t start finish)
  unfolding work try_pop
  work_hi w start finish t q e = rw e

  pub work_lo :
      (w : WorkerState hist) (start finish : Instant) (t : Task) (q : List Task)
      → w.hi.queue ≡ []
      → w.lo.queue ≡ t ∷ q
      → work hist w false start finish
        ≡ Turn.worked t (process hist (record w { lo = record w.lo { queue = q } }) t start finish)
  unfolding work try_pop
  work_lo w start finish t q e f = rw (e, f)

  pub work_none :
      (w : WorkerState hist) (start finish : Instant)
      → w.hi.queue ≡ []
      → w.lo.queue ≡ []
      → work hist w false start finish ≡ Turn.asleep
  unfolding work try_pop
  work_none w start finish e f = rw (e, f)

  serve_queues :
      (clock : List (Instant × Instant)) (w : WorkerState hist) (hi lo : List Task)
      → w.hi.queue ≡ hi
      → w.lo.queue ≡ lo
      → serve hist w clock ≡ take (length clock) (hi ++ lo)
  unfolding serve process
  serve_queues [] w hi lo e f = refl
  serve_queues ((start, finish) ∷ clock) w (t ∷ hi) lo e f =
      rw (serve, work_hi w start finish t hi e)
        (ap (λ ts. t ∷ ts) (serve_queues clock _ hi lo refl f))
  serve_queues ((start, finish) ∷ clock) w [] (t ∷ lo) e f =
      rw (serve, work_lo w start finish t lo e f)
        (ap (λ ts. t ∷ ts) (serve_queues clock _ [] lo e refl))
  serve_queues ((start, finish) ∷ clock) w [] [] e f = rw (serve, work_none w start finish e f)

  -- While nothing is pushed and nobody cancels, the first rounds of the workers take the tasks of the
  -- high lane, oldest first, then those of the low lane, oldest first, and then sleep.
  pub serve_lem :
      (w : WorkerState hist) (clock : List (Instant × Instant))
      → serve hist w clock ≡ take (length clock) (w.hi.queue ++ w.lo.queue)
  serve_lem w clock = serve_queues clock w w.hi.queue w.lo.queue refl refl
