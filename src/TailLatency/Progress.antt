-- ===== src/TailLatency/Progress.antt =====
-- A kernel that has a task left does not stand still.
use mathlib.Core.Bool.{true≢false}
use real_time_system_project.Common.{
  ℕ, suc, ◌+◌, ◌*◌, ◌≤◌, ◌<◌, ◌≡◌, ◌⊎◌, refl, ap, sym, ◌∙◌, Bool, true, false, ◌||◌, List, [], ◌∷◌,
  none, some, if◌then◌else◌, ◌==◌, length, All, u64_max, ==_iff, ◌/◌, get_elem?, set, total,
  total-set, arith, inl, inr, Option-cases, Bool-cases,
}
use real_time_system_project.Time.{Instant}
use real_time_system_project.Event.{Task}
use real_time_system_project.Histogram.{Histogram}
use real_time_system_project.Workers.{Worker, looking, holding, ended}
use real_time_system_project.TailLatency.{
  TaskQueue, Move, take, finish, receive, Kernel, found, take_turn, finish_turn, step, bench_kernel,
}
use real_time_system_project.Workers.{is_over}
use real_time_system_project.TailLatency.Balance.{carries, one, Balanced, IsTimely}
use real_time_system_project.TailLatency.Batch.{bench_kernel-Balanced}

holds_or_not :
    (ws : List Worker)
    → ((i : ℕ) × (t : Task) × (get_elem? ws i ≡ some (holding t))) ⊎ (total (carries one) ws ≡ 0)
holds_or_not [] = inr refl
holds_or_not (holding t ∷ ws) = inl (0, t, refl)
holds_or_not (looking ∷ ws) = in_rest (holds_or_not ws)
  where
    in_rest :
        ((i : ℕ) × (t : Task) × (get_elem? ws i ≡ some (holding t))) ⊎ (total (carries one) ws ≡ 0)
        → ((i : ℕ) × (t : Task) × (get_elem? (looking ∷ ws) i ≡ some (holding t)))
          ⊎ (total (carries one) (looking ∷ ws) ≡ 0)
    in_rest (inl (i, t, h)) = inl (suc i, t, h)
    in_rest (inr z) = inr (omega (arith, z))
holds_or_not (ended ∷ ws) = in_rest (holds_or_not ws)
  where
    in_rest :
        ((i : ℕ) × (t : Task) × (get_elem? ws i ≡ some (holding t))) ⊎ (total (carries one) ws ≡ 0)
        → ((i : ℕ) × (t : Task) × (get_elem? (ended ∷ ws) i ≡ some (holding t)))
          ⊎ (total (carries one) (ended ∷ ws) ≡ 0)
    in_rest (inl (i, t, h)) = inl (suc i, t, h)
    in_rest (inr z) = inr (omega (arith, z))

first_looks :
    (ws : List Worker)
    → 0 < length ws
    → total is_over ws ≡ 0
    → total (carries one) ws ≡ 0
    → get_elem? ws 0 ≡ some looking
first_looks [] h z y = absurd (omega (arith, h))
first_looks (looking ∷ ws) h z y = refl
first_looks (holding t ∷ ws) h z y = absurd (omega (arith, y))
first_looks (ended ∷ ws) h z y = absurd (omega (arith, z))

module _ (tasks : TaskQueue) (hist : Histogram) where
  open tasks use {count, pop, pop-none, pop-some}

  -- The moves that the tasks in the queue and with the workers still need.
  abbrev pub moves_left : Kernel tasks hist → ℕ
  moves_left k = 2 * count one k.queue + total (carries one) k.workers

  -- Some worker's next move, whatever the clock reads, brings a task forward.
  abbrev pub CanMove : Kernel tasks hist → Type 0
  CanMove k =
      (i : ℕ) × ((moves_left (step tasks hist k (take i)) + 1 ≡ moves_left k)
        ⊎ ((start now : Instant)
            → moves_left (step tasks hist k (finish i start now)) + 1 ≡ moves_left k))

  finishes :
      (k : Kernel tasks hist) (i : ℕ) (t : Task)
      → get_elem? k.workers i ≡ some (holding t)
      → (start now : Instant)
      → moves_left (step tasks hist k (finish i start now)) + 1 ≡ moves_left k
  unfolding step
  finishes k i t w start now =
      ap (λ o. moves_left (finish_turn tasks hist k i start now o) + 1) w
      ∙ omega (arith, total-set (carries one) k.workers i looking w)

  takes :
      (k : Kernel tasks hist) (i : ℕ)
      → get_elem? k.workers i ≡ some looking
      → k.cancelled ≡ false
      → 0 < count one k.queue
      → moves_left (step tasks hist k (take i)) + 1 ≡ moves_left k
  unfolding step
  takes k i w c some_left =
      ap (λ o. moves_left (take_turn tasks hist k i o) + 1) w
      ∙ ap
          (λ c.
            moves_left (
              if c
              then record k { workers = set k.workers i ended }
              else found tasks hist k i (pop k.queue))
            + 1)
          c
      ∙ taken (Option-cases (pop k.queue))
    where
      taken :
          (pop k.queue ≡ none) ⊎ ((p : Task × tasks.Queue) × (pop k.queue ≡ some p))
          → moves_left (found tasks hist k i (pop k.queue)) + 1 ≡ moves_left k
      taken (inl none_left) = absurd (omega (arith, some_left, pop-none k.queue one none_left))
      taken (inr (p, e)) =
          ap (λ o. moves_left (found tasks hist k i o) + 1) e
          ∙ omega
              (arith, pop-some k.queue one e, total-set (carries one) k.workers i (holding p.0) w)

  waits : (d c : Bool) (n : ℕ) → (d || c) ≡ (n == 0) → 0 < n → c ≡ false
  waits d false n e left = refl
  waits true true n e left = absurd (ground (arith, e))
  waits false true n e left = absurd (ground (arith, e))

  some_worker_moves :
      (h b : ℕ) (k : Kernel tasks hist) → Balanced tasks hist h b k → 0 < k.remaining → CanMove k
  some_worker_moves h b k v left = by_holding (holds_or_not k.workers)
    where
      running : k.cancelled ≡ false
      running = waits k.done k.cancelled k.remaining v.signalled left

      nobody_over :
          (k.cancelled ≡ true) ⊎ (total is_over k.workers ≡ 0) → total is_over k.workers ≡ 0
      nobody_over (inl c) = absurd (true≢false (sym c ∙ running))
      nobody_over (inr z) = z

      by_holding :
          ((i : ℕ) × (t : Task) × (get_elem? k.workers i ≡ some (holding t)))
            ⊎ (total (carries one) k.workers ≡ 0)
          → CanMove k
      by_holding (inl (i, t, w)) = (i, inr (finishes k i t w))
      by_holding (inr z) = (
        0,
        inl (
            takes k 0 (first_looks k.workers v.crew (nobody_over v.awake) z) running
              (omega (arith, v.left, z, left))),
      )

  -- Either all the tasks of the batch are finished, and then the main thread is behind its `recv` or leaves it
  -- next; or some worker's next move brings a task forward.
  abbrev pub GoesOn : Kernel tasks hist → Type 0
  GoesOn k = ((k.remaining ≡ 0) × ((step tasks hist k receive).cancelled ≡ true)) ⊎ CanMove k

  leaves :
      (k : Kernel tasks hist) (d c : Bool)
      → k.done ≡ d
      → k.cancelled ≡ c
      → (d || c) ≡ true
      → (step tasks hist k receive).cancelled ≡ true
  unfolding step
  leaves k d true de ce e = rw ce refl
  leaves k true false de ce e = rw (ce, de) refl
  leaves k false false de ce e = absurd (true≢false (sym e))

  goes_on : (h b : ℕ) (k : Kernel tasks hist) → Balanced tasks hist h b k → GoesOn k
  goes_on h b k v = elim (Bool-cases (k.remaining == 0)) [
    | inl z ↦
        inl ((==_iff k.remaining 0).0 z, leaves k k.done k.cancelled refl refl (v.signalled ∙ z))
    | inr more ↦ inr (some_worker_moves h b k v (ground (arith, more)))
  ]

  -- A batch with a task and workers, on a clock that stays in the range of the histograms, never stands still: after
  -- any moves all the tasks are finished, and the main thread has left its `recv` or leaves it next, or
  -- there is a worker whose next move, a task taken or finished, leaves one move less to be made.
  pub bench_kernel_goes_on :
      (clock : List Instant) (workers : ℕ) (moves : List Move)
      → 0 < length clock
      → length clock ≤ u64_max
      → 0 < workers
      → All IsTimely moves
      → (k : Kernel tasks hist) × (bench_kernel tasks hist clock workers moves ≡ some k) × GoesOn k
  bench_kernel_goes_on clock workers moves some_task few some_worker timely =
      let r =
        bench_kernel-Balanced tasks hist clock workers moves some_task few some_worker timely in
      (r.after, r.returns, goes_on (length clock / 2) ((length clock + 1) / 2) r.after r.balanced)
