-- ===== src/Ring/Window.antt =====
-- What a ring holds after a run of pushes: a window on what was pushed.
use real_time_system_project.Common.{
  ℕ, suc, ◌+◌, ◌-◌, ◌%◌, ◌^◌, ◌≤◌, ◌<◌, ◌≡◌, refl, sym, ap, ◌∙◌, List, [], ◌∷◌, ◌++◌, arith, length,
  drop, length-append, length-drop, drop-append_le, drop-drop, append_assoc, append-nil, Bool-cases,
  inl, inr, true, false, ◌==◌,
}
use real_time_system_project.Ring.{DropOldestRing, new, push, push_all}
use real_time_system_project.Ring.Bounds.{IsBounded, push-IsBounded}

module _ {ℓ} {A : Type ℓ} where
  -- how many of the oldest items `n` further pushes drop
  abbrev pub excess : DropOldestRing A → ℕ → ℕ
  excess r n = length r.queue + n - r.capacity

  -- One push keeps the newest `capacity` items.
  queue-push :
      {r : DropOldestRing A} (x : A)
      → IsBounded r
      → (push r x).1.queue ≡ drop (excess r 1) (r.queue ++ (x ∷ []))
  unfolding push
  queue-push {r} x v = elim (Bool-cases (length r.queue == r.capacity)) [
    | inl full ↦
        rw (full, full_by_one r v full) (sym (drop-append_le 1 r.queue (x ∷ []) (ground arith)))
    | inr free ↦ rw (free, free_by_one r v free)
  ]
    where
      full_by_one :
          (r : DropOldestRing A)
          → IsBounded r
          → (length r.queue == r.capacity) ≡ true
          → excess r 1 ≡ 1
      full_by_one r v e = ground arith

      free_by_one :
          (r : DropOldestRing A)
          → IsBounded r
          → (length r.queue == r.capacity) ≡ false
          → excess r 1 ≡ 0
      free_by_one r v e = ground arith

  push-capacity : (r : DropOldestRing A) (x : A) → (push r x).1.capacity ≡ r.capacity
  unfolding push
  push-capacity r x = ground arith

  drop-drop-append :
      (d e k : ℕ) (q xs : List A) (x : A)
      → d ≤ length q + 1
      → d + e ≡ k
      → drop e (drop d (q ++ (x ∷ [])) ++ xs) ≡ drop k (q ++ (x ∷ xs))
  drop-drop-append d e k q xs x h eq =
      ap (drop e)
        (sym (drop-append_le d (q ++ (x ∷ [])) xs (omega (arith, length-append q (x ∷ [])))))
      ∙ drop-drop e d ((q ++ (x ∷ [])) ++ xs)
      ∙ rw (eq, append_assoc)

  excess-push :
      (r : DropOldestRing A) (x : A) (n : ℕ)
      → IsBounded r
      → excess r 1 + excess (push r x).1 n ≡ excess r (suc n)
  excess-push r x n v = omega (
    arith,
    ap length (queue-push x v),
    push-capacity r x,
    length-drop (excess r 1) (r.queue ++ (x ∷ [])),
    length-append r.queue (x ∷ []),
    v.within,
    v.room,
  )

  none_over : (r : DropOldestRing A) → IsBounded r → 0 ≡ excess r 0
  none_over r v = omega (arith, v.within)

  -- Into a ring whose capacity is not zero, pushing `xs` leaves the newest `capacity` of the items
  -- that it held and was given, in order.
  pub queue-push_all :
      (r : DropOldestRing A) (xs : List A)
      → IsBounded r
      → (push_all r xs).queue ≡ drop (excess r (length xs)) (r.queue ++ xs)
  unfolding push_all
  queue-push_all r [] v = rw append-nil (ap (λ k. drop k r.queue) (none_over r v))
  queue-push_all r (x ∷ xs) v =
      queue-push_all (push r x).1 xs (push-IsBounded x v)
      ∙ ap (λ q. drop (excess (push r x).1 (length xs)) (q ++ xs)) (queue-push x v)
      ∙ drop-drop-append (excess r 1) (excess (push r x).1 (length xs)) _ r.queue xs x
          (omega (arith, v.room)) (excess-push r x (length xs) v)

  overflow-push :
      (r : DropOldestRing A) (x : A)
      → IsBounded r
      → (push r x).1.overflow % 2 ^ 64 ≡ (r.overflow + excess r 1) % 2 ^ 64
  unfolding push
  overflow-push r x v = ground (arith, v.within, v.room)

  overflow-push_all_mod :
      (r : DropOldestRing A) (xs : List A)
      → IsBounded r
      → (push_all r xs).overflow % 2 ^ 64 ≡ (r.overflow + excess r (length xs)) % 2 ^ 64
  unfolding push_all
  overflow-push_all_mod r [] v = omega (arith, v.within)
  overflow-push_all_mod r (x ∷ xs) v = omega (
    arith,
    overflow-push_all_mod (push r x).1 xs (push-IsBounded x v),
    overflow-push r x v,
    excess-push r x (length xs) v,
  )

  -- A new ring of a capacity that is not zero counts exactly the pushes beyond its capacity, modulo
  -- the width of the counter.
  overflow-push_all :
      (capacity : ℕ) (xs : List A)
      → 0 < capacity
      → (push_all (new capacity) xs).overflow % 2 ^ 64 ≡ (length xs - capacity) % 2 ^ 64
  unfolding new
  overflow-push_all capacity xs h =
      omega
        (arith, overflow-push_all_mod (new capacity) xs (record { room = h; within = omega arith }))

  -- The capacity 0 is not guarded: once the buffer holds an item, the test for a full one fails.
  push_beyond :
      (r : DropOldestRing A) (y : A) {x : A} {q : List A}
      → r.capacity ≡ 0
      → r.queue ≡ x ∷ q
      → (push r y).1.queue ≡ x ∷ (q ++ (y ∷ []))
  unfolding push
  push_beyond r y z e = rw (z, e) (ground arith)

  push_all_beyond :
      (r : DropOldestRing A) (x : A) (q xs : List A)
      → r.capacity ≡ 0
      → r.queue ≡ x ∷ q
      → (push_all r xs).queue ≡ (x ∷ q) ++ xs
  unfolding push_all
  push_all_beyond r x q [] z e = rw (e, append-nil)
  push_all_beyond r x q (y ∷ ys) z e =
      push_all_beyond (push r y).1 x (q ++ (y ∷ [])) ys (push-capacity r y ∙ z)
        (push_beyond r y z e)
      ∙ append_assoc (x ∷ q) (y ∷ []) ys

  -- A new ring of capacity 0 keeps everything that it is given: its buffer has no bound.
  pub queue-push_all_zero : (xs : List A) → (push_all (new 0) xs).queue ≡ xs
  unfolding push_all new push
  queue-push_all_zero [] = refl
  queue-push_all_zero (x ∷ xs) = push_all_beyond _ x [] xs refl refl
