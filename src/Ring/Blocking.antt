-- ===== src/Ring/Blocking.antt =====
-- A consumer that sleeps on an empty ring.
use real_time_system_project.Common.{
  ◌≡◌, ◌≢◌, ◌↔◌, refl, List, [], ◌∷◌, some, none, inl, inr, ◌⊎◌, arith,
}
use real_time_system_project.Ring.{DropOldestRing, Action, try_pop, act_all, pop_blocking}

module _ {ℓ} {A : Type ℓ} where
  -- After some of the waits, before each of which the buffer was empty, the oldest item is `x`, and
  -- `r'` is the ring without it.
  pub data Wakes (x : A) (r' : DropOldestRing A)
      : DropOldestRing A → List (List (Action A)) → Type ℓ where
    now :
        {r : DropOldestRing A} {waits : List (List (Action A))} (rest : List A)
        → r.queue ≡ x ∷ rest
        → r' ≡ record r { queue = rest }
        → Wakes x r' r waits
    later :
        {r : DropOldestRing A} {wait : List (Action A)} {waits : List (List (Action A))}
        → r.queue ≡ []
        → Wakes x r' (act_all r wait) waits
        → Wakes x r' r (wait ∷ waits)

  try_pop-nil : (r : DropOldestRing A) → r.queue ≡ [] → try_pop r ≡ none
  unfolding try_pop
  try_pop-nil r e = rw (e, try_pop)

  try_pop-cons :
      (r : DropOldestRing A) {x : A} {q : List A}
      → r.queue ≡ x ∷ q
      → try_pop r ≡ some (x, record r { queue = q })
  unfolding try_pop
  try_pop-cons r e = rw (e, try_pop)

  queue-cases :
      (r : DropOldestRing A) → (r.queue ≡ []) ⊎ ((x : A) × (q : List A) × (r.queue ≡ x ∷ q))
  queue-cases r = go r.queue
    where
      go : (q : List A) → (q ≡ []) ⊎ ((x : A) × (q' : List A) × (q ≡ x ∷ q'))
      go [] = inl refl
      go (x ∷ q) = inr (x, q, refl)

  pop_blocking-Wakes :
      (r : DropOldestRing A) (waits : List (List (Action A))) {x : A} {r' : DropOldestRing A}
      → pop_blocking r waits ≡ some (x, r')
      → Wakes x r' r waits
  unfolding pop_blocking
  pop_blocking-Wakes r [] h = elim (queue-cases r) [
    | inl e ↦ absurd (ground arith)
    | inr (x, q, e) ↦ now q (ground arith) (ground arith)
  ]
  pop_blocking-Wakes r (wait ∷ waits) h = elim (queue-cases r) [
    | inl e ↦ later e (pop_blocking-Wakes (act_all r wait) waits (ground arith))
    | inr (x, q, e) ↦ now q (ground arith) (ground arith)
  ]

  Wakes-pop_blocking :
      {x : A} {r' : DropOldestRing A} {r : DropOldestRing A} {waits : List (List (Action A))}
      → Wakes x r' r waits
      → pop_blocking r waits ≡ some (x, r')
  unfolding pop_blocking
  Wakes-pop_blocking {r = r} {waits = []} (now rest e e') = rw (try_pop-cons r e, e')
  Wakes-pop_blocking {r = r} {waits = wait ∷ waits} (now rest e e') =
      rw (pop_blocking, try_pop-cons r e, e')
  Wakes-pop_blocking {r = r} (later e w) = rw (pop_blocking, try_pop-nil r e) (Wakes-pop_blocking w)

  -- A consumer returns `x` and leaves the ring `r'` exactly when, after some number of waits of the
  -- schedule with an empty buffer before each, `x` is the oldest item and `r'` the ring without it.
  pub pop_blocking_iff :
      (r : DropOldestRing A) (waits : List (List (Action A))) (x : A) (r' : DropOldestRing A)
      → (pop_blocking r waits ≡ some (x, r')) ↔ Wakes x r' r waits
  pop_blocking_iff r waits x r' = (pop_blocking-Wakes r waits, Wakes-pop_blocking)

  -- the ring after all the waits, if nobody takes what it finds
  abbrev pub after_waits : DropOldestRing A → List (List (Action A)) → DropOldestRing A
  after_waits r [] = r
  after_waits r (wait ∷ waits) = after_waits (act_all r wait) waits

  -- A consumer does not sleep on: if the buffer holds an item after the last wait of the schedule, it
  -- has returned an item by then.
  pub pop_blocking_returns :
      (r : DropOldestRing A) (waits : List (List (Action A)))
      → (after_waits r waits).queue ≢ []
      → pop_blocking r waits ≢ none
  unfolding pop_blocking
  pop_blocking_returns r [] h = elim (queue-cases r) [
    | inl e ↦ absurd (h e)
    | inr (x, q, e) ↦ rw (pop_blocking, try_pop-cons r e) (λ p. cc)
  ]
  pop_blocking_returns r (wait ∷ waits) h = elim (queue-cases r) [
    | inl e ↦ rw (pop_blocking, try_pop-nil r e) (pop_blocking_returns (act_all r wait) waits h)
    | inr (x, q, e) ↦ rw (pop_blocking, try_pop-cons r e) (λ p. cc)
  ]
