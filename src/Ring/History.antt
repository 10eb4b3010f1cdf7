-- ===== src/Ring/History.antt =====
-- Every item that a ring was given leaves it in order, popped or dropped, or is still there.
use real_time_system_project.Common.{
  ℕ, ◌+◌, ◌%◌, ◌^◌, ◌<◌, ◌≡◌, refl, sym, ap, ◌∙◌, List, [], ◌∷◌, ◌++◌, arith, append_assoc,
  append-nil,
}
use real_time_system_project.Ring.{
  DropOldestRing, PushOutcome, ok, dropped_oldest, Action, pushes, pops, push, try_pop, act,
  act_all,
}
use real_time_system_project.Ring.Bounds.{IsBounded, act-IsBounded}

-- How an item left the buffer.
pub data Departure {ℓ} (A : Type ℓ) : Type ℓ where
  dropped : A → Departure A
  popped : A → Departure A

module _ {ℓ} {A : Type ℓ} where
  abbrev item : Departure A → A
  item (dropped x) = x
  item (popped x) = x

  abbrev pub items : List (Departure A) → List A
  items [] = []
  items (d ∷ ds) = item d ∷ items ds

  abbrev pub drops : List (Departure A) → ℕ
  drops [] = 0
  drops (dropped x ∷ ds) = drops ds + 1
  drops (popped x ∷ ds) = drops ds

  -- what the actions bring in
  abbrev pub pushed : List (Action A) → List A
  pushed [] = []
  pushed (pushes x ∷ acts) = x ∷ pushed acts
  pushed (pops ∷ acts) = pushed acts

  abbrev oldest : (A → Departure A) → List A → List (Departure A)
  oldest how [] = []
  oldest how (x ∷ q) = how x ∷ []

  abbrev on_push : PushOutcome → List A → List (Departure A)
  on_push ok q = []
  on_push dropped_oldest q = oldest dropped q

  -- the items that leave at one action, read off the outcome that the ring returns
  abbrev pub leaves : DropOldestRing A → Action A → List (Departure A)
  leaves r (pushes x) = on_push (push r x).0 r.queue
  leaves r pops = oldest popped r.queue

  abbrev pub departures : DropOldestRing A → List (Action A) → List (Departure A)
  departures r [] = []
  departures r (a ∷ acts) = leaves r a ++ departures (act r a) acts

  items-append : (xs ys : List (Departure A)) → items (xs ++ ys) ≡ items xs ++ items ys
  items-append [] ys = refl
  items-append (x ∷ xs) ys = rw (items-append xs ys)

  drops-append : (xs ys : List (Departure A)) → drops (xs ++ ys) ≡ drops xs + drops ys
  drops-append [] ys = omega arith
  drops-append (dropped x ∷ xs) ys = omega (arith, drops-append xs ys)
  drops-append (popped x ∷ xs) ys = omega (arith, drops-append xs ys)

  act_fifo :
      (c n : ℕ) (q : List A) (a : Action A)
      → let r : DropOldestRing A = record { queue = q; capacity = c; overflow = n } in
        items (leaves r a) ++ (act r a).queue ≡ q ++ pushed (a ∷ [])
  unfolding act push try_pop
  act_fifo c n [] (pushes x) = ground arith
  act_fifo c n (y ∷ q) (pushes x) = ground arith
  act_fifo c n [] pops = refl
  act_fifo c n (y ∷ q) pops = rw append-nil

  pushed-cons :
      (a : Action A) (acts : List (Action A)) → pushed (a ∷ acts) ≡ pushed (a ∷ []) ++ pushed acts
  pushed-cons (pushes x) acts = refl
  pushed-cons pops acts = refl

  -- Under any interleaving of pushes and pops, of any capacity, the items that have left the ring, popped
  -- or dropped, followed by those that it holds are those that it held at first followed by those
  -- that were pushed: none is lost, repeated or overtaken.
  pub departures_fifo :
      (r : DropOldestRing A) (acts : List (Action A))
      → items (departures r acts) ++ (act_all r acts).queue ≡ r.queue ++ pushed acts
  unfolding act_all
  departures_fifo r [] = rw append-nil
  departures_fifo r (a ∷ acts) =
      ap (λ l. l ++ (act_all (act r a) acts).queue)
        (items-append (leaves r a) (departures (act r a) acts))
      ∙ append_assoc (items (leaves r a)) (items (departures (act r a) acts)) _
      ∙ ap (λ l. items (leaves r a) ++ l) (departures_fifo (act r a) acts)
      ∙ sym (append_assoc (items (leaves r a)) (act r a).queue (pushed acts))
      ∙ ap (λ l. l ++ pushed acts) (act_fifo r.capacity r.overflow r.queue a)
      ∙ append_assoc r.queue (pushed (a ∷ [])) (pushed acts)
      ∙ ap (λ l. r.queue ++ l) (sym (pushed-cons a acts))

  act_counts :
      (c n : ℕ) (q : List A) (a : Action A)
      → let r : DropOldestRing A = record { queue = q; capacity = c; overflow = n } in
        0 < c → (act r a).overflow % 2 ^ 64 ≡ (n + drops (leaves r a)) % 2 ^ 64
  unfolding act push try_pop
  act_counts c n [] (pushes x) h = ground arith
  act_counts c n (y ∷ q) (pushes x) h = ground arith
  act_counts c n [] pops h = ground arith
  act_counts c n (y ∷ q) pops h = ground arith

  -- In a ring whose capacity is not zero the overflow counter grows by exactly the number of items that
  -- were dropped, modulo its width.
  pub overflow-act_all :
      (r : DropOldestRing A) (acts : List (Action A))
      → IsBounded r
      → (act_all r acts).overflow % 2 ^ 64 ≡ (r.overflow + drops (departures r acts)) % 2 ^ 64
  unfolding act_all
  overflow-act_all r [] v = omega arith
  overflow-act_all r (a ∷ acts) v = omega (
    arith,
    overflow-act_all (act r a) acts (act-IsBounded a v),
    act_counts r.capacity r.overflow r.queue a v.room,
    drops-append (leaves r a) (departures (act r a) acts),
  )
