-- ===== src/Shootout/Channels.antt =====
-- The channel and the ring that the threads fill: each is large enough for all that they send.
use real_time_system_project.Common.{
  ℕ, zero, suc, ◌+◌, ◌*◌, ◌%◌, ◌^◌, ◌<◌, ◌≡◌, refl, ap, ◌∙◌, List, [], ◌∷◌, ◌++◌, Option, none,
  some, false, lt→ltb, replicate, total, total-replicate, total-append, arith, get_elem?, set,
  length, length-append, if◌then◌else◌,
}
use real_time_system_project.Ring.{
  PushOutcome, ok, DropOldestRing, push, new, try_pop, pop_blocking, is_empty,
}
use real_time_system_project.Shootout.{
  ops_per_thread, send, sum_from, summed, bench_crossbeam_mpsc, push_item, drain, drained,
  bench_drop_oldest_ring,
}
use real_time_system_project.Shootout.Progress.{IsFair, IsSteady, join-contend}
use real_time_system_project.Shootout.Weights.{left, left-set, below, below-set, below_all}

module _ (threads : ℕ) where
  -- What is held and what is still to come fill the capacity, and the items are those that have been sent.
  abbrev Holds : List ℕ → List ℕ → Type 0
  Holds made items =
      (length items + total left made ≡ threads * ops_per_thread)
      × (total (λ n. n) items ≡ total below made)

  Holds-append :
      (made : List ℕ) (t : ℕ) {i : ℕ} (items : List ℕ)
      → get_elem? made t ≡ some i
      → i < ops_per_thread
      → Holds made items
      → Holds (set made t (suc i)) (items ++ (i ∷ []))
  Holds-append made t {i} items h below inv = (
    omega (arith, inv.0, left-set made t h below, length-append items (i ∷ [])),
    omega (arith, inv.1, below-set made t h, total-append (λ n. n) items (i ∷ [])),
  )

  has_room :
      (made : List ℕ) (t : ℕ) {i : ℕ} (items : List ℕ)
      → get_elem? made t ≡ some i
      → i < ops_per_thread
      → Holds made items
      → length items < threads * ops_per_thread
  has_room made t items h below inv = omega (arith, inv.0, left-set made t h below)

  none-Holds : Holds (replicate threads 0) []
  none-Holds = (
    omega (arith, total-replicate left threads 0),
    omega (arith, total-replicate below threads 0),
  )

  pub record Filled (items : List ℕ) : Type 0 where
    pub count : length items ≡ threads * ops_per_thread
    pub total : total (λ n. n) items ≡ threads * 499_500

  all-Filled : (items : List ℕ) → Holds (replicate threads ops_per_thread) items → Filled items
  all-Filled items inv = record {
    count = omega (arith, inv.0, total-replicate left threads ops_per_thread);
    total = inv.1 ∙ total-replicate below threads ops_per_thread ∙ ap (λ n. threads * n) below_all;
  }

  send-IsSteady : IsSteady (send (threads * ops_per_thread)) Holds
  send-IsSteady t i made items h below inv = record {
    after = items ++ (i ∷ []);
    goes =
        ap (λ b. if b then some (items ++ (i ∷ [])) else none)
          (lt→ltb (length items) (threads * ops_per_thread) (has_room made t items h below inv));
    keeps = Holds-append made t items h below inv;
  }

  sum_from_lem :
      (acc : ℕ) (xs : List ℕ) → acc < 2 ^ 64 → sum_from acc xs ≡ (acc + total (λ n. n) xs) % 2 ^ 64
  sum_from_lem acc [] h = omega (arith, h)
  sum_from_lem acc (x ∷ xs) h = omega (arith, sum_from_lem ((acc + x) % 2 ^ 64) xs (omega arith))

  -- If every thread gets its thousand turns, in whatever order they come, no send blocks, the bench ends,
  -- and its sum is 499500 for each thread, modulo the width of a `u64`.
  pub bench_crossbeam_mpsc_sums :
      (turns : List ℕ)
      → IsFair threads turns
      → bench_crossbeam_mpsc threads turns ≡ some ((threads * 499_500) % 2 ^ 64)
  unfolding bench_crossbeam_mpsc
  bench_crossbeam_mpsc_sums turns fair =
      let j =
        join-contend (send (threads * ops_per_thread)) Holds send-IsSteady threads [] turns fair
          none-Holds in
      ap summed j.joined
      ∙ ap some (
          sum_from_lem 0 j.final (omega arith)
          ∙ ap (λ n. n % 2 ^ 64) (omega (arith, (all-Filled j.final j.keeps).total)))

  push_free :
      (r : DropOldestRing ℕ) (x : ℕ)
      → length r.queue < r.capacity
      → push r x ≡ (ok, record r { queue = r.queue ++ (x ∷ []) })
  unfolding push
  push_free r x h = ground arith

  -- Nothing has been dropped.
  record RingHolds (made : List ℕ) (ring : DropOldestRing ℕ) : Type 0 where
    items : Holds made ring.queue
    capacity : ring.capacity ≡ threads * ops_per_thread
    overflow : ring.overflow ≡ 0

  push_item-IsSteady : IsSteady push_item RingHolds
  push_item-IsSteady t i made ring h below inv =
      let added = record ring { queue = ring.queue ++ (i ∷ []) } in
      record {
        after = added;
        goes =
            ap (λ (p : PushOutcome × DropOldestRing ℕ). some p.1)
              (push_free ring i
                (omega (arith, has_room made t ring.queue h below inv.items, inv.capacity)));
        keeps = record {
          items = Holds-append made t ring.queue h below inv.items;
          capacity = inv.capacity;
          overflow = inv.overflow;
        };
      }

  drain_none :
      (capacity overflow fuel : ℕ)
      → drain (suc fuel) (record { queue = []; capacity = capacity; overflow = overflow })
        ≡ some ([], record { queue = []; capacity = capacity; overflow = overflow })
  unfolding drain is_empty
  drain_none capacity overflow fuel = refl

  not_empty :
      (x : ℕ) (items : List ℕ) (capacity overflow : ℕ)
      → is_empty (record { queue = x ∷ items; capacity = capacity; overflow = overflow }) ≡ false
  unfolding is_empty
  not_empty x items capacity overflow = ground arith

  drain_all :
      (items : List ℕ) (capacity overflow fuel : ℕ)
      → length items < fuel
      → drain fuel (record { queue = items; capacity = capacity; overflow = overflow })
        ≡ some (items, record { queue = []; capacity = capacity; overflow = overflow })
  unfolding drain pop_blocking try_pop
  drain_all items capacity overflow zero h = absurd (omega (arith, h))
  drain_all [] capacity overflow (suc fuel) h = drain_none capacity overflow fuel
  drain_all (x ∷ items) capacity overflow (suc fuel) h = rw (
    drain,
    not_empty x items capacity overflow,
    drain_all items capacity overflow fuel (omega (arith, h)),
  )

  pub record Emptied (o : Option (List ℕ × DropOldestRing ℕ)) : Type 0 where
    pub items : List ℕ
    pub ring : DropOldestRing ℕ
    pub ends : o ≡ some (items, ring)
    pub empty : ring.queue ≡ []
    pub overflow : ring.overflow ≡ 0
    pub filled : Filled items

  -- If every thread gets its thousand turns, in whatever order they come, the bench ends. No pop blocks,
  -- the ring has dropped nothing and is empty, and a thousand items for each thread have been popped,
  -- whose sum is 499500 for each thread. The fuel of the drain is larger than the number of items.
  pub bench_drop_oldest_ring_drains :
      (turns : List ℕ) (fuel : ℕ)
      → IsFair threads turns
      → threads * ops_per_thread < fuel
      → Emptied (bench_drop_oldest_ring threads turns fuel)
  unfolding bench_drop_oldest_ring new
  bench_drop_oldest_ring_drains turns fuel fair enough =
      let capacity = threads * ops_per_thread in
      let j =
        join-contend push_item RingHolds push_item-IsSteady threads (new capacity) turns fair
          (record { items = none-Holds; capacity = refl; overflow = refl }) in
      let filled = all-Filled j.final.queue j.keeps.items in
      record {
        items = j.final.queue;
        ring = record j.final { queue = [] };
        ends =
            ap (drained fuel) j.joined
            ∙ drain_all j.final.queue j.final.capacity j.final.overflow fuel
                (omega (arith, filled.count, enough));
        empty = refl;
        overflow = j.keeps.overflow;
        filled = filled;
      }
