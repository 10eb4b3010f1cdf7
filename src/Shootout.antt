-- ===== src/Shootout.antt =====
-- crates/rts-bench/benches/sync_shootout.rs: threads that contend for one shared object. Each operation on
-- the object is atomic: it runs under a lock, or is one call of a channel or a map that is synchronised.
pub mod Progress
pub mod Weights
pub mod Counters
pub mod Channels
mod Tests
use real_time_system_project.Common.{
  ℕ, zero, suc, ◌+◌, ◌*◌, ◌-◌, ◌%◌, ◌^◌, Bool, true, false, ◌&&◌, List, [], ◌∷◌, ◌++◌, Option, none,
  some, if◌then◌else◌, ltb, ◌==◌, length, get_elem?, set, replicate, wrapping_suc, ◌≡◌, ◌≢◌,
}
use real_time_system_project.Ring.{DropOldestRing, push, pop_blocking, is_empty}
use real_time_system_project.Ring

abbrev pub ops_per_thread : ℕ
ops_per_thread = 1_000

abbrev pub thread_counts : List ℕ
thread_counts = 1 ∷ 2 ∷ 4 ∷ 8 ∷ 16 ∷ []

-- The shared object, and the iterations that each thread has made.
pub record Contest (S : Type 0) : Type 0 where
  pub shared : S
  pub made : List ℕ

abbrev pub all_made : List ℕ → Bool
all_made [] = true
all_made (i ∷ made) = (i == ops_per_thread) && all_made made

module _ {S : Type 0} where
  abbrev pub spawn : ℕ → S → Contest S
  spawn threads shared = record { shared = shared; made = replicate threads 0 }

  -- What the body of the loop of a thread does in an iteration; `none` where its call blocks.
  module _ (body : ℕ → ℕ → S → Option S) where
    abbrev pub iterated : Contest S → ℕ → ℕ → Option S → Contest S
    iterated c t i none = c
    iterated c t i (some shared) = record { shared = shared; made = set c.made t (suc i) }

    abbrev pub iterate : Contest S → ℕ → Option ℕ → Contest S
    iterate c t none = c
    iterate c t (some i) = if ltb i ops_per_thread then iterated c t i (body t i c.shared) else c

    -- The threads' turns, in the order in which they get them.
    unfoldable pub contend : Contest S → List ℕ → Contest S
    contend c [] = c
    contend c (t ∷ turns) = contend (iterate c t (get_elem? c.made t)) turns

  -- The joins of all the threads: `none` while one is not at its end.
  unfoldable pub join : Contest S → Option S
  join c = if all_made c.made then some c.shared else none

-- `*c.lock().unwrap() += 1` and `*c.lock() += 1`.
abbrev pub lock_and_add : ℕ → ℕ → ℕ → Option ℕ
lock_and_add t i counter = some (wrapping_suc counter)

unfoldable pub bench_std_mutex : ℕ → List ℕ → Option ℕ
bench_std_mutex threads turns = join (contend lock_and_add (spawn threads 0) turns)

unfoldable pub bench_pl_mutex : ℕ → List ℕ → Option ℕ
bench_pl_mutex threads turns = join (contend lock_and_add (spawn threads 0) turns)

abbrev pub or_default : ℕ → Option ℕ → ℕ
or_default v none = v
or_default v (some n) = n

-- `entry(k).or_insert(v)` and an assignment through the reference, under the lock of the entry's shard.
pub record DashMap : Type 1 where
  pub Map : Type 0
  pub empty : Map
  pub get : Map → ℕ → Option ℕ
  pub update_entry : Map → ℕ → ℕ → (ℕ → ℕ) → Map
  pub get-empty : (k : ℕ) → get empty k ≡ none
  pub get-update_entry :
      (m : Map) (k v : ℕ) (f : ℕ → ℕ)
      → get (update_entry m k v f) k ≡ some (f (or_default v (get m k)))
  pub get-update_other :
      (m : Map) (k j v : ℕ) (f : ℕ → ℕ) → k ≢ j → get (update_entry m k v f) j ≡ get m j

module _ (dash : DashMap) where
  open dash use {Map, empty, update_entry}

  abbrev pub add_to_entry : ℕ → ℕ → Map → Option Map
  add_to_entry t i m = some (update_entry m t 0 wrapping_suc)

  unfoldable pub bench_dashmap : ℕ → List ℕ → Option Map
  bench_dashmap threads turns = join (contend add_to_entry (spawn threads empty) turns)

-- `bounded(capacity)`: a send blocks while the channel is full.
abbrev pub send : ℕ → ℕ → ℕ → List ℕ → Option (List ℕ)
send capacity t i channel =
    if ltb (length channel) capacity then some (channel ++ (i ∷ [])) else none

-- `rx.iter().sum()`, which ends since all the senders are dropped.
abbrev pub sum_from : ℕ → List ℕ → ℕ
sum_from sum [] = sum
sum_from sum (x ∷ channel) = sum_from ((sum + x) % 2 ^ 64) channel

abbrev pub summed : Option (List ℕ) → Option ℕ
summed none = none
summed (some channel) = some (sum_from 0 channel)

unfoldable pub bench_crossbeam_mpsc : ℕ → List ℕ → Option ℕ
bench_crossbeam_mpsc threads turns =
    summed (join (contend (send (threads * ops_per_thread)) (spawn threads []) turns))

abbrev pub push_item : ℕ → ℕ → DropOldestRing ℕ → Option (DropOldestRing ℕ)
push_item t i ring = some (push ring i).1

abbrev pub with_item : ℕ → Option (List ℕ × DropOldestRing ℕ) → Option (List ℕ × DropOldestRing ℕ)
with_item x none = none
with_item x (some (items, ring)) = some (x ∷ items, ring)

-- The loop that drains the ring, with the items that it pops, on fuel: `none` where a pop blocks and
-- where the fuel runs out.
unfoldable pub drain : ℕ → DropOldestRing ℕ → Option (List ℕ × DropOldestRing ℕ)
drain zero ring = none
drain (suc fuel) ring = elim (is_empty ring) [
  | true ↦ some ([], ring)
  | false ↦ elim (pop_blocking ring []) [
    | none ↦ none
    | some popped ↦ with_item popped.0 (drain fuel popped.1)
  ]
]

abbrev pub drained : ℕ → Option (DropOldestRing ℕ) → Option (List ℕ × DropOldestRing ℕ)
drained fuel none = none
drained fuel (some ring) = drain fuel ring

unfoldable pub bench_drop_oldest_ring : ℕ → List ℕ → ℕ → Option (List ℕ × DropOldestRing ℕ)
bench_drop_oldest_ring threads turns fuel =
    drained fuel
      (join (contend push_item (spawn threads (Ring.new (threads * ops_per_thread))) turns))
