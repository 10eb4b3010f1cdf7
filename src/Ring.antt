-- ===== src/Ring.antt =====
-- crates/rts-core/src/channel/ring.rs: the drop-oldest ring buffer. The mutex makes each method one
-- step on the record below. `Notify` and `Condvar` only wake sleeping consumers: a consumer that
-- sleeps is a schedule of wake-ups, with what the other threads did before each.
pub mod Bounds
pub mod Window
pub mod History
pub mod Blocking
mod Tests
use real_time_system_project.Common.{
  ℕ, ◌+◌, Bool, List, [], ◌∷◌, ◌++◌, Option, none, some, length, drop, ◌==◌, if◌then◌else◌,
  wrapping_suc,
}

pub data PushOutcome : Type 0 where
  ok dropped_oldest : PushOutcome

-- `overflow` is an `AtomicU64`.
pub record DropOldestRing {ℓ} (A : Type ℓ) : Type ℓ where
  pub queue : List A
  pub capacity : ℕ
  pub overflow : ℕ

module _ {ℓ} {A : Type ℓ} where
  unfoldable pub new : ℕ → DropOldestRing A
  new capacity = record { queue = []; capacity = capacity; overflow = 0 }

  -- `drop 1` is `VecDeque::pop_front`, whose result the source throws away here.
  unfoldable pub push : DropOldestRing A → A → PushOutcome × DropOldestRing A
  push r item =
      if length r.queue == r.capacity
      then (
        dropped_oldest,
        record r { queue = drop 1 r.queue ++ (item ∷ []); overflow = wrapping_suc r.overflow },
      )
      else (ok, record r { queue = r.queue ++ (item ∷ []) })

  take_front : DropOldestRing A → List A → Option (A × DropOldestRing A)
  take_front r [] = none
  take_front r (x ∷ rest) = some (x, record r { queue = rest })

  -- One round of a consumer's loop: `none` where it goes to sleep.
  unfoldable pub try_pop : DropOldestRing A → Option (A × DropOldestRing A)
  unfolding take_front
  try_pop r = take_front r r.queue

  pub overflow_count : DropOldestRing A → ℕ
  overflow_count r = r.overflow

  unfoldable pub len : DropOldestRing A → ℕ
  len r = length r.queue

  unfoldable pub is_empty : DropOldestRing A → Bool
  is_empty r = length r.queue == 0

-- What another thread does to the ring while a consumer sleeps.
pub data Action {ℓ} (A : Type ℓ) : Type ℓ where
  pushes : A → Action A
  pops : Action A

module _ {ℓ} {A : Type ℓ} where
  after_pop : DropOldestRing A → Option (A × DropOldestRing A) → DropOldestRing A
  after_pop r none = r
  after_pop r (some (x, r')) = r'

  unfoldable pub act : DropOldestRing A → Action A → DropOldestRing A
  unfolding push try_pop after_pop
  act r (pushes x) = (push r x).1
  act r pops = after_pop r (try_pop r)

  unfoldable pub act_all : DropOldestRing A → List (Action A) → DropOldestRing A
  act_all r [] = r
  act_all r (a ∷ as') = act_all (act r a) as'

  -- `pop_blocking`, and `pop_async`, whose loop is the same but for the primitive it sleeps on.
  -- Each element of the schedule is one wait; `none` is a consumer that still sleeps at its end.
  unfoldable pub pop_blocking :
      DropOldestRing A → List (List (Action A)) → Option (A × DropOldestRing A)
  unfolding try_pop
  pop_blocking r [] = try_pop r
  pop_blocking r (wait ∷ waits) =
      let later = pop_blocking (act_all r wait) waits in
      elim (try_pop r) [ some found ↦ some found | none ↦ later ]

  -- A producer that pushes one item after the other.
  unfoldable pub push_all : DropOldestRing A → List A → DropOldestRing A
  push_all r [] = r
  push_all r (x ∷ xs) = push_all (push r x).1 xs
