-- ===== src/Threaded/Heap.antt =====
-- crates/rts-threaded/src/scheduler.rs: the scheduling key, and what the queue uses of
-- `BinaryHeap<Reverse<PrioritisedTask>>`. The order of the heap's vector is not specified, so the heap
-- is an interface with the documented laws.
pub mod ListHeap
use mathlib.Core.List.{Perm, Mem}
use real_time_system_project.Common.{
  ℕ, ◌≡◌, ◌≤◌, ◌<◌, ◌⊎◌, Bool, true, false, compare, Ordering, List, [], ◌∷◌, Option, none, some,
  arith,
}
use real_time_system_project.Time.{Instant}
use real_time_system_project.Priority.{Priority, human, bot, ordinal, cmp}
use real_time_system_project.Event.{OwnedEvent}

pub record PrioritisedTask : Type 0 where
  pub priority : Priority
  pub enqueued_at : Instant
  pub event : OwnedEvent

-- `Ordering::then_with`
abbrev pub then_with : Ordering → Ordering → Ordering
then_with Ordering.eq o = o
then_with o _ = o

-- `Ord::cmp` of the tasks.
unfoldable pub task_cmp : PrioritisedTask → PrioritisedTask → Ordering
unfolding cmp
task_cmp a b = then_with (cmp a.priority b.priority) (compare a.enqueued_at b.enqueued_at)

abbrev pub not_greater : Ordering → Bool
not_greater Ordering.gt = false
not_greater _ = true

-- `task_cmp` does not put `b` before `a`.
abbrev pub Before : PrioritisedTask → PrioritisedTask → Type 0
Before a b = not_greater (task_cmp a b) ≡ true

pub record BinaryHeap : Type 1 where
  pub Heap : Type 0
  pub empty : Heap
  pub into_vec : Heap → List PrioritisedTask
  pub from_iter : List PrioritisedTask → Heap
  pub insert : PrioritisedTask → Heap → Heap
  pub pop_heap : Heap → Option (PrioritisedTask × Heap)
  pub into_vec-empty : into_vec empty ≡ []
  pub from_iter-perm : (xs : List PrioritisedTask) → Perm (into_vec (from_iter xs)) xs
  pub insert-perm : (x : PrioritisedTask) (h : Heap) → Perm (into_vec (insert x h)) (x ∷ into_vec h)
  pub pop_heap-none : (h : Heap) → pop_heap h ≡ none → into_vec h ≡ []
  pub pop_heap-perm :
      (h : Heap) {x : PrioritisedTask} {h' : Heap}
      → pop_heap h ≡ some (x, h')
      → Perm (into_vec h) (x ∷ into_vec h')
  pub pop_heap-least :
      (h : Heap) {x : PrioritisedTask} {h' : Heap}
      → pop_heap h ≡ some (x, h')
      → (y : PrioritisedTask) → Mem y (into_vec h')
      → Before x y

-- A task of a smaller class, or of the same class and no younger.
abbrev pub Earlier : PrioritisedTask → PrioritisedTask → Type 0
Earlier a b =
    (ordinal a.priority < ordinal b.priority)
    ⊎ ((a.priority ≡ b.priority) × (a.enqueued_at ≤ b.enqueued_at))

pub Before-Earlier : (a b : PrioritisedTask) → Before a b → Earlier a b
unfolding task_cmp
Before-Earlier a b h = ground arith

pub Before-total : (a b : PrioritisedTask) → Before a b ⊎ Before b a
unfolding task_cmp
Before-total a b = ground arith

pub Before-trans : (a b c : PrioritisedTask) → Before a b → Before b c → Before a c
unfolding task_cmp
Before-trans a b c p q = ground arith
