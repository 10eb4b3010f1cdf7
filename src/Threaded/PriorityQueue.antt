-- ===== src/Threaded/PriorityQueue.antt =====
-- crates/rts-threaded/src/scheduler.rs: the bounded priority queue. Its mutex makes each method one
-- step; the condition variable only wakes sleeping workers.
pub mod Eviction
pub mod Bounds
pub mod Drain
pub mod Polling
mod Tests
use real_time_system_project.Common.{
  ℕ, ◌+◌, Bool, true, false, compare, List, [], ◌∷◌, Option, none, some, if◌then◌else◌, leb, ◌==◌,
  length, wrapping_suc, swap_remove, Ordering,
}
use real_time_system_project.Ring.{PushOutcome, ok, dropped_oldest}
use real_time_system_project.Event.{Task}
use real_time_system_project.Priority.{ordinal}
use real_time_system_project.Threaded.Heap.{BinaryHeap, PrioritisedTask, then_with, not_greater}

-- The comparison of `max_by` in `push`: a higher class is worse, and in one class an older task.
unfoldable pub badness : PrioritisedTask → PrioritisedTask → Ordering
badness a b =
    then_with (compare (ordinal a.priority) (ordinal b.priority))
      (compare b.enqueued_at a.enqueued_at)

-- `enumerate().max_by(…)`, which keeps the last of equal elements: `i` is the index of the head.
unfoldable pub worst_from : ℕ × PrioritisedTask → ℕ → List PrioritisedTask → ℕ × PrioritisedTask
worst_from best i [] = best
worst_from best i (y ∷ ys) =
    worst_from (if not_greater (badness best.1 y) then (i, y) else best) (i + 1) ys

unfoldable pub worst : List PrioritisedTask → Option (ℕ × PrioritisedTask)
unfolding worst_from
worst [] = none
worst (x ∷ xs) = some (worst_from (0, x) 1 xs)

abbrev pub prioritised : Task → PrioritisedTask
prioritised t = record { priority = t.priority; enqueued_at = t.enqueued_at; event = t.event }

abbrev pub to_task : PrioritisedTask → Task
to_task p = record { event = p.event; priority = p.priority; enqueued_at = p.enqueued_at }

module _ (std : BinaryHeap) where
  open std use {Heap, empty, into_vec, from_iter, insert, pop_heap}

  pub record PriorityQueue : Type 0 where
    pub inner : Heap
    pub capacity : ℕ
    pub overflow : ℕ

  unfoldable pub new : ℕ → PriorityQueue
  new capacity = record { inner = empty; capacity = capacity; overflow = 0 }

  unfoldable pub len : PriorityQueue → ℕ
  len q = length (into_vec q.inner)

  unfoldable pub is_empty : PriorityQueue → Bool
  unfolding len
  is_empty q = len q == 0

  pub overflow_count : PriorityQueue → ℕ
  overflow_count q = q.overflow

  -- The branch of a full queue: `none` is the panic of `expect` on a queue without items.
  unfoldable pub evict : PriorityQueue → Option PriorityQueue
  unfolding worst
  evict q =
      let items = into_vec q.inner in
      elim (worst items) [
        | none ↦ none
        | some w ↦ some (record q {
          inner = from_iter (swap_remove items w.0);
          overflow = wrapping_suc q.overflow;
        })
      ]

  unfoldable pub push : PriorityQueue → Task → Option (PushOutcome × PriorityQueue)
  unfolding len
  push q task =
      if leb q.capacity (len q)
      then (elim (evict q) [
        | none ↦ none
        | some q' ↦ some (dropped_oldest, record q' { inner = insert (prioritised task) q'.inner })
      ])
      else some (ok, record q { inner = insert (prioritised task) q.inner })

  unfoldable pub pop : PriorityQueue → Option (Task × PriorityQueue)
  pop q = elim (pop_heap q.inner) [
    | none ↦ none
    | some p ↦ some (to_task p.0, record q { inner = p.1 })
  ]

  -- How a call of `pop_blocking` ends; `waiting` is a worker that still waits when the rounds end.
  pub data Popped : Type 0 where
    cancelled : Popped
    task : Task → PriorityQueue → Popped
    waiting : Popped

  popped : Option (Task × PriorityQueue) → Popped → Popped
  popped none later = later
  popped (some (t, q)) later = task t q

  -- Each round of the loop reads the flag and finds the queue as the other threads left it while this
  -- one did not hold the lock.
  unfoldable pub pop_blocking : List (Bool × PriorityQueue) → Popped
  unfolding pop popped
  pop_blocking [] = waiting
  pop_blocking ((cancel, q) ∷ rounds) =
      let later = popped (pop q) (pop_blocking rounds) in if cancel then cancelled else later
