-- ===== src/TailLatency/Blocking.antt =====
-- The priority queue of the threaded kernel, with room for one task more than the batch.
use real_time_system_project.Common.{
  ℕ, ◌+◌, ◌<◌, ◌≡◌, refl, ap, sym, ◌∙◌, Option, none, some, total, total-one, total-perm, arith,
  Option-cases, inl, inr,
}
use mathlib.Core.Option.{some_inj}
use real_time_system_project.Priority.{Priority}
use real_time_system_project.Event.{Task}
use real_time_system_project.Ring.{PushOutcome}
use real_time_system_project.Threaded.Heap.{BinaryHeap, PrioritisedTask}
use real_time_system_project.Threaded.PriorityQueue.{PriorityQueue, to_task, prioritised}
use real_time_system_project.Threaded.PriorityQueue
use real_time_system_project.Threaded.PriorityQueue.Eviction.{push_room, tasks}
use real_time_system_project.Threaded.PriorityQueue.Polling.{pop-none, pop-some}
use real_time_system_project.TailLatency.{TaskQueue}

module _ (std : BinaryHeap) where
  open std use {Heap, pop_heap, pop_heap-none, pop_heap-perm, into_vec-empty}

  abbrev pub pushed : Option (PushOutcome × PriorityQueue std) → Option (PriorityQueue std)
  pushed none = none
  pushed (some (outcome, q)) = some q

  unfoldable pub class_count : (Priority → ℕ) → PriorityQueue std → ℕ
  class_count f q = total (λ (p : PrioritisedTask). f p.priority) (tasks std q)

  pub new_empty :
      (f : Priority → ℕ) (capacity : ℕ) → class_count f (PriorityQueue.new std capacity) ≡ 0
  unfolding class_count PriorityQueue.new
  new_empty f capacity = ap (total (λ (p : PrioritisedTask). f p.priority)) into_vec-empty

  pub new_sized : (capacity : ℕ) → (PriorityQueue.new std capacity).capacity ≡ capacity
  unfolding PriorityQueue.new
  new_sized capacity = refl

  pub takes :
      (capacity : ℕ) (q : PriorityQueue std) (t : Task)
      → q.capacity ≡ capacity
      → class_count (λ p. 1) q < capacity
      → (q' : PriorityQueue std) × (pushed (PriorityQueue.push std q t) ≡ some q')
        × (q'.capacity ≡ capacity)
        × ((f : Priority → ℕ) → class_count f q' ≡ f t.priority + class_count f q)
  unfolding class_count
  takes capacity q t sized room =
      let (q', e, p, o, c) =
        push_room std q t (omega (arith, room, sized, total-one (tasks std q))) in
      (q', ap pushed e, c ∙ sized, λ f. total-perm (λ (p : PrioritisedTask). f p.priority) p)

  pub none_popped :
      (q : PriorityQueue std) (f : Priority → ℕ)
      → PriorityQueue.pop std q ≡ none
      → class_count f q ≡ 0
  unfolding class_count
  none_popped q f h = elim (Option-cases (pop_heap q.inner)) [
    | inl none_left ↦
        ap (total (λ (p : PrioritisedTask). f p.priority)) (pop_heap-none q.inner none_left)
    | inr (p, e) ↦ cc (h, pop-some std q p e)
  ]

  pub some_popped :
      (q : PriorityQueue std) (f : Priority → ℕ) {t : Task} {q' : PriorityQueue std}
      → PriorityQueue.pop std q ≡ some (t, q')
      → class_count f q ≡ f t.priority + class_count f q'
  unfolding class_count
  some_popped q f h = elim (Option-cases (pop_heap q.inner)) [
    | inl none_left ↦ cc (h, pop-none std q none_left)
    | inr (p, e) ↦
        total-perm (λ (p : PrioritisedTask). f p.priority) (pop_heap-perm q.inner e)
        ∙ ap (λ (p : Task × PriorityQueue std). f p.0.priority + class_count f p.1)
            (some_inj.0 (sym (pop-some std q p e) ∙ h))
  ]

  unfoldable pub blocking : TaskQueue
  blocking = record {
    Queue = PriorityQueue std;
    new = PriorityQueue.new std;
    push = λ q t. pushed (PriorityQueue.push std q t);
    pop = PriorityQueue.pop std;
    HasCapacity = λ capacity q. q.capacity ≡ capacity;
    count = class_count;
    new-HasCapacity = new_sized;
    count-new = new_empty;
    push_room = takes;
    pop-none = none_popped;
    pop-some = some_popped;
  }
