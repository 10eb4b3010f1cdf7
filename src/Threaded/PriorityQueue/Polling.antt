-- ===== src/Threaded/PriorityQueue/Polling.antt =====
-- What a blocked worker returns with.
use mathlib.Core.List.{Perm, Mem}
use real_time_system_project.Common.{
  ◌≡◌, inl, inr, refl, ap, subst, Bool, true, false, List, [], ◌∷◌, ◌++◌, none, some, arith, All,
  length, length-perm, Option-cases,
}
use real_time_system_project.Event.{Task}
use real_time_system_project.Threaded.Heap.{BinaryHeap, PrioritisedTask, Before}
use real_time_system_project.Threaded.PriorityQueue.{
  PriorityQueue, Popped, prioritised, to_task, pop, pop_blocking,
}
use real_time_system_project.Threaded.PriorityQueue.Eviction.{tasks}

module _ (std : BinaryHeap) where
  open std use {pop_heap, pop_heap-none, pop_heap-perm, pop_heap-least}

  -- A round in which the worker reads no cancellation and finds nothing.
  abbrev pub Idle : Bool × PriorityQueue std → Type 0
  Idle (cancel, q) = (cancel ≡ false) × (tasks std q ≡ [])

  -- The task `t` is taken from the queue of a round, all of the rounds before which were idle: it is one of
  -- the tasks of the queue, none of the others comes before it, and they stay.
  pub record Serves (rounds : List (Bool × PriorityQueue std)) (t : Task) (q' : PriorityQueue std)
      : Type 0 where
    pub before : List (Bool × PriorityQueue std)
    pub q : PriorityQueue std
    pub later : List (Bool × PriorityQueue std)
    pub rounds_eq : rounds ≡ before ++ ((false, q) ∷ later)
    pub idle : All Idle before
    pub taken : Perm (tasks std q) (prioritised t ∷ tasks std q')
    pub least : (y : PrioritisedTask) → Mem y (tasks std q') → Before (prioritised t) y

  pub pop-none : (q : PriorityQueue std) → pop_heap q.inner ≡ none → pop std q ≡ none
  unfolding pop
  pop-none q e = rw (e, pop)

  pub pop-some :
      (q : PriorityQueue std) (p : PrioritisedTask × std.Heap)
      → pop_heap q.inner ≡ some p
      → pop std q ≡ some (to_task p.0, record q { inner = p.1 })
  unfolding pop
  pop-some q p e = rw (e, pop)

  pop_nil : (q : PriorityQueue std) → tasks std q ≡ [] → pop std q ≡ none
  pop_nil q e = elim (Option-cases (pop_heap q.inner)) [
    | inl none_left ↦ pop-none q none_left
    | inr (p, found) ↦
        absurd (omega (arith, ap length e, length-perm (pop_heap-perm q.inner found)))
  ]

  Serves-now :
      (q : PriorityQueue std) (rounds : List (Bool × PriorityQueue std))
      (p : PrioritisedTask × std.Heap)
      → pop_heap q.inner ≡ some p
      → Serves ((false, q) ∷ rounds) (to_task p.0) (record q { inner = p.1 })
  Serves-now q rounds p e = record {
    before = [];
    q = q;
    later = rounds;
    rounds_eq = refl;
    idle = tt;
    taken = pop_heap-perm q.inner e;
    least = pop_heap-least q.inner e;
  }

  Serves-later :
      (q : PriorityQueue std) {rounds : List (Bool × PriorityQueue std)} {t : Task}
      {q' : PriorityQueue std}
      → tasks std q ≡ []
      → Serves rounds t q'
      → Serves ((false, q) ∷ rounds) t q'
  Serves-later q e s = record {
    before = (false, q) ∷ s.before;
    q = s.q;
    later = s.later;
    rounds_eq = ap (λ r. (false, q) ∷ r) s.rounds_eq;
    idle = ((refl, e), s.idle);
    taken = s.taken;
    least = s.least;
  }

  -- A worker that returns with a task has read no cancellation, and has taken the task from the first
  -- queue that it found with tasks: one that no other task of that queue comes before.
  pub pop_blocking-Serves :
      (rounds : List (Bool × PriorityQueue std)) {t : Task} {q' : PriorityQueue std}
      → pop_blocking std rounds ≡ Popped.task t q'
      → Serves rounds t q'
  unfolding pop_blocking
  pop_blocking-Serves [] h = cc
  pop_blocking-Serves ((true, q) ∷ rounds) h = cc
  pop_blocking-Serves ((false, q) ∷ rounds) {t} {q'} h = elim (Option-cases (pop_heap q.inner)) [
    | inl e ↦
        Serves-later q (pop_heap-none q.inner e)
          (pop_blocking-Serves rounds (ground (arith, pop-none q e)))
    | inr (p, e) ↦
        subst (λ (o : Task × PriorityQueue std). Serves ((false, q) ∷ rounds) o.0 o.1)
          (ground (arith, pop-some q p e)) (Serves-now q rounds p e)
  ]

  -- A worker returns without a task as soon as it reads the cancellation, if all the rounds before were
  -- idle, whatever the queue then holds.
  pub pop_blocking_cancelled :
      (before later : List (Bool × PriorityQueue std)) (q : PriorityQueue std)
      → All Idle before
      → pop_blocking std (before ++ ((true, q) ∷ later)) ≡ Popped.cancelled
  unfolding pop_blocking
  pop_blocking_cancelled [] later q h = refl
  pop_blocking_cancelled ((cancel, p) ∷ before) later q h =
      rw (h.0.0, pop_nil p h.0.1) (pop_blocking_cancelled before later q h.1)
