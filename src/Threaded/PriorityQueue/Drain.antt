-- ===== src/Threaded/PriorityQueue/Drain.antt =====
-- The order in which the tasks of a queue are served.
use mathlib.Core.List.{Perm, Pairwise, Pairwise-cons}
use mathlib.Core.List.Perm
use real_time_system_project.Common.{
  ℕ, zero, suc, ◌≡◌, inl, inr, refl, ap, List, [], ◌∷◌, map, none, some, arith, length, length-perm,
  Option-cases,
}
use real_time_system_project.Event.{Task}
use real_time_system_project.Threaded.Heap.{BinaryHeap, PrioritisedTask, Earlier, Before-Earlier}
use real_time_system_project.Threaded.PriorityQueue.{PriorityQueue, prioritised, pop}
use real_time_system_project.Threaded.PriorityQueue.Eviction.{tasks}
use real_time_system_project.Threaded.PriorityQueue.Polling.{pop-some}

length-nil : {A : Type 0} (xs : List A) → length xs ≡ 0 → xs ≡ []
length-nil [] e = refl
length-nil (x ∷ xs) e = absurd (omega arith)

module _ (std : BinaryHeap) where
  open std use {pop_heap, pop_heap-none, pop_heap-perm, pop_heap-least}

  -- workers that pop `n` times while nothing is pushed
  unfoldable pub drain : ℕ → PriorityQueue std → List Task
  drain zero q = []
  drain (suc n) q = elim (pop std q) [ none ↦ [] | some p ↦ p.0 ∷ drain n p.1 ]

  abbrev pub served : ℕ → PriorityQueue std → List PrioritisedTask
  served n q = map prioritised (drain n q)

  record Served (n : ℕ) (q : PriorityQueue std) : Type 0 where
    all : Perm (tasks std q) (served n q)
    sorted : Pairwise Earlier (served n q)

  one_fewer :
      (n : ℕ) (q : PriorityQueue std) (p : PrioritisedTask × std.Heap)
      → pop_heap q.inner ≡ some p
      → length (tasks std q) ≡ suc n
      → length (std.into_vec p.1) ≡ n
  one_fewer n q p found e = omega (arith, length-perm (pop_heap-perm q.inner found))

  serve :
      (n : ℕ) (q : PriorityQueue std) (p : PrioritisedTask × std.Heap)
      → pop_heap q.inner ≡ some p
      → Served n (record q { inner = p.1 })
      → let out = p.0 ∷ served n (record q { inner = p.1 }) in
        Perm (tasks std q) out × Pairwise Earlier out
  serve n q p found s = (
    Perm.trans (pop_heap-perm q.inner found) (Perm.cons p.0 s.all),
    Pairwise-cons.1 (
      λ y m. Before-Earlier p.0 y (pop_heap-least q.inner found y ((Perm.mem_iff s.all).1 m)),
      s.sorted,
    ),
  )

  drain-Served : (n : ℕ) (q : PriorityQueue std) → length (tasks std q) ≡ n → Served n q
  unfolding drain
  drain-Served zero q e = record {
    all = rw (length-nil (tasks std q) e) Perm.nil;
    sorted = Pairwise.nil;
  }
  drain-Served (suc n) q e = elim (Option-cases (pop_heap q.inner)) [
    | inl none_left ↦ absurd (omega (arith, ap length (pop_heap-none q.inner none_left)))
    | inr (p, found) ↦
        let out =
          serve n q p found (drain-Served n (record q { inner = p.1 }) (one_fewer n q p found e)) in
        record {
          all = rw (drain, pop-some std q p found) out.0;
          sorted = rw (drain, pop-some std q p found) out.1;
        }
  ]

  -- Workers that empty a queue to which nothing is pushed serve each of its tasks once, those of humans
  -- before those of bots, and those of one class in the order of their times.
  pub drain_sorted :
      (q : PriorityQueue std)
      → let out = served (length (tasks std q)) q in Perm (tasks std q) out × Pairwise Earlier out
  drain_sorted q = let s = drain-Served (length (tasks std q)) q refl in (s.all, s.sorted)
