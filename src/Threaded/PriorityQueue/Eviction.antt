-- ===== src/Threaded/PriorityQueue/Eviction.antt =====
-- What a push does to the tasks of the queue, and which one it evicts.
use mathlib.Core.List.{Perm}
use mathlib.Core.List.Perm
use mathlib.Core.Option.{some-injective}
use real_time_system_project.Common.{
  ℕ, ◌+◌, ◌≡◌, ◌↔◌, ◌≢◌, ◌≤◌, ◌<◌, ◌⊎◌, inl, inr, refl, sym, ◌∙◌, true, false, List, [], ◌∷◌, ◌++◌,
  none, some, if◌then◌else◌, length, wrapping_suc, swap_remove, swap_remove-perm, arith, All,
  get_elem?, Option-cases, Bool-cases, length-append, append_assoc, append-nil, All-append, subst,
}
use real_time_system_project.Ring.{ok, dropped_oldest}
use real_time_system_project.Event.{Task}
use real_time_system_project.Priority.{ordinal}
use real_time_system_project.Threaded.Heap.{BinaryHeap, PrioritisedTask, not_greater}
use real_time_system_project.Threaded.PriorityQueue.{
  PriorityQueue, badness, worst_from, worst, prioritised, evict, push,
}

-- `a` is evicted no sooner than `w`.
abbrev pub NoWorse : PrioritisedTask → PrioritisedTask → Type 0
NoWorse w a = not_greater (badness a w) ≡ true

pub NoWorse-key :
    (w a : PrioritisedTask)
    → NoWorse w a
    → (ordinal a.priority < ordinal w.priority)
      ⊎ ((a.priority ≡ w.priority) × (w.enqueued_at ≤ a.enqueued_at))
unfolding badness
NoWorse-key w a h = ground arith

NoWorse-refl : (a : PrioritisedTask) → NoWorse a a
unfolding badness
NoWorse-refl a = ground arith

NoWorse-trans : (a b c : PrioritisedTask) → NoWorse b a → NoWorse c b → NoWorse c a
unfolding badness
NoWorse-trans a b c p q = ground arith

NoWorse-flip : (a b : PrioritisedTask) → not_greater (badness a b) ≡ false → NoWorse a b
unfolding badness
NoWorse-flip a b h = ground arith

All-imp :
    {P Q : PrioritisedTask → Type 0} (xs : List PrioritisedTask)
    → ((x : PrioritisedTask) → P x → Q x)
    → All P xs
    → All Q xs
All-imp [] f h = tt
All-imp (x ∷ xs) f h = (f x h.0, All-imp xs f h.1)

get_elem?-append :
    (seen : List PrioritisedTask) (y : PrioritisedTask) (ys : List PrioritisedTask)
    → get_elem? (seen ++ (y ∷ ys)) (length seen) ≡ some y
get_elem?-append [] y ys = refl
get_elem?-append (x ∷ seen) y ys = get_elem?-append seen y ys

-- The best so far of the loop of `max_by`: it stands in the list, and none of those seen is worse.
record Best (items seen : List PrioritisedTask) (best : ℕ × PrioritisedTask) : Type 0 where
  found : get_elem? items best.0 ≡ some best.1
  bound : All (NoWorse best.1) seen

next-Best :
    (items seen : List PrioritisedTask) (best : ℕ × PrioritisedTask) (i : ℕ) (y : PrioritisedTask)
    → Best items seen best
    → get_elem? items i ≡ some y
    → Best items (seen ++ (y ∷ [])) (if not_greater (badness best.1 y) then (i, y) else best)
next-Best items seen best i y b e = elim (Bool-cases (not_greater (badness best.1 y))) [
  | inl worse ↦ rw worse (record {
    found = e;
    bound =
        All-append (NoWorse y) seen (y ∷ [])
          (All-imp seen (λ x h. NoWorse-trans x best.1 y h worse) b.bound) (NoWorse-refl y, tt);
  })
  | inr better ↦ rw better (record {
    found = b.found;
    bound = All-append (NoWorse best.1) seen (y ∷ []) b.bound (NoWorse-flip best.1 y better, tt);
  })
]

worst_from-Best :
    (seen ys : List PrioritisedTask) {items : List PrioritisedTask} (best : ℕ × PrioritisedTask)
    (i : ℕ)
    → items ≡ seen ++ ys
    → i ≡ length seen
    → Best items seen best
    → Best items items (worst_from best i ys)
unfolding worst_from
worst_from-Best seen [] {items} best i e l b =
    subst (λ xs. Best items xs best) (sym (append-nil seen) ∙ sym e) b
worst_from-Best seen (y ∷ ys) best i e l b =
    worst_from-Best (seen ++ (y ∷ [])) ys (if not_greater (badness best.1 y) then (i, y) else best)
      (i + 1) (e ∙ sym (append_assoc seen (y ∷ []) ys))
      (omega (arith, l, length-append seen (y ∷ [])))
      (next-Best _ seen best i y b (rw (e, l) (get_elem?-append seen y ys)))

-- `worst` fails on the empty list alone, and finds a task than which none is worse.
worst_lem :
    (items : List PrioritisedTask) {w : ℕ × PrioritisedTask}
    → worst items ≡ some w
    → Best items items w
unfolding worst
worst_lem [] e = cc
worst_lem (x ∷ xs) e = subst (Best (x ∷ xs) (x ∷ xs)) (some-injective _ _ e) (
    worst_from-Best (x ∷ []) xs (0, x) 1 refl refl
      (record { found = refl; bound = (NoWorse-refl x, tt) }))

worst-none : (items : List PrioritisedTask) → worst items ≡ none → items ≡ []
unfolding worst
worst-none [] e = refl
worst-none (x ∷ xs) e = cc

worst-cons :
    (items : List PrioritisedTask) → items ≢ [] → (w : ℕ × PrioritisedTask) × (worst items ≡ some w)
unfolding worst
worst-cons [] h = absurd (h refl)
worst-cons (x ∷ xs) h = (worst_from (0, x) 1 xs, refl)

module _ (std : BinaryHeap) where
  open std use {into_vec, from_iter, insert, from_iter-perm, insert-perm}

  abbrev pub tasks : PriorityQueue std → List PrioritisedTask
  tasks q = into_vec q.inner

  -- A full queue that holds a task: one of the tasks, than which none is worse, has made room for the
  -- new one, the others stay, and the overflow is counted.
  pub record Evicts (q : PriorityQueue std) (t : Task) (q' : PriorityQueue std) : Type 0 where
    pub victim : PrioritisedTask
    pub kept : List PrioritisedTask
    pub before : Perm (tasks q) (victim ∷ kept)
    pub after : Perm (tasks q') (prioritised t ∷ kept)
    pub worst_first : All (NoWorse victim) (tasks q)
    pub counted : q'.overflow ≡ wrapping_suc q.overflow
    pub capacity : q'.capacity ≡ q.capacity

  evict-none : (q : PriorityQueue std) → evict std q ≡ none → tasks q ≡ []
  unfolding evict
  evict-none q h = elim (Option-cases (worst (tasks q))) [
    | inl e ↦ worst-none (tasks q) e
    | inr (w, e) ↦ absurd (ground arith)
  ]

  evict_nil : (q : PriorityQueue std) → tasks q ≡ [] → evict std q ≡ none
  unfolding evict worst
  evict_nil q e = rw (e, evict)

  evict-some :
      (q : PriorityQueue std) (w : ℕ × PrioritisedTask)
      → worst (tasks q) ≡ some w
      → evict std q
        ≡ some (record q {
          inner = from_iter (swap_remove (tasks q) w.0);
          overflow = wrapping_suc q.overflow;
        })
  unfolding evict
  evict-some q w e = rw (e, evict)

  -- A push panics exactly on a queue of capacity 0 without tasks.
  pub push_panics_iff :
      (q : PriorityQueue std) (t : Task)
      → (push std q t ≡ none) ↔ ((q.capacity ≡ 0) × (tasks q ≡ []))
  unfolding push
  push_panics_iff q t =
      (λ h. let e = no_tasks h in (ground (arith, e), e), λ h. ground (arith, evict_nil q h.1))
    where
      no_tasks : push std q t ≡ none → tasks q ≡ []
      no_tasks h = ground (arith, evict-none q)

  -- Below its capacity a queue takes the task and keeps all of its own, and counts no overflow.
  pub push_room :
      (q : PriorityQueue std) (t : Task)
      → length (tasks q) < q.capacity
      → (q' : PriorityQueue std) × (push std q t ≡ some (ok, q'))
        × Perm (tasks q') (prioritised t ∷ tasks q)
        × (q'.overflow ≡ q.overflow)
        × (q'.capacity ≡ q.capacity)
  unfolding push
  push_room q t h = (
    record q { inner = insert (prioritised t) q.inner },
    ground arith,
    insert-perm (prioritised t) q.inner,
    refl,
    refl,
  )

  -- A push on a full queue that holds a task evicts a task of the queue that none of the others is worse
  -- than, takes the new task, keeps the others, and counts one overflow.
  pub push_full :
      (q : PriorityQueue std) (t : Task)
      → q.capacity ≤ length (tasks q)
      → tasks q ≢ []
      → (q' : PriorityQueue std) × (push std q t ≡ some (dropped_oldest, q')) × Evicts q t q'
  unfolding push
  push_full q t h ne =
      let (w, e) = worst-cons (tasks q) ne in
      let best = worst_lem (tasks q) e in
      let rest : List PrioritisedTask = swap_remove (tasks q) w.0 in
      (
        record q {
          inner = insert (prioritised t) (from_iter rest);
          overflow = wrapping_suc q.overflow;
        },
        ground (arith, evict-some q w e),
        record {
          victim = w.1;
          kept = rest;
          before = swap_remove-perm (tasks q) w.0 best.found;
          after =
              Perm.trans (insert-perm (prioritised t) (from_iter rest))
                (Perm.cons (prioritised t) (from_iter-perm rest));
          worst_first = best.bound;
          counted = refl;
          capacity = refl;
        },
      )
