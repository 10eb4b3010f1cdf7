-- ===== src/Threaded/Heap/ListHeap.antt =====
-- A heap that is a plain list and looks for the least task when it is popped. It shows that the laws
-- of the interface can be met.
use mathlib.Core.Logic.Or
use mathlib.Core.List.{Perm, Mem, mem-cons, not-mem-nil}
use mathlib.Core.List.Perm
use mathlib.Core.Option.{some-injective}
use real_time_system_project.Common.{
  ◌≡◌, refl, sym, subst, inl, inr, Bool, false, List, [], ◌∷◌, Option, none, some, if◌then◌else◌,
  Bool-cases,
}
use real_time_system_project.Threaded.Heap.{
  PrioritisedTask, task_cmp, not_greater, Before, BinaryHeap, Before-total, Before-trans,
}

abbrev pub Tasks : Type 0
Tasks = List PrioritisedTask

-- the least of `x ∷ xs`, and the others
extract : PrioritisedTask → Tasks → PrioritisedTask × Tasks
extract x [] = (x, [])
extract x (y ∷ ys) =
    let (least, rest) = extract y ys in
    if not_greater (task_cmp x least) then (x, y ∷ ys) else (least, x ∷ rest)

extract-perm :
    (x : PrioritisedTask) (xs : Tasks) → let (l, r) = extract x xs in Perm (x ∷ xs) (l ∷ r)
unfolding extract
extract-perm x [] = Perm.refl (x ∷ [])
extract-perm x (y ∷ ys) = elim (Bool-cases (not_greater (task_cmp x (extract y ys).0))) [
  | inl e ↦ rw e (Perm.refl (x ∷ y ∷ ys))
  | inr e ↦ rw e (Perm.trans (Perm.cons x (extract-perm y ys)) (Perm.swap _ x _))
]

Bool-set : IsSet Bool
Bool-set = hlevel

Before-prop : (a b : PrioritisedTask) → IsProp (Before a b)
Before-prop a b = Bool-set _ _

Before-cons :
    (l x : PrioritisedTask) (xs : Tasks)
    → Before l x
    → ((z : PrioritisedTask) → Mem z xs → Before l z)
    → (z : PrioritisedTask) → Mem z (x ∷ xs)
    → Before l z
Before-cons l x xs h hs z m =
    Or.elim (Before-prop l z) (mem-cons.0 m) (λ e. subst (Before l) (sym e) h) (hs z)

extract-least :
    (x : PrioritisedTask) (xs : Tasks)
    → let (l, r) = extract x xs in (z : PrioritisedTask) → Mem z r → Before l z
unfolding extract
extract-least x [] = λ z m. absurd (not-mem-nil m)
extract-least x (y ∷ ys) = elim (Bool-cases (not_greater (task_cmp x (extract y ys).0))) [
  | inl e ↦ rw e (λ z m.
      Before-cons x (extract y ys).0 (extract y ys).1 e
        (λ w n. Before-trans x (extract y ys).0 w e (extract-least y ys w n)) z
        ((Perm.mem_iff (extract-perm y ys)).0 m))
  | inr e ↦ rw e (
      Before-cons (extract y ys).0 x (extract y ys).1 (other_way x (extract y ys).0 e)
        (extract-least y ys))
]
  where
    other_way : (a b : PrioritisedTask) → not_greater (task_cmp a b) ≡ false → Before b a
    other_way a b h = elim (Before-total a b) [ inl p ↦ cc | inr p ↦ p ]

unfoldable pub pop_list : Tasks → Option (PrioritisedTask × Tasks)
unfolding extract
pop_list [] = none
pop_list (x ∷ xs) = some (extract x xs)

pub pop_list-none : (h : Tasks) → pop_list h ≡ none → h ≡ []
unfolding pop_list
pop_list-none [] e = refl
pop_list-none (x ∷ xs) e = cc

pub pop_list-perm :
    (h : Tasks) {x : PrioritisedTask} {h' : Tasks} → pop_list h ≡ some (x, h') → Perm h (x ∷ h')
unfolding pop_list
pop_list-perm [] e = cc
pop_list-perm (y ∷ ys) e =
    subst (λ (p : PrioritisedTask × Tasks). Perm (y ∷ ys) (p.0 ∷ p.1)) (some-injective _ _ e)
      (extract-perm y ys)

pub pop_list-least :
    (h : Tasks) {x : PrioritisedTask} {h' : Tasks}
    → pop_list h ≡ some (x, h')
    → (z : PrioritisedTask) → Mem z h'
    → Before x z
unfolding pop_list
pop_list-least [] e = cc
pop_list-least (y ∷ ys) e =
    subst (λ (p : PrioritisedTask × Tasks). (z : PrioritisedTask) → Mem z p.1 → Before p.0 z)
      (some-injective _ _ e) (extract-least y ys)

abbrev pub list_heap : BinaryHeap
list_heap = record {
  Heap = Tasks;
  empty = [];
  into_vec = λ h. h;
  from_iter = λ xs. xs;
  insert = λ x h. x ∷ h;
  pop_heap = pop_list;
  into_vec-empty = refl;
  from_iter-perm = λ xs. Perm.refl xs;
  insert-perm = λ x h. Perm.refl (x ∷ h);
  pop_heap-none = pop_list-none;
  pop_heap-perm = pop_list-perm;
  pop_heap-least = pop_list-least;
}
