-- ===== src/Shootout/Progress.antt =====
-- Threads whose calls do not block make all their iterations, and keep what each iteration keeps.
use mathlib.Core.Bool.{true≢false}
use mathlib.Core.Option.{some_inj}
use real_time_system_project.Common.{
  ltb→lt, not_ltb→le, subst, ℕ, zero, suc, ◌+◌, ◌≤◌, ◌<◌, ◌≡◌, refl, ap, sym, ◌∙◌, true, Bool-cases,
  inl, inr, List, [], ◌∷◌, Option, none, some, if◌then◌else◌, ltb, ◌==◌, ==_iff, arith, min,
  get_elem?, set, get_elem?-set, get_elem?-set_other, length, length-set, replicate,
  length-replicate,
}
use real_time_system_project.Shootout.{
  Contest, ops_per_thread, spawn, iterated, iterate, contend, all_made, join,
}

-- The turns of thread `t`.
abbrev pub turns_of : ℕ → List ℕ → ℕ
turns_of t [] = 0
turns_of t (u ∷ turns) = (if u == t then 1 else 0) + turns_of t turns

-- Every thread gets the turns that it needs.
abbrev pub IsFair : ℕ → List ℕ → Type 0
IsFair threads turns = (t : ℕ) → t < threads → ops_per_thread ≤ turns_of t turns

module _ {S : Type 0} (body : ℕ → ℕ → S → Option S) (Inv : List ℕ → S → Type 0) where
  -- The call goes through, and the invariant holds behind it.
  pub record Goes (t i : ℕ) (made : List ℕ) (s : S) : Type 0 where
    pub after : S
    pub goes : body t i s ≡ some after
    pub keeps : Inv (set made t (suc i)) after

  abbrev pub IsSteady : Type 0
  IsSteady =
      (t i : ℕ) (made : List ℕ) (s : S)
      → get_elem? made t ≡ some i
      → i < ops_per_thread
      → Inv made s
      → Goes t i made s

  -- A thread makes one iteration in each of its turns, up to the last.
  record Turned (c : Contest S) (u : ℕ) (c' : Contest S) : Type 0 where
    holds : Inv c'.made c'.shared
    ahead :
        (t : ℕ) {i : ℕ}
        → get_elem? c.made t ≡ some i
        → i ≤ ops_per_thread
        → get_elem? c'.made t ≡ some (min (i + (if u == t then 1 else 0)) ops_per_thread)
    same_length : length c'.made ≡ length c.made

  module _ (steady : IsSteady) where
    still_at :
        (made : List ℕ) (u t : ℕ) {i : ℕ}
        → ((i : ℕ) → get_elem? made u ≡ some i → ops_per_thread ≤ i)
        → get_elem? made t ≡ some i
        → i ≤ ops_per_thread
        → get_elem? made t ≡ some (min (i + (if u == t then 1 else 0)) ops_per_thread)
    still_at made u t {i} full h below = elim (Bool-cases (u == t)) [
      | inl same ↦ rw same (
          h
          ∙ ap some (omega (arith, below, full i (ap (get_elem? made) ((==_iff u t).0 same) ∙ h))))
      | inr other ↦ rw other (h ∙ ap some (omega (arith, below)))
    ]

    still :
        (c : Contest S) (u : ℕ)
        → ((i : ℕ) → get_elem? c.made u ≡ some i → ops_per_thread ≤ i)
        → Inv c.made c.shared
        → Turned c u c
    still c u full inv = record {
      holds = inv;
      ahead = λ t h below. still_at c.made u t full h below;
      same_length = refl;
    }

    moved_at :
        (made : List ℕ) (u i t : ℕ) {j : ℕ}
        → get_elem? made u ≡ some i
        → i < ops_per_thread
        → get_elem? made t ≡ some j
        → j ≤ ops_per_thread
        → get_elem? (set made u (suc i)) t
          ≡ some (min (j + (if u == t then 1 else 0)) ops_per_thread)
    moved_at made u i t {j} e below h q = elim (Bool-cases (u == t)) [
      | inl same ↦
          let same' = (==_iff u t).0 same in
          rw same (
            ap (get_elem? (set made u (suc i))) (sym same')
            ∙ get_elem?-set made u (suc i) e
            ∙ ap some (omega (arith, below, some_inj.0 (sym e ∙ ap (get_elem? made) same' ∙ h))))
      | inr other ↦ rw other (
          get_elem?-set_other made u t (suc i)
            (λ same. true≢false (sym ((==_iff u t).1 same) ∙ other))
          ∙ h
          ∙ ap some (omega (arith, q)))
    ]

    moved :
        (c : Contest S) (u i : ℕ)
        → get_elem? c.made u ≡ some i
        → i < ops_per_thread
        → Inv c.made c.shared
        → Turned c u (iterated body c u i (body u i c.shared))
    moved c u i e below inv =
        let g = steady u i c.made c.shared e below inv in
        rw g.goes (record {
          holds = g.keeps;
          ahead = λ t h q. moved_at c.made u i t e below h q;
          same_length = length-set c.made u (suc i);
        })

    iterate-Turned :
        (c : Contest S) (u : ℕ) (o : Option ℕ)
        → get_elem? c.made u ≡ o
        → Inv c.made c.shared
        → Turned c u (iterate body c u o)
    iterate-Turned c u none e inv = still c u (λ i h. cc) inv
    iterate-Turned c u (some i) e inv = elim (Bool-cases (ltb i ops_per_thread)) [
      | inl below ↦ rw below (moved c u i e (ltb→lt i ops_per_thread below) inv)
      | inr full ↦ rw full (
          still c u (λ j h. omega (arith, not_ltb→le i ops_per_thread full, some_inj.0 (sym e ∙ h)))
            inv)
    ]

    contend-holds :
        (c : Contest S) (turns : List ℕ)
        → Inv c.made c.shared
        → Inv (contend body c turns).made (contend body c turns).shared
    unfolding contend
    contend-holds c [] inv = inv
    contend-holds c (u ∷ turns) inv =
        contend-holds (iterate body c u (get_elem? c.made u)) turns
          (iterate-Turned c u (get_elem? c.made u) refl inv).holds

    contend-length :
        (c : Contest S) (turns : List ℕ)
        → Inv c.made c.shared
        → length (contend body c turns).made ≡ length c.made
    unfolding contend
    contend-length c [] inv = refl
    contend-length c (u ∷ turns) inv =
        let first = iterate-Turned c u (get_elem? c.made u) refl inv in
        contend-length (iterate body c u (get_elem? c.made u)) turns first.holds ∙ first.same_length

    contend-made :
        (c : Contest S) (turns : List ℕ) (t : ℕ) {i : ℕ}
        → Inv c.made c.shared
        → get_elem? c.made t ≡ some i
        → i ≤ ops_per_thread
        → get_elem? (contend body c turns).made t ≡ some (min (i + turns_of t turns) ops_per_thread)
    unfolding contend
    contend-made c [] t inv h q = h ∙ ap some (omega (arith, q))
    contend-made c (u ∷ turns) t {i} inv h q =
        let first = iterate-Turned c u (get_elem? c.made u) refl inv in
        contend-made (iterate body c u (get_elem? c.made u)) turns t first.holds (first.ahead t h q)
          (omega arith)
        ∙ ap some (omega arith)

    all_equal :
        (made : List ℕ)
        → ((t : ℕ) → t < length made → get_elem? made t ≡ some ops_per_thread)
        → made ≡ replicate (length made) ops_per_thread
    all_equal [] h = refl
    all_equal (i ∷ made) h =
        cong2 (some_inj.0 (h 0 (omega arith)))
          (all_equal made (λ t below. h (suc t) (omega (arith, below))))
      where
        cong2 : {a b : ℕ} {as' bs : List ℕ} → a ≡ b → as' ≡ bs → (a ∷ as') ≡ (b ∷ bs)
        cong2 p q = cc

    all_made-replicate : (n : ℕ) → all_made (replicate n ops_per_thread) ≡ true
    all_made-replicate zero = refl
    all_made-replicate (suc n) = all_made-replicate n

    get_elem?-replicate : (n t : ℕ) → t < n → get_elem? {A = ℕ} (replicate n 0) t ≡ some 0
    get_elem?-replicate zero t h = absurd (omega (arith, h))
    get_elem?-replicate (suc n) zero h = refl
    get_elem?-replicate (suc n) (suc t) h = get_elem?-replicate n t (omega (arith, h))

    -- Behind the joins of fairly treated threads.
    pub record Joined (threads : ℕ) (o : Option S) : Type 0 where
      pub final : S
      pub joined : o ≡ some final
      pub keeps : Inv (replicate threads ops_per_thread) final

    pub join-contend :
        (threads : ℕ) (s : S) (turns : List ℕ)
        → IsFair threads turns
        → Inv (replicate threads 0) s
        → Joined threads (join (contend body (spawn threads s) turns))
    unfolding join
    join-contend threads s turns fair inv =
        let c = contend body (spawn threads s) turns in
        let long : length c.made ≡ threads =
          contend-length (spawn threads s) turns inv ∙ length-replicate threads 0 in
        let made : c.made ≡ replicate threads ops_per_thread =
          all_equal c.made (λ t below.
            let below' : t < threads = omega (arith, below, long) in
            contend-made (spawn threads s) turns t inv (get_elem?-replicate threads t below')
              (omega arith)
            ∙ ap some (omega (arith, fair t below')))
          ∙ ap (λ n. replicate n ops_per_thread) long in
        record {
          final = c.shared;
          joined =
              ap (λ b. if b then some c.shared else none)
                (ap all_made made ∙ all_made-replicate threads);
          keeps =
              subst (λ made. Inv made c.shared) made (contend-holds (spawn threads s) turns inv);
        }
