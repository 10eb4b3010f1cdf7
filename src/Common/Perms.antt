-- ===== src/Common/Perms.antt =====
-- Permutations and lengths, and the order of `Vec::swap_remove`.
use Prim.Native.Nat.{ℕ, zero, suc}
use mathlib.Core.Path.{◌≡◌, refl, ap, ◌∙◌}
use mathlib.Core.Logic.{∥∥₁_elim}
use mathlib.Core.List.{List, [], ◌∷◌, Perm, Permᴰ}
use mathlib.Core.List.Perm
use mathlib.Core.Option.{some}
use native.Mathlib.Nat.{ℕ_set}
use native.Mathlib.Omega.{arith}
use real_time_system_project.Common.Lists.{total, length, get_elem?}

module _ {ℓ} {A : Type ℓ} where
  length-permᴰ : {xs ys : List A} → Permᴰ xs ys → length xs ≡ length ys
  length-permᴰ Permᴰ.nil = refl
  length-permᴰ (Permᴰ.cons e p) = ap suc (length-permᴰ p)
  length-permᴰ (Permᴰ.swap e f) = refl
  length-permᴰ (Permᴰ.trans p q) = length-permᴰ p ∙ length-permᴰ q

  pub length-perm : {xs ys : List A} → Perm xs ys → length xs ≡ length ys
  length-perm p = ∥∥₁_elim p (ℕ_set _ _) length-permᴰ

  -- all elements but the last of `x ∷ xs`, and the last
  split_last : A → List A → List A × A
  split_last x [] = ([], x)
  split_last x (y ∷ ys) = let (init, last) = split_last y ys in (x ∷ init, last)

  last_to_front : List A → List A
  last_to_front [] = []
  last_to_front (x ∷ xs) = let (init, last) = split_last x xs in last ∷ init

  -- `Vec::swap_remove` without its result: the last element takes the place of the one removed.
  unfoldable pub swap_remove : List A → ℕ → List A
  unfolding split_last last_to_front
  swap_remove [] i = []
  swap_remove (x ∷ xs) zero = last_to_front xs
  swap_remove (x ∷ xs) (suc i) = x ∷ swap_remove xs i

  split_last-perm :
      (x : A) (xs : List A) → let (init, last) = split_last x xs in Perm (x ∷ xs) (last ∷ init)
  unfolding split_last
  split_last-perm x [] = Perm.refl (x ∷ [])
  split_last-perm x (y ∷ ys) = Perm.trans (Perm.cons x (split_last-perm y ys)) (Perm.swap _ x _)

  last_to_front-perm : (xs : List A) → Perm xs (last_to_front xs)
  unfolding last_to_front
  last_to_front-perm [] = Perm.nil
  last_to_front-perm (x ∷ xs) = split_last-perm x xs

  pub swap_remove-perm :
      (xs : List A) (i : ℕ) {w : A} → get_elem? xs i ≡ some w → Perm xs (w ∷ swap_remove xs i)
  unfolding swap_remove
  swap_remove-perm [] i h = cc
  swap_remove-perm (x ∷ xs) zero {w} h = Perm.cons' (ground arith) (last_to_front-perm xs)
  swap_remove-perm (x ∷ xs) (suc i) {w} h =
      Perm.trans (Perm.cons x (swap_remove-perm xs i h)) (Perm.swap w x _)

module _ {ℓ} {A : Type ℓ} (f : A → ℕ) where
  total-permᴰ : {xs ys : List A} → Permᴰ xs ys → total f xs ≡ total f ys
  total-permᴰ Permᴰ.nil = refl
  total-permᴰ (Permᴰ.cons e p) = omega (arith, ap f e, total-permᴰ p)
  total-permᴰ (Permᴰ.swap e g) = omega (arith, ap f e, ap f g)
  total-permᴰ (Permᴰ.trans p q) = total-permᴰ p ∙ total-permᴰ q

  pub total-perm : {xs ys : List A} → Perm xs ys → total f xs ≡ total f ys
  total-perm p = ∥∥₁_elim p (ℕ_set _ _) total-permᴰ
