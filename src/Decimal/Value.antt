-- ===== src/Decimal/Value.antt =====
-- A decimal text holds digits only, at least one, and stands for its number.
use real_time_system_project.Common.{
  ℕ, zero, suc, ◌+◌, ◌-◌, ◌*◌, ◌/◌, ◌%◌, ◌<◌, ◌≡◌, ap, subst, sym, false, refl, true, [], ◌∷◌, ◌++◌,
  Text, ltb, All, All-append, arith, Bool-cases, inl, inr, not_ltb→le,
}
use real_time_system_project.Decimal.{is_digit, value_from, decimal_from, decimal}

value_from-append :
    (n c : ℕ) (s : Text) → value_from n (s ++ (c ∷ [])) ≡ value_from n s * 10 + (c - 48)
value_from-append n c [] = refl
value_from-append n c (d ∷ s) = value_from-append (n * 10 + (d - 48)) c s

decimal_from-small : (fuel n : ℕ) → ltb n 10 ≡ true → decimal_from (suc fuel) n ≡ (48 + n) ∷ []
unfolding decimal_from
decimal_from-small fuel n h = rw (decimal_from, h) refl

decimal_from-large :
    (fuel n : ℕ)
    → ltb n 10 ≡ false
    → decimal_from (suc fuel) n ≡ decimal_from fuel (n / 10) ++ ((48 + n % 10) ∷ [])
unfolding decimal_from
decimal_from-large fuel n h = rw (decimal_from, h) refl

value_from-decimal_from : (fuel n : ℕ) → n < fuel → value_from 0 (decimal_from fuel n) ≡ n
value_from-decimal_from zero n h = omega (arith, h)
value_from-decimal_from (suc fuel) n h = elim (Bool-cases (ltb n 10)) [
  | inl one ↦ omega (arith, ap (value_from 0) (decimal_from-small fuel n one))
  | inr more ↦ omega (
    arith,
    ap (value_from 0) (decimal_from-large fuel n more),
    value_from-append 0 (48 + n % 10) (decimal_from fuel (n / 10)),
    value_from-decimal_from fuel (n / 10) (omega (arith, h, not_ltb→le n 10 more)),
  )
]

-- The digits of a number stand for it.
pub value_from-decimal : (n : ℕ) → value_from 0 (decimal n) ≡ n
unfolding decimal
value_from-decimal n = value_from-decimal_from (suc n) n (omega arith)

digit-is_digit : (n : ℕ) → n < 10 → is_digit (48 + n) ≡ true
digit-is_digit n h = ground arith

decimal_from-digits : (fuel n : ℕ) → All (λ c. is_digit c ≡ true) (decimal_from fuel n)
unfolding decimal_from
decimal_from-digits zero n = tt
decimal_from-digits (suc fuel) n = elim (Bool-cases (ltb n 10)) [
  | inl one ↦
      subst (All (λ c. is_digit c ≡ true)) (sym (decimal_from-small fuel n one))
        (digit-is_digit n (ground arith), tt)
  | inr more ↦ subst (All (λ c. is_digit c ≡ true)) (sym (decimal_from-large fuel n more)) (
      All-append (λ c. is_digit c ≡ true) (decimal_from fuel (n / 10)) ((48 + n % 10) ∷ [])
        (decimal_from-digits fuel (n / 10)) (digit-is_digit (n % 10) (omega arith), tt))
]

pub decimal-digits : (n : ℕ) → All (λ c. is_digit c ≡ true) (decimal n)
unfolding decimal
decimal-digits n = decimal_from-digits (suc n) n
