-- ===== src/Float/Fixed.antt =====
-- Numbers with nine decimal places satisfy the laws: no number is negative, infinite or missing.
use native.Mathlib.Nat.{mul_assoc, mul_right_comm, mul-div_cancel}
use real_time_system_project.Common.{
  ℕ, zero, suc, ◌+◌, ◌-◌, ◌*◌, ◌/◌, ◌^◌, ◌≡◌, ◌≤◌, ◌<◌, ◌↔◌, ◌⊎◌, refl, ap, sym, ◌∙◌, Bool, true,
  ◌&&◌, false, [], ◌∷◌, Option, none, some, Text, All, leb, ltb, ◌==◌, if◌then◌else◌, arith, lt→ltb,
}
use real_time_system_project.Decimal.{is_digit, value_from}
use real_time_system_project.Float.{has_dot, has_two_dots, is_decimal, is_some, is_numeral, Float}

abbrev pub fraction : ℕ → Text → ℕ
fraction k [] = 0
fraction zero (c ∷ s) = c - 48
fraction (suc k) (c ∷ s) = (c - 48) * 10 ^ suc k + fraction k s

-- in units of 10^-9
abbrev pub places : ℕ → Text → ℕ
places n [] = n * 10 ^ 9
places n (c ∷ s) = if c == 46 then n * 10 ^ 9 + fraction 8 s else places (n * 10 + (c - 48)) s

abbrev pub all_numeral : Text → Bool
all_numeral [] = true
all_numeral (c ∷ s) = is_numeral c && all_numeral s

abbrev pub read : Text → Option ℕ
read s = if all_numeral s && is_decimal s then some (places 0 s) else none

pub places-digits :
    (n : ℕ) (s : Text) → All (λ c. is_digit c ≡ true) s → places n s ≡ value_from n s * 10 ^ 9
places-digits n [] h = refl
places-digits n (c ∷ s) h = ground (arith, places-digits (n * 10 + (c - 48)) s h.1, h.0)

no_dot : (s : Text) → All (λ c. is_digit c ≡ true) s → has_dot s ≡ false
no_dot [] h = refl
no_dot (c ∷ s) h = ground (arith, no_dot s h.1, h.0)

no_two_dots : (s : Text) → All (λ c. is_digit c ≡ true) s → has_two_dots s ≡ false
no_two_dots [] h = refl
no_two_dots (c ∷ s) h = ground (arith, no_two_dots s h.1, no_dot s h.1, h.0)

pub digits-is_decimal :
    (c : ℕ) (s : Text) → All (λ c. is_digit c ≡ true) (c ∷ s) → is_decimal (c ∷ s) ≡ true
digits-is_decimal c s h = ground (arith, no_two_dots (c ∷ s) h, h.0)

all_numeral_lem : (s : Text) → All (λ c. is_numeral c ≡ true) s → all_numeral s ≡ true
all_numeral_lem [] h = refl
all_numeral_lem (c ∷ s) h = rw (h.0, all_numeral_lem s h.1) refl

digits_are_numeral : (s : Text) → All (λ c. is_digit c ≡ true) s → all_numeral s ≡ true
digits_are_numeral [] h = refl
digits_are_numeral (c ∷ s) h = rw (h.0, digits_are_numeral s h.1) refl

read_as : (b : Bool) (n : ℕ) → is_some (if b then some n else none) ≡ b
read_as true n = refl
read_as false n = refl

pub read-decimal : (s : Text) → All (λ c. is_numeral c ≡ true) s → is_some (read s) ≡ is_decimal s
read-decimal s h = rw (all_numeral_lem s h) (read_as (is_decimal s) (places 0 s))

pub read-digits :
    (c : ℕ) (s : Text)
    → All (λ c. is_digit c ≡ true) (c ∷ s)
    → read (c ∷ s) ≡ some (value_from 0 (c ∷ s) * 10 ^ 9)
read-digits c s h =
    rw (digits_are_numeral (c ∷ s) h, digits-is_decimal c s h, places-digits 0 (c ∷ s) h) refl

pub scaled : (a b : ℕ) → (a * 10 ^ 9) * (b * 10 ^ 9) / 10 ^ 9 ≡ (a * b) * 10 ^ 9
scaled a b =
    ap (λ n. n / 10 ^ 9) (sym (mul_assoc (a * 10 ^ 9) b (10 ^ 9)))
    ∙ mul-div_cancel (a * 10 ^ 9 * b) (omega arith)
    ∙ mul_right_comm a (10 ^ 9) b

abbrev pub from_secs : ℕ → Option ℕ
from_secs v = if ltb v (2 ^ 64 * 10 ^ 9) then some v else none

pub from_secs-none :
    (v : ℕ)
    → (from_secs v ≡ none)
      ↔ ((true ≡ false) ⊎ ((ltb v (0 * 10 ^ 9) ≡ true) ⊎ (leb (2 ^ 64 * 10 ^ 9) v ≡ true)))
from_secs-none v = ground arith

pub not_negative : (v : ℕ) → ltb v (0 * 10 ^ 9) ≡ false
not_negative v = ground arith

pub positive : (n : ℕ) → 0 < n → n ≤ 2 ^ 53 → leb (n * 10 ^ 9) (0 * 10 ^ 9) ≡ false
positive n h k = ground arith

pub from_secs-whole : (n : ℕ) → n ≤ 2 ^ 53 → from_secs (n * 10 ^ 9) ≡ some (n * 10 ^ 9)
from_secs-whole n h = rw (lt→ltb (n * 10 ^ 9) (2 ^ 64 * 10 ^ 9) (omega (arith, h))) refl

abbrev pub fixed_point : Float
fixed_point = record {
  F64 = ℕ;
  from_str = read;
  of_nat = λ n. n * 10 ^ 9;
  mul = λ a b. a * b / 10 ^ 9;
  div = λ a b. a * 10 ^ 9 / b;
  is_finite = λ v. true;
  lt = ltb;
  le = leb;
  from_secs_f64 = from_secs;
  from_str-decimal = read-decimal;
  from_str-digits = λ c s h k. read-digits c s h;
  from_str-sign = λ s {v} h e. not_negative v;
  mul-sign = λ v n h k p. not_negative (v * (n * 10 ^ 9) / 10 ^ 9);
  div-sign = λ v n h k p. not_negative (v * 10 ^ 9 / (n * 10 ^ 9));
  mul-of_nat = λ a b h k p. scaled a b;
  is_finite-of_nat = λ n h. refl;
  lt-of_nat = λ n h. not_negative (n * 10 ^ 9);
  le-of_nat = positive;
  from_secs_f64-of_nat = from_secs-whole;
  from_secs_f64-none = from_secs-none;
}
