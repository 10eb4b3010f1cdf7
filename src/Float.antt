-- ===== src/Float.antt =====
-- All that the code does with an `f64`: reading one, the whole numbers it writes down, products and
-- quotients, comparisons, and the `Duration` of a number of seconds.
pub mod Fixed
use real_time_system_project.Common.{
  ℕ, ◌+◌, ◌-◌, ◌*◌, ◌^◌, ◌≤◌, ◌<◌, ◌≡◌, ◌↔◌, ◌⊎◌, Bool, true, false, ◌&&◌, ◌||◌, not, List, [], ◌∷◌,
  Option, none, some, Text, All, leb, ◌==◌,
}
use real_time_system_project.Decimal.{is_digit, value_from}
use real_time_system_project.Time.{Duration}

-- The characters of the numerals that are read.
abbrev pub is_numeral : ℕ → Bool
is_numeral c = is_digit c || c == 46

abbrev pub has_digit : Text → Bool
has_digit [] = false
has_digit (c ∷ s) = is_digit c || has_digit s

abbrev pub has_dot : Text → Bool
has_dot [] = false
has_dot (c ∷ s) = (c == 46) || has_dot s

abbrev pub has_two_dots : Text → Bool
has_two_dots [] = false
has_two_dots (c ∷ s) = ((c == 46) && has_dot s) || has_two_dots s

-- The grammar of `f64::from_str` on numerals without sign and exponent.
abbrev pub is_decimal : Text → Bool
is_decimal s = has_digit s && not (has_two_dots s)

abbrev pub is_some : {A : Type 0} → Option A → Bool
is_some none = false
is_some (some a) = true

-- The laws are those of IEEE 754 on whole numbers up to 2^53, which are exact, and the documented
-- behaviour of `f64::from_str` and of `Duration::from_secs_f64`, where `none` is the panic.
pub record Float : Type 1 where
  pub F64 : Type 0
  pub from_str : Text → Option F64
  pub of_nat : ℕ → F64
  pub mul : F64 → F64 → F64
  pub div : F64 → F64 → F64
  pub is_finite : F64 → Bool
  pub lt : F64 → F64 → Bool
  pub le : F64 → F64 → Bool
  pub from_secs_f64 : F64 → Option Duration
  pub from_str-decimal :
      (s : Text) → All (λ c. is_numeral c ≡ true) s → is_some (from_str s) ≡ is_decimal s
  pub from_str-digits :
      (c : ℕ) (s : Text)
      → All (λ c. is_digit c ≡ true) (c ∷ s)
      → value_from 0 (c ∷ s) ≤ 2 ^ 53
      → from_str (c ∷ s) ≡ some (of_nat (value_from 0 (c ∷ s)))
  pub from_str-sign :
      (s : Text) {v : F64}
      → All (λ c. is_numeral c ≡ true) s
      → from_str s ≡ some v
      → lt v (of_nat 0) ≡ false
  pub mul-sign :
      (v : F64) (n : ℕ)
      → 0 < n
      → n ≤ 2 ^ 53
      → lt v (of_nat 0) ≡ false
      → lt (mul v (of_nat n)) (of_nat 0) ≡ false
  pub div-sign :
      (v : F64) (n : ℕ)
      → 0 < n
      → n ≤ 2 ^ 53
      → lt v (of_nat 0) ≡ false
      → lt (div v (of_nat n)) (of_nat 0) ≡ false
  pub mul-of_nat :
      (a b : ℕ)
      → a ≤ 2 ^ 53
      → b ≤ 2 ^ 53
      → a * b ≤ 2 ^ 53
      → mul (of_nat a) (of_nat b) ≡ of_nat (a * b)
  pub is_finite-of_nat : (n : ℕ) → n ≤ 2 ^ 53 → is_finite (of_nat n) ≡ true
  pub lt-of_nat : (n : ℕ) → n ≤ 2 ^ 53 → lt (of_nat n) (of_nat 0) ≡ false
  pub le-of_nat : (n : ℕ) → 0 < n → n ≤ 2 ^ 53 → le (of_nat n) (of_nat 0) ≡ false
  pub from_secs_f64-of_nat : (n : ℕ) → n ≤ 2 ^ 53 → from_secs_f64 (of_nat n) ≡ some (n * 10 ^ 9)
  pub from_secs_f64-none :
      (v : F64)
      → (from_secs_f64 v ≡ none)
        ↔ ((is_finite v ≡ false) ⊎ ((lt v (of_nat 0) ≡ true) ⊎ (le (of_nat (2 ^ 64)) v ≡ true)))
