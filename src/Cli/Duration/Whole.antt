-- ===== src/Cli/Duration/Whole.antt =====
-- What `parse_duration` makes of whole numbers of seconds, minutes and hours.
use mathlib.Core.Option
use real_time_system_project.Common.{
  ℕ, ◌*◌, ◌^◌, ◌≤◌, ◌≡◌, refl, ap, sym, ◌∙◌, subst, true, [], ◌∷◌, ◌++◌, some, Text, bytes, ok, All,
  arith,
}
use real_time_system_project.Decimal.{is_digit, value_from}
use real_time_system_project.Float.{Float, is_numeral, is_some}
use real_time_system_project.Cli.Duration.{parse_duration}
use real_time_system_project.Cli.Duration.Reads.{
  Scaled, plain, seconds, minutes, hours, parse_duration-Reads,
}

-- The units of whole seconds, with the number of seconds of each.
pub data WholeUnit : Text → ℕ → Type 0 where
  none_written : WholeUnit [] 1
  second : WholeUnit (bytes "s") 1
  minute : WholeUnit (bytes "m") 60
  hour : WholeUnit (bytes "h") 3600

digits_are_numeral : (s : Text) → All (λ c. is_digit c ≡ true) s → All (λ c. is_numeral c ≡ true) s
digits_are_numeral [] h = tt
digits_are_numeral (c ∷ s) h = (rw h.0 refl, digits_are_numeral s h.1)

module _ (float : Float) where
  open float use {
    F64, from_str, of_nat, from_secs_f64, from_str-decimal, from_str-digits, mul-of_nat,
    is_finite-of_nat, from_secs_f64-of_nat,
  }

  whole-Scaled :
      {unit : Text} {k : ℕ} (n : ℕ)
      → WholeUnit unit k
      → n ≤ 2 ^ 53
      → n * k ≤ 2 ^ 53
      → Scaled float unit (of_nat n) (of_nat (n * k))
  whole-Scaled n none_written small fits =
      subst (λ j. Scaled float [] (of_nat n) (of_nat j)) (omega arith) plain
  whole-Scaled n second small fits =
      subst (λ j. Scaled float (bytes "s") (of_nat n) (of_nat j)) (omega arith) seconds
  whole-Scaled n minute small fits =
      subst (Scaled float (bytes "m") (of_nat n)) (mul-of_nat n 60 small (omega arith) fits) minutes
  whole-Scaled n hour small fits =
      subst (Scaled float (bytes "h") (of_nat n)) (mul-of_nat n 3600 small (omega arith) fits) hours

  -- Digits and a unit of whole seconds are that many nanoseconds exactly, if neither the number
  -- written nor the number of seconds exceeds 2^53.
  pub parse_duration_whole :
      (c : ℕ) (s : Text) {unit : Text} {k : ℕ}
      → All (λ c. is_digit c ≡ true) (c ∷ s)
      → WholeUnit unit k
      → value_from 0 (c ∷ s) ≤ 2 ^ 53
      → value_from 0 (c ∷ s) * k ≤ 2 ^ 53
      → parse_duration float ((c ∷ s) ++ unit) ≡ some (ok (value_from 0 (c ∷ s) * k * 10 ^ 9))
  parse_duration_whole c s {unit} {k} digits u small fits =
      let n = value_from 0 (c ∷ s) in
      let read = from_str-digits c s digits small in
      let numeral = digits_are_numeral (c ∷ s) digits in
      parse_duration-Reads float (record {
        num = c ∷ s;
        unit = unit;
        value = of_nat n;
        shape = refl;
        numeral = numeral;
        decimal = sym (from_str-decimal (c ∷ s) numeral) ∙ ap is_some read;
        number = read;
        scaled = whole-Scaled n u small fits;
        finite = is_finite-of_nat (n * k) fits;
      })
      ∙ ap (mathlib.Core.Option.map ok) (from_secs_f64-of_nat (n * k) fits)
