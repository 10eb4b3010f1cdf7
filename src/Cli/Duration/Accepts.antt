-- ===== src/Cli/Duration/Accepts.antt =====
-- Which texts `parse_duration` accepts, and which of them it panics on.
use mathlib.Core.Bool.{true≢false}
use mathlib.Core.Option
use mathlib.Core.Option.{some_inj}
use real_time_system_project.Common.{
  ◌^◌, ◌≡◌, refl, ap, sym, ◌∙◌, ◌↔◌, ◌⊎◌, inl, inr, Bool, true, false, [], ◌∷◌, ◌++◌, Option, none,
  some, Text, Result, ok, err, All,
}
use real_time_system_project.Time.{Duration}
use real_time_system_project.Float.{Float, is_numeral, is_some}
use real_time_system_project.Cli.Duration.Reads.{
  split-append, split-numeral, Scaled, Reads, in_seconds-Scaled, Reads-sign, parse_duration-Reads,
}
use real_time_system_project.Cli.Duration.{
  split_unit, in_seconds, checked_seconds, with_seconds, invalid_duration, scaled_by_unit,
  with_number, parse_duration,
}

abbrev pub rejects : Option (Result Text Duration) → Bool
rejects none = false
rejects (some (ok d)) = false
rejects (some (err e)) = true

module _ (float : Float) where
  open float use {
    F64, from_str, of_nat, mul, div, is_finite, lt, le, from_secs_f64, from_str-decimal,
    from_str-sign, mul-sign, div-sign, from_secs_f64-none,
  }

  infinite_rejected :
      (raw : Text) (secs : F64)
      → is_finite secs ≡ false
      → checked_seconds float raw secs ≡ some (err (invalid_duration float raw))
  unfolding checked_seconds
  infinite_rejected raw secs e = rw e refl

  checked_finite :
      (raw : Text) (secs : F64) (b : Bool)
      → is_finite secs ≡ b
      → rejects (checked_seconds float raw secs) ≡ false
      → is_finite secs ≡ true
  checked_finite raw secs true e k = e
  checked_finite raw secs false e k =
      absurd (true≢false (sym (ap rejects (infinite_rejected raw secs e)) ∙ k))

  accepted_unit :
      (raw unit : Text) (value : F64) (o : Option F64)
      → in_seconds float value unit ≡ o
      → rejects (with_seconds float raw unit o) ≡ false
      → (secs : F64) × Scaled float unit value secs × (is_finite secs ≡ true)
  accepted_unit raw unit value none e k = absurd (true≢false k)
  accepted_unit raw unit value (some secs) e k =
      (secs, in_seconds-Scaled float value unit e, checked_finite raw secs (is_finite secs) refl k)

  accepted_number :
      (raw num unit : Text) (o : Option F64)
      → raw ≡ num ++ unit
      → All (λ c. is_numeral c ≡ true) num
      → from_str num ≡ o
      → rejects (scaled_by_unit float raw unit o) ≡ false
      → (secs : F64) × Reads float raw secs
  accepted_number raw num unit none e n read k = absurd (true≢false k)
  accepted_number raw num unit (some value) e n read k =
      let (secs, scales, finite) =
        accepted_unit raw unit value (in_seconds float value unit) refl k in
      (
        secs,
        record {
          num = num;
          unit = unit;
          value = value;
          shape = e;
          numeral = n;
          decimal = sym (from_str-decimal num n) ∙ ap is_some read;
          number = read;
          scaled = scales;
          finite = finite;
        },
      )

  accepted :
      (raw num unit : Text)
      → raw ≡ num ++ unit
      → All (λ c. is_numeral c ≡ true) num
      → rejects (with_number float raw num unit) ≡ false
      → (secs : F64) × Reads float raw secs
  accepted raw [] unit e n k = absurd (true≢false k)
  accepted raw (c ∷ num) unit e n k =
      accepted_number raw (c ∷ num) unit (from_str (c ∷ num)) e n refl k

  kept : (o : Option Duration) → rejects (mathlib.Core.Option.map ok o) ≡ false
  kept none = refl
  kept (some d) = refl

  not_made :
      (o : Option Duration)
      → mathlib.Core.Option.map {B = Result Text Duration} ok o ≡ none
      → o ≡ none
  not_made none e = refl
  not_made (some d) e = cc

  -- `parse_duration` does not report an error for exactly the texts of a decimal numeral and one of
  -- the units `s`, `ms`, `m`, `h` or none, the seconds of which are finite.
  pub parse_duration_accepts_iff :
      (raw : Text)
      → (rejects (parse_duration float raw) ≡ false) ↔ ((secs : F64) × Reads float raw secs)
  unfolding parse_duration
  parse_duration_accepts_iff raw = (
    accepted raw (split_unit raw).0 (split_unit raw).1 (split-append raw) (split-numeral raw),
    λ (secs, r). ap rejects (parse_duration-Reads float r) ∙ kept (from_secs_f64 secs),
  )

  -- `parse_duration` panics for exactly the texts for which it reports no error and that are 2^64
  -- seconds or more.
  pub parse_duration_panics_iff :
      (raw : Text)
      → (parse_duration float raw ≡ none)
        ↔ ((secs : F64) × Reads float raw secs × (le (of_nat (2 ^ 64)) secs ≡ true))
  parse_duration_panics_iff raw = (
    λ e.
        let (secs, r) = (parse_duration_accepts_iff raw).0 (ap rejects e) in
        (
          secs,
          r,
          too_long r (
              (from_secs_f64-none secs).0
                (not_made (from_secs_f64 secs) (sym (parse_duration-Reads float r) ∙ e))),
        ),
    λ (secs, r, long).
        parse_duration-Reads float r
        ∙ ap (mathlib.Core.Option.map ok) ((from_secs_f64-none secs).1 (inr (inr long))),
  )
    where
      too_long :
          {secs : F64}
          → Reads float raw secs
          → (is_finite secs ≡ false)
            ⊎ ((lt secs (of_nat 0) ≡ true) ⊎ (le (of_nat (2 ^ 64)) secs ≡ true))
          → le (of_nat (2 ^ 64)) secs ≡ true
      too_long r (inl infinite) = absurd (true≢false (sym r.finite ∙ infinite))
      too_long r (inr (inl negative)) = absurd (true≢false (sym negative ∙ Reads-sign float r))
      too_long r (inr (inr long)) = long
