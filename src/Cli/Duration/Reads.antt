-- ===== src/Cli/Duration/Reads.antt =====
-- The texts of durations, and what `parse_duration` does with one.
use mathlib.Core.Bool.{false≢true}
use mathlib.Core.Option
use mathlib.Core.Option.{some_inj}
use real_time_system_project.Common.{
  ◌≡◌, refl, ap, sym, ◌∙◌, subst, inl, inr, Bool, true, false, not, [], ◌∷◌, ◌++◌, some, Text,
  bytes, text_eq, text_eq_iff, ok, All, arith, Bool-cases,
}
use real_time_system_project.Float.{Float, is_numeral, is_decimal}
use real_time_system_project.Cli.Duration.{
  split_unit, in_seconds, checked_seconds, with_number, parse_duration,
}

pub split-append : (raw : Text) → raw ≡ (split_unit raw).0 ++ (split_unit raw).1
split-append [] = refl
split-append (c ∷ s) = elim (Bool-cases (is_numeral c)) [
  | inl more ↦ rw more (ap (λ t. c ∷ t) (split-append s))
  | inr unit ↦ rw unit refl
]

pub split-numeral : (raw : Text) → All (λ c. is_numeral c ≡ true) (split_unit raw).0
split-numeral [] = tt
split-numeral (c ∷ s) = elim (Bool-cases (is_numeral c)) [
  | inl more ↦ rw more (more, split-numeral s)
  | inr unit ↦ rw unit tt
]

-- A text that does not start with a numeral character.
abbrev starts_unit : Text → Bool
starts_unit [] = true
starts_unit (c ∷ s) = not (is_numeral c)

split-at :
    (num unit : Text)
    → All (λ c. is_numeral c ≡ true) num
    → starts_unit unit ≡ true
    → split_unit (num ++ unit) ≡ (num, unit)
split-at [] [] h u = refl
split-at [] (c ∷ s) h u = rw (not_true u) refl
  where
    not_true : {b : Bool} → not b ≡ true → b ≡ false
    not_true e = ground arith
split-at (c ∷ num) unit h u = rw (h.0, split-at num unit h.1 u) refl

module _ (float : Float) where
  open float use {
    F64, from_str, of_nat, mul, div, is_finite, lt, le, from_secs_f64, from_str-decimal,
    from_str-sign, mul-sign, div-sign, from_secs_f64-none,
  }

  -- The units, and what a number of them is in seconds.
  pub data Scaled : Text → F64 → F64 → Type 0 where
    plain : {v : F64} → Scaled [] v v
    seconds : {v : F64} → Scaled (bytes "s") v v
    millis : {v : F64} → Scaled (bytes "ms") v (div v (of_nat 1000))
    minutes : {v : F64} → Scaled (bytes "m") v (mul v (of_nat 60))
    hours : {v : F64} → Scaled (bytes "h") v (mul v (of_nat 3600))

  -- A decimal numeral and a unit, which make a finite number of seconds.
  pub record Reads (raw : Text) (secs : F64) : Type 0 where
    pub num : Text
    pub unit : Text
    pub value : F64
    pub shape : raw ≡ num ++ unit
    pub numeral : All (λ c. is_numeral c ≡ true) num
    pub decimal : is_decimal num ≡ true
    pub number : from_str num ≡ some value
    pub scaled : Scaled unit value secs
    pub finite : is_finite secs ≡ true

  Scaled-unit : {unit : Text} {v secs : F64} → Scaled unit v secs → starts_unit unit ≡ true
  Scaled-unit plain = refl
  Scaled-unit seconds = refl
  Scaled-unit millis = refl
  Scaled-unit minutes = refl
  Scaled-unit hours = refl

  pub Scaled-in_seconds :
      {unit : Text} {v secs : F64} → Scaled unit v secs → in_seconds float v unit ≡ some secs
  unfolding in_seconds
  Scaled-in_seconds plain = refl
  Scaled-in_seconds seconds = refl
  Scaled-in_seconds millis = refl
  Scaled-in_seconds minutes = refl
  Scaled-in_seconds hours = refl

  Scaled-sign :
      {unit : Text} {v secs : F64}
      → Scaled unit v secs
      → lt v (of_nat 0) ≡ false
      → lt secs (of_nat 0) ≡ false
  Scaled-sign plain n = n
  Scaled-sign seconds n = n
  Scaled-sign {v = v} millis n = div-sign v 1000 (omega arith) (omega arith) n
  Scaled-sign {v = v} minutes n = mul-sign v 60 (omega arith) (omega arith) n
  Scaled-sign {v = v} hours n = mul-sign v 3600 (omega arith) (omega arith) n

  is_unit :
      {unit : Text} {v secs : F64} (u : Text)
      → text_eq unit u ≡ true
      → (in_seconds float v u ≡ some secs → Scaled u v secs)
      → in_seconds float v unit ≡ some secs
      → Scaled unit v secs
  is_unit {unit} {v} {secs} u known f =
      subst (λ t. in_seconds float v t ≡ some secs → Scaled t v secs)
        (sym ((text_eq_iff unit u).0 known)) f

  same_seconds : {u : Text} {v w secs : F64} → Scaled u v w → some w ≡ some secs → Scaled u v secs
  same_seconds {u} {v} k e = subst (Scaled u v) (some_inj.0 e) k

  pub in_seconds-Scaled :
      (v : F64) (unit : Text) {secs : F64}
      → in_seconds float v unit ≡ some secs
      → Scaled unit v secs
  unfolding in_seconds
  in_seconds-Scaled v unit e = elim (Bool-cases (text_eq unit [])) [
    | inl known ↦ is_unit [] known (same_seconds plain) e
    | inr no_plain ↦ elim (Bool-cases (text_eq unit (bytes "s"))) [
      | inl known ↦ is_unit (bytes "s") known (same_seconds seconds) e
      | inr no_s ↦ elim (Bool-cases (text_eq unit (bytes "ms"))) [
        | inl known ↦ is_unit (bytes "ms") known (same_seconds millis) e
        | inr no_ms ↦ elim (Bool-cases (text_eq unit (bytes "m"))) [
          | inl known ↦ is_unit (bytes "m") known (same_seconds minutes) e
          | inr no_m ↦ elim (Bool-cases (text_eq unit (bytes "h"))) [
            | inl known ↦ is_unit (bytes "h") known (same_seconds hours) e
            | inr no_h ↦ ground arith
          ]
        ]
      ]
    ]
  ]

  pub Reads-sign : {raw : Text} {secs : F64} → Reads raw secs → lt secs (of_nat 0) ≡ false
  Reads-sign r = Scaled-sign r.scaled (from_str-sign r.num r.numeral r.number)

  pub checked_seconds-finite :
      (raw : Text) (secs : F64)
      → is_finite secs ≡ true
      → lt secs (of_nat 0) ≡ false
      → checked_seconds float raw secs ≡ mathlib.Core.Option.map ok (from_secs_f64 secs)
  unfolding checked_seconds
  checked_seconds-finite raw secs f n = rw (f, n) refl

  with_number-Reads :
      {raw : Text} {secs : F64} (r : Reads raw secs) (num : Text)
      → r.num ≡ num
      → with_number float raw num r.unit ≡ checked_seconds float raw secs
  with_number-Reads r [] e = absurd (false≢true (ap is_decimal (sym e) ∙ r.decimal))
  with_number-Reads r (c ∷ num) e = rw (sym e, r.number, Scaled-in_seconds r.scaled) refl

  -- A duration text is passed to `Duration::from_secs_f64`.
  pub parse_duration-Reads :
      {raw : Text} {secs : F64}
      → Reads raw secs
      → parse_duration float raw ≡ mathlib.Core.Option.map ok (from_secs_f64 secs)
  unfolding parse_duration
  parse_duration-Reads {raw} {secs} r =
      ap (λ p. with_number float raw p.0 p.1)
        (ap split_unit r.shape ∙ split-at r.num r.unit r.numeral (Scaled-unit r.scaled))
      ∙ with_number-Reads r r.num refl
      ∙ checked_seconds-finite raw secs r.finite (Reads-sign r)
