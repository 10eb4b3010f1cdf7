-- ===== src/Replay/ParseRate.antt =====
-- `Rate::parse` of crates/rts-replay/src/play.rs.
mod Tests
use real_time_system_project.Common.{
  ℕ, ◌+◌, ◌-◌, ◌^◌, ◌≤◌, ◌<◌, ◌≡◌, refl, ap, ◌∙◌, Bool, true, false, not, ◌&&◌, ◌||◌, ◌==◌, List,
  [], ◌∷◌, ◌++◌, Option, none, some, Text, bytes, text_eq, Result, ok, err, map, All, if◌then◌else◌,
  leb, arith,
}
use real_time_system_project.Decimal.{is_digit, value_from}
use real_time_system_project.Float.{Float}
use real_time_system_project.Replay.{Rate, multiplier, maximum}

-- `eq_ignore_ascii_case`
abbrev pub lower : ℕ → ℕ
lower c = if leb 65 c && leb c 90 then c + 32 else c

unfoldable pub eq_ignore_ascii_case : Text → Text → Bool
eq_ignore_ascii_case s t = text_eq (map lower s) (map lower t)

-- `s.strip_suffix(|c| c == 'x' || c == 'X').unwrap_or(s)`
abbrev pub is_x : ℕ → Bool
is_x c = c == 120 || c == 88

unfoldable pub strip_x : Text → Text
strip_x [] = []
strip_x (c ∷ []) = if is_x c then [] else c ∷ []
strip_x (c ∷ d ∷ s) = c ∷ strip_x (d ∷ s)

module _ (float : Float) where
  open float use {
    F64, from_str, of_nat, is_finite, le, from_str-digits, is_finite-of_nat, le-of_nat,
  }

  -- The error is `ParseRateError` with the whole text.
  abbrev pub checked_rate : Text → Option F64 → Result Text (Rate F64)
  checked_rate s none = err s
  checked_rate s (some v) =
      if not (is_finite v) || le v (of_nat 0) then err s else ok (multiplier v)

  unfoldable pub parse : Text → Result Text (Rate F64)
  unfolding eq_ignore_ascii_case strip_x
  parse s =
      if eq_ignore_ascii_case s (bytes "max")
      then ok maximum
      else checked_rate s (from_str (strip_x s))

  strip_x-digits :
      (c : ℕ) (s : Text) → All (λ x. is_digit x ≡ true) (c ∷ s) → strip_x (c ∷ s) ≡ c ∷ s
  unfolding strip_x
  strip_x-digits c [] h = ground (arith, h.0)
  strip_x-digits c (d ∷ s) h = ap (λ t. c ∷ t) (strip_x-digits d s h.1)

  strip_x-append : (c x : ℕ) (s : Text) → is_x x ≡ true → strip_x ((c ∷ s) ++ (x ∷ [])) ≡ c ∷ s
  unfolding strip_x
  strip_x-append c x [] h = rw h refl
  strip_x-append c x (d ∷ s) h = ap (λ t. c ∷ t) (strip_x-append d x s h)

  digit_not_max :
      (c : ℕ) (s : Text) → is_digit c ≡ true → eq_ignore_ascii_case (c ∷ s) (bytes "max") ≡ false
  unfolding eq_ignore_ascii_case
  digit_not_max c s h = ground (arith, h)

  whole_rate :
      (s : Text) (n : ℕ)
      → 0 < n
      → n ≤ 2 ^ 53
      → checked_rate s (some (of_nat n)) ≡ ok (multiplier (of_nat n))
  whole_rate s n h k = rw (is_finite-of_nat n k, le-of_nat n h k) refl

  -- A positive whole number in digits is read as that multiplier, with or without an `x` behind it,
  -- large or small.
  pub parse_whole :
      (c : ℕ) (s : Text) (x : ℕ)
      → All (λ d. is_digit d ≡ true) (c ∷ s)
      → is_x x ≡ true
      → 0 < value_from 0 (c ∷ s)
      → value_from 0 (c ∷ s) ≤ 2 ^ 53
      → (parse (c ∷ s) ≡ ok (multiplier (of_nat (value_from 0 (c ∷ s)))))
        × (parse ((c ∷ s) ++ (x ∷ [])) ≡ ok (multiplier (of_nat (value_from 0 (c ∷ s)))))
  unfolding parse
  parse_whole c s x digits mark positive small =
      let read = from_str-digits c s digits small in
      (
        rw (digit_not_max c s digits.0, strip_x-digits c s digits, read)
            (whole_rate (c ∷ s) _ positive small),
        rw (digit_not_max c (s ++ (x ∷ [])) digits.0, strip_x-append c x s mark, read)
            (whole_rate ((c ∷ s) ++ (x ∷ [])) _ positive small),
      )
