-- ===== src/Cli/Duration.antt =====
-- `parse_duration` of crates/rts-cli/src/main.rs.
pub mod Reads
pub mod Accepts
pub mod Whole
use real_time_system_project.Common.{
  ℕ, ◌+◌, ◌*◌, ◌^◌, Bool, true, false, not, ◌||◌, List, [], ◌∷◌, ◌++◌, Option, none, some, Text,
  bytes, text_eq, Result, ok, err, if◌then◌else◌, map,
}
use mathlib.Core.Option
use real_time_system_project.Time.{Duration}
use real_time_system_project.Float.{Float, is_numeral}

-- `raw.split_at(unit_start)`, at the first character that is no digit and no full stop. Such a character
-- is a byte of its own or starts one, so that the bytes before it are the characters before it.
abbrev pub split_unit : Text → Text × Text
split_unit [] = ([], [])
split_unit (c ∷ s) =
    let (num, unit) = split_unit s in if is_numeral c then (c ∷ num, unit) else ([], c ∷ s)

module _ (float : Float) where
  open float use {F64, from_str, of_nat, mul, div, is_finite, lt, from_secs_f64}

  -- `none` is an unknown unit.
  unfoldable pub in_seconds : F64 → Text → Option F64
  in_seconds value unit =
      if text_eq unit [] || text_eq unit (bytes "s")
      then some value
      else if text_eq unit (bytes "ms")
      then some (div value (of_nat 1000))
      else if text_eq unit (bytes "m")
      then some (mul value (of_nat 60))
      else if text_eq unit (bytes "h")
      then some (mul value (of_nat 3600))
      else none

  abbrev pub invalid_duration : Text → Text
  invalid_duration raw = bytes "invalid duration: " ++ raw

  abbrev pub unknown_unit : Text → Text
  unknown_unit other = bytes "unknown duration unit: " ++ other

  -- From the number of seconds on; `none` is the panic of `Duration::from_secs_f64`.
  unfoldable pub checked_seconds : Text → F64 → Option (Result Text Duration)
  checked_seconds raw secs =
      if not (is_finite secs) || lt secs (of_nat 0)
      then some (err (invalid_duration raw))
      else mathlib.Core.Option.map ok (from_secs_f64 secs)

  abbrev pub with_seconds : Text → Text → Option F64 → Option (Result Text Duration)
  with_seconds raw unit none = some (err (unknown_unit unit))
  with_seconds raw unit (some secs) = checked_seconds raw secs

  abbrev pub scaled_by_unit : Text → Text → Option F64 → Option (Result Text Duration)
  scaled_by_unit raw unit none = some (err (invalid_duration raw))
  scaled_by_unit raw unit (some value) = with_seconds raw unit (in_seconds value unit)

  abbrev pub with_number : Text → Text → Text → Option (Result Text Duration)
  with_number raw [] unit = some (err (invalid_duration raw))
  with_number raw (c ∷ num) unit = scaled_by_unit raw unit (from_str (c ∷ num))

  unfoldable pub parse_duration : Text → Option (Result Text Duration)
  unfolding in_seconds checked_seconds
  parse_duration raw = let (num, unit) = split_unit raw in with_number raw num unit
