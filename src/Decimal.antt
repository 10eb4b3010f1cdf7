-- ===== src/Decimal.antt =====
-- Unsigned numbers in decimal, as `{}` prints them in every line that the crates write, and a column
-- of fixed width, `{:>10}`.
pub mod Value
use real_time_system_project.Common.{
  ℕ, zero, suc, ◌+◌, ◌-◌, ◌*◌, ◌/◌, ◌%◌, Bool, true, false, ◌&&◌, List, [], ◌∷◌, ◌++◌, Text, ltb,
  leb, length, replicate,
}

abbrev pub is_digit : ℕ → Bool
is_digit c = leb 48 c && leb c 57

-- The number that some digits stand for, behind others that stand for `n`.
abbrev pub value_from : ℕ → Text → ℕ
value_from n [] = n
value_from n (c ∷ s) = value_from (n * 10 + (c - 48)) s

-- On fuel: a number greater than `n` is enough for the digits of `n`.
unfoldable pub decimal_from : ℕ → ℕ → Text
decimal_from zero n = []
decimal_from (suc fuel) n = elim (ltb n 10) [
  | true ↦ (48 + n) ∷ []
  | false ↦ decimal_from fuel (n / 10) ++ ((48 + n % 10) ∷ [])
]

unfoldable pub decimal : ℕ → Text
unfolding decimal_from
decimal n = decimal_from (suc n) n

-- `{:>10}`
unfoldable pub right_aligned : ℕ → Text → Text
right_aligned width s = replicate (width - length s) 32 ++ s
