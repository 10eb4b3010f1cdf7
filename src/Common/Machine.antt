-- ===== src/Common/Machine.antt =====
-- Machine integers as plain numbers, with what the source's arithmetic does at the ends written out.
use Prim.Native.Nat.{ℕ, ◌+◌, ◌-◌, ◌%◌, ◌^◌, ◌≤◌, min}
use native.Mathlib.Omega.{arith}

abbrev pub u64_max : ℕ
u64_max = 2 ^ 64 - 1

-- `fetch_add(1)` on an `AtomicU64`, and `+= 1` on a `u64` of a release build.
abbrev pub wrapping_suc : ℕ → ℕ
wrapping_suc n = (n + 1) % 2 ^ 64

-- `saturating_add(1)` on a `usize`.
abbrev pub saturating_suc : ℕ → ℕ
saturating_suc n = min (n + 1) u64_max

-- `u64::try_from(n).unwrap_or(u64::MAX)` of a `u128`.
abbrev pub to_u64 : ℕ → ℕ
to_u64 n = min n u64_max

pub to_u64-le : (n : ℕ) → to_u64 n ≤ u64_max
to_u64-le n = omega arith
