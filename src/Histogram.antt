-- ===== src/Histogram.antt =====
-- What the crates use of `hdrhistogram::Histogram<u64>`, which is not in the repository: every one of
-- them is made by `new_with_bounds(1, 60_000_000_000, 3)`. The laws state its documentation: the
-- total count saturates, values in the bounds are recordable, histograms of one shape can be added.
pub mod Sample
use real_time_system_project.Common.{ℕ, ◌+◌, ◌≤◌, ◌≡◌, Option, some, min, u64_max}

-- 60 seconds in nanoseconds.
abbrev pub max_value : ℕ
max_value = 60_000_000_000

-- A quantile is given in thousandths. `none` is the `Err` of `record` and `add`, which the source drops.
pub record Histogram : Type 1 where
  pub Hist : Type 0
  pub new : Hist
  pub record_value : Hist → ℕ → Option Hist
  pub reset : Hist → Hist
  pub add : Hist → Hist → Option Hist
  pub len : Hist → ℕ
  pub value_at_quantile : Hist → ℕ → ℕ
  pub len-new : len new ≡ 0
  pub len-reset : (h : Hist) → len (reset h) ≡ 0
  pub record_value_in_range :
      (h : Hist) (v : ℕ)
      → 1 ≤ v
      → v ≤ max_value
      → (h' : Hist) × (record_value h v ≡ some h') × (len h' ≡ min (len h + 1) u64_max)
  pub add_lem :
      (a b : Hist) → (c : Hist) × (add a b ≡ some c) × (len c ≡ min (len a + len b) u64_max)
