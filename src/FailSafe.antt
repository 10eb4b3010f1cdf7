-- ===== src/FailSafe.antt =====
-- crates/rts-core/src/failsafe.rs: the window of jitter histograms and the automaton with hysteresis.
pub mod Hysteresis
pub mod Invariant
pub mod Ticks
pub mod Silence
mod Tests
use real_time_system_project.Common.{
  ℕ, zero, suc, ◌+◌, ◌%◌, Bool, true, false, List, [], ◌∷◌, Option, none, some, if◌then◌else◌, ltb,
  leb, ◌==◌, replicate, max, to_u64,
}
use real_time_system_project.Time.{Duration}
use real_time_system_project.Histogram.{Histogram}

abbrev pub enter_ns : ℕ
enter_ns = 1_500_000

abbrev pub recover_ns : ℕ
recover_ns = 800_000

abbrev pub dwell_ticks : ℕ
dwell_ticks = 10

abbrev pub ring_len : ℕ
ring_len = 5

-- `let _ = …`: an `Err` is dropped and the value stays as it was.
abbrev pub or_keep {ℓ} : {A : Type ℓ} → A → Option A → A
or_keep old none = old
or_keep old (some new) = new

-- A write through an index, `buckets[idx]`. Out of range the source panics; `FailSafe.Silence` shows
-- that the index stays in range.
abbrev pub modify {ℓ} : {A : Type ℓ} → List A → ℕ → (A → A) → List A
modify [] i f = []
modify (x ∷ xs) zero f = f x ∷ xs
modify (x ∷ xs) (suc i) f = x ∷ modify xs i f

-- The automaton of `tick`: the mode and the `u8` counter.
pub record Mode : Type 0 where
  pub degraded : Bool
  pub dwell : ℕ

-- The last part of both branches: count one more tick, and change the mode if it is the last.
count_tick : Mode → Mode
count_tick m =
    let dwell : ℕ = (m.dwell + 1) % 256 in
    if leb dwell_ticks dwell
    then record { degraded = elim m.degraded [ true ↦ false | false ↦ true ]; dwell = 0 }
    else record m { dwell = dwell }

unfoldable pub evaluate : Mode → ℕ → Mode
unfolding count_tick
evaluate m p99 =
    if m.degraded
    then (if ltb p99 recover_ns then count_tick m else record m { dwell = 0 })
    else (if ltb enter_ns p99 then count_tick m else record m { dwell = 0 })

module _ (hist : Histogram) where
  open hist use {Hist, new as new_hist, record_value, reset, add, len, value_at_quantile}

  pub record RollingHistogram : Type 0 where
    pub buckets : List Hist
    pub idx : ℕ

  pub record FailSafeController : Type 0 where
    pub rolling : RollingHistogram
    pub mode : Mode

  unfoldable pub new : FailSafeController
  new = record {
    rolling = record { buckets = replicate ring_len new_hist; idx = 0 };
    mode = record { degraded = false; dwell = 0 };
  }

  unfoldable pub record_ns : RollingHistogram → ℕ → RollingHistogram
  record_ns r ns = record r {
    buckets = modify r.buckets r.idx (λ h. or_keep h (record_value h (max ns 1)));
  }

  unfoldable pub advance : RollingHistogram → RollingHistogram
  advance r =
      let next : ℕ = (r.idx + 1) % ring_len in
      record { buckets = modify r.buckets next reset; idx = next }

  -- the loop that merges the buckets into the scratch histogram
  abbrev pub merge_all : Hist → List Hist → Hist
  merge_all merged [] = merged
  merge_all merged (b ∷ bs) = merge_all (or_keep merged (add merged b)) bs

  unfoldable pub p99_ns : RollingHistogram → ℕ
  p99_ns r =
      let merged = merge_all new_hist r.buckets in
      if len merged == 0 then 0 else value_at_quantile merged 990

  unfoldable pub record_jitter : FailSafeController → Duration → FailSafeController
  unfolding record_ns
  record_jitter c j = record c { rolling = record_ns c.rolling (max (to_u64 j) 1) }

  unfoldable pub is_degraded : FailSafeController → Bool
  is_degraded c = c.mode.degraded

  unfoldable pub tick : FailSafeController → FailSafeController
  unfolding advance p99_ns evaluate
  tick c =
      let rolling = advance c.rolling in
      record { rolling = rolling; mode = evaluate c.mode (p99_ns rolling) }

  unfoldable pub record_all : FailSafeController → List Duration → FailSafeController
  record_all c [] = c
  record_all c (j ∷ js) = record_all (record_jitter c j) js

  -- `run_sync_ticker`: the jitter recorded in each second of sleep, and `cancel` as it is read after
  -- it. The loop ends at the first `true`.
  unfoldable pub run_sync_ticker :
      FailSafeController → List (List Duration × Bool) → FailSafeController
  unfolding record_all tick
  run_sync_ticker c [] = c
  run_sync_ticker c ((jitter, cancel) ∷ rounds) =
      let c' = record_all c jitter in
      let rest = run_sync_ticker (tick c') rounds in if cancel then c' else rest
