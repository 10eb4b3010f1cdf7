-- ===== src/FailSafe/Silence.antt =====
-- What the controller does when no more jitter is recorded.
use real_time_system_project.Common.{
  ℕ, zero, suc, ◌+◌, ◌≤◌, ◌<◌, ◌≡◌, refl, ap, subst, ◌-◌, List, [], ◌∷◌, false, arith, length, All,
  ◌⊎◌, inr,
}
use native.Mathlib.Nat.{add-suc}
use real_time_system_project.Histogram.{Histogram}
use real_time_system_project.FailSafe.{
  Mode, evaluate, modify, or_keep, ring_len, dwell_ticks, FailSafeController, RollingHistogram,
  advance, merge_all, tick, p99_ns, is_degraded,
}
use real_time_system_project.FailSafe.Invariant.{IsValid, tick-IsValid}

module _ (hist : Histogram) where
  open hist use {Hist, new as new_hist, reset, add, len, len-new, len-reset, add_lem}

  abbrev IsEmpty : Hist → Type 0
  IsEmpty h = len h ≡ 0

  -- ticks with nothing recorded between them
  unfoldable pub silent : ℕ → FailSafeController hist → FailSafeController hist
  silent zero c = c
  silent (suc n) c = tick hist (silent n c)

  silent-IsValid :
      (n : ℕ) {c : FailSafeController hist} → IsValid hist c → IsValid hist (silent n c)
  unfolding silent
  silent-IsValid zero v = v
  silent-IsValid (suc n) v = tick-IsValid hist (silent-IsValid n v)

  or_keep-IsEmpty : (a b : Hist) → IsEmpty a → IsEmpty b → IsEmpty (or_keep a (add a b))
  or_keep-IsEmpty a b ha hb = let (c, e, l) = add_lem a b in rw e (omega (arith, l))

  merge_all-IsEmpty :
      (m : Hist) (bs : List Hist) → IsEmpty m → All IsEmpty bs → IsEmpty (merge_all hist m bs)
  merge_all-IsEmpty m [] h hs = h
  merge_all-IsEmpty m (b ∷ bs) h hs =
      merge_all-IsEmpty (or_keep m (add m b)) bs (or_keep-IsEmpty m b h hs.0) hs.1

  p99_ns-IsEmpty : (r : RollingHistogram hist) → All IsEmpty r.buckets → p99_ns hist r ≡ 0
  unfolding p99_ns
  p99_ns-IsEmpty r h = rw (merge_all-IsEmpty new_hist r.buckets len-new h)

  All-modify_reset : (bs : List Hist) (i : ℕ) → All IsEmpty bs → All IsEmpty (modify bs i reset)
  All-modify_reset [] i h = tt
  All-modify_reset (b ∷ bs) zero h = (len-reset b, h.1)
  All-modify_reset (b ∷ bs) (suc i) h = (h.0, All-modify_reset bs i h.1)

  abbrev advances : ℕ → RollingHistogram hist → RollingHistogram hist
  advances zero r = r
  advances (suc n) r = advance hist (advances n r)

  rolling-silent :
      (n : ℕ) (c : FailSafeController hist) → (silent n c).rolling ≡ advances n c.rolling
  unfolding silent tick
  rolling-silent zero c = refl
  rolling-silent (suc n) c = ap (advance hist) (rolling-silent n c)

  All-reset :
      (a b c d e : Hist) → All IsEmpty (reset a ∷ reset b ∷ reset c ∷ reset d ∷ reset e ∷ [])
  All-reset a b c d e =
      (len-reset a, (len-reset b, (len-reset c, (len-reset d, (len-reset e, tt)))))

  -- Whatever the index, five advances clear all the buckets.
  five_advances :
      (a b c d e : Hist) (i : ℕ)
      → i < ring_len
      → All IsEmpty (advances 5 (record { buckets = a ∷ b ∷ c ∷ d ∷ e ∷ []; idx = i })).buckets
  unfolding advance
  five_advances a b c d e zero h = All-reset a b c d e
  five_advances a b c d e (suc zero) h = All-reset a b c d e
  five_advances a b c d e (suc (suc zero)) h = All-reset a b c d e
  five_advances a b c d e (suc (suc (suc zero))) h = All-reset a b c d e
  five_advances a b c d e (suc (suc (suc (suc zero)))) h = All-reset a b c d e
  five_advances a b c d e (suc (suc (suc (suc (suc i))))) h = absurd (omega arith)

  cleared_of_length :
      (bs : List Hist) (i : ℕ)
      → length bs ≡ ring_len
      → i < ring_len
      → All IsEmpty (advances 5 (record { buckets = bs; idx = i })).buckets
  cleared_of_length (a ∷ b ∷ c ∷ d ∷ e ∷ []) i l h = five_advances a b c d e i h
  cleared_of_length (a ∷ b ∷ c ∷ d ∷ e ∷ f ∷ bs) i l h = absurd (omega arith)
  cleared_of_length _ i l h = absurd (omega arith)

  advances-IsEmpty :
      (n : ℕ) (r : RollingHistogram hist)
      → length r.buckets ≡ ring_len
      → r.idx < ring_len
      → All IsEmpty (advances (5 + n) r).buckets
  unfolding advance
  advances-IsEmpty zero r l h = cleared_of_length r.buckets r.idx l h
  advances-IsEmpty (suc n) r l h =
      rw add-suc (All-modify_reset (advances (5 + n) r).buckets _ (advances-IsEmpty n r l h))

  -- From the fifth silent tick on, a valid controller reads the percentile of an empty window, 0.
  pub p99_ns-silent :
      (n : ℕ) {c : FailSafeController hist}
      → IsValid hist c
      → p99_ns hist (silent (5 + n) c).rolling ≡ 0
  p99_ns-silent n {c} v =
      rw (rolling-silent (5 + n) c) (
        p99_ns-IsEmpty (advances (5 + n) c.rolling)
          (advances-IsEmpty n c.rolling v.buckets v.index))

  abbrev Nearer : ℕ → Mode → Type 0
  Nearer k m = (m.degraded ≡ false) ⊎ (k ≤ m.dwell)

  mode-silent :
      (n : ℕ) (c : FailSafeController hist)
      → p99_ns hist (silent (suc n) c).rolling ≡ 0
      → (silent (suc n) c).mode ≡ evaluate (silent n c).mode 0
  unfolding silent tick
  mode-silent n c e = ap (evaluate (silent n c).mode) e

  evaluate_zero :
      (m : Mode) (k : ℕ)
      → m.dwell < dwell_ticks
      → (m.degraded ≡ false) ⊎ (k ≤ m.dwell)
      → let m' = evaluate m 0 in (m'.degraded ≡ false) ⊎ (k + 1 ≤ m'.dwell)
  unfolding evaluate
  evaluate_zero m k h o = ground arith

  -- After the first four silent ticks, each one brings recovery nearer.
  recovering :
      (k : ℕ) {c : FailSafeController hist} → IsValid hist c → Nearer k (silent (4 + k) c).mode
  unfolding silent tick
  recovering zero v = inr (omega arith)
  recovering (suc k) {c} v =
      let count =
        evaluate_zero (silent (4 + k) c).mode k (silent-IsValid (4 + k) v).counter
          (recovering k v) in
      let zero_read =
        subst (λ n. p99_ns hist (silent n c).rolling ≡ 0) (five k) (p99_ns-silent k v) in
      subst (λ n. Nearer (suc k) (silent n c).mode) (four k)
        (ground (arith, mode-silent (4 + k) c zero_read, count))
    where
      four : (k : ℕ) → suc (4 + k) ≡ 4 + suc k
      four k = omega arith

      five : (k : ℕ) → 5 + k ≡ suc (4 + k)
      five k = omega arith

  -- A valid controller, degraded or not, is in normal mode after fourteen or more silent ticks.
  pub silent_recovers :
      (n : ℕ) {c : FailSafeController hist}
      → IsValid hist c
      → 14 ≤ n
      → is_degraded hist (silent n c) ≡ false
  unfolding is_degraded
  silent_recovers n {c} v h =
      subst (λ k. (silent k c).mode.degraded ≡ false) (split n h)
        (ground (arith, recovering (n - 4) v, (silent-IsValid (4 + (n - 4)) v).counter))
    where
      split : (n : ℕ) → 14 ≤ n → 4 + (n - 4) ≡ n
      split n h = omega arith
