-- ===== src/FailSafe/Invariant.antt =====
-- The shape of the window: five buckets and an index among them, and a counter below its limit.
use real_time_system_project.Common.{
  ℕ, zero, suc, ◌<◌, ◌≡◌, refl, ap, ◌∙◌, List, [], ◌∷◌, arith, length,
}
use real_time_system_project.Time.{Duration}
use real_time_system_project.Histogram.{Histogram}
use real_time_system_project.FailSafe.{
  Mode, evaluate, modify, ring_len, dwell_ticks, FailSafeController, new, record_jitter, record_all,
  tick,
}

pub length-modify {ℓ} :
    {A : Type ℓ} (xs : List A) (i : ℕ) (f : A → A) → length (modify xs i f) ≡ length xs
length-modify [] i f = refl
length-modify (x ∷ xs) zero f = refl
length-modify (x ∷ xs) (suc i) f = ap suc (length-modify xs i f)

evaluate-below : (m : Mode) (p : ℕ) → m.dwell < dwell_ticks → (evaluate m p).dwell < dwell_ticks
unfolding evaluate
evaluate-below m p h = ground arith

module _ (hist : Histogram) where
  -- Every access of the window is in range, and the `u8` counter does not wrap.
  pub record IsValid (c : FailSafeController hist) : Type 0 where
    pub buckets : length c.rolling.buckets ≡ ring_len
    pub index : c.rolling.idx < ring_len
    pub counter : c.mode.dwell < dwell_ticks

  pub new-IsValid : IsValid (new hist)
  unfolding new
  new-IsValid = omega arith

  pub record_jitter-IsValid :
      {c : FailSafeController hist} (j : Duration) → IsValid c → IsValid (record_jitter hist c j)
  unfolding record_jitter
  record_jitter-IsValid {c} j v = record {
    buckets = length-modify c.rolling.buckets c.rolling.idx _ ∙ v.buckets;
    index = v.index;
    counter = v.counter;
  }

  pub record_all-IsValid :
      {c : FailSafeController hist} (js : List Duration)
      → IsValid c
      → IsValid (record_all hist c js)
  unfolding record_all
  record_all-IsValid [] v = v
  record_all-IsValid {c} (j ∷ js) v =
      record_all-IsValid {c = record_jitter hist c j} js (record_jitter-IsValid j v)

  -- A tick keeps the five buckets, the index among them and the counter below ten.
  pub tick-IsValid : {c : FailSafeController hist} → IsValid c → IsValid (tick hist c)
  unfolding tick
  tick-IsValid {c} v = record {
    buckets = length-modify c.rolling.buckets _ _ ∙ v.buckets;
    index = omega arith;
    counter = evaluate-below c.mode _ v.counter;
  }
