-- ===== src/TailLatency/Samples.antt =====
-- What a move does to the histograms, to the message of the last task and to the workers that have ended.
use real_time_system_project.Common.{
  ℕ, ◌+◌, ◌-◌, ◌%◌, ◌^◌, ◌≤◌, ◌<◌, ◌≡◌, ◌⊎◌, refl, Bool, true, false, ◌||◌, List, [], ◌∷◌, some,
  ◌==◌, length, get_elem?, set, total, total-set, arith, u64_max, inl, inr,
}
use real_time_system_project.Time.{Duration}
use real_time_system_project.Priority.{Priority, human, bot}
use real_time_system_project.Histogram.{Histogram, max_value}
use real_time_system_project.Metrics.{Metrics, record_drift}
use real_time_system_project.Metrics.Counting.{drift_human_add, drift_bot_add, len-keep_sample}
use real_time_system_project.Workers.{is_over, Worker, looking, holding, ended, all_ended}

pub still_awake :
    {c : Bool} (ws : List Worker) (i : ℕ) (w' : Worker) {w : Worker}
    → get_elem? ws i ≡ some w
    → is_over w' ≡ 0
    → (c ≡ true) ⊎ (total is_over ws ≡ 0)
    → (c ≡ true) ⊎ (total is_over (set ws i w') ≡ 0)
still_awake ws i w' h z (inl c) = inl c
still_awake ws i w' h z (inr none_over) =
    inr (omega (arith, none_over, z, total-set is_over ws i w' h))

pub all_ended-false :
    (ws : List Worker) → 0 < length ws → total is_over ws ≡ 0 → all_ended ws ≡ false
all_ended-false [] h z = absurd (omega (arith, h))
all_ended-false (looking ∷ ws) h z = refl
all_ended-false (holding t ∷ ws) h z = refl
all_ended-false (ended ∷ ws) h z = absurd (omega (arith, z))

-- Only the last task sends the message.
pub signals :
    (d c : Bool) (r : ℕ)
    → (d || c) ≡ (r == 0)
    → 1 ≤ r
    → r ≤ u64_max
    → ((d || (r == 1)) || c) ≡ (((r + (2 ^ 64 - 1)) % 2 ^ 64) == 0)
signals true c r e h l = absurd (ground (arith, e))
signals false true r e h l = absurd (ground (arith, e))
signals false false r e h l = ground arith

module _ (hist : Histogram) where
  open hist use {len}

  -- A drift in range is one more sample of its class.
  pub record Sampled (m m' : Metrics hist) (p : Priority) : Type 0 where
    pub human :
        len m.drift_human + drift_human_add p ≤ u64_max
        → len m'.drift_human ≡ len m.drift_human + drift_human_add p
    pub bot :
        len m.drift_bot + drift_bot_add p ≤ u64_max
        → len m'.drift_bot ≡ len m.drift_bot + drift_bot_add p
    pub jitter : m'.jitter ≡ m.jitter
    pub class : drift_human_add p + drift_bot_add p ≡ 1

  pub samples :
      (m : Metrics hist) (p : Priority) (d : Duration)
      → d ≤ max_value
      → Sampled m (record_drift hist m p d) p
  unfolding record_drift
  samples m human d r = record {
    human = λ few. omega (arith, few, len-keep_sample hist m.drift_human d r);
    bot = λ few. omega arith;
    jitter = refl;
    class = refl;
  }
  samples m bot d r = record {
    human = λ few. omega arith;
    bot = λ few. omega (arith, few, len-keep_sample hist m.drift_bot d r);
    jitter = refl;
    class = refl;
  }
