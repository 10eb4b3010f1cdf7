-- ===== src/FailSafe/Ticks.antt =====
-- The whole controller against the specification of the automaton.
use real_time_system_project.Common.{ℕ, ◌≡◌, refl, ap, ◌∙◌, List, [], ◌∷◌}
use real_time_system_project.Time.{Duration}
use real_time_system_project.Histogram.{Histogram}
use real_time_system_project.FailSafe.{
  Mode, evaluate, FailSafeController, new, record_jitter, record_all, tick, p99_ns, is_degraded,
}
use real_time_system_project.FailSafe.Hysteresis.{run, specified, run-specified}

module _ (hist : Histogram) where
  -- A new controller after some seconds, the newest first: the jitter recorded in each, then a tick.
  unfoldable pub after : List (List Duration) → FailSafeController hist
  after [] = new hist
  after (jitter ∷ seconds) = tick hist (record_all hist (after seconds) jitter)

  -- the 99th percentile that each tick reads, the newest first
  unfoldable pub readings : List (List Duration) → List ℕ
  readings [] = []
  readings (jitter ∷ seconds) = p99_ns hist (after (jitter ∷ seconds)).rolling ∷ readings seconds

  record_all-mode :
      (c : FailSafeController hist) (js : List Duration) → (record_all hist c js).mode ≡ c.mode
  unfolding record_all record_jitter
  record_all-mode c [] = refl
  record_all-mode c (j ∷ js) = record_all-mode (record_jitter hist c j) js

  mode-after : (seconds : List (List Duration)) → (after seconds).mode ≡ run (readings seconds)
  unfolding after readings tick run new
  mode-after [] = refl
  mode-after (jitter ∷ seconds) =
      ap (λ m. evaluate m (p99_ns hist (after (jitter ∷ seconds)).rolling))
        (record_all-mode (after seconds) jitter ∙ mode-after seconds)

  -- After any seconds of recorded jitter, the controller is degraded exactly when the specification is for
  -- the percentiles that its ticks have read: a change needs ten readings in a row against the mode.
  pub is_degraded-specified :
      (seconds : List (List Duration))
      → is_degraded hist (after seconds) ≡ specified (readings seconds)
  unfolding is_degraded
  is_degraded-specified seconds =
      ap (λ (m : Mode). m.degraded) (mode-after seconds) ∙ (run-specified (readings seconds)).0
