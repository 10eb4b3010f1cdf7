-- ===== src/FailSafe/Tests.antt =====
-- Runs of the controller with an exact histogram, and instances of its theorems.
use real_time_system_project.Common.{
  ℕ, ◌+◌, ◌<◌, ◌≡◌, refl, true, false, List, [], ◌∷◌, arith, replicate,
}
use real_time_system_project.Time.{Duration}
use real_time_system_project.Histogram.Sample.{samples}
use real_time_system_project.FailSafe.{
  FailSafeController, new, record_jitter, record_all, tick, is_degraded, run_sync_ticker, p99_ns,
}
use real_time_system_project.FailSafe.Hysteresis.{run, specified, run-specified}
use real_time_system_project.FailSafe.Invariant.{IsValid}
use real_time_system_project.FailSafe.Ticks.{after, readings, is_degraded-specified}
use real_time_system_project.FailSafe.Silence.{silent, silent_recovers, p99_ns-silent}

-- `enters_degraded_after_dwell`: ten seconds with jitter of 5 ms.
abbrev slow_second : List Duration
slow_second = 5_000_000 ∷ 5_000_000 ∷ []

enters_after_dwell :
    (is_degraded samples (after samples (replicate 9 slow_second)) ≡ false)
    × (is_degraded samples (after samples (replicate 10 slow_second)) ≡ true)
unfolding is_degraded after record_all record_jitter tick new
enters_after_dwell = (refl, refl)

-- The loop of the ticker stops at the first `true`, before the tenth tick.
ticker_stops :
    is_degraded samples (
      run_sync_ticker samples
        (new samples)
        ((slow_second, true) ∷ replicate 20 (slow_second, false)))
    ≡ false
unfolding is_degraded run_sync_ticker record_jitter new
ticker_stops = refl

run-specified_example :
    let history : List ℕ = 0 ∷ 2_000_000 ∷ replicate 10 1_600_000 in
    ((run history).degraded ≡ specified history) × ((run history).dwell < 10)
run-specified_example = run-specified (0 ∷ 2_000_000 ∷ replicate 10 1_600_000)

is_degraded-specified_example :
    is_degraded samples (after samples (replicate 10 slow_second))
    ≡ specified (readings samples (replicate 10 slow_second))
is_degraded-specified_example = is_degraded-specified samples (replicate 10 slow_second)

degraded : FailSafeController samples
degraded = after samples (replicate 10 slow_second)

degraded-IsValid : IsValid samples degraded
unfolding degraded after record_all record_jitter tick new
degraded-IsValid = omega arith

degraded_mode : is_degraded samples degraded ≡ true
unfolding degraded is_degraded after record_all record_jitter tick new
degraded_mode = refl

silent_recovers_example : is_degraded samples (silent samples 14 degraded) ≡ false
silent_recovers_example = silent_recovers samples 14 degraded-IsValid (omega arith)

p99_ns-silent_example : p99_ns samples (silent samples (5 + 2) degraded).rolling ≡ 0
p99_ns-silent_example = p99_ns-silent samples 2 degraded-IsValid
