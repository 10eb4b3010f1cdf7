-- ===== src/Watchdog/Tests.antt =====
-- Runs of the watchdog, and instances of its theorems.
use real_time_system_project.Common.{◌++◌, ℕ, ◌≡◌, refl, false, List, [], ◌∷◌}
use real_time_system_project.Watchdog.{WatchdogState, Round, run_sync_checker, is_stale, touch}
use real_time_system_project.Watchdog.Stall.{run_sync_checker_warns}

abbrev started : WatchdogState
started = record { last_ns = 7 }

abbrev quiet : ℕ → Round
quiet now = record { touches = []; cancel = false; now = now }

abbrev stall : List Round
stall = quiet 5_000_000_000 ∷ quiet 10_000_000_007 ∷ quiet 10_000_000_008 ∷ []

-- A heartbeat ends the warnings, until it is old itself.
abbrev beaten : Round
beaten = record {
  touches = 20_000_000_000 ∷ 21_000_000_000 ∷ [];
  cancel = false;
  now = 31_000_000_000;
}

two_warnings :
    run_sync_checker started (stall ++ (beaten ∷ quiet 31_000_000_001 ∷ []))
    ≡ 10_000_000_008 ∷ 31_000_000_001 ∷ []
unfolding run_sync_checker is_stale touch
two_warnings = refl

run_sync_checker_warns_example :
    run_sync_checker started ((stall ++ (beaten ∷ [])) ++ (quiet 31_000_000_001 ∷ []))
    ≡ run_sync_checker started (stall ++ (beaten ∷ [])) ++ (31_000_000_001 ∷ [])
run_sync_checker_warns_example =
    run_sync_checker_warns started (stall ++ (beaten ∷ [])) (quiet 31_000_000_001)
