-- ===== src/Watchdog.antt =====
-- crates/rts-core/src/watchdog.rs: the heartbeat and the loop that checks it. An argument `now` is
-- what `now_ns` returns at that point.
pub mod Stall
mod Tests
use real_time_system_project.Common.{ℕ, ◌-◌, Bool, true, false, List, [], ◌∷◌, if◌then◌else◌, ltb}

pub record WatchdogState : Type 0 where
  pub last_ns : ℕ

abbrev pub stale_ns : ℕ
stale_ns = 10_000_000_000

unfoldable pub new : ℕ → WatchdogState
new now = record { last_ns = now }

unfoldable pub touch : WatchdogState → ℕ → WatchdogState
touch w now = record w { last_ns = now }

-- `saturating_sub` is the subtraction of ℕ.
unfoldable pub is_stale_ns : WatchdogState → ℕ → ℕ → Bool
is_stale_ns w threshold_ns now = ltb threshold_ns (now - w.last_ns)

unfoldable pub is_stale : WatchdogState → ℕ → Bool
unfolding is_stale_ns
is_stale w now = is_stale_ns w stale_ns now

unfoldable pub reset : WatchdogState → ℕ → WatchdogState
reset w now = record w { last_ns = now }

-- One round of a checker: the heartbeats while it sleeps, then `cancel` and the time as it reads them.
pub record Round : Type 0 where
  pub touches : List ℕ
  pub cancel : Bool
  pub now : ℕ

abbrev pub touch_all : WatchdogState → List ℕ → WatchdogState
touch_all w [] = w
touch_all w (t ∷ ts) = touch_all (touch w t) ts

-- `run_sync_checker`: the times of the warnings. The task of the async pipeline makes the same loop.
unfoldable pub run_sync_checker : WatchdogState → List Round → List ℕ
unfolding is_stale touch
run_sync_checker w [] = []
run_sync_checker w (r ∷ rounds) =
    let w' = touch_all w r.touches in
    let rest = run_sync_checker w' rounds in
    if r.cancel then [] else (if is_stale w' r.now then r.now ∷ rest else rest)
