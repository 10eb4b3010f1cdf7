-- ===== src/Backoff.antt =====
-- The reconnect interval of the two clients, crates/rts-async/src/ingest.rs and
-- crates/rts-threaded/src/ingest.rs, before the random factor between 0.8 and 1.2, which is an `f64`.
use native.Mathlib.Nat.{pow-suc}
use real_time_system_project.Common.{ℕ, suc, ◌*◌, ◌^◌, ◌≡◌, min, arith}
use real_time_system_project.Time.{Duration}

-- 200 milliseconds and 30 seconds in nanoseconds.
abbrev pub initial_backoff : Duration
initial_backoff = 200_000_000

abbrev pub max_backoff : Duration
max_backoff = 30_000_000_000

-- `(backoff * 2).min(MAX_BACKOFF)`
abbrev pub double : Duration → Duration
double backoff = min (backoff * 2) max_backoff

-- the schedule in closed form: 200 milliseconds, doubled each time, 30 seconds at most
abbrev pub nth_backoff : ℕ → Duration
nth_backoff k = min (initial_backoff * 2 ^ k) max_backoff

pub double-nth_backoff : (k : ℕ) → double (nth_backoff k) ≡ nth_backoff (suc k)
double-nth_backoff k = omega (arith, pow-suc 2 k)
