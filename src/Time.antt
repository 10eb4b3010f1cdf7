-- ===== src/Time.antt =====
-- crates/rts-core/src/time.rs, and the types of `std::time` that the crates share. An `Instant` is a
-- number of nanoseconds on the monotonic clock, a `Duration` a number of nanoseconds. A function
-- that reads the clock takes the instant that it reads as an argument.
use real_time_system_project.Common.{ℕ, ◌-◌, ◌≤◌, Option, none, some, arith, to_u64}

abbrev pub Instant : Type 0
Instant = ℕ

abbrev pub Duration : Type 0
Duration = ℕ

-- `saturating_duration_since`, and `elapsed` of a monotonic clock.
abbrev pub duration_since : Instant → Instant → Duration
duration_since now earlier = now - earlier

-- `START` is set by the first call and never changed. The result is the reading and the new `START`.
unfoldable pub now_ns : Option Instant → Instant → ℕ × Option Instant
now_ns none now = (to_u64 (duration_since now now), some now)
now_ns (some start) now = (to_u64 (duration_since now start), some start)

-- Of two calls in a row on a monotonic clock, the second returns no less than the first.
pub now_ns_monotonic :
    (start : Option Instant) (t u : Instant)
    → t ≤ u
    → let (first, started) = now_ns start t in first ≤ (now_ns started u).0
unfolding now_ns
now_ns_monotonic none t u h = omega arith
now_ns_monotonic (some start) t u h = omega arith
