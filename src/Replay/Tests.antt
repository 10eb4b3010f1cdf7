-- ===== src/Replay/Tests.antt =====
-- A small fixture, and instances of the theorems on its replay.
use real_time_system_project.Common.{
  ℕ, zero, suc, ◌/◌, ◌≡◌, refl, true, false, Bool, List, [], ◌∷◌, some, Text, bytes, Result, ok,
  err,
}
use real_time_system_project.Replay.{RecordedEvent, multiplier, next, sse_frame, sent}

-- An envelope is the time in one byte, and the payload.
abbrev from_envelope : Text → Result Text RecordedEvent
from_envelope [] = err (bytes "eof")
from_envelope (zero ∷ line) = err (bytes "time")
from_envelope (suc t ∷ line) = ok (record { recv_ns = t; payload = line })

abbrev is_blank : Text → Bool
is_blank [] = true
is_blank (c ∷ line) = false

abbrev first : RecordedEvent
first = record { recv_ns = 4; payload = bytes "a" }

abbrev second : RecordedEvent
second = record { recv_ns = 9; payload = bytes "b" }

abbrev fixture : List Text
fixture = [] ∷ (5 ∷ bytes "a") ∷ (10 ∷ bytes "b") ∷ []

-- At twice the speed, the second event is due 2 nanoseconds after the start of the loop.
waits_for_second :
    next {F = ℕ}
      (λ n m. n / m)
      (record {
        events = first ∷ second ∷ [];
        idx = 1;
        rate = multiplier 2;
        loop_start = 100;
        loop_offset_ns = 4;
      })
      101
      101
    ≡ sent
        (record { sleep_until = some 102; frame = sse_frame (bytes "b") })
        (record {
          events = first ∷ second ∷ [];
          idx = 2;
          rate = multiplier 2;
          loop_start = 100;
          loop_offset_ns = 4;
        })
unfolding next
waits_for_second = refl
