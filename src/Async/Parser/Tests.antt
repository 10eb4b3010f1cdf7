-- ===== src/Async/Parser/Tests.antt =====
-- Payloads of a human and of bots, and instances of the theorems on the parser.
use real_time_system_project.Common.{
  ℕ, zero, suc, ◌≡◌, refl, Bool, true, false, List, [], ◌∷◌, Text, bytes, Result, ok, err,
}
use real_time_system_project.Event.{Event, borrowed}
use real_time_system_project.Ring.{new, push, push_all}
use real_time_system_project.Watchdog.{touch}
use real_time_system_project.Event.{parse_one}
use real_time_system_project.Admission.{Clock, admit}
use real_time_system_project.Async.Parser.{LaneState, dispatch_all}
use real_time_system_project.Async.Parser.Lanes.{human_tasks, bot_tasks, dispatch_all_lanes}

-- A payload is refused, or its first byte tells whether a bot made the edit.
abbrev pub from_payload : Text → Result Text Event
from_payload [] = err (bytes "eof")
from_payload (zero ∷ line) =
    ok (record { user = borrowed line; bot = false; server_name = borrowed line })
from_payload (suc c ∷ line) =
    ok (record { user = borrowed line; bot = true; server_name = borrowed line })

abbrev pub at : ℕ → Clock
at t = record { touched_ns = t; enqueued_at = suc t; overflow_ns = suc (suc t) }

-- A human, a bot, an empty payload, a bot in degraded mode, a human in degraded mode.
abbrev calls : List (Bool × Clock × Text)
calls =
    (false, at 10, 0 ∷ 65 ∷ [])
    ∷ (false, at 20, 1 ∷ 66 ∷ [])
    ∷ (false, at 30, [])
    ∷ (true, at 40, 1 ∷ 67 ∷ [])
    ∷ (true, at 50, 0 ∷ 68 ∷ [])
    ∷ []

abbrev idle : LaneState
idle = record {
  hi = new 1;
  lo = new 1;
  shared = record {
    watchdog = record { last_ns = 0 };
    counts = record { borrowed_count = 0; owned_count = 0 };
  };
}

one_overflow :
    let s = dispatch_all from_payload calls idle in
    (s.hi.overflow ≡ 1) × (s.lo.overflow ≡ 0) × (s.shared.watchdog.last_ns ≡ 50)
unfolding dispatch_all admit parse_one push new touch
one_overflow = (refl, refl, refl)

dispatch_all_lanes_example :
    let s = dispatch_all from_payload calls idle in
    (s.hi ≡ push_all (new 1) (human_tasks from_payload calls))
    × (s.lo ≡ push_all (new 1) (bot_tasks from_payload calls))
dispatch_all_lanes_example = dispatch_all_lanes from_payload calls idle
