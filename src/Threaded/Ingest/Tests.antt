-- ===== src/Threaded/Ingest/Tests.antt =====
-- Sessions of the blocking client, and instances of its theorems.
use real_time_system_project.Common.{
  ◌≡◌, refl, false, List, [], ◌∷◌, none, some, length, get_elem?, Text, bytes,
}
use real_time_system_project.Backoff.{nth_backoff}
use real_time_system_project.Threaded.Ingest.{
  Line, Attempt, limit_reached, read_stream, run_sse, read_field,
}
use real_time_system_project.Threaded.Ingest.Loop.{run_sse_sleeps}

abbrev line : Text → Line
line text = record { cancel = false; line = some text }

-- A comment, two events, of which the second has two lines, and an event that nothing closes.
abbrev session : List Line
session =
    line (bytes ":ok")
    ∷ line (bytes "data:a")
    ∷ line []
    ∷ line (bytes "data: b")
    ∷ line (bytes "data:  c")
    ∷ line []
    ∷ line (bytes "data: d")
    ∷ []

two_payloads : (read_stream none 0 (some session)).payloads ≡ bytes "a" ∷ bytes "b\nc" ∷ []
unfolding read_stream read_field
two_payloads = refl

-- No connection, a session that breaks, no connection, a session.
abbrev attempts : List Attempt
attempts =
    record { cancel_before = false; response = none; cancel_after = false }
    ∷ record {
      cancel_before = false;
      response =
          some (line (bytes "data:a") ∷ line [] ∷ record { cancel = false; line = none } ∷ []);
      cancel_after = false;
    }
    ∷ record { cancel_before = false; response = none; cancel_after = false }
    ∷ record { cancel_before = false; response = some session; cancel_after = false }
    ∷ []

-- The interval between attempts has grown although the second one delivered, and the clean end of the
-- last session ends the run, which has no limit, as one that has reached it.
ends_as_limit :
    let r = run_sse none attempts in
    (r.outcome ≡ some limit_reached)
    × (r.sleeps ≡ 200_000_000 ∷ 400_000_000 ∷ 800_000_000 ∷ [])
    × (length r.payloads ≡ 3)
unfolding run_sse read_field
ends_as_limit = (refl, refl, refl)

third_sleep : get_elem? (run_sse none attempts).sleeps 2 ≡ some 800_000_000
unfolding run_sse
third_sleep = refl

run_sse_sleeps_example : 800_000_000 ≡ nth_backoff 2
run_sse_sleeps_example = run_sse_sleeps none attempts 2 third_sleep
