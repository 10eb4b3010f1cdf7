-- ===== src/Replay/Recorder/Tests.antt =====
-- A small encoding of envelopes, and an instance of the theorem on recordings.
use real_time_system_project.Common.{
  ℕ, ◌+◌, ◌-◌, ◌≡◌, refl, Bool, true, false, List, [], ◌∷◌, Text, bytes, Result, ok, err, All,
  arith,
}
use real_time_system_project.Time.{Duration}
use real_time_system_project.Async.Ingest.{event, opened, Session, run_sse}
use real_time_system_project.Replay.{RecordedEvent}
use real_time_system_project.Replay.Roundtrip.{IsPlain}
use real_time_system_project.Replay.Recorder.{Envelopes, recorded}

-- Every number moved beyond the line ends, the time first.
abbrev shift : Text → Text
shift [] = []
shift (c ∷ s) = (c + 14) ∷ shift s

abbrev unshift : Text → Text
unshift [] = []
unshift (c ∷ s) = (c - 14) ∷ unshift s

abbrev to_vec : RecordedEvent → Text
to_vec e = shift (e.recv_ns ∷ e.payload)

abbrev from_str : Text → Result Text RecordedEvent
from_str [] = err []
from_str (c ∷ s) = ok (record { recv_ns = c - 14; payload = unshift s })

abbrev is_blank : Text → Bool
is_blank [] = true
is_blank (c ∷ s) = false

pub shift-IsPlain : (s : Text) → All IsPlain (shift s)
shift-IsPlain [] = tt
shift-IsPlain (c ∷ s) = (((λ e. omega (arith, e)), (λ e. omega (arith, e))), shift-IsPlain s)

unshift-shift : (s : Text) → unshift (shift s) ≡ s
unshift-shift [] = refl
unshift-shift (c ∷ s) = grind (arith, unshift-shift s)

pub from_str-to_vec : (e : RecordedEvent) → from_str (to_vec e) ≡ ok e
from_str-to_vec e = ground (arith, unshift-shift e.payload)

abbrev pub serde : Envelopes Text
serde = record {
  to_vec = to_vec;
  from_str = from_str;
  is_blank = is_blank;
  one_line = λ e. shift-IsPlain (e.recv_ns ∷ e.payload);
  not_blank = λ e. refl;
  read_back = from_str-to_vec;
}

-- A stream with two events, after which the token ends the client.
abbrev pub sessions : List Session
sessions =
    record {
      cancel_top = false;
      reply = opened (event (bytes "a") ∷ event (bytes "b") ∷ []);
      cancel_slept = true;
    }
    ∷ []

abbrev pub elapsed : ℕ → Duration
elapsed i = i + 7

abbrev pub first : RecordedEvent
first = record { recv_ns = 7; payload = bytes "a" }

abbrev pub second : RecordedEvent
second = record { recv_ns = 8; payload = bytes "b" }

pub two_recorded : recorded elapsed sessions ≡ first ∷ second ∷ []
unfolding recorded run_sse
two_recorded = refl
