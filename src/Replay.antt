-- ===== src/Replay.antt =====
-- crates/rts-replay/src/play.rs: a recorded fixture, served again as a stream of events.
pub mod Fixture
pub mod Cycle
pub mod Roundtrip
pub mod Recorder
pub mod Recording
pub mod Server
pub mod ParseRate
mod Tests
use real_time_system_project.Common.{
  ℕ, zero, suc, ◌+◌, ◌-◌, Bool, List, [], ◌∷◌, ◌++◌, Option, none, some, if◌then◌else◌, ltb, leb,
  ◌==◌, true, false, length, get_elem?, Text, bytes, Result, ok, err,
}
use real_time_system_project.Time.{Instant}

pub record RecordedEvent : Type 0 where
  pub recv_ns : ℕ
  pub payload : Text

-- `I` is `std::io::Error`, `E` is `serde_json::Error`.
pub data PlayError (I E : Type 0) : Type 0 where
  io : I → PlayError I E
  empty : PlayError I E
  bad_envelope : ℕ → E → PlayError I E

-- The `serde_json::from_str` of an envelope is an argument, and so is `line.trim().is_empty()`, which
-- knows the white space of Unicode.
module _ {I E : Type 0} (from_str : Text → Result E RecordedEvent) (is_blank : Text → Bool) where
  unless_empty : List RecordedEvent → Result (PlayError I E) (List RecordedEvent)
  unless_empty [] = err empty
  unless_empty (e ∷ es) = ok (e ∷ es)

  -- The loop, on the number of lines read, the events so far, and what `next_line` yields.
  unfoldable pub load_lines :
      ℕ → List RecordedEvent → List (Result I Text) → Result (PlayError I E) (List RecordedEvent)
  unfolding unless_empty
  load_lines line_no out [] = unless_empty out
  load_lines line_no out (err e ∷ lines) = err (io e)
  load_lines line_no out (ok line ∷ lines) = elim (is_blank line) [
    | true ↦ load_lines (suc line_no) out lines
    | false ↦ elim (from_str line) [
      | err e ↦ err (bad_envelope (suc line_no) e)
      | ok event ↦ load_lines (suc line_no) (out ++ (event ∷ [])) lines
    ]
  ]

  -- The argument is what opening the file yields.
  unfoldable pub load_fixture :
      Result I (List (Result I Text)) → Result (PlayError I E) (List RecordedEvent)
  unfolding load_lines
  load_fixture (err e) = err (io e)
  load_fixture (ok lines) = load_lines 0 [] lines

-- `F` is the type of the finite positive `f64`.
pub data Rate (F : Type 0) : Type 0 where
  multiplier : F → Rate F
  maximum : Rate F

-- The frame of a payload.
unfoldable pub sse_frame : Text → Text
sse_frame payload = bytes "event: message\n" ++ (bytes "data: " ++ (payload ++ bytes "\n\n"))

-- The quotient of a `u64` by a multiplier, in `f64` and back, is an argument.
module _ {F : Type 0} (divide : ℕ → F → ℕ) where
  pub record ReplayState : Type 0 where
    pub events : List RecordedEvent
    pub idx : ℕ
    pub rate : Rate F
    pub loop_start : Instant
    pub loop_offset_ns : ℕ

  first_recv_ns : List RecordedEvent → ℕ
  first_recv_ns [] = 0
  first_recv_ns (e ∷ es) = e.recv_ns

  unfoldable pub init : List RecordedEvent → Rate F → Instant → ReplayState
  unfolding first_recv_ns
  init events rate now = record {
    events = events;
    idx = 0;
    rate = rate;
    loop_start = now;
    loop_offset_ns = first_recv_ns events;
  }

  scaled_ns : Rate F → ℕ → ℕ
  scaled_ns maximum offset_ns = 0
  scaled_ns (multiplier m) offset_ns = divide offset_ns m

  -- The instant until which a call sleeps, if it does, and the frame.
  pub record Emission : Type 0 where
    pub sleep_until : Option Instant
    pub frame : Text

  -- A call of the closure: the stream ends, an index is out of bounds, or a frame is sent.
  pub data Next : Type 0 where
    ended panicked : Next
    sent : Emission → ReplayState → Next

  restart : ReplayState → Instant → ReplayState
  unfolding first_recv_ns
  restart s now =
      if leb (length s.events) s.idx
      then record s { idx = 0; loop_start = now; loop_offset_ns = first_recv_ns s.events }
      else s

  send : ReplayState → Instant → Option RecordedEvent → Next
  unfolding scaled_ns
  send s now none = panicked
  send s now (some evt) =
      let target = s.loop_start + scaled_ns s.rate (evt.recv_ns - s.loop_offset_ns) in
      sent
        (record {
          sleep_until = if ltb now target then some target else none;
          frame = sse_frame evt.payload;
        })
        (record s { idx = suc s.idx })

  -- The instants are the readings of the clock for `loop_start` and for `now`.
  unfoldable pub next : ReplayState → Instant → Instant → Next
  unfolding restart send
  next s restarted now =
      if length s.events == 0
      then ended
      else (let s' = restart s restarted in send s' now (get_elem? s'.events s'.idx))

  -- The frames of the calls at the given readings of the clock, up to an end of the stream.
  unfoldable pub frames : ReplayState → List (Instant × Instant) → List Text
  unfolding next
  frames s [] = []
  frames s ((restarted, now) ∷ clock) = elim (next s restarted now) [
    | ended ↦ []
    | panicked ↦ []
    | sent e s' ↦ e.frame ∷ frames s' clock
  ]
