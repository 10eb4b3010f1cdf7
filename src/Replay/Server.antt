-- ===== src/Replay/Server.antt =====
-- `serve` and `stream_handler` of crates/rts-replay/src/play.rs. What the listener yields and how axum's
-- server ends are arguments.
pub mod Played
mod Tests
use real_time_system_project.Common.{
  ℕ, Bool, List, [], ◌∷◌, ◌++◌, Option, none, some, Text, bytes, Result, ok, err,
}
use real_time_system_project.Time.{Instant}
use real_time_system_project.Replay.{RecordedEvent, PlayError, io, load_fixture, Rate, init, frames}

pub record AppState (F : Type 0) : Type 0 where
  pub events : List RecordedEvent
  pub rate : Rate F

abbrev pub route : Text
route = bytes "/v2/stream/recentchange"

abbrev pub stream_headers : List (Text × Text)
stream_headers =
    (bytes "content-type", bytes "text/event-stream")
    ∷ (bytes "cache-control", bytes "no-cache")
    ∷ (bytes "x-accel-buffering", bytes "no")
    ∷ []

-- The body is a stream, which reads the clock when it is made and at each call.
pub record Response : Type 0 where
  pub status : ℕ
  pub headers : List (Text × Text)
  pub body : Instant → List (Instant × Instant) → List Text

module _ {F : Type 0} (divide : ℕ → F → ℕ) where
  unfoldable pub stream_handler : AppState F → Response
  stream_handler state = record {
    status = 200;
    headers = stream_headers;
    body = λ now clock. frames divide (init divide state.events state.rate now) clock;
  }

-- tokio's listener, and axum's server up to the cancellation.
pub record Network (I F : Type 0) : Type 1 where
  pub Address : Type 0
  pub Listener : Type 0
  pub bind : Address → Result I Listener
  pub local_addr : Listener → Result I Address
  pub axum_serve : Listener → AppState F → Result I Unit

module _ {I E F : Type 0} (net : Network I F) (from_str : Text → Result E RecordedEvent)
    (is_blank : Text → Bool) where
  open net use {Address, Listener, bind, local_addr, axum_serve}

  -- What `serve` has bound and served, and how it ends.
  pub record Outcome : Type 0 where
    pub bound : Option Address
    pub served : Option (AppState F)
    pub result : Result (PlayError I E) Unit

  abbrev pub shut_down : Address → AppState F → Result I Unit → Outcome
  shut_down addr state (err e) = record {
    bound = some addr;
    served = some state;
    result = err (io e);
  }
  shut_down addr state (ok u) = record { bound = some addr; served = some state; result = ok tt }

  abbrev pub with_local : Address → AppState F → Listener → Result I Address → Outcome
  with_local addr state listener (err e) = record {
    bound = some addr;
    served = none;
    result = err (io e);
  }
  with_local addr state listener (ok local) = shut_down addr state (axum_serve listener state)

  abbrev pub with_listener : Address → AppState F → Result I Listener → Outcome
  with_listener addr state (err e) = record { bound = none; served = none; result = err (io e) }
  with_listener addr state (ok listener) = with_local addr state listener (local_addr listener)

  abbrev pub with_events : Address → Rate F → Result (PlayError I E) (List RecordedEvent) → Outcome
  with_events addr rate (err e) = record { bound = none; served = none; result = err e }
  with_events addr rate (ok events) =
      with_listener addr (record { events = events; rate = rate }) (bind addr)

  -- The fixture is what opening the file yields.
  unfoldable pub serve : Result I (List (Result I Text)) → Rate F → Address → Outcome
  serve fixture rate addr = with_events addr rate (load_fixture from_str is_blank fixture)
