-- ===== src/Replay/Recorder.antt =====
-- crates/rts-replay/src/record.rs: what the async client delivers, written as the lines of a fixture.
pub mod Loads
pub mod Tests
use real_time_system_project.Common.{
  ℕ, zero, suc, ◌≡◌, Bool, false, List, [], ◌∷◌, ◌++◌, Option, none, some, Text, Result, ok, err,
  All, saturating_suc, to_u64,
}
use real_time_system_project.Time.{Duration}
use real_time_system_project.Async.Ingest.{IngestOutcome, Session, run_sse}
use real_time_system_project.Replay.{RecordedEvent}
use real_time_system_project.Replay.Roundtrip.{IsPlain}

-- What the recorder and the loader use of serde_json, with `line.trim().is_empty()`: an envelope is
-- written on one line, which is not blank and is read back as it was.
pub record Envelopes (E : Type 0) : Type 0 where
  pub to_vec : RecordedEvent → Text
  pub from_str : Text → Result E RecordedEvent
  pub is_blank : Text → Bool
  pub one_line : (e : RecordedEvent) → All IsPlain (to_vec e)
  pub not_blank : (e : RecordedEvent) → is_blank (to_vec e) ≡ false
  pub read_back : (e : RecordedEvent) → from_str (to_vec e) ≡ ok e

-- `I` is `std::io::Error`, `G` is `IngestError`.
pub data RecordError (I G : Type 0) : Type 0 where
  io : I → RecordError I G
  ingest : G → RecordError I G
  writer_panic : RecordError I G

-- What the writer task ends with.
pub data Joined (I : Type 0) : Type 0 where
  returned : Result I ℕ → Joined I
  panicked : Joined I

-- The sink: each payload with the time since the start, as the clock gives it for the payload's number.
unfoldable pub stamp : (ℕ → Duration) → ℕ → List Text → List RecordedEvent
stamp elapsed i [] = []
stamp elapsed i (payload ∷ payloads) =
    record { recv_ns = to_u64 (elapsed i); payload = payload } ∷ stamp elapsed (suc i) payloads

-- The events of a recording; it has no limit.
unfoldable pub recorded : (ℕ → Duration) → List Session → List RecordedEvent
unfolding stamp
recorded elapsed sessions = stamp elapsed 0 (run_sse none sessions).payloads

-- What the writer returns, and the bytes that it wrote.
pub record Written (I : Type 0) : Type 0 where
  pub result : Result I ℕ
  pub file : Text

module _ {I E : Type 0} (serde : Envelopes E) where
  flushed : Option I → ℕ → Result I ℕ
  flushed none count = ok count
  flushed (some e) count = err e

  -- The writer task, over the events with the error of each write, if there is one, and that of the flush.
  unfoldable pub write_events : ℕ → List (RecordedEvent × Option I) → Option I → Written I
  unfolding flushed
  write_events count [] flush = record { result = flushed flush count; file = [] }
  write_events count ((event, some e) ∷ events) flush = record { result = err e; file = [] }
  write_events count ((event, none) ∷ events) flush =
      let rest = write_events (saturating_suc count) events flush in
      record rest { file = (serde.to_vec event ++ (10 ∷ [])) ++ rest.file }

-- The end of `record`: the writer's errors come before those of the client.
unfoldable pub finish :
    {I G : Type 0} → Joined I → Result G IngestOutcome → Result (RecordError I G) ℕ
finish (returned (err e)) outcome = err (io e)
finish panicked outcome = err writer_panic
finish (returned (ok count)) (err g) = err (ingest g)
finish (returned (ok count)) (ok outcome) = ok count
