-- ===== src/Replay/Recording.antt =====
-- `record` of crates/rts-replay/src/record.rs as a whole: the output file is set up, the client runs beside the
-- writer, and the writer is joined. The timer and Ctrl-C only cancel the client, as its sessions say.
pub mod Captures
mod Tests
use real_time_system_project.Common.{
  ℕ, suc, List, [], ◌∷◌, Option, none, some, Text, Result, ok, err,
}
use real_time_system_project.Time.{Duration}
use real_time_system_project.Async.Ingest.{IngestOutcome, Session, run_sse}
use real_time_system_project.Replay.{RecordedEvent}
use real_time_system_project.Replay.Recorder.{
  Envelopes, RecordError, io, returned, recorded, Written, write_events, finish,
}

-- What the file system says to each operation: its error, if there is one. A write is given by its number.
pub record Disk (I : Type 0) : Type 0 where
  pub create_dir_all : Text → Option I
  pub create : Option I
  pub write_all : ℕ → Option I
  pub flush : Option I

-- How a recording ends, and what it has written to the file that it created.
pub record Recording (I G : Type 0) : Type 0 where
  pub file : Option Text
  pub result : Result (RecordError I G) ℕ

module _ {I : Type 0} (disk : Disk I) where
  -- The directory of the output, if the path has one, which is empty for a bare name.
  abbrev pub create_parent : Option Text → Option I
  create_parent none = none
  create_parent (some []) = none
  create_parent (some (c ∷ dir)) = disk.create_dir_all (c ∷ dir)

  abbrev pub or_create : Option I → Option I
  or_create (some e) = some e
  or_create none = disk.create

  -- The events with the error of the write of each.
  abbrev pub with_writes : ℕ → List RecordedEvent → List (RecordedEvent × Option I)
  with_writes i [] = []
  with_writes i (e ∷ es) = (e, disk.write_all i) ∷ with_writes (suc i) es

-- What the client delivers and how it ends, or the error of building it; `none` while it runs.
module _ {G : Type 0} where
  abbrev pub delivered : (ℕ → Duration) → Result G (List Session) → List RecordedEvent
  delivered elapsed (err g) = []
  delivered elapsed (ok sessions) = recorded elapsed sessions

  abbrev pub ended_with : Option IngestOutcome → Option (Result G IngestOutcome)
  ended_with none = none
  ended_with (some outcome) = some (ok outcome)

  abbrev pub client_outcome : Result G (List Session) → Option (Result G IngestOutcome)
  client_outcome (err g) = some (err g)
  client_outcome (ok sessions) = ended_with (run_sse none sessions).outcome

module _ {I G E : Type 0} (serde : Envelopes E) (disk : Disk I) where
  abbrev pub joined : Written I → Option (Result G IngestOutcome) → Option (Recording I G)
  joined w none = none
  joined w (some outcome) =
      some (record { file = some w.file; result = finish (returned w.result) outcome })

  abbrev pub past_set_up :
      (ℕ → Duration) → Result G (List Session) → Option I → Option (Recording I G)
  past_set_up elapsed client (some e) = some (record { file = none; result = err (io e) })
  past_set_up elapsed client none =
      joined (write_events serde 0 (with_writes disk 0 (delivered elapsed client)) disk.flush)
        (client_outcome client)

  unfoldable pub capture :
      Option Text → (ℕ → Duration) → Result G (List Session) → Option (Recording I G)
  capture parent elapsed client =
      past_set_up elapsed client (or_create disk (create_parent disk parent))
