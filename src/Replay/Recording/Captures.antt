-- ===== src/Replay/Recording/Captures.antt =====
-- What a recording leaves, and what it reports.
use real_time_system_project.Common.{
  ◌⊎◌, inl, inr, ℕ, suc, ◌+◌, ◌≤◌, ◌≡◌, refl, ap, ◌∙◌, List, [], ◌∷◌, Option, none, some, Text,
  Result, ok, err, map, length, arith, u64_max, saturating_suc, ◌<◌, ◌≢◌,
}
use native.Mathlib.Decide.{ℕ_discrete}
use real_time_system_project.Time.{Duration}
use real_time_system_project.Async.Ingest.{IngestOutcome, Session, run_sse}
use real_time_system_project.Replay.{RecordedEvent, load_fixture}
use real_time_system_project.Replay.Roundtrip.{split_lines}
use real_time_system_project.Replay.Recorder.{
  Envelopes, io, returned, recorded, write_events, finish,
}
use real_time_system_project.Replay.Recorder.Loads.{sound_writes, recorded_loads}
use real_time_system_project.Replay.Recording.{
  Disk, create_parent, or_create, with_writes, client_outcome, delivered, joined, past_set_up,
  capture,
}

module _ {I E : Type 0} (serde : Envelopes E) (disk : Disk I) where
  -- Every operation of the file system succeeds.
  pub record IsSound : Type 0 where
    pub dirs : (dir : Text) → disk.create_dir_all dir ≡ none
    pub create : disk.create ≡ none
    pub writes : (i : ℕ) → disk.write_all i ≡ none
    pub flush : disk.flush ≡ none

  set_up : (parent : Option Text) → IsSound → or_create disk (create_parent disk parent) ≡ none
  set_up none v = v.create
  set_up (some []) v = v.create
  set_up (some (c ∷ dir)) v = ap (or_create disk) (v.dirs (c ∷ dir)) ∙ v.create

  all_written :
      (es : List RecordedEvent) (i : ℕ) → IsSound → with_writes disk i es ≡ sound_writes I serde es
  all_written [] i v = refl
  all_written (e ∷ es) i v = pair (v.writes i) (all_written es (suc i) v)
    where
      pair :
          {o : Option I} {xs ys : List (RecordedEvent × Option I)}
          → o ≡ none
          → xs ≡ ys
          → (e, o) ∷ xs ≡ (e, none) ∷ ys
      pair p q = cc

  -- On a file system without errors, with a directory to create or without one, and a client that runs to its
  -- end and delivers from one event to as many as a `u64` counts: the recorder returns the number of the
  -- events, and the file that it has written is loaded by the replay server as these events, in order.
  pub capture_loads :
      (parent : Option Text) (elapsed : ℕ → Duration) (sessions : List Session) {G : Type 0}
      {outcome : IngestOutcome} (e : RecordedEvent) (es : List RecordedEvent)
      → IsSound
      → (run_sse none sessions).outcome ≡ some outcome
      → recorded elapsed sessions ≡ e ∷ es
      → length (e ∷ es) ≤ u64_max
      → (file : Text) × (capture {G = G} serde disk parent elapsed (ok sessions)
          ≡ some (record { file = some file; result = ok (length (e ∷ es)) }))
        × (load_fixture {I = I} serde.from_str serde.is_blank (ok (map ok (split_lines file)))
            ≡ ok (e ∷ es))
  unfolding capture
  capture_loads parent elapsed sessions {G} {outcome} e es v ends h few =
      let events = recorded elapsed sessions in
      let w = write_events serde 0 (sound_writes I serde events) none in
      let (loads, counts) = recorded_loads I serde {G = G} elapsed sessions outcome e es h few in
      (
        w.file,
        ap (past_set_up serde disk elapsed (ok sessions)) (set_up parent v)
            ∙ rw (all_written events 0 v, v.flush, ends)
                (ap (λ r. some (record { file = some w.file; result = r })) counts),
        loads,
      )

  -- The first write that fails, of an event with the number `n` from `i` on.
  abbrev pub FailsAt : ℕ → I → Type 0
  FailsAt n x = ((i : ℕ) → i < n → disk.write_all i ≡ none) × (disk.write_all n ≡ some x)

  write_fails :
      (es : List RecordedEvent) (i n count : ℕ) {x : I}
      → FailsAt n x
      → i ≤ n
      → n < i + length es
      → (write_events serde count (with_writes disk i es) disk.flush).result ≡ err x
  unfolding write_events
  write_fails [] i n count fails h l = absurd (omega (arith, h, l))
  write_fails (e ∷ es) i n count fails h l = elim (ℕ_discrete i n) [
    | yes same ↦ rw (same, fails.1) refl
    | no differ ↦ rw (fails.0 i (lt_of_le h differ)) (
        write_fails es (suc i) n (saturating_suc count) fails (lt_of_le h differ)
          (omega (arith, l)))
  ]
    where
      lt_of_le : {i n : ℕ} → i ≤ n → i ≢ n → i < n
      lt_of_le p q = grind arith

  flush_fails :
      (es : List RecordedEvent) (i count : ℕ) {x : I}
      → ((j : ℕ) → j < i + length es → disk.write_all j ≡ none)
      → disk.flush ≡ some x
      → (write_events serde count (with_writes disk i es) disk.flush).result ≡ err x
  unfolding write_events
  flush_fails [] i count sound h = rw h refl
  flush_fails (e ∷ es) i count sound h =
      rw (sound i (omega arith))
        (flush_fails es (suc i) (saturating_suc count) (λ j l. sound j (omega (arith, l))) h)

  -- What the writer of so many events meets first: a write that fails, or else a flush that fails.
  abbrev pub FirstError : ℕ → I → Type 0
  FirstError len x =
      ((n : ℕ) × (n < len) × FailsAt n x)
      ⊎ (((i : ℕ) → i < len → disk.write_all i ≡ none) × (disk.flush ≡ some x))

  first_error :
      (es : List RecordedEvent) {x : I}
      → FirstError (length es) x
      → (write_events serde 0 (with_writes disk 0 es) disk.flush).result ≡ err x
  first_error es (inl (n, h, fails)) = write_fails es 0 n 0 fails (omega arith) (omega (arith, h))
  first_error es (inr (sound, h)) = flush_fails es 0 0 (λ j l. sound j (omega (arith, l))) h

  -- If the file can be created and the client ends, with an outcome or because it could not be built, the first
  -- error of the writer, of a write of one of the delivered events or else of the flush, is what the recorder
  -- reports, ahead of the error of the client.
  pub capture_reports :
      (parent : Option Text) (elapsed : ℕ → Duration) {G : Type 0}
      (client : Result G (List Session)) {outcome : Result G IngestOutcome} {x : I}
      → or_create disk (create_parent disk parent) ≡ none
      → client_outcome client ≡ some outcome
      → FirstError (length (delivered elapsed client)) x
      → (file : Text) × (capture serde disk parent elapsed client
          ≡ some (record { file = some file; result = err (io x) }))
  unfolding capture finish
  capture_reports parent elapsed client {outcome} {x} created ends fails =
      let w = write_events serde 0 (with_writes disk 0 (delivered elapsed client)) disk.flush in
      (
        w.file,
        ap (past_set_up serde disk elapsed client) created
            ∙ ap (joined serde disk w) ends
            ∙ ap (λ r. some (record { file = some w.file; result = finish (returned r) outcome }))
                (first_error (delivered elapsed client) fails),
      )
