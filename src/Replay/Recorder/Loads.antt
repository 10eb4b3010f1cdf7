-- ===== src/Replay/Recorder/Loads.antt =====
-- A recording is a fixture.
use real_time_system_project.Common.{
  ℕ, ◌+◌, ◌≤◌, ◌≡◌, refl, ap, ◌∙◌, List, [], ◌∷◌, append_assoc, Option, none, ok, All, map, length,
  arith, inr, min, u64_max, saturating_suc,
}
use real_time_system_project.Time.{Duration}
use real_time_system_project.Async.Ingest.{IngestOutcome, Session}
use real_time_system_project.Replay.{RecordedEvent, load_fixture}
use real_time_system_project.Replay.Roundtrip.{split_lines, split_lines-line}
use real_time_system_project.Replay.Fixture.{events_of, IsGood, load_fixture_loads}
use real_time_system_project.Replay.Recorder.{Envelopes, write_events, recorded, returned, finish}

module _ {E : Type 0} (serde : Envelopes E) where
  all-IsGood :
      (es : List RecordedEvent) → All (IsGood serde.from_str serde.is_blank) (map serde.to_vec es)
  all-IsGood [] = tt
  all-IsGood (e ∷ es) = (inr (e, serde.not_blank e, serde.read_back e), all-IsGood es)

  events_of-lines :
      (es : List RecordedEvent) → events_of serde.from_str serde.is_blank (map serde.to_vec es) ≡ es
  events_of-lines [] = refl
  events_of-lines (e ∷ es) =
      rw (serde.not_blank e, serde.read_back e) (ap (λ es. e ∷ es) (events_of-lines es))

module _ (I : Type 0) {E : Type 0} (serde : Envelopes E) where
  -- the writes of a run without errors
  abbrev pub sound_writes : List RecordedEvent → List (RecordedEvent × Option I)
  sound_writes es = map (λ e. (e, none)) es

  split_lines-file :
      (es : List RecordedEvent) (count : ℕ)
      → split_lines (write_events serde count (sound_writes es) none).file ≡ map serde.to_vec es
  unfolding write_events split_lines
  split_lines-file [] count = refl
  split_lines-file (e ∷ es) count =
      let file = (write_events serde (saturating_suc count) (sound_writes es) none).file in
      ap split_lines (append_assoc (serde.to_vec e) (10 ∷ []) file)
      ∙ split_lines-line (serde.to_vec e) file (serde.one_line e)
      ∙ ap (λ ls. serde.to_vec e ∷ ls) (split_lines-file es (saturating_suc count))

  result-write_events :
      (es : List RecordedEvent) (count : ℕ)
      → count ≤ u64_max
      → (write_events serde count (sound_writes es) none).result
        ≡ ok (min (count + length es) u64_max)
  unfolding write_events
  result-write_events [] count h = ap ok (omega arith)
  result-write_events (e ∷ es) count h =
      result-write_events es (saturating_suc count) (omega arith) ∙ ap ok (omega arith)

  -- A recording whose writes and flush succeed is, if it holds from one event to as many as a `u64`
  -- counts, a fixture that the replay server loads as the recorded events, in order; the recorder then
  -- returns their number, if the client has ended without an error.
  pub recorded_loads :
      {G : Type 0} (elapsed : ℕ → Duration) (sessions : List Session) (outcome : IngestOutcome)
      (e : RecordedEvent) (es : List RecordedEvent)
      → recorded elapsed sessions ≡ e ∷ es
      → length (e ∷ es) ≤ u64_max
      → let w = write_events serde 0 (sound_writes (recorded elapsed sessions)) none in
        (load_fixture {I = I} serde.from_str serde.is_blank (ok (map ok (split_lines w.file)))
          ≡ ok (e ∷ es))
        × (finish {G = G} (returned w.result) (ok outcome) ≡ ok (length (e ∷ es)))
  unfolding finish
  recorded_loads elapsed sessions outcome e es h few =
      let events = recorded elapsed sessions in
      (
        ap (λ ls. load_fixture serde.from_str serde.is_blank (ok (map ok ls)))
              (split_lines-file events 0 ∙ ap (map serde.to_vec) h)
            ∙ load_fixture_loads serde.from_str serde.is_blank (map serde.to_vec (e ∷ es)) e es
                (all-IsGood serde (e ∷ es)) (events_of-lines serde (e ∷ es)),
        ap (λ r. finish (returned r) (ok outcome)) (result-write_events events 0 (omega arith))
            ∙ ap ok (omega (arith, few, ap length h)),
      )
