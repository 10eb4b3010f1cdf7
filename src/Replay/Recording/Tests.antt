-- ===== src/Replay/Recording/Tests.antt =====
-- The recording of two events, on a sound file system and on one whose second write fails.
use real_time_system_project.Common.{
  length, inl, inr, err, ℕ, ◌<◌, ◌≡◌, refl, ap, length, [], ◌∷◌, none, some, bytes, Text, ok, err,
  map, arith, if◌then◌else◌, ◌==◌,
}
use real_time_system_project.Async.Ingest.{run_sse, IngestOutcome}
use real_time_system_project.Replay.{load_fixture}
use real_time_system_project.Replay.Roundtrip.{split_lines}
use real_time_system_project.Replay.Recorder.{io, recorded}
use real_time_system_project.Replay.Recorder.Tests.{
  serde, elapsed, sessions, first, second, two_recorded,
}
use real_time_system_project.Replay.Recording.{ended_with, Disk, capture, delivered}
use real_time_system_project.Replay.Recording.Captures.{
  IsSound, FirstError, capture_loads, capture_reports,
}

abbrev sound_disk : Disk Text
sound_disk = record {
  create_dir_all = λ dir. none;
  create = none;
  write_all = λ i. none;
  flush = none;
}

sound_disk-IsSound : IsSound serde sound_disk
sound_disk-IsSound = record { dirs = λ dir. refl; create = refl; writes = λ i. refl; flush = refl }

-- The disk is full after one write.
abbrev full_disk : Disk Text
full_disk = record sound_disk { write_all = λ i. if i == 1 then some (bytes "full") else none }

cancelled_at_end : (run_sse none sessions).outcome ≡ some IngestOutcome.cancelled
unfolding run_sse
cancelled_at_end = refl

capture_loads_example :
    (file : Text) × (capture {G = Text} serde sound_disk (some (bytes "data")) elapsed (ok sessions)
      ≡ some (record { file = some file; result = ok 2 }))
    × (load_fixture {I = Text} serde.from_str serde.is_blank (ok (map ok (split_lines file)))
        ≡ ok (first ∷ second ∷ []))
capture_loads_example =
    capture_loads serde sound_disk (some (bytes "data")) elapsed sessions first (second ∷ [])
      sound_disk-IsSound cancelled_at_end two_recorded (omega arith)

-- A write of two events fails on the full disk.
fails_second :
    FirstError serde full_disk (length (delivered {G = Text} elapsed (ok sessions))) (bytes "full")
unfolding recorded run_sse
fails_second = inl (1, omega arith, (below, refl))
  where
    below : (i : ℕ) → i < 1 → full_disk.write_all i ≡ none
    below i h = ground arith

full_disk_reported :
    (file : Text) × (capture {G = Text} serde full_disk none elapsed (ok sessions)
      ≡ some (record { file = some file; result = err (io (bytes "full")) }))
full_disk_reported =
    capture_reports serde full_disk none elapsed (ok sessions) refl (ap ended_with cancelled_at_end)
      fails_second

-- A client that could not be built, and a flush that fails.
abbrev lost_disk : Disk Text
lost_disk = record sound_disk { flush = some (bytes "lost") }

capture_reports_example :
    (file : Text) × (capture {G = Text} serde lost_disk none elapsed (err (bytes "tls"))
      ≡ some (record { file = some file; result = err (io (bytes "lost")) }))
capture_reports_example =
    capture_reports serde lost_disk none elapsed (err (bytes "tls")) refl refl
      (inr (λ i h. refl, refl))
