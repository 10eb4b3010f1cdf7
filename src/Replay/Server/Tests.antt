-- ===== src/Replay/Server/Tests.antt =====
-- A recording of two events, served on the address 8 and heard three times.
use real_time_system_project.Common.{
  ℕ, ◌/◌, ◌≡◌, refl, [], ◌∷◌, none, some, false, Text, bytes, ok, map, arith,
}
use real_time_system_project.Threaded.Ingest.{read_stream}
use real_time_system_project.Replay.{maximum}
use real_time_system_project.Replay.Roundtrip.{split_lines, heard}
use real_time_system_project.Replay.Recorder.{write_events, recorded}
use real_time_system_project.Replay.Recorder.Loads.{sound_writes}
use real_time_system_project.Replay.Recorder.Tests.{
  serde, elapsed, sessions, first, second, two_recorded,
}
use real_time_system_project.Replay.Server.{AppState, Network, serve, stream_handler}
use real_time_system_project.Replay.Server.Played.{Serves, concat, recording_is_played}

-- Every address can be bound, and the server ends well.
abbrev network : Network Text ℕ
network = record {
  Address = ℕ;
  Listener = ℕ;
  bind = λ addr. ok addr;
  local_addr = λ listener. ok listener;
  axum_serve = λ listener state. ok tt;
}

abbrev two_events : AppState ℕ
two_events = record { events = first ∷ second ∷ []; rate = maximum }

recording_is_played_example :
    let file =
      (write_events serde 0 (sound_writes Text serde (recorded elapsed sessions)) none).file in
    Serves network serde
      (λ n m. n / m)
      8
      two_events
      (serve network serde.from_str serde.is_blank (ok (map ok (split_lines file))) maximum 8)
    × (read_stream none 0 (
          some (
            map heard (
              split_lines (
                concat (
                  (stream_handler (λ n m. n / m) two_events).body 100
                    ((100, 100) ∷ (101, 101) ∷ (102, 102) ∷ []))))))
        ≡ record { failed = false; payloads = bytes "a" ∷ bytes "b" ∷ bytes "a" ∷ []; count = 3 })
recording_is_played_example =
    recording_is_played network serde (λ n m. n / m) elapsed sessions maximum 8 first (second ∷ [])
      100 ((100, 100) ∷ (101, 101) ∷ (102, 102) ∷ []) two_recorded (omega arith)
      (
        ((((λ e. omega arith), (λ e. omega arith)), tt), refl),
        (((((λ e. omega arith), (λ e. omega arith)), tt), refl), tt),
      )
      refl refl
