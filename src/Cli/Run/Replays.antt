-- ===== src/Cli/Run/Replays.antt =====
-- `replay_record` and `replay_play` of crates/rts-cli/src/main.rs over the recorder and the server of crates/rts-replay.
use real_time_system_project.Common.{
  ℕ, ◌+◌, ◌≡◌, ap, ◌∙◌, false, List, [], ◌∷◌, ◌++◌, Option, none, some, Text, bytes, Result, ok,
  err, All, map, length,
}
use real_time_system_project.Time.{Duration}
use real_time_system_project.Async.Ingest.{Session}
use real_time_system_project.Replay.{PlayError, bad_envelope, Rate}
use real_time_system_project.Replay.Fixture.{IsGood}
use real_time_system_project.Replay.Recorder.{Envelopes, RecordError}
use real_time_system_project.Replay.Recording.{Disk, Recording, capture}
use real_time_system_project.Replay.Server.{Network, Outcome, serve}
use real_time_system_project.Replay.Server.Played.{bad_line_is_not_served}
use real_time_system_project.Cli.Config.{RecordArgs, PlayArgs, play}
use real_time_system_project.Cli.Run.{Services, playing, with_context, main}

-- `([127, 0, 0, 1], args.port)`
abbrev pub loopback : ℕ → List ℕ × ℕ
loopback port = (127 ∷ 0 ∷ 0 ∷ 1 ∷ [], port)

-- The file system's answer to opening a path, and `SocketAddr::from`, are arguments.
module _ {I E F : Type 0} (net : Network I F) (serde : Envelopes E) (divide : ℕ → F → ℕ)
    (open_file : Text → Result I (List (Result I Text))) (socket : List ℕ × ℕ → net.Address) where
  unfoldable pub replay_play : PlayArgs (Rate F) → Result (PlayError I E) Unit
  replay_play args =
      (serve net serde.from_str serde.is_blank (open_file args.fixture) args.rate
        (socket (loopback args.port))).result

  -- The command reports the number of the first bad line of its fixture under the context of the replay.
  pub play_command_reports :
      {G R : Type 0} (services : Services G (PlayError I E) R (Rate F)) (cpus : ℕ)
      (args : PlayArgs (Rate F)) (ls : List Text) (line : Text) (x : E)
      (rest : List (Result I Text))
      → open_file args.fixture ≡ ok (map ok ls ++ (ok line ∷ rest))
      → All (IsGood serde.from_str serde.is_blank) ls
      → serde.is_blank line ≡ false
      → serde.from_str line ≡ err x
      → main (record services { serve_run = replay_play }) cpus (play args)
        ≡ err (record {
          context = bytes "replay play";
          cause = playing (bad_envelope (length ls + 1) x);
        })
  unfolding main replay_play
  play_command_reports services cpus args ls line x rest opened good b bad =
      ap
        (λ fixture.
          with_context (bytes "replay play") playing
            (serve net serde.from_str serde.is_blank fixture args.rate
              (socket (loopback args.port))).result)
        opened
      ∙ ap
          (λ (o : Outcome net serde.from_str serde.is_blank).
            with_context (bytes "replay play") playing o.result)
          (bad_line_is_not_served net serde divide ls line x rest args.rate
            (socket (loopback args.port)) good b bad)

abbrev pub result_of : {I G : Type 0} → Option (Recording I G) → Option (Result (RecordError I G) ℕ)
result_of none = none
result_of (some r) = some r.result

-- `replay_record`, with the directory that the file system finds in the path and what the client does for a
-- URL and a duration: `none` while the client runs.
module _ {I G E : Type 0} (serde : Envelopes E) (disk : Disk I) (parent : Text → Option Text)
    (elapsed : ℕ → Duration) (client : Text → Option Duration → Result G (List Session)) where
  unfoldable pub replay_record : RecordArgs → Option (Result (RecordError I G) ℕ)
  replay_record args =
      result_of
        (capture serde disk (parent args.out) elapsed (client args.url (some args.duration)))
