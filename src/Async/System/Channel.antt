-- ===== src/Async/System/Channel.antt =====
-- The board that the leaderboard has once it has taken what is in the channel.
use real_time_system_project.Common.{
  ◌≡◌, refl, ap, sym, ◌∙◌, Bool, true, false, List, [], ◌∷◌, ◌++◌, map, Text, if◌then◌else◌, ltb,
  length,
}
use real_time_system_project.Histogram.{Histogram}
use real_time_system_project.Leaderboard.{LbCmd, update, Counts, sort_desc}
use real_time_system_project.Leaderboard
use real_time_system_project.Leaderboard.Snapshots.{run-append}
use real_time_system_project.Async.Scheduler.{channel_capacity, try_send}
use real_time_system_project.Async.System.{System, after_recv}

module _ (hist : Histogram) where
  -- the board once the actor has taken all that is in the channel
  abbrev pub board_ahead : System hist → Counts
  board_ahead s = (Leaderboard.run s.board s.channel).1

  board_sent :
      (s : System hist) (name : Text) (room : Bool)
      → (Leaderboard.run s.board (if room then s.channel ++ (update name ∷ []) else s.channel)).1
        ≡ (Leaderboard.run (board_ahead s) (map update (if room then name ∷ [] else []))).1
  unfolding Leaderboard.run
  board_sent s name true = run-append s.channel (update name ∷ []) s.board
  board_sent s name false = refl

  pub board_try_send :
      (s : System hist) (name : Text)
      → (Leaderboard.run s.board (try_send s.channel (update name))).1
        ≡ (Leaderboard.run
            (board_ahead s)
            (map update (if ltb (length s.channel) channel_capacity then name ∷ [] else []))).1
  unfolding try_send
  board_try_send s name = board_sent s name (ltb (length s.channel) channel_capacity)

  pub lead_board :
      (s : System hist) (channel : List LbCmd)
      → s.channel ≡ channel
      → board_ahead (after_recv hist s channel) ≡ board_ahead s
  unfolding Leaderboard.run
  lead_board s [] h = refl
  lead_board s (cmd ∷ channel) h =
      sym (ap (λ c. (Leaderboard.run s.board c).1) h ∙ run-append (cmd ∷ []) channel s.board)
