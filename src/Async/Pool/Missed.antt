-- ===== src/Async/Pool/Missed.antt =====
-- What the board that is printed at the end can miss: `run` does not wait for its workers before it asks
-- for the snapshot, and a worker that has taken a task sends its update later.
use real_time_system_project.Common.{
  ℕ, ◌≤◌, ◌≡◌, refl, ap, sym, ◌∙◌, true, List, [], ◌∷◌, ◌++◌, map, Text, Result, ltb, length, All,
  arith, length-replicate,
}
use real_time_system_project.Event.{Event, CowCounts}
use real_time_system_project.Histogram.{Histogram}
use real_time_system_project.Leaderboard.{LbCmd, update, snapshot, Counts, sort_desc}
use real_time_system_project.Leaderboard
use real_time_system_project.Leaderboard.Snapshots.{board, run-append, map-append}
use real_time_system_project.Workers.{looking, in_flight}
use real_time_system_project.Async.Scheduler.{channel_capacity}
use real_time_system_project.Async.System as AsyncSystem
use real_time_system_project.Async.System.{System, Step, after_recv}
use real_time_system_project.Async.Pool.{Pool, Move, ask, start, step, run}
use real_time_system_project.Async.Pool.Updates.{
  IsQuiet, sent_names, board_ahead, replies_ahead, ask_replied, run-Follows,
}
use real_time_system_project.Async.Pool.Winding.{run-Winds, run_crew, in_flight-le}

module _ (hist : Histogram) {E : Type 0} (from_str : Text → Result E Event) where
  asked :
      (p : Pool hist)
      → ltb (length p.base.channel) channel_capacity ≡ true
      → step hist from_str p ask
        ≡ record p { base = record p.base { channel = p.base.channel ++ (snapshot ∷ []) } }
  unfolding step
  asked p room = rw room refl

  record Asks (p : Pool hist) (after : List Move) : Type 0 where
    replies :
        replies_ahead hist (run hist from_str (step hist from_str p ask) after)
        ≡ replies_ahead hist p ++ (sort_desc (board_ahead hist p) ∷ [])
    board :
        board_ahead hist (run hist from_str (step hist from_str p ask) after)
        ≡ (Leaderboard.run
            (board_ahead hist p)
            (map update (sent_names hist from_str (step hist from_str p ask) after))).1
    few : length (sent_names hist from_str (step hist from_str p ask) after) ≤ in_flight p.workers

  asks :
      (p : Pool hist) (after : List Move)
      → All IsQuiet after
      → p.base.cancelled ≡ true
      → ltb (length p.base.channel) channel_capacity ≡ true
      → Asks p after
  asks p after k c room =
      let e = asked p room in
      let (same_board, one_reply) = ask_replied hist p in
      let rest = run-Follows hist from_str after (step hist from_str p ask) k in
      let winds =
        run-Winds hist from_str after (step hist from_str p ask) k
          (ap (λ (q : Pool hist). q.base.cancelled) e ∙ c) in
      record {
        replies = rest.replies ∙ ap (replies_ahead hist) e ∙ one_reply;
        board =
            rest.board
            ∙ ap
                (λ b.
                  (Leaderboard.run b
                    (map update (sent_names hist from_str (step hist from_str p ask) after))).1)
                (ap (board_ahead hist) e ∙ same_board);
        few = omega (arith, winds.few, ap (λ (q : Pool hist). in_flight q.workers) e);
      }

  -- When `run` has cancelled its workers and sends the snapshot to a channel with room, the reply counts
  -- exactly the updates that were sent before. Those that are sent later, by workers that were in the
  -- middle of a task, are on no reply; they are no more than there are workers.
  pub few_updates_missed :
      (capacity workers now : ℕ) (counts : CowCounts) (before after : List Move)
      → let s = start hist capacity workers now counts in
        let p = run hist from_str s before in
        All IsQuiet before
        → All IsQuiet after
        → p.base.cancelled ≡ true
        → ltb (length p.base.channel) channel_capacity ≡ true
        → let missed = sent_names hist from_str (step hist from_str p ask) after in
          let q = run hist from_str (step hist from_str p ask) after in
          (replies_ahead hist q ≡ board (map update (sent_names hist from_str s before)) ∷ [])
          × (board_ahead hist q
              ≡ (Leaderboard.run [] (map update (sent_names hist from_str s before ++ missed))).1)
          × (length missed ≤ workers)
  unfolding start AsyncSystem.start Leaderboard.run
  few_updates_missed capacity workers now counts before after h k c room =
      let s = start hist capacity workers now counts in
      let p = run hist from_str s before in
      let names = sent_names hist from_str s before in
      let missed = sent_names hist from_str (step hist from_str p ask) after in
      let first = run-Follows hist from_str before s h in
      let final = asks p after k c room in
      (
        final.replies
            ∙ ap (λ rs. rs ++ (sort_desc (board_ahead hist p) ∷ [])) first.replies
            ∙ ap (λ b. sort_desc b ∷ []) first.board,
        final.board
            ∙ ap (λ b. (Leaderboard.run b (map update missed)).1) first.board
            ∙ sym (run-append (map update names) (map update missed) [])
            ∙ ap (λ cmds. (Leaderboard.run [] cmds).1) (sym (map-append names missed)),
        omega (
          arith,
          final.few,
          in_flight-le p.workers,
          run_crew hist from_str before s,
          length-replicate workers looking,
        ),
      )
