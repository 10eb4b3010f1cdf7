-- ===== src/Threaded/System/Shutdown.antt =====
-- The end of a run: the workers are joined, and the leaderboard has counted what they have finished.
use real_time_system_project.Workers.{all_ended}
use real_time_system_project.Common.{
  ℕ, ◌%◌, ◌^◌, ◌≤◌, ◌≡◌, refl, ap, sym, ◌∙◌, subst, true, List, [], map, Option, none, some, Text,
  Result,
}
use mathlib.Core.Option.{some_inj}
use real_time_system_project.Event.{Event, CowCounts}
use real_time_system_project.Histogram.{Histogram}
use real_time_system_project.Leaderboard.{LbCmd, update, snapshot, Counts, increment, sort_desc}
use real_time_system_project.Leaderboard
use real_time_system_project.Leaderboard.Counts.{edits, total_of, entries_of}
use real_time_system_project.Leaderboard.Snapshots.{IsDescending, board, board_lem, last_reply-run}
use real_time_system_project.Threaded.Heap.{BinaryHeap}
use real_time_system_project.Threaded.System.Updates.{Ahead, board_ahead, finished_names, run-Ahead}
use real_time_system_project.Threaded.System.{Step, System, start, run, shutdown}

module _ (std : BinaryHeap) (hist : Histogram) where
  shutdown_replies :
      (s : System std hist)
      → all_ended s.workers ≡ true
      → shutdown std hist s ≡ some (sort_desc (board_ahead std hist s))
  unfolding shutdown
  shutdown_replies s h = rw h (last_reply-run s.board s.channel)

  replies :
      (s : System std hist) (names : List Text) (o : Option (System std hist))
      {s' : System std hist}
      → o ≡ some s'
      → all_ended s'.workers ≡ true
      → s.board ≡ []
      → s.channel ≡ []
      → Ahead std hist s names o
      → shutdown std hist s' ≡ some (board (map update names))
  unfolding Ahead Leaderboard.run
  replies s names none e h b c k = cc
  replies s names (some s') e h b c k =
      ap (shutdown std hist) (sym (some_inj.0 e))
      ∙ shutdown_replies s' (subst (λ t. all_ended t.workers ≡ true) (sym (some_inj.0 e)) h)
      ∙ ap (λ m. some (sort_desc m))
          (k ∙ ap (λ m. (Leaderboard.run m (map update names)).1) (rw (b, c) refl))

  module _ {E : Type 0} (from_str : Text → Result E Event) where
    -- Whatever a pipeline does from its start on, once all its workers are joined the leaderboard that it
    -- prints has each wiki once at most, with exactly as many edits as the workers have finished tasks of
    -- it, modulo the width of the counts, in descending order.
    pub shutdown_counts :
        (capacity workers now : ℕ) (counts : CowCounts) (steps : List Step) {s' : System std hist}
        (k : Text)
        → run std hist from_str (start std hist capacity workers now counts) steps ≡ some s'
        → all_ended s'.workers ≡ true
        → (reply : Counts) × (shutdown std hist s' ≡ some reply)
          × (total_of k reply % 2 ^ 64
              ≡ edits k (
                  map update (
                    finished_names std hist from_str
                      (start std hist capacity workers now counts)
                      steps))
                % 2 ^ 64)
          × (entries_of k reply ≤ 1)
          × IsDescending reply
    unfolding start
    shutdown_counts capacity workers now counts steps {s'} k e h =
        let s = start std hist capacity workers now counts in
        let names = finished_names std hist from_str s steps in
        let (count, once, descending) = board_lem (map update names) k in
        (
          board (map update names),
          replies s names (run std hist from_str s steps) e h refl refl
              (run-Ahead std hist from_str steps s),
          count,
          once,
          descending,
        )
