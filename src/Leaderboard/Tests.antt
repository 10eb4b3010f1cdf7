-- ===== src/Leaderboard/Tests.antt =====
-- A run of the leaderboard, and instances of its theorems.
use real_time_system_project.Common.{
  get_elem?, some, ◌%◌, ◌^◌, ◌≤◌, ◌≡◌, refl, List, [], ◌∷◌, ◌++◌, bytes,
}
use real_time_system_project.Leaderboard.{
  Counts, LbCmd, update, snapshot, increment, sort_desc, run,
}
use real_time_system_project.Leaderboard.Counts.{edits, total_of, entries_of}
use real_time_system_project.Leaderboard.Snapshots.{IsDescending, run_replies}

abbrev commands : List LbCmd
commands =
    update (bytes "fr")
    ∷ update (bytes "en")
    ∷ snapshot
    ∷ update (bytes "de")
    ∷ update (bytes "en")
    ∷ []

two_snapshots :
    (run [] (commands ++ (snapshot ∷ []))).0
    ≡ ((bytes "fr", 1) ∷ (bytes "en", 1) ∷ [])
      ∷ ((bytes "en", 2) ∷ (bytes "fr", 1) ∷ (bytes "de", 1) ∷ [])
      ∷ []
unfolding run increment sort_desc
two_snapshots = refl

run_replies_example :
    let k = bytes "en" in
    (reply : Counts) × (get_elem? (run [] (commands ++ (snapshot ∷ []))).0 1 ≡ some reply)
    × (total_of k reply % 2 ^ 64 ≡ edits k commands % 2 ^ 64)
    × (entries_of k reply ≤ 1)
    × IsDescending reply
run_replies_example = run_replies commands [] (bytes "en")
