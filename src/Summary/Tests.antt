-- ===== src/Summary/Tests.antt =====
-- The summary of a run with edits of four wikis.
use real_time_system_project.Common.{ℕ, ◌≡◌, refl, List, [], ◌∷◌, ◌++◌, none, some, bytes, ok, err}
use real_time_system_project.Decimal.{decimal, right_aligned}
use real_time_system_project.Event.{borrowed_percent}
use real_time_system_project.Leaderboard.{Counts, LbCmd, update, increment, sort_desc}
use real_time_system_project.Leaderboard
use real_time_system_project.Leaderboard.Snapshots.{board}
use real_time_system_project.Summary.{top_wikis, column, cow_line, dump_lines}

abbrev commands : List LbCmd
commands =
    update (bytes "en")
    ∷ update (bytes "de")
    ∷ update (bytes "en")
    ∷ update (bytes "fr")
    ∷ update (bytes "de")
    ∷ update (bytes "fr")
    ∷ update (bytes "en")
    ∷ update (bytes "it")
    ∷ []

three_lines :
    top_wikis (some (board commands))
    ≡ (bytes "  1. en " ++ (226 ∷ 128 ∷ 148 ∷ bytes " 3 edits"))
      ∷ (bytes "  2. de " ++ (226 ∷ 128 ∷ 148 ∷ bytes " 2 edits"))
      ∷ (bytes "  3. fr " ++ (226 ∷ 128 ∷ 148 ∷ bytes " 2 edits"))
      ∷ []
unfolding top_wikis Leaderboard.run increment sort_desc decimal
three_lines = refl

other_lines :
    (top_wikis none ≡ bytes "  (no data)" ∷ [])
    × (column 42 ≡ bytes "        42")
    × (cow_line (record { borrowed_count = 3; owned_count = 1 })
        ≡ bytes "Cow stats: borrowed=3  owned=1  (75% borrowed)")
    × (dump_lines {E = ℕ} {U = ℕ} {V = ℕ} (bytes "a.csv") (bytes "a.hgrm") (err 5) (ok 0)
        ≡ (bytes "Metrics HGRM: a.hgrm" ∷ [], 5 ∷ []))
unfolding top_wikis right_aligned decimal cow_line borrowed_percent dump_lines
other_lines = (refl, refl, refl, refl)
