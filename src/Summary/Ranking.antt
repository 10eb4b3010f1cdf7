-- ===== src/Summary/Ranking.antt =====
-- Which wikis are printed.
use real_time_system_project.Common.{◌≤◌, All}
use real_time_system_project.Leaderboard.{Counts}

-- No entry of the second list has more edits than one of the first.
abbrev pub IsAbove : Counts → Counts → Type 0
IsAbove above below = All (λ e. All (λ x. x.1 ≤ e.1) below) above
