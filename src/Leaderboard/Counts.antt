-- ===== src/Leaderboard/Counts.antt =====
-- What the map holds after any commands: one entry for each name, with the number of its updates.
use real_time_system_project.Common.{
  ℕ, ◌+◌, ◌%◌, ◌^◌, ◌≤◌, ◌≡◌, List, [], ◌∷◌, if◌then◌else◌, arith, max, min, Text, text_eq,
  text_eq_iff,
}
use real_time_system_project.Leaderboard.{LbCmd, update, snapshot, Counts, increment, run}

-- how many updates name `k`
abbrev pub edits : Text → List LbCmd → ℕ
edits k [] = 0
edits k (update name ∷ cmds) = (if text_eq name k then 1 else 0) + edits k cmds
edits k (snapshot ∷ cmds) = edits k cmds

-- the sum of the counts of the entries of `k`, and the number of these entries
abbrev pub total_of : Text → Counts → ℕ
total_of k [] = 0
total_of k ((j, v) ∷ m) = (if text_eq j k then v else 0) + total_of k m

abbrev pub entries_of : Text → Counts → ℕ
entries_of k [] = 0
entries_of k ((j, v) ∷ m) = (if text_eq j k then 1 else 0) + entries_of k m

total_of-increment :
    (k name : Text) (m : Counts)
    → total_of k (increment name m) % 2 ^ 64
      ≡ (total_of k m + (if text_eq name k then 1 else 0)) % 2 ^ 64
unfolding increment
total_of-increment k name [] = ground arith
total_of-increment k name ((j, v) ∷ m) =
    ground
      (arith, text_eq_iff j name, text_eq_iff j k, text_eq_iff name k, total_of-increment k name m)

entries_of-increment :
    (k name : Text) (m : Counts)
    → entries_of k (increment name m) ≡ max (entries_of k m) (if text_eq name k then 1 else 0)
unfolding increment
entries_of-increment k name [] = ground arith
entries_of-increment k name ((j, v) ∷ m) =
    ground (
      arith,
      text_eq_iff j name,
      text_eq_iff j k,
      text_eq_iff name k,
      entries_of-increment k name m,
    )

-- Each name stands in the map once at most.
abbrev pub IsMap : Counts → Type 0
IsMap m = (k : Text) → entries_of k m ≤ 1

pub run-IsMap : (m : Counts) (cmds : List LbCmd) → IsMap m → IsMap (run m cmds).1
unfolding run
run-IsMap m [] h = h
run-IsMap m (update name ∷ cmds) h =
    run-IsMap (increment name m) cmds (λ k. ground (arith, entries_of-increment k name m, h k))
run-IsMap m (snapshot ∷ cmds) h = run-IsMap m cmds h

-- After any commands the count of each name has grown by the number of its updates, modulo its width.
pub total_of-run :
    (k : Text) (m : Counts) (cmds : List LbCmd)
    → total_of k (run m cmds).1 % 2 ^ 64 ≡ (total_of k m + edits k cmds) % 2 ^ 64
unfolding run
total_of-run k m [] = omega arith
total_of-run k m (update name ∷ cmds) =
    omega (arith, total_of-run k (increment name m) cmds, total_of-increment k name m)
total_of-run k m (snapshot ∷ cmds) = total_of-run k m cmds

-- A name that has been updated has an entry.
pub entries_of-run :
    (k : Text) (m : Counts) (cmds : List LbCmd)
    → (min 1 (edits k cmds) ≤ entries_of k (run m cmds).1)
      × (min 1 (entries_of k m) ≤ entries_of k (run m cmds).1)
unfolding run
entries_of-run k m [] = omega arith
entries_of-run k m (update name ∷ cmds) =
    ground (arith, entries_of-run k (increment name m) cmds, entries_of-increment k name m)
entries_of-run k m (snapshot ∷ cmds) = entries_of-run k m cmds
