-- ===== src/Leaderboard.antt =====
-- crates/rts-async/src/leaderboard.rs and crates/rts-threaded/src/leaderboard.rs: the actor that counts
-- edits, the same in both crates but for the type of its channels. The hash map is an association list
-- without repeated keys; a snapshot is sorted, and the order of equal counts is the one of the list.
pub mod Counts
pub mod Snapshots
mod Tests
use real_time_system_project.Common.{
  ℕ, ◌+◌, Bool, List, [], ◌∷◌, if◌then◌else◌, leb, Option, none, some, Text, text_eq, wrapping_suc,
}

-- A `Snapshot` carries the channel for its reply: the replies are the output of `run`, in order.
pub data LbCmd : Type 0 where
  update : Text → LbCmd
  snapshot : LbCmd

abbrev pub Counts : Type 0
Counts = List (Text × ℕ)

-- `*counts.entry(name).or_insert(0) += 1`
unfoldable pub increment : Text → Counts → Counts
increment name [] = (name, 1) ∷ []
increment name ((k, v) ∷ m) =
    if text_eq k name then (k, wrapping_suc v) ∷ m else (k, v) ∷ increment name m

insert_desc : Text × ℕ → Counts → Counts
insert_desc e [] = e ∷ []
insert_desc e (x ∷ xs) = if leb x.1 e.1 then e ∷ x ∷ xs else x ∷ insert_desc e xs

-- `sort_unstable_by_key(|b| Reverse(b.1))`
unfoldable pub sort_desc : Counts → Counts
unfolding insert_desc
sort_desc [] = []
sort_desc (e ∷ m) = insert_desc e (sort_desc m)

-- The loop, over all the commands received until every sender is dropped: the replies and the map.
unfoldable pub run : Counts → List LbCmd → List Counts × Counts
run m [] = ([], m)
run m (update name ∷ cmds) = run (increment name m) cmds
run m (snapshot ∷ cmds) = let (replies, m') = run m cmds in (sort_desc m ∷ replies, m')

abbrev pub last_reply : List Counts → Option Counts
last_reply [] = none
last_reply (r ∷ []) = some r
last_reply (r ∷ q ∷ rs) = last_reply (q ∷ rs)
