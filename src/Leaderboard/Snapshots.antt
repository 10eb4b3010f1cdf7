-- ===== src/Leaderboard/Snapshots.antt =====
-- What a snapshot replies.
use native.Mathlib.Nat.{le_trans}
use real_time_system_project.Common.{
  suc, min, length, get_elem?, subst, ℕ, ◌%◌, ◌^◌, ◌≤◌, ◌≡◌, refl, ap, ◌∙◌, map, some, false, List,
  [], ◌∷◌, ◌++◌, arith, Text, leb, leb→le, All, Bool-cases, inl, inr,
}
use real_time_system_project.Leaderboard.{
  LbCmd, update, snapshot, Counts, increment, sort_desc, insert_desc, run, last_reply,
}
use real_time_system_project.Leaderboard.Counts.{
  edits, total_of, entries_of, run-IsMap, total_of-run, entries_of-run,
}

-- No entry stands behind one of a smaller count.
abbrev pub IsDescending : Counts → Type 0
IsDescending [] = Unit {0}
IsDescending (e ∷ m) = All (λ x. x.1 ≤ e.1) m × IsDescending m

pub All-imp :
    {P Q : Text × ℕ → Type 0} (m : Counts) → ((e : Text × ℕ) → P e → Q e) → All P m → All Q m
All-imp [] f h = tt
All-imp (e ∷ m) f h = (f e h.0, All-imp m f h.1)

All-insert_desc :
    (P : Text × ℕ → Type 0) (e : Text × ℕ) (m : Counts) → P e → All P m → All P (insert_desc e m)
unfolding insert_desc
All-insert_desc P e [] p h = (p, tt)
All-insert_desc P e (x ∷ m) p h = elim (Bool-cases (leb x.1 e.1)) [
  | inl first ↦ rw first (p, h)
  | inr after ↦ rw after (h.0, All-insert_desc P e m p h.1)
]

insert_desc-IsDescending :
    (e : Text × ℕ) (m : Counts) → IsDescending m → IsDescending (insert_desc e m)
unfolding insert_desc
insert_desc-IsDescending e [] h = (tt, tt)
insert_desc-IsDescending e (x ∷ m) h = elim (Bool-cases (leb x.1 e.1)) [
  | inl first ↦
      rw first ((leb→le _ _ first, All-imp m (λ y p. le_trans p (leb→le _ _ first)) h.0), h)
  | inr after ↦ rw after (
    All-insert_desc (λ y. y.1 ≤ x.1) e m (le_of_after after) h.0,
    insert_desc-IsDescending e m h.1,
  )
]
  where
    le_of_after : {a b : ℕ} → leb a b ≡ false → b ≤ a
    le_of_after p = ground arith

sort_desc-IsDescending : (m : Counts) → IsDescending (sort_desc m)
unfolding sort_desc
sort_desc-IsDescending [] = tt
sort_desc-IsDescending (e ∷ m) = insert_desc-IsDescending e (sort_desc m) (sort_desc-IsDescending m)

-- Sorting moves the entries and changes none.
insert_desc-measure :
    (k : Text) (e : Text × ℕ) (m : Counts)
    → (total_of k (insert_desc e m) ≡ total_of k (e ∷ m))
      × (entries_of k (insert_desc e m) ≡ entries_of k (e ∷ m))
unfolding insert_desc
insert_desc-measure k e [] = (refl, refl)
insert_desc-measure k e (x ∷ m) = ground (arith, insert_desc-measure k e m)

sort_desc-measure :
    (k : Text) (m : Counts)
    → (total_of k (sort_desc m) ≡ total_of k m) × (entries_of k (sort_desc m) ≡ entries_of k m)
unfolding sort_desc
sort_desc-measure k [] = (refl, refl)
sort_desc-measure k (e ∷ m) =
    omega (arith, insert_desc-measure k e (sort_desc m), sort_desc-measure k m)

-- The reply to a snapshot that follows any commands on a new leaderboard.
abbrev pub board : List LbCmd → Counts
board cmds = sort_desc (run [] cmds).1

-- A snapshot replies with the board of the commands before it, and neither it nor its place changes
-- the replies to the others.
pub run-snapshot :
    (m : Counts) (cmds later : List LbCmd)
    → (run m (cmds ++ (snapshot ∷ later))).0
      ≡ (run m cmds).0 ++ (sort_desc (run m cmds).1 ∷ (run (run m cmds).1 later).0)
unfolding run
run-snapshot m [] later = refl
run-snapshot m (update name ∷ cmds) later = run-snapshot (increment name m) cmds later
run-snapshot m (snapshot ∷ cmds) later = ap (λ r. sort_desc m ∷ r) (run-snapshot m cmds later)

-- On the board of any commands each name stands once at most, its count is the number of its updates
-- modulo the width of the counter, and the counts descend.
pub board_lem :
    (cmds : List LbCmd) (k : Text)
    → (total_of k (board cmds) % 2 ^ 64 ≡ edits k cmds % 2 ^ 64)
      × (entries_of k (board cmds) ≤ 1)
      × IsDescending (board cmds)
board_lem cmds k =
    let measure = sort_desc-measure k (run [] cmds).1 in
    (
      omega (arith, measure, total_of-run k [] cmds),
      omega (arith, measure, run-IsMap [] cmds (λ j. omega arith) k),
      sort_desc-IsDescending (run [] cmds).1,
    )

-- A wiki with an edit stands on the board.
pub board_lists : (cmds : List LbCmd) (k : Text) → min 1 (edits k cmds) ≤ entries_of k (board cmds)
board_lists cmds k = omega (arith, sort_desc-measure k (run [] cmds).1, entries_of-run k [] cmds)

last_reply-append : (rs : List Counts) (r : Counts) → last_reply (rs ++ (r ∷ [])) ≡ some r
last_reply-append [] r = refl
last_reply-append (q ∷ []) r = refl
last_reply-append (q ∷ p ∷ rs) r = last_reply-append (p ∷ rs) r

-- A snapshot behind all other commands is answered with their board.
pub last_reply-run :
    (m : Counts) (cmds : List LbCmd)
    → last_reply (run m (cmds ++ (snapshot ∷ []))).0 ≡ some (sort_desc (run m cmds).1)
unfolding run
last_reply-run m cmds =
    ap last_reply (run-snapshot m cmds [])
    ∙ last_reply-append (run m cmds).0 (sort_desc (run m cmds).1)

pub run-append : (xs ys : List LbCmd) (m : Counts) → (run m (xs ++ ys)).1 ≡ (run (run m xs).1 ys).1
unfolding run
run-append [] ys m = refl
run-append (update name ∷ xs) ys m = run-append xs ys (increment name m)
run-append (snapshot ∷ xs) ys m = run-append xs ys m

pub map-append : (xs ys : List Text) → map update (xs ++ ys) ≡ map update xs ++ map update ys
map-append [] ys = refl
map-append (x ∷ xs) ys = ap (λ cmds. update x ∷ cmds) (map-append xs ys)

pub replies-append :
    (xs ys : List LbCmd) (m : Counts)
    → (run m (xs ++ ys)).0 ≡ (run m xs).0 ++ (run (run m xs).1 ys).0
unfolding run
replies-append [] ys m = refl
replies-append (update name ∷ xs) ys m = replies-append xs ys (increment name m)
replies-append (snapshot ∷ xs) ys m = ap (λ rs. sort_desc m ∷ rs) (replies-append xs ys m)

-- the number of snapshots asked for
abbrev pub snapshots : List LbCmd → ℕ
snapshots [] = 0
snapshots (update name ∷ cmds) = snapshots cmds
snapshots (snapshot ∷ cmds) = suc (snapshots cmds)

length-run : (m : Counts) (cmds : List LbCmd) → length (run m cmds).0 ≡ snapshots cmds
unfolding run
length-run m [] = refl
length-run m (update name ∷ cmds) = length-run (increment name m) cmds
length-run m (snapshot ∷ cmds) = ap suc (length-run m cmds)

get_elem?-length :
    (rs : List Counts) (r : Counts) (qs : List Counts) {n : ℕ}
    → length rs ≡ n
    → get_elem? (rs ++ (r ∷ qs)) n ≡ some r
get_elem?-length [] r qs e = subst (λ n. get_elem? (r ∷ qs) n ≡ some r) e refl
get_elem?-length (x ∷ rs) r qs e =
    subst (λ n. get_elem? (x ∷ rs ++ (r ∷ qs)) n ≡ some r) e (get_elem?-length rs r qs refl)

-- Each snapshot that a new leaderboard is asked for is answered in its turn: behind as many replies as
-- snapshots were asked for before it, with a reply in which each name stands once at most, with the number
-- of its updates before the snapshot modulo the width of the counter, and the counts descend.
pub run_replies :
    (cmds later : List LbCmd) (k : Text)
    → (reply : Counts) × (get_elem? (run [] (cmds ++ (snapshot ∷ later))).0 (snapshots cmds)
        ≡ some reply)
      × (total_of k reply % 2 ^ 64 ≡ edits k cmds % 2 ^ 64)
      × (entries_of k reply ≤ 1)
      × IsDescending reply
run_replies cmds later k =
    let m = (run [] cmds).1 in
    (
      board cmds,
      ap (λ rs. get_elem? rs (snapshots cmds)) (run-snapshot [] cmds later)
          ∙ get_elem?-length (run [] cmds).0 (board cmds) (run m later).0 (length-run [] cmds),
      (board_lem cmds k).0,
      (board_lem cmds k).1,
      (board_lem cmds k).2,
    )
