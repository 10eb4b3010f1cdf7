-- ===== src/Workers/Rounds.antt =====
-- The rounds that workers still make once they are cancelled.
use real_time_system_project.Common.{
  ℕ, zero, suc, ◌-◌, ◌≤◌, ◌<◌, ◌≡◌, refl, ap, Bool, true, false, List, [], ◌∷◌, Option, none, some,
  arith, get_elem?, set, length, if◌then◌else◌, ◌==◌, ==_iff,
}
use mathlib.Core.Option.{some_inj}
use real_time_system_project.Workers.{Worker, looking, holding, ended, all_ended}

-- The rounds that a worker still makes once the cancellation is set: one with its task, one to see it.
abbrev pub rounds_left : Worker → ℕ
rounds_left looking = 1
rounds_left (holding t) = 2
rounds_left ended = 0

abbrev pub left_of : Option Worker → ℕ
left_of none = 0
left_of (some w) = rounds_left w

pub left_of-le : (o : Option Worker) → left_of o ≤ 2
left_of-le none = omega arith
left_of-le (some looking) = omega arith
left_of-le (some (holding t)) = omega arith
left_of-le (some ended) = omega arith

pub set_left :
    (ws : List Worker) (i j : ℕ) {w : Worker} (w' : Worker)
    → get_elem? ws j ≡ some w
    → rounds_left w' ≡ rounds_left w - 1
    → left_of (get_elem? (set ws j w') i) ≡ left_of (get_elem? ws i) - (if j == i then 1 else 0)
set_left [] i j w' h e = cc
set_left (x ∷ ws) zero zero w' h e = omega (arith, e, ap rounds_left (some_inj.0 h))
set_left (x ∷ ws) zero (suc j) w' h e = ground arith
set_left (x ∷ ws) (suc i) zero w' h e = ground arith
set_left (x ∷ ws) (suc i) (suc j) w' h e = ground (arith, set_left ws i j w' h e)

-- A worker that makes no round of its own has none left.
pub idle_left :
    (ws : List Worker) (i j : ℕ)
    → left_of (get_elem? ws j) ≡ 0
    → left_of (get_elem? ws i) ≡ left_of (get_elem? ws i) - (if j == i then 1 else 0)
idle_left ws i j h = same_or_not (j == i) refl
  where
    same_or_not :
        (b : Bool)
        → (j == i) ≡ b
        → left_of (get_elem? ws i) ≡ left_of (get_elem? ws i) - (if b then 1 else 0)
    same_or_not true e = omega (arith, h, ap (λ n. left_of (get_elem? ws n)) ((==_iff j i).0 e))
    same_or_not false e = omega arith

pub ended_all :
    (ws : List Worker)
    → ((i : ℕ) → i < length ws → left_of (get_elem? ws i) ≡ 0)
    → all_ended ws ≡ true
ended_all [] h = refl
ended_all (looking ∷ ws) h = absurd (omega (arith, h 0 (omega arith)))
ended_all (holding t ∷ ws) h = absurd (omega (arith, h 0 (omega arith)))
ended_all (ended ∷ ws) h = ended_all ws (λ i below. h (suc i) (omega arith))
