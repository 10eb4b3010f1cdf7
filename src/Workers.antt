-- ===== src/Workers.antt =====
-- Where the workers of a pipeline stand, the same for the threads of crates/rts-threaded and the tasks of
-- crates/rts-async.
pub mod Rounds
use real_time_system_project.Common.{
  ℕ, zero, suc, ◌+◌, ◌-◌, ◌≤◌, ◌≡◌, refl, ap, Bool, true, false, ◌&&◌, List, [], ◌∷◌, Option, none,
  some, arith, get_elem?, set, length,
}
use mathlib.Core.Option.{some_inj}
use real_time_system_project.Event.{Task}

-- Where a worker stands: in the loop of `pop_blocking`, behind it with a task, or at its end.
pub data Worker : Type 0 where
  looking : Worker
  holding : Task → Worker
  ended : Worker

abbrev pub is_ended : Worker → Bool
is_ended ended = true
is_ended _ = false

abbrev pub all_ended : List Worker → Bool
all_ended [] = true
all_ended (w ∷ ws) = is_ended w && all_ended ws

-- The workers that hold a task.
abbrev pub load : Worker → ℕ
load looking = 0
load (holding t) = 1
load ended = 0

abbrev pub in_flight : List Worker → ℕ
in_flight [] = 0
in_flight (w ∷ ws) = load w + in_flight ws

pub in_flight-set :
    (ws : List Worker) (i : ℕ) (w' : Worker) {w : Worker}
    → get_elem? ws i ≡ some w
    → in_flight (set ws i w') + load w ≡ in_flight ws + load w'
in_flight-set [] i w' h = cc
in_flight-set (x ∷ ws) zero w' h = omega (arith, ap load (some_inj.0 h))
in_flight-set (x ∷ ws) (suc i) w' h = omega (arith, in_flight-set ws i w' h)

abbrev pub load_of : Option Worker → ℕ
load_of none = 0
load_of (some w) = load w

-- The workers that have ended are counted one by one.
abbrev pub is_over : Worker → ℕ
is_over looking = 0
is_over (holding t) = 0
is_over ended = 1
