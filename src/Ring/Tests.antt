-- ===== src/Ring/Tests.antt =====
-- Runs of the ring, some of them those of the tests in ring.rs, and instances of its theorems.
use real_time_system_project.Common.{ℕ, ◌≡◌, refl, List, [], ◌∷◌, ◌++◌, some, arith, true}
use real_time_system_project.Ring.{
  DropOldestRing, dropped_oldest, Action, pushes, pops, new, push, try_pop, act, act_all,
  pop_blocking, push_all, overflow_count, len, is_empty,
}
use real_time_system_project.Ring.Bounds.{IsBounded}
use real_time_system_project.Ring.Window.{queue-push_all, queue-push_all_zero}
use real_time_system_project.Ring.History.{dropped, popped, items, departures, departures_fifo}

abbrev two_slots : DropOldestRing ℕ
two_slots = record { queue = []; capacity = 2; overflow = 0 }

abbrev full : DropOldestRing ℕ
full = record { queue = 1 ∷ 2 ∷ []; capacity = 2; overflow = 0 }

abbrev script : List (Action ℕ)
script = pushes 3 ∷ pops ∷ pushes 4 ∷ pushes 5 ∷ []

full-IsBounded : IsBounded full
full-IsBounded = omega arith

-- `test_push_drops_oldest`
third_push_drops :
    (push full 3 ≡ (dropped_oldest, record full { queue = 2 ∷ 3 ∷ []; overflow = 1 }))
    × (len (push full 3).1 ≡ 2)
    × (overflow_count (push full 3).1 ≡ 1)
    × (is_empty two_slots ≡ true)
unfolding push len overflow_count is_empty
third_push_drops = (refl, refl, refl, refl)

departures-script : departures full script ≡ dropped 1 ∷ popped 2 ∷ dropped 3 ∷ []
unfolding act_all act push try_pop
departures-script = refl

queue-push_all_example : (push_all full (3 ∷ 4 ∷ 5 ∷ [])).queue ≡ 4 ∷ 5 ∷ []
queue-push_all_example = queue-push_all full (3 ∷ 4 ∷ 5 ∷ []) full-IsBounded

queue-push_all_zero_example : (push_all {A = ℕ} (new 0) (1 ∷ 2 ∷ 3 ∷ [])).queue ≡ 1 ∷ 2 ∷ 3 ∷ []
queue-push_all_zero_example = queue-push_all_zero (1 ∷ 2 ∷ 3 ∷ [])

departures_fifo_example :
    items (departures full script) ++ (act_all full script).queue ≡ 1 ∷ 2 ∷ 3 ∷ 4 ∷ 5 ∷ []
departures_fifo_example = departures_fifo full script

-- Another consumer is faster at the first wake-up; the second one finds an item.
abbrev schedule : List (List (Action ℕ))
schedule = (pushes 7 ∷ pops ∷ []) ∷ (pushes 8 ∷ pushes 9 ∷ []) ∷ []

second_wake : pop_blocking two_slots schedule ≡ some (8, record two_slots { queue = 9 ∷ [] })
unfolding pop_blocking act_all act push
second_wake = refl
