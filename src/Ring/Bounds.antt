-- ===== src/Ring/Bounds.antt =====
-- The bound on the length of a ring, and the capacity for which it fails.
use real_time_system_project.Common.{
  ℕ, ◌≤◌, ◌<◌, List, [], ◌∷◌, arith, length, drop, length-append, length-drop,
}
use real_time_system_project.Ring.{DropOldestRing, Action, pushes, pops, new, push, act, act_all}

module _ {ℓ} {A : Type ℓ} where
  -- The buffer can hold an item and holds no more than its capacity.
  pub record IsBounded (r : DropOldestRing A) : Type 0 where
    pub room : 0 < r.capacity
    pub within : length r.queue ≤ r.capacity

  pub new-IsBounded : (capacity : ℕ) → 0 < capacity → IsBounded (new {A = A} capacity)
  unfolding new
  new-IsBounded capacity h = omega arith

  pub push-IsBounded : {r : DropOldestRing A} (x : A) → IsBounded r → IsBounded (push r x).1
  unfolding push
  push-IsBounded {r} x v = ground (
    arith,
    length-append (drop 1 r.queue) (x ∷ []),
    length-append r.queue (x ∷ []),
    length-drop 1 r.queue,
  )

  pub act-IsBounded : {r : DropOldestRing A} (a : Action A) → IsBounded r → IsBounded (act r a)
  unfolding act
  act-IsBounded {r} (pushes x) v = push-IsBounded x v
  act-IsBounded {r} pops v = ground arith

  -- In a ring whose capacity is not zero, no interleaving of pushes and pops makes the buffer longer
  -- than its capacity.
  pub act_all-IsBounded :
      {r : DropOldestRing A} (acts : List (Action A)) → IsBounded r → IsBounded (act_all r acts)
  unfolding act_all
  act_all-IsBounded [] v = v
  act_all-IsBounded {r} (a ∷ acts) v = act_all-IsBounded {r = act r a} acts (act-IsBounded a v)
