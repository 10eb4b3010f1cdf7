-- ===== src/Shootout/Weights.antt =====
-- Sums over the iterations that the threads have made.
use real_time_system_project.Common.{
  ℕ, zero, suc, ◌+◌, ◌-◌, ◌≡◌, refl, List, some, arith, get_elem?, set, total, total-set, ◌<◌,
}
use real_time_system_project.Shootout.{ops_per_thread}

-- the iterations that a thread has left
abbrev pub left : ℕ → ℕ
left i = ops_per_thread - i

-- the sum of the numbers below `i`
abbrev pub below : ℕ → ℕ
below zero = 0
below (suc i) = below i + i

pub left-set :
    (made : List ℕ) (t : ℕ) {i : ℕ}
    → get_elem? made t ≡ some i
    → i < ops_per_thread
    → total left (set made t (suc i)) + 1 ≡ total left made
left-set made t {i} h q = omega (arith, total-set left made t (suc i) h, q)

pub below-set :
    (made : List ℕ) (t : ℕ) {i : ℕ}
    → get_elem? made t ≡ some i
    → total below (set made t (suc i)) ≡ total below made + i
below-set made t {i} h = omega (arith, total-set below made t (suc i) h)

pub below_all : below ops_per_thread ≡ 499_500
below_all = refl
