-- ===== src/Shootout/Tests.antt =====
-- Two threads, one behind the other, and a map that is a function.
use real_time_system_project.Common.{
  All, ◌<◌, ℕ, zero, suc, ◌+◌, ◌*◌, ◌^◌, ◌≡◌, ◌≢◌, refl, List, [], ◌∷◌, ◌++◌, Option, none, some,
  if◌then◌else◌, ◌==◌, arith, replicate,
}
use real_time_system_project.Shootout.{
  ops_per_thread, thread_counts, DashMap, or_default, bench_drop_oldest_ring,
}
use real_time_system_project.Shootout.Progress.{turns_of, IsFair}
use real_time_system_project.Shootout.Channels.{bench_drop_oldest_ring_drains, Emptied}

abbrev two_threads : List ℕ
two_threads = replicate 1_000 0 ++ replicate 1_000 1

turns_of-append : (t : ℕ) (xs ys : List ℕ) → turns_of t (xs ++ ys) ≡ turns_of t xs + turns_of t ys
turns_of-append t [] ys = omega arith
turns_of-append t (x ∷ xs) ys = omega (arith, turns_of-append t xs ys)

turns_of-replicate : (t n : ℕ) → turns_of t (replicate n t) ≡ n
turns_of-replicate t zero = refl
turns_of-replicate t (suc n) = ground (arith, turns_of-replicate t n)

two_threads-IsFair : IsFair 2 two_threads
two_threads-IsFair zero h =
    omega
      (arith, turns_of-append 0 (replicate 1_000 0) (replicate 1_000 1), turns_of-replicate 0 1_000)
two_threads-IsFair (suc zero) h =
    omega
      (arith, turns_of-append 1 (replicate 1_000 0) (replicate 1_000 1), turns_of-replicate 1 1_000)
two_threads-IsFair (suc (suc t)) h = absurd (omega (arith, h))

updated : (ℕ → Option ℕ) → ℕ → ℕ → (ℕ → ℕ) → ℕ → Option ℕ
updated m k v f j = if k == j then some (f (or_default v (m k))) else m j

updated_same :
    (m : ℕ → Option ℕ) (k v : ℕ) (f : ℕ → ℕ) → updated m k v f k ≡ some (f (or_default v (m k)))
unfolding updated
updated_same m k v f = ground arith

updated_other : (m : ℕ → Option ℕ) (k j v : ℕ) (f : ℕ → ℕ) → k ≢ j → updated m k v f j ≡ m j
unfolding updated
updated_other m k j v f h = ground arith

abbrev function_map : DashMap
function_map = record {
  Map = ℕ → Option ℕ;
  empty = λ k. none;
  get = λ m k. m k;
  update_entry = updated;
  get-empty = λ k. refl;
  get-update_entry = updated_same;
  get-update_other = updated_other;
}

bench_drop_oldest_ring_drains_example : Emptied 2 (bench_drop_oldest_ring 2 two_threads 2_001)
bench_drop_oldest_ring_drains_example =
    bench_drop_oldest_ring_drains 2 two_threads 2_001 two_threads-IsFair (omega arith)

-- The total of every sweep fits in a `u64`.
sweep_fits : All (λ threads. threads * ops_per_thread < 2 ^ 64) thread_counts
sweep_fits = (omega arith, (omega arith, (omega arith, (omega arith, (omega arith, tt)))))
