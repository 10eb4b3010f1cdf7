-- ===== src/Shootout/Counters.antt =====
-- The counters that the threads share, behind a mutex and in a map.
use native.Mathlib.Decide.{ℕ_discrete}
use real_time_system_project.Common.{
  ℕ, zero, suc, ◌+◌, ◌*◌, ◌^◌, ◌≤◌, ◌<◌, ◌≡◌, ◌≢◌, refl, ap, sym, ◌∙◌, List, Option, none, some,
  subst, total, total-replicate, arith, get_elem?, set, get_elem?-set, get_elem?-set_other,
  replicate, wrapping_suc,
}
use real_time_system_project.Shootout.{
  ops_per_thread, lock_and_add, bench_std_mutex, bench_pl_mutex, DashMap, add_to_entry,
  bench_dashmap, or_default,
}
use real_time_system_project.Shootout.Progress.{IsFair, IsSteady, join-contend}
use real_time_system_project.Shootout.Weights.{left, left-set}

module _ (threads : ℕ) where
  -- What is counted and what is left to count make up all the iterations.
  abbrev Counts : List ℕ → ℕ → Type 0
  Counts made counter = counter + total left made ≡ threads * ops_per_thread

  lock_and_add-IsSteady : threads * ops_per_thread < 2 ^ 64 → IsSteady lock_and_add Counts
  lock_and_add-IsSteady few t i made counter h below inv = record {
    after = wrapping_suc counter;
    goes = refl;
    keeps = omega (arith, few, below, inv, left-set made t h below);
  }

  -- If every thread gets its thousand turns and the total fits in a `u64`, in whatever order the turns
  -- come, both benches end and no increment is lost.
  pub bench_mutexes_count :
      (turns : List ℕ)
      → threads * ops_per_thread < 2 ^ 64
      → IsFair threads turns
      → (bench_std_mutex threads turns ≡ some (threads * ops_per_thread))
        × (bench_pl_mutex threads turns ≡ some (threads * ops_per_thread))
  unfolding bench_std_mutex bench_pl_mutex
  bench_mutexes_count turns few fair =
      let j =
        join-contend lock_and_add Counts (lock_and_add-IsSteady few) threads 0 turns fair
          (omega (arith, total-replicate left threads 0)) in
      let all : j.final ≡ threads * ops_per_thread =
        omega (arith, j.keeps, total-replicate left threads ops_per_thread) in
      (j.joined ∙ ap some all, j.joined ∙ ap some all)

-- The entry of a thread that has made so many iterations.
abbrev pub entry_of : Option ℕ → Option ℕ
entry_of none = none
entry_of (some zero) = none
entry_of (some (suc i)) = some (suc i)

module _ (dash : DashMap) where
  open dash use {Map, empty, get, update_entry, get-empty, get-update_entry, get-update_other}

  abbrev Keyed : List ℕ → Map → Type 0
  Keyed made m = (t : ℕ) → get m t ≡ entry_of (get_elem? made t)

  entry_more :
      (i : ℕ)
      → i < ops_per_thread
      → some (wrapping_suc (or_default 0 (entry_of (some i)))) ≡ entry_of (some (suc i))
  entry_more zero h = refl
  entry_more (suc i) h = ap some (omega (arith, h))

  own_entry :
      (m : Map) (made : List ℕ) (t i : ℕ)
      → get_elem? made t ≡ some i
      → i < ops_per_thread
      → Keyed made m
      → get (update_entry m t 0 wrapping_suc) t ≡ entry_of (get_elem? (set made t (suc i)) t)
  own_entry m made t i h below inv =
      get-update_entry m t 0 wrapping_suc
      ∙ ap (λ o. some (wrapping_suc (or_default 0 o))) (inv t ∙ ap entry_of h)
      ∙ entry_more i below
      ∙ ap entry_of (sym (get_elem?-set made t (suc i) h))

  other_entry :
      (m : Map) (made : List ℕ) (t i u : ℕ)
      → t ≢ u
      → Keyed made m
      → get (update_entry m t 0 wrapping_suc) u ≡ entry_of (get_elem? (set made t (suc i)) u)
  other_entry m made t i u differ inv =
      get-update_other m t u 0 wrapping_suc differ
      ∙ inv u
      ∙ ap entry_of (sym (get_elem?-set_other made t u (suc i) differ))

  keyed :
      (m : Map) (made : List ℕ) (t i : ℕ)
      → get_elem? made t ≡ some i
      → i < ops_per_thread
      → Keyed made m
      → Keyed (set made t (suc i)) (update_entry m t 0 wrapping_suc)
  keyed m made t i h below inv u = elim (ℕ_discrete t u) [
    | yes same ↦
        subst
          (λ u.
            get (update_entry m t 0 wrapping_suc) u ≡ entry_of (get_elem? (set made t (suc i)) u))
          same (own_entry m made t i h below inv)
    | no differ ↦ other_entry m made t i u differ inv
  ]

  add_to_entry-IsSteady : IsSteady (add_to_entry dash) Keyed
  add_to_entry-IsSteady t i made m h below inv = record {
    after = update_entry m t 0 wrapping_suc;
    goes = refl;
    keeps = keyed m made t i h below inv;
  }

  pub record Counted (threads : ℕ) (o : Option Map) : Type 0 where
    pub final : Map
    pub joined : o ≡ some final
    pub own : (t : ℕ) → t < threads → get final t ≡ some ops_per_thread
    pub others : (t : ℕ) → threads ≤ t → get final t ≡ none

  get_elem?-replicate_in : (n t i : ℕ) → t < n → get_elem? {A = ℕ} (replicate n i) t ≡ some i
  get_elem?-replicate_in zero t i h = absurd (omega (arith, h))
  get_elem?-replicate_in (suc n) zero i h = refl
  get_elem?-replicate_in (suc n) (suc t) i h = get_elem?-replicate_in n t i (omega (arith, h))

  get_elem?-replicate_out : (n t i : ℕ) → n ≤ t → get_elem? {A = ℕ} (replicate n i) t ≡ none
  get_elem?-replicate_out zero t i h = refl
  get_elem?-replicate_out (suc n) zero i h = absurd (omega (arith, h))
  get_elem?-replicate_out (suc n) (suc t) i h = get_elem?-replicate_out n t i (omega (arith, h))

  none_keyed : (n t : ℕ) → none ≡ entry_of (get_elem? (replicate n 0) t)
  none_keyed zero t = refl
  none_keyed (suc n) zero = refl
  none_keyed (suc n) (suc t) = none_keyed n t

  -- If every thread gets its thousand turns, in whatever order they come, the bench ends, and the map
  -- holds a thousand for each thread and no other entry.
  pub bench_dashmap_counts :
      (threads : ℕ) (turns : List ℕ)
      → IsFair threads turns
      → Counted threads (bench_dashmap dash threads turns)
  unfolding bench_dashmap
  bench_dashmap_counts threads turns fair =
      let j =
        join-contend (add_to_entry dash) Keyed add_to_entry-IsSteady threads empty turns fair
          (λ t. get-empty t ∙ none_keyed threads t) in
      record {
        final = j.final;
        joined = j.joined;
        own = λ t h. j.keeps t ∙ ap entry_of (get_elem?-replicate_in threads t ops_per_thread h);
        others =
            λ t h. j.keeps t ∙ ap entry_of (get_elem?-replicate_out threads t ops_per_thread h);
      }
