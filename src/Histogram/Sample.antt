-- ===== src/Histogram/Sample.antt =====
-- An exact histogram, a count beside the samples in increasing order, which shows that the laws of the
-- interface can be met.
use real_time_system_project.Common.{
  ℕ, ◌+◌, ◌*◌, ◌/◌, ◌≤◌, ◌≡◌, refl, List, [], ◌∷◌, Option, none, some, arith, min, u64_max, length,
  get_elem?, leb, if◌then◌else◌,
}
use real_time_system_project.Histogram.{Histogram, max_value}

pub record Samples : Type 0 where
  pub count : ℕ
  pub values : List ℕ

abbrev insert : ℕ → List ℕ → List ℕ
insert v [] = v ∷ []
insert v (x ∷ xs) = if leb v x then v ∷ x ∷ xs else x ∷ insert v xs

abbrev insert_all : List ℕ → List ℕ → List ℕ
insert_all [] h = h
insert_all (v ∷ vs) h = insert v (insert_all vs h)

abbrev or_zero : Option ℕ → ℕ
or_zero none = 0
or_zero (some v) = v

abbrev empty : Samples
empty = record { count = 0; values = [] }

abbrev record_sample : Samples → ℕ → Option Samples
record_sample h v =
    if leb v max_value
    then some (record { count = min (h.count + 1) u64_max; values = insert v h.values })
    else none

abbrev merge : Samples → Samples → Samples
merge a b = record {
  count = min (a.count + b.count) u64_max;
  values = insert_all a.values b.values;
}

pub record_sample_in_range :
    (h : Samples) (v : ℕ)
    → 1 ≤ v
    → v ≤ max_value
    → (h' : Samples) × (record_sample h v ≡ some h') × (h'.count ≡ min (h.count + 1) u64_max)
record_sample_in_range h v l u =
    (record { count = min (h.count + 1) u64_max; values = insert v h.values }, ground arith, refl)

abbrev pub samples : Histogram
samples = record {
  Hist = Samples;
  new = empty;
  record_value = record_sample;
  reset = λ h. empty;
  add = λ a b. some (merge a b);
  len = λ h. h.count;
  value_at_quantile = λ h q. or_zero (get_elem? h.values ((length h.values * q) / 1000));
  len-new = refl;
  len-reset = λ h. refl;
  record_value_in_range = record_sample_in_range;
  add_lem = λ a b. (merge a b, refl, refl);
}
