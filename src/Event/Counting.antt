-- ===== src/Event/Counting.antt =====
-- The counters of borrowed and owned parses, over all the lines that a process parses.
use real_time_system_project.Common.{
  ℕ, ◌+◌, ◌*◌, ◌/◌, ◌%◌, ◌^◌, ◌≤◌, ◌<◌, ◌≡◌, ◌≢◌, refl, ◌||◌, List, [], ◌∷◌, Text, Result, ok, err,
  arith, if◌then◌else◌,
}
use real_time_system_project.Event.{Event, CowCounts, is_owned, parse_one, borrowed_percent}

module _ {E : Type 0} (from_str : Text → Result E Event) where
  -- all the lines of a run, one after the other
  unfoldable pub parse_lines : CowCounts → List Text → CowCounts
  parse_lines c [] = c
  parse_lines c (l ∷ ls) = parse_lines (parse_one from_str c l).1 ls

  -- the lines that serde accepts with all strings borrowed, and those with one unescaped
  abbrev pub clean : Result E Event → ℕ
  clean (ok e) = if is_owned e.user || is_owned e.server_name then 0 else 1
  clean (err x) = 0

  abbrev pub unescaped : Result E Event → ℕ
  unescaped (ok e) = if is_owned e.user || is_owned e.server_name then 1 else 0
  unescaped (err x) = 0

  abbrev pub sum_of : (Result E Event → ℕ) → List Text → ℕ
  sum_of f [] = 0
  sum_of f (l ∷ ls) = f (from_str l) + sum_of f ls

  parse_one_counts :
      (r : Result E Event) (l : Text) (c : CowCounts)
      → from_str l ≡ r
      → let c' = (parse_one from_str c l).1 in
        (c'.borrowed_count % 2 ^ 64 ≡ (c.borrowed_count + clean r) % 2 ^ 64)
        × (c'.owned_count % 2 ^ 64 ≡ (c.owned_count + unescaped r) % 2 ^ 64)
  unfolding parse_one
  parse_one_counts (ok e) l c h = ground arith
  parse_one_counts (err x) l c h = ground arith

  -- Over any lines, the first counter grows by the number of lines that serde accepts with no string
  -- unescaped, the second by the number of those with one, modulo their width; a line that is
  -- refused changes neither.
  pub parse_lines_counts :
      (c : CowCounts) (ls : List Text)
      → let c' = parse_lines c ls in
        (c'.borrowed_count % 2 ^ 64 ≡ (c.borrowed_count + sum_of clean ls) % 2 ^ 64)
        × (c'.owned_count % 2 ^ 64 ≡ (c.owned_count + sum_of unescaped ls) % 2 ^ 64)
  unfolding parse_lines
  parse_lines_counts c [] = omega arith
  parse_lines_counts c (l ∷ ls) = omega (
    arith,
    parse_one_counts (from_str l) l c refl,
    parse_lines_counts (parse_one from_str c l).1 ls,
  )

percent_bound : (b o : ℕ) → b + o ≢ 0 → b * 100 / (b + o) ≤ 100
percent_bound b o h = grind arith

-- The percentage of the summaries is at most 100, if neither the sum of the counts nor a hundred times
-- the first wraps.
pub borrowed_percent-le : (b o : ℕ) → b * 100 < 2 ^ 64 → b + o < 2 ^ 64 → borrowed_percent b o ≤ 100
unfolding borrowed_percent
borrowed_percent-le b o h k = ground (arith, percent_bound b o)
