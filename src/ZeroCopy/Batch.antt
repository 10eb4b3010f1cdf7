-- ===== src/ZeroCopy/Batch.antt =====
-- What the counters are after the batch.
use real_time_system_project.Common.{
  ℕ, zero, suc, ◌+◌, ◌*◌, ◌^◌, ◌<◌, ◌≤◌, ◌≡◌, refl, Text, Result, ok, err, arith,
}
use real_time_system_project.Event.{Event, parse_one}
use real_time_system_project.Event.Counting.{clean, unescaped}
use real_time_system_project.ZeroCopy.{
  Parsed, new_process, one_more, parse_loop, batch, ascii_event, escape_event, ascii_count,
  escape_count,
}

module _ {E : Type 0} (from_str : Text → Result E Event) where
  one_round :
      (p : Parsed) (buf : Text) (r : Result E Event)
      → from_str buf ≡ r
      → p.counts.borrowed_count + 1 < 2 ^ 64
      → p.counts.owned_count + 1 < 2 ^ 64
      → let p' = one_more p.parsed (parse_one from_str p.counts buf) in
        (p'.parsed ≡ p.parsed + (clean from_str r + unescaped from_str r))
        × (p'.counts.borrowed_count ≡ p.counts.borrowed_count + clean from_str r)
        × (p'.counts.owned_count ≡ p.counts.owned_count + unescaped from_str r)
        × (clean from_str r + unescaped from_str r ≤ 1)
  unfolding parse_one
  one_round p buf (ok e) h k l = rw h (ground arith)
  one_round p buf (err e) h k l = rw h (ground arith)

  loop_counts :
      (n : ℕ) (p : Parsed) (buf : Text)
      → p.counts.borrowed_count + n < 2 ^ 64
      → p.counts.owned_count + n < 2 ^ 64
      → let p' = parse_loop from_str n buf p in
        let r = from_str buf in
        (p'.parsed ≡ p.parsed + n * (clean from_str r + unescaped from_str r))
        × (p'.counts.borrowed_count ≡ p.counts.borrowed_count + n * clean from_str r)
        × (p'.counts.owned_count ≡ p.counts.owned_count + n * unescaped from_str r)
  unfolding parse_loop
  loop_counts zero p buf h k = omega arith
  loop_counts (suc n) p buf h k =
      let (parsed, borrowed, owned, one) =
        one_round p buf (from_str buf) refl (omega (arith, h)) (omega (arith, k)) in
      let p' = one_more p.parsed (parse_one from_str p.counts buf) in
      let (all, all_borrowed, all_owned) =
        loop_counts n p' buf (omega (arith, h, borrowed, one)) (omega (arith, k, owned, one)) in
      grind (arith, parsed, borrowed, owned, all, all_borrowed, all_owned)

  at_most_one : (r : Result E Event) → clean from_str r + unescaped from_str r ≤ 1
  at_most_one (ok e) = ground arith
  at_most_one (err x) = omega arith

  -- In a new process the batch counts eight thousand times what becomes of the first text and two
  -- thousand times what becomes of the second: parsed if serde accepts it, owned if serde unescapes
  -- one of its strings, borrowed if it unescapes none. So each text parsed is borrowed or owned.
  pub batch_counts :
      let p = batch from_str in
      let a = from_str ascii_event in
      let e = from_str escape_event in
      (p.counts.borrowed_count ≡ 8000 * clean from_str a + 2000 * clean from_str e)
      × (p.counts.owned_count ≡ 8000 * unescaped from_str a + 2000 * unescaped from_str e)
      × (p.parsed ≡ p.counts.borrowed_count + p.counts.owned_count)
  unfolding batch
  batch_counts =
      let p = parse_loop from_str ascii_count ascii_event new_process in
      let (all, borrowed, owned) =
        loop_counts ascii_count new_process ascii_event (omega arith) (omega arith) in
      let (all', borrowed', owned') =
        loop_counts escape_count p escape_event
          (omega (arith, borrowed, at_most_one (from_str ascii_event)))
          (omega (arith, owned, at_most_one (from_str ascii_event))) in
      (
        omega (arith, borrowed, borrowed'),
        omega (arith, owned, owned'),
        omega (arith, all, all', borrowed, borrowed', owned, owned'),
      )
