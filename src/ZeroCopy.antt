-- ===== src/ZeroCopy.antt =====
-- crates/rts-bench/src/bin/dhat_zero_copy.rs: the parser over a synthetic batch, and what the counters say
-- afterwards. The allocator that dhat puts in place is not modelled.
pub mod Batch
mod Tests
use real_time_system_project.Common.{
  ℕ, zero, suc, ◌+◌, ◌-◌, ◌*◌, ◌/◌, Bool, true, false, if◌then◌else◌, List, [], ◌∷◌, ◌++◌, Text,
  bytes, Result, ok, err,
}
use real_time_system_project.Decimal.{decimal}
use real_time_system_project.Event.{
  Event, RtsError, CowCounts, parse_one, borrowed_percent, cow_stats,
}

abbrev pub iterations : ℕ
iterations = 10000

abbrev pub ascii_event : Text
ascii_event = bytes "{\"user\":\"SomeEditor\",\"bot\":false,\"server_name\":\"en.wikipedia.org\"}"

-- The second letter of `édits` is the two bytes of U+00E9; the literal is a raw one, without escapes.
abbrev pub escape_event : Text
escape_event =
    bytes "{\"user\":\"User"
    ++ (195 ∷ 169 ∷ bytes "dits\",\"bot\":false,\"server_name\":\"fr.wikipedia.org\"}")

abbrev pub ascii_count : ℕ
ascii_count = iterations * 4 / 5

abbrev pub escape_count : ℕ
escape_count = iterations - ascii_count

-- The number of texts that were parsed, and the counters of the process.
pub record Parsed : Type 0 where
  pub parsed : ℕ
  pub counts : CowCounts

abbrev pub new_process : Parsed
new_process = record { parsed = 0; counts = record { borrowed_count = 0; owned_count = 0 } }

module _ {E : Type 0} where
  abbrev pub is_ok : Result (RtsError E) Event → Bool
  is_ok (ok e) = true
  is_ok (err e) = false

  abbrev pub one_more : ℕ → Result (RtsError E) Event × CowCounts → Parsed
  one_more n (r, counts) = record { parsed = if is_ok r then n + 1 else n; counts = counts }

  module _ (from_str : Text → Result E Event) where
    -- One of the two loops, over a number of rounds.
    unfoldable pub parse_loop : ℕ → Text → Parsed → Parsed
    parse_loop zero buf p = p
    parse_loop (suc n) buf p =
        parse_loop n buf (one_more p.parsed (parse_one from_str p.counts buf))

    -- Both loops, in a new process.
    unfoldable pub batch : Parsed
    batch = parse_loop escape_count escape_event (parse_loop ascii_count ascii_event new_process)

-- The lines with the numbers.
unfoldable pub report : Parsed → List Text
report p =
    let (borrowed, owned) = cow_stats p.counts in
    (bytes "Events parsed   : " ++ decimal p.parsed)
    ∷ (bytes "Cow::Borrowed   : "
        ++ decimal borrowed
        ++ bytes "  ("
        ++ decimal (borrowed_percent borrowed owned)
        ++ bytes "%)")
    ∷ (bytes "Cow::Owned      : " ++ decimal owned)
    ∷ []

-- What is printed before the batch, in the build without the feature `owned-baseline`.
abbrev pub opening : List Text
opening =
    bytes "=== dhat Zero-Copy Proof ==="
    ∷ bytes "Parser path : zero-copy (Cow borrowing)"
    ∷ (bytes "Iterations  : " ++ decimal iterations ++ bytes " (80% ASCII, 20% escape)")
    ∷ []
    ∷ []

-- What is printed behind the numbers; the argument is the feature `dhat-heap`. The dash is U+2014.
abbrev pub closing : Bool → List Text
closing dhat_heap =
    []
    ∷ (if dhat_heap
        then bytes "dhat profile written to: dhat-heap.json"
        else bytes "(dhat-heap feature not enabled "
          ++ (226 ∷ 128 ∷ 148 ∷ bytes " no profile written)"))
    ∷ []
    ∷ bytes
        "To view: open https://nnethercote.github.io/dh_view/dh_view.html and load dhat-heap.json"
    ∷ []

-- All the lines of the program.
unfoldable pub main : {E : Type 0} → (Text → Result E Event) → Bool → List Text
unfolding batch report
main from_str dhat_heap = opening ++ (report (batch from_str) ++ closing dhat_heap)
