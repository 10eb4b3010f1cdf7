-- ===== src/Summary.antt =====
-- What `run` of crates/rts-async/src/pipeline.rs and of crates/rts-threaded/src/pipeline.rs prints at the end:
-- the lines of the standard output, without their line ends. A dash is the three bytes of U+2014.
pub mod Ranking
mod Tests
use real_time_system_project.Common.{
  ℕ, zero, suc, ◌+◌, ◌%◌, ◌^◌, List, [], ◌∷◌, ◌++◌, Option, none, some, Text, bytes, Result, ok,
  err, take,
}
use real_time_system_project.Decimal.{decimal, right_aligned}
use real_time_system_project.Event.{CowCounts, borrowed_percent}
use real_time_system_project.Metrics.{MetricsSnapshot}
use real_time_system_project.Leaderboard.{Counts}

abbrev pub column : ℕ → Text
column n = right_aligned 10 (decimal n)

-- `for (i, (name, count)) in entries.iter().enumerate()`
unfoldable pub wiki_lines : ℕ → Counts → List Text
wiki_lines i [] = []
wiki_lines i ((name, count) ∷ entries) =
    (bytes "  "
      ++ decimal (i + 1)
      ++ bytes ". "
      ++ name
      ++ bytes " "
      ++ (226 ∷ 128 ∷ 148 ∷ bytes " ")
      ++ decimal count
      ++ bytes " edits")
    ∷ wiki_lines (i + 1) entries

-- `take(3)`
abbrev pub printed : Counts → Counts
printed entries = take 3 entries

-- The argument is what the reply channel yields, `none` if it is closed.
unfoldable pub top_wikis : Option Counts → List Text
unfolding wiki_lines
top_wikis none = bytes "  (no data)" ∷ []
top_wikis (some entries) = wiki_lines 0 (printed entries)

abbrev pub percentiles : Text → ℕ → ℕ → ℕ → ℕ → Text
percentiles name p50 p90 p99 p999 =
    name
    ++ bytes "  p50="
    ++ column p50
    ++ bytes "  p90="
    ++ column p90
    ++ bytes "  p99="
    ++ column p99
    ++ bytes "  p99.9="
    ++ column p999

abbrev pub sampled : ℕ → Text
sampled n = bytes "  n=" ++ decimal n

unfoldable pub metrics_lines : MetricsSnapshot → List Text
metrics_lines s =
    (percentiles (bytes "Drift  Human") s.drift_human_p50 s.drift_human_p90 s.drift_human_p99
        s.drift_human_p999
      ++ sampled s.sample_count_human)
    ∷ (percentiles (bytes "Drift  Bot  ") s.drift_bot_p50 s.drift_bot_p90 s.drift_bot_p99
          s.drift_bot_p999
        ++ sampled s.sample_count_bot)
    ∷ percentiles (bytes "Jitter      ") s.jitter_p50 s.jitter_p90 s.jitter_p99 s.jitter_p999
    ∷ (bytes "Deadline misses: human="
        ++ decimal s.deadline_miss_human
        ++ bytes "  bot="
        ++ decimal s.deadline_miss_bot)
    ∷ []

unfoldable pub cow_line : CowCounts → Text
cow_line c =
    bytes "Cow stats: borrowed="
    ++ decimal c.borrowed_count
    ++ bytes "  owned="
    ++ decimal c.owned_count
    ++ bytes "  ("
    ++ decimal (borrowed_percent c.borrowed_count c.owned_count)
    ++ bytes "% borrowed)"

unfoldable pub async_summary : Option Counts → MetricsSnapshot → ℕ → ℕ → CowCounts → List Text
async_summary reply s hi lo counts =
    ([] ∷ bytes "=== Top Wikis ===" ∷ top_wikis reply)
    ++ ([] ∷ bytes "=== Metrics (nanoseconds) ===" ∷ metrics_lines s)
    ++ ((bytes "Overflows: hi=" ++ decimal hi ++ bytes "  lo=" ++ decimal lo)
        ∷ cow_line counts
        ∷ [])

unfoldable pub threaded_summary : Option Counts → MetricsSnapshot → ℕ → CowCounts → List Text
threaded_summary reply s overflow counts =
    ([] ∷ bytes "=== Top Wikis (threaded) ===" ∷ top_wikis reply)
    ++ ([] ∷ bytes "=== Metrics (nanoseconds) ===" ∷ metrics_lines s)
    ++ ((bytes "Overflow: " ++ decimal overflow) ∷ cow_line counts ∷ [])

abbrev pub dump_line : {E A : Type 0} → Text → Result E A → List Text × List E
dump_line line (ok a) = (line ∷ [], [])
dump_line line (err e) = ([], e ∷ [])

-- The lines on the two dumps, of which the second is made whatever becomes of the first; an error is
-- logged as a warning. The paths are texts with their extensions.
unfoldable pub dump_lines :
    {E U V : Type 0} → Text → Text → Result E U → Result E V → List Text × List E
dump_lines csv_path hgrm_path csv hgrm =
    let (csv_line, csv_warning) = dump_line (bytes "Metrics CSV: " ++ csv_path) csv in
    let (hgrm_line, hgrm_warning) = dump_line (bytes "Metrics HGRM: " ++ hgrm_path) hgrm in
    (csv_line ++ hgrm_line, csv_warning ++ hgrm_warning)
