-- ===== src/Metrics/Files.antt =====
-- The two files of `Metrics::dump_csv` and `Metrics::dump_hgrm` in crates/rts-core/src/metrics.rs, with the
-- errors of the file system.
pub mod Split
pub mod Reading
mod Tests
use real_time_system_project.Common.{
  ℕ, List, [], ◌∷◌, ◌++◌, ◌*◌, ◌^◌, Option, none, some, Text, bytes, Result, ok, err, ◌>>=◌,
  map_err, map, take,
}
use real_time_system_project.Time.{Duration}
use real_time_system_project.Decimal.{decimal}
use real_time_system_project.Histogram.{Histogram}
use real_time_system_project.Metrics.{Metrics, CsvRow, csv_rows}

abbrev pub csv_text : CsvRow → Text
csv_text row =
    row.metric
    ++ (44 ∷ decimal row.p50
        ++ (44 ∷ decimal row.p90
            ++ (44 ∷ decimal row.p99
                ++ (44 ∷ decimal row.p999 ++ (44 ∷ decimal row.sample_count)))))

-- One `writeln!` of a row.
abbrev pub csv_line : CsvRow → Text
csv_line row = csv_text row ++ (10 ∷ [])

abbrev pub csv_heading : Text
csv_heading = bytes "metric,p50,p90,p99,p99.9,sample_count\n"

-- What becomes of a `writeln!`: written, or an error, before which some bytes of it were written.
pub data Write (I : Type 0) : Type 0 where
  written : Write I
  failed : I → ℕ → Write I

-- The result of a dump and the contents of the file.
pub record Dumped (I : Type 0) : Type 0 where
  pub result : Result I (Unit {0})
  pub file : Text

abbrev pub behind : {I : Type 0} → Text → Dumped I → Dumped I
behind line d = record d { file = line ++ d.file }

-- The `writeln!(...)?` of some lines, with what becomes of each; those that are not told are written.
unfoldable pub write_lines : {I : Type 0} → List Text → List (Write I) → Dumped I
write_lines [] writes = record { result = ok tt; file = [] }
write_lines (line ∷ lines) [] = behind line (write_lines lines [])
write_lines (line ∷ lines) (written ∷ writes) = behind line (write_lines lines writes)
write_lines (line ∷ lines) (failed e n ∷ writes) = record { result = err e; file = take n line }

module _ (hist : Histogram) where
  abbrev pub csv_lines : Metrics hist → List Text
  csv_lines m = csv_heading ∷ map csv_line (csv_rows hist m)

  -- The first argument is the error of creating the file, if there is one; then there is no file.
  unfoldable pub dump_csv :
      {I : Type 0}
      → Option I
      → List (Write I)
      → Metrics hist
      → Option (Dumped I) × Result I (Unit {0})
  unfolding write_lines
  dump_csv (some e) writes m = (none, err e)
  dump_csv none writes m = let d = write_lines (csv_lines m) writes in (some d, d.result)

  -- What `dump_hgrm` uses of `hdrhistogram`'s log writer; `I` is `std::io::Error`, into which the errors
  -- of the writer are made by their texts.
  pub record LogWriter (I : Type 0) : Type 1 where
    pub Writer : Type 0
    pub Error : Type 0
    pub to_io : Error → I
    pub begin_log : List Text → Result Error Writer
    pub write_histogram : Writer → hist.Hist → Duration → Duration → Result Error Writer

  abbrev pub hgrm_comments : List Text
  hgrm_comments =
      (bytes "RTS2601 latency histograms " ++ (226 ∷ 128 ∷ 148 ∷ bytes " nanoseconds"))
      ∷ bytes "Tracks: drift_human, drift_bot, jitter"
      ∷ []

  -- No histogram has a tag; the result is the writer at the end, where the file is dropped.
  unfoldable pub dump_hgrm :
      {I : Type 0} (log : LogWriter I) → Option I → Metrics hist → Result I (log.Writer)
  dump_hgrm log (some e) m = err e
  dump_hgrm log none m = map_err log.to_io (log.begin_log hgrm_comments) >>= λ w.
      map_err log.to_io (log.write_histogram w m.drift_human 0 0) >>= λ w.
      map_err log.to_io (log.write_histogram w m.drift_bot (10 ^ 9) 0) >>= λ w.
      map_err log.to_io (log.write_histogram w m.jitter (2 * 10 ^ 9) 0)
