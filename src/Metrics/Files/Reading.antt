-- ===== src/Metrics/Files/Reading.antt =====
-- A CSV file read by its commas and line ends holds the rows that were dumped, and a dump that fails has
-- written the beginning of that file.
use real_time_system_project.Common.{
  ℕ, zero, suc, ◌≡◌, refl, ap, sym, ◌∙◌, false, List, [], ◌∷◌, ◌++◌, Option, none, some, Text,
  bytes, Result, ok, err, map, take, drop, length, All, append_assoc,
}
use real_time_system_project.Decimal.{value_from, decimal}
use real_time_system_project.Decimal.Value.{value_from-decimal}
use real_time_system_project.Histogram.{Histogram}
use real_time_system_project.Metrics.{Metrics, CsvRow, csv_rows}
use real_time_system_project.Metrics.Files.Split.{
  split_on, lines_of, has_byte, split_on-field, split_on-last, has_byte-decimal, has_byte-joined,
  lines_of-line,
}
use real_time_system_project.Metrics.Files.{
  csv_text, csv_line, csv_lines, Write, written, failed, Dumped, write_lines, dump_csv,
}

abbrev pub row_of : List Text → Option CsvRow
row_of (metric ∷ a ∷ b ∷ c ∷ d ∷ n ∷ []) = some (record {
  metric = metric;
  p50 = value_from 0 a;
  p90 = value_from 0 b;
  p99 = value_from 0 c;
  p999 = value_from 0 d;
  sample_count = value_from 0 n;
})
row_of fields = none

-- The rows below the heading.
abbrev pub read_csv : Text → List (Option CsvRow)
read_csv s = map (λ line. row_of (split_on 44 line)) (drop 1 (lines_of s))

-- A row whose name has neither commas nor line ends.
record IsRow (row : CsvRow) : Type 0 where
  no_comma : has_byte 44 row.metric ≡ false
  no_end : has_byte 10 row.metric ≡ false

number-no_end :
    (n : ℕ) (s : Text) → has_byte 10 s ≡ false → has_byte 10 (decimal n ++ (44 ∷ s)) ≡ false
number-no_end n s = has_byte-joined 10 44 (decimal n) s refl (has_byte-decimal 10 n refl)

csv_text-no_end : (row : CsvRow) → IsRow row → has_byte 10 (csv_text row) ≡ false
csv_text-no_end row v = has_byte-joined 10 44 row.metric _ refl v.no_end (
    number-no_end row.p50 _ (
      number-no_end row.p90 _ (
        number-no_end row.p99 _
          (number-no_end row.p999 _ (has_byte-decimal 10 row.sample_count refl)))))

split_on-number :
    (n : ℕ) (s : Text) {fields : List Text}
    → split_on 44 s ≡ fields
    → split_on 44 (decimal n ++ (44 ∷ s)) ≡ decimal n ∷ fields
split_on-number n s e =
    split_on-field 44 (decimal n) s (has_byte-decimal 44 n refl) ∙ ap (λ t. decimal n ∷ t) e

row_of-csv_text : (row : CsvRow) → IsRow row → row_of (split_on 44 (csv_text row)) ≡ some row
row_of-csv_text row v =
    ap row_of (
      split_on-field 44 row.metric _ v.no_comma
      ∙ ap (λ t. row.metric ∷ t)
          (split_on-number row.p50 _ (
            split_on-number row.p90 _ (
              split_on-number row.p99 _ (
                split_on-number row.p999 _ (
                  split_on-last 44 (decimal row.sample_count)
                    (has_byte-decimal 44 row.sample_count refl)))))))
    ∙ rw
        (
          value_from-decimal row.p50,
          value_from-decimal row.p90,
          value_from-decimal row.p99,
          value_from-decimal row.p999,
          value_from-decimal row.sample_count,
        )
        refl

-- What the lines make together.
abbrev pub text_of : List Text → Text
text_of [] = []
text_of (line ∷ lines) = line ++ text_of lines

lines_of-rows :
    (rows : List CsvRow)
    → All IsRow rows
    → lines_of (text_of (map csv_line rows)) ≡ map csv_text rows
lines_of-rows [] v = refl
lines_of-rows (row ∷ rows) v =
    ap lines_of (append_assoc (csv_text row) (10 ∷ []) (text_of (map csv_line rows)))
    ∙ lines_of-line (csv_text row) _ (csv_text-no_end row v.0)
    ∙ ap (λ t. csv_text row ∷ t) (lines_of-rows rows v.1)

read_rows :
    (rows : List CsvRow)
    → All IsRow rows
    → map (λ line. row_of (split_on 44 line)) (map csv_text rows) ≡ map some rows
read_rows [] v = refl
read_rows (row ∷ rows) v = rw (row_of-csv_text row v.0, read_rows rows v.1) refl

take-rest : (n : ℕ) (line : Text) → take n line ++ drop n line ≡ line
take-rest zero line = refl
take-rest (suc n) [] = refl
take-rest (suc n) (c ∷ line) = ap (λ t. c ∷ t) (take-rest n line)

module _ {I : Type 0} where
  -- No write fails.
  abbrev pub IsWritten : Write I → Type 0
  IsWritten w = w ≡ written

  -- The error of the first write that fails, if there is one.
  abbrev pub first_error : ℕ → List (Write I) → Result I (Unit {0})
  first_error zero writes = ok tt
  first_error (suc n) [] = ok tt
  first_error (suc n) (written ∷ writes) = first_error n writes
  first_error (suc n) (failed e k ∷ writes) = err e

  write_lines-written :
      (lines : List Text) (writes : List (Write I))
      → All IsWritten writes
      → write_lines lines writes ≡ record { result = ok tt; file = text_of lines }
  unfolding write_lines
  write_lines-written [] writes h = refl
  write_lines-written (line ∷ lines) [] h = rw (write_lines-written lines [] tt) refl
  write_lines-written (line ∷ lines) (w ∷ writes) h =
      rw (h.0, write_lines-written lines writes h.1) refl

  first_error-nil : (n : ℕ) → first_error n [] ≡ ok tt
  first_error-nil zero = refl
  first_error-nil (suc n) = refl

  write_lines-prefix :
      (lines : List Text) (writes : List (Write I))
      → let d = write_lines lines writes in
        (d.result ≡ first_error (length lines) writes)
        × ((rest : Text) × (d.file ++ rest ≡ text_of lines))
  unfolding write_lines
  write_lines-prefix [] writes = (refl, ([], refl))
  write_lines-prefix (line ∷ lines) [] =
      let (result, (rest, e)) = write_lines-prefix lines [] in
      (
        result ∙ first_error-nil (length lines),
        (rest, append_assoc line _ rest ∙ ap (λ t. line ++ t) e),
      )
  write_lines-prefix (line ∷ lines) (written ∷ writes) =
      let (result, (rest, e)) = write_lines-prefix lines writes in
      (result, (rest, append_assoc line _ rest ∙ ap (λ t. line ++ t) e))
  write_lines-prefix (line ∷ lines) (failed e n ∷ writes) = (
    refl,
    (
      drop n line ++ text_of lines,
      sym (append_assoc (take n line) (drop n line) (text_of lines))
          ∙ ap (λ t. t ++ text_of lines) (take-rest n line),
    ),
  )

csv_rows-IsRow : (hist : Histogram) (m : Metrics hist) → All IsRow (csv_rows hist m)
unfolding csv_rows
csv_rows-IsRow hist m = (
  record { no_comma = refl; no_end = refl },
  (record { no_comma = refl; no_end = refl }, (record { no_comma = refl; no_end = refl }, tt)),
)

module _ (hist : Histogram) {I : Type 0} where
  -- A dump whose writes succeed leaves a file from which a reader that splits at line ends and commas and
  -- reads the numbers back gets exactly the rows of the metrics, in order, under one line of heading.
  pub dump_csv_reads_back :
      (m : Metrics hist) (writes : List (Write I))
      → All IsWritten writes
      → (file : Text) × (dump_csv hist none writes m
          ≡ (some (record { result = ok tt; file = file }), ok tt))
        × (read_csv file ≡ map some (csv_rows hist m))
  unfolding dump_csv
  dump_csv_reads_back m writes h =
      let rows = csv_rows hist m in
      (
        text_of (csv_lines hist m),
        rw (write_lines-written (csv_lines hist m) writes h) refl,
        ap (λ ls. map (λ line. row_of (split_on 44 line)) (drop 1 ls))
              (lines_of-line (bytes "metric,p50,p90,p99,p99.9,sample_count")
                (text_of (map csv_line rows)) refl)
            ∙ ap (λ ls. map (λ line. row_of (split_on 44 line)) ls)
                (lines_of-rows rows (csv_rows-IsRow hist m))
            ∙ read_rows rows (csv_rows-IsRow hist m),
      )

  -- A dump into a file that could be created reports the first error among those of its four lines,
  -- or none, and what it has written until then is the beginning of the whole file.
  pub dump_csv_fails :
      (m : Metrics hist) (writes : List (Write I))
      → (d : Dumped I) × (dump_csv hist none writes m ≡ (some d, first_error 4 writes))
        × ((rest : Text) × (d.file ++ rest ≡ text_of (csv_lines hist m)))
  unfolding dump_csv csv_rows
  dump_csv_fails m writes =
      let (result, (rest, e)) = write_lines-prefix (csv_lines hist m) writes in
      (
        write_lines (csv_lines hist m) writes,
        ap (λ r. (some (write_lines (csv_lines hist m) writes), r)) result,
        (rest, e),
      )
