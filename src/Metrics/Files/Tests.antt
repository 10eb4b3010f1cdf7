-- ===== src/Metrics/Files/Tests.antt =====
-- Dumps of new metrics: one that succeeds, and one on a full disk.
use real_time_system_project.Common.{◌≡◌, refl, List, [], ◌∷◌, none, some, Text, bytes, ok, map}
use real_time_system_project.Decimal.{decimal}
use real_time_system_project.Histogram.Sample.{samples}
use real_time_system_project.Metrics.{new, csv_rows}
use real_time_system_project.Metrics.Files.{Write, written, failed, dump_csv}
use real_time_system_project.Metrics.Files.Reading.{read_csv, dump_csv_reads_back}

numbers_print :
    (decimal 0 ≡ bytes "0") × (decimal 18446744073709551615 ≡ bytes "18446744073709551615")
unfolding decimal
numbers_print = (refl, refl)

abbrev successes : List (Write Text)
successes = written ∷ written ∷ []

dump_csv_reads_back_example :
    (file : Text) × (dump_csv samples none successes (new samples)
      ≡ (some (record { result = ok tt; file = file }), ok tt))
    × (read_csv file ≡ map some (csv_rows samples (new samples)))
dump_csv_reads_back_example = dump_csv_reads_back samples (new samples) successes (refl, (refl, tt))

abbrev full_disk : List (Write Text)
full_disk = written ∷ failed (bytes "no space") 3 ∷ []
