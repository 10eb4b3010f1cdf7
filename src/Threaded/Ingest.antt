-- ===== src/Threaded/Ingest.antt =====
-- crates/rts-threaded/src/ingest.rs: the blocking client of the event stream. A line is what the
-- iterator `lines` of the reader yields, or the error that ends it; the sink is the list of payloads.
pub mod Loop
mod Tests
use real_time_system_project.Common.{
  ℕ, ◌+◌, ◌*◌, Bool, true, false, List, [], ◌∷◌, ◌++◌, Option, none, some, if◌then◌else◌, leb, min,
  ◌||◌, ◌&&◌, not, Text, bytes, text_eq, ◌==◌, ◌≡◌, refl,
}
use real_time_system_project.Time.{Duration}
use real_time_system_project.Backoff.{initial_backoff, double}

pub data IngestOutcome : Type 0 where
  limit_reached cancelled : IngestOutcome

-- `str::strip_prefix`
abbrev pub strip_prefix : Text → Text → Option Text
strip_prefix [] s = some s
strip_prefix (c ∷ p) [] = none
strip_prefix (c ∷ p) (d ∷ s) = if c == d then strip_prefix p s else none

-- `trim_start_matches(' ')`
abbrev pub trim_spaces : Text → Text
trim_spaces [] = []
trim_spaces (c ∷ s) = if c == 32 then trim_spaces s else c ∷ s

-- `join("\n")`
abbrev pub join_lines : List Text → Text
join_lines [] = []
join_lines (l ∷ []) = l
join_lines (l ∷ m ∷ ls) = l ++ (10 ∷ join_lines (m ∷ ls))

-- `limit.is_some_and(|l| count >= l)`
abbrev pub at_limit : Option ℕ → ℕ → Bool
at_limit none count = false
at_limit (some l) count = leb l count

-- One round of the loop over the lines: what `cancel` reads, and the line or its error.
pub record Line : Type 0 where
  pub cancel : Bool
  pub line : Option Text

-- How a call of `read_stream` ends: whether with an error, the payloads and the count.
pub record Read : Type 0 where
  pub failed : Bool
  pub payloads : List Text
  pub count : ℕ

push_data : List Text → Option Text → List Text
push_data data_buf none = data_buf
push_data data_buf (some rest) = data_buf ++ (trim_spaces rest ∷ [])

-- The buffer after a line that is not blank: comments and other fields change nothing.
unfoldable pub read_field : List Text → Text → List Text
unfolding push_data
read_field data_buf line = push_data data_buf (strip_prefix (bytes "data:") line)

-- What a line does: the iterator fails, the buffer grows or stays, or a block is complete.
pub data Consumed : Type 0 where
  failure : Consumed
  kept : List Text → Consumed
  complete : Text → Consumed

unfoldable pub consume : List Text → Option Text → Consumed
unfolding read_field
consume data_buf none = failure
consume [] (some []) = kept []
consume (d ∷ data_buf) (some []) = complete (join_lines (d ∷ data_buf))
consume data_buf (some (c ∷ line)) = kept (read_field data_buf (c ∷ line))

abbrev pub emit : Text → Read → Read
emit payload r = record r { payloads = payload ∷ r.payloads }

-- The lines of one connection. The end of the list is the end of the stream, where a block that no
-- blank line closes is thrown away.
unfoldable pub read_lines : Option ℕ → List Text → ℕ → List Line → Read
unfolding consume
read_lines limit data_buf count [] = record { failed = false; payloads = []; count = count }
read_lines limit data_buf count (l ∷ ls) =
    if l.cancel || at_limit limit count
    then record { failed = false; payloads = []; count = count }
    else elim (consume data_buf l.line) [
      | failure ↦ record { failed = true; payloads = []; count = count }
      | kept buf ↦ read_lines limit buf count ls
      | complete payload ↦ emit payload (read_lines limit [] (count + 1) ls)
    ]

-- One connection: `none` where it is not made, else its lines.
unfoldable pub read_stream : Option ℕ → ℕ → Option (List Line) → Read
unfolding read_lines
read_stream limit count none = record { failed = true; payloads = []; count = count }
read_stream limit count (some lines) = read_lines limit [] count lines

-- One round of `run_sse`: what `cancel` reads at its top and after the connection.
pub record Attempt : Type 0 where
  pub cancel_before : Bool
  pub response : Option (List Line)
  pub cancel_after : Bool

-- What `run_sse` has done: `none` if it is still running, the payloads, and the durations of its
-- sleeps before the random factor between 0.8 and 1.2.
pub record Run : Type 0 where
  pub outcome : Option IngestOutcome
  pub payloads : List Text
  pub sleeps : List Duration

finished : IngestOutcome → List Text → Run
finished outcome payloads = record { outcome = some outcome; payloads = payloads; sleeps = [] }

-- What a round does after the connection, given what the rounds after its sleep do.
unfoldable pub after_stream : Bool → Duration → Read → Run → Run
unfolding finished
after_stream cancel backoff r rest =
    if r.failed && not cancel
    then record rest { payloads = r.payloads ++ rest.payloads; sleeps = backoff ∷ rest.sleeps }
    else finished (if cancel then cancelled else limit_reached) r.payloads

unfoldable pub connect : Option ℕ → ℕ → Duration → List Attempt → Run
unfolding after_stream read_stream
connect limit count backoff [] = record { outcome = none; payloads = []; sleeps = [] }
connect limit count backoff (a ∷ attempts) =
    let r = read_stream limit count a.response in
    let rest = connect limit r.count (double backoff) attempts in
    if a.cancel_before
    then finished cancelled []
    else (if at_limit limit count
        then finished limit_reached []
        else after_stream a.cancel_after backoff r rest)

unfoldable pub run_sse : Option ℕ → List Attempt → Run
unfolding connect
run_sse limit attempts = connect limit 0 initial_backoff attempts
