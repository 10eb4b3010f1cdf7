-- ===== src/Replay/Roundtrip.antt =====
-- What the blocking client of crates/rts-threaded/src/ingest.rs reads of a replay.
use real_time_system_project.Common.{
  ℕ, ◌+◌, ◌≡◌, ◌≢◌, refl, ap, ◌∙◌, Bool, false, ◌&&◌, List, [], ◌∷◌, ◌++◌, append_assoc, none, some,
  if◌then◌else◌, ◌==◌, arith, length, map, Text, bytes, All,
}
use real_time_system_project.Replay.{sse_frame}
use real_time_system_project.Threaded.Ingest.{
  Line, read_lines, consume, read_field, read_stream, emit, trim_spaces,
}

-- The lines that `BufRead::lines` splits bytes into: at each byte 10, without a byte 13 before it; bytes
-- behind the last byte 10 are a line too.
cons_head : ℕ → List Text → List Text
cons_head c [] = (c ∷ []) ∷ []
cons_head c (l ∷ ls) = (c ∷ l) ∷ ls

starts_line : Text → Bool
starts_line [] = false
starts_line (c ∷ s) = c == 10

unfoldable pub split_lines : Text → List Text
unfolding cons_head starts_line
split_lines [] = []
split_lines (c ∷ s) =
    let rest = split_lines s in
    if c == 10 then [] ∷ rest else (if (c == 13) && starts_line s then rest else cons_head c rest)

-- A byte that neither ends a line nor is dropped before one.
abbrev pub IsPlain : ℕ → Type 0
IsPlain c = (c ≢ 10) × (c ≢ 13)

pub split_lines-line :
    (line : Text) (s : Text)
    → All IsPlain line
    → split_lines (line ++ (10 ∷ s)) ≡ line ∷ split_lines s
unfolding split_lines
split_lines-line [] s h = refl
split_lines-line (c ∷ line) s h = ground (arith, split_lines-line line s h.1)

split_lines-frame :
    (payload s : Text)
    → All IsPlain payload
    → split_lines (sse_frame payload ++ s)
      ≡ bytes "event: message" ∷ (bytes "data: " ++ payload) ∷ [] ∷ split_lines s
unfolding sse_frame split_lines
split_lines-frame payload s h =
    rw (append_assoc payload (bytes "\n\n") s, split_lines-line payload (10 ∷ s) h) refl

-- What a client reads of a line while nobody cancels.
abbrev pub heard : Text → Line
heard line = record { cancel = false; line = some line }

-- A payload without line ends that does not begin with a space.
abbrev pub IsFramed : Text → Type 0
IsFramed payload = All IsPlain payload × (trim_spaces payload ≡ payload)

abbrev pub stream_of : List Text → Text
stream_of [] = []
stream_of (p ∷ ps) = sse_frame p ++ stream_of ps

read_frame :
    (payload : Text) (count : ℕ) (ls : List Line)
    → trim_spaces payload ≡ payload
    → read_lines none [] count
        (heard (bytes "event: message") ∷ heard (bytes "data: " ++ payload) ∷ heard [] ∷ ls)
      ≡ emit payload (read_lines none [] (count + 1) ls)
unfolding read_lines read_field consume
read_frame payload count ls h = rw h refl

read_frames :
    (ps : List Text) (count : ℕ)
    → All IsFramed ps
    → read_lines none [] count (map heard (split_lines (stream_of ps)))
      ≡ record { failed = false; payloads = ps; count = count + length ps }
unfolding read_lines split_lines
read_frames [] count h = ground arith
read_frames (p ∷ ps) count h =
    ap (λ ls. read_lines none [] count (map heard ls)) (split_lines-frame p (stream_of ps) h.0.0)
    ∙ read_frame p count (map heard (split_lines (stream_of ps))) h.0.1
    ∙ ap (emit p) (read_frames ps (count + 1) h.1)
    ∙ ap (λ n. record { failed = false; payloads = p ∷ ps; count = n }) (omega arith)

-- The blocking client reads from the frames of a replay exactly the payloads that were recorded, in
-- order, if none of them holds a line end or begins with a space; it is not cancelled, and has no limit.
pub read_stream-frames :
    (ps : List Text)
    → All IsFramed ps
    → read_stream none 0 (some (map heard (split_lines (stream_of ps))))
      ≡ record { failed = false; payloads = ps; count = length ps }
unfolding read_stream
read_stream-frames ps h =
    read_frames ps 0 h ∙ ap (λ n. record { failed = false; payloads = ps; count = n }) (omega arith)
