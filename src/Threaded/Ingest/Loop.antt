-- ===== src/Threaded/Ingest/Loop.antt =====
-- How much the client delivers, and how long it sleeps.
use real_time_system_project.Common.{
  ℕ, zero, suc, ◌+◌, ◌≤◌, ◌≡◌, refl, ap, sym, ◌∙◌, true, ◌||◌, List, [], ◌∷◌, Option, none, some,
  leb, arith, length, length-append, get_elem?, Text, Bool-cases, inl, inr,
}
use mathlib.Core.Option.{some_inj}
use real_time_system_project.Time.{Duration}
use real_time_system_project.Backoff.{initial_backoff, double, nth_backoff, double-nth_backoff}
use real_time_system_project.Threaded.Ingest.{
  Line, Read, Attempt, Consumed, consume, failure, kept, complete, emit, read_lines, read_stream,
  connect, run_sse,
}

-- The count has grown by the payloads, and not beyond the limit.
abbrev Counted : ℕ → ℕ → Read → Type 0
Counted l count r = (r.count ≡ count + length r.payloads) × (r.count ≤ l)

-- What a call of `read_stream` that has not stopped before the line goes on with.
abbrev goes_on : Option ℕ → ℕ → List Line → Consumed → Read
goes_on limit count ls failure = record { failed = true; payloads = []; count = count }
goes_on limit count ls (kept buf) = read_lines limit buf count ls
goes_on limit count ls (complete payload) = emit payload (read_lines limit [] (count + 1) ls)

goes_on_counts :
    (l count : ℕ) (ls : List Line) (c : Consumed)
    → suc count ≤ l
    → ((buf : List Text) (n : ℕ) → n ≤ l → Counted l n (read_lines (some l) buf n ls))
    → Counted l count (goes_on (some l) count ls c)
goes_on_counts l count ls failure h ih = omega arith
goes_on_counts l count ls (kept buf) h ih = ih buf count (omega arith)
goes_on_counts l count ls (complete payload) h ih = omega (arith, ih [] (count + 1) (omega arith))

read_lines_counts :
    (l : ℕ) (ls : List Line) (buf : List Text) (count : ℕ)
    → count ≤ l
    → Counted l count (read_lines (some l) buf count ls)
unfolding read_lines
read_lines_counts l [] buf count h = omega arith
read_lines_counts l (x ∷ ls) buf count h = elim (Bool-cases (x.cancel || leb l count)) [
  | inl e ↦ rw e (omega arith)
  | inr e ↦
      rw e (goes_on_counts l count ls (consume buf x.line) (ground arith) (read_lines_counts l ls))
]

read_stream_counts :
    (l count : ℕ) (response : Option (List Line))
    → count ≤ l
    → Counted l count (read_stream (some l) count response)
unfolding read_stream
read_stream_counts l count none h = omega arith
read_stream_counts l count (some ls) h = read_lines_counts l ls [] count h

connect_counts :
    (l : ℕ) (attempts : List Attempt) (count : ℕ) (backoff : Duration)
    → count ≤ l
    → count + length (connect (some l) count backoff attempts).payloads ≤ l
unfolding connect
connect_counts l [] count backoff h = omega arith
connect_counts l (a ∷ attempts) count backoff h =
    let r = read_stream (some l) count a.response in
    let (e, below) = read_stream_counts l count a.response h in
    let rest = connect_counts l attempts r.count (double backoff) below in
    ground (
      arith,
      rest,
      length-append r.payloads (connect (some l) r.count (double backoff) attempts).payloads,
    )

-- With a limit, no more payloads are delivered than the limit, over all the connections.
pub run_sse_limited :
    (l : ℕ) (attempts : List Attempt) → length (run_sse (some l) attempts).payloads ≤ l
unfolding run_sse
run_sse_limited l attempts =
    omega (arith, connect_counts l attempts 0 initial_backoff (omega arith))

abbrev Scheduled : ℕ → List Duration → Type 0
Scheduled j [] = Unit
Scheduled j (d ∷ ds) = (d ≡ nth_backoff j) × Scheduled (suc j) ds

connect_sleeps :
    (limit : Option ℕ) (attempts : List Attempt) (count j : ℕ) (backoff : Duration)
    → backoff ≡ nth_backoff j
    → Scheduled j (connect limit count backoff attempts).sleeps
unfolding connect
connect_sleeps limit [] count j backoff h = tt
connect_sleeps limit (a ∷ attempts) count j backoff h =
    let n = (read_stream limit count a.response).count in
    let next = double backoff in
    let next_h : next ≡ nth_backoff (suc j) = ap double h ∙ double-nth_backoff j in
    let rest = connect_sleeps limit attempts n (suc j) next next_h in ground arith

nth_sleep :
    (ds : List Duration) (j k : ℕ) {d : Duration}
    → Scheduled j ds
    → get_elem? ds k ≡ some d
    → d ≡ nth_backoff (j + k)
nth_sleep [] j k h e = cc
nth_sleep (x ∷ ds) j zero h e = sym (some_inj.0 e) ∙ h.0 ∙ ap nth_backoff (omega arith)
nth_sleep (x ∷ ds) j (suc k) h e = nth_sleep ds (suc j) k h.1 e ∙ ap nth_backoff (omega arith)

-- Before the random factor, the sleep of number `k`, from 0, is 200 milliseconds times two to the
-- power `k`, and 30 seconds at most, whatever the connections in between delivered.
pub run_sse_sleeps :
    (limit : Option ℕ) (attempts : List Attempt) (k : ℕ) {d : Duration}
    → get_elem? (run_sse limit attempts).sleeps k ≡ some d
    → d ≡ nth_backoff k
unfolding run_sse
run_sse_sleeps limit attempts k e =
    nth_sleep (run_sse limit attempts).sleeps 0 k
      (connect_sleeps limit attempts 0 0 initial_backoff refl) e
    ∙ ap nth_backoff (omega arith)
