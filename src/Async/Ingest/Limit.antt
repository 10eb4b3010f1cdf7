-- ===== src/Async/Ingest/Limit.antt =====
-- How many payloads the client delivers under a limit.
use real_time_system_project.Common.{
  ℕ, ◌+◌, ◌≤◌, ◌<◌, ◌≡◌, refl, Bool, true, false, List, [], ◌∷◌, ◌++◌, Option, none, some, arith,
  length, length-append, Text, u64_max, leb, saturating_suc, subst,
}
use real_time_system_project.Async.Ingest.{
  IngestOutcome, limit_reached, cancelled, Frame, cancel_fires, frame_error, event, Reply,
  cancel_first, refused, opened, Session, Drained, emit, read_frames, Counters, Run, failing, slept,
  reopened, connect, run_sse, retry, after_stream,
}

-- An end at the limit is reported with it, and has delivered as many.
abbrev Ends : ℕ → ℕ → Option IngestOutcome → Type 0
Ends l delivered none = Unit
Ends l delivered (some cancelled) = Unit
Ends l delivered (some (limit_reached n)) = (n ≡ l) × (delivered ≡ l)

abbrev GoesOn : ℕ → ℕ → Option IngestOutcome → Type 0
GoesOn l delivered none = delivered < l
GoesOn l delivered (some o) = Unit

abbrev Drains : ℕ → ℕ → Drained → Type 0
Drains l d r =
    (r.delivered ≡ d + length r.payloads)
    × (r.delivered ≤ l)
    × Ends l r.delivered r.outcome
    × GoesOn l r.delivered r.outcome

abbrev Within : ℕ → ℕ → Run → Type 0
Within l d r = (d + length r.payloads ≤ l) × Ends l (d + length r.payloads) r.outcome

delivers :
    (l d n : ℕ) (payload : Text) (rest : Drained) (b : Bool)
    → leb l n ≡ b
    → n ≡ d + 1
    → n ≤ l
    → (n < l → Drains l n rest)
    → Drains l d (elim b [
      | true ↦ record { outcome = some (limit_reached n); payloads = payload ∷ []; delivered = n }
      | false ↦ emit payload rest
    ])
delivers l d n payload rest true e h below more =
    (omega arith, omega arith, (ground (arith, e), ground (arith, e)), tt)
delivers l d n payload rest false e h below more =
    let (count, within, ends, open_end) = more (ground (arith, e)) in
    (omega (arith, count), within, ends, open_end)

read_frames-Drains :
    (l : ℕ) (frames : List Frame) (d : ℕ)
    → d < l
    → l ≤ u64_max
    → Drains l d (read_frames (some l) d frames)
unfolding read_frames
read_frames-Drains l [] d h u = (omega arith, omega arith, tt, h)
read_frames-Drains l (cancel_fires ∷ frames) d h u = (omega arith, omega arith, tt, tt)
read_frames-Drains l (frame_error ∷ frames) d h u = read_frames-Drains l frames d h u
read_frames-Drains l (event [] ∷ frames) d h u = read_frames-Drains l frames d h u
read_frames-Drains l (event (c ∷ s) ∷ frames) d h u =
    delivers l d (saturating_suc d) (c ∷ s) (read_frames (some l) (saturating_suc d) frames)
      (leb l (saturating_suc d)) refl (omega arith) (omega arith)
      (λ k. read_frames-Drains l frames (saturating_suc d) k u)

retry-Within :
    (l d : ℕ) (c : Counters) (b : Bool) (rest : Run)
    → d ≤ l
    → Within l d rest
    → Within l d (retry c b rest)
retry-Within l d c true rest h w = (omega arith, tt)
retry-Within l d c false rest h w = w

after_stream-Within :
    (l d delivered : ℕ) (o : Option IngestOutcome) (ps : List Text) (rest : Run)
    → delivered ≡ d + length ps
    → delivered ≤ l
    → Ends l delivered o
    → (o ≡ none → Within l delivered rest)
    → Within l d (after_stream o ps rest)
after_stream-Within l d n (some o) ps rest count h e w =
    (omega (arith, count), subst (λ n. Ends l n (some o)) count e)
after_stream-Within l d n none ps rest count h e w =
    let (bound, ends) = w refl in
    let total : n + length rest.payloads ≡ d + length (ps ++ rest.payloads) =
      omega (arith, count, length-append ps rest.payloads) in
    (omega (arith, bound, total), subst (λ n. Ends l n rest.outcome) total ends)

still_below : (l n : ℕ) (o : Option IngestOutcome) → GoesOn l n o → o ≡ none → n < l
still_below l n o h e = subst (GoesOn l n) e h

session-Within :
    (l : ℕ) (top : Bool) (reply : Reply) (b : Bool) (sessions : List Session) (c : Counters)
    → c.delivered < l
    → l ≤ u64_max
    → ((c : Counters) → c.delivered < l → Within l c.delivered (connect (some l) c sessions))
    → Within l c.delivered (
        connect
          (some l)
          c
          (record { cancel_top = top; reply = reply; cancel_slept = b } ∷ sessions))
unfolding connect
session-Within l true reply b sessions c h u rest = (omega arith, tt)
session-Within l false cancel_first b sessions c h u rest = (omega arith, tt)
session-Within l false refused b sessions c h u rest =
    retry-Within l c.delivered (failing c) b _ (omega arith) (rest (slept (failing c)) h)
session-Within l false (opened frames) b sessions c h u rest =
    let r = read_frames (some l) c.delivered frames in
    let (count, within, ends, open_end) = read_frames-Drains l frames c.delivered h u in
    let c' = failing (reopened r.delivered) in
    after_stream-Within l c.delivered r.delivered r.outcome r.payloads _ count within ends (λ e.
      retry-Within l r.delivered c' b _ within
        (rest (slept c') (still_below l r.delivered r.outcome open_end e)))

connect-Within :
    (l : ℕ) (sessions : List Session) (c : Counters)
    → c.delivered < l
    → l ≤ u64_max
    → Within l c.delivered (connect (some l) c sessions)
unfolding connect
connect-Within l [] c h u = (omega arith, tt)
connect-Within l (s ∷ sessions) c h u =
    session-Within l s.cancel_top s.reply s.cancel_slept sessions c h u
      (λ c h. connect-Within l sessions c h u)

-- With a limit from 1 on, no more payloads than the limit are delivered, over all the sessions.
run_sse_within_limit :
    (l : ℕ) (sessions : List Session)
    → 0 < l
    → l ≤ u64_max
    → length (run_sse (some l) sessions).payloads ≤ l
unfolding run_sse
run_sse_within_limit l sessions h u = omega (arith, (connect-Within l sessions (reopened 0) h u).0)

Ends-exactly :
    (l d n : ℕ) (o : Option IngestOutcome)
    → o ≡ some (limit_reached n)
    → Ends l d o
    → (n ≡ l) × (d ≡ l)
Ends-exactly l d n o e h = subst (Ends l d) e h

-- With a limit from 1 on, an end that is reported as the limit is reported with the limit, and has
-- delivered exactly as many payloads.
pub run_sse_exact :
    (l n : ℕ) (sessions : List Session)
    → 0 < l
    → l ≤ u64_max
    → (run_sse (some l) sessions).outcome ≡ some (limit_reached n)
    → (n ≡ l) × (length (run_sse (some l) sessions).payloads ≡ l)
unfolding run_sse
run_sse_exact l n sessions h u e =
    let r = run_sse (some l) sessions in
    let (bound, ends) = connect-Within l sessions (reopened 0) h u in
    let (a, b) = Ends-exactly l (0 + length r.payloads) n r.outcome e ends in (a, omega (arith, b))
