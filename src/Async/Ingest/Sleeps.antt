-- ===== src/Async/Ingest/Sleeps.antt =====
-- How long the client waits between its attempts.
use real_time_system_project.Common.{
  subst, take, ◌⊎◌, inl, inr, ℕ, suc, ◌+◌, ◌-◌, ◌^◌, ◌≤◌, ◌<◌, ◌≡◌, refl, ap, ◌∙◌, Bool, true,
  false, List, [], ◌∷◌, Option, none, some, arith, length, Text,
}
use real_time_system_project.Time.{Duration}
use real_time_system_project.Backoff.{double, nth_backoff, double-nth_backoff}
use real_time_system_project.Async.Ingest.{
  after_sleep, cancelled, IngestOutcome, Reply, cancel_first, refused, opened, Session, read_frames,
  Counters, Run, failing, slept, reopened, connect, run_sse, retry, after_stream,
}

-- The interval and the number of each sleep, if every attempt is followed by one: a refused attempt is one
-- failure more in the row, and a stream that has opened and ended is the first of a new row.
abbrev pub rows : ℕ → List Session → List (Duration × ℕ)
rows failures [] = []
rows failures (s ∷ sessions) = elim s.reply [
  | cancel_first ↦ []
  | refused ↦ (nth_backoff failures, suc failures) ∷ rows (suc failures) sessions
  | opened frames ↦ (nth_backoff 0, 1) ∷ rows 1 sessions
]

-- The sleeps are the first of those, one for each of `n` attempts unless the run has ended.
abbrev Follows : List (Duration × ℕ) → ℕ → Run → Type 0
Follows expected n r =
    (r.sleeps ≡ take (length r.sleeps) expected)
    × (((o : IngestOutcome) × (r.outcome ≡ some o)) ⊎ (length r.sleeps ≡ n))

-- The counters between two sessions.
abbrev InStep : Counters → Type 0
InStep c = c.backoff ≡ nth_backoff c.consecutive_failures

abbrev u32_max : ℕ
u32_max = 2 ^ 32 - 1

failing_next :
    (c : Counters)
    → c.consecutive_failures < u32_max
    → (failing c).consecutive_failures ≡ suc c.consecutive_failures
failing_next c h = omega arith

slept-InStep :
    (c : Counters) → InStep c → c.consecutive_failures < u32_max → InStep (slept (failing c))
slept-InStep c v h =
    ap double v
    ∙ double-nth_backoff c.consecutive_failures
    ∙ ap nth_backoff (omega (arith, failing_next c h))

one_more :
    (first : Duration × ℕ) (expected : List (Duration × ℕ)) (n : ℕ) (rest : Run)
    → Follows expected n rest
    → Follows (first ∷ expected) (suc n) (after_sleep first rest)
one_more first expected n rest (prefix, inl ended) = (ap (λ l. first ∷ l) prefix, inl ended)
one_more first expected n rest (prefix, inr all) = (ap (λ l. first ∷ l) prefix, inr (ap suc all))

retry-Follows :
    (c : Counters) (b : Bool) (expected : List (Duration × ℕ)) (n : ℕ) (rest : Run)
    → InStep c
    → c.consecutive_failures < u32_max
    → Follows expected n rest
    → Follows
        ((nth_backoff c.consecutive_failures, suc c.consecutive_failures) ∷ expected)
        (suc n)
        (retry (failing c) b rest)
retry-Follows c b expected n rest v h w =
    subst (λ (first : Duration × ℕ). Follows (first ∷ expected) (suc n) (retry (failing c) b rest))
      sleep (with_sleep b)
  where
    sleep :
        ◌≡◌ {A = Duration × ℕ}
          (c.backoff, (failing c).consecutive_failures)
          (nth_backoff c.consecutive_failures, suc c.consecutive_failures)
    sleep =
        ap (λ d. (d, (failing c).consecutive_failures)) v
        ∙ ap (λ n. (nth_backoff c.consecutive_failures, n)) (failing_next c h)

    with_sleep :
        (b : Bool)
        → Follows
            ((c.backoff, (failing c).consecutive_failures) ∷ expected)
            (suc n)
            (retry (failing c) b rest)
    with_sleep true = (refl, inl (cancelled, refl))
    with_sleep false = one_more (c.backoff, (failing c).consecutive_failures) expected n rest w

after_stream-Follows :
    (o : Option IngestOutcome) (ps : List Text) (expected : List (Duration × ℕ)) (n : ℕ)
    (rest : Run)
    → Follows expected n rest
    → Follows expected n (after_stream o ps rest)
after_stream-Follows (some o) ps expected n rest w = (refl, inl (o, refl))
after_stream-Follows none ps expected n rest w = w

session-Follows :
    (limit : Option ℕ) (top : Bool) (reply : Reply) (b : Bool) (sessions : List Session)
    (c : Counters)
    → InStep c
    → c.consecutive_failures + suc (length sessions) ≤ u32_max
    → ((c : Counters)
        → InStep c
        → c.consecutive_failures + length sessions ≤ u32_max
        → Follows
            (rows c.consecutive_failures sessions)
            (length sessions)
            (connect limit c sessions))
    → let all = record { cancel_top = top; reply = reply; cancel_slept = b } ∷ sessions in
      Follows (rows c.consecutive_failures all) (suc (length sessions)) (connect limit c all)
unfolding connect
session-Follows limit true reply b sessions c v h rest = (refl, inl (cancelled, refl))
session-Follows limit false cancel_first b sessions c v h rest = (refl, inl (cancelled, refl))
session-Follows limit false refused b sessions c v h rest =
    retry-Follows c b (rows (suc c.consecutive_failures) sessions) (length sessions) _ v
      (omega (arith, h))
      (subst
        (λ n.
          Follows (rows n sessions) (length sessions) (connect limit (slept (failing c)) sessions))
        (failing_next c (omega (arith, h)))
        (rest (slept (failing c)) (slept-InStep c v (omega (arith, h)))
          (omega (arith, h, failing_next c (omega (arith, h))))))
session-Follows limit false (opened frames) b sessions c v h rest =
    let r = read_frames limit c.delivered frames in
    let c' = reopened r.delivered in
    after_stream-Follows r.outcome r.payloads _ _ _ (
      retry-Follows c' b (rows 1 sessions) (length sessions) _ refl (omega arith)
        (rest (slept (failing c')) (slept-InStep c' refl (omega arith)) (omega (arith, h))))

connect-Follows :
    (limit : Option ℕ) (sessions : List Session) (c : Counters)
    → InStep c
    → c.consecutive_failures + length sessions ≤ u32_max
    → Follows (rows c.consecutive_failures sessions) (length sessions) (connect limit c sessions)
unfolding connect
connect-Follows limit [] c v h = (refl, inr refl)
connect-Follows limit (s ∷ sessions) c v h =
    session-Follows limit s.cancel_top s.reply s.cancel_slept sessions c v (omega (arith, h))
      (λ c v h. connect-Follows limit sessions c v h)

-- The sleeps of a run of fewer than 2 to the 32 attempts, before the random factor, with the numbers that are
-- logged: a refused attempt is one failure more in a row, a stream that opens and ends is the first failure of
-- a new row, and the sleep after the failure number `n + 1` of a row is 200 milliseconds doubled `n` times, and
-- 30 seconds at most. A run that has not ended has slept once after each attempt.
pub run_sse_intervals :
    (limit : Option ℕ) (sessions : List Session)
    → length sessions < 2 ^ 32
    → let r = run_sse limit sessions in
      (r.sleeps ≡ take (length r.sleeps) (rows 0 sessions))
      × (((o : IngestOutcome) × (r.outcome ≡ some o)) ⊎ (length r.sleeps ≡ length sessions))
unfolding run_sse
run_sse_intervals limit sessions h =
    connect-Follows limit sessions (reopened 0) refl (omega (arith, h))
