-- ===== src/Async/Ingest.antt =====
-- crates/rts-async/src/ingest.rs: the client of the event stream on Tokio. What the HTTP client, the
-- framing of `eventsource_stream` and the cancellation token yield is a script of sessions; the sink is
-- the list of payloads. Building the HTTP client, which can fail, comes before.
pub mod Limit
pub mod Sleeps
mod Tests
use real_time_system_project.Common.{
  ℕ, ◌+◌, ◌^◌, ◌-◌, Bool, true, false, ◌||◌, List, [], ◌∷◌, ◌++◌, Option, none, some, if◌then◌else◌,
  leb, min, Text, saturating_suc,
}
use real_time_system_project.Time.{Duration}
use real_time_system_project.Backoff.{initial_backoff, double}

pub data IngestOutcome : Type 0 where
  limit_reached : ℕ → IngestOutcome
  cancelled : IngestOutcome

-- What the biased `select!` on the stream yields; the end of a list of frames is the end of the stream.
pub data Frame : Type 0 where
  cancel_fires frame_error : Frame
  event : Text → Frame

-- What the biased `select!` on the request yields: the token, an error or a status of failure, a stream.
pub data Reply : Type 0 where
  cancel_first refused : Reply
  opened : List Frame → Reply

-- One round of the outer loop, with what the token says at its top and after the sleep.
pub record Session : Type 0 where
  pub cancel_top : Bool
  pub reply : Reply
  pub cancel_slept : Bool

-- How the inner loop ends: with an outcome, or with the end of the stream.
pub record Drained : Type 0 where
  pub outcome : Option IngestOutcome
  pub payloads : List Text
  pub delivered : ℕ

abbrev pub is_nil : Text → Bool
is_nil [] = true
is_nil (c ∷ s) = false

-- `delivered >= n` under `if let Some(n) = limit`
abbrev pub at_limit : Option ℕ → ℕ → Bool
at_limit none delivered = false
at_limit (some n) delivered = leb n delivered

abbrev pub emit : Text → Drained → Drained
emit payload r = record r { payloads = payload ∷ r.payloads }

unfoldable pub read_frames : Option ℕ → ℕ → List Frame → Drained
read_frames limit delivered [] = record { outcome = none; payloads = []; delivered = delivered }
read_frames limit delivered (cancel_fires ∷ frames) = record {
  outcome = some cancelled;
  payloads = [];
  delivered = delivered;
}
read_frames limit delivered (frame_error ∷ frames) = read_frames limit delivered frames
read_frames limit delivered (event payload ∷ frames) = elim (is_nil payload) [
  | true ↦ read_frames limit delivered frames
  | false ↦
      (let n = saturating_suc delivered in
        elim (at_limit limit n) [
          | true ↦ record {
            outcome = some (limit_reached n);
            payloads = payload ∷ [];
            delivered = n;
          }
          | false ↦ emit payload (read_frames limit n frames)
        ])
]

-- The variables of the loop; `consecutive_failures` is a `u32`.
pub record Counters : Type 0 where
  pub delivered : ℕ
  pub backoff : Duration
  pub consecutive_failures : ℕ

-- What `run_sse` has done: `none` if it is still running, the payloads, and for each sleep the interval
-- before the random factor with the number of failures that is logged.
pub record Run : Type 0 where
  pub outcome : Option IngestOutcome
  pub payloads : List Text
  pub sleeps : List (Duration × ℕ)

abbrev pub finished : IngestOutcome → List Text → Run
finished outcome payloads = record { outcome = some outcome; payloads = payloads; sleeps = [] }

abbrev pub after_payloads : List Text → Run → Run
after_payloads payloads r = record r { payloads = payloads ++ r.payloads }

abbrev pub after_sleep : Duration × ℕ → Run → Run
after_sleep s r = record r { sleeps = s ∷ r.sleeps }

-- One failure more, as at the three calls of `sleep_with_jitter`.
abbrev pub failing : Counters → Counters
failing c = record c { consecutive_failures = min (c.consecutive_failures + 1) (2 ^ 32 - 1) }

-- `sleep_with_jitter`: the variables after it.
abbrev pub slept : Counters → Counters
slept c = record c { backoff = double c.backoff }

-- The counters when a stream has opened and ended.
abbrev pub reopened : ℕ → Counters
reopened delivered = record {
  delivered = delivered;
  backoff = initial_backoff;
  consecutive_failures = 0;
}

-- The sleep after a failure, and the look at the token behind it.
abbrev pub retry : Counters → Bool → Run → Run
retry c true rest = after_sleep (c.backoff, c.consecutive_failures) (finished cancelled [])
retry c false rest = after_sleep (c.backoff, c.consecutive_failures) rest

-- What follows the inner loop.
abbrev pub after_stream : Option IngestOutcome → List Text → Run → Run
after_stream (some outcome) payloads rest = finished outcome payloads
after_stream none payloads rest = after_payloads payloads rest

unfoldable pub connect : Option ℕ → Counters → List Session → Run
unfolding read_frames
connect limit c [] = record { outcome = none; payloads = []; sleeps = [] }
connect limit c (s ∷ sessions) = elim s.cancel_top [
  | true ↦ finished cancelled []
  | false ↦ elim s.reply [
    | cancel_first ↦ finished cancelled []
    | refused ↦ retry (failing c) s.cancel_slept (connect limit (slept (failing c)) sessions)
    | opened frames ↦
        (let r = read_frames limit c.delivered frames in
          let c' = failing (reopened r.delivered) in
          after_stream r.outcome r.payloads
            (retry c' s.cancel_slept (connect limit (slept c') sessions)))
  ]
]

unfoldable pub run_sse : Option ℕ → List Session → Run
unfolding connect
run_sse limit sessions = connect limit (reopened 0) sessions
