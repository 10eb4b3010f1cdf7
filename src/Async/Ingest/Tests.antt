-- ===== src/Async/Ingest/Tests.antt =====
-- Sessions of the client, and instances of its theorems.
use real_time_system_project.Common.{
  take, ◌⊎◌, ℕ, ◌≡◌, refl, false, List, [], ◌∷◌, none, some, length, bytes, arith,
}
use real_time_system_project.Async.Ingest.{
  IngestOutcome, limit_reached, frame_error, event, refused, opened, Session, run_sse,
}
use real_time_system_project.Async.Ingest.Limit.{run_sse_exact}
use real_time_system_project.Async.Ingest.Sleeps.{rows, run_sse_intervals}

-- Two refusals, a stream with a heartbeat and a broken frame that ends, and a stream.
abbrev sessions : List Session
sessions =
    record { cancel_top = false; reply = refused; cancel_slept = false }
    ∷ record { cancel_top = false; reply = refused; cancel_slept = false }
    ∷ record {
      cancel_top = false;
      reply = opened (event (bytes "a") ∷ event [] ∷ frame_error ∷ []);
      cancel_slept = false;
    }
    ∷ record {
      cancel_top = false;
      reply = opened (event (bytes "b") ∷ event (bytes "c") ∷ []);
      cancel_slept = false;
    }
    ∷ []

-- The stream that opens resets the interval.
two_delivered : run_sse (some 2) sessions ≡ record {
  outcome = some (limit_reached 2);
  payloads = bytes "a" ∷ bytes "b" ∷ [];
  sleeps = (200_000_000, 1) ∷ (400_000_000, 2) ∷ (200_000_000, 1) ∷ [];
}
unfolding run_sse
two_delivered = refl

-- The limit is looked at behind the delivery, so that a limit of 0 delivers one payload.
limit_zero_delivers : (run_sse (some 0) sessions).payloads ≡ bytes "a" ∷ []
unfolding run_sse
limit_zero_delivers = refl

ends_at_limit : (run_sse (some 2) sessions).outcome ≡ some (limit_reached 2)
unfolding run_sse
ends_at_limit = refl

run_sse_exact_example : (◌≡◌ {A = ℕ} 2 2) × (length (run_sse (some 2) sessions).payloads ≡ 2)
run_sse_exact_example = run_sse_exact 2 2 sessions (omega arith) (omega arith) ends_at_limit

run_sse_intervals_example :
    let r = run_sse none sessions in
    (r.sleeps ≡ take (length r.sleeps) (rows 0 sessions))
    × (((o : IngestOutcome) × (r.outcome ≡ some o)) ⊎ (length r.sleeps ≡ 4))
run_sse_intervals_example = run_sse_intervals none sessions (omega arith)
