-- ===== src/Async/System/Tests.antt =====
-- A run of the async pipeline, and an instance of its invariant.
use real_time_system_project.Common.{◌+◌, ◌%◌, ◌^◌, ◌≡◌, refl, List, [], ◌∷◌, arith}
use real_time_system_project.Event.{CowCounts, parse_one, into_owned}
use real_time_system_project.Ring.{push, try_pop, new}
use real_time_system_project.Histogram.Sample.{samples}
use real_time_system_project.FailSafe
use real_time_system_project.Accounting.{account}
use real_time_system_project.Admission.{admit}
use real_time_system_project.Leaderboard.{increment, Counts, update}
use real_time_system_project.Leaderboard
use real_time_system_project.Async.Parser.{dispatch}
use real_time_system_project.Async.Parser.Tests.{from_payload, at}
use real_time_system_project.Async.Scheduler.{work, try_send, process}
use real_time_system_project.Async.System.{
  Step, parse, serve, ticks, lead, cancel, System, start, run,
}
use real_time_system_project.Async.System.Conservation.{
  held_or_dropped, served_humans, humans_conserved,
}
use real_time_system_project.Async.System.Invariant.{IsSound, start-IsSound, run-IsSound}

-- Two humans into one slot, a worker, the actor, a bot, a tick, and a worker after the cancellation.
abbrev steps : List Step
steps =
    parse (at 10) (0 ∷ 65 ∷ [])
    ∷ parse (at 20) (0 ∷ 66 ∷ [])
    ∷ serve 30 40
    ∷ lead
    ∷ parse (at 50) (1 ∷ 67 ∷ [])
    ∷ ticks
    ∷ cancel
    ∷ serve 60 70
    ∷ []

abbrev no_counts : CowCounts
no_counts = record { borrowed_count = 0; owned_count = 0 }

newest_is_counted :
    let s = run samples from_payload (start samples 1 0 no_counts) steps in
    (s.hi.overflow ≡ 1) × (s.board ≡ (66 ∷ [], 1) ∷ []) × (s.shared.counts.borrowed_count ≡ 3)
unfolding FailSafe.is_degraded FailSafe.record_jitter FailSafe.new into_owned run start dispatch
    admit parse_one push try_pop new work process try_send account Leaderboard.run increment
newest_is_counted = (refl, refl, refl)

run-IsSound_example : IsSound samples (run samples from_payload (start samples 1 0 no_counts) steps)
run-IsSound_example =
    run-IsSound samples from_payload steps (start samples 1 0 no_counts)
      (start-IsSound samples 1 0 no_counts (omega arith))

abbrev begun : System samples
begun = start samples 1 0 no_counts

-- Two humans have come: one was dropped and one served.
humans_conserved_example :
    (held_or_dropped (run samples from_payload begun steps).hi
        + served_humans samples from_payload begun steps)
      % 2 ^ 64
    ≡ (held_or_dropped begun.hi + 2) % 2 ^ 64
humans_conserved_example =
    humans_conserved samples from_payload steps begun
      (start-IsSound samples 1 0 no_counts (omega arith))
