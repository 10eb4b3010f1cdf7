-- ===== src/Threaded/System/Tests.antt =====
-- A run of the threaded pipeline with two workers, up to its end, and instances of its theorems.
use real_time_system_project.Workers.{all_ended}
use real_time_system_project.Common.{
  ℕ, zero, suc, ◌%◌, ◌^◌, ◌≤◌, ◌<◌, ◌≡◌, refl, true, List, [], ◌∷◌, ◌++◌, Option, some, none, arith,
  map, length,
}
use real_time_system_project.Event.{CowCounts, parse_one}
use real_time_system_project.Histogram.Sample.{samples}
use real_time_system_project.Watchdog.{touch}
use real_time_system_project.Watchdog
use real_time_system_project.Admission.{admit}
use real_time_system_project.Leaderboard.{Counts, update}
use real_time_system_project.Leaderboard.Counts.{edits, total_of, entries_of}
use real_time_system_project.Leaderboard.Snapshots.{IsDescending}
use real_time_system_project.Async.Parser.Tests.{from_payload, at}
use real_time_system_project.Threaded.Heap.ListHeap.{list_heap, pop_list}
use real_time_system_project.Threaded.PriorityQueue.{push, pop, new}
use real_time_system_project.Threaded.Parser.{dispatch}
use real_time_system_project.Threaded.System.{
  Step, parse, work, check, ticks, lead, cancel, System, start, run, shutdown,
}
use real_time_system_project.Threaded.System.Invariant.{Goes, start-IsSound}
use real_time_system_project.Threaded.System.Conservation.{run-Goes, arrived, finished}
use real_time_system_project.Threaded.System.Shutdown.{shutdown_counts}
use real_time_system_project.Threaded.System.Updates.{finished_names}
use real_time_system_project.Threaded.System.Join.{rounds_in, run-all_ended}

abbrev no_counts : CowCounts
no_counts = record { borrowed_count = 0; owned_count = 0 }

abbrev begun : System list_heap samples
begun = start list_heap samples 4 2 0 no_counts

-- Two humans, of whom worker 1 takes one before the cancellation, and one that nobody takes.
abbrev before : List Step
before =
    parse (at 10) (0 ∷ 65 ∷ [])
    ∷ work 0 20 21
    ∷ work 1 20 21
    ∷ parse (at 30) (0 ∷ 66 ∷ [])
    ∷ work 0 40 41
    ∷ lead
    ∷ work 1 42 43
    ∷ parse (at 50) (0 ∷ 67 ∷ [])
    ∷ check 60
    ∷ ticks
    ∷ []

abbrev joins : List Step
joins = work 0 70 71 ∷ work 1 72 73 ∷ lead ∷ work 1 74 75 ∷ work 0 76 77 ∷ []

abbrev ending : Option (System list_heap samples)
ending = run list_heap samples from_payload begun (before ++ (cancel ∷ joins))

abbrev or_begun : Option (System list_heap samples) → System list_heap samples
or_begun none = begun
or_begun (some s) = s

abbrev final : System list_heap samples
final = or_begun ending

abbrev cancelled_state : System list_heap samples
cancelled_state = or_begun (run list_heap samples from_payload begun (before ++ (cancel ∷ [])))

ending_returns : (ending ≡ some final) × (all_ended final.workers ≡ true)
unfolding run start dispatch admit parse_one push new pop pop_list Watchdog.is_stale touch
ending_returns = (refl, refl)

joins_return :
    (cancelled_state.cancelled ≡ true)
    × (length cancelled_state.workers ≡ 2)
    × (run list_heap samples from_payload cancelled_state joins ≡ some final)
unfolding run start dispatch admit parse_one push new pop pop_list Watchdog.is_stale touch
joins_return = (refl, refl, refl)

run-Goes_example :
    Goes list_heap samples begun
      (arrived list_heap samples from_payload begun (before ++ (cancel ∷ joins)))
      (finished list_heap samples from_payload begun (before ++ (cancel ∷ joins)))
      ending
run-Goes_example =
    run-Goes list_heap samples from_payload (before ++ (cancel ∷ joins)) begun
      (start-IsSound list_heap samples 4 2 0 no_counts (omega arith))

shutdown_counts_example :
    (reply : Counts) × (shutdown list_heap samples final ≡ some reply)
    × (total_of (65 ∷ []) reply % 2 ^ 64
        ≡ edits (65 ∷ []) (
            map update
              (finished_names list_heap samples from_payload begun (before ++ (cancel ∷ joins))))
          % 2 ^ 64)
    × (entries_of (65 ∷ []) reply ≤ 1)
    × IsDescending reply
shutdown_counts_example =
    shutdown_counts list_heap samples from_payload 4 2 0 no_counts (before ++ (cancel ∷ joins))
      (65 ∷ []) ending_returns.0 ending_returns.1

two_rounds : (i : ℕ) → i < 2 → 2 ≤ rounds_in i joins
two_rounds zero h = omega arith
two_rounds (suc zero) h = omega arith
two_rounds (suc (suc i)) h = absurd (omega (arith, h))

run-all_ended_example : all_ended final.workers ≡ true
run-all_ended_example =
    run-all_ended list_heap samples from_payload joins cancelled_state joins_return.0 joins_return.2
      (λ i h. two_rounds i (omega (arith, h, joins_return.1)))
