-- ===== src/Threaded/Worker/Tests.antt =====
-- Three passes of a worker, and an instance of the theorem on what it leaves behind.
use real_time_system_project.Common.{◌%◌, ◌^◌, ◌+◌, ◌≡◌, refl, true, false, List, [], ◌∷◌, map}
use real_time_system_project.Event.{Task}
use real_time_system_project.Priority.{human, bot, is_human, is_bot}
use real_time_system_project.Histogram.Sample.{samples}
use real_time_system_project.FailSafe.{record_all}
use real_time_system_project.Accounting.Samples.{late_of}
use real_time_system_project.Accounting.Folds.{keep_samples, drifts_of, duration_of, log_of}
use real_time_system_project.Accounting.Tests.{edit, nothing}
use real_time_system_project.Threaded.Heap.ListHeap.{list_heap, pop_list}
use real_time_system_project.Threaded.PriorityQueue.{PriorityQueue, prioritised, pop_blocking}
use real_time_system_project.Threaded.Worker.{Pass, Work, worker}
use real_time_system_project.Threaded.Worker.Accounts.{taken, update_of, worker_accounts}

abbrev holding : List Task → PriorityQueue list_heap
holding ts = record { inner = map prioritised ts; capacity = 4; overflow = 0 }

-- A human, then a bot after a round with no task, then the cancellation while a task is left.
abbrev passes : List (Pass list_heap samples)
passes =
    record { rounds = (false, holding (edit human 5 ∷ [])) ∷ []; actual_start = 9; finished = 20 }
    ∷ record {
      rounds = (false, holding []) ∷ (false, holding (edit bot 6 ∷ [])) ∷ [];
      actual_start = 20;
      finished = 3_000_020;
    }
    ∷ record { rounds = (true, holding (edit bot 7 ∷ [])) ∷ []; actual_start = 30; finished = 40 }
    ∷ []

abbrev fresh : Work list_heap samples
fresh = record { recorded = nothing; channel = []; logs = [] }

two_taken :
    taken list_heap samples passes ≡ (edit human 5, 9, 20) ∷ (edit bot 6, 20, 3_000_020) ∷ []
unfolding pop_blocking pop_list
two_taken = refl

worker_accounts_example :
    let w = worker list_heap samples fresh passes in
    let ts = taken list_heap samples passes in
    let m = w.recorded.metrics in
    (m.drift_human ≡ keep_samples samples nothing.metrics.drift_human (drifts_of is_human ts))
    × (m.drift_bot ≡ keep_samples samples nothing.metrics.drift_bot (drifts_of is_bot ts))
    × (m.jitter ≡ keep_samples samples nothing.metrics.jitter (map duration_of ts))
    × (w.recorded.failsafe ≡ record_all samples nothing.failsafe (map duration_of ts))
    × (m.deadline_miss_human % 2 ^ 64
        ≡ (nothing.metrics.deadline_miss_human + late_of is_human ts) % 2 ^ 64)
    × (m.deadline_miss_bot % 2 ^ 64
        ≡ (nothing.metrics.deadline_miss_bot + late_of is_bot ts) % 2 ^ 64)
    × (w.channel ≡ map (update_of list_heap samples) ts)
    × (w.logs ≡ map log_of ts)
worker_accounts_example = worker_accounts list_heap samples passes fresh
