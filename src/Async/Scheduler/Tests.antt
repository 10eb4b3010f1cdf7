-- ===== src/Async/Scheduler/Tests.antt =====
-- Two lanes with tasks, and an instance of the theorem on the order of service.
use real_time_system_project.Common.{◌≡◌, [], ◌∷◌}
use real_time_system_project.Priority.{human, bot}
use real_time_system_project.Histogram.Sample.{samples}
use real_time_system_project.Accounting.Tests.{edit, nothing}
use real_time_system_project.Async.Scheduler.{WorkerState, serve}
use real_time_system_project.Async.Scheduler.Order.{serve_lem}

abbrev loaded : WorkerState samples
loaded = record {
  hi = record { queue = edit human 4 ∷ edit human 5 ∷ []; capacity = 2; overflow = 0 };
  lo = record { queue = edit bot 1 ∷ edit bot 2 ∷ []; capacity = 2; overflow = 0 };
  recorded = nothing;
  channel = [];
}

-- Three rounds: both humans, although the bots are older, then the older bot.
serve_lem_example :
    serve samples loaded ((10, 11) ∷ (12, 13) ∷ (14, 15) ∷ [])
    ≡ edit human 4 ∷ edit human 5 ∷ edit bot 1 ∷ []
serve_lem_example = serve_lem samples loaded ((10, 11) ∷ (12, 13) ∷ (14, 15) ∷ [])
