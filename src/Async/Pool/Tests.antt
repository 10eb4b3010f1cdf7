-- ===== src/Async/Pool/Tests.antt =====
-- A run in which a worker sends its update behind the snapshot, and instances of the theorems.
use real_time_system_project.Common.{
  ◌≤◌, ◌≡◌, refl, true, List, [], ◌∷◌, ◌++◌, some, map, length, All, ltb, get_elem?,
}
use real_time_system_project.Event.{CowCounts, parse_one, into_owned}
use real_time_system_project.Histogram.Sample.{samples}
use real_time_system_project.Ring.{push, try_pop, new}
use real_time_system_project.Watchdog.{touch}
use real_time_system_project.Admission.{admit}
use real_time_system_project.FailSafe
use real_time_system_project.Accounting.{account}
use real_time_system_project.Leaderboard.{update, increment, sort_desc, Counts}
use real_time_system_project.Leaderboard
use real_time_system_project.Leaderboard.Snapshots.{board}
use real_time_system_project.Workers.{looking}
use real_time_system_project.Async.Parser.{dispatch}
use real_time_system_project.Async.Parser.Tests.{from_payload, at}
use real_time_system_project.Async.Scheduler.{select, process, try_send, channel_capacity}
use real_time_system_project.Async.System as AsyncSystem
use real_time_system_project.Async.System.{Step}
use real_time_system_project.Async.Pool.{
  Pool, Move, parse, take, finish, lead, cancel, ask, start, step, run,
}
use real_time_system_project.Async.Pool.Updates.{IsQuiet, sent_names, board_ahead, replies_ahead}
use real_time_system_project.Async.Pool.Missed.{few_updates_missed}

abbrev no_counts : CowCounts
no_counts = record { borrowed_count = 0; owned_count = 0 }

abbrev begun : Pool samples
begun = start samples 4 2 0 no_counts

-- Both workers take a task; one sends its update before the snapshot, the other behind it.
abbrev before : List Move
before =
    parse (at 10) (0 ∷ 65 ∷ [])
    ∷ parse (at 20) (0 ∷ 66 ∷ [])
    ∷ take 0
    ∷ take 1
    ∷ finish 0 30 40
    ∷ lead
    ∷ cancel
    ∷ []

abbrev after : List Move
after = lead ∷ finish 1 30 50 ∷ lead ∷ take 0 ∷ take 1 ∷ []

abbrev at_snapshot : Pool samples
at_snapshot = run samples from_payload begun before

one_update_missed :
    ((run samples from_payload (step samples from_payload at_snapshot ask) after).replies
      ≡ ((65 ∷ [], 1) ∷ []) ∷ [])
    × (sent_names samples from_payload (step samples from_payload at_snapshot ask) after
        ≡ (66 ∷ []) ∷ [])
unfolding run start AsyncSystem.start AsyncSystem.step dispatch admit parse_one push try_pop new
    touch into_owned select process try_send account Leaderboard.run increment sort_desc
    FailSafe.is_degraded FailSafe.new FailSafe.record_jitter
one_update_missed = (refl, refl)

no_snapshots : All IsQuiet before × All IsQuiet after
no_snapshots = (
  (refl, (refl, (refl, (refl, (refl, (refl, (refl, tt))))))),
  (refl, (refl, (refl, (refl, (refl, tt))))),
)

cancelled_with_room :
    (at_snapshot.base.cancelled ≡ true)
    × (ltb (length at_snapshot.base.channel) channel_capacity ≡ true)
unfolding run start AsyncSystem.start AsyncSystem.step dispatch admit parse_one push try_pop new
    touch into_owned select process try_send account Leaderboard.run increment sort_desc
    FailSafe.is_degraded FailSafe.new FailSafe.record_jitter
cancelled_with_room = (refl, refl)

few_updates_missed_example :
    let p = step samples from_payload at_snapshot ask in
    let missed = sent_names samples from_payload p after in
    let q = run samples from_payload p after in
    (replies_ahead samples q
      ≡ board (map update (sent_names samples from_payload begun before)) ∷ [])
    × (board_ahead samples q
        ≡ (Leaderboard.run []
            (map update (sent_names samples from_payload begun before ++ missed))).1)
    × (length missed ≤ 2)
few_updates_missed_example =
    few_updates_missed samples from_payload 4 2 0 no_counts before after no_snapshots.0
      no_snapshots.1 cancelled_with_room.0 cancelled_with_room.1

looking_twice : get_elem? begun.workers 0 ≡ some looking
unfolding start
looking_twice = refl
