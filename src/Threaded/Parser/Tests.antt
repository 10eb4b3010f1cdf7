-- ===== src/Threaded/Parser/Tests.antt =====
-- Payloads into a queue over a list, and an instance of the theorem on the parser.
use mathlib.Core.List.{Perm, Pairwise}
use real_time_system_project.Common.{
  some, map, length, ◌++◌, ◌≡◌, refl, Bool, true, false, List, [], ◌∷◌, none, Text, arith,
}
use real_time_system_project.Event.{parse_one}
use real_time_system_project.Admission.{Clock, Shared, admit}
use real_time_system_project.Async.Parser.Tests.{from_payload, at}
use real_time_system_project.Threaded.Heap.ListHeap.{list_heap}
use real_time_system_project.Threaded.PriorityQueue.{PriorityQueue, push, evict, worst, badness}
use real_time_system_project.Threaded.PriorityQueue
use real_time_system_project.Threaded.PriorityQueue.Bounds.{IsBounded}
use real_time_system_project.Threaded.PriorityQueue.{prioritised}
use real_time_system_project.Threaded.PriorityQueue.Eviction.{tasks}
use real_time_system_project.Threaded.PriorityQueue.Drain.{served}
use real_time_system_project.Threaded.Heap.{Earlier}
use real_time_system_project.Threaded.Parser.Service.{let_in_all, dispatch_all_served}
use real_time_system_project.Threaded.Parser.{QueueState, dispatch_all}

abbrev shared : Shared
shared = record {
  watchdog = record { last_ns = 0 };
  counts = record { borrowed_count = 0; owned_count = 0 };
}

abbrev idle : QueueState list_heap
idle = record { queue = PriorityQueue.new list_heap 1; shared = shared }

abbrev calls : List (Bool × Clock × Text)
calls = (false, at 10, 0 ∷ 65 ∷ []) ∷ (false, at 20, []) ∷ (true, at 30, 1 ∷ 66 ∷ []) ∷ []

-- With a queue of capacity 0 the first payload of a human panics.
no_room_panics :
    dispatch_all list_heap from_payload calls
      (record idle { queue = PriorityQueue.new list_heap 0 })
    ≡ none
unfolding dispatch_all admit parse_one push evict worst PriorityQueue.new
no_room_panics = refl

idle-IsBounded : IsBounded list_heap idle.queue
unfolding PriorityQueue.new
idle-IsBounded = omega arith

-- A bot, a human, a payload that does not parse, and a bot in degraded mode.
abbrev mixed_calls : List (Bool × Clock × Text)
mixed_calls =
    (false, at 10, 1 ∷ 67 ∷ [])
    ∷ (false, at 20, 0 ∷ 65 ∷ [])
    ∷ (false, at 30, [])
    ∷ (true, at 40, 1 ∷ 66 ∷ [])
    ∷ []

abbrev room_for_two : QueueState list_heap
room_for_two = record { queue = PriorityQueue.new list_heap 2; shared = shared }

dispatch_all_served_example :
    (s' : QueueState list_heap) × (dispatch_all list_heap from_payload mixed_calls room_for_two
      ≡ some s')
    × (s'.queue.overflow ≡ 0)
    × Perm
        (map prioritised (let_in_all from_payload mixed_calls) ++ [])
        (served list_heap (length (tasks list_heap s'.queue)) s'.queue)
    × Pairwise Earlier (served list_heap (length (tasks list_heap s'.queue)) s'.queue)
unfolding PriorityQueue.new
dispatch_all_served_example =
    dispatch_all_served from_payload list_heap mixed_calls room_for_two (omega arith)

two_let_in :
    map (λ t. t.enqueued_at) (let_in_all from_payload mixed_calls)
    ≡ (at 10).enqueued_at ∷ (at 20).enqueued_at ∷ []
two_let_in = refl
