-- ===== src/Threaded/PriorityQueue/Tests.antt =====
-- Runs of the queue over a list as the heap, some of them those of the tests in scheduler.rs, and
-- instances of its theorems.
use mathlib.Core.List.{Mem, Perm, Pairwise, mem-cons_self}
use real_time_system_project.Common.{
  ℕ, ◌≡◌, ◌↔◌, ◌≤◌, refl, Bool, true, false, List, [], ◌∷◌, map, none, some, arith, swap_remove,
}
use real_time_system_project.Ring.{ok, dropped_oldest}
use real_time_system_project.Event.{Task}
use real_time_system_project.Priority.{Priority, human, bot, is_bot}
use real_time_system_project.Threaded.Heap.{PrioritisedTask, Earlier, task_cmp}
use real_time_system_project.Threaded.Heap.ListHeap.{list_heap, pop_list}
use real_time_system_project.Threaded.PriorityQueue.{
  PriorityQueue, Popped, new, push, pop, pop_blocking, prioritised, evict, worst, badness,
}
use real_time_system_project.Threaded.PriorityQueue.Eviction.{
  tasks, Evicts, push_panics_iff, push_room, push_full,
}
use real_time_system_project.Threaded.PriorityQueue.Bounds.{IsBounded, push_evicts_oldest_bot}
use real_time_system_project.Threaded.PriorityQueue.Drain.{drain, served, drain_sorted}

abbrev task_at : Priority → ℕ → Task
task_at p t = record {
  event = record { user = []; bot = is_bot p; server_name = [] };
  priority = p;
  enqueued_at = t;
}

abbrev queue : List Task → PriorityQueue list_heap
queue ts = record { inner = map prioritised ts; capacity = 2; overflow = 0 }

abbrev two_bots : PriorityQueue list_heap
two_bots = queue (task_at bot 1 ∷ task_at bot 2 ∷ [])

abbrev mixed : PriorityQueue list_heap
mixed = queue (task_at bot 1 ∷ task_at human 3 ∷ [])

-- `overflow_evicts_worst`: of two tasks of bots the older one makes room.
overflow_evicts_worst :
    push list_heap two_bots (task_at human 3)
    ≡ some (dropped_oldest, record (queue (task_at human 3 ∷ task_at bot 2 ∷ [])) { overflow = 1 })
unfolding push evict worst badness swap_remove
overflow_evicts_worst = refl

-- `human_before_bot`
human_before_bot : drain list_heap 2 mixed ≡ task_at human 3 ∷ task_at bot 1 ∷ []
unfolding drain pop pop_list task_cmp
human_before_bot = refl

two_bots-IsBounded : IsBounded list_heap two_bots
two_bots-IsBounded = omega arith

push_panics_iff_example :
    (push list_heap (new list_heap 0) (task_at bot 1) ≡ none)
    ↔ (((new list_heap 0).capacity ≡ 0) × (tasks list_heap (new list_heap 0) ≡ []))
push_panics_iff_example = push_panics_iff list_heap (new list_heap 0) (task_at bot 1)

push_room_example :
    (q' : PriorityQueue list_heap) × (push list_heap (new list_heap 1) (task_at bot 1)
      ≡ some (ok, q'))
    × Perm (tasks list_heap q') (prioritised (task_at bot 1) ∷ tasks list_heap (new list_heap 1))
    × (q'.overflow ≡ (new list_heap 1).overflow)
    × (q'.capacity ≡ (new list_heap 1).capacity)
unfolding new
push_room_example = push_room list_heap (new list_heap 1) (task_at bot 1) (omega arith)

push_full_example :
    (q' : PriorityQueue list_heap) × (push list_heap two_bots (task_at human 3)
      ≡ some (dropped_oldest, q'))
    × Evicts list_heap two_bots (task_at human 3) q'
push_full_example = push_full list_heap two_bots (task_at human 3) (omega arith) (λ e. cc)

push_evicts_oldest_bot_example :
    (q' : PriorityQueue list_heap) × (victim : PrioritisedTask) × (kept : List PrioritisedTask)
    × (push list_heap two_bots (task_at human 3) ≡ some (dropped_oldest, q'))
    × Perm (tasks list_heap two_bots) (victim ∷ kept)
    × Perm (tasks list_heap q') (prioritised (task_at human 3) ∷ kept)
    × (victim.priority ≡ bot)
    × ((z : PrioritisedTask)
        → Mem z (tasks list_heap two_bots)
        → z.priority ≡ bot
        → victim.enqueued_at ≤ z.enqueued_at)
push_evicts_oldest_bot_example =
    push_evicts_oldest_bot list_heap two_bots (task_at human 3) (omega arith)
      (prioritised (task_at bot 1)) mem-cons_self refl

drain_sorted_example :
    let out = served list_heap 2 mixed in Perm (tasks list_heap mixed) out × Pairwise Earlier out
drain_sorted_example = drain_sorted list_heap mixed

abbrev rounds : List (Bool × PriorityQueue list_heap)
rounds = (false, new list_heap 2) ∷ (false, mixed) ∷ (true, mixed) ∷ []

serves_human :
    pop_blocking list_heap rounds ≡ Popped.task (task_at human 3) (queue (task_at bot 1 ∷ []))
unfolding pop_blocking pop pop_list task_cmp new
serves_human = refl
