-- ===== src/Threaded/PriorityQueue/Bounds.antt =====
-- The bound on the queue, and which class of task a full queue gives up.
use mathlib.Core.Logic.Or
use mathlib.Core.List.{Mem, Perm, mem-cons, not-mem-nil}
use real_time_system_project.Common.{
  ℕ, ◌+◌, ◌%◌, ◌^◌, ◌≡◌, ◌≤◌, ◌<◌, inl, inr, sym, subst, Bool, List, [], ◌∷◌, some, arith, All,
  length, length-perm, leb, leb→le, ap, Bool-cases, false,
}
use real_time_system_project.Ring.{PushOutcome, ok, dropped_oldest}
use real_time_system_project.Event.{Task}
use real_time_system_project.Priority.{bot}
use real_time_system_project.Threaded.Heap.{BinaryHeap, PrioritisedTask}
use real_time_system_project.Threaded.PriorityQueue.{PriorityQueue, push, prioritised}
use real_time_system_project.Threaded.PriorityQueue.Eviction.{
  tasks, NoWorse, NoWorse-key, Evicts, push_room, push_full,
}

Bool-set : IsSet Bool
Bool-set = hlevel

NoWorse-of_mem :
    (w y : PrioritisedTask) (xs : List PrioritisedTask)
    → All (NoWorse w) xs
    → Mem y xs
    → NoWorse w y
NoWorse-of_mem w y [] h m = absurd (not-mem-nil m)
NoWorse-of_mem w y (x ∷ xs) h m =
    Or.elim (Bool-set _ _) (mem-cons.0 m) (λ e. subst (NoWorse w) (sym e) h.0)
      (NoWorse-of_mem w y xs h.1)

key_of_bot :
    (w y : PrioritisedTask)
    → NoWorse w y
    → y.priority ≡ bot
    → (w.priority ≡ bot) × (w.enqueued_at ≤ y.enqueued_at)
key_of_bot w y h b = ground (arith, NoWorse-key w y h)

module _ (std : BinaryHeap) where
  -- A queue that can hold a task and holds no more than its capacity.
  pub record IsBounded (q : PriorityQueue std) : Type 0 where
    pub room : 0 < q.capacity
    pub within : length (tasks std q) ≤ q.capacity

  -- The tasks that the queue holds or has dropped.
  abbrev pub held_or_dropped : PriorityQueue std → ℕ
  held_or_dropped q = q.overflow + length (tasks std q)

  -- A push on a bounded queue does not panic, and leaves a bounded queue; the tasks that it holds or has
  -- counted as dropped are one more, modulo the width of the counter.
  pub push-IsBounded :
      (q : PriorityQueue std) (t : Task)
      → IsBounded q
      → (o : PushOutcome) × (q' : PriorityQueue std) × (push std q t ≡ some (o, q'))
        × IsBounded q'
        × (held_or_dropped q' % 2 ^ 64 ≡ (held_or_dropped q + 1) % 2 ^ 64)
  push-IsBounded q t v = elim (Bool-cases (leb q.capacity (length (tasks std q)))) [
    | inl full ↦
        let (q', e, ev) =
          push_full std q t (leb→le _ _ full)
            (λ none_left. absurd (omega (arith, v.room, leb→le _ _ full, ap length none_left))) in
        (dropped_oldest, q', e, bounded_full v ev, balance_full ev)
    | inr free ↦
        let (q', e, p, o, c) = push_room std q t (ground (arith, free)) in
        (
          ok,
          q',
          e,
          omega (arith, v.room, c, length-perm p, le_of_free free),
          omega (arith, length-perm p, o),
        )
  ]
    where
      bounded_full :
          {q q' : PriorityQueue std} {t : Task} → IsBounded q → Evicts std q t q' → IsBounded q'
      bounded_full v ev =
          omega (arith, v.room, v.within, ev.capacity, length-perm ev.before, length-perm ev.after)

      balance_full :
          {q q' : PriorityQueue std} {t : Task}
          → Evicts std q t q'
          → held_or_dropped q' % 2 ^ 64 ≡ (held_or_dropped q + 1) % 2 ^ 64
      balance_full ev = omega (arith, length-perm ev.before, length-perm ev.after, ev.counted)

      le_of_free : {a b : ℕ} → leb a b ≡ false → b < a
      le_of_free h = ground arith

  -- A push on a full queue that holds a task of a bot gives up one task, of a bot and enqueued no later
  -- than any task of a bot in the queue, keeps all the others, and takes the new task.
  pub push_evicts_oldest_bot :
      (q : PriorityQueue std) (t : Task)
      → q.capacity ≤ length (tasks std q)
      → (y : PrioritisedTask) → Mem y (tasks std q)
      → y.priority ≡ bot
      → (q' : PriorityQueue std) × (victim : PrioritisedTask) × (kept : List PrioritisedTask)
        × (push std q t ≡ some (dropped_oldest, q'))
        × Perm (tasks std q) (victim ∷ kept)
        × Perm (tasks std q') (prioritised t ∷ kept)
        × (victim.priority ≡ bot)
        × ((z : PrioritisedTask)
            → Mem z (tasks std q)
            → z.priority ≡ bot
            → victim.enqueued_at ≤ z.enqueued_at)
  push_evicts_oldest_bot q t full y m b =
      let (q', e, ev) =
        push_full std q t full (λ none_left. not-mem-nil (subst (Mem y) none_left m)) in
      let key : (z : PrioritisedTask)
          → Mem z (tasks std q)
          → z.priority ≡ bot
          → (ev.victim.priority ≡ bot) × (ev.victim.enqueued_at ≤ z.enqueued_at) =
        λ z n c.
          key_of_bot ev.victim z (NoWorse-of_mem ev.victim z (tasks std q) ev.worst_first n) c in
      (q', ev.victim, ev.kept, e, ev.before, ev.after, (key y m b).0, λ z n c. (key z n c).1)
