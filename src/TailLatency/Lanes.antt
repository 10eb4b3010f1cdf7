-- ===== src/TailLatency/Lanes.antt =====
-- The pair of rings of the async kernel, each with room for one task more than the batch.
use real_time_system_project.Common.{
  ℕ, ◌+◌, ◌<◌, ◌≡◌, refl, ap, false, List, [], ◌∷◌, ◌++◌, Option, none, some, if◌then◌else◌, length,
  total, total-append, total-one, arith,
}
use mathlib.Core.Option.{some_inj}
use real_time_system_project.Priority.{Priority, human, bot, is_human}
use real_time_system_project.Event.{Task, OwnedEvent}
use real_time_system_project.Time.{Instant}
use real_time_system_project.Ring.{DropOldestRing, PushOutcome, try_pop}
use real_time_system_project.Ring
use real_time_system_project.Async.Scheduler.{Selection, stop, sleep, take_hi, take_lo, select}
use real_time_system_project.TailLatency.{TaskQueue}

-- The high lane and the low one.
abbrev pub Lanes : Type 0
Lanes = DropOldestRing Task × DropOldestRing Task

abbrev pub push_lane : Lanes → Task → Lanes
push_lane (hi, lo) task =
    if is_human task.priority then ((Ring.push hi task).1, lo) else (hi, (Ring.push lo task).1)

-- The `select!` of a worker that is not cancelled.
abbrev pub selected : Lanes → Selection → Option (Task × Lanes)
selected (hi, lo) stop = none
selected (hi, lo) sleep = none
selected (hi, lo) (take_hi t hi') = some (t, (hi', lo))
selected (hi, lo) (take_lo t lo') = some (t, (hi, lo'))

abbrev pub pop_lane : Lanes → Option (Task × Lanes)
pop_lane (hi, lo) = selected (hi, lo) (select false hi lo)

unfoldable pub lane_count : (Priority → ℕ) → Lanes → ℕ
lane_count f (hi, lo) =
    total (λ (t : Task). f t.priority) hi.queue + total (λ (t : Task). f t.priority) lo.queue

push_free :
    (r : DropOldestRing Task) (t : Task)
    → length r.queue < r.capacity
    → (Ring.push r t).1 ≡ record r { queue = r.queue ++ (t ∷ []) }
unfolding Ring.push
push_free r t h = ground arith

-- The ring with these items.
abbrev pub ring_of : DropOldestRing Task → List Task → DropOldestRing Task
ring_of r items = record r { queue = items }

after_pop :
    (f : Priority → ℕ) {t u : Task} {q r : Lanes}
    → ◌≡◌ {A = Option (Task × Lanes)} (some (u, r)) (some (t, q))
    → f u.priority + lane_count f r ≡ f t.priority + lane_count f q
after_pop f h = ap (λ (p : Task × Lanes). f p.0.priority + lane_count f p.1) (some_inj.0 h)

pub some_popped :
    (f : Priority → ℕ) (hs ls : List Task) (hi lo : DropOldestRing Task) {t : Task} {q : Lanes}
    → pop_lane (ring_of hi hs, ring_of lo ls) ≡ some (t, q)
    → lane_count f (ring_of hi hs, ring_of lo ls) ≡ f t.priority + lane_count f q
unfolding select try_pop lane_count
some_popped f [] [] hi lo h = cc
some_popped f [] (u ∷ ls) hi lo h = omega (arith, after_pop f h)
some_popped f (u ∷ hs) ls hi lo h = omega (arith, after_pop f h)

pub none_popped :
    (f : Priority → ℕ) (hs ls : List Task) (hi lo : DropOldestRing Task)
    → pop_lane (ring_of hi hs, ring_of lo ls) ≡ none
    → lane_count f (ring_of hi hs, ring_of lo ls) ≡ 0
unfolding select try_pop lane_count
none_popped f [] [] hi lo h = refl
none_popped f [] (u ∷ ls) hi lo h = cc
none_popped f (u ∷ hs) ls hi lo h = cc

-- Both lanes have the capacity.
abbrev pub AreSized : ℕ → Lanes → Type 0
AreSized capacity (hi, lo) = (hi.capacity ≡ capacity) × (lo.capacity ≡ capacity)

abbrev pub task_of : OwnedEvent → Instant → Priority → Task
task_of event now p = record { event = event; priority = p; enqueued_at = now }

pub push_room_at :
    (p : Priority) (capacity : ℕ) (hi lo : DropOldestRing Task) (event : OwnedEvent) (now : Instant)
    → let t = task_of event now p in
      AreSized capacity (hi, lo)
      → lane_count (λ p. 1) (hi, lo) < capacity
      → AreSized capacity (push_lane (hi, lo) t)
        × ((f : Priority → ℕ)
            → lane_count f (push_lane (hi, lo) t) ≡ f t.priority + lane_count f (hi, lo))
unfolding lane_count
push_room_at human capacity hi lo event now sized room =
    let t = task_of event now human in
    let free = push_free hi t (omega (arith, room, sized.0, total-one hi.queue)) in
    rw free (sized, λ f. omega (arith, total-append (λ (t : Task). f t.priority) hi.queue (t ∷ [])))
push_room_at bot capacity hi lo event now sized room =
    let t = task_of event now bot in
    let free = push_free lo t (omega (arith, room, sized.1, total-one lo.queue)) in
    rw free (sized, λ f. omega (arith, total-append (λ (t : Task). f t.priority) lo.queue (t ∷ [])))

pub new_empty :
    (f : Priority → ℕ) (capacity : ℕ) → lane_count f (Ring.new capacity, Ring.new capacity) ≡ 0
unfolding lane_count Ring.new
new_empty f capacity = refl

pub new_sized : (capacity : ℕ) → AreSized capacity (Ring.new capacity, Ring.new capacity)
unfolding Ring.new
new_sized capacity = (refl, refl)

abbrev pub lanes : TaskQueue
lanes = record {
  Queue = Lanes;
  new = λ capacity. (Ring.new capacity, Ring.new capacity);
  push = λ q t. some (push_lane q t);
  pop = pop_lane;
  HasCapacity = AreSized;
  count = lane_count;
  new-HasCapacity = new_sized;
  count-new = new_empty;
  push_room = λ capacity q t sized room.
      let (sized', grown) =
        push_room_at t.priority capacity q.0 q.1 t.event t.enqueued_at sized room in
      (push_lane q t, refl, sized', grown);
  pop-none = λ q f h. none_popped f q.0.queue q.1.queue q.0 q.1 h;
  pop-some = λ q f h. some_popped f q.0.queue q.1.queue q.0 q.1 h;
}
