-- ===== src/Threaded/Parser/Service.antt =====
-- What the calls of the parser bring into the queue, and how the queue serves it.
use mathlib.Core.List.{Perm, Pairwise}
use mathlib.Core.List.Perm
use real_time_system_project.Common.{
  suc, ◌+◌, ◌≤◌, ◌≡◌, refl, subst, sym, ap, ◌∙◌, Bool, List, [], ◌∷◌, ◌++◌, map, some, none, Option,
  arith, length, length-append, length-perm, Text, Result, ok, err,
}
use real_time_system_project.Event.{Event, Task, parse_one}
use real_time_system_project.Admission.{
  Clock, Shared, Admission, admit, refused, shed, admitted, Log,
}
use real_time_system_project.Async.Parser.Lanes.{human_task, bot_task}
use real_time_system_project.Threaded.Heap.{BinaryHeap, PrioritisedTask, Earlier}
use real_time_system_project.Threaded.PriorityQueue.{prioritised}
use real_time_system_project.Threaded.PriorityQueue.Eviction.{tasks, push_room}
use real_time_system_project.Threaded.PriorityQueue.Drain.{served, drain_sorted}
use real_time_system_project.Threaded.Parser.{QueueState, enqueue, dispatch, dispatch_all}

module _ {E : Type 0} (from_str : Text → Result E Event) where
  -- The task of a payload: a human's always, a bot's while the mode is normal.
  abbrev pub let_in : Bool × Clock × Text → List Task
  let_in (degraded, clock, raw) =
      human_task from_str clock (from_str raw) ++ bot_task from_str degraded clock (from_str raw)

  abbrev pub let_in_all : List (Bool × Clock × Text) → List Task
  let_in_all [] = []
  let_in_all (call ∷ calls) = let_in call ++ let_in_all calls

  abbrev tasks_of : Admission E → List Task
  tasks_of (refused e) = []
  tasks_of shed = []
  tasks_of (admitted task) = task ∷ []

  admit-let_in :
      (degraded : Bool) (clock : Clock) (raw : Text) (s : Shared) (r : Result E Event)
      → from_str raw ≡ r
      → tasks_of (admit from_str degraded clock raw s).0
        ≡ human_task from_str clock r ++ bot_task from_str degraded clock r
  unfolding admit parse_one
  admit-let_in degraded clock raw s (err x) h = ground arith
  admit-let_in degraded clock raw s (ok e) h = ground arith

  module _ (std : BinaryHeap) where
    -- The call has not panicked, and the queue holds the new tasks beside those that it held.
    record Takes (s : QueueState std) (new : List Task)
        (r : Option (QueueState std × Option (Log E))) : Type 0 where
      after : QueueState std
      log : Option (Log E)
      returns : r ≡ some (after, log)
      held : Perm (tasks std after.queue) (map prioritised new ++ tasks std s.queue)
      capacity : after.queue.capacity ≡ s.queue.capacity
      overflow : after.queue.overflow ≡ s.queue.overflow

    enqueue-Takes :
        (s : QueueState std) (clock : Clock) (a : Admission E)
        → length (tasks std s.queue) + length (tasks_of a) ≤ s.queue.capacity
        → Takes s (tasks_of a) (enqueue std s clock a)
    unfolding enqueue
    enqueue-Takes s clock (refused e) h = record {
      after = s;
      log = _;
      returns = refl;
      held = Perm.refl _;
      capacity = refl;
      overflow = refl;
    }
    enqueue-Takes s clock shed h = record {
      after = s;
      log = _;
      returns = refl;
      held = Perm.refl _;
      capacity = refl;
      overflow = refl;
    }
    enqueue-Takes s clock (admitted task) h =
        let (q', e, held, overflow, capacity) = push_room std s.queue task (omega (arith, h)) in
        record {
          after = record s { queue = q' };
          log = none;
          returns = rw (enqueue, e) refl;
          held = held;
          capacity = capacity;
          overflow = overflow;
        }

    dispatch-Takes :
        (degraded : Bool) (clock : Clock) (raw : Text) (s : QueueState std)
        → length (tasks std s.queue) + length (let_in (degraded, clock, raw)) ≤ s.queue.capacity
        → Takes s (let_in (degraded, clock, raw)) (dispatch std from_str degraded clock raw s)
    unfolding dispatch
    dispatch-Takes degraded clock raw s h =
        let a = admit from_str degraded clock raw s.shared in
        let new = admit-let_in degraded clock raw s.shared (from_str raw) refl in
        let t =
          enqueue-Takes (record s { shared = a.1 }) clock a.0
            (subst (λ (ts : List Task). length (tasks std s.queue) + length ts ≤ s.queue.capacity)
              (sym new) h) in
        record {
          after = t.after;
          log = t.log;
          returns = t.returns;
          held =
              subst
                (λ (ts : List Task).
                  Perm (tasks std t.after.queue) (map prioritised ts ++ tasks std s.queue))
                new t.held;
          capacity = t.capacity;
          overflow = t.overflow;
        }

    map-append :
        (xs ys : List Task) → map prioritised (xs ++ ys) ≡ map prioritised xs ++ map prioritised ys
    map-append [] ys = refl
    map-append (x ∷ xs) ys = ap (λ l. prioritised x ∷ l) (map-append xs ys)

    perm_middle :
        (x : PrioritisedTask) (ys zs : List PrioritisedTask)
        → Perm (ys ++ (x ∷ zs)) (x ∷ (ys ++ zs))
    perm_middle x [] zs = Perm.refl (x ∷ zs)
    perm_middle x (y ∷ ys) zs = Perm.trans (Perm.cons y (perm_middle x ys zs)) (Perm.swap x y _)

    to_front : (xs ys zs : List PrioritisedTask) → Perm (ys ++ (xs ++ zs)) ((xs ++ ys) ++ zs)
    to_front [] ys zs = Perm.refl (ys ++ zs)
    to_front (x ∷ xs) ys zs =
        Perm.trans (perm_middle x ys (xs ++ zs)) (Perm.cons x (to_front xs ys zs))

    length-map : (xs : List Task) → length (map prioritised xs) ≡ length xs
    length-map [] = refl
    length-map (x ∷ xs) = ap suc (length-map xs)

    behind :
        (xs ys : List Task) (zs held : List PrioritisedTask)
        → Perm held (map prioritised xs ++ zs)
        → Perm (map prioritised (xs ++ ys) ++ zs) (map prioritised ys ++ held)
    behind xs ys zs held p =
        subst (λ l. Perm (l ++ zs) (map prioritised ys ++ held)) (sym (map-append xs ys))
          (Perm.trans (Perm.symm (to_front (map prioritised xs) (map prioritised ys) zs))
            (Perm.append_left (map prioritised ys) (Perm.symm p)))

    -- For any calls of the parser whose tasks find room in the queue: no push panics and none is counted as an
    -- overflow, and the workers that then empty the queue serve exactly the tasks that it held and those of
    -- the payloads that parse, but the bots' in degraded mode; humans come before bots, and the tasks of
    -- one class in the order of their times.
    pub dispatch_all_served :
        (calls : List (Bool × Clock × Text)) (s : QueueState std)
        → length (tasks std s.queue) + length (let_in_all calls) ≤ s.queue.capacity
        → (s' : QueueState std) × (dispatch_all std from_str calls s ≡ some s')
          × (s'.queue.overflow ≡ s.queue.overflow)
          × Perm
              (map prioritised (let_in_all calls) ++ tasks std s.queue)
              (served std (length (tasks std s'.queue)) s'.queue)
          × Pairwise Earlier (served std (length (tasks std s'.queue)) s'.queue)
    unfolding dispatch_all
    dispatch_all_served [] s h = let out = drain_sorted std s.queue in (s, refl, refl, out.0, out.1)
    dispatch_all_served ((degraded, clock, raw) ∷ calls) s h =
        let new = let_in (degraded, clock, raw) in
        let t =
          dispatch-Takes degraded clock raw s
            (omega (arith, h, length-append new (let_in_all calls))) in
        let (s'', e, overflow, all, sorted) = dispatch_all_served calls t.after (
          omega (
            arith,
            h,
            length-append new (let_in_all calls),
            length-perm t.held,
            length-append (map prioritised new) (tasks std s.queue),
            length-map new,
            t.capacity,
          )) in
        (
          s'',
          rw (dispatch_all, t.returns) e,
          overflow ∙ t.overflow,
          Perm.trans (behind new (let_in_all calls) _ _ t.held) all,
          sorted,
        )
