-- ===== src/Threaded/Parser/Progress.antt =====
-- One call of the parser on a bounded queue.
use real_time_system_project.Common.{
  ℕ, ◌+◌, ◌%◌, ◌^◌, ◌≡◌, refl, arith, Bool, Option, some, Text, Result,
}
use real_time_system_project.Event.{Event}
use real_time_system_project.Admission.{
  Shared, Clock, Admission, refused, shed, admitted, admit, Log, log_push, parse_error, bot_dropped,
}
use real_time_system_project.Threaded.Heap.{BinaryHeap}
use real_time_system_project.Threaded.PriorityQueue.{len}
use real_time_system_project.Threaded.PriorityQueue.Bounds.{
  IsBounded, held_or_dropped, push-IsBounded,
}
use real_time_system_project.Threaded.Parser.{QueueState, enqueue, dispatch}

module _ (std : BinaryHeap) {E : Type 0} (from_str : Text → Result E Event) where
  -- The task that a payload has become, if it has.
  abbrev pub tasks_of : Admission E → ℕ
  tasks_of (refused e) = 0
  tasks_of shed = 0
  tasks_of (admitted task) = 1

  -- The push has not panicked, and the queue is bounded and has taken what was admitted.
  pub record Served (s : QueueState std) (a : Admission E × Shared)
      (r : Option (QueueState std × Option (Log E))) : Type 0 where
    pub after : QueueState std
    pub log : Option (Log E)
    pub returns : r ≡ some (after, log)
    pub bounded : IsBounded std after.queue
    pub shared : after.shared ≡ a.1
    pub balance :
        held_or_dropped std after.queue % 2 ^ 64
        ≡ (held_or_dropped std s.queue + tasks_of a.0) % 2 ^ 64

  enqueue-Served :
      (s : QueueState std) (clock : Clock) (a : Admission E)
      → IsBounded std s.queue
      → Served s (a, s.shared) (enqueue std s clock a)
  unfolding enqueue
  enqueue-Served s clock (refused e) v = record {
    after = s;
    log = some (parse_error e);
    returns = refl;
    bounded = v;
    shared = refl;
    balance = omega arith;
  }
  enqueue-Served s clock shed v = record {
    after = s;
    log = some bot_dropped;
    returns = refl;
    bounded = v;
    shared = refl;
    balance = omega arith;
  }
  enqueue-Served s clock (admitted task) v =
      let (o, q', e, v', b) = push-IsBounded std s.queue task v in
      record {
        after = record s { queue = q' };
        log = log_push o clock.overflow_ns (len std q');
        returns = rw (enqueue, e) refl;
        bounded = v';
        shared = refl;
        balance = b;
      }

  pub dispatch-Served :
      (degraded : Bool) (clock : Clock) (raw : Text) (s : QueueState std)
      → IsBounded std s.queue
      → Served s
          (admit from_str degraded clock raw s.shared)
          (dispatch std from_str degraded clock raw s)
  unfolding dispatch
  dispatch-Served degraded clock raw s v =
      let a = admit from_str degraded clock raw s.shared in
      let served = enqueue-Served (record s { shared = a.1 }) clock a.0 v in
      record {
        after = served.after;
        log = served.log;
        returns = served.returns;
        bounded = served.bounded;
        shared = served.shared;
        balance = served.balance;
      }
