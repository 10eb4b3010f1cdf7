-- ===== src/Threaded/Parser.antt =====
-- crates/rts-threaded/src/parser.rs: a payload into the priority queue.
pub mod Progress
mod Service
mod Tests
use real_time_system_project.Common.{ℕ, ◌≡◌, Bool, List, [], ◌∷◌, Option, none, some, Text, Result}
use real_time_system_project.Event.{Event, Task}
use real_time_system_project.Admission.{
  Shared, Clock, Admission, refused, shed, admitted, admit, Log, parse_error, bot_dropped, log_push,
}
use real_time_system_project.Threaded.Heap.{BinaryHeap}
use real_time_system_project.Threaded.PriorityQueue.{PriorityQueue, push, len}

module _ (std : BinaryHeap) where
  pub record QueueState : Type 0 where
    pub queue : PriorityQueue std
    pub shared : Shared

  module _ {E : Type 0} where
    -- `none` is the panic of the push.
    enqueue : QueueState → Clock → Admission E → Option (QueueState × Option (Log E))
    enqueue s clock (refused e) = some (s, some (parse_error e))
    enqueue s clock shed = some (s, some bot_dropped)
    enqueue s clock (admitted task) = elim (push std s.queue task) [
      | none ↦ none
      | some r ↦ some (record s { queue = r.1 }, log_push r.0 clock.overflow_ns (len std r.1))
    ]

    unfoldable pub dispatch :
        (Text → Result E Event)
        → Bool
        → Clock
        → Text
        → QueueState
        → Option (QueueState × Option (Log E))
    unfolding enqueue
    dispatch from_str degraded clock raw s =
        let (admission, shared) = admit from_str degraded clock raw s.shared in
        enqueue (record s { shared = shared }) clock admission

    -- The calls of the ingest sink, each with the mode of the controller and the clock at its time.
    unfoldable pub dispatch_all :
        (Text → Result E Event) → List (Bool × Clock × Text) → QueueState → Option QueueState
    unfolding dispatch
    dispatch_all from_str [] s = some s
    dispatch_all from_str ((degraded, clock, raw) ∷ calls) s =
        elim (dispatch from_str degraded clock raw s) [
          | none ↦ none
          | some r ↦ dispatch_all from_str calls r.0
        ]
