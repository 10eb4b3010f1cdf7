-- ===== src/Async/Parser/Heartbeat.antt =====
-- Which payloads keep the watchdog quiet.
use real_time_system_project.Common.{
  ℕ, ◌≡◌, refl, ap, ◌∙◌, sym, Bool, List, [], ◌∷◌, ◌++◌, arith, Text, Result, ok, err,
}
use real_time_system_project.Event.{Event, parse_one}
use real_time_system_project.Watchdog.{WatchdogState, touch, touch_all}
use real_time_system_project.Admission.{Clock, Admission, refused, shed, admitted, admit}
use real_time_system_project.Async.Parser.{LaneState, enqueue, dispatch, dispatch_all}

module _ {E : Type 0} (from_str : Text → Result E Event) where
  abbrev heartbeat : Clock → Result E Event → List ℕ
  heartbeat clock (err x) = []
  heartbeat clock (ok e) = clock.touched_ns ∷ []

  -- the times of the payloads that parse
  abbrev pub heartbeats : List (Bool × Clock × Text) → List ℕ
  heartbeats [] = []
  heartbeats ((degraded, clock, raw) ∷ calls) = heartbeat clock (from_str raw) ++ heartbeats calls

  dispatch_touches :
      (degraded : Bool) (clock : Clock) (raw : Text) (s : LaneState) (r : Result E Event)
      → from_str raw ≡ r
      → (dispatch from_str degraded clock raw s).0.shared.watchdog
        ≡ touch_all s.shared.watchdog (heartbeat clock r)
  unfolding dispatch admit parse_one
  dispatch_touches degraded clock raw s (err x) h = ground arith
  dispatch_touches degraded clock raw s (ok e) h = ground arith

  enqueue_shared :
      (s : LaneState) (clock : Clock) (a : Admission E) → (enqueue s clock a).0.shared ≡ s.shared
  unfolding enqueue
  enqueue_shared s clock (refused e) = refl
  enqueue_shared s clock shed = refl
  enqueue_shared s clock (admitted task) = ground arith

  pub dispatch_shared :
      (degraded : Bool) (clock : Clock) (raw : Text) (s : LaneState)
      → (dispatch from_str degraded clock raw s).0.shared
        ≡ (admit from_str degraded clock raw s.shared).1
  unfolding dispatch
  dispatch_shared degraded clock raw s =
      let a = admit from_str degraded clock raw s.shared in
      enqueue_shared (record s { shared = a.1 }) clock a.0

  touch_all-append :
      (w : WatchdogState) (xs ys : List ℕ) → touch_all w (xs ++ ys) ≡ touch_all (touch_all w xs) ys
  touch_all-append w [] ys = refl
  touch_all-append w (x ∷ xs) ys = touch_all-append (touch w x) xs ys

  -- Exactly the payloads that parse are heartbeats, also those that degraded mode holds back.
  pub dispatch_all_touches :
      (calls : List (Bool × Clock × Text)) (s : LaneState)
      → (dispatch_all from_str calls s).shared.watchdog
        ≡ touch_all s.shared.watchdog (heartbeats calls)
  unfolding dispatch_all
  dispatch_all_touches [] s = refl
  dispatch_all_touches ((degraded, clock, raw) ∷ calls) s =
      dispatch_all_touches calls (dispatch from_str degraded clock raw s).0
      ∙ ap (λ w. touch_all w (heartbeats calls))
          (dispatch_touches degraded clock raw s (from_str raw) refl)
      ∙ sym (touch_all-append s.shared.watchdog (heartbeat clock (from_str raw)) (heartbeats calls))
