-- ===== src/FailSafe/Hysteresis.antt =====
-- The counter of the automaton against a specification that looks at the readings alone.
use real_time_system_project.Common.{
  ℕ, zero, suc, ◌+◌, ◌<◌, ◌≡◌, refl, Bool, true, false, ◌&&◌, not, List, [], ◌∷◌, arith,
  if◌then◌else◌, ltb, leb, ap, sym, ◌∙◌,
}
use real_time_system_project.FailSafe.{Mode, evaluate, enter_ns, recover_ns, dwell_ticks}

-- The automaton after all the readings of a history, the newest first.
unfoldable pub run : List ℕ → Mode
run [] = record { degraded = false; dwell = 0 }
run (p ∷ history) = evaluate (run history) p

-- A reading that speaks against the mode: a low one in degraded mode, a high one in normal mode.
abbrev pub against : Bool → ℕ → Bool
against true p99 = ltb p99 recover_ns
against false p99 = ltb enter_ns p99

-- There are `n` readings, and the newest `n` speak against the mode.
abbrev pub newest_against : ℕ → Bool → List ℕ → Bool
newest_against zero m history = true
newest_against (suc n) m [] = false
newest_against (suc n) m (p ∷ history) = against m p && newest_against n m history

-- The specification: the mode changes at a reading with which the newest ten speak against it.
unfoldable pub specified : List ℕ → Bool
specified [] = false
specified (p ∷ history) =
    if newest_against dwell_ticks (specified history) (p ∷ history)
    then not (specified history)
    else specified history

-- how many of the newest readings in a row speak against the mode
abbrev streak : Bool → List ℕ → ℕ
streak m [] = 0
streak m (p ∷ history) = if against m p then streak m history + 1 else 0

newest_against-streak :
    (n : ℕ) (m : Bool) (history : List ℕ) → newest_against n m history ≡ leb n (streak m history)
newest_against-streak zero m history = ground arith
newest_against-streak (suc n) m [] = ground arith
newest_against-streak (suc n) m (p ∷ history) = ground (arith, newest_against-streak n m history)

-- The counter is the length of the streak, and stays below ten.
record Agrees (history : List ℕ) : Type 0 where
  mode : (run history).degraded ≡ specified history
  counter : (run history).dwell ≡ streak (specified history) history
  below : (run history).dwell < dwell_ticks

step_agrees :
    (m : Mode) (p s : ℕ) (d : Bool)
    → m.degraded ≡ d
    → m.dwell ≡ s
    → m.dwell < dwell_ticks
    → let after = if against d p then s + 1 else 0 in
      let d' = if leb dwell_ticks after then not d else d in
      ((evaluate m p).degraded ≡ d')
      × ((evaluate m p).dwell ≡ (if leb dwell_ticks after then 0 else after))
      × ((evaluate m p).dwell < dwell_ticks)
unfolding evaluate
step_agrees m p s true e f h = ground arith
step_agrees m p s false e f h = ground arith

-- A reading speaks against one mode at most, so a change starts a streak of length 0.
streak-not :
    (d : Bool) (p : ℕ) (history : List ℕ)
    → leb dwell_ticks (streak d (p ∷ history)) ≡ true
    → streak (not d) (p ∷ history) ≡ 0
streak-not true p history h = ground arith
streak-not false p history h = ground arith

streak-if :
    (change d : Bool) (history : List ℕ)
    → (change ≡ true → streak (not d) history ≡ 0)
    → streak (if change then not d else d) history ≡ (if change then 0 else streak d history)
streak-if true d history h = h refl
streak-if false d history h = refl

streak-specified :
    (d : Bool) (p : ℕ) (history : List ℕ)
    → let after = streak d (p ∷ history) in
      streak (if leb dwell_ticks after then not d else d) (p ∷ history)
      ≡ (if leb dwell_ticks after then 0 else after)
streak-specified d p history =
    streak-if (leb dwell_ticks (streak d (p ∷ history))) d (p ∷ history) (streak-not d p history)

specified-cons :
    (p : ℕ) (history : List ℕ)
    → let d = specified history in
      specified (p ∷ history) ≡ (if leb dwell_ticks (streak d (p ∷ history)) then not d else d)
unfolding specified
specified-cons p history = rw (newest_against-streak dwell_ticks (specified history) (p ∷ history))

agrees : (history : List ℕ) → Agrees history
unfolding run specified
agrees [] = record { mode = refl; counter = refl; below = omega arith }
agrees (p ∷ history) =
    let ih = agrees history in
    let step =
      step_agrees (run history) p (streak (specified history) history) (specified history) ih.mode
        ih.counter ih.below in
    record {
      mode = step.0 ∙ sym (specified-cons p history);
      counter =
          step.1
          ∙ sym (streak-specified (specified history) p history)
          ∙ sym (ap (λ d. streak d (p ∷ history)) (specified-cons p history));
      below = step.2;
    }

-- After any readings, the controller is in degraded mode exactly when the specification is, and the
-- counter has not reached ten.
pub run-specified :
    (history : List ℕ)
    → ((run history).degraded ≡ specified history) × ((run history).dwell < dwell_ticks)
run-specified history = ((agrees history).mode, (agrees history).below)
