-- ===== src/Replay/Cycle.antt =====
-- Which events a replay sends.
use real_time_system_project.Common.{
  ℕ, zero, suc, ◌<◌, ◌≤◌, ◌≡◌, ◌≢◌, refl, ap, ◌∙◌, List, [], ◌∷◌, Option, none, some, arith, length,
  get_elem?, Text, drop, map,
}
use mathlib.Core.Option.{some_inj}
use real_time_system_project.Time.{Instant}
use real_time_system_project.Replay.{
  RecordedEvent, Rate, ReplayState, sent, Emission, init, next, frames, sse_frame, restart, send,
  first_recv_ns,
}

-- the fixture, without end: its first `n` events
abbrev pub cycle : List RecordedEvent → List RecordedEvent → ℕ → List RecordedEvent
cycle es left zero = []
cycle es (e ∷ left) (suc n) = e ∷ cycle es left n
cycle [] [] (suc n) = []
cycle (e ∷ es) [] (suc n) = e ∷ cycle (e ∷ es) es n

get_elem-drop {ℓ} :
    {A : Type ℓ} (xs : List A) (i : ℕ) {x : A} {rest : List A}
    → drop i xs ≡ x ∷ rest
    → (get_elem? xs i ≡ some x) × (drop (suc i) xs ≡ rest) × (i < length xs)
get_elem-drop [] zero e = cc
get_elem-drop [] (suc i) e = cc
get_elem-drop (y ∷ xs) zero e = ground arith
get_elem-drop (y ∷ xs) (suc i) e = let (a, b, c) = get_elem-drop xs i e in (a, b, omega (arith, c))

length-drop-nil {ℓ} : {A : Type ℓ} (xs : List A) (i : ℕ) → drop i xs ≡ [] → length xs ≤ i
length-drop-nil [] i e = omega arith
length-drop-nil (x ∷ xs) zero e = cc
length-drop-nil (x ∷ xs) (suc i) e = omega (arith, length-drop-nil xs i e)

module _ {F : Type 0} (divide : ℕ → F → ℕ) where
  -- The call sends the event of the place, and goes on behind it.
  Sends : ReplayState divide → Instant → Instant → RecordedEvent → ℕ → Type 0
  Sends s restarted now e i =
      (em : Emission divide) × (s' : ReplayState divide) × (next divide s restarted now
        ≡ sent em s')
      × (em.frame ≡ sse_frame e.payload)
      × (s'.events ≡ s.events)
      × (s'.idx ≡ suc i)

  send-some :
      (s : ReplayState divide) (now : Instant) (o : Option RecordedEvent) (e : RecordedEvent)
      → o ≡ some e
      → (em : Emission divide) × (s' : ReplayState divide) × (send divide s now o ≡ sent em s')
        × (em.frame ≡ sse_frame e.payload)
        × (s'.events ≡ s.events)
        × (s'.idx ≡ suc s.idx)
  unfolding send
  send-some s now none e h = cc
  send-some s now (some x) e h =
      (_, _, refl, ap (λ (x : RecordedEvent). sse_frame x.payload) (some_inj.0 h), refl, refl)

  restart_in :
      (s : ReplayState divide) (t : Instant) → s.idx < length s.events → restart divide s t ≡ s
  unfolding restart
  restart_in s t h = ground arith

  restart_out :
      (s : ReplayState divide) (t : Instant)
      → length s.events ≤ s.idx
      → restart divide s t
        ≡ record s { idx = 0; loop_start = t; loop_offset_ns = first_recv_ns divide s.events }
  unfolding restart
  restart_out s t h = ground arith

  next_nonempty :
      (s : ReplayState divide) (restarted now : Instant)
      → length s.events ≢ 0
      → let s' = restart divide s restarted in
        next divide s restarted now ≡ send divide s' now (get_elem? s'.events s'.idx)
  unfolding next
  next_nonempty s restarted now h = ground arith

  next_in :
      (s : ReplayState divide) (restarted now : Instant) (e : RecordedEvent)
      → s.idx < length s.events
      → get_elem? s.events s.idx ≡ some e
      → Sends s restarted now e s.idx
  unfolding Sends
  next_in s restarted now e h g =
      let (em, s', n, f, v, x) = send-some s now (get_elem? s.events s.idx) e g in
      (
        em,
        s',
        next_nonempty s restarted now (omega arith)
            ∙ ap (λ x. send divide x now (get_elem? x.events x.idx)) (restart_in s restarted h)
            ∙ n,
        f,
        v,
        x,
      )

  next_out :
      (s : ReplayState divide) (restarted now : Instant) (e : RecordedEvent)
      → length s.events ≢ 0
      → length s.events ≤ s.idx
      → get_elem? s.events 0 ≡ some e
      → Sends s restarted now e 0
  unfolding Sends
  next_out s restarted now e z h g =
      let at_top = record s {
        idx = 0;
        loop_start = restarted;
        loop_offset_ns = first_recv_ns divide s.events;
      } in
      let (em, s', n, f, v, x) = send-some at_top now (get_elem? s.events 0) e g in
      (
        em,
        s',
        next_nonempty s restarted now z
            ∙ ap (λ x. send divide x now (get_elem? x.events x.idx)) (restart_out s restarted h)
            ∙ n,
        f,
        v,
        x,
      )

  frames-Sends :
      (s : ReplayState divide) (restarted now : Instant) (e : RecordedEvent) (i : ℕ)
      (clock : List (Instant × Instant)) (ts : List Text)
      → Sends s restarted now e i
      → ((s' : ReplayState divide)
          → s'.events ≡ s.events
          → s'.idx ≡ suc i
          → frames divide s' clock ≡ ts)
      → frames divide s ((restarted, now) ∷ clock) ≡ sse_frame e.payload ∷ ts
  unfolding Sends frames
  frames-Sends s restarted now e i clock ts (em, s', n, f, v, x) rest =
      rw (frames, n, f) (ap (λ ts. sse_frame e.payload ∷ ts) (rest s' v x))

  frames-cycle :
      (clock : List (Instant × Instant)) (s : ReplayState divide) (es left : List RecordedEvent)
      → s.events ≡ es
      → drop s.idx es ≡ left
      → frames divide s clock ≡ map (λ e. sse_frame e.payload) (cycle es left (length clock))
  unfolding frames
  frames-cycle [] s es left h l = refl
  frames-cycle ((restarted, now) ∷ clock) s es (e ∷ left) h l =
      let (g, d, b) = get_elem-drop es s.idx l in
      frames-Sends s restarted now e s.idx clock _
        (next_in s restarted now e (omega (arith, b, ap length h))
          (ap (λ es. get_elem? es s.idx) h ∙ g))
        (λ s' v x. frames-cycle clock s' es left (v ∙ h) (ap (λ i. drop i es) x ∙ d))
  frames-cycle ((restarted, now) ∷ clock) s [] [] h l = rw h refl
  frames-cycle ((restarted, now) ∷ clock) s (e ∷ es) [] h l =
      frames-Sends s restarted now e 0 clock _
        (next_out s restarted now e (omega (arith, ap length h))
          (omega (arith, ap length h, length-drop-nil (e ∷ es) s.idx l))
          (ap (λ es. get_elem? es 0) h))
        (λ s' v x. frames-cycle clock s' (e ∷ es) es (v ∙ h) (ap (λ i. drop i (e ∷ es)) x))

  -- A replay sends the events of the fixture in order, over and over again, one for each call, at any
  -- rate and whatever the clock reads; it neither ends nor reads out of bounds.
  pub frames-init :
      (e : RecordedEvent) (es : List RecordedEvent) (rate : Rate F) (t : Instant)
      (clock : List (Instant × Instant))
      → frames divide (init divide (e ∷ es) rate t) clock
        ≡ map (λ e. sse_frame e.payload) (cycle (e ∷ es) (e ∷ es) (length clock))
  unfolding init
  frames-init e es rate t clock =
      frames-cycle clock (init divide (e ∷ es) rate t) (e ∷ es) (e ∷ es) refl refl
