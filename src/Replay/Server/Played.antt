-- ===== src/Replay/Server/Played.antt =====
-- What a client hears of a fixture that is served.
use real_time_system_project.Common.{
  ℕ, zero, suc, ◌+◌, ◌≤◌, ◌≡◌, refl, ap, ◌∙◌, List, [], ◌∷◌, ◌++◌, none, some, false, Text, Result,
  ok, err, All, map, length, u64_max,
}
use real_time_system_project.Time.{Instant, Duration}
use real_time_system_project.Async.Ingest.{Session, limit_reached}
use real_time_system_project.Threaded.Ingest.{read_stream}
use real_time_system_project.Replay.{RecordedEvent, Rate, sse_frame, bad_envelope}
use real_time_system_project.Replay.Fixture.{IsGood, load_fixture_reports}
use real_time_system_project.Replay.Cycle.{cycle, frames-init}
use real_time_system_project.Replay.Roundtrip.{
  split_lines, heard, IsFramed, stream_of, read_stream-frames,
}
use real_time_system_project.Replay.Recorder.{Envelopes, write_events, recorded}
use real_time_system_project.Replay.Recorder.Loads.{sound_writes, recorded_loads}
use real_time_system_project.Replay.Server.{
  shut_down, AppState, Network, Outcome, serve, stream_handler, with_events,
}

-- The chunks of a body, one after the other.
abbrev pub concat : List Text → Text
concat [] = []
concat (t ∷ ts) = t ++ concat ts

concat-frames :
    (es : List RecordedEvent)
    → concat (map (λ (e : RecordedEvent). sse_frame e.payload) es)
      ≡ stream_of (map (λ (e : RecordedEvent). e.payload) es)
concat-frames [] = refl
concat-frames (e ∷ es) = ap (λ s. sse_frame e.payload ++ s) (concat-frames es)

abbrev pub HasFramed : RecordedEvent → Type 0
HasFramed e = IsFramed e.payload

cycle-All :
    (n : ℕ) (es left : List RecordedEvent)
    → All HasFramed es
    → All HasFramed left
    → All IsFramed (map (λ (e : RecordedEvent). e.payload) (cycle es left n))
cycle-All zero es left h l = tt
cycle-All (suc n) es (e ∷ left) h l = (l.0, cycle-All n es left h l.1)
cycle-All (suc n) [] [] h l = tt
cycle-All (suc n) (e ∷ es) [] h l = (h.0, cycle-All n (e ∷ es) es h h.1)

length-cycle :
    (n : ℕ) (e : RecordedEvent) (es left : List RecordedEvent)
    → length (map (λ (e : RecordedEvent). e.payload) (cycle (e ∷ es) left n)) ≡ n
length-cycle zero e es left = refl
length-cycle (suc n) e es (x ∷ left) = ap suc (length-cycle n e es left)
length-cycle (suc n) e es [] = ap suc (length-cycle n e es es)

module _ {F : Type 0} (divide : ℕ → F → ℕ) where
  -- A client of the blocking reader that hears `length clock` chunks of a body.
  pub body_heard :
      (e : RecordedEvent) (es : List RecordedEvent) (rate : Rate F) (now : Instant)
      (clock : List (Instant × Instant))
      → All HasFramed (e ∷ es)
      → let body = (stream_handler divide (record { events = e ∷ es; rate = rate })).body in
        read_stream none 0 (some (map heard (split_lines (concat (body now clock))))) ≡ record {
          failed = false;
          payloads =
              map (λ (e : RecordedEvent). e.payload) (cycle (e ∷ es) (e ∷ es) (length clock));
          count = length clock;
        }
  unfolding stream_handler
  body_heard e es rate now clock framed =
      let events = cycle (e ∷ es) (e ∷ es) (length clock) in
      ap (λ s. read_stream none 0 (some (map heard (split_lines s))))
        (ap concat (frames-init divide e es rate now clock) ∙ concat-frames events)
      ∙ read_stream-frames (map (λ (e : RecordedEvent). e.payload) events)
          (cycle-All (length clock) (e ∷ es) (e ∷ es) framed framed)
      ∙ ap
          (λ n. record {
            failed = false;
            payloads = map (λ (e : RecordedEvent). e.payload) events;
            count = n;
          })
          (length-cycle (length clock) e es (e ∷ es))

module _ {I E F : Type 0} (net : Network I F) (serde : Envelopes E) (divide : ℕ → F → ℕ) where
  abbrev pub Outcomes : Type 0
  Outcomes = Outcome net serde.from_str serde.is_blank

  pub record Serves (addr : net.Address) (state : AppState F) (o : Outcomes) : Type 0 where
    pub bound : o.bound ≡ some addr
    pub served : o.served ≡ some state

  served-shut_down :
      (addr : net.Address) (state : AppState F) (ending : Result I Unit)
      → Serves addr state (shut_down net serde.from_str serde.is_blank addr state ending)
  served-shut_down addr state (ok u) = record { bound = refl; served = refl }
  served-shut_down addr state (err x) = record { bound = refl; served = refl }

  -- What a recorder writes without errors, of events whose payloads have no line ends and do not begin with a
  -- space, is served on any address that can be bound, however the server ends. A blocking client that
  -- hears any number of chunks of a body reads the recorded payloads, in order, over and over again.
  pub recording_is_played :
      (elapsed : ℕ → Duration) (sessions : List Session) (rate : Rate F) (addr : net.Address)
      {listener : net.Listener} {local : net.Address} (e : RecordedEvent) (es : List RecordedEvent)
      (now : Instant) (clock : List (Instant × Instant))
      → recorded elapsed sessions ≡ e ∷ es
      → length (e ∷ es) ≤ u64_max
      → All HasFramed (e ∷ es)
      → net.bind addr ≡ ok listener
      → net.local_addr listener ≡ ok local
      → let file =
          (write_events serde 0 (sound_writes I serde (recorded elapsed sessions)) none).file in
        let state : AppState F = record { events = e ∷ es; rate = rate } in
        Serves addr state
          (serve net serde.from_str serde.is_blank (ok (map ok (split_lines file))) rate addr)
        × (read_stream none 0 (
              some
                (map heard (split_lines (concat ((stream_handler divide state).body now clock)))))
            ≡ record {
              failed = false;
              payloads =
                  map (λ (e : RecordedEvent). e.payload) (cycle (e ∷ es) (e ∷ es) (length clock));
              count = length clock;
            })
  unfolding serve
  recording_is_played elapsed sessions rate addr {listener} e es now clock h few framed b l =
      let state : AppState F = record { events = e ∷ es; rate = rate } in
      let (loads, ends) =
        recorded_loads I serde {G = Unit} elapsed sessions (limit_reached 0) e es h few in
      (
        rw (loads, b, l) (served-shut_down addr state (net.axum_serve listener state)),
        body_heard divide e es rate now clock framed,
      )

  -- A fixture with a line that is neither blank nor an envelope is not served, and no address is bound.
  pub bad_line_is_not_served :
      (ls : List Text) (line : Text) (x : E) (rest : List (Result I Text)) (rate : Rate F)
      (addr : net.Address)
      → All (IsGood serde.from_str serde.is_blank) ls
      → serde.is_blank line ≡ false
      → serde.from_str line ≡ err x
      → serve net serde.from_str serde.is_blank (ok (map ok ls ++ (ok line ∷ rest))) rate addr
        ≡ record { bound = none; served = none; result = err (bad_envelope (length ls + 1) x) }
  unfolding serve
  bad_line_is_not_served ls line x rest rate addr good b bad =
      ap (with_events net serde.from_str serde.is_blank addr rate)
        (load_fixture_reports serde.from_str serde.is_blank ls line x rest good b bad)
