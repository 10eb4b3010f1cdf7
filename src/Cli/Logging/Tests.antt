-- ===== src/Cli/Logging/Tests.antt =====
-- Filters that take the first directive that fits, and a log of four events.
use real_time_system_project.Common.{
  arith, length, leb, ap, ◌<◌, ◌≤◌, ◌⊎◌, inl, inr, Bool-cases, map, ◌≡◌, refl, Bool, true, false,
  List, [], ◌∷◌, ◌++◌, none, some, Text, bytes, All, if◌then◌else◌, ℕ,
}
use real_time_system_project.Cli.Logging.{
  Appender, select, Level, warn, info, debug, within, LogEvent, starts_with, Filters, LogPath,
  init_tracing, kept, to_stderr, to_file,
}
use real_time_system_project.Cli.Logging.Delivery.{is_record, init_tracing_delivers}

abbrev first_fit : List (Text × Level) → Text → Level → Bool
first_fit [] t l = false
first_fit ((prefix, most) ∷ ds) t l =
    if starts_with prefix t then within l most else first_fit ds t l

first_fit_none :
    (ds : List (Text × Level)) (t : Text) (l : Level)
    → All (λ (d : Text × Level). starts_with d.0 t ≡ false) ds
    → first_fit ds t l ≡ false
first_fit_none [] t l h = refl
first_fit_none ((prefix, most) ∷ ds) t l h = rw (h.0) (first_fit_none ds t l h.1)

first_fit_one :
    (before after : List (Text × Level)) (prefix t : Text) (most l : Level)
    → All (λ (d : Text × Level). starts_with d.0 t ≡ false) (before ++ after)
    → starts_with prefix t ≡ true
    → first_fit (before ++ ((prefix, most) ∷ after)) t l ≡ within l most
first_fit_one [] after prefix t most l h e = rw e refl
first_fit_one ((other, m) ∷ before) after prefix t most l h e =
    rw (h.0) (first_fit_one before after prefix t most l h.1 e)

abbrev filters : Filters
filters = record {
  env_filter = λ directives t l. within l info;
  targets = first_fit;
  env_filter-info = λ t l. refl;
  targets_none = first_fit_none;
  targets_one = first_fit_one;
}

abbrev bare_name : LogPath
bare_name = record { parent = some []; file_name = some (bytes "run.log") }

-- A record, a warning of the parser, an overflow and a message that is too detailed.
abbrev events : List (LogEvent ℕ)
events =
    record { target = bytes "rts.worker"; level = info; fields = 1 }
    ∷ record { target = bytes "rts.parser"; level = warn; fields = 2 }
    ∷ record { target = bytes "overflow"; level = warn; fields = 3 }
    ∷ record { target = bytes "rts.worker"; level = debug; fields = 4 }
    ∷ []

-- A writer that writes nothing once the lines are too many.
all_selected : {A : Type 0} (xs : List A) → xs ≡ select (map (λ x. true) xs) xs
all_selected [] = refl
all_selected (x ∷ xs) = ap (λ ys. x ∷ ys) (all_selected xs)

abbrev unless_many : List (LogEvent ℕ) → List (LogEvent ℕ)
unless_many es = if leb (length es) 128_000 then es else []

unless_many-selected :
    (es : List (LogEvent ℕ)) → (room : List Bool) × (unless_many es ≡ select room es)
unless_many-selected es = elim (Bool-cases (leb (length es) 128_000)) [
  | inl few ↦ (map (λ x. true) es, rw few (all_selected es))
  | inr many ↦ ([], rw many refl)
]

unless_many_few : (es : List (LogEvent ℕ)) → length es ≤ 128_000 → unless_many es ≡ es
unless_many_few es h = ground arith

abbrev bounded_appender : Appender ℕ
bounded_appender = record {
  writes = unless_many;
  in_order = unless_many-selected;
  buffered = unless_many_few;
}

init_tracing_delivers_example :
    let file = to_file bounded_appender (init_tracing filters none (some bare_name)) events in
    (to_stderr (init_tracing filters none (some bare_name)) events
      ≡ kept (λ t l. within l info) events)
    × ((room : List Bool) × (file ≡ select room (kept is_record events)))
    × ((128_000 < length (kept is_record events)) ⊎ (file ≡ kept is_record events))
    × (to_file bounded_appender (init_tracing filters none none) events ≡ [])
init_tracing_delivers_example = init_tracing_delivers filters bounded_appender bare_name events

two_kept :
    map
      (λ (e : LogEvent ℕ). e.fields)
      (to_file bounded_appender (init_tracing filters none (some bare_name)) events)
    ≡ 1 ∷ 3 ∷ []
unfolding init_tracing to_file
two_kept = refl
