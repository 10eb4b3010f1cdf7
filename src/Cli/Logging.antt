-- ===== src/Cli/Logging.antt =====
-- `init_tracing` of crates/rts-cli/src/main.rs: which log events reach the standard error and the file of the
-- per-event log. The filters of the tracing-subscriber crate and the non-blocking writer of the
-- tracing-appender crate are arguments.
pub mod Delivery
mod Tests
use real_time_system_project.Common.{
  ℕ, ◌≡◌, Bool, true, false, ◌&&◌, ◌||◌, List, [], ◌∷◌, ◌++◌, Option, none, some, Text, bytes, leb,
  All, if◌then◌else◌, ◌==◌, map, length, ◌≤◌,
}

pub data Level : Type 0 where
  error warn info debug trace : Level

abbrev pub verbosity : Level → ℕ
verbosity error = 0
verbosity warn = 1
verbosity info = 2
verbosity debug = 3
verbosity trace = 4

abbrev pub within : Level → Level → Bool
within level most = leb (verbosity level) (verbosity most)

-- An event of the log with its fields.
pub record LogEvent (X : Type 0) : Type 0 where
  pub target : Text
  pub level : Level
  pub fields : X

abbrev pub starts_with : Text → Text → Bool
starts_with [] t = true
starts_with (c ∷ prefix) [] = false
starts_with (c ∷ prefix) (d ∷ t) = (c == d) && starts_with prefix t

abbrev pub Filter : Type 0
Filter = Text → Level → Bool

-- The laws are the documentation's: a bare level is the most verbose one for every target, and `Targets` enables
-- a target by the directive whose prefix it has.
pub record Filters : Type 1 where
  pub env_filter : Text → Filter
  pub targets : List (Text × Level) → Filter
  pub env_filter-info : (t : Text) (l : Level) → env_filter (bytes "info") t l ≡ within l info
  pub targets_none :
      (ds : List (Text × Level)) (t : Text) (l : Level)
      → All (λ (d : Text × Level). starts_with d.0 t ≡ false) ds
      → targets ds t l ≡ false
  pub targets_one :
      (before after : List (Text × Level)) (prefix t : Text) (most l : Level)
      → All (λ (d : Text × Level). starts_with d.0 t ≡ false) (before ++ after)
      → starts_with prefix t ≡ true
      → targets (before ++ ((prefix, most) ∷ after)) t l ≡ within l most

-- A path as `parent` and `file_name` take it apart.
pub record LogPath : Type 0 where
  pub parent : Option Text
  pub file_name : Option Text

-- `creates` is the directory that is created, if it can be, before the file is opened.
pub record LogFile : Type 0 where
  pub creates : Option Text
  pub dir : Text
  pub name : Text
  pub filter : Filter

pub record Subscriber : Type 0 where
  pub filter : Filter
  pub file : Option LogFile

abbrev pub text_or : Text → Option Text → Text
text_or default none = default
text_or default (some t) = t

abbrev pub directives : List (Text × Level)
directives = (bytes "rts.worker", info) ∷ (bytes "overflow", warn) ∷ []

module _ (lib : Filters) where
  -- The first argument is the filter of the environment, if it has one that can be read.
  abbrev pub filter_or_info : Option Filter → Filter
  filter_or_info none = lib.env_filter (bytes "info")
  filter_or_info (some filter) = filter

  abbrev pub log_file : Option LogPath → Option LogFile
  log_file none = none
  log_file (some path) = some (record {
    creates = path.parent;
    dir = text_or (bytes ".") path.parent;
    name = text_or (bytes "run.ndjson") path.file_name;
    filter = lib.targets directives;
  })

  unfoldable pub init_tracing : Option Filter → Option LogPath → Subscriber
  init_tracing env log_path = record { filter = filter_or_info env; file = log_file log_path }

-- the elements for which there is room
abbrev pub select : {A : Type 0} → List Bool → List A → List A
select [] xs = []
select (b ∷ room) [] = []
select (true ∷ room) (x ∷ xs) = x ∷ select room xs
select (false ∷ room) (x ∷ xs) = select room xs

module _ (X : Type 0) where
  -- `tracing_appender::non_blocking`: which of the events that it is handed are in the file in the end. By its
  -- documentation it drops lines while its buffer is full, and buffers up to 128,000 of them.
  -- The guard is kept to the end of the program, and the file is one that can be written.
  pub record Appender : Type 0 where
    pub writes : List (LogEvent X) → List (LogEvent X)
    pub in_order : (es : List (LogEvent X)) → (room : List Bool) × (writes es ≡ select room es)
    pub buffered : (es : List (LogEvent X)) → length es ≤ 128_000 → writes es ≡ es

module _ {X : Type 0} where
  abbrev pub kept : Filter → List (LogEvent X) → List (LogEvent X)
  kept f [] = []
  kept f (e ∷ es) = if f e.target e.level then e ∷ kept f es else kept f es

  -- What the layer of the standard error writes, and the layer of the file.
  unfoldable pub to_stderr : Subscriber → List (LogEvent X) → List (LogEvent X)
  to_stderr s es = kept s.filter es

  abbrev pub to_log_file : Appender X → Option LogFile → List (LogEvent X) → List (LogEvent X)
  to_log_file appender none es = []
  to_log_file appender (some file) es = appender.writes (kept file.filter es)

  unfoldable pub to_file : Appender X → Subscriber → List (LogEvent X) → List (LogEvent X)
  to_file appender s es = to_log_file appender s.file (kept s.filter es)
