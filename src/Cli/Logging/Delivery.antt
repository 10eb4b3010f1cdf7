-- ===== src/Cli/Logging/Delivery.antt =====
-- Which events the log keeps where, when the environment names no filter.
use real_time_system_project.Common.{
  ℕ, ltb, length, ◌<◌, ◌≤◌, ◌⊎◌, ◌≡◌, refl, ap, sym, ◌∙◌, Bool, true, false, ◌&&◌, ◌||◌, List, [],
  ◌∷◌, none, some, Text, bytes, Bool-cases, inl, inr, arith,
}
use real_time_system_project.Cli.Logging.{
  Appender, select, Level, error, warn, info, debug, trace, within, LogEvent, starts_with, Filter,
  Filters, LogPath, directives, init_tracing, kept, to_stderr, to_file,
}

-- A record of a worker, and a warning of an overflow.
abbrev pub is_record : Filter
is_record t l =
    (starts_with (bytes "rts.worker") t && within l info)
    || (starts_with (bytes "overflow") t && within l warn)

kept-ext :
    {X : Type 0} (f g : Filter) (es : List (LogEvent X))
    → ((t : Text) (l : Level) → f t l ≡ g t l)
    → kept f es ≡ kept g es
kept-ext f g [] h = refl
kept-ext f g (e ∷ es) h = rw (h e.target e.level, kept-ext f g es h) refl

kept-kept :
    {X : Type 0} (f g : Filter) (es : List (LogEvent X))
    → kept g (kept f es) ≡ kept (λ t l. f t l && g t l) es
kept-kept f g [] = refl
kept-kept f g (e ∷ es) = elim (Bool-cases (f e.target e.level)) [
  | inl y ↦ rw (y, kept-kept f g es) refl
  | inr n ↦ rw (n, kept-kept f g es) refl
]

-- No target begins with both.
not_both :
    (t : Text)
    → starts_with (bytes "rts.worker") t ≡ true
    → starts_with (bytes "overflow") t ≡ false
not_both [] h = refl
not_both (c ∷ t) h = ground arith

info_of_warn : (l : Level) → (within l info && within l warn) ≡ within l warn
info_of_warn error = refl
info_of_warn warn = refl
info_of_warn info = refl
info_of_warn debug = refl
info_of_warn trace = refl

twice : (b : Bool) → (b && b) ≡ (b || false)
twice true = refl
twice false = refl

module _ (lib : Filters) where
  open lib use {env_filter, targets, env_filter-info, targets_none, targets_one}

  of_worker :
      (t : Text) (l : Level)
      → starts_with (bytes "rts.worker") t ≡ true
      → starts_with (bytes "overflow") t ≡ false
      → (env_filter (bytes "info") t l && targets directives t l) ≡ is_record t l
  of_worker t l w o =
      ap (λ b. b && targets directives t l) (env_filter-info t l)
      ∙ ap (λ b. within l info && b)
          (targets_one [] ((bytes "overflow", warn) ∷ []) (bytes "rts.worker") t info l (o, tt) w)
      ∙ twice (within l info)
      ∙ sym (rw (w, o) refl)

  of_overflow :
      (t : Text) (l : Level)
      → starts_with (bytes "rts.worker") t ≡ false
      → starts_with (bytes "overflow") t ≡ true
      → (env_filter (bytes "info") t l && targets directives t l) ≡ is_record t l
  of_overflow t l w o =
      ap (λ b. b && targets directives t l) (env_filter-info t l)
      ∙ ap (λ b. within l info && b)
          (targets_one ((bytes "rts.worker", info) ∷ []) [] (bytes "overflow") t warn l (w, tt) o)
      ∙ info_of_warn l
      ∙ sym (rw (w, o) refl)

  of_others :
      (t : Text) (l : Level)
      → starts_with (bytes "rts.worker") t ≡ false
      → starts_with (bytes "overflow") t ≡ false
      → (env_filter (bytes "info") t l && targets directives t l) ≡ is_record t l
  of_others t l w o =
      ap (λ b. b && targets directives t l) (env_filter-info t l)
      ∙ ap (λ b. within l info && b) (targets_none directives t l (w, (o, tt)))
      ∙ neither (within l info)
      ∙ sym (rw (w, o) refl)
    where
      neither : (b : Bool) → (b && false) ≡ false
      neither true = refl
      neither false = refl

  file_filter :
      (t : Text) (l : Level)
      → (env_filter (bytes "info") t l && targets directives t l) ≡ is_record t l
  file_filter t l = elim (Bool-cases (starts_with (bytes "rts.worker") t)) [
    | inl w ↦ of_worker t l w (not_both t w)
    | inr w ↦ elim (Bool-cases (starts_with (bytes "overflow") t)) [
      | inl o ↦ of_overflow t l w o
      | inr o ↦ of_others t l w o
    ]
  ]

  records_handed :
      {X : Type 0} (es : List (LogEvent X))
      → kept (targets directives) (kept (env_filter (bytes "info")) es) ≡ kept is_record es
  records_handed es =
      kept-kept (env_filter (bytes "info")) (targets directives) es
      ∙ kept-ext (λ t l. env_filter (bytes "info") t l && targets directives t l) is_record es
          file_filter

  -- When the environment names no filter, the standard error gets exactly the events down to `info`, in order.
  -- A log file that is asked for gets records of the workers and warnings of overflows alone, in order, each
  -- once at most, and all of them unless they are more than 128,000, what the non-blocking writer buffers;
  -- without a log path there is no file.
  pub init_tracing_delivers :
      {X : Type 0} (appender : Appender X) (path : LogPath) (es : List (LogEvent X))
      → let file = to_file appender (init_tracing lib none (some path)) es in
        (to_stderr (init_tracing lib none (some path)) es ≡ kept (λ t l. within l info) es)
        × ((room : List Bool) × (file ≡ select room (kept is_record es)))
        × ((128_000 < length (kept is_record es)) ⊎ (file ≡ kept is_record es))
        × (to_file appender (init_tracing lib none none) es ≡ [])
  unfolding init_tracing to_stderr to_file
  init_tracing_delivers appender path es =
      let records = kept is_record es in
      let handed = ap appender.writes (records_handed es) in
      let (room, e) = appender.in_order records in
      (
        kept-ext (env_filter (bytes "info")) (λ t l. within l info) es env_filter-info,
        (room, handed ∙ e),
        elim (Bool-cases (ltb 128_000 (length records))) [
          | inl many ↦ inl (more many)
          | inr few ↦ inr (handed ∙ appender.buffered records (no_more few))
        ],
        refl,
      )
    where
      more : {m n : ℕ} → ltb m n ≡ true → m < n
      more h = ground arith

      no_more : {m n : ℕ} → ltb m n ≡ false → n ≤ m
      no_more h = ground arith
