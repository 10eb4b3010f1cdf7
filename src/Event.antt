-- ===== src/Event.antt =====
-- crates/rts-core/src/event.rs, error.rs and task.rs: parsing a line, and what is queued.
pub mod Counting
mod Tests
use real_time_system_project.Common.{
  ℕ, ◌+◌, ◌*◌, ◌/◌, ◌%◌, ◌^◌, Bool, true, false, ◌||◌, Option, none, some, if◌then◌else◌, Text,
  bytes, Result, ok, err, ◌>>=◌, ok_or, map_err, wrapping_suc, ◌==◌,
}
use real_time_system_project.Priority.{Priority}
use real_time_system_project.Time.{Instant}

-- `Cow<'a, str>`: a slice of the input, or a string that serde had to unescape.
pub data Cow : Type 0 where
  borrowed owned : Text → Cow

-- `Cow::into_owned`
abbrev pub text : Cow → Text
text (borrowed s) = s
text (owned s) = s

-- `matches!(c, Cow::Owned(_))`
abbrev pub is_owned : Cow → Bool
is_owned (borrowed s) = false
is_owned (owned s) = true

pub record Event : Type 0 where
  pub user : Cow
  pub bot : Bool
  pub server_name : Cow

pub record OwnedEvent : Type 0 where
  pub user : Text
  pub bot : Bool
  pub server_name : Text

unfoldable pub into_owned : Event → OwnedEvent
into_owned e = record { user = text e.user; bot = e.bot; server_name = text e.server_name }

pub record Task : Type 0 where
  pub event : OwnedEvent
  pub priority : Priority
  pub enqueued_at : Instant

-- `E` is `serde_json::Error`.
pub data RtsError (E : Type 0) : Type 0 where
  json : E → RtsError E
  invalid_event : Text → RtsError E

-- `BORROWED_COUNT` and `OWNED_COUNT`
pub record CowCounts : Type 0 where
  pub borrowed_count : ℕ
  pub owned_count : ℕ

abbrev pub count_parse : Bool → CowCounts → CowCounts
count_parse has_owned c =
    if has_owned
    then record c { owned_count = wrapping_suc c.owned_count }
    else record c { borrowed_count = wrapping_suc c.borrowed_count }

-- The `serde_json::from_str` of the derived `Deserialize` is an argument.
module _ {E : Type 0} (from_str : Text → Result E Event) where
  counted : CowCounts → Result E Event → Result (RtsError E) Event × CowCounts
  counted c (err e) = (err (json e), c)
  counted c (ok event) =
      (ok event, count_parse (is_owned event.user || is_owned event.server_name) c)

  unfoldable pub parse_one : CowCounts → Text → Result (RtsError E) Event × CowCounts
  unfolding counted
  parse_one c buf = counted c (from_str buf)

-- What the `owned-baseline` build uses of `serde_json::Value`.
pub record JsonValue (E : Type 0) : Type 1 where
  pub Value : Type 0
  pub Map : Type 0
  pub from_str : Text → Result E Value
  pub as_object : Value → Option Map
  pub get : Map → Text → Option Value
  pub as_str : Value → Option Text
  pub as_bool : Value → Option Bool

module _ {E : Type 0} (v : JsonValue E) where
  open v use {Value, Map, from_str, as_object, get, as_str, as_bool}

  str_field : Map → Text → Text → Result (RtsError E) Text
  str_field obj key missing = do
    value ← ok_or (get obj key) (invalid_event missing)
    ok_or (as_str value) (invalid_event missing)

  or_false : Option Bool → Bool
  or_false none = false
  or_false (some b) = b

  bool_field : Map → Text → Bool
  unfolding or_false
  bool_field obj key = or_false (elim (get obj key) [ none ↦ none | some value ↦ as_bool value ])

  parse_fields : Text → Result (RtsError E) Event
  unfolding str_field bool_field
  parse_fields buf = do
    event ← map_err json (from_str buf)
    obj ← ok_or (as_object event) (invalid_event (bytes "not an object"))
    user ← str_field obj (bytes "user") (bytes "missing user")
    server_name ← str_field obj (bytes "server_name") (bytes "missing server_name")
    ok (record {
      user = owned user;
      bot = bool_field obj (bytes "bot");
      server_name = owned server_name;
    })

  count_baseline : CowCounts → Result (RtsError E) Event → CowCounts
  count_baseline c (err e) = c
  count_baseline c (ok event) = record c { owned_count = wrapping_suc c.owned_count }

  unfoldable pub parse_one_owned : CowCounts → Text → Result (RtsError E) Event × CowCounts
  unfolding parse_fields count_baseline
  parse_one_owned c buf = (parse_fields buf, count_baseline c (parse_fields buf))

unfoldable pub cow_stats : CowCounts → ℕ × ℕ
cow_stats c = (c.borrowed_count, c.owned_count)

-- `(borrowed * 100).checked_div(borrowed + owned).unwrap_or(0)` of the shutdown summaries.
unfoldable pub borrowed_percent : ℕ → ℕ → ℕ
borrowed_percent b o =
    let total = (b + o) % 2 ^ 64 in if total == 0 then 0 else (b * 100) % 2 ^ 64 / total
