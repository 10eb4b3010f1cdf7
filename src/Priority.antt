-- ===== src/Priority.antt =====
-- crates/rts-core/src/priority.rs: the two classes of edits, humans before bots.
use real_time_system_project.Common.{ℕ, Bool, true, false, compare, Ordering, if◌then◌else◌}

pub data Priority : Type 0 where
  human bot : Priority

-- `priority as u8`
abbrev pub ordinal : Priority → ℕ
ordinal human = 0
ordinal bot = 1

unfoldable pub cmp : Priority → Priority → Ordering
cmp p q = compare (ordinal p) (ordinal q)

unfoldable pub from_bot_flag : Bool → Priority
from_bot_flag is_bot = if is_bot then bot else human

-- `priority == Priority::Bot` and `priority == Priority::Human`
abbrev pub is_bot : Priority → Bool
is_bot human = false
is_bot bot = true

abbrev pub is_human : Priority → Bool
is_human human = true
is_human bot = false
