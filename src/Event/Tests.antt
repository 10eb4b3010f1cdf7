-- ===== src/Event/Tests.antt =====
-- Lines in a small wire format, and instances of the theorems on the counters.
use real_time_system_project.Common.{
  zero, suc, ◌≡◌, refl, false, List, [], ◌∷◌, Text, bytes, Result, ok, err,
}
use real_time_system_project.Event.{Event, CowCounts, borrowed, owned, parse_one}
use real_time_system_project.Event.Counting.{parse_lines}

-- A line is refused, or its first byte tells whether the user had to be unescaped.
abbrev pub from_line : Text → Result Text Event
from_line [] = err (bytes "eof")
from_line (zero ∷ line) =
    ok (record { user = owned line; bot = false; server_name = borrowed line })
from_line (suc c ∷ line) =
    ok (record { user = borrowed line; bot = false; server_name = borrowed line })

abbrev lines : List Text
lines = (1 ∷ 65 ∷ []) ∷ [] ∷ (0 ∷ 66 ∷ []) ∷ (1 ∷ 67 ∷ []) ∷ []

abbrev no_counts : CowCounts
no_counts = record { borrowed_count = 0; owned_count = 0 }

two_and_one : parse_lines from_line no_counts lines ≡ record { borrowed_count = 2; owned_count = 1 }
unfolding parse_lines parse_one
two_and_one = refl
