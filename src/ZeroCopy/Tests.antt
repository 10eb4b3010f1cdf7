-- ===== src/ZeroCopy/Tests.antt =====
-- The batch with a serde that borrows strings without a backslash.
use real_time_system_project.Common.{
  ◌≡◌, refl, Bool, false, ◌||◌, ◌==◌, if◌then◌else◌, [], ◌∷◌, Text, bytes, Result, ok,
}
use real_time_system_project.Decimal.{decimal}
use real_time_system_project.Event.{Event, borrowed, owned, borrowed_percent, cow_stats}
use real_time_system_project.ZeroCopy.{report}

abbrev has_backslash : Text → Bool
has_backslash [] = false
has_backslash (c ∷ s) = (c == 92) || has_backslash s

abbrev unescaping : Text → Result Text Event
unescaping s = ok (record {
  user = if has_backslash s then owned s else borrowed s;
  bot = false;
  server_name = borrowed s;
})

report_lines :
    report (record { parsed = 10; counts = record { borrowed_count = 8; owned_count = 2 } })
    ≡ bytes "Events parsed   : 10"
      ∷ bytes "Cow::Borrowed   : 8  (80%)"
      ∷ bytes "Cow::Owned      : 2"
      ∷ []
unfolding report decimal borrowed_percent cow_stats
report_lines = refl
