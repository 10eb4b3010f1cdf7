-- ===== src/Replay/ParseRate/Tests.antt =====
-- Rates as `--rate` gives them.
use real_time_system_project.Common.{◌*◌, ◌^◌, ◌≡◌, refl, bytes, ok, err}
use real_time_system_project.Float.Fixed.{fixed_point}
use real_time_system_project.Replay.{multiplier, maximum}
use real_time_system_project.Replay.ParseRate.{parse, eq_ignore_ascii_case, strip_x}

rates :
    (parse fixed_point (bytes "Max") ≡ ok maximum)
    × (parse fixed_point (bytes "2.5") ≡ ok (multiplier (25 * 10 ^ 8)))
    × (parse fixed_point (bytes "0") ≡ err (bytes "0"))
    × (parse fixed_point (bytes "1xx") ≡ err (bytes "1xx"))
    × (parse fixed_point (bytes "x") ≡ err (bytes "x"))
unfolding parse eq_ignore_ascii_case strip_x
rates = (refl, refl, refl, refl, refl)
