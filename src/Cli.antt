-- ===== src/Cli.antt =====
-- crates/rts-cli/src/main.rs: the command line, from its parsed arguments to the configuration of a
-- pipeline. `clap`, the runtime and the filters of the log are libraries.
pub mod Duration
pub mod Config
pub mod Run
pub mod Logging
mod Tests
use real_time_system_project.Common.{◌++◌, Text, bytes, Result, map_err}
use real_time_system_project.Float.{Float}
use real_time_system_project.Replay.{Rate}
use real_time_system_project.Replay.ParseRate

-- The text of an error is the one that `ParseRateError` displays.
unfoldable pub parse_rate : (float : Float) → Text → Result Text (Rate float.F64)
parse_rate float raw = map_err (λ s. bytes "invalid rate: " ++ s) (ParseRate.parse float raw)
