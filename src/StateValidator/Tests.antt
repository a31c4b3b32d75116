-- ===== src/StateValidator/Tests.antt =====
-- A dimmer that is switched on at half its brightness.
use kz_home_core.Common.{String, true, List, [], ◌∷◌, ◌≡◌, ◌≢◌, ◌↔◌, ok, All}
use kz_home_core.StateValidator.{State, boolean, integer, validate_command, validate_report}
use kz_home_core.StateValidator.Laws.{IsCommandable, IsReportable, validate_command-IsCommandable}

abbrev dimmer : List String
dimmer = "on_off" ∷ "brightness" ∷ []

abbrev half : State
half = ("on", boolean true) ∷ ("brightness", integer 50) ∷ []

validate_command-IsCommandable_example :
    ((validate_command dimmer half ≡ ok tt) ↔ ((half ≢ []) × All (IsCommandable dimmer) half))
    × ((validate_report dimmer half ≡ ok tt) ↔ All (IsReportable dimmer) half)
validate_command-IsCommandable_example = validate_command-IsCommandable dimmer half
