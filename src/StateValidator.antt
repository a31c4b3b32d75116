-- ===== src/StateValidator.antt =====
-- app/services/state_validator.py: which state fields a device may be asked to take or may report.
pub mod Laws
mod Tests
use kz_home_core.Common.{
  ℕ, String, Bool, true, false, not, ◌&&◌, ◌||◌, none, some, List, [], ◌∷◌, leb, all, contains,
  lookup, Result, ok, err, invalid_reference, unless,
}

-- The JSON values of a state field; `negative n` is -(n + 1). Fractional numbers, lists and objects are
-- left out.
pub data StateValue : Type 0 where
  null : StateValue
  boolean : Bool → StateValue
  integer : ℕ → StateValue
  negative : ℕ → StateValue
  str : String → StateValue

abbrev pub State : Type 0
State = List (String × StateValue)

abbrev pub field_capabilities : List (String × String)
field_capabilities =
    ("on", "on_off")
    ∷ ("brightness", "brightness")
    ∷ ("position", "position")
    ∷ ("temperature", "temperature")
    ∷ ("target_temperature", "target_temperature")
    ∷ ("motion", "motion")
    ∷ ("humidity", "humidity")
    ∷ ("leak", "leak")
    ∷ ("illuminance", "illuminance")
    ∷ []

abbrev pub read_only_fields : List String
read_only_fields = "temperature" ∷ "motion" ∷ "humidity" ∷ "leak" ∷ "illuminance" ∷ []

abbrev pub boolean_fields : List String
boolean_fields = "on" ∷ "motion" ∷ "leak" ∷ []

-- The fields of INTEGER_RANGES; both have the range 0 to 100.
abbrev pub integer_fields : List String
integer_fields = "brightness" ∷ "position" ∷ []

abbrev pub maximum : ℕ
maximum = 100

abbrev pub is_null : StateValue → Bool
is_null null = true
is_null _ = false

abbrev pub is_boolean : StateValue → Bool
is_boolean (boolean _) = true
is_boolean _ = false

abbrev pub is_in_range : StateValue → Bool
is_in_range (integer n) = leb n maximum
is_in_range _ = false

-- `FIELD_CAPABILITIES.get(field) in capabilities`
unfoldable pub is_supported : List String → String → Bool
is_supported capabilities field = elim (lookup field field_capabilities) [
  | none ↦ false
  | some capability ↦ contains capability capabilities
]

-- The checks of `_validate_values` on one field.
unfoldable pub is_valid_value : String × StateValue → Bool
is_valid_value (field, value) =
    not (is_null value)
    && ((not (contains field boolean_fields) || is_boolean value)
        && (not (contains field integer_fields) || is_in_range value))

unfoldable pub is_writable : String × StateValue → Bool
is_writable (field, value) = not (contains field read_only_fields)

unfoldable pub validate_capabilities : List String → State → Result (Unit {0})
unfolding is_supported
validate_capabilities capabilities state =
    unless (not (all (λ f. is_supported capabilities f.0) state)) invalid_reference (ok tt)

unfoldable pub validate_values : State → Result (Unit {0})
unfolding is_valid_value
validate_values state = unless (not (all is_valid_value state)) invalid_reference (ok tt)

abbrev pub is_empty : State → Bool
is_empty [] = true
is_empty (_ ∷ _) = false

-- One check after another; the first that raises ends them.
abbrev pub then_check : Result (Unit {0}) → Result (Unit {0}) → Result (Unit {0})
then_check (ok _) r = r
then_check (err e) r = err e

unfoldable pub validate_command : List String → State → Result (Unit {0})
unfolding validate_capabilities validate_values is_writable
validate_command capabilities state = then_check (validate_capabilities capabilities state) (
    then_check (validate_values state) (
      unless (not (all is_writable state)) invalid_reference
        (unless (is_empty state) invalid_reference (ok tt))))

unfoldable pub validate_report : List String → State → Result (Unit {0})
unfolding validate_capabilities validate_values
validate_report capabilities state =
    then_check (validate_capabilities capabilities state) (validate_values state)
