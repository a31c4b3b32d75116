-- ===== src/Automation/Rules.antt =====
-- The rules of app/schemas/entities.py, and how app/services/automation_service.py compares values and times.
use kz_home_core.Common.{
  ℕ, ◌+◌, ◌*◌, String, Bool, true, false, not, ◌&&◌, ◌||◌, Option, none, some, List, [], ◌∷◌, codes,
  str_eq, leb, ltb, ◌==◌, or_else, lookup, if◌then◌else◌,
}
use kz_home_core.StateValidator.{StateValue, null, boolean, integer, negative, str, State}

pub data Operator : Type 0 where
  eq neq gt gte lt lte : Operator

-- `AutomationTrigger`, and `DeviceStateCondition`, which has the same fields
pub record Trigger : Type 0 where
  pub device_id : String
  pub field : String
  pub operator : Operator
  pub value : StateValue

-- `AutomationCondition`; the times of a `TimeCondition`, HH:MM, are minutes of the day.
pub data Condition : Type 0 where
  device_state : Trigger → Condition
  time : ℕ → ℕ → Condition

-- `AutomationAction`; a delay is in seconds.
pub data Action : Type 0 where
  set_state : String → State → Action
  delay : ℕ → Action

-- `AutomationRead`
pub record Rule : Type 0 where
  pub id : String
  pub house_id : String
  pub enabled : Bool
  pub trigger : Trigger
  pub conditions : List Condition
  pub actions : List Action

-- `SceneRead`; its actions are states of devices.
pub record Scene : Type 0 where
  pub id : String
  pub house_id : String
  pub actions : List (String × State)

-- A number as a difference; a bool is a number too.
unfoldable pub number : StateValue → Option (ℕ × ℕ)
number (integer n) = some (n, 0)
number (negative n) = some (0, n + 1)
number (boolean true) = some (1, 0)
number (boolean false) = some (0, 0)
number _ = none

unfoldable pub is_number_equal : ℕ × ℕ → StateValue → Bool
unfolding number
is_number_equal (p, n) b = elim (number b) [ none ↦ false | some (q, m) ↦ p + m == q + n ]

-- `a == b`
unfoldable pub equals : StateValue → StateValue → Bool
unfolding number is_number_equal
equals null null = true
equals (str a) (str b) = str_eq a b
equals a b = elim (number a) [ none ↦ false | some x ↦ is_number_equal x b ]

-- The order of texts: that of their code points.
unfoldable pub is_before : List ℕ → List ℕ → Bool
is_before [] [] = false
is_before [] (d ∷ ds) = true
is_before (c ∷ cs) [] = false
is_before (c ∷ cs) (d ∷ ds) = let rest = is_before cs ds in ltb c d || ((c == d) && rest)

unfoldable pub number_below : ℕ × ℕ → StateValue → Option Bool
unfolding number
number_below (p, n) b = elim (number b) [ none ↦ none | some (q, m) ↦ some (ltb (p + m) (q + n)) ]

-- `a < b`; none where it raises TypeError.
unfoldable pub below : StateValue → StateValue → Option Bool
unfolding is_before number number_below
below (str a) (str b) = some (is_before (codes a) (codes b))
below a b = elim (number a) [ none ↦ none | some x ↦ number_below x b ]

abbrev pub negated : Option Bool → Bool
negated none = false
negated (some b) = not b

-- `compare`
unfoldable pub compare : StateValue → Operator → StateValue → Bool
unfolding equals below
compare actual eq expected = equals actual expected
compare actual neq expected = not (equals actual expected)
compare actual gt expected = or_else (below expected actual) false
compare actual gte expected = negated (below actual expected)
compare actual lt expected = or_else (below actual expected) false
compare actual lte expected = negated (below expected actual)

-- `state.get(field)`
unfoldable pub field_of : String → State → StateValue
field_of field state = or_else (lookup field state) null

abbrev pub minute : ℕ
minute = 60_000_000

-- `time_matches`; the current time is in microseconds of the day.
unfoldable pub time_matches : ℕ → ℕ → ℕ → Bool
time_matches after before current =
    if leb after before
    then leb (after * minute) current && leb current (before * minute)
    else leb (after * minute) current || leb current (before * minute)
