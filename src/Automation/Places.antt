-- ===== src/Automation/Places.antt =====
-- The houses of devices, and what validated rules set there (app/services/automation_service.py).
use kz_home_core.Common.{
  ℕ, String, true, ◌&&◌, str_eq, eq_iff, Option, none, some, List, [], ◌∷◌, ◌++◌, ◌≡◌, ◌≢◌, refl,
  sym, subst, ◌∙◌, All, find, update, inl, inr, Bool-cases, Option-cases, Result-cases, Result, ok,
  err, arith, contains,
}
use kz_home_core.Database.{
  Database, Device, device_by_id, bound_house, located_house, house_of_device, is_in_house,
}
use kz_home_core.StateValidator.{State, then_check}
use kz_home_core.Automation.Rules.{Action, Rule}
use kz_home_core.Automation.Devices.{Change, Task, scheduled, working, Home, set_device_state}
use kz_home_core.Automation.Engine.{
  condition_devices, action_devices, check_houses, validate, enabled_for_house, fires, choose,
}

-- Every device that the actions set is in the house.
abbrev pub AllIn : String → Database → List String → Type 0
AllIn house db ds = All (λ d. house_of_device d db ≡ some house) ds

abbrev pub IsExecuting : String → Database → Option (Rule × List Action) → Type 0
IsExecuting house db none = Unit
IsExecuting house db (some (r, actions)) = AllIn house db (action_devices actions)

-- A task for an event of the house: the rules it still tries are the house's, and the actions that are left
-- set devices of the house.
abbrev pub IsFor : String → Database → Task → Type 0
IsFor house db (scheduled c) = c.house_id ≡ house
IsFor house db (working c rs current) =
    All (λ r. r.house_id ≡ house) rs × IsExecuting house db current

-- The UPDATE of one device's state moves no device, and is seen in no other row.
pub located-set :
    (d x : String) (st : State) (rows : List Device)
    → elim (find
          (λ r. str_eq r.id d)
          (update (λ r. str_eq r.id x) (λ r. record r { state = st }) rows))
        as (λ _. Option String) [ none ↦ none | some device ↦ some device.house_id ]
      ≡ elim (find (λ r. str_eq r.id d) rows) as (λ _. Option String) [
        | none ↦ none
        | some device ↦ some device.house_id
      ]
located-set d x st [] = refl
located-set d x st (r ∷ rows) = ground (arith, located-set d x st rows)

pub house-set :
    (d x : String) (st : State) (db : Database)
    → house_of_device d (set_device_state x st db) ≡ house_of_device d db
unfolding house_of_device located_house device_by_id bound_house
house-set d x st db = ground (arith, located-set d x st db.devices)

pub find-set :
    (d x : String) (st : State) (rows : List Device)
    → d ≢ x
    → find (λ r. str_eq r.id d) (update (λ r. str_eq r.id x) (λ r. record r { state = st }) rows)
      ≡ find (λ r. str_eq r.id d) rows
find-set d x st [] other = refl
find-set d x st (r ∷ rows) other =
    ground (arith, eq_iff r.id d, eq_iff r.id x, find-set d x st rows other)

-- What a step keeps: where the devices are, and the rows of those outside the house.
pub record Keeps (house : String) (db db' : Database) : Type 0 where
  pub places : (d : String) → house_of_device d db' ≡ house_of_device d db
  pub rows :
      (d : String) → house_of_device d db ≢ some house → device_by_id d db' ≡ device_by_id d db

pub Keeps-refl : (house : String) (db : Database) → Keeps house db db
Keeps-refl house db = record { places = λ d. refl; rows = λ d outside. refl }

pub Keeps-trans :
    (house : String) (a b c : Database) → Keeps house a b → Keeps house b c → Keeps house a c
Keeps-trans house a b c h k = record {
  places = λ d. k.places d ∙ h.places d;
  rows = λ d outside. k.rows d (λ inside. outside (sym (h.places d) ∙ inside)) ∙ h.rows d outside;
}

pub Keeps-set :
    (house x : String) (st : State) (db : Database)
    → house_of_device x db ≡ some house
    → Keeps house db (set_device_state x st db)
unfolding device_by_id
Keeps-set house x st db inside = record {
  places = λ d. house-set d x st db;
  rows = λ d outside.
      find-set d x st db.devices
        (λ e. outside (subst (λ y. house_of_device y db ≡ some house) (sym e) inside));
}

module _ (house : String) {db db' : Database} (k : Keeps house db db') where
  pub AllIn-kept : (ds : List String) → AllIn house db ds → AllIn house db' ds
  AllIn-kept [] a = tt
  AllIn-kept (d ∷ ds) (inside, a) = (k.places d ∙ inside, AllIn-kept ds a)

  pub IsFor-kept : (t : Task) → IsFor house db t → IsFor house db' t
  IsFor-kept (scheduled c) a = a
  IsFor-kept (working c rs none) a = a
  IsFor-kept (working c rs (some (r, actions))) (mine, inside) =
      (mine, AllIn-kept (action_devices actions) inside)

  pub tasks-kept : (ts : List Task) → All (IsFor house db) ts → All (IsFor house db') ts
  tasks-kept [] a = tt
  tasks-kept (t ∷ ts) (mine, a) = (IsFor-kept t mine, tasks-kept ts a)

-- A validated rule sets devices of its own house only.
pub in_house_lem :
    (d house : String) (db : Database)
    → is_in_house d house db ≡ true
    → house_of_device d db ≡ some house
unfolding is_in_house
in_house_lem d house db h = elim (Option-cases (house_of_device d db)) [
  | inl lost ↦ absurd (ground arith)
  | inr (found, e) ↦ ground (arith, eq_iff found house)
]

pub check_houses-AllIn :
    (ds : List String) (house : String) (s : Home)
    → check_houses ds house s ≡ ok tt
    → AllIn house s.db ds
unfolding check_houses
check_houses-AllIn [] house s h = tt
check_houses-AllIn (d ∷ ds) house s h =
    (in_house_lem d house s.db (ground arith), check_houses-AllIn ds house s (ground arith))

pub AllIn-suffix :
    (house : String) (db : Database) (ds es : List String)
    → AllIn house db (ds ++ es)
    → AllIn house db es
AllIn-suffix house db [] es a = a
AllIn-suffix house db (d ∷ ds) es (_, a) = AllIn-suffix house db ds es a

pub then_check-first : (r q : Result (Unit {0})) → then_check r q ≡ ok tt → r ≡ ok tt
then_check-first (ok tt) q h = refl
then_check-first (err e) q h = absurd (ground arith)

pub validate-AllIn :
    (rule : Rule) (s : Home)
    → validate rule s ≡ ok tt
    → AllIn rule.house_id s.db (action_devices rule.actions)
unfolding validate
validate-AllIn rule s h = elim (Bool-cases (contains rule.house_id s.houses)) [
  | inl there ↦
      AllIn-suffix rule.house_id s.db (rule.trigger.device_id ∷ condition_devices rule.conditions)
        (action_devices rule.actions)
        (check_houses-AllIn
          (rule.trigger.device_id
            ∷ (condition_devices rule.conditions ++ action_devices rule.actions))
          rule.house_id s (ground arith))
  | inr gone ↦ absurd (ground arith)
]

pub choose-validated :
    (r : Rule) (c : Change) (now : ℕ) (s : Home) → choose r c now s ≡ ok true → validate r s ≡ ok tt
unfolding choose
choose-validated r c now s h = elim (Bool-cases (fires r c)) [
  | inr misses ↦ absurd (ground arith)
  | inl hits ↦ elim (Result-cases (validate r s)) [
    | inr (e, raised) ↦ absurd (ground arith)
    | inl (tt, valid) ↦ valid
  ]
]

pub enabled_for_house-mine :
    (house : String) (rules : List Rule)
    → All (λ r. r.house_id ≡ house) (enabled_for_house house rules)
unfolding enabled_for_house
enabled_for_house-mine house [] = tt
enabled_for_house-mine house (r ∷ rs) = elim (Bool-cases (str_eq r.house_id house && r.enabled)) [
  | inl mine ↦ rw mine (ground (arith, eq_iff r.house_id house), enabled_for_house-mine house rs)
  | inr other ↦ rw other (enabled_for_house-mine house rs)
]
