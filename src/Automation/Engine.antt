-- ===== src/Automation/Engine.antt =====
-- `AutomationService` (app/services/automation_service.py) as tasks of one event loop: a step of a task is
-- what it does between two suspensions, or less, so that every interleaving is a sequence of steps.
use kz_home_core.Common.{
  ℕ, zero, suc, ◌%◌, String, Bool, true, false, not, ◌&&◌, ◌||◌, Option, none, some, List, [], ◌∷◌,
  ◌++◌, str_eq, leb, is_none, contains, find, keep, length, if◌then◌else◌, Exec, Result, ok, err,
  not_found, invalid_reference,
}
use kz_home_core.Database.{device_by_id, is_in_house}
use kz_home_core.StateValidator.{State, validate_capabilities, then_check}
use kz_home_core.Automation.Rules.{
  Condition, device_state, time, Action, set_state, delay, Rule, compare, field_of, time_matches,
}
use kz_home_core.Automation.Devices.{
  Change, Outcome, triggered, completed, failed, status, Task, scheduled, working, Home, publish,
  SendCommand, update_state,
}

abbrev pub max_automation_depth : ℕ
max_automation_depth = 8

abbrev pub condition_devices : List Condition → List String
condition_devices [] = []
condition_devices (device_state c ∷ cs) = c.device_id ∷ condition_devices cs
condition_devices (time after before ∷ cs) = condition_devices cs

abbrev pub action_devices : List Action → List String
action_devices [] = []
action_devices (set_state device_id state ∷ more) = device_id ∷ action_devices more
action_devices (delay seconds ∷ more) = action_devices more

-- The loop over `device_ids`.
unfoldable pub check_houses : List String → String → Home → Result (Unit {0})
check_houses [] house s = ok tt
check_houses (d ∷ ds) house s =
    let rest = check_houses ds house s in
    if is_none (device_by_id d s.db)
    then err not_found
    else if not (is_in_house d house s.db)
    then err invalid_reference
    else rest

-- `self.state_validator.validate(self.devices.get(device_id), fields)`
unfoldable pub check_fields : String → State → Home → Result (Unit {0})
check_fields device_id fields s = elim (device_by_id device_id s.db) [
  | none ↦ err not_found
  | some device ↦ validate_capabilities device.capabilities fields
]

unfoldable pub check_conditions : List Condition → Home → Result (Unit {0})
unfolding check_fields
check_conditions [] s = ok tt
check_conditions (device_state c ∷ cs) s =
    then_check (check_fields c.device_id ((c.field, c.value) ∷ []) s) (check_conditions cs s)
check_conditions (time after before ∷ cs) s = check_conditions cs s

unfoldable pub check_actions : List Action → Home → Result (Unit {0})
unfolding check_fields
check_actions [] s = ok tt
check_actions (set_state device_id state ∷ more) s =
    then_check (check_fields device_id state s) (check_actions more s)
check_actions (delay seconds ∷ more) s = check_actions more s

-- `_validate`
unfoldable pub validate : Rule → Home → Result (Unit {0})
unfolding check_houses check_fields check_conditions check_actions
validate rule s =
    if not (contains rule.house_id s.houses)
    then err invalid_reference
    else then_check
        (check_houses
          (rule.trigger.device_id
            ∷ (condition_devices rule.conditions ++ action_devices rule.actions))
          rule.house_id s)
        (then_check
          (check_fields rule.trigger.device_id ((rule.trigger.field, rule.trigger.value) ∷ []) s)
          (then_check (check_conditions rule.conditions s) (check_actions rule.actions s)))

-- `_conditions_match`; the time is what `now` reads.
unfoldable pub conditions_match : List Condition → ℕ → Home → Result Bool
conditions_match [] now s = ok true
conditions_match (device_state c ∷ cs) now s =
    let rest = conditions_match cs now s in
    elim (device_by_id c.device_id s.db) [
      | none ↦ err not_found
      | some device ↦
          if compare (field_of c.field device.state) c.operator c.value then rest else ok false
    ]
conditions_match (time after before ∷ cs) now s =
    let rest = conditions_match cs now s in if time_matches after before now then rest else ok false

-- `enabled_for_house`
unfoldable pub enabled_for_house : String → List Rule → List Rule
enabled_for_house house rules = keep (λ r. str_eq r.house_id house && r.enabled) rules

-- `handle_event` up to the loop.
unfoldable pub begin : Change → Home → Option Task
unfolding enabled_for_house
begin c s =
    if leb max_automation_depth c.depth || str_eq c.house_id ""
    then none
    else some (working c (enabled_for_house c.house_id s.rules) none)

-- Whether the trigger of a rule fires on a change.
unfoldable pub fires : Rule → Change → Bool
fires rule c =
    str_eq rule.trigger.device_id c.device_id
    && compare (field_of rule.trigger.field c.state) rule.trigger.operator rule.trigger.value

-- One turn of the loop over the rules, up to `_execute`: the rule, if it is to be executed.
unfoldable pub choose : Rule → Change → ℕ → Home → Result Bool
unfolding validate conditions_match fires
choose rule c now s =
    if not (fires rule c)
    then ok false
    else elim (validate rule s) [ err e ↦ err e | ok _ ↦ conditions_match rule.conditions now s ]

-- `_publish_status`
abbrev pub publish_status : Outcome → Rule → Change → Home → Home
publish_status outcome rule c s = publish (status outcome rule c.correlation_id c.depth) s

-- The n-th task, and the others.
abbrev pub take_task : ℕ → List Task → Option (Task × List Task)
take_task n [] = none
take_task zero (t ∷ ts) = some (t, ts)
take_task (suc n) (t ∷ ts) = elim (take_task n ts) [ none ↦ none | some (u, us) ↦ some (u, t ∷ us) ]

abbrev pub put : Option Task → List Task → List Task
put none ts = ts
put (some t) ts = t ∷ ts

module _ (send : Option SendCommand) where
  -- One action of `_execute`; a delay lets other tasks go on, and changes nothing.
  unfoldable pub perform : Action → Change → Exec Home (Unit {0})
  perform (delay seconds) c s = (ok tt, s)
  perform (set_state device_id state) c s =
      update_state send device_id state c.correlation_id (suc c.depth) s

  -- What is left of a task after a step, and the state.
  unfoldable pub advance : ℕ → Task → Home → Option Task × Home
  unfolding begin choose perform publish
  advance now (scheduled c) s = (begin c s, s)
  advance now (working c [] none) s = (none, s)
  advance now (working c (r ∷ rs) none) s = elim (choose r c now s) [
    | err e ↦ (some (working c rs none), publish_status failed r c s)
    | ok false ↦ (some (working c rs none), s)
    | ok true ↦ (some (working c rs (some (r, r.actions))), s)
  ]
  advance now (working c rs (some (r, []))) s =
      (some (working c rs none), publish_status completed r c (publish_status triggered r c s))
  advance now (working c rs (some (r, a ∷ more))) s =
      let (result, s') = perform a c s in
      elim result [
        | ok _ ↦ (some (working c rs (some (r, more))), s')
        | err e ↦ (some (working c rs none), publish_status failed r c s')
      ]

  -- The event loop resumes the n-th task.
  unfoldable pub resume : ℕ → ℕ → Home → Home
  unfolding advance
  resume n now s = elim (take_task n s.tasks) [
    | none ↦ s
    | some (t, ts) ↦
        (let (left, s') = advance now t (record s { tasks = ts }) in
          record s' { tasks = put left s'.tasks })
  ]

  -- A schedule: which of the tasks is resumed, counted round them, and the time then.
  abbrev pub run : List (ℕ × ℕ) → Home → Home
  run [] s = s
  run ((n, now) ∷ turns) s = run turns (resume (n % length s.tasks) now s)

  -- `manual_run`
  unfoldable pub manual_run : String → String → Exec Home Rule
  unfolding validate
  manual_run rule_id correlation s = elim (find (λ r. str_eq r.id rule_id) s.rules) [
    | none ↦ (err not_found, s)
    | some rule ↦ elim (validate rule s) [
      | err e ↦ (err e, s)
      | ok _ ↦ (
        ok rule,
        record s {
          tasks =
              working
                (record {
                  device_id = "";
                  house_id = "";
                  state = [];
                  correlation_id = correlation;
                  depth = 0;
                })
                [] (some (rule, rule.actions))
              ∷ s.tasks;
        },
      )
    ]
  ]
