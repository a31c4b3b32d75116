-- ===== src/Automation/Devices.antt =====
-- `DeviceService.update_state` (app/services/device_service.py), and the event bus behind it
-- (app/events/bus.py, `schedule_automations` of app/main.py).
use kz_home_core.Common.{
  ℕ, String, not, Option, none, some, List, [], ◌∷◌, str_eq, keep, update, insert, if◌then◌else◌,
  Exec, Result, ok, err, conflict, not_found, invalid_reference, unless,
}
use kz_home_core.Database.{
  Database, Device, is_active, physical_by_device, device_by_id, located_house, house_of_device,
  is_in_house,
}
use kz_home_core.StateValidator.{State, validate_capabilities, validate_command, validate_report}
use kz_home_core.Automation.Rules.{Scene, Action, Rule, equals, field_of}

-- The event "device_state_changed".
pub record Change : Type 0 where
  pub device_id : String
  pub house_id : String
  pub state : State
  pub correlation_id : String
  pub depth : ℕ

pub data Outcome : Type 0 where
  triggered completed failed : Outcome

-- The events of the engine: a change, or what became of a rule, with its correlation and depth, or a scene.
pub data Event : Type 0 where
  changed : Change → Event
  status : Outcome → Rule → String → ℕ → Event
  scene_started : Scene → String → Event

-- A task of `process_automations`: not begun, or at work for an event, with the rules not tried yet, and
-- the rule in execution with the actions that are left.
pub data Task : Type 0 where
  scheduled : Change → Task
  working : Change → List Rule → Option (Rule × List Action) → Task

-- The tables, the events published, the newest first, and the tasks that are not done.
pub record Home : Type 0 where
  pub db : Database
  pub houses : List String
  pub rules : List Rule
  pub scenes : List Scene
  pub published : List Event
  pub tasks : List Task

-- `EventBus.publish`: a task for a change; the log and the websockets see every event.
unfoldable pub publish : Event → Home → Home
publish (changed c) s = record s {
  published = changed c ∷ s.published;
  tasks = scheduled c ∷ s.tasks;
}
publish (status o r k d) s = record s { published = status o r k d ∷ s.published }
publish (scene_started scene k) s = record s { published = scene_started scene k ∷ s.published }

-- `require_active`, `require_command_contract`, and the row.
unfoldable pub admission : String → Database → Result Device
admission device_id db = elim (physical_by_device device_id db) [
  | none ↦ elim (device_by_id device_id db) [ none ↦ err not_found | some entity ↦ ok entity ]
  | some item ↦
      (if not (is_active item.status)
        then err conflict
        else elim (located_house device_id db) [ none ↦ err not_found | some house ↦ err conflict ])
]

-- The fields of a patch that differ from what the row holds.
unfoldable pub changes : State → State → State
changes patch state = keep (λ f. not (equals (field_of f.0 state) f.1)) patch

-- `{**state, **changed}`
unfoldable pub merged : State → State → State
merged state [] = state
merged state ((field, value) ∷ fs) = merged (insert field value state) fs

abbrev pub set_device_state : String → State → Database → Database
set_device_state device_id state db = record db {
  devices = update (λ r. str_eq r.id device_id) (λ r. record r { state = state }) db.devices;
}

-- The write of `_persist_state`, and its event.
unfoldable pub write_state : Device → String → State → String → ℕ → Exec Home (Unit {0})
unfolding merged publish
write_state entity device_id changed_fields correlation depth s =
    elim (house_of_device device_id s.db) [
      | none ↦ (
        err not_found,
        record s { db = set_device_state device_id (merged entity.state changed_fields) s.db },
      )
      | some house ↦ (
        ok tt,
        publish
            (changed (record {
              device_id = device_id;
              house_id = house;
              state = changed_fields;
              correlation_id = correlation;
              depth = depth;
            }))
            (record s {
              db = set_device_state device_id (merged entity.state changed_fields) s.db;
            }),
      )
    ]

-- `_persist_state`
unfoldable pub persist_state : Device → String → State → String → ℕ → Exec Home (Unit {0})
unfolding changes write_state
persist_state entity device_id patch correlation depth s = elim (changes patch entity.state) [
  | [] ↦ (ok tt, s)
  | f ∷ fs ↦ write_state entity device_id (f ∷ fs) correlation depth s
]

-- `Transport.send_command`, with the clock's reading before it: house, device, patch and correlation. It is a
-- function, so two calls with the same arguments get the same answer.
abbrev pub SendCommand : Type 0
SendCommand = String → String → State → String → Result (Unit {0})

-- `update_state`; `send` is the transport, if there is one.
unfoldable pub update_state :
    Option SendCommand → String → State → String → ℕ → Exec Home (Unit {0})
unfolding admission persist_state
update_state send device_id patch correlation depth s = elim (admission device_id s.db) [
  | err e ↦ (err e, s)
  | ok entity ↦ elim send [
    | none ↦ elim (validate_capabilities entity.capabilities patch) [
      | err e ↦ (err e, s)
      | ok _ ↦ persist_state entity device_id patch correlation depth s
    ]
    | some deliver ↦ elim (validate_command entity.capabilities patch) [
      | err e ↦ (err e, s)
      | ok _ ↦ elim (house_of_device device_id s.db) [
        | none ↦ (err not_found, s)
        | some house ↦ (deliver house device_id patch correlation, s)
      ]
    ]
  ]
]

-- `require_active`
unfoldable pub active_binding : String → Database → Result (Unit {0})
active_binding device_id db = elim (physical_by_device device_id db) [
  | none ↦ ok tt
  | some item ↦
      (if not (is_active item.status) then err conflict else elim (located_house device_id db) [
        | none ↦ err not_found
        | some house ↦ elim item.house_id [
          | none ↦ err conflict
          | some bound ↦ unless (not (str_eq house bound)) conflict (ok tt)
        ]
      ])
]

-- `require_house`
unfoldable pub require_house : String → String → Database → Result Device
unfolding active_binding
require_house house device_id db = elim (active_binding device_id db) [
  | err e ↦ err e
  | ok _ ↦ elim (device_by_id device_id db) [
    | none ↦ err not_found
    | some entity ↦ unless (not (is_in_house device_id house db)) invalid_reference (ok entity)
  ]
]

-- `report_state`, which a message of the device calls: the change starts again at depth 0.
unfoldable pub report_state : String → String → State → String → Exec Home (Unit {0})
unfolding require_house persist_state
report_state house device_id patch correlation s = elim (require_house house device_id s.db) [
  | err e ↦ (err e, s)
  | ok entity ↦ elim (validate_report entity.capabilities patch) [
    | err e ↦ (err e, s)
    | ok _ ↦ persist_state entity device_id patch correlation 0 s
  ]
]
