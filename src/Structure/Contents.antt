-- ===== src/Structure/Contents.antt =====
-- The CRUD of `DeviceService` (app/services/device_service.py), `SceneService` (app/services/scene_service.py),
-- `AutomationService` (app/services/automation_service.py) and `MembershipService` (app/services/auth_service.py)
-- on the tables.
use kz_home_core.Common.{
  String, Bool, true, false, not, ◌&&◌, ◌||◌, Option, none, some, List, [], ◌∷◌, str_eq, keep, any,
  all, contains, update, or_else, is_some, is_none, if◌then◌else◌, Result, ok, err, conflict,
  not_found, invalid_reference, unless, Exec,
}
use kz_home_core.StateValidator.{State, validate_capabilities}
use kz_home_core.Database.{physical_by_device}
use kz_home_core.Access.Members.{Members}
use kz_home_core.Automation.Rules.{Trigger, Condition, Action, Rule, Scene}
use kz_home_core.Automation.Devices.{Home}
use kz_home_core.Automation.Engine.{validate}
use kz_home_core.Automation.Inputs.{validate_scene}
use kz_home_core.Structure.Tables.{
  House, Placed, Site, device_row, room_row, scene_row, rule_row, room_house, database, device,
  structure_mutation,
}
use kz_home_core.Structure.Crud.{References, with_ok, commit, has_id, refuses_device}

-- A new device must not take a name that is kept for a physical one.
unfoldable pub create_device : Placed → Site → Result (Unit {0}) × Site
create_device row s =
    with_ok
      (unless (is_some (physical_by_device row.id (database s))) conflict (
        unless (is_none (room_row row.room_id s)) invalid_reference
          (validate_capabilities row.capabilities row.state)))
      s
      (λ _.
        commit (any (has_id (λ r. r.id) row.id) s.devices) s
          (record s { devices = row ∷ s.devices }))

-- `DeviceUpdate`; `fields` are those that the request sets, `model_fields_set`.
pub record DeviceUpdate : Type 0 where
  pub fields : List String
  pub name : Option String
  pub room_id : Option String
  pub type : Option String
  pub state : Option State
  pub online : Option Bool
  pub capabilities : Option (List String)

abbrev pub set_device : DeviceUpdate → Placed → Placed
set_device values d = record d {
  name = or_else values.name d.name;
  room_id = or_else values.room_id d.room_id;
  type = or_else values.type d.type;
  state = or_else values.state d.state;
  online = or_else values.online d.online;
  capabilities = or_else values.capabilities d.capabilities;
}

-- `self.rooms.house_id(room_id)`, if the room is to change.
abbrev pub target_of_room : Option String → Site → Result (Option String)
target_of_room none s = ok none
target_of_room (some r) s = elim (room_house r s) [ none ↦ err not_found | some h ↦ ok (some h) ]

abbrev pub is_renaming : List String → Bool
is_renaming fields = all (λ f. contains f ("name" ∷ "room_id" ∷ [])) fields

-- The checks of `update` behind the guard.
unfoldable pub check_device : String → DeviceUpdate → Site → Result (Unit {0})
check_device x values s =
    unless (is_some (physical_by_device x (database s)) && not (is_renaming values.fields)) conflict
      (unless (elim values.room_id [ none ↦ false | some r ↦ is_none (room_row r s) ])
        invalid_reference
        (if not (is_some values.state || is_some values.capabilities)
          then ok tt
          else elim (device_row x s) [
            | none ↦ err not_found
            | some d ↦
                validate_capabilities (or_else values.capabilities d.capabilities)
                  (or_else values.state d.state)
          ]))

-- `update`
unfoldable pub update_device : String → DeviceUpdate → Site → Result (Unit {0}) × Site
unfolding check_device
update_device x values s = with_ok (target_of_room values.room_id s) s (λ target.
    with_ok (structure_mutation device x target false s) s (λ _.
      with_ok (check_device x values s) s (λ _.
        commit false s
          (record s { devices = update (has_id (λ r. r.id) x) (set_device values) s.devices }))))

-- `delete`
unfoldable pub delete_device : References → String → Site → Result (Unit {0}) × Site
delete_device refs x s = with_ok (structure_mutation device x none true s) s (λ _.
    commit (any (λ d. str_eq d.id x && refuses_device refs s d) s.devices) s
      (record s { devices = keep (λ d. not (str_eq d.id x)) s.devices }))

abbrev house_ids : List House → List String
house_ids [] = []
house_ids (h ∷ hs) = h.id ∷ house_ids hs

-- What the validators of scenes and rules read.
unfoldable pub home : Site → Home
home s = record {
  db = database s;
  houses = house_ids s.houses;
  rules = s.rules;
  scenes = s.scenes;
  published = [];
  tasks = [];
}

unfoldable pub create_scene : Scene → Site → Result (Unit {0}) × Site
create_scene row s = with_ok (validate_scene row (home s)) s (λ _.
    commit (any (has_id (λ r. r.id) row.id) s.scenes) s (record s { scenes = row ∷ s.scenes }))

pub record SceneUpdate : Type 0 where
  pub house_id : Option String
  pub actions : Option (List (String × State))

abbrev pub set_scene : SceneUpdate → Scene → Scene
set_scene values r = record r {
  house_id = or_else values.house_id r.house_id;
  actions = or_else values.actions r.actions;
}

unfoldable pub update_scene : String → SceneUpdate → Site → Result (Unit {0}) × Site
update_scene x values s = elim (scene_row x s) [
  | none ↦ (err not_found, s)
  | some current ↦ with_ok (validate_scene (set_scene values current) (home s)) s (λ _.
      commit false s
        (record s { scenes = update (has_id (λ r. r.id) x) (set_scene values) s.scenes }))
]

unfoldable pub delete_scene : String → Site → Result (Unit {0}) × Site
delete_scene x s = elim (scene_row x s) [
  | none ↦ (err not_found, s)
  | some current ↦ commit false s (record s { scenes = keep (λ r. not (str_eq r.id x)) s.scenes })
]

unfoldable pub create_rule : Rule → Site → Result (Unit {0}) × Site
create_rule row s =
    with_ok (validate row (home s)) s
      (λ _. commit (any (has_id (λ r. r.id) row.id) s.rules) s (record s { rules = row ∷ s.rules }))

pub record RuleUpdate : Type 0 where
  pub house_id : Option String
  pub enabled : Option Bool
  pub trigger : Option Trigger
  pub conditions : Option (List Condition)
  pub actions : Option (List Action)

abbrev pub set_rule : RuleUpdate → Rule → Rule
set_rule values r = record r {
  house_id = or_else values.house_id r.house_id;
  enabled = or_else values.enabled r.enabled;
  trigger = or_else values.trigger r.trigger;
  conditions = or_else values.conditions r.conditions;
  actions = or_else values.actions r.actions;
}

unfoldable pub update_rule : String → RuleUpdate → Site → Result (Unit {0}) × Site
update_rule x values s = elim (rule_row x s) [
  | none ↦ (err not_found, s)
  | some current ↦ with_ok (validate (set_rule values current) (home s)) s (λ _.
      commit false s (record s { rules = update (has_id (λ r. r.id) x) (set_rule values) s.rules }))
]

-- `set_enabled`
unfoldable pub set_enabled : String → Bool → Site → Result (Unit {0}) × Site
set_enabled x enabled s = elim (rule_row x s) [
  | none ↦ (err not_found, s)
  | some current ↦ commit false s (record s {
    rules = update (has_id (λ r. r.id) x) (λ r. record r { enabled = enabled }) s.rules;
  })
]

unfoldable pub delete_rule : String → Site → Result (Unit {0}) × Site
delete_rule x s = elim (rule_row x s) [
  | none ↦ (err not_found, s)
  | some current ↦ commit false s (record s { rules = keep (λ r. not (str_eq r.id x)) s.rules })
]

-- The membership service on its part of the tables.
abbrev pub members : Site → Members
members s = record { memberships = s.memberships; users = s.users; houses = house_ids s.houses }

abbrev pub in_members : {A : Type 0} → Exec Members A → Site → Result (Unit {0}) × Site
in_members m s =
    let (result, t) = m (members s) in
    (elim result [ ok _ ↦ ok tt | err e ↦ err e ], record s { memberships = t.memberships })
