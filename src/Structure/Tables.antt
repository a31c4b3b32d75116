-- ===== src/Structure/Tables.antt =====
-- The tables of app/models/entities.py that the routes change, where things are
-- (app/repositories/physical_device_repository.py, app/repositories/room_repository.py,
-- app/repositories/device_repository.py), and `PhysicalBindingGuard.structure_mutation`
-- (app/services/onboarding_service.py). The order of floors, the icons of rooms, metadata, the names of
-- scenes and rules and the times of rows are left out.
use kz_home_core.Common.{
  String, Bool, false, not, ◌&&◌, ◌||◌, Option, none, some, List, [], ◌∷◌, str_eq, find, any,
  is_some, Result, ok, err, conflict, not_found, unless,
}
use kz_home_core.Database.{Database, Device, PhysicalDevice, bound_house}
use kz_home_core.StateValidator.{State}
use kz_home_core.Access.Members.{Membership}
use kz_home_core.Automation.Rules.{Rule, Scene}

pub record House : Type 0 where
  pub id : String
  pub name : String

pub record Floor : Type 0 where
  pub id : String
  pub house_id : String
  pub name : String

pub record Room : Type 0 where
  pub id : String
  pub floor_id : String
  pub name : String

-- `DeviceORM` by its room.
pub record Placed : Type 0 where
  pub id : String
  pub name : String
  pub room_id : String
  pub type : String
  pub state : State
  pub online : Bool
  pub capabilities : List String

-- The tables; of the users the identifiers, and of the event log the denied authorizations: a user, a house.
pub record Site : Type 0 where
  pub houses : List House
  pub floors : List Floor
  pub rooms : List Room
  pub devices : List Placed
  pub scenes : List Scene
  pub rules : List Rule
  pub memberships : List Membership
  pub users : List String
  pub physical_devices : List PhysicalDevice
  pub denials : List (String × String)

-- `session.get(model, id)`, for rows with a primary key.
abbrev pub by_id : {A : Type 0} → (A → String) → String → List A → Option A
by_id key x rows = find (λ r. str_eq (key r) x) rows

abbrev pub house_row : String → Site → Option House
house_row x s = by_id (λ r. r.id) x s.houses

abbrev pub floor_row : String → Site → Option Floor
floor_row x s = by_id (λ r. r.id) x s.floors

abbrev pub room_row : String → Site → Option Room
room_row x s = by_id (λ r. r.id) x s.rooms

abbrev pub device_row : String → Site → Option Placed
device_row x s = by_id (λ r. r.id) x s.devices

abbrev pub scene_row : String → Site → Option Scene
scene_row x s = by_id (λ r. r.id) x s.scenes

abbrev pub rule_row : String → Site → Option Rule
rule_row x s = by_id (λ r. r.id) x s.rules

-- The house of a floor, and through the foreign keys those of a room and a device.
unfoldable pub floor_house : String → Site → Option String
floor_house x s = elim (floor_row x s) [ none ↦ none | some f ↦ some f.house_id ]

unfoldable pub room_house : String → Site → Option String
unfolding floor_house
room_house x s = elim (room_row x s) [ none ↦ none | some r ↦ floor_house r.floor_id s ]

unfoldable pub device_location : String → Site → Option String
unfolding room_house
device_location x s = elim (device_row x s) [ none ↦ none | some d ↦ room_house d.room_id s ]

-- The rows as `Database` has them: a device with the house of its room.
abbrev placed_in : Site → List Placed → List Device
placed_in s [] = []
placed_in s (d ∷ ds) =
    let rest = placed_in s ds in
    elim (room_house d.room_id s) [
      | none ↦ rest
      | some h ↦
          record {
            id = d.id;
            house_id = h;
            type = d.type;
            capabilities = d.capabilities;
            online = d.online;
            state = d.state;
          }
          ∷ rest
    ]

unfoldable pub database : Site → Database
database s = record {
  commands = [];
  controls = [];
  physical_devices = s.physical_devices;
  devices = placed_in s s.devices;
}

-- `DeviceRepository.house_id`: the binding first, then the location.
unfoldable pub device_house : String → Site → Option String
unfolding device_location
device_house x s = elim (bound_house x (database s)) [
  | none ↦ device_location x s
  | some h ↦ some h
]

pub data Kind : Type 0 where
  house floor room device : Kind

-- `structure_house`
unfoldable pub structure_house : Kind → String → Site → Option String
unfolding floor_house room_house device_location
structure_house house x s = elim (house_row x s) [ none ↦ none | some h ↦ some h.id ]
structure_house floor x s = floor_house x s
structure_house room x s = room_house x s
structure_house device x s = device_location x s

-- The floor that a bound device stands on is the one, and the room, and the device.
abbrev pub is_inside : Kind → String → String → Site → Bool
is_inside house x bound s = false
is_inside device x bound s = str_eq bound x && is_some (device_row bound s)
is_inside room x bound s = elim (device_row bound s) [ none ↦ false | some d ↦ str_eq d.room_id x ]
is_inside floor x bound s = elim (device_row bound s) [
  | none ↦ false
  | some d ↦ elim (room_row d.room_id s) [ none ↦ false | some r ↦ str_eq r.floor_id x ]
]

abbrev pub binds_inside : Kind → String → Site → PhysicalDevice → Bool
binds_inside house x s p = elim p.house_id [ none ↦ false | some h ↦ str_eq h x ]
binds_inside kind x s p =
    is_some p.house_id
    && elim p.bound_device_id [ none ↦ false | some bound ↦ is_inside kind x bound s ]

-- `bound_in_structure`
unfoldable pub bound_in_structure : Kind → String → Site → Bool
bound_in_structure kind x s = any (binds_inside kind x s) s.physical_devices

-- `target_house not in (None, source)`
abbrev pub is_transfer : Option String → String → Bool
is_transfer none source = false
is_transfer (some target) source = not (str_eq target source)

-- `structure_mutation`; nothing else writes between its two readings of the house.
unfoldable pub structure_mutation : Kind → String → Option String → Bool → Site → Result (Unit {0})
unfolding structure_house bound_in_structure
structure_mutation kind x target deleting s = elim (structure_house kind x s) [
  | none ↦ err not_found
  | some source ↦
      unless ((deleting || is_transfer target source) && bound_in_structure kind x s) conflict
        (ok tt)
]
