-- ===== src/Structure/Crud.antt =====
-- `CrudService` (app/services/crud_service.py) for houses, floors and rooms, over `Repository`
-- (app/repositories/base.py) and `HouseRepository` (app/repositories/house_repository.py). A commit that a
-- foreign key refuses is rolled back; the rows of the tables that are not here (commands, attempts) refer to
-- what `References` says.
use kz_home_core.Common.{
  String, Bool, true, false, not, ◌&&◌, ◌||◌, Option, none, some, ◌∷◌, str_eq, keep, any, update,
  or_else, is_none, Result, ok, err, conflict, not_found, invalid_reference, unless,
}
use kz_home_core.Access.Roles.{owner}
use kz_home_core.Structure.Tables.{
  House, Floor, Room, Placed, Site, house_row, floor_row, floor_house, house, floor, room,
  structure_mutation,
}

-- What the rows of the other tables refer to.
pub record References : Type 0 where
  pub to_house : String → Bool
  pub to_room : String → Bool
  pub to_device : String → Bool

-- Go on where a check passes.
abbrev pub with_ok : {A B : Type 0} → Result A → Site → (A → Result B × Site) → Result B × Site
with_ok (err e) s next = (err e, s)
with_ok (ok a) s next = next a

-- A commit, which the tables may refuse.
abbrev pub commit : Bool → Site → Site → Result (Unit {0}) × Site
commit true s t = (err conflict, s)
commit false s t = (ok tt, t)

abbrev pub has_id : {A : Type 0} → (A → String) → String → A → Bool
has_id key x r = str_eq (key r) x

-- A deletion of the rooms of a test, with the devices in them.
abbrev pub is_dropped : (Room → Bool) → Site → Placed → Bool
is_dropped p s d = any (λ r. p r && str_eq r.id d.room_id) s.rooms

abbrev pub drop_rooms : (Room → Bool) → Site → Site
drop_rooms p s = record s {
  rooms = keep (λ r. not (p r)) s.rooms;
  devices = keep (λ d. not (is_dropped p s d)) s.devices;
}

-- A deletion of the floors of a test, with their rooms.
abbrev pub stands_on : (Floor → Bool) → Site → Room → Bool
stands_on q s r = any (λ f. q f && str_eq f.id r.floor_id) s.floors

abbrev pub drop_floors : (Floor → Bool) → Site → Site
drop_floors q s = record (drop_rooms (stands_on q s) s) { floors = keep (λ f. not (q f)) s.floors }

-- The foreign key of a binding.
abbrev pub is_bound_device : String → Site → Bool
is_bound_device x s =
    any (λ p. elim p.bound_device_id [ none ↦ false | some bound ↦ str_eq bound x ])
      s.physical_devices

abbrev pub holds_house : String → Site → Bool
holds_house x s =
    any (λ p. elim p.house_id [ none ↦ false | some h ↦ str_eq h x ]) s.physical_devices

module _ (refs : References) where
  abbrev pub refuses_device : Site → Placed → Bool
  refuses_device s d = refs.to_device d.id || is_bound_device d.id s

  abbrev pub refuses_rooms : (Room → Bool) → Site → Bool
  refuses_rooms p s =
      any (λ r. p r && refs.to_room r.id) s.rooms
      || any (λ d. is_dropped p s d && refuses_device s d) s.devices

  abbrev pub refuses_house : String → Site → Bool
  refuses_house x s =
      (refs.to_house x || holds_house x s)
      || refuses_rooms (stands_on (λ f. str_eq f.house_id x) s) s

  -- `delete` for rooms.
  unfoldable pub delete_room : String → Site → Result (Unit {0}) × Site
  delete_room x s =
      with_ok (structure_mutation room x none true s) s (λ _.
        commit (refuses_rooms (has_id (λ r. r.id) x) s) s (drop_rooms (has_id (λ r. r.id) x) s))

  -- `delete` for floors.
  unfoldable pub delete_floor : String → Site → Result (Unit {0}) × Site
  delete_floor x s = with_ok (structure_mutation floor x none true s) s (λ _.
      commit (refuses_rooms (stands_on (has_id (λ f. f.id) x) s) s) s
        (drop_floors (has_id (λ f. f.id) x) s))

  -- `structure_mutation` and `delete_with_memberships`, as the route calls them.
  unfoldable pub delete_house : String → Site → Result (Unit {0}) × Site
  delete_house x s = with_ok (structure_mutation house x none true s) s (λ _.
      commit (refuses_house x s) s (record (drop_floors (λ f. str_eq f.house_id x) s) {
        houses = keep (λ r. not (str_eq r.id x)) s.houses;
        scenes = keep (λ r. not (str_eq r.house_id x)) s.scenes;
        rules = keep (λ r. not (str_eq r.house_id x)) s.rules;
        memberships = keep (λ m. not (str_eq m.house_id x)) s.memberships;
      }))

-- `create_with_owner`; the identifier of the membership is drawn.
unfoldable pub create_house : String → House → String → Site → Result (Unit {0}) × Site
create_house fresh row user s =
    commit
      (any (has_id (λ r. r.id) row.id) s.houses || any (has_id (λ m. m.id) fresh) s.memberships) s
      (record s {
        houses = row ∷ s.houses;
        memberships =
            record { id = fresh; user_id = user; house_id = row.id; role = owner } ∷ s.memberships;
      })

unfoldable pub create_floor : Floor → Site → Result (Unit {0}) × Site
create_floor row s =
    with_ok (unless (is_none (house_row row.house_id s)) invalid_reference (ok tt)) s (λ _.
      commit (any (has_id (λ r. r.id) row.id) s.floors) s (record s { floors = row ∷ s.floors }))

unfoldable pub create_room : Room → Site → Result (Unit {0}) × Site
create_room row s =
    with_ok (unless (is_none (floor_row row.floor_id s)) invalid_reference (ok tt)) s
      (λ _. commit (any (has_id (λ r. r.id) row.id) s.rooms) s (record s { rooms = row ∷ s.rooms }))

-- The fields of a change that are set.
pub record FloorUpdate : Type 0 where
  pub house_id : Option String
  pub name : Option String

pub record RoomUpdate : Type 0 where
  pub floor_id : Option String
  pub name : Option String

-- `update` for houses: the binding guard with no target.
unfoldable pub update_house : String → Option String → Site → Result (Unit {0}) × Site
update_house x name s = with_ok (structure_mutation house x none false s) s (λ _.
    commit false s (record s {
      houses =
          update (has_id (λ r. r.id) x) (λ r. record r { name = or_else name r.name }) s.houses;
    }))

abbrev pub set_floor : FloorUpdate → Floor → Floor
set_floor values f = record f {
  house_id = or_else values.house_id f.house_id;
  name = or_else values.name f.name;
}

abbrev pub set_room : RoomUpdate → Room → Room
set_room values r = record r {
  floor_id = or_else values.floor_id r.floor_id;
  name = or_else values.name r.name;
}

-- `_validate_parents` on a field that may be set.
abbrev pub check_parent : {A : Type 0} → Option String → (String → Option A) → Result (Unit {0})
check_parent none row = ok tt
check_parent (some parent) row = unless (is_none (row parent)) invalid_reference (ok tt)

-- `update` for floors.
unfoldable pub update_floor : String → FloorUpdate → Site → Result (Unit {0}) × Site
update_floor x values s = with_ok (check_parent values.house_id (λ h. house_row h s)) s (λ _.
    with_ok (structure_mutation floor x values.house_id false s) s (λ _.
      commit false s
        (record s { floors = update (has_id (λ r. r.id) x) (set_floor values) s.floors })))

-- `structure_house("floor", …)` of the new floor, if there is one.
abbrev pub target_of_floor : Option String → Site → Result (Option String)
target_of_floor none s = ok none
target_of_floor (some f) s = elim (floor_house f s) [ none ↦ err not_found | some h ↦ ok (some h) ]

-- `update` for rooms.
unfoldable pub update_room : String → RoomUpdate → Site → Result (Unit {0}) × Site
update_room x values s = with_ok (check_parent values.floor_id (λ f. floor_row f s)) s (λ _.
    with_ok (target_of_floor values.floor_id s) s (λ target.
      with_ok (structure_mutation room x target false s) s (λ _.
        commit false s
          (record s { rooms = update (has_id (λ r. r.id) x) (set_room values) s.rooms }))))
