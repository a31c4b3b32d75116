-- ===== src/Structure/Reads.antt =====
-- The routes of app/api/routes.py that read: single rows, the lists of what a user may see, and the event log
-- (app/repositories/event_log_repository.py). An answer does not change the tables, but a denial is logged.
use kz_home_core.Common.{
  ℕ, suc, zero, String, Bool, true, false, not, ◌&&◌, ◌||◌, Option, none, some, List, [], ◌∷◌,
  str_eq, leb, keep, contains, or_else, if◌then◌else◌, Result, ok, err, not_found, codes, ◌==◌,
}
use kz_home_core.Database.{bound_house}
use kz_home_core.Access.Roles.{
  Permission, house_read, device_read, scene_read, automation_read, event_read, member_read,
  security_audit_read,
}
use kz_home_core.Access.Members.{Membership, accessible_house_ids}
use kz_home_core.Automation.Rules.{Rule, Scene}
use kz_home_core.Structure.Tables.{
  House, Floor, Room, Placed, Site, house_row, floor_row, room_row, device_row, scene_row, rule_row,
  floor_house, room_house, device_house, database,
}
use kz_home_core.Structure.Contents.{members}
use kz_home_core.Structure.Routes.{require, require_in, scene_house, rule_house}

abbrev pub Answer : Type 0 → Type 0
Answer A = Result A × Site

-- `get` of a repository, as an answer.
abbrev pub read : {A : Type 0} → Option A → Site → Answer A
read none s = (err not_found, s)
read (some r) s = (ok r, s)

abbrev pub get_house : String → String → Site → Answer House
get_house u x s = require u x house_read s (read (house_row x s) s)

abbrev pub get_floor : String → String → Site → Answer Floor
get_floor u x s = require_in u (floor_house x s) house_read s (read (floor_row x s) s)

abbrev pub get_room : String → String → Site → Answer Room
get_room u x s = require_in u (room_house x s) house_read s (read (room_row x s) s)

abbrev pub get_device : String → String → Site → Answer Placed
get_device u x s = require_in u (device_house x s) device_read s (read (device_row x s) s)

abbrev pub get_scene : String → String → Site → Answer Scene
get_scene u x s = require_in u (scene_house x s) scene_read s (read (scene_row x s) s)

abbrev pub get_automation : String → String → Site → Answer Rule
get_automation u x s = require_in u (rule_house x s) automation_read s (read (rule_row x s) s)

-- `allowed`
abbrev pub allowed : String → Permission → Site → List String
allowed u p s = accessible_house_ids u p (members s)

-- `column.in_(house_ids)`
abbrev pub is_any_of : List String → Option String → Bool
is_any_of ids none = false
is_any_of ids (some h) = contains h ids

abbrev pub list_houses : String → Site → List House
list_houses u s = keep (λ r. contains r.id (allowed u house_read s)) s.houses

abbrev pub list_floors : String → Site → List Floor
list_floors u s = keep (λ r. contains r.house_id (allowed u house_read s)) s.floors

abbrev pub list_rooms : String → Site → List Room
list_rooms u s = keep (λ r. is_any_of (allowed u house_read s) (floor_house r.floor_id s)) s.rooms

abbrev pub list_scenes : String → Site → List Scene
list_scenes u s = keep (λ r. contains r.house_id (allowed u scene_read s)) s.scenes

abbrev pub list_automations : String → Site → List Rule
list_automations u s = keep (λ r. contains r.house_id (allowed u automation_read s)) s.rules

-- `coalesce(PhysicalDeviceORM.house_id, FloorORM.house_id)` of a device that stands somewhere; a device is
-- bound at most once.
abbrev pub house_of : Site → Placed → Option String
house_of s d = elim (room_house d.room_id s) [
  | none ↦ none
  | some h ↦ some (or_else (bound_house d.id (database s)) h)
]

abbrev pub is_wanted : Option String → String → Bool
is_wanted none x = true
is_wanted (some y) x = str_eq x y

abbrev pub is_online : Option Bool → Bool → Bool
is_online none b = true
is_online (some true) b = b
is_online (some false) b = not b

-- `filtered_for_houses` of devices
abbrev pub devices_for_houses :
    List String → Option String → Option String → Option Bool → Site → List Placed
devices_for_houses ids room type online s =
    keep
      (λ d.
        is_any_of ids (house_of s d)
        && (is_wanted room d.room_id && (is_wanted type d.type && is_online online d.online)))
      s.devices

-- The second `require` of the list of devices.
abbrev pub with_room : {A : Type 0} → String → Option String → Site → Answer A → Answer A
with_room u none s next = next
with_room u (some x) s next = require_in u (room_house x s) device_read s next

abbrev pub list_devices :
    String
    → Option String
    → Option String
    → Option String
    → Option Bool
    → Site
    → Answer (List Placed)
list_devices u none room type online s =
    with_room u room s (ok (devices_for_houses (allowed u device_read s) room type online s), s)
list_devices u (some h) room type online s =
    require u h device_read s
      (with_room u room s (ok (devices_for_houses (h ∷ []) room type online s), s))

abbrev pub list_members : String → String → Site → Answer (List Membership)
list_members u h s =
    require u h member_read s (ok (keep (λ m. str_eq m.house_id h) s.memberships), s)

-- `EventLogORM`; payload and correlation are left out.
pub record LoggedEvent : Type 0 where
  pub id : String
  pub house_id : Option String
  pub event_type : String
  pub entity_id : Option String
  pub created_at : ℕ

abbrev pub security_types : List String
security_types =
    "auth_login_succeeded" ∷ "auth_login_failed" ∷ "auth_refresh_succeeded" ∷ "auth_refresh_failed"
    ∷ "auth_logout" ∷ "authorization_denied" ∷ []

-- `order_by(created_at.desc())`
abbrev pub insert_event : LoggedEvent → List LoggedEvent → List LoggedEvent
insert_event e [] = e ∷ []
insert_event e (f ∷ fs) =
    let rest = insert_event e fs in if leb f.created_at e.created_at then e ∷ f ∷ fs else f ∷ rest

abbrev pub newest_first : List LoggedEvent → List LoggedEvent
newest_first [] = []
newest_first (e ∷ es) = insert_event e (newest_first es)

abbrev pub limited : ℕ → List LoggedEvent → List LoggedEvent
limited zero es = []
limited (suc n) [] = []
limited (suc n) (e ∷ es) = e ∷ limited n es

abbrev pub is_visible : List String → List String → Option String → LoggedEvent → Bool
is_visible ids audit none e =
    is_any_of ids e.house_id
    && (not (contains e.event_type security_types) || is_any_of audit e.house_id)
is_visible ids audit (some t) e = is_any_of ids e.house_id && str_eq e.event_type t

-- `filtered_for_houses` of events
abbrev pub events_for_houses :
    List String → Option String → ℕ → List String → List LoggedEvent → List LoggedEvent
events_for_houses ids type limit audit rows =
    limited limit (newest_first (keep (is_visible ids audit type) rows))

-- `text.startswith(prefix)`
abbrev pub begins_with : List ℕ → List ℕ → Bool
begins_with [] text = true
begins_with (c ∷ cs) [] = false
begins_with (c ∷ cs) (d ∷ ds) = (c == d) && begins_with cs ds

abbrev pub asks_security : Option String → Bool
asks_security none = false
asks_security (some t) =
    begins_with (codes "auth_") (codes t) || begins_with (codes "authorization_") (codes t)

abbrev pub event_permission : Option String → Permission
event_permission type = if asks_security type then security_audit_read else event_read

abbrev pub list_events :
    String → Option String → Option String → ℕ → List LoggedEvent → Site → Answer (List LoggedEvent)
list_events u none type limit rows s = (
  ok (
      events_for_houses (allowed u (event_permission type) s) type limit
        (allowed u security_audit_read s) rows),
  s,
)
list_events u (some h) type limit rows s =
    require u h (event_permission type) s
      (ok (events_for_houses (h ∷ []) type limit (allowed u security_audit_read s) rows), s)
