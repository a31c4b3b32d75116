-- ===== src/Structure/Routes.antt =====
-- The routes of app/api/routes.py that create, change and delete, on the tables. The user is the one that
-- `get_current_user` has authenticated.
use kz_home_core.Common.{
  String, Bool, Option, none, some, ◌∷◌, if◌then◌else◌, Result, ok, err, not_found, forbidden,
}
use kz_home_core.Access.Roles.{
  Permission, house_manage, member_manage, device_manage, scene_manage, automation_manage, Role,
}
use kz_home_core.Access.Members.{membership_for, has_permission, add, change, remove}
use kz_home_core.Automation.Rules.{Rule, Scene}
use kz_home_core.Structure.Tables.{
  House, Floor, Room, Placed, Site, scene_row, rule_row, floor_house, room_house, device_house,
}
use kz_home_core.Structure.Crud.{
  References, with_ok, FloorUpdate, RoomUpdate, create_house, update_house, delete_house,
  create_floor, update_floor, delete_floor, create_room, update_room, delete_room,
}
use kz_home_core.Structure.Contents.{
  DeviceUpdate, SceneUpdate, RuleUpdate, create_device, update_device, delete_device, create_scene,
  update_scene, delete_scene, create_rule, update_rule, set_enabled, delete_rule, members,
  in_members,
}

-- `require`, in front of the rest of a route; a denial to a member is logged.
abbrev pub require :
    {A : Type 0} → String → String → Permission → Site → Result A × Site → Result A × Site
require user h p s next = elim (membership_for user h (members s)) [
  | none ↦ (err not_found, s)
  | some m ↦
      if has_permission (some m) p
      then next
      else (err forbidden, record s { denials = (user, h) ∷ s.denials })
]

-- The house of an entity, where there is one.
abbrev pub located : Option String → Result String
located none = err not_found
located (some h) = ok h

abbrev pub scene_house : String → Site → Option String
scene_house x s = elim (scene_row x s) [ none ↦ none | some r ↦ some r.house_id ]

abbrev pub rule_house : String → Site → Option String
rule_house x s = elim (rule_row x s) [ none ↦ none | some r ↦ some r.house_id ]

-- `require(session, user, house_for(session, kind, id), permission)`
abbrev pub require_in :
    {A : Type 0} → String → Option String → Permission → Site → Result A × Site → Result A × Site
require_in user h p s next = with_ok (located h) s (λ g. require user g p s next)

-- The second `require` of an update, for a new house that the request names.
abbrev pub require_target :
    String → Option String → Permission → Site → Result (Unit {0}) × Site → Result (Unit {0}) × Site
require_target user none p s next = next
require_target user (some h) p s next = require user h p s next

-- The second `require` where the new place is a floor or a room.
abbrev pub require_place :
    String
    → Option String
    → (String → Site → Option String)
    → Permission
    → Site
    → Result (Unit {0}) × Site
    → Result (Unit {0}) × Site
require_place user none house_for p s next = next
require_place user (some x) house_for p s next = require_in user (house_for x s) p s next

abbrev pub serve_post_house : String → String → House → Site → Result (Unit {0}) × Site
serve_post_house u fresh row s = create_house fresh row u s

abbrev pub serve_patch_house : String → String → Option String → Site → Result (Unit {0}) × Site
serve_patch_house u x name s = require u x house_manage s (update_house x name s)

abbrev pub serve_post_floor : String → Floor → Site → Result (Unit {0}) × Site
serve_post_floor u row s = require u row.house_id house_manage s (create_floor row s)

abbrev pub serve_patch_floor : String → String → FloorUpdate → Site → Result (Unit {0}) × Site
serve_patch_floor u x values s =
    require_in u (floor_house x s) house_manage s
      (require_target u values.house_id house_manage s (update_floor x values s))

abbrev pub serve_post_room : String → Room → Site → Result (Unit {0}) × Site
serve_post_room u row s =
    require_in u (floor_house row.floor_id s) house_manage s (create_room row s)

abbrev pub serve_patch_room : String → String → RoomUpdate → Site → Result (Unit {0}) × Site
serve_patch_room u x values s =
    require_in u (room_house x s) house_manage s
      (require_place u values.floor_id floor_house house_manage s (update_room x values s))

abbrev pub serve_post_device : String → Placed → Site → Result (Unit {0}) × Site
serve_post_device u row s =
    require_in u (room_house row.room_id s) device_manage s (create_device row s)

abbrev pub serve_patch_device : String → String → DeviceUpdate → Site → Result (Unit {0}) × Site
serve_patch_device u x values s =
    require_in u (device_house x s) device_manage s
      (require_place u values.room_id room_house device_manage s (update_device x values s))

abbrev pub serve_post_scene : String → Scene → Site → Result (Unit {0}) × Site
serve_post_scene u row s = require u row.house_id scene_manage s (create_scene row s)

abbrev pub serve_patch_scene : String → String → SceneUpdate → Site → Result (Unit {0}) × Site
serve_patch_scene u x values s =
    require_in u (scene_house x s) scene_manage s
      (require_target u values.house_id scene_manage s (update_scene x values s))

abbrev pub serve_delete_scene_of : String → String → Site → Result (Unit {0}) × Site
serve_delete_scene_of u x s = require_in u (scene_house x s) scene_manage s (delete_scene x s)

abbrev pub serve_post_automation : String → Rule → Site → Result (Unit {0}) × Site
serve_post_automation u row s = require u row.house_id automation_manage s (create_rule row s)

abbrev pub serve_patch_automation : String → String → RuleUpdate → Site → Result (Unit {0}) × Site
serve_patch_automation u x values s =
    require_in u (rule_house x s) automation_manage s
      (require_target u values.house_id automation_manage s (update_rule x values s))

abbrev pub serve_enable_automation : String → String → Bool → Site → Result (Unit {0}) × Site
serve_enable_automation u x enabled s =
    require_in u (rule_house x s) automation_manage s (set_enabled x enabled s)

abbrev pub serve_delete_automation_of : String → String → Site → Result (Unit {0}) × Site
serve_delete_automation_of u x s =
    require_in u (rule_house x s) automation_manage s (delete_rule x s)

abbrev pub serve_post_member :
    String → String → String → String → Role → Site → Result (Unit {0}) × Site
serve_post_member u fresh h user role s =
    require u h member_manage s (in_members (add fresh h user role) s)

abbrev pub serve_patch_member : String → String → String → Role → Site → Result (Unit {0}) × Site
serve_patch_member u h user role s = require u h member_manage s (in_members (change h user role) s)

abbrev pub serve_delete_member_of : String → String → String → Site → Result (Unit {0}) × Site
serve_delete_member_of u h user s = require u h member_manage s (in_members (remove h user) s)

module _ (refs : References) where
  abbrev pub serve_delete_house_of : String → String → Site → Result (Unit {0}) × Site
  serve_delete_house_of u x s = require u x house_manage s (delete_house refs x s)

  abbrev pub serve_delete_floor_of : String → String → Site → Result (Unit {0}) × Site
  serve_delete_floor_of u x s =
      require_in u (floor_house x s) house_manage s (delete_floor refs x s)

  abbrev pub serve_delete_room_of : String → String → Site → Result (Unit {0}) × Site
  serve_delete_room_of u x s = require_in u (room_house x s) house_manage s (delete_room refs x s)

  abbrev pub serve_delete_device_of : String → String → Site → Result (Unit {0}) × Site
  serve_delete_device_of u x s =
      require_in u (device_house x s) device_manage s (delete_device refs x s)
