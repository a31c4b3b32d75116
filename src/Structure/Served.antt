-- ===== src/Structure/Served.antt =====
-- A physical device is never moved out of the house that it is bound to, nor deleted, by any of the routes of
-- app/api/routes.py that create, change and delete.
use kz_home_core.Common.{String, Option, List, [], ◌∷◌, Exec, Result}
use kz_home_core.Access.Roles.{
  Permission, house_manage, member_manage, device_manage, scene_manage, automation_manage,
}
use kz_home_core.Access.Members.{Members, add, change, remove}
use kz_home_core.Structure.Tables.{Site, floor_house, room_house, device_house}
use kz_home_core.Structure.Crud.{References}
use kz_home_core.Structure.Contents.{members, in_members}
use kz_home_core.Structure.Routes.{
  scene_house, rule_house, require, require_in, require_target, require_place,
}
use kz_home_core.Structure.Requests.{
  Request, post_house, patch_house, delete_house_of, post_floor, patch_floor, delete_floor_of,
  post_room, patch_room, delete_room_of, post_device, patch_device, delete_device_of, post_scene,
  patch_scene, delete_scene_of, post_automation, patch_automation, enable_automation,
  delete_automation_of, post_member, patch_member, delete_member_of, serve, run,
}
use kz_home_core.Structure.Chains.{KeepsBound-IsConsistent, IsConsistent}
use kz_home_core.Structure.Drops.{IsStored}
use kz_home_core.Structure.Memberships.{
  Touches, add-Touches, change-Touches, remove-Touches, Touches-IsKeyed,
}
use kz_home_core.Structure.Guarded.{require-P, require_in-P, require_target-P, require_place-P}
use kz_home_core.Structure.Safety.{
  IsGood, unchanged, denied, create_house-IsGood, update_house-IsGood, delete_house-IsGood,
  create_floor-IsGood, update_floor-IsGood, delete_floor-IsGood, create_room-IsGood,
  update_room-IsGood, delete_room-IsGood, create_device-IsGood, update_device-IsGood,
  delete_device-IsGood,
}
use kz_home_core.Structure.Kept.{
  elsewhere, create_scene-IsGood, update_scene-IsGood, delete_scene-IsGood, create_rule-IsGood,
  update_rule-IsGood, set_enabled-IsGood, delete_rule-IsGood,
}

module _ (s : Site) (stored : IsStored s) where
  in_members-IsGood :
      {A : Type 0} (house user : String) (m : Exec Members A)
      → Touches house user (members s) (m (members s)).1.memberships
      → IsGood s (in_members m s).1
  in_members-IsGood house user m touched =
      elsewhere s stored s.scenes s.rules (m (members s)).1.memberships stored.3 stored.4
        (Touches-IsKeyed house user (members s) (m (members s)).1.memberships touched stored.5)

  -- Behind one check of permission, and behind two.
  once :
      (user : String) (h : Option String) (p : Permission) (next : Result (Unit {0}) × Site)
      → IsGood s next.1
      → IsGood s (require_in user h p s next).1
  once user h p next good =
      require_in-P (IsGood s) s (unchanged s stored) (denied s stored) user h p next
        (λ g found m. good)

  at :
      (user h : String) (p : Permission) (next : Result (Unit {0}) × Site)
      → IsGood s next.1
      → IsGood s (require user h p s next).1
  at user h p next good =
      require-P (IsGood s) s (unchanged s stored) (denied s stored) user h p next (λ m. good)

  towards :
      (user : String) (h : Option String) (p : Permission) (next : Result (Unit {0}) × Site)
      → IsGood s next.1
      → IsGood s (require_target user h p s next).1
  towards user h p next good =
      require_target-P (IsGood s) s (unchanged s stored) (denied s stored) user h p next (λ m. good)

  placed_at :
      (user : String) (x : Option String) (house_for : String → Site → Option String)
      (p : Permission) (next : Result (Unit {0}) × Site)
      → IsGood s next.1
      → IsGood s (require_place user x house_for p s next).1
  placed_at user x house_for p next good =
      require_place-P (IsGood s) s (unchanged s stored) (denied s stored) user x house_for p next
        (λ m. good)

  module _ (refs : References) where
    pub serve-IsGood : (r : Request) → IsGood s (serve refs r s).1
    unfolding serve
    serve-IsGood (post_house u fresh row) = create_house-IsGood s stored fresh row u
    serve-IsGood (patch_house u x name) =
        at u x house_manage _ (update_house-IsGood s stored x name)
    serve-IsGood (delete_house_of u x) = at u x house_manage _ (delete_house-IsGood s stored refs x)
    serve-IsGood (post_floor u row) =
        at u row.house_id house_manage _ (create_floor-IsGood s stored row)
    serve-IsGood (patch_floor u x values) =
        once u (floor_house x s) house_manage _
          (towards u values.house_id house_manage _ (update_floor-IsGood s stored x values))
    serve-IsGood (delete_floor_of u x) =
        once u (floor_house x s) house_manage _ (delete_floor-IsGood s stored refs x)
    serve-IsGood (post_room u row) =
        once u (floor_house row.floor_id s) house_manage _ (create_room-IsGood s stored row)
    serve-IsGood (patch_room u x values) = once u (room_house x s) house_manage _ (
        placed_at u values.floor_id floor_house house_manage _
          (update_room-IsGood s stored x values))
    serve-IsGood (delete_room_of u x) =
        once u (room_house x s) house_manage _ (delete_room-IsGood s stored refs x)
    serve-IsGood (post_device u row) =
        once u (room_house row.room_id s) device_manage _ (create_device-IsGood s stored row)
    serve-IsGood (patch_device u x values) = once u (device_house x s) device_manage _ (
        placed_at u values.room_id room_house device_manage _
          (update_device-IsGood s stored x values))
    serve-IsGood (delete_device_of u x) =
        once u (device_house x s) device_manage _ (delete_device-IsGood s stored refs x)
    serve-IsGood (post_scene u row) =
        at u row.house_id scene_manage _ (create_scene-IsGood s stored row)
    serve-IsGood (patch_scene u x values) =
        once u (scene_house x s) scene_manage _
          (towards u values.house_id scene_manage _ (update_scene-IsGood s stored x values))
    serve-IsGood (delete_scene_of u x) =
        once u (scene_house x s) scene_manage _ (delete_scene-IsGood s stored x)
    serve-IsGood (post_automation u row) =
        at u row.house_id automation_manage _ (create_rule-IsGood s stored row)
    serve-IsGood (patch_automation u x values) =
        once u (rule_house x s) automation_manage _
          (towards u values.house_id automation_manage _ (update_rule-IsGood s stored x values))
    serve-IsGood (enable_automation u x enabled) =
        once u (rule_house x s) automation_manage _ (set_enabled-IsGood s stored x enabled)
    serve-IsGood (delete_automation_of u x) =
        once u (rule_house x s) automation_manage _ (delete_rule-IsGood s stored x)
    serve-IsGood (post_member u fresh h user role) = at u h member_manage _ (
        in_members-IsGood h user (add fresh h user role)
          (add-Touches fresh h user role (members s)))
    serve-IsGood (patch_member u h user role) =
        at u h member_manage _
          (in_members-IsGood h user (change h user role) (change-Touches h user role (members s)))
    serve-IsGood (delete_member_of u h user) =
        at u h member_manage _
          (in_members-IsGood h user (remove h user) (remove-Touches h user (members s)))

-- Any sequence of requests to the routes that create, change and delete houses, floors, rooms, devices,
-- scenes, rules and memberships, whoever asks, leaves every device that is bound to a house in a room on a
-- floor of that house, if that is so at the start and no two rows of a table share an identifier there.
pub run-IsConsistent :
    (refs : References) (rs : List Request) (s : Site)
    → IsStored s
    → IsConsistent s
    → IsConsistent (run refs rs s)
run-IsConsistent refs [] s stored c = c
run-IsConsistent refs (r ∷ rs) s stored c =
    let (kept, next) = serve-IsGood s stored refs r in
    run-IsConsistent refs rs (serve refs r s).1 next
      (KeepsBound-IsConsistent s (serve refs r s).1 kept c)
