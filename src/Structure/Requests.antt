-- ===== src/Structure/Requests.antt =====
-- The requests to the routes of app/api/routes.py that create, change and delete.
use kz_home_core.Common.{String, Bool, Option, List, [], ◌∷◌, Result}
use kz_home_core.Access.Roles.{Role}
use kz_home_core.Automation.Rules.{Rule, Scene}
use kz_home_core.Structure.Tables.{House, Floor, Room, Placed, Site}
use kz_home_core.Structure.Crud.{References, FloorUpdate, RoomUpdate}
use kz_home_core.Structure.Contents.{DeviceUpdate, SceneUpdate, RuleUpdate}
use kz_home_core.Structure.Routes.{
  serve_post_house, serve_patch_house, serve_delete_house_of, serve_post_floor, serve_patch_floor,
  serve_delete_floor_of, serve_post_room, serve_patch_room, serve_delete_room_of, serve_post_device,
  serve_patch_device, serve_delete_device_of, serve_post_scene, serve_patch_scene,
  serve_delete_scene_of, serve_post_automation, serve_patch_automation, serve_enable_automation,
  serve_delete_automation_of, serve_post_member, serve_patch_member, serve_delete_member_of,
}

-- The requests; the first text of each is the user.
pub data Request : Type 0 where
  post_house : String → String → House → Request
  patch_house : String → String → Option String → Request
  delete_house_of : String → String → Request
  post_floor : String → Floor → Request
  patch_floor : String → String → FloorUpdate → Request
  delete_floor_of : String → String → Request
  post_room : String → Room → Request
  patch_room : String → String → RoomUpdate → Request
  delete_room_of : String → String → Request
  post_device : String → Placed → Request
  patch_device : String → String → DeviceUpdate → Request
  delete_device_of : String → String → Request
  post_scene : String → Scene → Request
  patch_scene : String → String → SceneUpdate → Request
  delete_scene_of : String → String → Request
  post_automation : String → Rule → Request
  patch_automation : String → String → RuleUpdate → Request
  enable_automation : String → String → Bool → Request
  delete_automation_of : String → String → Request
  post_member : String → String → String → String → Role → Request
  patch_member : String → String → String → Role → Request
  delete_member_of : String → String → String → Request

-- Who asks.
abbrev pub asker : Request → String
asker (post_house u fresh row) = u
asker (patch_house u x name) = u
asker (delete_house_of u x) = u
asker (post_floor u row) = u
asker (patch_floor u x values) = u
asker (delete_floor_of u x) = u
asker (post_room u row) = u
asker (patch_room u x values) = u
asker (delete_room_of u x) = u
asker (post_device u row) = u
asker (patch_device u x values) = u
asker (delete_device_of u x) = u
asker (post_scene u row) = u
asker (patch_scene u x values) = u
asker (delete_scene_of u x) = u
asker (post_automation u row) = u
asker (patch_automation u x values) = u
asker (enable_automation u x enabled) = u
asker (delete_automation_of u x) = u
asker (post_member u fresh h user role) = u
asker (patch_member u h user role) = u
asker (delete_member_of u h user) = u

module _ (refs : References) where
  -- `turn_on` and its like are with the automation engine.
  unfoldable pub serve : Request → Site → Result (Unit {0}) × Site
  serve (post_house u fresh row) s = serve_post_house u fresh row s
  serve (patch_house u x name) s = serve_patch_house u x name s
  serve (delete_house_of u x) s = serve_delete_house_of refs u x s
  serve (post_floor u row) s = serve_post_floor u row s
  serve (patch_floor u x values) s = serve_patch_floor u x values s
  serve (delete_floor_of u x) s = serve_delete_floor_of refs u x s
  serve (post_room u row) s = serve_post_room u row s
  serve (patch_room u x values) s = serve_patch_room u x values s
  serve (delete_room_of u x) s = serve_delete_room_of refs u x s
  serve (post_device u row) s = serve_post_device u row s
  serve (patch_device u x values) s = serve_patch_device u x values s
  serve (delete_device_of u x) s = serve_delete_device_of refs u x s
  serve (post_scene u row) s = serve_post_scene u row s
  serve (patch_scene u x values) s = serve_patch_scene u x values s
  serve (delete_scene_of u x) s = serve_delete_scene_of u x s
  serve (post_automation u row) s = serve_post_automation u row s
  serve (patch_automation u x values) s = serve_patch_automation u x values s
  serve (enable_automation u x enabled) s = serve_enable_automation u x enabled s
  serve (delete_automation_of u x) s = serve_delete_automation_of u x s
  serve (post_member u fresh h user role) s = serve_post_member u fresh h user role s
  serve (patch_member u h user role) s = serve_patch_member u h user role s
  serve (delete_member_of u h user) s = serve_delete_member_of u h user s

  abbrev pub run : List Request → Site → Site
  run [] s = s
  run (r ∷ rs) s = run rs (serve r s).1
