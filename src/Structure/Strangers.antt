-- ===== src/Structure/Strangers.antt =====
-- What users who are no members of a house can do to it through the routes of app/api/routes.py that create,
-- change and delete.
use kz_home_core.Common.{
  String, false, Option, none, some, List, [], ◌∷◌, ◌≡◌, refl, ◌∙◌, subst, str_eq, eq_iff, Result,
  Bool-cases, Option-cases, inl, inr, arith,
}
use kz_home_core.Database.{bound_house}
use kz_home_core.Access.Roles.{
  Permission, house_manage, member_manage, device_manage, scene_manage, automation_manage,
}
use kz_home_core.Access.Members.{membership_for, add, change, remove}
use kz_home_core.Automation.Rules.{Scene, Rule}
use kz_home_core.Structure.Tables.{
  House, Site, house_row, floor_house, room_house, device_house, device_location, database,
  scene_row, rule_row,
}
use kz_home_core.Structure.Crud.{References}
use kz_home_core.Structure.Contents.{members}
use kz_home_core.Structure.Routes.{
  scene_house, rule_house, require, require_in, require_target, require_place,
}
use kz_home_core.Structure.Requests.{
  Request, asker, post_house, patch_house, delete_house_of, post_floor, patch_floor,
  delete_floor_of, post_room, patch_room, delete_room_of, post_device, patch_device,
  delete_device_of, post_scene, patch_scene, delete_scene_of, post_automation, patch_automation,
  enable_automation, delete_automation_of, post_member, patch_member, delete_member_of, serve, run,
}
use kz_home_core.Structure.Chains.{KeepsBound-IsConsistent, IsConsistent, consistent_at}
use kz_home_core.Structure.Drops.{IsStored}
use kz_home_core.Structure.Memberships.{add-Touches, change-Touches, remove-Touches}
use kz_home_core.Structure.Guarded.{
  IsMember, require-P, require_in-P, require_target-P, require_place-P,
}
use kz_home_core.Structure.Views.{Same, Same-refl, Same-trans}
use kz_home_core.Structure.Untouched.{IsElsewhere}
use kz_home_core.Structure.Apart.{
  create_house-Same, update_house-Same, create_floor-apart, create_room-apart, create_device-apart,
  update_floor-apart, update_room-apart, update_device-apart, delete_room-apart, delete_floor-apart,
  delete_device-apart, delete_house-apart,
}
use kz_home_core.Structure.Contained.{
  create_scene-apart, create_rule-apart, update_scene-apart, update_rule-apart, set_enabled-apart,
  delete_scene-apart, delete_rule-apart, in_members-apart,
}
use kz_home_core.Structure.Served.{serve-IsGood}

module _ (h : String) (s : Site) where
  -- The user has no membership in the house.
  abbrev IsStranger : String → Type 0
  IsStranger u = membership_for u h (members s) ≡ none

  -- A house that the user is a member of is another one.
  another : (u g : String) → IsStranger u → IsMember u g s → str_eq g h ≡ false
  another u g stranger (m, found) = elim (Bool-cases (str_eq g h)) [
    | inr other ↦ other
    | inl same ↦ absurd (
        ground
          (arith, subst (λ y. membership_for u y (members s) ≡ some m) ((eq_iff g h).0 same) found))
  ]

  -- Where the binding of a device says another house, it stands in another.
  location-IsElsewhere :
      (x : String)
      → IsConsistent s
      → IsElsewhere h (device_house x s)
      → IsElsewhere h (device_location x s)
  unfolding device_house
  location-IsElsewhere x c out g at = elim (Option-cases (bound_house x (database s))) [
    | inl free ↦ out g (ground arith)
    | inr (y, bound) ↦ out g (ground (arith, consistent_at x y s c bound))
  ]

  logged : (d : String × String) → Same h s (record s { denials = d ∷ s.denials })
  logged d = record {
    house_same = refl;
    floors_same = λ x. refl;
    rooms_same = λ x. refl;
    devices_same = λ x. refl;
    scenes_same = λ x. refl;
    rules_same = λ x. refl;
    members_same = λ u. refl;
  }

  module _ (u : String) (stranger : IsStranger u) where
    through :
        (o : Option String) (p : Permission) (next : Result (Unit {0}) × Site)
        → (IsElsewhere h o → Same h s next.1)
        → Same h s (require_in u o p s next).1
    through o p next k = require_in-P (Same h s) s (Same-refl h s) logged u o p next (λ g found m.
        k (λ y e. subst (λ z. str_eq z h ≡ false) {x = g} (ground arith) (another u g stranger m)))

    at :
        (g : String) (p : Permission) (next : Result (Unit {0}) × Site)
        → (str_eq g h ≡ false → Same h s next.1)
        → Same h s (require u g p s next).1
    at g p next k =
        require-P (Same h s) s (Same-refl h s) logged u g p next (λ m. k (another u g stranger m))

    towards :
        (o : Option String) (p : Permission) (next : Result (Unit {0}) × Site)
        → (IsElsewhere h o → Same h s next.1)
        → Same h s (require_target u o p s next).1
    towards o p next k =
        require_target-P (Same h s) s (Same-refl h s) logged u o p next
          (λ m. k (λ g e. another u g stranger (m g e)))

    placed_at :
        (o : Option String) (house_for : String → Site → Option String) (p : Permission)
        (next : Result (Unit {0}) × Site)
        → (((y : String) → o ≡ some y → IsElsewhere h (house_for y s)) → Same h s next.1)
        → Same h s (require_place u o house_for p s next).1
    placed_at o house_for p next k =
        require_place-P (Same h s) s (Same-refl h s) logged u o house_for p next
          (λ m. k (λ y e g there. another u g stranger (m y g e there)))

scene_elsewhere :
    (h x : String) (s : Site)
    → IsElsewhere h (scene_house x s)
    → (r : Scene) → scene_row x s ≡ some r
    → str_eq r.house_id h ≡ false
scene_elsewhere h x s out r found = out r.house_id (ground arith)

rule_elsewhere :
    (h x : String) (s : Site)
    → IsElsewhere h (rule_house x s)
    → (r : Rule) → rule_row x s ≡ some r
    → str_eq r.house_id h ≡ false
rule_elsewhere h x s out r found = out r.house_id (ground arith)

module _ (refs : References) (h : String) (hr : House) (s : Site) (there : house_row h s ≡ some hr)
    (stored : IsStored s) (c : IsConsistent s) where
  serve-Same : (r : Request) → IsStranger h s (asker r) → Same h s (serve refs r s).1
  unfolding serve
  serve-Same (post_house u fresh row) w = create_house-Same h s hr fresh row u there
  serve-Same (patch_house u x name) w =
      at h s u w x house_manage _ (λ out. update_house-Same h s x name out)
  serve-Same (delete_house_of u x) w =
      at h s u w x house_manage _ (λ out. delete_house-apart h s stored refs x out)
  serve-Same (post_floor u row) w =
      at h s u w row.house_id house_manage _ (λ out. create_floor-apart h s row out)
  serve-Same (patch_floor u x values) w = through h s u w (floor_house x s) house_manage _ (λ from.
      towards h s u w values.house_id house_manage _
        (λ to. update_floor-apart h s x values from to))
  serve-Same (delete_floor_of u x) w =
      through h s u w (floor_house x s) house_manage _
        (λ from. delete_floor-apart h s stored refs x from)
  serve-Same (post_room u row) w =
      through h s u w (floor_house row.floor_id s) house_manage _
        (λ to. create_room-apart h s row to)
  serve-Same (patch_room u x values) w = through h s u w (room_house x s) house_manage _ (λ from.
      placed_at h s u w values.floor_id floor_house house_manage _
        (λ to. update_room-apart h s x values from to))
  serve-Same (delete_room_of u x) w =
      through h s u w (room_house x s) house_manage _
        (λ from. delete_room-apart h s stored refs x from)
  serve-Same (post_device u row) w =
      through h s u w (room_house row.room_id s) device_manage _
        (λ to. create_device-apart h s row to)
  serve-Same (patch_device u x values) w =
      through h s u w (device_house x s) device_manage _ (λ from.
        placed_at h s u w values.room_id room_house device_manage _
          (λ to. update_device-apart h s x values (location-IsElsewhere h s x c from) to))
  serve-Same (delete_device_of u x) w =
      through h s u w (device_house x s) device_manage _
        (λ from. delete_device-apart h s stored refs x (location-IsElsewhere h s x c from))
  serve-Same (post_scene u row) w =
      at h s u w row.house_id scene_manage _ (λ out. create_scene-apart h s row out)
  serve-Same (patch_scene u x values) w = through h s u w (scene_house x s) scene_manage _ (λ from.
      towards h s u w values.house_id scene_manage _
        (λ to. update_scene-apart h s x values (scene_elsewhere h x s from) to))
  serve-Same (delete_scene_of u x) w =
      through h s u w (scene_house x s) scene_manage _
        (λ from. delete_scene-apart h s stored x (scene_elsewhere h x s from))
  serve-Same (post_automation u row) w =
      at h s u w row.house_id automation_manage _ (λ out. create_rule-apart h s row out)
  serve-Same (patch_automation u x values) w =
      through h s u w (rule_house x s) automation_manage _ (λ from.
        towards h s u w values.house_id automation_manage _
          (λ to. update_rule-apart h s x values (rule_elsewhere h x s from) to))
  serve-Same (enable_automation u x enabled) w =
      through h s u w (rule_house x s) automation_manage _
        (λ from. set_enabled-apart h s x enabled (rule_elsewhere h x s from))
  serve-Same (delete_automation_of u x) w =
      through h s u w (rule_house x s) automation_manage _
        (λ from. delete_rule-apart h s stored x (rule_elsewhere h x s from))
  serve-Same (post_member u fresh g user role) w = at h s u w g member_manage _ (λ out.
      in_members-apart h s stored g user (add fresh g user role) out
        (add-Touches fresh g user role (members s)))
  serve-Same (patch_member u g user role) w = at h s u w g member_manage _ (λ out.
      in_members-apart h s stored g user (change g user role) out
        (change-Touches g user role (members s)))
  serve-Same (delete_member_of u g user) w = at h s u w g member_manage _ (λ out.
      in_members-apart h s stored g user (remove g user) out (remove-Touches g user (members s)))

-- Nobody who asks is a member of the house.
abbrev pub AllStrangers : String → Site → List Request → Type 0
AllStrangers h s [] = Unit
AllStrangers h s (r ∷ rs) = IsStranger h s (asker r) × AllStrangers h s rs

still_strangers :
    (h : String) (s t : Site) (rs : List Request)
    → Same h s t
    → AllStrangers h s rs
    → AllStrangers h t rs
still_strangers h s t [] same w = tt
still_strangers h s t (r ∷ rs) same (a, w) =
    (same.members_same (asker r) ∙ a, still_strangers h s t rs same w)

-- Requests to create, change and delete houses, floors, rooms, devices, scenes, rules and memberships, from
-- users of whom none is a member of a house, leave that house as it is, whichever they name: its row, its
-- floors, its rooms, its devices, its scenes, its rules and its members. The house is there, no two rows of a
-- table share an identifier, and every bound device stands in the house of its binding, at the start.
pub run-Same :
    (refs : References) (h : String) (hr : House) (rs : List Request) (s : Site)
    → house_row h s ≡ some hr
    → IsStored s
    → IsConsistent s
    → AllStrangers h s rs
    → Same h s (run refs rs s)
run-Same refs h hr [] s there stored c w = Same-refl h s
run-Same refs h hr (r ∷ rs) s there stored c (a, w) =
    let t : Site = (serve refs r s).1 in
    let same : Same h s t = serve-Same refs h hr s there stored c r a in
    let (kept, next) = serve-IsGood s stored refs r in
    Same-trans h s t (run refs rs t) same (
      run-Same refs h hr rs t (same.house_same ∙ there) next (KeepsBound-IsConsistent s t kept c)
        (still_strangers h s t rs same w))
