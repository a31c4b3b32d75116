-- ===== src/Structure/Shown.antt =====
-- What the reading routes of app/api/routes.py show to whom.
use kz_home_core.Common.{
  String, Bool, true, Option, none, some, List, [], ◌∷◌, ◌≡◌, refl, sym, subst, eq_iff, All, inl,
  inr, Option-cases, arith, ok,
}
use kz_home_core.Database.{bound_house}
use kz_home_core.Access.Roles.{house_read, device_read, scene_read, automation_read}
use kz_home_core.Structure.Tables.{
  Placed, Site, house_row, floor_row, room_row, device_row, scene_row, rule_row, floor_house,
  room_house, device_house, device_location, database,
}
use kz_home_core.Structure.Routes.{scene_house, rule_house}
use kz_home_core.Structure.Keys.{by_id-key}
use kz_home_core.Structure.Reads.{
  get_house, get_floor, get_room, get_device, get_scene, get_automation, allowed, is_any_of,
  house_of, devices_for_houses, with_room, list_devices,
}
use kz_home_core.Structure.Readers.{
  is_permitted, is_readable, require-ok, require_in-ok, any_of-is_readable, All-keep-test, answered,
  listed, listed-All, get-is_readable, ShowsOwn, lists-ShowsOwn,
}

-- The house that decides on a device: that of its binding, or else that of its place.
abbrev pub house_for : Site → Placed → Option String
house_for s d = elim (bound_house d.id (database s)) [
  | none ↦ room_house d.room_id s
  | some h ↦ some h
]

house_of-house_for :
    (s : Site) (d : Placed) (ids : List String)
    → is_any_of ids (house_of s d) ≡ true
    → house_of s d ≡ house_for s d
house_of-house_for s d ids e = elim (Option-cases (room_house d.room_id s)) [
  | inl lost ↦ absurd (ground arith)
  | inr (h, there) ↦ elim (Option-cases (bound_house d.id (database s))) [
    | inl free ↦ ground arith
    | inr (g, bound) ↦ ground arith
  ]
]

devices-is_readable :
    (u : String) (s : Site) (ids : List String) (room type : Option String) (online : Option Bool)
    → ((o : Option String) → is_any_of ids o ≡ true → is_readable u device_read s o ≡ true)
    → All
        (λ d. is_readable u device_read s (house_for s d) ≡ true)
        (devices_for_houses ids room type online s)
devices-is_readable u s ids room type online own = All-keep-test _ _ s.devices (λ d e.
    let within : is_any_of ids (house_of s d) ≡ true = ground arith in
    subst (λ w. is_readable u device_read s w ≡ true) (house_of-house_for s d ids within)
      (own (house_of s d) within))

with_room-ok :
    {A : Type 0} (u : String) (room : Option String) (s : Site) (a b : A)
    → (with_room u room s (ok a, s)).0 ≡ ok b
    → a ≡ b
with_room-ok u none s a b e = ground arith
with_room-ok u (some x) s a b e =
    let (_, same) = require_in-ok u device_read s (room_house x s) (ok a, s) b e in ground arith

list_devices-is_readable :
    (u : String) (house room type : Option String) (online : Option Bool) (s : Site)
    → All
        (λ d. is_readable u device_read s (house_for s d) ≡ true)
        (listed (list_devices u house room type online s))
list_devices-is_readable u none room type online s =
    listed-All _ (list_devices u none room type online s) (λ rs e.
      subst (All (λ d. is_readable u device_read s (house_for s d) ≡ true))
        (with_room-ok u room s _ rs e)
        (devices-is_readable u s (allowed u device_read s) room type online
          (any_of-is_readable u device_read s)))
list_devices-is_readable u (some h) room type online s =
    listed-All _ (list_devices u (some h) room type online s) (λ rs e.
      let (permitted, inner) =
        require-ok u device_read s h
          (with_room u room s (ok (devices_for_houses (h ∷ []) room type online s), s)) rs e in
      subst (All (λ d. is_readable u device_read s (house_for s d) ≡ true))
        (with_room-ok u room s _ rs inner)
        (devices-is_readable u s (h ∷ []) room type online
          (λ o within. only_that o within permitted)))
  where
    only_that :
        (o : Option String)
        → is_any_of (h ∷ []) o ≡ true
        → is_permitted u device_read h s ≡ true
        → is_readable u device_read s o ≡ true
    only_that none e k = absurd (ground arith)
    only_that (some g) e k =
        subst (λ w. is_permitted u device_read w s ≡ true) (sym ((eq_iff g h).0 (ground arith))) k

device_row-at :
    (x : String) (s : Site) (d : Placed)
    → device_row x s ≡ some d
    → device_house x s ≡ house_for s d
unfolding device_house device_location
device_row-at x s d found =
    let same : d.id ≡ x = by_id-key (λ r. r.id) x s.devices d found in
    subst (λ y. device_house y s ≡ house_for s d) same
      (ground (arith, subst (λ y. device_row y s ≡ some d) (sym same) found))

-- Whatever a reading route shows to a user is in a house in which a membership gives that user the permission
-- to read it. Asking by name, that is so of houses, floors, rooms, devices, scenes and rules, also where
-- the name is one of another house; of the lists it is so of every row, whichever house, room, type and status
-- the list of devices is asked for. The house of a device is that of its physical binding, if it has one.
pub reads_permitted :
    (u x : String) (house room type : Option String) (online : Option Bool) (s : Site)
    → All (λ r. is_readable u house_read s (some x) ≡ true) (answered (get_house u x s))
      × All (λ r. is_readable u house_read s (some r.house_id) ≡ true) (answered (get_floor u x s))
      × All
          (λ r. is_readable u house_read s (floor_house r.floor_id s) ≡ true)
          (answered (get_room u x s))
      × All (λ d. is_readable u device_read s (house_for s d) ≡ true) (answered (get_device u x s))
      × All (λ r. is_readable u scene_read s (some r.house_id) ≡ true) (answered (get_scene u x s))
      × All
          (λ r. is_readable u automation_read s (some r.house_id) ≡ true)
          (answered (get_automation u x s))
      × All
          (λ d. is_readable u device_read s (house_for s d) ≡ true)
          (listed (list_devices u house room type online s))
      × ShowsOwn u s
unfolding floor_house room_house
reads_permitted u x house room type online s = (
  get-is_readable u house_read s (some x) (house_row x s) (λ r. some x) (λ r e. refl),
  get-is_readable u house_read s (floor_house x s) (floor_row x s) (λ r. some r.house_id)
      (λ r e. ground arith),
  get-is_readable u house_read s (room_house x s) (room_row x s) (λ r. floor_house r.floor_id s)
      (λ r e. ground arith),
  get-is_readable u device_read s (device_house x s) (device_row x s) (house_for s)
      (device_row-at x s),
  get-is_readable u scene_read s (scene_house x s) (scene_row x s) (λ r. some r.house_id)
      (λ r e. ground arith),
  get-is_readable u automation_read s (rule_house x s) (rule_row x s) (λ r. some r.house_id)
      (λ r e. ground arith),
  list_devices-is_readable u house room type online s,
  lists-ShowsOwn u s,
)
