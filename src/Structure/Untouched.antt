-- ===== src/Structure/Untouched.antt =====
-- The changes of the structure of one house (app/services/crud_service.py, app/services/device_service.py,
-- app/repositories/house_repository.py) leave another as it is.
use kz_home_core.Common.{
  String, false, Option, none, some, ◌∷◌, ◌≡◌, refl, str_eq, any, update, is_some, or_else, inl,
  inr, Option-cases, arith,
}
use kz_home_core.Structure.Tables.{
  Floor, Room, Placed, Site, floor_row, room_row, device_row, floor_house, room_house,
  device_location,
}
use kz_home_core.Structure.Crud.{has_id, FloorUpdate, RoomUpdate, set_floor, set_room}
use kz_home_core.Structure.Contents.{DeviceUpdate, set_device}
use kz_home_core.Structure.Views.{
  floor_in, room_in, device_in, Same, Same-structure, only_new, only-update,
}

-- If there is a house, it is another.
abbrev pub IsElsewhere : String → Option String → Type 0
IsElsewhere h o = (g : String) → o ≡ some g → str_eq g h ≡ false

module _ (h : String) (s : Site) where
  pub floor_elsewhere :
      (y : String) → IsElsewhere h (floor_house y s) → is_some (floor_in h y s) ≡ false
  unfolding floor_house
  floor_elsewhere y out = elim (Option-cases (floor_row y s)) [
    | inl missing ↦ rw missing refl
    | inr (f, found) ↦ ground (arith, out f.house_id (ground arith))
  ]

  pub room_elsewhere :
      (y : String) → IsElsewhere h (room_house y s) → is_some (room_in h y s) ≡ false
  unfolding room_house
  room_elsewhere y out = elim (Option-cases (room_row y s)) [
    | inl missing ↦ rw missing refl
    | inr (r, found) ↦ ground (arith, floor_elsewhere r.floor_id (λ g e. out g (ground arith)))
  ]

  pub device_elsewhere :
      (y : String) → IsElsewhere h (device_location y s) → is_some (device_in h y s) ≡ false
  unfolding device_location
  device_elsewhere y out = elim (Option-cases (device_row y s)) [
    | inl missing ↦ rw missing refl
    | inr (d, found) ↦ ground (arith, room_elsewhere d.room_id (λ g e. out g (ground arith)))
  ]

  pub create_floor-Same :
      (row : Floor)
      → any (has_id (λ r. r.id) row.id) s.floors ≡ false
      → str_eq row.house_id h ≡ false
      → Same h s (record s { floors = row ∷ s.floors })
  create_floor-Same row new out =
      Same-structure h s (record s { floors = row ∷ s.floors }) refl refl refl refl
        (λ x. only_new (λ r. r.id) (λ f. str_eq f.house_id h) x row s.floors new out) (λ x. refl)
        (λ x. refl)

  pub create_room-Same :
      (row : Room)
      → any (has_id (λ r. r.id) row.id) s.rooms ≡ false
      → IsElsewhere h (floor_house row.floor_id s)
      → Same h s (record s { rooms = row ∷ s.rooms })
  create_room-Same row new out =
      Same-structure h s (record s { rooms = row ∷ s.rooms }) refl refl refl refl (λ x. refl)
        (λ x.
          only_new (λ r. r.id) (λ r. is_some (floor_in h r.floor_id s)) x row s.rooms new
            (floor_elsewhere row.floor_id out))
        (λ x. refl)

  pub create_device-Same :
      (row : Placed)
      → any (has_id (λ r. r.id) row.id) s.devices ≡ false
      → IsElsewhere h (room_house row.room_id s)
      → Same h s (record s { devices = row ∷ s.devices })
  create_device-Same row new out =
      Same-structure h s (record s { devices = row ∷ s.devices }) refl refl refl refl (λ x. refl)
        (λ x. refl)
        (λ x.
          only_new (λ r. r.id) (λ d. is_some (room_in h d.room_id s)) x row s.devices new
            (room_elsewhere row.room_id out))

  pub update_floor-Same :
      (x : String) (values : FloorUpdate)
      → IsElsewhere h (floor_house x s)
      → IsElsewhere h values.house_id
      → Same h s (record s { floors = update (has_id (λ r. r.id) x) (set_floor values) s.floors })
  unfolding floor_house
  update_floor-Same x values from to =
      Same-structure h s
        (record s { floors = update (has_id (λ r. r.id) x) (set_floor values) s.floors }) refl refl
        refl refl
        (λ y.
          only-update (λ r. r.id) (λ f. str_eq f.house_id h) y x (set_floor values) s.floors
            (λ r. refl)
            (λ f found.
              let before : str_eq f.house_id h ≡ false = from f.house_id (ground arith) in
              (before, goes values.house_id f.house_id to before)))
        (λ y. refl) (λ y. refl)
    where
      goes :
          (new : Option String) (old : String)
          → IsElsewhere h new
          → str_eq old h ≡ false
          → str_eq (or_else new old) h ≡ false
      goes none old to before = before
      goes (some g) old to before = to g refl

  pub update_room-Same :
      (x : String) (values : RoomUpdate)
      → IsElsewhere h (room_house x s)
      → ((y : String) → values.floor_id ≡ some y → IsElsewhere h (floor_house y s))
      → Same h s (record s { rooms = update (has_id (λ r. r.id) x) (set_room values) s.rooms })
  unfolding room_house
  update_room-Same x values from to =
      Same-structure h s
        (record s { rooms = update (has_id (λ r. r.id) x) (set_room values) s.rooms }) refl refl
        refl refl (λ y. refl)
        (λ y.
          only-update (λ r. r.id) (λ r. is_some (floor_in h r.floor_id s)) y x (set_room values)
            s.rooms (λ r. refl)
            (λ r found.
              let before : is_some (floor_in h r.floor_id s) ≡ false =
                floor_elsewhere r.floor_id (λ g e. from g (ground arith)) in
              (before, goes values.floor_id r.floor_id to before)))
        (λ y. refl)
    where
      goes :
          (new : Option String) (old : String)
          → ((y : String) → new ≡ some y → IsElsewhere h (floor_house y s))
          → is_some (floor_in h old s) ≡ false
          → is_some (floor_in h (or_else new old) s) ≡ false
      goes none old to before = before
      goes (some y) old to before = floor_elsewhere y (to y refl)

  pub update_device-Same :
      (x : String) (values : DeviceUpdate)
      → IsElsewhere h (device_location x s)
      → ((y : String) → values.room_id ≡ some y → IsElsewhere h (room_house y s))
      → Same h s
          (record s { devices = update (has_id (λ r. r.id) x) (set_device values) s.devices })
  unfolding device_location
  update_device-Same x values from to =
      Same-structure h s
        (record s { devices = update (has_id (λ r. r.id) x) (set_device values) s.devices }) refl
        refl refl refl (λ y. refl) (λ y. refl)
        (λ y.
          only-update (λ r. r.id) (λ d. is_some (room_in h d.room_id s)) y x (set_device values)
            s.devices (λ r. refl)
            (λ d found.
              let before : is_some (room_in h d.room_id s) ≡ false =
                room_elsewhere d.room_id (λ g e. from g (ground arith)) in
              (before, goes values.room_id d.room_id to before)))
    where
      goes :
          (new : Option String) (old : String)
          → ((y : String) → new ≡ some y → IsElsewhere h (room_house y s))
          → is_some (room_in h old s) ≡ false
          → is_some (room_in h (or_else new old) s) ≡ false
      goes none old to before = before
      goes (some y) old to before = room_elsewhere y (to y refl)
