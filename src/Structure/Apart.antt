-- ===== src/Structure/Apart.antt =====
-- The operations on one house (app/services/crud_service.py, app/services/device_service.py) leave another
-- as it is.
use kz_home_core.Common.{
  String, true, false, not, ◌||◌, Option, none, some, ◌≡◌, refl, subst, str_eq, eq_iff, any,
  or_else, inl, inr, Bool-cases, arith,
}
use kz_home_core.Access.Members.{membership_for, is_of}
use kz_home_core.Structure.Tables.{
  House, Floor, Room, Placed, Site, house, floor, room, device, house_row, floor_row, floor_house,
  room_house, device_location, structure_mutation,
}
use kz_home_core.Structure.Crud.{
  References, has_id, drop_floors, check_parent, target_of_floor, create_house, update_house,
  delete_house, create_floor, update_floor, delete_floor, create_room, update_room, delete_room,
  FloorUpdate, RoomUpdate,
}
use kz_home_core.Structure.Contents.{
  DeviceUpdate, target_of_room, check_device, create_device, update_device, delete_device,
}
use kz_home_core.Structure.Keys.{by_id_absent, by_id_other}
use kz_home_core.Structure.Drops.{IsStored}
use kz_home_core.Structure.Guarded.{with_ok-P, commit-P}
use kz_home_core.Structure.Views.{
  Same, Same-refl, Same-contents, only-keep, find-keep, find-update, any_none,
}
use kz_home_core.Structure.Untouched.{
  IsElsewhere, create_floor-Same, create_room-Same, create_device-Same, update_floor-Same,
  update_room-Same, update_device-Same,
}
use kz_home_core.Structure.Dropped.{
  drop_rooms-Same, drop_floors-Same, delete_floor-Same, delete_device-Same,
}

module _ (h : String) (s : Site) where
  pub create_house-Same :
      (hr : House) (fresh : String) (row : House) (user : String)
      → house_row h s ≡ some hr
      → Same h s (create_house fresh row user s).1
  unfolding create_house membership_for
  create_house-Same hr fresh row user there =
      commit-P (Same h s)
        (any (has_id (λ r. r.id) row.id) s.houses || any (has_id (λ m. m.id) fresh) s.memberships) s
        _ (Same-refl h s)
        (λ free.
          let new : str_eq row.id h ≡ false = elim (Bool-cases (str_eq row.id h)) [
            | inr other ↦ other
            | inl same ↦ absurd (
                ground (
                  arith,
                  there,
                  by_id_absent (λ r. r.id) h s.houses
                      (subst (λ z. any (has_id (λ r. r.id) z) s.houses ≡ false)
                        ((eq_iff row.id h).0 same) (ground arith)),
                ))
          ] in
          Same-contents h s s _ s.scenes s.rules _ (Same-refl h s)
            (by_id_other (λ r. r.id) h row s.houses new) (λ x. refl) (λ x. refl)
            (λ u. ground (arith, new)))

  pub update_house-Same :
      (x : String) (name : Option String) → str_eq x h ≡ false → Same h s (update_house x name s).1
  unfolding update_house
  update_house-Same x name out =
      with_ok-P (Same h s) (structure_mutation house x none false s) s _ (Same-refl h s)
        (λ _ passed.
          Same-contents h s s _ s.scenes s.rules s.memberships (Same-refl h s)
            (find-update (λ r. str_eq r.id h) (has_id (λ r. r.id) x)
              (λ r. record r { name = or_else name r.name }) s.houses
              (any_none _ s.houses (λ r. ground (arith, eq_iff r.id h, eq_iff r.id x, eq_iff x h)))
              (λ r. refl))
            (λ x. refl) (λ x. refl) (λ u. refl))

  pub create_floor-apart :
      (row : Floor) → str_eq row.house_id h ≡ false → Same h s (create_floor row s).1
  unfolding create_floor
  create_floor-apart row out = with_ok-P (Same h s) _ s _ (Same-refl h s) (λ _ passed.
      commit-P (Same h s) _ s _ (Same-refl h s) (λ free. create_floor-Same h s row free out))

  pub create_room-apart :
      (row : Room) → IsElsewhere h (floor_house row.floor_id s) → Same h s (create_room row s).1
  unfolding create_room
  create_room-apart row out = with_ok-P (Same h s) _ s _ (Same-refl h s) (λ _ passed.
      commit-P (Same h s) _ s _ (Same-refl h s) (λ free. create_room-Same h s row free out))

  pub create_device-apart :
      (row : Placed) → IsElsewhere h (room_house row.room_id s) → Same h s (create_device row s).1
  unfolding create_device
  create_device-apart row out = with_ok-P (Same h s) _ s _ (Same-refl h s) (λ _ passed.
      commit-P (Same h s) _ s _ (Same-refl h s) (λ free. create_device-Same h s row free out))

  pub update_floor-apart :
      (x : String) (values : FloorUpdate)
      → IsElsewhere h (floor_house x s)
      → IsElsewhere h values.house_id
      → Same h s (update_floor x values s).1
  unfolding update_floor
  update_floor-apart x values from to =
      with_ok-P (Same h s) (check_parent values.house_id (λ g. house_row g s)) s _ (Same-refl h s)
        (λ _ parent.
          with_ok-P (Same h s) (structure_mutation floor x values.house_id false s) s _
            (Same-refl h s) (λ _ passed. update_floor-Same h s x values from to))

  pub update_room-apart :
      (x : String) (values : RoomUpdate)
      → IsElsewhere h (room_house x s)
      → ((y : String) → values.floor_id ≡ some y → IsElsewhere h (floor_house y s))
      → Same h s (update_room x values s).1
  unfolding update_room
  update_room-apart x values from to =
      with_ok-P (Same h s) (check_parent values.floor_id (λ f. floor_row f s)) s _ (Same-refl h s)
        (λ _ parent.
          with_ok-P (Same h s) (target_of_floor values.floor_id s) s _ (Same-refl h s) (λ target at.
            with_ok-P (Same h s) (structure_mutation room x target false s) s _ (Same-refl h s)
              (λ _ passed. update_room-Same h s x values from to)))

  pub update_device-apart :
      (x : String) (values : DeviceUpdate)
      → IsElsewhere h (device_location x s)
      → ((y : String) → values.room_id ≡ some y → IsElsewhere h (room_house y s))
      → Same h s (update_device x values s).1
  unfolding update_device
  update_device-apart x values from to =
      with_ok-P (Same h s) (target_of_room values.room_id s) s _ (Same-refl h s) (λ target at.
        with_ok-P (Same h s) (structure_mutation device x target false s) s _ (Same-refl h s)
          (λ _ passed.
            with_ok-P (Same h s) (check_device x values s) s _ (Same-refl h s)
              (λ _ checked. update_device-Same h s x values from to)))

  module _ (stored : IsStored s) where
    module _ (refs : References) where
      pub delete_room-apart :
          (x : String) → IsElsewhere h (room_house x s) → Same h s (delete_room refs x s).1
      unfolding delete_room
      delete_room-apart x out =
          with_ok-P (Same h s) (structure_mutation room x none true s) s _ (Same-refl h s)
            (λ _ passed.
              commit-P (Same h s) _ s _ (Same-refl h s) (λ free. drop_rooms-Same h s stored x out))

      pub delete_floor-apart :
          (x : String) → IsElsewhere h (floor_house x s) → Same h s (delete_floor refs x s).1
      unfolding delete_floor
      delete_floor-apart x out =
          with_ok-P (Same h s) (structure_mutation floor x none true s) s _ (Same-refl h s)
            (λ _ passed.
              commit-P (Same h s) _ s _ (Same-refl h s)
                (λ free. delete_floor-Same h s stored x out))

      pub delete_device-apart :
          (x : String) → IsElsewhere h (device_location x s) → Same h s (delete_device refs x s).1
      unfolding delete_device
      delete_device-apart x out =
          with_ok-P (Same h s) (structure_mutation device x none true s) s _ (Same-refl h s)
            (λ _ passed.
              commit-P (Same h s) _ s _ (Same-refl h s)
                (λ free. delete_device-Same h s stored x out))

      pub delete_house-apart :
          (x : String) → str_eq x h ≡ false → Same h s (delete_house refs x s).1
      unfolding delete_house
      delete_house-apart x out =
          with_ok-P (Same h s) (structure_mutation house x none true s) s _ (Same-refl h s)
            (λ _ passed. commit-P (Same h s) _ s _ (Same-refl h s) (λ free.
              Same-contents h s (drop_floors (λ f. str_eq f.house_id x) s) _ _ _ _
                (drop_floors-Same h s stored (λ f. str_eq f.house_id x)
                  (λ y f found mine.
                    ground (arith, eq_iff f.house_id h, eq_iff f.house_id x, eq_iff x h)))
                (find-keep (λ r. str_eq r.id h) (λ r. not (str_eq r.id x)) s.houses
                  (any_none _ s.houses
                    (λ r. ground (arith, eq_iff r.id h, eq_iff r.id x, eq_iff x h))))
                (λ y.
                  only-keep (λ r. r.id) (λ r. str_eq r.house_id h) y
                    (λ r. not (str_eq r.house_id x)) s.scenes stored.3
                    (λ r found mine.
                      ground (arith, eq_iff r.house_id h, eq_iff r.house_id x, eq_iff x h)))
                (λ y.
                  only-keep (λ r. r.id) (λ r. str_eq r.house_id h) y
                    (λ r. not (str_eq r.house_id x)) s.rules stored.4
                    (λ r found mine.
                      ground (arith, eq_iff r.house_id h, eq_iff r.house_id x, eq_iff x h)))
                (λ u.
                  find-keep (is_of u h) (λ r. not (str_eq r.house_id x)) s.memberships
                    (any_none _ s.memberships (λ r.
                      ground (arith, eq_iff r.house_id h, eq_iff r.house_id x, eq_iff x h))))))
