-- ===== src/Structure/Safety.antt =====
-- A physical device is never moved out of the house that it is bound to, nor deleted, by any of the routes of
-- app/api/routes.py that change the structure.
use kz_home_core.Common.{String, true, false, Option, none, ◌∷◌, refl, str_eq, arith}
use kz_home_core.Structure.Tables.{
  House, Floor, Room, Placed, Site, house_row, floor_row, house, floor, room, device,
  structure_mutation,
}
use kz_home_core.Structure.Crud.{
  References, has_id, drop_floors, FloorUpdate, RoomUpdate, set_floor, set_room, check_parent,
  target_of_floor, create_house, update_house, delete_house, create_floor, update_floor,
  delete_floor, create_room, update_room, delete_room,
}
use kz_home_core.Structure.Contents.{
  DeviceUpdate, set_device, target_of_room, check_device, create_device, update_device,
  delete_device,
}
use kz_home_core.Structure.Keys.{IsKeyed-keep, IsKeyed-update}
use kz_home_core.Structure.Chains.{KeepsBound}
use kz_home_core.Structure.Bindings.{
  create_floor-KeepsBound, create_room-KeepsBound, create_device-KeepsBound,
  update_floor-KeepsBound, update_room-KeepsBound,
}
use kz_home_core.Structure.DeviceBindings.{update-device-KeepsBound}
use kz_home_core.Structure.Drops.{
  IsStored, KeepsBound-refl, KeepsBound-along, drop_rooms-KeepsBound, drop_floors-KeepsBound,
  delete_device-KeepsBound,
}
use kz_home_core.Structure.Guarded.{with_ok-P, commit-P}

abbrev pub IsGood : Site → Site → Type 0
IsGood s t = KeepsBound s t × IsStored t

module _ (s : Site) (stored : IsStored s) where
  pub unchanged : IsGood s s
  unchanged = (KeepsBound-refl s, stored)

  pub denied : (d : String × String) → IsGood s (record s { denials = d ∷ s.denials })
  denied d = (
    KeepsBound-along s s (record s { denials = d ∷ s.denials }) refl refl refl refl
        (KeepsBound-refl s),
    stored,
  )

  pub create_house-IsGood :
      (fresh : String) (row : House) (user : String) → IsGood s (create_house fresh row user s).1
  unfolding create_house
  create_house-IsGood fresh row user = commit-P (IsGood s) _ s _ unchanged (λ free.
      let (fl, rm, dv, sc, ru, mb) = stored in
      (
        KeepsBound-along s s _ refl refl refl refl (KeepsBound-refl s),
        (fl, rm, dv, sc, ru, (ground arith, mb)),
      ))

  pub update_house-IsGood : (x : String) (name : Option String) → IsGood s (update_house x name s).1
  unfolding update_house
  update_house-IsGood x name =
      with_ok-P (IsGood s) _ s _ unchanged
        (λ _ passed. (KeepsBound-along s s _ refl refl refl refl (KeepsBound-refl s), stored))

  pub create_floor-IsGood : (row : Floor) → IsGood s (create_floor row s).1
  unfolding create_floor
  create_floor-IsGood row = with_ok-P (IsGood s) _ s _ unchanged (λ _ passed.
      commit-P (IsGood s) _ s _ unchanged (λ free.
        let (fl, rm, dv, sc, ru, mb) = stored in
        (create_floor-KeepsBound s row free, ((free, fl), rm, dv, sc, ru, mb))))

  pub create_room-IsGood : (row : Room) → IsGood s (create_room row s).1
  unfolding create_room
  create_room-IsGood row = with_ok-P (IsGood s) _ s _ unchanged (λ _ passed.
      commit-P (IsGood s) _ s _ unchanged (λ free.
        let (fl, rm, dv, sc, ru, mb) = stored in
        (create_room-KeepsBound s row free, (fl, (free, rm), dv, sc, ru, mb))))

  pub create_device-IsGood : (row : Placed) → IsGood s (create_device row s).1
  unfolding create_device
  create_device-IsGood row = with_ok-P (IsGood s) _ s _ unchanged (λ _ passed.
      commit-P (IsGood s) _ s _ unchanged (λ free.
        let (fl, rm, dv, sc, ru, mb) = stored in
        (create_device-KeepsBound s row free, (fl, rm, (free, dv), sc, ru, mb))))

  pub update_floor-IsGood :
      (x : String) (values : FloorUpdate) → IsGood s (update_floor x values s).1
  unfolding update_floor
  update_floor-IsGood x values =
      with_ok-P (IsGood s) (check_parent values.house_id (λ h. house_row h s)) s _ unchanged
        (λ _ parent.
          with_ok-P (IsGood s) (structure_mutation floor x values.house_id false s) s _ unchanged
            (λ _ passed.
              let (fl, rm, dv, sc, ru, mb) = stored in
              (
                update_floor-KeepsBound s x values passed,
                (
                  IsKeyed-update (λ r. r.id) x (set_floor values) s.floors (λ r. refl) fl,
                  rm,
                  dv,
                  sc,
                  ru,
                  mb,
                ),
              )))

  pub update_room-IsGood : (x : String) (values : RoomUpdate) → IsGood s (update_room x values s).1
  unfolding update_room
  update_room-IsGood x values =
      with_ok-P (IsGood s) (check_parent values.floor_id (λ f. floor_row f s)) s _ unchanged
        (λ _ parent.
          with_ok-P (IsGood s) (target_of_floor values.floor_id s) s _ unchanged (λ target at.
            with_ok-P (IsGood s) (structure_mutation room x target false s) s _ unchanged
              (λ _ passed.
                let (fl, rm, dv, sc, ru, mb) = stored in
                (
                  update_room-KeepsBound s x values target at passed,
                  (
                    fl,
                    IsKeyed-update (λ r. r.id) x (set_room values) s.rooms (λ r. refl) rm,
                    dv,
                    sc,
                    ru,
                    mb,
                  ),
                ))))

  pub update_device-IsGood :
      (x : String) (values : DeviceUpdate) → IsGood s (update_device x values s).1
  unfolding update_device
  update_device-IsGood x values =
      with_ok-P (IsGood s) (target_of_room values.room_id s) s _ unchanged (λ target at.
        with_ok-P (IsGood s) (structure_mutation device x target false s) s _ unchanged (λ _ passed.
          with_ok-P (IsGood s) (check_device x values s) s _ unchanged (λ _ checked.
            let (fl, rm, dv, sc, ru, mb) = stored in
            (
              update-device-KeepsBound s x values target at passed,
              (
                fl,
                rm,
                IsKeyed-update (λ r. r.id) x (set_device values) s.devices (λ r. refl) dv,
                sc,
                ru,
                mb,
              ),
            ))))

  module _ (refs : References) where
    pub delete_room-IsGood : (x : String) → IsGood s (delete_room refs x s).1
    unfolding delete_room
    delete_room-IsGood x =
        with_ok-P (IsGood s) (structure_mutation room x none true s) s _ unchanged (λ _ passed.
          commit-P (IsGood s) _ s _ unchanged (λ free.
            let (fl, rm, dv, sc, ru, mb) = stored in
            (
              drop_rooms-KeepsBound refs s stored (has_id (λ r. r.id) x) free,
              (
                fl,
                IsKeyed-keep (λ r. r.id) _ s.rooms rm,
                IsKeyed-keep (λ r. r.id) _ s.devices dv,
                sc,
                ru,
                mb,
              ),
            )))

    pub delete_floor-IsGood : (x : String) → IsGood s (delete_floor refs x s).1
    unfolding delete_floor
    delete_floor-IsGood x =
        with_ok-P (IsGood s) (structure_mutation floor x none true s) s _ unchanged (λ _ passed.
          commit-P (IsGood s) _ s _ unchanged (λ free.
            let (fl, rm, dv, sc, ru, mb) = stored in
            (
              drop_floors-KeepsBound refs s stored (has_id (λ r. r.id) x) free,
              (
                IsKeyed-keep (λ r. r.id) _ s.floors fl,
                IsKeyed-keep (λ r. r.id) _ s.rooms rm,
                IsKeyed-keep (λ r. r.id) _ s.devices dv,
                sc,
                ru,
                mb,
              ),
            )))

    pub delete_house-IsGood : (x : String) → IsGood s (delete_house refs x s).1
    unfolding delete_house
    delete_house-IsGood x =
        with_ok-P (IsGood s) (structure_mutation house x none true s) s _ unchanged (λ _ passed.
          commit-P (IsGood s) _ s _ unchanged (λ free.
            let (fl, rm, dv, sc, ru, mb) = stored in
            (
              KeepsBound-along s (drop_floors (λ f. str_eq f.house_id x) s) _ refl refl refl refl
                  (drop_floors-KeepsBound refs s stored (λ f. str_eq f.house_id x) (ground arith)),
              (
                IsKeyed-keep (λ r. r.id) _ s.floors fl,
                IsKeyed-keep (λ r. r.id) _ s.rooms rm,
                IsKeyed-keep (λ r. r.id) _ s.devices dv,
                IsKeyed-keep (λ r. r.id) _ s.scenes sc,
                IsKeyed-keep (λ r. r.id) _ s.rules ru,
                IsKeyed-keep (λ r. r.id) _ s.memberships mb,
              ),
            )))

    pub delete_device-IsGood : (x : String) → IsGood s (delete_device refs x s).1
    unfolding delete_device
    delete_device-IsGood x =
        with_ok-P (IsGood s) (structure_mutation device x none true s) s _ unchanged (λ _ passed.
          commit-P (IsGood s) _ s _ unchanged (λ free.
            let (fl, rm, dv, sc, ru, mb) = stored in
            (
              delete_device-KeepsBound refs s stored x free,
              (fl, rm, IsKeyed-keep (λ r. r.id) _ s.devices dv, sc, ru, mb),
            )))
