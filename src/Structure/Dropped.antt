-- ===== src/Structure/Dropped.antt =====
-- The deletions in one house (app/services/crud_service.py, app/services/device_service.py,
-- app/repositories/house_repository.py) leave another as it is.
use kz_home_core.Common.{
  String, Bool, true, false, not, some, List, ◌≡◌, refl, sym, ◌∙◌, subst, str_eq, eq_iff, keep,
  is_some, inl, inr, Bool-cases, arith,
}
use kz_home_core.Structure.Tables.{
  Floor, Room, Site, by_id, floor_row, room_row, device_row, floor_house, room_house,
  device_location,
}
use kz_home_core.Structure.Crud.{has_id, is_dropped, drop_rooms, stands_on, drop_floors}
use kz_home_core.Structure.Keys.{only, by_id-key, any-found}
use kz_home_core.Structure.Drops.{IsStored}
use kz_home_core.Structure.Views.{floor_in, room_in, Same, Same-structure, only-keep}
use kz_home_core.Structure.Untouched.{
  IsElsewhere, floor_elsewhere, room_elsewhere, device_elsewhere,
}

module _ (h : String) (s : Site) (stored : IsStored s) where
  -- Rooms that are not in the house are dropped, with floors that are not.
  drop-Same :
      (p : Room → Bool) (fs : List Floor)
      → ((x : String) → only (λ f. str_eq f.house_id h) (by_id (λ r. r.id) x fs) ≡ floor_in h x s)
      → ((y : String) (r : Room)
          → room_row y s ≡ some r
          → is_some (floor_in h r.floor_id s) ≡ true
          → p r ≡ false)
      → Same h s (record (drop_rooms p s) { floors = fs })
  drop-Same p fs floors out =
      Same-structure h s (record (drop_rooms p s) { floors = fs }) refl refl refl refl floors
        (λ x.
          only-keep (λ r. r.id) (λ r. is_some (floor_in h r.floor_id s)) x (λ r. not (p r)) s.rooms
            stored.1 (λ r found mine. ground (arith, out x r found mine)))
        (λ x.
          only-keep (λ d. d.id) (λ d. is_some (room_in h d.room_id s)) x
            (λ d. not (is_dropped p s d)) s.devices stored.2
            (λ d found mine. elim (Bool-cases (is_dropped p s d)) [
              | inr stays ↦ ground arith
              | inl dropped ↦
                  (let (r, there, hit) =
                      any-found (λ r. r.id) p d.room_id s.rooms stored.1 dropped in
                    absurd (ground (arith, out d.room_id r there (ground arith))))
            ]))

  pub drop_rooms-Same :
      (x : String) → IsElsewhere h (room_house x s) → Same h s (drop_rooms (has_id (λ r. r.id) x) s)
  unfolding room_house
  drop_rooms-Same x out =
      drop-Same (has_id (λ r. r.id) x) s.floors (λ y. refl)
        (λ y r found mine. elim (Bool-cases (str_eq r.id x)) [
          | inr other ↦ other
          | inl hit ↦ absurd (
              ground (
                arith,
                room_elsewhere h s x out,
                by_id-key (λ r. r.id) y s.rooms r found,
                eq_iff r.id x,
                subst (λ z. room_row z s ≡ some r)
                    (sym (by_id-key (λ r. r.id) y s.rooms r found) ∙ (eq_iff r.id x).0 hit) found,
              ))
        ])

  pub drop_floors-Same :
      (q : Floor → Bool)
      → ((y : String) (f : Floor)
          → floor_row y s ≡ some f
          → str_eq f.house_id h ≡ true
          → q f ≡ false)
      → Same h s (drop_floors q s)
  drop_floors-Same q out =
      drop-Same (stands_on q s) (keep (λ f. not (q f)) s.floors)
        (λ x.
          only-keep (λ f. f.id) (λ f. str_eq f.house_id h) x (λ f. not (q f)) s.floors stored.0
            (λ f found mine. ground (arith, out x f found mine)))
        (λ y r found mine. elim (Bool-cases (stands_on q s r)) [
          | inr stays ↦ stays
          | inl hit ↦
              (let (f, there, gone) = any-found (λ f. f.id) q r.floor_id s.floors stored.0 hit in
                absurd (ground (arith, out r.floor_id f there (ground arith))))
        ])

  pub delete_floor-Same :
      (x : String)
      → IsElsewhere h (floor_house x s)
      → Same h s (drop_floors (has_id (λ f. f.id) x) s)
  unfolding floor_house
  delete_floor-Same x out = drop_floors-Same (has_id (λ f. f.id) x) (λ y f found mine.
      elim (Bool-cases (str_eq f.id x)) [
        | inr other ↦ other
        | inl hit ↦ absurd (
            ground (
              arith,
              floor_elsewhere h s x out,
              subst (λ z. floor_row z s ≡ some f)
                  (sym (by_id-key (λ r. r.id) y s.floors f found) ∙ (eq_iff f.id x).0 hit) found,
            ))
      ])

  pub delete_device-Same :
      (x : String)
      → IsElsewhere h (device_location x s)
      → Same h s (record s { devices = keep (λ d. not (str_eq d.id x)) s.devices })
  unfolding device_location
  delete_device-Same x out =
      Same-structure h s (record s { devices = keep (λ d. not (str_eq d.id x)) s.devices }) refl
        refl refl refl (λ y. refl) (λ y. refl)
        (λ y.
          only-keep (λ d. d.id) (λ d. is_some (room_in h d.room_id s)) y (λ d. not (str_eq d.id x))
            s.devices stored.2
            (λ d found mine. elim (Bool-cases (str_eq d.id x)) [
              | inr other ↦ ground arith
              | inl hit ↦ absurd (
                  ground (
                    arith,
                    device_elsewhere h s x out,
                    subst (λ z. device_row z s ≡ some d)
                        (sym (by_id-key (λ r. r.id) y s.devices d found) ∙ (eq_iff d.id x).0 hit)
                        found,
                  ))
            ]))
