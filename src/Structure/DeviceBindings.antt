-- ===== src/Structure/DeviceBindings.antt =====
-- What a change of a device (app/services/device_service.py) does to bound devices.
use kz_home_core.Common.{
  String, false, Option, none, some, ◌≡◌, refl, ◌∙◌, str_eq, eq_iff, update, or_else, inl, inr,
  Bool-cases, Option-cases, arith, ok,
}
use kz_home_core.Database.{bound_house}
use kz_home_core.Structure.Tables.{
  Floor, Room, Site, floor_row, room_row, floor_house, room_house, device_location, database,
  device, structure_house, is_transfer, structure_mutation,
}
use kz_home_core.Structure.Crud.{has_id}
use kz_home_core.Structure.Contents.{DeviceUpdate, set_device, target_of_room}
use kz_home_core.Structure.Keys.{by_id-update}
use kz_home_core.Structure.Chains.{KeepsBound, structure_mutation-ok, bound_outside}

module _ (s : Site) where
  -- A device that is changed stays in its house, or is not bound.
  pub update-device-KeepsBound :
      (x : String) (values : DeviceUpdate) (target : Option String)
      → target_of_room values.room_id s ≡ ok target
      → structure_mutation device x target false s ≡ ok tt
      → KeepsBound s
          (record s { devices = update (has_id (λ r. r.id) x) (set_device values) s.devices })
  unfolding bound_house database structure_house device_location room_house floor_house
  update-device-KeepsBound x values target at h =
      let (source, found, why) = structure_mutation-ok device x target false s h in
      record {
        bindings = λ d. refl;
        locations = λ d g bound c. elim (Bool-cases (str_eq x d)) [
          | inr other ↦ record {
            placed = c.placed;
            in_room = c.in_room;
            on_floor = c.on_floor;
            device_found =
                by_id-update (λ r. r.id) d x (set_device values) s.devices (λ r. refl)
                ∙ rw other c.device_found;
            room_found = c.room_found;
            floor_found = c.floor_found;
            in_house = c.in_house;
          }
          | inl same ↦ elim why [
            | inl free ↦ absurd (
                ground (
                  arith,
                  bound_outside device x d g s bound free,
                  c.device_found,
                  eq_iff x d,
                  eq_iff d x,
                ))
            | inr home ↦
                (let (in_room, on_floor, room_found, floor_found, in_house) =
                    moved values.room_id target source g c.placed.room_id c.in_room c.on_floor at
                      home (ground (arith, c.device_found, c.room_found, c.floor_found, eq_iff x d))
                      c.room_found c.floor_found c.in_house in
                  record {
                    placed = set_device values c.placed;
                    in_room = in_room;
                    on_floor = on_floor;
                    device_found =
                        by_id-update (λ r. r.id) d x (set_device values) s.devices (λ r. refl)
                        ∙ rw (same, c.device_found) refl;
                    room_found = room_found;
                    floor_found = floor_found;
                    in_house = in_house;
                  })
          ]
        ];
      }
    where
      moved :
          (new target : Option String) (source g old : String) (r : Room) (f : Floor)
          → target_of_room new s ≡ ok target
          → is_transfer target source ≡ false
          → f.house_id ≡ source
          → room_row old s ≡ some r
          → floor_row r.floor_id s ≡ some f
          → f.house_id ≡ g
          → (q : Room) × (k : Floor) × (room_row (or_else new old) s ≡ some q)
            × (floor_row q.floor_id s ≡ some k)
            × (k.house_id ≡ g)
      moved none target source g old r f at home same found on mine = (r, f, found, on, mine)
      moved (some y) target source g old r f at home same found on mine =
          elim (Option-cases (room_row y s)) [
            | inl missing ↦ absurd (ground arith)
            | inr (q, there) ↦ elim (Option-cases (floor_row q.floor_id s)) [
              | inl missing ↦ absurd (ground arith)
              | inr (k, stands) ↦ (q, k, there, stands, ground (arith, eq_iff k.house_id source))
            ]
          ]
