-- ===== src/Structure/Bindings.antt =====
-- What each change of the structure does to bound devices (app/services/crud_service.py,
-- app/services/device_service.py).
use kz_home_core.Common.{
  String, false, Option, none, some, List, ◌∷◌, ◌≡◌, refl, ◌∙◌, subst, str_eq, eq_iff, any, update,
  or_else, inl, inr, Bool-cases, Option-cases, arith, ok,
}
use kz_home_core.Database.{bound_house}
use kz_home_core.Structure.Tables.{
  Floor, Room, Placed, Site, by_id, floor_row, floor_house, room_house, database, floor, room,
  structure_house, is_transfer, structure_mutation,
}
use kz_home_core.Structure.Crud.{
  has_id, FloorUpdate, RoomUpdate, set_floor, set_room, target_of_floor,
}
use kz_home_core.Structure.Keys.{by_id_absent, by_id-update}
use kz_home_core.Structure.Chains.{KeepsBound, structure_mutation-ok, bound_outside}

-- A new row hides no row.
by_id-fresh :
    {A : Type 0} (key : A → String) (y : String) (row : A) (rows : List A) (r : A)
    → any (has_id key (key row)) rows ≡ false
    → by_id key y rows ≡ some r
    → by_id key y (row ∷ rows) ≡ some r
by_id-fresh key y row rows r new found = elim (Bool-cases (str_eq (key row) y)) [
  | inr other ↦ rw other found
  | inl same ↦ absurd (
      ground (
        arith,
        by_id_absent key y rows
            (subst (λ z. any (has_id key z) rows ≡ false) ((eq_iff (key row) y).0 same) new),
      ))
]

-- A target that is no transfer is the house itself.
stays :
    (target : Option String) (source h : String)
    → is_transfer target source ≡ false
    → h ≡ source
    → or_else target h ≡ h
stays none source h e same = refl
stays (some t) source h e same = ground (arith, eq_iff t source)

module _ (s : Site) where
  pub create_floor-KeepsBound :
      (row : Floor)
      → any (has_id (λ r. r.id) row.id) s.floors ≡ false
      → KeepsBound s (record s { floors = row ∷ s.floors })
  unfolding bound_house database
  create_floor-KeepsBound row new = record {
    bindings = λ d. refl;
    locations = λ d g bound c. record {
      placed = c.placed;
      in_room = c.in_room;
      on_floor = c.on_floor;
      device_found = c.device_found;
      room_found = c.room_found;
      floor_found =
          by_id-fresh (λ r. r.id) c.in_room.floor_id row s.floors c.on_floor new c.floor_found;
      in_house = c.in_house;
    };
  }

  pub create_room-KeepsBound :
      (row : Room)
      → any (has_id (λ r. r.id) row.id) s.rooms ≡ false
      → KeepsBound s (record s { rooms = row ∷ s.rooms })
  unfolding bound_house database
  create_room-KeepsBound row new = record {
    bindings = λ d. refl;
    locations = λ d g bound c. record {
      placed = c.placed;
      in_room = c.in_room;
      on_floor = c.on_floor;
      device_found = c.device_found;
      room_found = by_id-fresh (λ r. r.id) c.placed.room_id row s.rooms c.in_room new c.room_found;
      floor_found = c.floor_found;
      in_house = c.in_house;
    };
  }

  pub create_device-KeepsBound :
      (row : Placed)
      → any (has_id (λ r. r.id) row.id) s.devices ≡ false
      → KeepsBound s (record s { devices = row ∷ s.devices })
  unfolding bound_house database
  create_device-KeepsBound row new = record {
    bindings = λ d. refl;
    locations = λ d g bound c. record {
      placed = c.placed;
      in_room = c.in_room;
      on_floor = c.on_floor;
      device_found = by_id-fresh (λ r. r.id) d row s.devices c.placed new c.device_found;
      room_found = c.room_found;
      floor_found = c.floor_found;
      in_house = c.in_house;
    };
  }

  -- A floor that is changed stays in its house, or no binding is on it.
  pub update_floor-KeepsBound :
      (x : String) (values : FloorUpdate)
      → structure_mutation floor x values.house_id false s ≡ ok tt
      → KeepsBound s
          (record s { floors = update (has_id (λ r. r.id) x) (set_floor values) s.floors })
  unfolding bound_house database structure_house floor_house
  update_floor-KeepsBound x values h =
      let (source, found, why) = structure_mutation-ok floor x values.house_id false s h in
      record {
        bindings = λ d. refl;
        locations = λ d g bound c. elim (Bool-cases (str_eq x c.in_room.floor_id)) [
          | inr other ↦ record {
            placed = c.placed;
            in_room = c.in_room;
            on_floor = c.on_floor;
            device_found = c.device_found;
            room_found = c.room_found;
            floor_found =
                by_id-update (λ r. r.id) c.in_room.floor_id x (set_floor values) s.floors
                  (λ r. refl)
                ∙ rw other c.floor_found;
            in_house = c.in_house;
          }
          | inl same ↦ record {
            placed = c.placed;
            in_room = c.in_room;
            on_floor = set_floor values c.on_floor;
            device_found = c.device_found;
            room_found = c.room_found;
            floor_found =
                by_id-update (λ r. r.id) c.in_room.floor_id x (set_floor values) s.floors
                  (λ r. refl)
                ∙ rw (same, c.floor_found) refl;
            in_house = elim why [
              | inl free ↦ absurd (
                  ground (
                    arith,
                    bound_outside floor x d g s bound free,
                    c.device_found,
                    c.room_found,
                    eq_iff x c.in_room.floor_id,
                    eq_iff c.in_room.floor_id x,
                  ))
              | inr home ↦
                  stays values.house_id source c.on_floor.house_id home
                    (ground (arith, c.floor_found, eq_iff x c.in_room.floor_id))
                  ∙ c.in_house
            ];
          }
        ];
      }

  -- So is a room; its new floor is one of the same house.
  pub update_room-KeepsBound :
      (x : String) (values : RoomUpdate) (target : Option String)
      → target_of_floor values.floor_id s ≡ ok target
      → structure_mutation room x target false s ≡ ok tt
      → KeepsBound s (record s { rooms = update (has_id (λ r. r.id) x) (set_room values) s.rooms })
  unfolding bound_house database structure_house room_house floor_house
  update_room-KeepsBound x values target at h =
      let (source, found, why) = structure_mutation-ok room x target false s h in
      record {
        bindings = λ d. refl;
        locations = λ d g bound c. elim (Bool-cases (str_eq x c.placed.room_id)) [
          | inr other ↦ record {
            placed = c.placed;
            in_room = c.in_room;
            on_floor = c.on_floor;
            device_found = c.device_found;
            room_found =
                by_id-update (λ r. r.id) c.placed.room_id x (set_room values) s.rooms (λ r. refl)
                ∙ rw other c.room_found;
            floor_found = c.floor_found;
            in_house = c.in_house;
          }
          | inl same ↦ elim why [
            | inl free ↦ absurd (
                ground (
                  arith,
                  bound_outside room x d g s bound free,
                  c.device_found,
                  eq_iff x c.placed.room_id,
                  eq_iff c.placed.room_id x,
                ))
            | inr home ↦
                (let (on_floor, floor_found, in_house) =
                    moved values.floor_id target source g c.in_room.floor_id c.on_floor at home
                      (ground (arith, c.room_found, c.floor_found, eq_iff x c.placed.room_id))
                      c.floor_found c.in_house in
                  record {
                    placed = c.placed;
                    in_room = set_room values c.in_room;
                    on_floor = on_floor;
                    device_found = c.device_found;
                    room_found =
                        by_id-update (λ r. r.id) c.placed.room_id x (set_room values) s.rooms
                          (λ r. refl)
                        ∙ rw (same, c.room_found) refl;
                    floor_found = floor_found;
                    in_house = in_house;
                  })
          ]
        ];
      }
    where
      moved :
          (new target : Option String) (source g old : String) (f : Floor)
          → target_of_floor new s ≡ ok target
          → is_transfer target source ≡ false
          → f.house_id ≡ source
          → floor_row old s ≡ some f
          → f.house_id ≡ g
          → (k : Floor) × (floor_row (or_else new old) s ≡ some k) × (k.house_id ≡ g)
      moved none target source g old f at home same found mine = (f, found, mine)
      moved (some y) target source g old f at home same found mine =
          elim (Option-cases (floor_row y s)) [
            | inl missing ↦ absurd (ground arith)
            | inr (k, there) ↦ (k, there, ground (arith, eq_iff k.house_id source))
          ]
