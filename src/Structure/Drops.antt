-- ===== src/Structure/Drops.antt =====
-- What each deletion does to bound devices (app/services/crud_service.py, app/repositories/house_repository.py).
use kz_home_core.Common.{
  String, Bool, true, false, not, ◌&&◌, Option, none, some, List, [], ◌∷◌, ◌≡◌, refl, ◌∙◌, subst,
  str_eq, eq_iff, find, keep, any, inl, inr, Bool-cases, arith,
}
use kz_home_core.Database.{PhysicalDevice, bound_house}
use kz_home_core.Structure.Tables.{Floor, Room, Site, by_id, floor_row, database}
use kz_home_core.Structure.Crud.{
  is_dropped, drop_rooms, stands_on, drop_floors, is_bound_device, References, refuses_device,
  refuses_rooms,
}
use kz_home_core.Structure.Keys.{IsKeyed, by_id-key, by_id-keep}
use kz_home_core.Structure.Chains.{KeepsBound}

-- The tables have primary keys.
abbrev pub IsStored : Site → Type 0
IsStored s =
    IsKeyed (λ r. r.id) s.floors
    × IsKeyed (λ r. r.id) s.rooms
    × IsKeyed (λ r. r.id) s.devices
    × IsKeyed (λ r. r.id) s.scenes
    × IsKeyed (λ r. r.id) s.rules
    × IsKeyed (λ r. r.id) s.memberships

pub KeepsBound-refl : (s : Site) → KeepsBound s s
KeepsBound-refl s = record { bindings = λ d. refl; locations = λ d g bound c. c }

-- Only floors, rooms, devices and bindings matter.
pub KeepsBound-along :
    (s t u : Site)
    → u.floors ≡ t.floors
    → u.rooms ≡ t.rooms
    → u.devices ≡ t.devices
    → u.physical_devices ≡ t.physical_devices
    → KeepsBound s t
    → KeepsBound s u
unfolding bound_house database
KeepsBound-along s t u fs rs ds ps k = record {
  bindings = λ d. rw ps (k.bindings d);
  locations = λ d g bound c.
      let k' = k.locations d g bound c in
      record {
        placed = k'.placed;
        in_room = k'.in_room;
        on_floor = k'.on_floor;
        device_found = rw ds k'.device_found;
        room_found = rw rs k'.room_found;
        floor_found = rw fs k'.floor_found;
        in_house = k'.in_house;
      };
}

-- A row that is found fails a test that no row passes.
pub found_fails :
    {A : Type 0} (key : A → String) (q : A → Bool) (y : String) (rows : List A) (r : A)
    → any q rows ≡ false
    → by_id key y rows ≡ some r
    → q r ≡ false
found_fails key q y [] r h found = absurd (ground arith)
found_fails key q y (z ∷ zs) r h found = elim (Bool-cases (str_eq (key z) y)) [
  | inl hit ↦ subst (λ w. q w ≡ false) {x = z} (ground arith) (ground arith)
  | inr miss ↦ found_fails key q y zs r (ground arith) (ground arith)
]

bound_is_bound :
    (d g : String) (s : Site) → bound_house d (database s) ≡ some g → is_bound_device d s ≡ true
unfolding bound_house database
bound_is_bound d g s h = go s.physical_devices h
  where
    go :
        (ps : List PhysicalDevice)
        → elim (find (λ r. elim r.bound_device_id [ none ↦ false | some b ↦ str_eq b d ]) ps)
            as (λ _. Option String) [ none ↦ none | some item ↦ item.house_id ]
          ≡ some g
        → any (λ p. elim p.bound_device_id [ none ↦ false | some bound ↦ str_eq bound d ]) ps ≡ true
    go [] h = absurd (ground arith)
    go (p ∷ ps) h = ground (arith, go ps)

kept_found :
    {A : Type 0} (key : A → String) (p : A → Bool) (y : String) (rows : List A) (r : A)
    → IsKeyed key rows
    → by_id key y rows ≡ some r
    → p r ≡ false
    → by_id key y (keep (λ x. not (p x)) rows) ≡ some r
kept_found key p y rows r k found out =
    by_id-keep key y (λ x. not (p x)) rows k ∙ rw (found, out) refl

module _ (refs : References) (s : Site) (stored : IsStored s) where
  -- The rooms of a test, and some floors, are dropped: what is left of a chain.
  drop-KeepsBound :
      (p : Room → Bool) (fs : List Floor)
      → ((r : Room) (f : Floor)
          → p r ≡ false
          → floor_row r.floor_id s ≡ some f
          → by_id (λ x. x.id) r.floor_id fs ≡ some f)
      → refuses_rooms refs p s ≡ false
      → KeepsBound s (record (drop_rooms p s) { floors = fs })
  unfolding bound_house database
  drop-KeepsBound p fs left free = record {
    bindings = λ d. refl;
    locations = λ d g bound c.
        let free_devices : any (λ d. is_dropped p s d && refuses_device refs s d) s.devices
            ≡ false =
          ground arith in
        let in_place : is_dropped p s c.placed ≡ false = ground (
          arith,
          found_fails (λ x. x.id) (λ d. is_dropped p s d && refuses_device refs s d) d s.devices
              c.placed free_devices c.device_found,
          bound_is_bound d g s bound,
          by_id-key (λ x. x.id) d s.devices c.placed c.device_found,
        ) in
        let room_in_place : p c.in_room ≡ false = ground (
          arith,
          found_fails (λ x. x.id) (λ r. p r && str_eq r.id c.placed.room_id) c.placed.room_id
              s.rooms c.in_room in_place c.room_found,
          by_id-key (λ x. x.id) c.placed.room_id s.rooms c.in_room c.room_found,
          eq_iff c.in_room.id c.placed.room_id,
        ) in
        record {
          placed = c.placed;
          in_room = c.in_room;
          on_floor = c.on_floor;
          device_found =
              kept_found (λ x. x.id) (is_dropped p s) d s.devices c.placed stored.2 c.device_found
                in_place;
          room_found =
              kept_found (λ x. x.id) p c.placed.room_id s.rooms c.in_room stored.1 c.room_found
                room_in_place;
          floor_found = left c.in_room c.on_floor room_in_place c.floor_found;
          in_house = c.in_house;
        };
  }

  pub drop_rooms-KeepsBound :
      (p : Room → Bool) → refuses_rooms refs p s ≡ false → KeepsBound s (drop_rooms p s)
  drop_rooms-KeepsBound p free = drop-KeepsBound p s.floors (λ r f out found. found) free

  pub drop_floors-KeepsBound :
      (q : Floor → Bool)
      → refuses_rooms refs (stands_on q s) s ≡ false
      → KeepsBound s (drop_floors q s)
  drop_floors-KeepsBound q free =
      drop-KeepsBound (stands_on q s) (keep (λ f. not (q f)) s.floors)
        (λ r f out found.
          kept_found (λ x. x.id) q r.floor_id s.floors f stored.0 found
            (ground (
              arith,
              found_fails (λ x. x.id) (λ g. q g && str_eq g.id r.floor_id) r.floor_id s.floors f out
                  found,
              by_id-key (λ x. x.id) r.floor_id s.floors f found,
              eq_iff f.id r.floor_id,
            )))
        free

  pub delete_device-KeepsBound :
      (x : String)
      → any (λ d. str_eq d.id x && refuses_device refs s d) s.devices ≡ false
      → KeepsBound s (record s { devices = keep (λ d. not (str_eq d.id x)) s.devices })
  unfolding bound_house database
  delete_device-KeepsBound x free = record {
    bindings = λ d. refl;
    locations = λ d g bound c. record {
      placed = c.placed;
      in_room = c.in_room;
      on_floor = c.on_floor;
      device_found =
          kept_found (λ y. y.id) (λ y. str_eq y.id x) d s.devices c.placed stored.2 c.device_found
            (ground (
              arith,
              found_fails (λ y. y.id) (λ d. str_eq d.id x && refuses_device refs s d) d s.devices
                  c.placed free c.device_found,
              bound_is_bound d g s bound,
              by_id-key (λ y. y.id) d s.devices c.placed c.device_found,
            ));
      room_found = c.room_found;
      floor_found = c.floor_found;
      in_house = c.in_house;
    };
  }
