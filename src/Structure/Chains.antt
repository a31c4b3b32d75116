-- ===== src/Structure/Chains.antt =====
-- Where a device stands, and that a physical binding names that place (app/services/onboarding_service.py,
-- app/repositories/physical_device_repository.py).
use kz_home_core.Common.{
  String, Bool, true, false, Option, none, some, List, [], ◌∷◌, ◌≡◌, ap, str_eq, eq_iff, find, any,
  inl, inr, ◌⊎◌, Bool-cases, Option-cases, arith, ok,
}
use kz_home_core.Database.{PhysicalDevice, bound_house}
use kz_home_core.Structure.Tables.{
  Floor, Room, Placed, Site, floor_row, room_row, device_row, floor_house, room_house,
  device_location, database, Kind, house, floor, room, device, structure_house, is_inside,
  binds_inside, bound_in_structure, is_transfer, structure_mutation,
}

-- `o` is the house.
abbrev pub is_in : String → Option String → Bool
is_in h none = false
is_in h (some g) = str_eq g h

pub is_in-some : (h : String) (o : Option String) → is_in h o ≡ true → o ≡ some h
is_in-some h none e = absurd (ground arith)
is_in-some h (some g) e = ap some ((eq_iff g h).0 e)

-- A bound device stands in the house of its binding.
unfoldable pub is_consistent : String → Site → Bool
is_consistent d s = elim (bound_house d (database s)) [
  | none ↦ true
  | some g ↦ is_in g (device_location d s)
]

-- Every bound device does.
abbrev pub IsConsistent : Site → Type 0
IsConsistent s = (d : String) → is_consistent d s ≡ true

pub consistent_at :
    (d g : String) (s : Site)
    → IsConsistent s
    → bound_house d (database s) ≡ some g
    → device_location d s ≡ some g
unfolding is_consistent
consistent_at d g s c bound = is_in-some g (device_location d s) (ground (arith, c d))

-- The rows that lead from a device to its house.
pub record Chain (d g : String) (s : Site) : Type 0 where
  pub placed : Placed
  pub in_room : Room
  pub on_floor : Floor
  pub device_found : device_row d s ≡ some placed
  pub room_found : room_row placed.room_id s ≡ some in_room
  pub floor_found : floor_row in_room.floor_id s ≡ some on_floor
  pub in_house : on_floor.house_id ≡ g

pub location-Chain : (d g : String) (s : Site) → device_location d s ≡ some g → Chain d g s
unfolding device_location room_house floor_house
location-Chain d g s h = elim (Option-cases (device_row d s)) [
  | inl lost ↦ absurd (ground arith)
  | inr (placed, a) ↦ elim (Option-cases (room_row placed.room_id s)) [
    | inl lost ↦ absurd (ground arith)
    | inr (in_room, b) ↦ elim (Option-cases (floor_row in_room.floor_id s)) [
      | inl lost ↦ absurd (ground arith)
      | inr (on_floor, c) ↦ record {
        placed = placed;
        in_room = in_room;
        on_floor = on_floor;
        device_found = a;
        room_found = b;
        floor_found = c;
        in_house = ground arith;
      }
    ]
  ]
]

pub Chain-location : (d g : String) (s : Site) → Chain d g s → device_location d s ≡ some g
unfolding device_location room_house floor_house
Chain-location d g s c = ground (arith, c.device_found, c.room_found, c.floor_found, c.in_house)

-- What is done keeps the bindings, and every bound device where it is.
pub record KeepsBound (s t : Site) : Type 0 where
  pub bindings : (d : String) → bound_house d (database t) ≡ bound_house d (database s)
  pub locations : (d g : String) → bound_house d (database s) ≡ some g → Chain d g s → Chain d g t

pub KeepsBound-IsConsistent : (s t : Site) → KeepsBound s t → IsConsistent s → IsConsistent t
unfolding is_consistent
KeepsBound-IsConsistent s t k c d = elim (Option-cases (bound_house d (database s))) [
  | inl free ↦ ground (arith, k.bindings d)
  | inr (g, bound) ↦
      (let there : device_location d t ≡ some g =
          Chain-location d g t
            (k.locations d g bound (location-Chain d g s (consistent_at d g s c bound))) in
        ground (arith, k.bindings d, eq_iff g g))
]

tied :
    (kind : Kind) (p : PhysicalDevice) (b x d g : String) (s : Site)
    → p.bound_device_id ≡ some b
    → str_eq b d ≡ true
    → p.house_id ≡ some g
    → binds_inside kind x s p ≡ false
    → is_inside kind x d s ≡ true
    → ⊥
tied house p b x d g s h k e out inside = ground arith
tied floor p b x d g s h k e out inside = ground (arith, eq_iff b d)
tied room p b x d g s h k e out inside = ground (arith, eq_iff b d)
tied device p b x d g s h k e out inside = ground (arith, eq_iff b d)

-- What no binding is inside of does not hold a bound device.
pub bound_outside :
    (kind : Kind) (x d g : String) (s : Site)
    → bound_house d (database s) ≡ some g
    → bound_in_structure kind x s ≡ false
    → is_inside kind x d s ≡ false
unfolding bound_house database bound_in_structure
bound_outside kind x d g s bound free = go s.physical_devices bound free
  where
    go :
        (ps : List PhysicalDevice)
        → elim (find (λ r. elim r.bound_device_id [ none ↦ false | some b ↦ str_eq b d ]) ps)
            as (λ _. Option String) [ none ↦ none | some item ↦ item.house_id ]
          ≡ some g
        → any (binds_inside kind x s) ps ≡ false
        → is_inside kind x d s ≡ false
    go [] h e = absurd (ground arith)
    go (p ∷ ps) h e = elim (Option-cases p.bound_device_id) [
      | inl unbound ↦ go ps (ground arith) (ground arith)
      | inr (b, bound_to) ↦ elim (Bool-cases (str_eq b d)) [
        | inr other ↦ go ps (ground arith) (ground arith)
        | inl mine ↦ elim (Bool-cases (is_inside kind x d s)) [
          | inr out ↦ out
          | inl inside ↦
              absurd (tied kind p b x d g s bound_to mine (ground arith) (ground arith) inside)
        ]
      ]
    ]

-- What the guard has found when it lets a change pass.
pub structure_mutation-ok :
    (kind : Kind) (x : String) (target : Option String) (deleting : Bool) (s : Site)
    → structure_mutation kind x target deleting s ≡ ok tt
    → (source : String) × (structure_house kind x s ≡ some source)
      × ((bound_in_structure kind x s ≡ false) ⊎ (is_transfer target source ≡ false))
unfolding structure_mutation
structure_mutation-ok kind x target deleting s h = elim (Option-cases (structure_house kind x s)) [
  | inl missing ↦ absurd (ground arith)
  | inr (source, found) ↦ elim (Bool-cases (bound_in_structure kind x s)) [
    | inr free ↦ (source, found, inl free)
    | inl tied ↦ (source, found, inr (ground arith))
  ]
]
