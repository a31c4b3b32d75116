-- ===== src/Structure/Views.antt =====
-- What a house owns in the tables of app/models/entities.py, and the lookups that a write leaves as they were.
use kz_home_core.Common.{
  String, Bool, true, false, not, ◌&&◌, Option, none, some, List, [], ◌∷◌, ◌≡◌, refl, sym, ◌∙◌, ap,
  subst, str_eq, eq_iff, find, keep, any, update, is_some, inl, inr, Bool-cases, arith,
}
use kz_home_core.Access.Members.{Membership, membership_for, is_of}
use kz_home_core.Automation.Rules.{Rule, Scene}
use kz_home_core.Structure.Tables.{
  House, Floor, Room, Placed, Site, by_id, house_row, floor_row, room_row, device_row, scene_row,
  rule_row,
}
use kz_home_core.Structure.Crud.{has_id}
use kz_home_core.Structure.Contents.{members}
use kz_home_core.Structure.Keys.{
  IsKeyed, only, mapped, only-cong, only-only, by_id_absent, by_id_other, by_id-keep, by_id-update,
}

abbrev pub floor_in : String → String → Site → Option Floor
floor_in h x s = only (λ f. str_eq f.house_id h) (floor_row x s)

abbrev pub room_in : String → String → Site → Option Room
room_in h x s = only (λ r. is_some (floor_in h r.floor_id s)) (room_row x s)

abbrev pub device_in : String → String → Site → Option Placed
device_in h x s = only (λ d. is_some (room_in h d.room_id s)) (device_row x s)

abbrev pub scene_in : String → String → Site → Option Scene
scene_in h x s = only (λ r. str_eq r.house_id h) (scene_row x s)

abbrev pub rule_in : String → String → Site → Option Rule
rule_in h x s = only (λ r. str_eq r.house_id h) (rule_row x s)

-- The house and all that is in it are the same.
pub record Same (h : String) (s t : Site) : Type 0 where
  pub house_same : house_row h t ≡ house_row h s
  pub floors_same : (x : String) → floor_in h x t ≡ floor_in h x s
  pub rooms_same : (x : String) → room_in h x t ≡ room_in h x s
  pub devices_same : (x : String) → device_in h x t ≡ device_in h x s
  pub scenes_same : (x : String) → scene_in h x t ≡ scene_in h x s
  pub rules_same : (x : String) → rule_in h x t ≡ rule_in h x s
  pub members_same : (u : String) → membership_for u h (members t) ≡ membership_for u h (members s)

pub Same-refl : (h : String) (s : Site) → Same h s s
Same-refl h s = record {
  house_same = refl;
  floors_same = λ x. refl;
  rooms_same = λ x. refl;
  devices_same = λ x. refl;
  scenes_same = λ x. refl;
  rules_same = λ x. refl;
  members_same = λ u. refl;
}

pub Same-trans : (h : String) (s t u : Site) → Same h s t → Same h t u → Same h s u
Same-trans h s t u a b = record {
  house_same = b.house_same ∙ a.house_same;
  floors_same = λ x. b.floors_same x ∙ a.floors_same x;
  rooms_same = λ x. b.rooms_same x ∙ a.rooms_same x;
  devices_same = λ x. b.devices_same x ∙ a.devices_same x;
  scenes_same = λ x. b.scenes_same x ∙ a.scenes_same x;
  rules_same = λ x. b.rules_same x ∙ a.rules_same x;
  members_same = λ y. b.members_same y ∙ a.members_same y;
}

-- Floors, rooms and devices by what the house had before.
pub Same-structure :
    (h : String) (s t : Site)
    → t.houses ≡ s.houses
    → t.scenes ≡ s.scenes
    → t.rules ≡ s.rules
    → t.memberships ≡ s.memberships
    → ((x : String) → floor_in h x t ≡ floor_in h x s)
    → ((x : String) → only (λ r. is_some (floor_in h r.floor_id s)) (room_row x t) ≡ room_in h x s)
    → ((x : String)
        → only (λ d. is_some (room_in h d.room_id s)) (device_row x t) ≡ device_in h x s)
    → Same h s t
unfolding membership_for
Same-structure h s t hs sc ru mb floors rooms devices =
    let rooms_same : ((x : String) → room_in h x t ≡ room_in h x s) =
      λ x. only-cong _ _ (room_row x t) (λ r. ap is_some (floors r.floor_id)) ∙ rooms x in
    record {
      house_same = ap (λ ys. by_id (λ r. r.id) h ys) hs;
      floors_same = floors;
      rooms_same = rooms_same;
      devices_same =
          λ x. only-cong _ _ (device_row x t) (λ d. ap is_some (rooms_same d.room_id)) ∙ devices x;
      scenes_same = λ x. ap (λ ys. only (λ r. str_eq r.house_id h) (by_id (λ r. r.id) x ys)) sc;
      rules_same = λ x. ap (λ ys. only (λ r. str_eq r.house_id h) (by_id (λ r. r.id) x ys)) ru;
      members_same = λ u. rw mb refl;
    }

-- Other rows outside floors, rooms and devices.
pub Same-contents :
    (h : String) (s t : Site) (houses : List House) (scenes : List Scene) (rules : List Rule)
    (memberships : List Membership)
    → Same h s t
    → by_id (λ r. r.id) h houses ≡ house_row h s
    → ((x : String) → only (λ r. str_eq r.house_id h) (by_id (λ r. r.id) x scenes) ≡ scene_in h x s)
    → ((x : String) → only (λ r. str_eq r.house_id h) (by_id (λ r. r.id) x rules) ≡ rule_in h x s)
    → ((u : String) → find (is_of u h) memberships ≡ find (is_of u h) s.memberships)
    → Same h s
        (record t { houses = houses; scenes = scenes; rules = rules; memberships = memberships })
unfolding membership_for
Same-contents h s t houses scenes rules memberships k hs sc ru mb = record {
  house_same = hs;
  floors_same = k.floors_same;
  rooms_same = k.rooms_same;
  devices_same = k.devices_same;
  scenes_same = sc;
  rules_same = ru;
  members_same = mb;
}

module _ {A : Type 0} (key : A → String) (q : A → Bool) where
  -- A new row that fails the test.
  pub only_new :
      (x : String) (row : A) (rows : List A)
      → any (has_id key (key row)) rows ≡ false
      → q row ≡ false
      → only q (by_id key x (row ∷ rows)) ≡ only q (by_id key x rows)
  only_new x row rows new out = elim (Bool-cases (str_eq (key row) x)) [
    | inr other ↦ ap (only q) (by_id_other key x row rows other)
    | inl same ↦
        rw
          (
            same,
            out,
            by_id_absent key x rows
                (subst (λ y. any (has_id key y) rows ≡ false) ((eq_iff (key row) x).0 same) new),
          )
          refl
  ]

  -- A change of a row that fails the test before and after it.
  pub only-update :
      (x k : String) (f : A → A) (rows : List A)
      → ((r : A) → key (f r) ≡ key r)
      → ((r : A) → by_id key k rows ≡ some r → (q r ≡ false) × (q (f r) ≡ false))
      → only q (by_id key x (update (has_id key k) f rows)) ≡ only q (by_id key x rows)
  only-update x k f rows same out =
      ap (only q) (by_id-update key x k f rows same) ∙ elim (Bool-cases (str_eq k x)) [
        | inr other ↦ rw other refl
        | inl hit ↦ rw hit (
            kept (by_id key x rows) (λ r found.
              out r (subst (λ y. by_id key y rows ≡ some r) (sym ((eq_iff k x).0 hit)) found)))
      ]
    where
      kept :
          (o : Option A)
          → ((r : A) → o ≡ some r → (q r ≡ false) × (q (f r) ≡ false))
          → only q (mapped f o) ≡ only q o
      kept none out = refl
      kept (some r) out = rw ((out r refl).0, (out r refl).1) refl

  -- A deletion of rows that fail the test.
  pub only-keep :
      (x : String) (p : A → Bool) (rows : List A)
      → IsKeyed key rows
      → ((r : A) → by_id key x rows ≡ some r → q r ≡ true → p r ≡ true)
      → only q (by_id key x (keep p rows)) ≡ only q (by_id key x rows)
  only-keep x p rows k stays =
      ap (only q) (by_id-keep key x p rows k) ∙ only-only q p (by_id key x rows) stays

module _ {A : Type 0} (p : A → Bool) where
  pub find-keep :
      (q : A → Bool) (rows : List A)
      → any (λ r. p r && not (q r)) rows ≡ false
      → find p (keep q rows) ≡ find p rows
  find-keep q [] h = refl
  find-keep q (r ∷ rs) h = ground (arith, find-keep q rs)

  pub find-update :
      (hit : A → Bool) (f : A → A) (rows : List A)
      → any (λ r. p r && hit r) rows ≡ false
      → ((r : A) → p (f r) ≡ p r)
      → find p (update hit f rows) ≡ find p rows
  find-update hit f [] h same = refl
  find-update hit f (r ∷ rs) h same = ground (arith, same r, find-update hit f rs)

  pub any_none : (rows : List A) → ((r : A) → p r ≡ false) → any p rows ≡ false
  any_none [] h = refl
  any_none (r ∷ rs) h = ground (arith, h r, any_none rs h)
