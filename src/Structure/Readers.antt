-- ===== src/Structure/Readers.antt =====
-- What the checks of the reading routes of app/api/routes.py establish.
use kz_home_core.Common.{
  String, Bool, true, false, ◌&&◌, Option, none, some, List, [], ◌∷◌, ◌≡◌, refl, subst, str_eq,
  eq_iff, keep, find, any, All, contains, if◌then◌else◌, inl, inr, Bool-cases, arith, Result, ok,
  err, not_found, forbidden,
}
use kz_home_core.Access.Roles.{
  Role, owner, installer, technician, resident, roles, Permission, house_read, scene_read,
  automation_read, is_granted, is_among,
}
use kz_home_core.Access.Members.{
  Membership, membership_for, has_permission, is_of, houses_of, accessible_house_ids,
}
use kz_home_core.Structure.Tables.{Site, floor_house}
use kz_home_core.Structure.Contents.{members}
use kz_home_core.Structure.Routes.{require, require_in}
use kz_home_core.Structure.Reads.{
  Answer, read, allowed, is_any_of, list_houses, list_floors, list_rooms, list_scenes,
  list_automations,
}

-- A membership of the user in the house grants the permission.
abbrev pub is_permitted : String → Permission → String → Site → Bool
is_permitted u p h s = any (λ m. is_of u h m && is_granted m.role p) s.memberships

-- There is a house, and that is so of it.
abbrev pub is_readable : String → Permission → Site → Option String → Bool
is_readable u p s none = false
is_readable u p s (some h) = is_permitted u p h s

module _ (u : String) (p : Permission) (s : Site) where
  pub granted-is_permitted :
      (h : String) (m : Membership)
      → membership_for u h (members s) ≡ some m
      → has_permission (some m) p ≡ true
      → is_permitted u p h s ≡ true
  unfolding membership_for has_permission
  granted-is_permitted h m found granted = go s.memberships found
    where
      go :
          (ms : List Membership)
          → find (is_of u h) ms ≡ some m
          → any (λ m. is_of u h m && is_granted m.role p) ms ≡ true
      go [] e = absurd (ground arith)
      go (x ∷ xs) e = elim (Bool-cases (is_of u h x)) [
        | inl mine ↦
            (let same : is_granted x.role p ≡ true =
                subst (λ y. is_granted y.role p ≡ true) {x = m} {y = x} (ground arith) granted in
              ground arith)
        | inr other ↦ ground (arith, go xs (ground arith))
      ]

  pub require-ok :
      {A : Type 0} (h : String) (next : Answer A) (a : A)
      → (require u h p s next).0 ≡ ok a
      → (is_permitted u p h s ≡ true) × (next.0 ≡ ok a)
  require-ok {A} h next a e =
      go (membership_for u h (members s)) (λ m found. granted-is_permitted h m found) e
    where
      go :
          (o : Option Membership)
          → ((m : Membership)
              → o ≡ some m
              → has_permission (some m) p ≡ true
              → is_permitted u p h s ≡ true)
          → (elim o as (λ _. Result A × Site) [
            | none ↦ (err not_found, s)
            | some m ↦
                if has_permission (some m) p
                then next
                else (err forbidden, record s { denials = (u, h) ∷ s.denials })
          ]).0
            ≡ ok a
          → (is_permitted u p h s ≡ true) × (next.0 ≡ ok a)
      go none k e = absurd (ground arith)
      go (some m) k e = elim (Bool-cases (has_permission (some m) p)) [
        | inl granted ↦ (k m refl granted, rw granted at e)
        | inr refused ↦ absurd (failed (err forbidden) refl (rw refused at e))
      ]
        where
          failed : (r : Result A) → r ≡ err forbidden → r ≡ ok a → ⊥
          failed r f e = ground arith

  pub require_in-ok :
      {A : Type 0} (o : Option String) (next : Answer A) (a : A)
      → (require_in u o p s next).0 ≡ ok a
      → (is_readable u p s o ≡ true) × (next.0 ≡ ok a)
  require_in-ok none next a e = absurd (ground arith)
  require_in-ok (some h) next a e = require-ok h next a e

pub is_among-is_granted :
    (r : Role) (p : Permission) → is_among (keep (λ r. is_granted r p) roles) r ≡ is_granted r p
is_among-is_granted owner p = ground arith
is_among-is_granted installer p = ground arith
is_among-is_granted technician p = ground arith
is_among-is_granted resident p = ground arith

pub accessible-is_permitted :
    (u : String) (p : Permission) (h : String) (s : Site)
    → contains h (allowed u p s) ≡ true
    → is_permitted u p h s ≡ true
unfolding accessible_house_ids
accessible-is_permitted u p h s e = go s.memberships e
  where
    go :
        (ms : List Membership)
        → contains h (
            houses_of (
              keep
                (λ m. str_eq m.user_id u && is_among (keep (λ r. is_granted r p) roles) m.role)
                ms))
          ≡ true
        → any (λ m. is_of u h m && is_granted m.role p) ms ≡ true
    go [] e = absurd (ground arith)
    go (m ∷ ms) e =
        elim (Bool-cases
          (str_eq m.user_id u && is_among (keep (λ r. is_granted r p) roles) m.role)) [
            | inl mine ↦ ground (
              arith,
              rw mine at e,
              is_among-is_granted m.role p,
              eq_iff h m.house_id,
              eq_iff m.house_id h,
              go ms,
            )
            | inr other ↦ ground (arith, go ms (rw other at e))
          ]

-- A house among those of a permission.
pub any_of-is_readable :
    (u : String) (p : Permission) (s : Site) (o : Option String)
    → is_any_of (allowed u p s) o ≡ true
    → is_readable u p s o ≡ true
any_of-is_readable u p s none e = absurd (ground arith)
any_of-is_readable u p s (some h) e = accessible-is_permitted u p h s e

module _ {A : Type 0} where
  pub All-keep-test :
      (q : A → Bool) (Q : A → Type 0) (rows : List A)
      → ((r : A) → q r ≡ true → Q r)
      → All Q (keep q rows)
  All-keep-test q Q [] h = tt
  All-keep-test q Q (r ∷ rs) h = elim (Bool-cases (q r)) [
    | inl kept ↦ rw kept (h r kept, All-keep-test q Q rs h)
    | inr gone ↦ rw gone (All-keep-test q Q rs h)
  ]

-- What an answer holds.
abbrev pub answered : {A : Type 0} → Answer A → List A
answered (ok a, t) = a ∷ []
answered (err e, t) = []

abbrev pub listed : {A : Type 0} → Answer (List A) → List A
listed (ok rs, t) = rs
listed (err e, t) = []

module _ {A : Type 0} (Q : A → Type 0) where
  pub answered-All : (r : Answer A) → ((a : A) → r.0 ≡ ok a → Q a) → All Q (answered r)
  answered-All (ok a, t) k = (k a refl, tt)
  answered-All (err e, t) k = tt

  pub listed-All :
      (r : Answer (List A)) → ((rs : List A) → r.0 ≡ ok rs → All Q rs) → All Q (listed r)
  listed-All (ok rs, t) k = k rs refl
  listed-All (err e, t) k = tt

pub read-row : {A : Type 0} (o : Option A) (s : Site) (r : A) → (read o s).0 ≡ ok r → o ≡ some r
read-row none s r e = absurd (ground arith)
read-row (some a) s r e = ground arith

-- A row that is read behind a check of a house is one of that house.
pub get-is_readable :
    {A : Type 0} (u : String) (p : Permission) (s : Site) (o : Option String) (row : Option A)
    (at : A → Option String)
    → ((r : A) → row ≡ some r → o ≡ at r)
    → All (λ r. is_readable u p s (at r) ≡ true) (answered (require_in u o p s (read row s)))
get-is_readable u p s o row at same =
    answered-All (λ r. is_readable u p s (at r) ≡ true) (require_in u o p s (read row s))
      (λ r e.
        let (readable, found) = require_in-ok u p s o (read row s) r e in
        subst (λ w. is_readable u p s w ≡ true) (same r (read-row row s r found)) readable)

-- The lists of houses, floors, rooms, scenes and rules.
abbrev pub ShowsOwn : String → Site → Type 0
ShowsOwn u s =
    All (λ r. is_permitted u house_read r.id s ≡ true) (list_houses u s)
    × All (λ r. is_permitted u house_read r.house_id s ≡ true) (list_floors u s)
    × All (λ r. is_readable u house_read s (floor_house r.floor_id s) ≡ true) (list_rooms u s)
    × All (λ r. is_permitted u scene_read r.house_id s ≡ true) (list_scenes u s)
    × All (λ r. is_permitted u automation_read r.house_id s ≡ true) (list_automations u s)

pub lists-ShowsOwn : (u : String) (s : Site) → ShowsOwn u s
lists-ShowsOwn u s = (
  All-keep-test _ _ s.houses (λ r e. accessible-is_permitted u house_read r.id s e),
  All-keep-test _ _ s.floors (λ r e. accessible-is_permitted u house_read r.house_id s e),
  All-keep-test _ _ s.rooms (λ r e. any_of-is_readable u house_read s (floor_house r.floor_id s) e),
  All-keep-test _ _ s.scenes (λ r e. accessible-is_permitted u scene_read r.house_id s e),
  All-keep-test _ _ s.rules (λ r e. accessible-is_permitted u automation_read r.house_id s e),
)
