-- ===== src/Structure/Memberships.antt =====
-- What each request to `MembershipService` (app/services/auth_service.py) writes to the table of memberships.
use kz_home_core.Common.{
  String, Bool, true, false, not, ◌&&◌, ◌||◌, none, some, List, [], ◌∷◌, find, eq_iff, ◌≡◌, refl,
  subst, str_eq, any, contains, leb, length, inl, inr, Bool-cases, Option-cases, arith,
}
use kz_home_core.Access.Roles.{is_owner, Role}
use kz_home_core.Access.Members
use kz_home_core.Access.Members.{
  lock_owners, stays_owner, Membership, Members, membership_for, by_user_house, protect_final_owner,
  add, change, remove, is_of, set_role, delete,
}
use kz_home_core.Structure.Tables.{by_id}
use kz_home_core.Structure.Crud.{has_id}
use kz_home_core.Structure.Views.{find-keep, find-update}
use kz_home_core.Structure.Keys.{by_id_absent, any-found, IsKeyed, IsKeyed-keep, IsKeyed-update}

-- A write of the membership service to the table.
pub data Touches (house user : String) (s : Members) : List Membership → Type 0 where
  left : Touches house user s s.memberships
  added :
      (m : Membership)
      → m.house_id ≡ house
      → any (has_id (λ r. r.id) m.id) s.memberships ≡ false
      → Touches house user s (m ∷ s.memberships)
  changed :
      (m : Membership) (role : Role)
      → membership_for user house s ≡ some m
      → Touches house user s (set_role m.id role s.memberships)
  removed :
      (m : Membership)
      → membership_for user house s ≡ some m
      → Touches house user s (delete m.id s.memberships)

pub change-Touches :
    (house user : String) (role : Role) (s : Members)
    → Touches house user s (change house user role s).1.memberships
unfolding change by_user_house protect_final_owner
change-Touches house user role s = elim (Option-cases (membership_for user house s)) [
  | inl missing ↦ rw (missing, change, by_user_house) left
  | inr (m, found) ↦
      elim (Bool-cases (
        is_owner m.role
        && (not (stays_owner (some role)) && leb (length (lock_owners m.house_id s)) 1))) [
          | inl last ↦ rw (found, change, by_user_house, last) left
          | inr free ↦ rw (found, change, by_user_house, free) (changed m role found)
        ]
]

pub remove-Touches :
    (house user : String) (s : Members) → Touches house user s (remove house user s).1.memberships
unfolding remove by_user_house protect_final_owner
remove-Touches house user s = elim (Option-cases (membership_for user house s)) [
  | inl missing ↦ rw (missing, remove, by_user_house) left
  | inr (m, found) ↦
      elim (Bool-cases (
        is_owner m.role && (not (stays_owner none) && leb (length (lock_owners m.house_id s)) 1))) [
          | inl last ↦ rw (found, remove, by_user_house, last) left
          | inr free ↦ rw (found, remove, by_user_house, free) (removed m found)
        ]
]

pub add-Touches :
    (fresh house user : String) (role : Role) (s : Members)
    → Touches house user s (add fresh house user role s).1.memberships
unfolding add
add-Touches fresh house user role s = elim (Bool-cases (not (contains user s.users))) [
  | inl unknown ↦ rw (unknown, add) left
  | inr known ↦
      elim (Bool-cases (
        not (contains house s.houses)
        || any (λ m. Members.has_id fresh m || is_of user house m) s.memberships)) [
          | inl taken ↦ rw (known, taken, add) left
          | inr free ↦ rw (known, free, add) (added _ refl (any_split s.memberships (ground arith)))
        ]
]
  where
    any_split :
        (ms : List Membership)
        → any (λ m. Members.has_id fresh m || is_of user house m) ms ≡ false
        → any (has_id (λ r. r.id) fresh) ms ≡ false
    any_split [] h = refl
    any_split (m ∷ ms) h = ground (arith, any_split ms)

pub Touches-IsKeyed :
    (house user : String) (s : Members) (ms : List Membership)
    → Touches house user s ms
    → IsKeyed (λ r. r.id) s.memberships
    → IsKeyed (λ r. r.id) ms
Touches-IsKeyed house user s _ left k = k
Touches-IsKeyed house user s _ (added m there free) k = (free, k)
Touches-IsKeyed house user s _ (changed m role found) k =
    IsKeyed-update (λ r. r.id) m.id (λ r. record r { role = role }) s.memberships (λ r. refl) k
Touches-IsKeyed house user s _ (removed m found) k =
    IsKeyed-keep (λ r. r.id) (λ r. not (has_id (λ r. r.id) m.id r)) s.memberships k

found_passes :
    {A : Type 0} (p : A → Bool) (rows : List A) (r : A) → find p rows ≡ some r → p r ≡ true
found_passes p [] r h = absurd (ground arith)
found_passes p (y ∷ ys) r h = elim (Bool-cases (p y)) [
  | inl hit ↦ subst (λ z. p z ≡ true) {x = y} (ground arith) hit
  | inr miss ↦ found_passes p ys r (ground arith)
]

-- A row that is found is the one with its key.
found_keyed :
    {A : Type 0} (key : A → String) (p : A → Bool) (rows : List A) (r : A)
    → IsKeyed key rows
    → find p rows ≡ some r
    → by_id key (key r) rows ≡ some r
found_keyed key p [] r k h = absurd (ground arith)
found_keyed key p (y ∷ ys) r (new, k) h = elim (Bool-cases (p y)) [
  | inl hit ↦
      subst (λ z. by_id key (key z) (y ∷ ys) ≡ some z) {x = y} (ground arith)
        (rw ((eq_iff (key y) (key y)).1 refl) refl)
  | inr miss ↦
      (let later : by_id key (key r) ys ≡ some r = found_keyed key p ys r k (ground arith) in
        elim (Bool-cases (str_eq (key y) (key r))) [
          | inr other ↦ rw other later
          | inl same ↦ absurd (
              ground (
                arith,
                by_id_absent key (key r) ys (
                    subst (λ z. any (has_id key z) ys ≡ false) ((eq_iff (key y) (key r)).0 same)
                      new),
              ))
        ])
]

other_rows :
    (h at user : String) (m : Membership) (u : String) (ms : List Membership)
    → str_eq at h ≡ false
    → IsKeyed (λ r. r.id) ms
    → find (is_of user at) ms ≡ some m
    → any (λ r. is_of u h r && str_eq r.id m.id) ms ≡ false
other_rows h at user m u ms out k found =
    elim (Bool-cases (any (λ r. is_of u h r && str_eq r.id m.id) ms)) [
      | inr no_row ↦ no_row
      | inl hit ↦
          (let (r, there, mine) = any-found (λ r. r.id) (is_of u h) m.id ms k hit in
            absurd (
              ground (
                arith,
                found_keyed (λ r. r.id) (is_of user at) ms m k found,
                found_passes (is_of user at) ms m found,
                eq_iff m.house_id at,
                eq_iff r.house_id h,
                eq_iff at h,
              )))
    ]

-- The memberships of other houses stay as they are.
pub Touches-others :
    (h at user : String) (s : Members) (ms : List Membership)
    → str_eq at h ≡ false
    → IsKeyed (λ r. r.id) s.memberships
    → Touches at user s ms
    → (u : String) → find (is_of u h) ms ≡ find (is_of u h) s.memberships
unfolding membership_for
Touches-others h at user s _ out k left u = refl
Touches-others h at user s _ out k (added m there free) u = ground (arith, there)
Touches-others h at user s _ out k (changed m role found) u =
    find-update (is_of u h) (has_id (λ r. r.id) m.id) (λ r. record r { role = role }) s.memberships
      (other_rows h at user m u s.memberships out k found) (λ r. refl)
Touches-others h at user s _ out k (removed m found) u =
    find-keep (is_of u h) (λ r. not (has_id (λ r. r.id) m.id r)) s.memberships
      (doubled (is_of u h) (has_id (λ r. r.id) m.id) s.memberships
        (other_rows h at user m u s.memberships out k found))
  where
    doubled :
        (p q : Membership → Bool) (ms : List Membership)
        → any (λ r. p r && q r) ms ≡ false
        → any (λ r. p r && not (not (q r))) ms ≡ false
    doubled p q [] e = refl
    doubled p q (r ∷ rs) e = ground (arith, doubled p q rs)
