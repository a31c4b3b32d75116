-- ===== src/Access/Owners.antt =====
-- No request takes the last owner from a house (app/services/auth_service.py).
use text.Mathlib.TextPositions.{eq_refl}
use kz_home_core.Common.{
  ◌+◌, ◌≤◌, String, Bool, true, false, not, ◌&&◌, ◌||◌, Option, none, some, List, [], ◌∷◌, ◌≡◌,
  refl, ◌∙◌, subst, sym, ◌⊎◌, eq_iff, leb, length, keep, find, any, update, contains, All,
  Bool-cases, Option-cases, inl, inr, arith,
}
use kz_home_core.Access.Roles.{Role, is_owner}
use kz_home_core.Access.Members.{
  Membership, Members, has_id, is_of, is_owner_of, membership_for, lock_owners, by_user_house,
  stays_owner, protect_final_owner, add, set_role, delete, change, remove, Request, to_add,
  to_change, to_remove, serve, run,
}

-- The primary key: no identifier twice.
abbrev pub IsKeyed : List Membership → Type 0
IsKeyed [] = Unit
IsKeyed (m ∷ ms) = (any (has_id m.id) ms ≡ false) × IsKeyed ms

-- The house has an owner.
abbrev pub HasOwner : String → List Membership → Type 0
HasOwner house ms = 1 ≤ length (keep (is_owner_of house) ms)

module _ {A : Type 0} where
  none_kept : (p : A → Bool) (xs : List A) → any p xs ≡ false → length (keep p xs) ≡ 0
  none_kept p [] h = refl
  none_kept p (x ∷ xs) h = ground (arith, none_kept p xs)

  -- Rows that a deletion or an update of the rows of `q` leaves to `p`.
  kept_by_deletion :
      (p q : A → Bool) (xs : List A)
      → length (keep p xs) ≤ length (keep p (keep (λ x. not (q x)) xs)) + length (keep q xs)
  kept_by_deletion p q [] = omega arith
  kept_by_deletion p q (x ∷ xs) = ground (arith, kept_by_deletion p q xs)

  kept_by_update :
      (p q : A → Bool) (f : A → A) (xs : List A)
      → length (keep p xs) ≤ length (keep p (update q f xs)) + length (keep q xs)
  kept_by_update p q f [] = omega arith
  kept_by_update p q f (x ∷ xs) = ground (arith, kept_by_update p q f xs)

  untouched_by_deletion :
      (p q : A → Bool) (xs : List A)
      → All (λ x. q x ≡ true → p x ≡ false) xs
      → length (keep p xs) ≤ length (keep p (keep (λ x. not (q x)) xs))
  untouched_by_deletion p q [] a = omega arith
  untouched_by_deletion p q (x ∷ xs) a = elim (Bool-cases (q x)) [
    | inl hit ↦ ground (arith, a.0 hit, untouched_by_deletion p q xs a.1)
    | inr miss ↦ ground (arith, untouched_by_deletion p q xs a.1)
  ]

  kept_by_good_update :
      (p q : A → Bool) (f : A → A) (xs : List A)
      → All (λ x. q x ≡ true → p x ≡ true → p (f x) ≡ true) xs
      → length (keep p xs) ≤ length (keep p (update q f xs))
  kept_by_good_update p q f [] a = omega arith
  kept_by_good_update p q f (x ∷ xs) a = elim (Bool-cases (q x)) [
    | inl hit ↦ elim (Bool-cases (p x)) [
      | inl own ↦ ground (arith, a.0 hit own, kept_by_good_update p q f xs a.1)
      | inr other ↦ ground (arith, kept_by_good_update p q f xs a.1)
    ]
    | inr miss ↦ ground (arith, kept_by_good_update p q f xs a.1)
  ]

  weaken_every : {P Q : A → Type 0} (xs : List A) → ((x : A) → P x → Q x) → All P xs → All Q xs
  weaken_every [] f a = tt
  weaken_every (x ∷ xs) f a = (f x a.0, weaken_every xs f a.1)

one_with_id : (id : String) (ms : List Membership) → IsKeyed ms → length (keep (has_id id) ms) ≤ 1
one_with_id id [] k = omega arith
one_with_id id (m ∷ ms) k = elim (Bool-cases (has_id id m)) [
  | inl hit ↦ ground (
    arith,
    none_kept (has_id id) ms
        (subst (λ i. any (has_id i) ms ≡ false) (ground (arith, eq_iff m.id id)) k.0),
  )
  | inr miss ↦ ground (arith, one_with_id id ms k.1)
]

no_row :
    (id : String) (m : Membership) (ms : List Membership)
    → any (has_id id) ms ≡ false
    → All (λ r. has_id id r ≡ true → r ≡ m) ms
no_row id m [] h = tt
no_row id m (r ∷ ms) h = (λ hit. absurd (ground arith), no_row id m ms (ground arith))

found_has_id :
    (p : Membership → Bool) (ms : List Membership) (m : Membership)
    → find p ms ≡ some m
    → any (has_id m.id) ms ≡ true
found_has_id p [] m h = absurd (ground arith)
found_has_id p (r ∷ ms) m h = elim (Bool-cases (p r)) [
  | inl hit ↦ ground (arith, eq_refl m.id)
  | inr miss ↦ ground (arith, found_has_id p ms m)
]

-- The row found is the only one with its identifier.
only_row :
    (p : Membership → Bool) (ms : List Membership) (m : Membership)
    → IsKeyed ms
    → find p ms ≡ some m
    → All (λ r. has_id m.id r ≡ true → r ≡ m) ms
only_row p [] m k h = tt
only_row p (r ∷ ms) m k h = elim (Bool-cases (p r)) [
  | inl hit ↦ (λ _. ground arith, no_row m.id m ms (ground arith))
  | inr miss ↦ (
    λ same. absurd (
        let e : r.id ≡ m.id = ground (arith, eq_iff r.id m.id) in
        let f = subst (λ i. any (has_id i) ms ≡ false) e k.0 in
        ground (arith, found_has_id p ms m)),
    only_row p ms m k.1 (ground arith),
  )
]

any-set_role :
    (id i : String) (role : Role) (ms : List Membership)
    → any (has_id i) (set_role id role ms) ≡ any (has_id i) ms
any-set_role id i role [] = refl
any-set_role id i role (m ∷ ms) = ground (arith, any-set_role id i role ms)

set_role-IsKeyed :
    (id : String) (role : Role) (ms : List Membership) → IsKeyed ms → IsKeyed (set_role id role ms)
set_role-IsKeyed id role [] k = tt
set_role-IsKeyed id role (m ∷ ms) k = elim (Bool-cases (has_id id m)) [
  | inl hit ↦ rw hit (any-set_role id m.id role ms ∙ k.0, set_role-IsKeyed id role ms k.1)
  | inr miss ↦ rw miss (any-set_role id m.id role ms ∙ k.0, set_role-IsKeyed id role ms k.1)
]

any-delete :
    (id i : String) (ms : List Membership)
    → any (has_id i) ms ≡ false
    → any (has_id i) (delete id ms) ≡ false
any-delete id i [] h = refl
any-delete id i (m ∷ ms) h = ground (arith, any-delete id i ms)

delete-IsKeyed : (id : String) (ms : List Membership) → IsKeyed ms → IsKeyed (delete id ms)
delete-IsKeyed id [] k = tt
delete-IsKeyed id (m ∷ ms) k = elim (Bool-cases (has_id id m)) [
  | inl hit ↦ rw hit (delete-IsKeyed id ms k.1)
  | inr miss ↦ rw miss (any-delete id m.id ms k.0, delete-IsKeyed id ms k.1)
]

fresh_id :
    (id user house : String) (ms : List Membership)
    → any (λ m. has_id id m || is_of user house m) ms ≡ false
    → any (has_id id) ms ≡ false
fresh_id id user house [] h = refl
fresh_id id user house (m ∷ ms) h = ground (arith, fresh_id id user house ms)

-- Whether `_protect_final_owner` refuses.
abbrev is_protected : Membership → Option Role → List Membership → Bool
is_protected m replacement ms =
    is_owner m.role
    && (not (stays_owner replacement) && leb (length (keep (is_owner_of m.house_id) ms)) 1)

-- An owner row that the guard lets go is one of two or more.
not_the_last :
    (house : String) (m : Membership) (replacement : Option Role) (ms : List Membership)
    → is_owner_of house m ≡ true
    → stays_owner replacement ≡ false
    → is_protected m replacement ms ≡ false
    → 2 ≤ length (keep (is_owner_of house) ms)
not_the_last house m replacement ms own lost free =
    let e : m.house_id ≡ house = ground (arith, eq_iff m.house_id house) in
    subst (λ h. 2 ≤ length (keep (is_owner_of h) ms)) e (ground arith)

set_role-HasOwner :
    (house : String) (p : Membership → Bool) (m : Membership) (role : Role) (ms : List Membership)
    → IsKeyed ms
    → find p ms ≡ some m
    → is_protected m (some role) ms ≡ false
    → HasOwner house ms
    → HasOwner house (set_role m.id role ms)
set_role-HasOwner house p m role ms k found free some_owner =
    let turn = λ (r : Membership). record r { role = role } in
    let only = only_row p ms m k found in
    let good = kept_by_good_update (is_owner_of house) (has_id m.id) turn ms in
    elim (Bool-cases (is_owner role)) [
      | inl own ↦ ground (arith, good (weaken_every ms (λ r same hit was. ground arith) only))
      | inr lost ↦ elim (Bool-cases (is_owner_of house m)) [
        | inr other ↦ ground (
          arith,
          good (weaken_every ms (λ r same hit was. absurd (let e = same hit in ground arith)) only),
        )
        | inl own ↦ ground (
          arith,
          not_the_last house m (some role) ms own lost free,
          kept_by_update (is_owner_of house) (has_id m.id) turn ms,
          one_with_id m.id ms k,
        )
      ]
    ]

delete-HasOwner :
    (house : String) (p : Membership → Bool) (m : Membership) (ms : List Membership)
    → IsKeyed ms
    → find p ms ≡ some m
    → is_protected m none ms ≡ false
    → HasOwner house ms
    → HasOwner house (delete m.id ms)
delete-HasOwner house p m ms k found free some_owner =
    let only = only_row p ms m k found in
    elim (Bool-cases (is_owner_of house m)) [
      | inr other ↦ ground (
        arith,
        untouched_by_deletion (is_owner_of house) (has_id m.id) ms
            (weaken_every ms (λ r same hit. let e = same hit in ground arith) only),
      )
      | inl own ↦ ground (
        arith,
        not_the_last house m none ms own refl free,
        kept_by_deletion (is_owner_of house) (has_id m.id) ms,
        one_with_id m.id ms k,
      )
    ]

-- A change that goes through, or nothing.
change-cases :
    (house user : String) (role : Role) (s : Members)
    → ((change house user role s).1 ≡ s)
      ⊎ ((m : Membership) × (find (is_of user house) s.memberships ≡ some m)
          × (is_protected m (some role) s.memberships ≡ false)
          × ((change house user role s).1.memberships ≡ set_role m.id role s.memberships))
unfolding change by_user_house membership_for protect_final_owner lock_owners
change-cases house user role s = elim (Option-cases (find (is_of user house) s.memberships)) [
  | inl gone ↦ inl (ground arith)
  | inr (m, e) ↦ elim (Bool-cases (is_protected m (some role) s.memberships)) [
    | inl refused ↦ inl (ground arith)
    | inr free ↦ inr (m, e, free, ground arith)
  ]
]

remove-cases :
    (house user : String) (s : Members)
    → ((remove house user s).1 ≡ s)
      ⊎ ((m : Membership) × (find (is_of user house) s.memberships ≡ some m)
          × (is_protected m none s.memberships ≡ false)
          × ((remove house user s).1.memberships ≡ delete m.id s.memberships))
unfolding remove by_user_house membership_for protect_final_owner lock_owners
remove-cases house user s = elim (Option-cases (find (is_of user house) s.memberships)) [
  | inl gone ↦ inl (ground arith)
  | inr (m, e) ↦ elim (Bool-cases (is_protected m none s.memberships)) [
    | inl refused ↦ inl (ground arith)
    | inr free ↦ inr (m, e, free, ground arith)
  ]
]

-- What is kept: the key, and the owner of the house.
abbrev Kept : String → List Membership → Type 0
Kept house ms = IsKeyed ms × HasOwner house ms

add-Kept :
    (fresh at user house : String) (role : Role) (s : Members)
    → Kept house s.memberships
    → Kept house (add fresh at user role s).1.memberships
unfolding add
add-Kept fresh at user house role s (k, o) = elim (Bool-cases (contains user s.users)) [
  | inr missing ↦ rw missing (k, o)
  | inl known ↦
      elim (Bool-cases (
        not (contains at s.houses) || any (λ m. has_id fresh m || is_of user at m) s.memberships)) [
          | inl clash ↦ rw known (rw clash (k, o))
          | inr free ↦
              rw known
                (rw free ((fresh_id fresh user at s.memberships (ground arith), k), ground arith))
        ]
]

serve-Kept :
    (house : String) (r : Request) (s : Members)
    → Kept house s.memberships
    → Kept house (serve r s).memberships
serve-Kept house (to_add fresh at user role) s kept = add-Kept fresh at user house role s kept
serve-Kept house (to_change at user role) s (k, o) = elim (change-cases at user role s) [
  | inl same ↦ subst (λ t. Kept house t.memberships) (sym same) (k, o)
  | inr (m, found, free, e) ↦ subst (Kept house) (sym e) (
    set_role-IsKeyed m.id role s.memberships k,
    set_role-HasOwner house _ m role s.memberships k found free o,
  )
]
serve-Kept house (to_remove at user) s (k, o) = elim (remove-cases at user s) [
  | inl same ↦ subst (λ t. Kept house t.memberships) (sym same) (k, o)
  | inr (m, found, free, e) ↦
      subst (Kept house) (sym e) (
        delete-IsKeyed m.id s.memberships k,
        delete-HasOwner house _ m s.memberships k found free o,
      )
]

run-Kept :
    (house : String) (rs : List Request) (s : Members)
    → Kept house s.memberships
    → Kept house (run rs s).memberships
run-Kept house [] s kept = kept
run-Kept house (r ∷ rs) s kept = run-Kept house rs (serve r s) (serve-Kept house r s kept)

-- A house that has an owner has one after any sequence of requests to add, change and remove
-- memberships, of this house or others, whether they return or raise, if no two rows share an
-- identifier at the start.
pub run-HasOwner :
    (house : String) (rs : List Request) (s : Members)
    → IsKeyed s.memberships
    → HasOwner house s.memberships
    → HasOwner house (run rs s).memberships
run-HasOwner house rs s k o = (run-Kept house rs s (k, o)).1
