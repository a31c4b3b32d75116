-- ===== src/Access/Members.antt =====
-- `AuthorizationService` and `MembershipService` (app/services/auth_service.py) over
-- `MembershipRepository` (app/repositories/auth_repository.py). A row is written by its primary key.
-- The identifier of a new row is an argument.
use kz_home_core.Common.{
  String, Bool, false, not, ◌&&◌, ◌||◌, Option, none, some, List, [], ◌∷◌, str_eq, leb, length,
  keep, find, any, update, contains, if◌then◌else◌, Exec, Result, ok, err, conflict, not_found,
  forbidden, invalid_reference, pure, modify, ◌>>=◌, ◌>>◌,
}
use kz_home_core.Access.Roles.{Permission, Role, roles, is_granted, is_owner, is_among}

-- `HouseMembershipORM`
pub record Membership : Type 0 where
  pub id : String
  pub user_id : String
  pub house_id : String
  pub role : Role

-- The memberships, and the identifiers of the users and of the houses.
pub record Members : Type 0 where
  pub memberships : List Membership
  pub users : List String
  pub houses : List String

abbrev pub has_id : String → Membership → Bool
has_id id m = str_eq m.id id

abbrev pub is_of : String → String → Membership → Bool
is_of user house m = str_eq m.user_id user && str_eq m.house_id house

abbrev pub is_owner_of : String → Membership → Bool
is_owner_of house m = str_eq m.house_id house && is_owner m.role

-- `MembershipRepository.for_house`
unfoldable pub membership_for : String → String → Members → Option Membership
membership_for user house s = find (is_of user house) s.memberships

-- `lock_owners`
unfoldable pub lock_owners : String → Members → List Membership
lock_owners house s = keep (is_owner_of house) s.memberships

-- `by_user_house`
unfoldable pub by_user_house : String → String → Exec Members Membership
unfolding membership_for
by_user_house user house s = elim (membership_for user house s) [
  | none ↦ (err not_found, s)
  | some m ↦ (ok m, s)
]

-- `has_permission`
unfoldable pub has_permission : Option Membership → Permission → Bool
has_permission none p = false
has_permission (some m) p = is_granted m.role p

-- `require_house_permission`
unfoldable pub require_house_permission : String → String → Permission → Members → Result Membership
require_house_permission user house p s = elim (membership_for user house s) [
  | none ↦ err forbidden
  | some m ↦ if has_permission (some m) p then ok m else err forbidden
]

abbrev pub houses_of : List Membership → List String
houses_of [] = []
houses_of (m ∷ ms) = m.house_id ∷ houses_of ms

-- `accessible_house_ids`, with `house_ids` of the repository.
unfoldable pub accessible_house_ids : String → Permission → Members → List String
accessible_house_ids user p s =
    let allowed = keep (λ r. is_granted r p) roles in
    houses_of (keep (λ m. str_eq m.user_id user && is_among allowed m.role) s.memberships)

-- `replacement_role != "owner"`; `none` is the replacement of a removal.
abbrev pub stays_owner : Option Role → Bool
stays_owner none = false
stays_owner (some r) = is_owner r

-- `_protect_final_owner`
unfoldable pub protect_final_owner : Membership → Option Role → Exec Members (Unit {0})
protect_final_owner m replacement s =
    if is_owner m.role
      && (not (stays_owner replacement) && leb (length (lock_owners m.house_id s)) 1)
    then (err conflict, s)
    else (ok tt, s)

-- `add`; the table refuses a house that is not there, and a second row for either of its keys.
unfoldable pub add : String → String → String → Role → Exec Members Membership
add fresh house user role s =
    if not (contains user s.users)
    then (err invalid_reference, s)
    else if not (contains house s.houses)
        || any (λ m. has_id fresh m || is_of user house m) s.memberships
    then (err conflict, s)
    else (let m : Membership = record {
      id = fresh;
      user_id = user;
      house_id = house;
      role = role;
    } in
        (ok m, record s { memberships = m ∷ s.memberships }))

abbrev pub set_role : String → Role → List Membership → List Membership
set_role id role ms = update (has_id id) (λ m. record m { role = role }) ms

abbrev pub delete : String → List Membership → List Membership
delete id ms = keep (λ m. not (has_id id m)) ms

-- `change`
unfoldable pub change : String → String → Role → Exec Members Membership
change house user role = do
  m ← by_user_house user house
  protect_final_owner m (some role)
  modify (λ s. record s { memberships = set_role m.id role s.memberships })
  pure (record m { role = role })

-- `remove`
unfoldable pub remove : String → String → Exec Members (Unit {0})
remove house user = do
  m ← by_user_house user house
  protect_final_owner m none
  modify (λ s. record s { memberships = delete m.id s.memberships })

-- A request to the service, and what is left when it has returned or raised.
pub data Request : Type 0 where
  to_add : String → String → String → Role → Request
  to_change : String → String → Role → Request
  to_remove : String → String → Request

abbrev pub serve : Request → Members → Members
serve (to_add fresh house user role) s = (add fresh house user role s).1
serve (to_change house user role) s = (change house user role s).1
serve (to_remove house user) s = (remove house user s).1

abbrev pub run : List Request → Members → Members
run [] s = s
run (r ∷ rs) s = run rs (serve r s)
