-- ===== src/Structure/Guarded.antt =====
-- What holds behind the checks of an operation (app/api/routes.py, app/services/crud_service.py): the state is
-- as it was, or the checks have passed.
use kz_home_core.Common.{
  not_found, forbidden, String, Bool, true, false, Option, none, some, ◌∷◌, ◌≡◌, refl, subst,
  if◌then◌else◌, Result, ok, err, Bool-cases, inl, inr, arith,
}
use kz_home_core.Access.Roles.{Permission}
use kz_home_core.Access.Members.{Membership, membership_for, has_permission}
use kz_home_core.Structure.Tables.{Site}
use kz_home_core.Structure.Crud.{with_ok, commit}
use kz_home_core.Structure.Contents.{members}
use kz_home_core.Structure.Routes.{require, require_in, require_target, require_place}

-- The user is a member of the house.
abbrev pub IsMember : String → String → Site → Type 0
IsMember user h s = (m : Membership) × (membership_for user h (members s) ≡ some m)

module _ (P : Site → Type 0) where
  pub with_ok-P :
      {A B : Type 0} (r : Result A) (s : Site) (next : A → Result B × Site)
      → P s
      → ((a : A) → r ≡ ok a → P (next a).1)
      → P (with_ok r s next).1
  with_ok-P (err e) s next p k = p
  with_ok-P (ok a) s next p k = k a refl

  pub commit-P : (b : Bool) (s t : Site) → P s → (b ≡ false → P t) → P (commit b s t).1
  commit-P true s t p k = p
  commit-P false s t p k = k refl

  module _ (s : Site) (still : P s)
      (denied : (d : String × String) → P (record s { denials = d ∷ s.denials })) where
    pub require-P :
        (user h : String) (p : Permission) (next : Result (Unit {0}) × Site)
        → (IsMember user h s → P next.1)
        → P (require user h p s next).1
    require-P user h p next k = go (membership_for user h (members s)) (λ m e. k (m, e))
      where
        go :
            (found : Option Membership)
            → ((m : Membership) → found ≡ some m → P next.1)
            → P
                (elim found as (λ _. Result (Unit {0}) × Site) [
                  | none ↦ (err not_found, s)
                  | some m ↦
                      if has_permission (some m) p
                      then next
                      else (err forbidden, record s { denials = (user, h) ∷ s.denials })
                ]).1
        go none k = still
        go (some m) k = elim (Bool-cases (has_permission (some m) p)) [
          | inl granted ↦ rw granted (k m refl)
          | inr refused ↦ rw refused (denied (user, h))
        ]

    pub require_in-P :
        (user : String) (h : Option String) (p : Permission) (next : Result (Unit {0}) × Site)
        → ((g : String) → h ≡ some g → IsMember user g s → P next.1)
        → P (require_in user h p s next).1
    require_in-P user none p next k = still
    require_in-P user (some g) p next k = require-P user g p next (k g refl)

    pub require_target-P :
        (user : String) (h : Option String) (p : Permission) (next : Result (Unit {0}) × Site)
        → (((g : String) → h ≡ some g → IsMember user g s) → P next.1)
        → P (require_target user h p s next).1
    require_target-P user none p next k = k (λ g e. absurd (ground arith))
    require_target-P user (some g) p next k =
        require-P user g p next
          (λ m. k (λ h e. subst (λ x. IsMember user x s) {x = g} (ground arith) m))

    pub require_place-P :
        (user : String) (x : Option String) (house_for : String → Site → Option String)
        (p : Permission) (next : Result (Unit {0}) × Site)
        → (((y g : String) → x ≡ some y → house_for y s ≡ some g → IsMember user g s) → P next.1)
        → P (require_place user x house_for p s next).1
    require_place-P user none house_for p next k = k (λ y g e h. absurd (ground arith))
    require_place-P user (some y) house_for p next k =
        require_in-P user (house_for y s) p next
          (λ g found m. k (λ z h e there. subst (λ w. IsMember user w s) {x = g} (ground arith) m))
