-- ===== src/Access/Tests.antt =====
-- A house of two owners and one account, and the theorems at those inputs.
use kz_home_core.Common.{
  true, false, none, some, List, [], ◌∷◌, ◌≡◌, refl, ok, err, returns, arith, conflict,
}
use kz_home_core.Access.Roles.{owner, resident}
use kz_home_core.Access.Members.{
  Members, Request, to_change, to_remove, run, change, remove, by_user_house, membership_for,
  protect_final_owner, lock_owners,
}
use kz_home_core.Access.Owners.{HasOwner, run-HasOwner}
use kz_home_core.Access.Sessions.{
  Accounts, Claims, Crypto, Draws, TokenPair, issue, decode, hash_jti, active, revoke,
  create_session, issue_pair, rotate, refresh, logout, user_by_id,
}
use kz_home_core.Access.Tokens
use kz_home_core.Access.Tokens.{to_login, refresh_once}

abbrev house_members : Members
house_members = record {
  memberships =
      record { id = "1"; user_id = "ann"; house_id = "h"; role = owner }
      ∷ record { id = "2"; user_id = "bob"; house_id = "h"; role = owner }
      ∷ [];
  users = "ann" ∷ "bob" ∷ [];
  houses = "h" ∷ [];
}

abbrev both_leave : List Request
both_leave = to_remove "h" "ann" ∷ to_change "h" "bob" resident ∷ to_remove "h" "bob" ∷ []

last_owner_stays :
    (change "h" "bob" resident (run (to_remove "h" "ann" ∷ []) house_members)).0 ≡ err conflict
unfolding change remove by_user_house membership_for protect_final_owner lock_owners
last_owner_stays = refl

run-HasOwner_example : HasOwner "h" (run both_leave house_members).memberships
run-HasOwner_example = run-HasOwner "h" both_leave house_members (refl, (refl, tt)) (omega arith)

-- A token is its identifier here.
abbrev refresh_claims : Claims
refresh_claims = record { sub = "ann"; type = "refresh"; iat = 1; exp = 90; jti = "t" }

abbrev crypto : Crypto
crypto = record {
  jwt_encode = λ claims. claims.jti;
  jwt_decode = λ _. some refresh_claims;
  sha256 = λ s. s;
  argon2_verify = λ _ _. true;
  dummy_hash = "";
  strip_lower = λ s. s;
  access_lifetime = 10;
  refresh_lifetime = 80;
}

abbrev accounts : Accounts
accounts = record {
  users = record { id = "ann"; email = "a"; password_hash = "p"; is_active = true } ∷ [];
  sessions = record { jti_hash = "t"; user_id = "ann"; expires_at = 90; revoked_at = none } ∷ [];
}

abbrev draws : Draws
draws = record { access_jti = "x"; refresh_jti = "y"; access_now = 20; refresh_now = 20 }

abbrev pair : TokenPair
pair = record { access_token = "x"; refresh_token = "y" }

refresh_returns : (refresh crypto "t" 20 20 draws accounts).0 ≡ ok pair
unfolding refresh rotate decode hash_jti active revoke issue_pair issue create_session user_by_id
refresh_returns = refl

refresh_once_example :
    (returns
        (refresh crypto "t" 21 21 draws (
          Tokens.run crypto
            (to_login "a" "pw" draws ∷ [])
            (refresh crypto "t" 20 20 draws accounts).1)).0
      ≡ false)
    × (returns
          (logout crypto "t" 21 21 (
            Tokens.run crypto
              (to_login "a" "pw" draws ∷ [])
              (refresh crypto "t" 20 20 draws accounts).1)).0
        ≡ false)
refresh_once_example =
    refresh_once crypto "t" 20 20 21 21 draws draws accounts pair (to_login "a" "pw" draws ∷ [])
      refresh_returns
