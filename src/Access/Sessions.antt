-- ===== src/Access/Sessions.antt =====
-- `AuthenticationService` (app/services/auth_service.py) over `UserRepository` and
-- `RefreshSessionRepository` (app/repositories/auth_repository.py). The password hash, the token codec,
-- the digest of a token's identifier and the normal form of an e-mail are arguments, and so is every
-- reading of the time. Every repository call commits.
use kz_home_core.Common.{
  ℕ, ◌+◌, ltb, length, codes, String, Bool, false, not, ◌||◌, Option, none, some, List, ◌∷◌, str_eq,
  leb, is_some, find, any, update, if◌then◌else◌, Exec, Result, ok, err, conflict, forbidden, pure,
  ◌>>◌,
}

-- The fields of `UserORM` and `RefreshSessionORM` that are read.
pub record User : Type 0 where
  pub id : String
  pub email : String
  pub password_hash : String
  pub is_active : Bool

pub record RefreshSession : Type 0 where
  pub jti_hash : String
  pub user_id : String
  pub expires_at : ℕ
  pub revoked_at : Option ℕ

pub record Accounts : Type 0 where
  pub users : List User
  pub sessions : List RefreshSession

pub record Claims : Type 0 where
  pub sub : String
  pub type : String
  pub iat : ℕ
  pub exp : ℕ
  pub jti : String

-- What the service calls outside the repository (the JWT library, Argon2, SHA-256, `strip().lower()`),
-- and the two lifetimes of `TokenCodec`.
pub record Crypto : Type 0 where
  pub jwt_encode : Claims → String
  pub jwt_decode : String → Option Claims
  pub sha256 : String → String
  pub argon2_verify : String → String → Bool
  pub dummy_hash : String
  pub strip_lower : String → String
  pub access_lifetime : ℕ
  pub refresh_lifetime : ℕ

-- The identifiers and times that issuing a pair draws.
pub record Draws : Type 0 where
  pub access_jti : String
  pub refresh_jti : String
  pub access_now : ℕ
  pub refresh_now : ℕ

pub record TokenPair : Type 0 where
  pub access_token : String
  pub refresh_token : String

-- `TokenCodec.issue`
unfoldable pub issue : Crypto → String → String → ℕ → String → String × Claims
issue crypto subject type now jti =
    let lifetime =
      if str_eq type "access" then crypto.access_lifetime else crypto.refresh_lifetime in
    let claims : Claims = record {
      sub = subject;
      type = type;
      iat = now;
      exp = now + lifetime;
      jti = jti;
    } in
    (crypto.jwt_encode claims, claims)

-- `TokenCodec.decode`; `none` is the `TokenError`. The answer of the JWT library does not depend on the time here:
-- its own check of a token's expiry is not modelled.
unfoldable pub decode : Crypto → String → String → Option Claims
decode crypto token expected_type = elim (crypto.jwt_decode token) [
  | none ↦ none
  | some claims ↦ if str_eq claims.type expected_type then some claims else none
]

-- `hash_jti`
unfoldable pub hash_jti : Crypto → String → String
hash_jti crypto jti = crypto.sha256 jti

abbrev pub max_password : ℕ
max_password = 256

-- `PasswordManager.verify`
unfoldable pub verify : Crypto → String → String → Bool
verify crypto hash password =
    if ltb max_password (length (codes password)) then false else crypto.argon2_verify hash password

-- `UserRepository.by_email`
unfoldable pub by_email : Crypto → String → Accounts → Option User
by_email crypto email a = find (λ u. str_eq u.email (crypto.strip_lower email)) a.users

-- `session.get(UserORM, …)`
unfoldable pub user_by_id : String → Accounts → Option User
user_by_id id a = find (λ u. str_eq u.id id) a.users

abbrev pub has_jti : String → RefreshSession → Bool
has_jti jti_hash r = str_eq r.jti_hash jti_hash

-- `RefreshSessionRepository.active` at the time `now`
unfoldable pub active : String → ℕ → Accounts → Option RefreshSession
active jti_hash now a = elim (find (has_jti jti_hash) a.sessions) [
  | none ↦ none
  | some r ↦ if is_some r.revoked_at || leb r.expires_at now then none else some r
]

-- `revoke`
unfoldable pub revoke : RefreshSession → ℕ → Exec Accounts (Unit {0})
revoke r now a = (
  ok tt,
  record a {
    sessions = update (has_jti r.jti_hash) (λ x. record x { revoked_at = some now }) a.sessions;
  },
)

-- `sessions.create`: the digest is the key of the table.
unfoldable pub create_session : RefreshSession → Exec Accounts (Unit {0})
create_session r a =
    if any (has_jti r.jti_hash) a.sessions
    then (err conflict, a)
    else (ok tt, record a { sessions = r ∷ a.sessions })

-- `_issue_pair`
unfoldable pub issue_pair : Crypto → User → Draws → Exec Accounts TokenPair
unfolding create_session issue hash_jti
issue_pair crypto user draws = do
  let (access, _) = issue crypto user.id "access" draws.access_now draws.access_jti
  let (fresh, claims) = issue crypto user.id "refresh" draws.refresh_now draws.refresh_jti
  create_session (record {
    jti_hash = hash_jti crypto claims.jti;
    user_id = user.id;
    expires_at = claims.exp;
    revoked_at = none;
  })
  pure (record { access_token = access; refresh_token = fresh })

-- `login`; the check of the dummy hash for an unknown e-mail decides nothing.
unfoldable pub login : Crypto → String → String → Draws → Exec Accounts TokenPair
unfolding by_email verify
login crypto email password draws a = elim (by_email crypto email a) [
  | none ↦ (err forbidden, a)
  | some u ↦
      (if not u.is_active || not (verify crypto u.password_hash password)
        then (err forbidden, a)
        else issue_pair crypto u draws a)
]

-- The checks of `refresh` on the session and its user, and the rotation.
unfoldable pub rotate :
    Crypto → Claims → ℕ → Draws → Option RefreshSession → Option User → Exec Accounts TokenPair
unfolding revoke issue_pair
rotate crypto claims revoked_at draws (some r) (some u) a =
    if not (str_eq r.user_id claims.sub) || not u.is_active
    then (err forbidden, a)
    else (do revoke r revoked_at; issue_pair crypto u draws) a
rotate crypto claims revoked_at draws _ _ a = (err forbidden, a)

-- `refresh`; `now` and `revoked_at` are the two readings of the time.
unfoldable pub refresh : Crypto → String → ℕ → ℕ → Draws → Exec Accounts TokenPair
unfolding active user_by_id decode hash_jti
refresh crypto token now revoked_at draws a = elim (decode crypto token "refresh") [
  | none ↦ (err forbidden, a)
  | some claims ↦
      rotate crypto claims revoked_at draws (active (hash_jti crypto claims.jti) now a)
        (user_by_id claims.sub a) a
]

-- `logout`
unfoldable pub logout : Crypto → String → ℕ → ℕ → Exec Accounts (Unit {0})
unfolding active revoke decode hash_jti
logout crypto token now revoked_at a = elim (decode crypto token "refresh") [
  | none ↦ (err forbidden, a)
  | some claims ↦ elim (active (hash_jti crypto claims.jti) now a) [
    | none ↦ (err forbidden, a)
    | some r ↦ revoke r revoked_at a
  ]
]

-- `access_user`
unfoldable pub access_user : Crypto → String → Accounts → Result User
unfolding user_by_id decode
access_user crypto token a = elim (decode crypto token "access") [
  | none ↦ err forbidden
  | some claims ↦ elim (user_by_id claims.sub a) [
    | none ↦ err forbidden
    | some u ↦ if u.is_active then ok u else err forbidden
  ]
]
