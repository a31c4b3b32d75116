-- ===== src/Access/Tokens.antt =====
-- A refresh token is good for one use (app/services/auth_service.py).
use text.Mathlib.TextPositions.{eq_refl}
use kz_home_core.Common.{
  ℕ, String, Bool, true, false, Option, none, some, List, [], ◌∷◌, ◌≡◌, refl, subst, str_eq, eq_iff,
  is_some, find, any, find-update, find-test, Bool-cases, Option-cases, inl, inr, ok, returns,
  arith, if◌then◌else◌, Exec, Moves, Moves-bind, ◌>>=◌,
}
use kz_home_core.Access.Sessions.{
  User, RefreshSession, Accounts, Claims, Crypto, Draws, TokenPair, decode, hash_jti, has_jti,
  active, revoke, create_session, issue_pair, login, rotate, refresh, logout, user_by_id, by_email,
}

-- The session with this digest has been revoked.
abbrev pub is_spent : String → Accounts → Bool
is_spent j a = elim (find (has_jti j) a.sessions) [ none ↦ false | some r ↦ is_some r.revoked_at ]

-- Calls of the service, one after another; what each leaves when it has returned or raised.
pub data Call : Type 0 where
  to_login : String → String → Draws → Call
  to_refresh : String → ℕ → ℕ → Draws → Call
  to_logout : String → ℕ → ℕ → Call

abbrev pub serve : Crypto → Call → Accounts → Accounts
serve crypto (to_login email password draws) a = (login crypto email password draws a).1
serve crypto (to_refresh token now revoked_at draws) a =
    (refresh crypto token now revoked_at draws a).1
serve crypto (to_logout token now revoked_at) a = (logout crypto token now revoked_at a).1

abbrev pub run : Crypto → List Call → Accounts → Accounts
run crypto [] a = a
run crypto (c ∷ cs) a = run crypto cs (serve crypto c a)

spent_row :
    (j : String) (a : Accounts)
    → is_spent j a ≡ true
    → (r : RefreshSession) × (find (has_jti j) a.sessions ≡ some r) × (is_some r.revoked_at ≡ true)
spent_row j a h = elim (Option-cases (find (has_jti j) a.sessions)) [
  | inl gone ↦ absurd (ground arith)
  | inr (r, e) ↦ (r, e, ground arith)
]

found_any :
    (j : String) (rs : List RefreshSession) (r : RefreshSession)
    → find (has_jti j) rs ≡ some r
    → any (has_jti j) rs ≡ true
found_any j [] r h = ground arith
found_any j (x ∷ rs) r h = ground (arith, found_any j rs r)

create_session_spent :
    (j : String) (r : RefreshSession) (a : Accounts)
    → is_spent j a ≡ true
    → is_spent j (create_session r a).1 ≡ true
unfolding create_session
create_session_spent j r a h =
    let (x, found, spent) = spent_row j a h in
    elim (Bool-cases (any (has_jti r.jti_hash) a.sessions)) [
      | inl clash ↦ ground arith
      | inr free ↦ elim (Bool-cases (str_eq r.jti_hash j)) [
        | inr other ↦ ground arith
        | inl same ↦ absurd (
            let e : r.jti_hash ≡ j = ground (arith, eq_iff r.jti_hash j) in
            let f = subst (λ i. any (has_jti i) a.sessions ≡ false) e free in
            ground (arith, found_any j a.sessions x found))
      ]
    ]

revoked_find :
    (j : String) (r : RefreshSession) (at : ℕ) (a : Accounts) (x : RefreshSession)
    → find (has_jti j) a.sessions ≡ some x
    → find (has_jti j) (revoke r at a).1.sessions
      ≡ some (if has_jti r.jti_hash x then record x { revoked_at = some at } else x)
unfolding revoke
revoked_find j r at a x found =
    find-update (has_jti j) (has_jti r.jti_hash) (λ y. record y { revoked_at = some at }) a.sessions
      x (λ y. refl) found

revoke_spent :
    (j : String) (r : RefreshSession) (at : ℕ) (a : Accounts)
    → is_spent j a ≡ true
    → is_spent j (revoke r at a).1 ≡ true
revoke_spent j r at a h =
    let (x, found, spent) = spent_row j a h in ground (arith, revoked_find j r at a x found)

-- What a call does to a spent session: nothing.
abbrev KeepsSpent : String → Accounts → Accounts → Type 0
KeepsSpent j a b = is_spent j a ≡ true → is_spent j b ≡ true

KeepsSpent-bind :
    (j : String) {A B : Type 0} (m : Exec Accounts A) (f : A → Exec Accounts B)
    → Moves (KeepsSpent j) m
    → ((x : A) → Moves (KeepsSpent j) (f x))
    → Moves (KeepsSpent j) (m >>= f)
KeepsSpent-bind j m f h k = Moves-bind (KeepsSpent j) (λ a h. h) (λ a b c f g h. g (f h)) m f h k

issue_pair_spent :
    (j : String) (crypto : Crypto) (u : User) (draws : Draws)
    → Moves (KeepsSpent j) (issue_pair crypto u draws)
unfolding issue_pair
issue_pair_spent j crypto u draws =
    KeepsSpent-bind j (create_session _) _ (record { at = create_session_spent j _ })
      (λ _. record { at = λ a h. h })

login_spent :
    (j : String) (crypto : Crypto) (email password : String) (draws : Draws) (a : Accounts)
    → is_spent j a ≡ true
    → is_spent j (login crypto email password draws a).1 ≡ true
unfolding login
login_spent j crypto email password draws a h = elim (Option-cases (by_email crypto email a)) [
  | inl unknown ↦ ground arith
  | inr (u, e) ↦ ground (arith, (issue_pair_spent j crypto u draws).at a h)
]

rotate_spent :
    (j : String) (crypto : Crypto) (claims : Claims) (at : ℕ) (draws : Draws)
    (r : Option RefreshSession) (u : Option User) (a : Accounts)
    → is_spent j a ≡ true
    → is_spent j (rotate crypto claims at draws r u a).1 ≡ true
unfolding rotate
rotate_spent j crypto claims at draws (some r) (some u) a h =
    let both =
      KeepsSpent-bind j (revoke r at) (λ _. issue_pair crypto u draws)
        (record { at = revoke_spent j r at }) (λ _. issue_pair_spent j crypto u draws) in
    ground (arith, both.at a h)
rotate_spent j crypto claims at draws _ _ a h = h

refresh_spent :
    (j : String) (crypto : Crypto) (token : String) (now at : ℕ) (draws : Draws) (a : Accounts)
    → is_spent j a ≡ true
    → is_spent j (refresh crypto token now at draws a).1 ≡ true
unfolding refresh
refresh_spent j crypto token now at draws a h =
    elim (Option-cases (decode crypto token "refresh")) [
      | inl bad ↦ ground arith
      | inr (claims, e) ↦ ground (
        arith,
        rotate_spent j crypto claims at draws (active (hash_jti crypto claims.jti) now a)
            (user_by_id claims.sub a) a h,
      )
    ]

logout_spent :
    (j : String) (crypto : Crypto) (token : String) (now at : ℕ) (a : Accounts)
    → is_spent j a ≡ true
    → is_spent j (logout crypto token now at a).1 ≡ true
unfolding logout
logout_spent j crypto token now at a h = elim (Option-cases (decode crypto token "refresh")) [
  | inl bad ↦ ground arith
  | inr (claims, e) ↦ elim (Option-cases (active (hash_jti crypto claims.jti) now a)) [
    | inl gone ↦ ground arith
    | inr (r, f) ↦ ground (arith, revoke_spent j r at a h)
  ]
]

run_spent :
    (j : String) (crypto : Crypto) (cs : List Call) (a : Accounts)
    → is_spent j a ≡ true
    → is_spent j (run crypto cs a) ≡ true
run_spent j crypto [] a h = h
run_spent j crypto (to_login email password draws ∷ cs) a h =
    run_spent j crypto cs (login crypto email password draws a).1
      (login_spent j crypto email password draws a h)
run_spent j crypto (to_refresh token now at draws ∷ cs) a h =
    run_spent j crypto cs (refresh crypto token now at draws a).1
      (refresh_spent j crypto token now at draws a h)
run_spent j crypto (to_logout token now at ∷ cs) a h =
    run_spent j crypto cs (logout crypto token now at a).1 (logout_spent j crypto token now at a h)

-- A session that is active is found under its digest.
active_found :
    (j : String) (now : ℕ) (a : Accounts) (r : RefreshSession)
    → active j now a ≡ some r
    → (find (has_jti j) a.sessions ≡ some r) × (has_jti j r ≡ true)
unfolding active
active_found j now a r h = elim (Option-cases (find (has_jti j) a.sessions)) [
  | inl gone ↦ absurd (ground arith)
  | inr (x, e) ↦ (ground arith, ground (arith, find-test (has_jti j) a.sessions x e))
]

active_revoked :
    (j : String) (now at : ℕ) (a : Accounts) (r : RefreshSession)
    → active j now a ≡ some r
    → is_spent j (revoke r at a).1 ≡ true
active_revoked j now at a r h =
    let (found, own) = active_found j now a r h in
    ground (arith, revoked_find j r at a r found, eq_refl r.jti_hash)

spent_inactive : (j : String) (now : ℕ) (a : Accounts) → is_spent j a ≡ true → active j now a ≡ none
unfolding active
spent_inactive j now a h = let (x, found, spent) = spent_row j a h in ground arith

rotate_session :
    (crypto : Crypto) (claims : Claims) (now at : ℕ) (draws : Draws) (r : RefreshSession)
    (u : Option User) (a : Accounts) (pair : TokenPair) (j : String)
    → active j now a ≡ some r
    → (rotate crypto claims at draws (some r) u a).0 ≡ ok pair
    → is_spent j (rotate crypto claims at draws (some r) u a).1 ≡ true
unfolding rotate revoke
rotate_session crypto claims now at draws r none a pair j e h = absurd (ground arith)
rotate_session crypto claims now at draws r (some u) a pair j e h = ground (
  arith,
  (issue_pair_spent j crypto u draws).at (revoke r at a).1 (active_revoked j now at a r e),
)

rotate-spends :
    (crypto : Crypto) (claims : Claims) (now at : ℕ) (draws : Draws) (r : Option RefreshSession)
    (u : Option User) (a : Accounts) (pair : TokenPair) (j : String)
    → active j now a ≡ r
    → (rotate crypto claims at draws r u a).0 ≡ ok pair
    → is_spent j (rotate crypto claims at draws r u a).1 ≡ true
unfolding rotate
rotate-spends crypto claims now at draws none u a pair j e h = absurd (ground arith)
rotate-spends crypto claims now at draws (some r) u a pair j e h =
    rotate_session crypto claims now at draws r u a pair j e h

refuses_inactive :
    (crypto : Crypto) (token : String) (now at : ℕ) (draws : Draws) (b : Accounts) (claims : Claims)
    → decode crypto token "refresh" ≡ some claims
    → active (hash_jti crypto claims.jti) now b ≡ none
    → (returns (refresh crypto token now at draws b).0 ≡ false)
      × (returns (logout crypto token now at b).0 ≡ false)
unfolding refresh logout rotate
refuses_inactive crypto token now at draws b claims d gone = (ground arith, ground arith)

refresh-spends :
    (crypto : Crypto) (token : String) (now at : ℕ) (draws : Draws) (a : Accounts)
    (pair : TokenPair) (claims : Claims)
    → decode crypto token "refresh" ≡ some claims
    → (refresh crypto token now at draws a).0 ≡ ok pair
    → is_spent (hash_jti crypto claims.jti) (refresh crypto token now at draws a).1 ≡ true
unfolding refresh
refresh-spends crypto token now at draws a pair claims d h = ground (
  arith,
  rotate-spends crypto claims now at draws (active (hash_jti crypto claims.jti) now a)
      (user_by_id claims.sub a) a pair (hash_jti crypto claims.jti) refl,
)

-- Once a refresh has answered, the same token is refused for ever: after any further logins, refreshes
-- and logouts with any tokens, at any times, neither a refresh nor a logout with it returns.
pub refresh_once :
    (crypto : Crypto) (token : String) (now at now' at' : ℕ) (draws draws' : Draws) (a : Accounts)
    (pair : TokenPair) (calls : List Call)
    → (refresh crypto token now at draws a).0 ≡ ok pair
    → (returns
          (refresh crypto token now' at' draws'
            (run crypto calls (refresh crypto token now at draws a).1)).0
        ≡ false)
      × (returns
            (logout crypto token now' at'
              (run crypto calls (refresh crypto token now at draws a).1)).0
          ≡ false)
unfolding refresh
refresh_once crypto token now at now' at' draws draws' a pair calls h =
    elim (Option-cases (decode crypto token "refresh")) [
      | inl bad ↦ absurd (ground arith)
      | inr (claims, d) ↦
          (let j = hash_jti crypto claims.jti in
            let b = run crypto calls (refresh crypto token now at draws a).1 in
            let spent =
              run_spent j crypto calls (refresh crypto token now at draws a).1
                (refresh-spends crypto token now at draws a pair claims d h) in
            refuses_inactive crypto token now' at' draws' b claims d
              (spent_inactive j now' b spent))
    ]
