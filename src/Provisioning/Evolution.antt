-- ===== src/Provisioning/Evolution.antt =====
-- What the service can do to the table of attempts (app/services/provisioning_service.py): it follows the
-- state machine of app/services/provisioning_state.py.
use kz_home_core.Common.{
  ℕ, ◌+◌, String, Bool, true, ◌&&◌, Option, none, some, List, [], ◌∷◌, ◌≡◌, refl, sym, subst, ◌⊎◌,
  inl, inr, ◌==◌, leb, length, keep, update, Bool-cases, Result-cases, Exec, ok, Moves, Moves-bind,
  ◌>>=◌, arith,
}
use kz_home_core.Provisioning.State.{
  ProvisioningStatus, discovered, expired, cancelled, ProvisioningEvent, expire, cancel,
  ProvisioningState, is_discovered, post_init, transition,
}
use kz_home_core.Provisioning.Transition.{edge, transition-edge, post_init_inverts}
use kz_home_core.Provisioning.Sessions.{
  ProvisioningSession, Registry, aware, same_status, authorize, machine, state_of, report, is_at,
  write, step, swap, apply, expire_row, load,
}

-- What one attempt can become: it stays, or it was "discovered" and has been ended.
abbrev pub Ended : ProvisioningSession → ProvisioningSession → Type 0
Ended r r' =
    (r' ≡ record r { status = expired; revision = r.revision + 1 })
    ⊎ ((key : String) × (actor : String) × (r' ≡ record r {
      status = cancelled;
      revision = r.revision + 1;
      cancel_key_hash = some key;
      cancel_actor_id = some actor;
      cancel_revision = some r.revision;
    }))

abbrev pub Follows : ProvisioningSession → ProvisioningSession → Type 0
Follows r r' = (r' ≡ r) ⊎ ((r.status ≡ discovered) × Ended r r')

-- The table before and after: the rows stay in their order, each follows its own, and new ones, opened as
-- "discovered" at revision 0, stand among them.
pub data Evolves : List ProvisioningSession → List ProvisioningSession → Type 0 where
  done : Evolves [] []
  followed :
      {r r' : ProvisioningSession} {rs rs' : List ProvisioningSession}
      → Follows r r'
      → Evolves rs rs'
      → Evolves (r ∷ rs) (r' ∷ rs')
  opened :
      {r r' : ProvisioningSession} {rs rs' : List ProvisioningSession}
      → r.status ≡ discovered
      → r.revision ≡ 0
      → Follows r r'
      → Evolves rs rs'
      → Evolves rs (r' ∷ rs')

Ended-final : (r r' : ProvisioningSession) → Ended r r' → r'.status ≡ discovered → ⊥
Ended-final r r' (inl e) h = ground arith
Ended-final r r' (inr (key, actor, e)) h = ground arith

Follows-trans : (r s t : ProvisioningSession) → Follows r s → Follows s t → Follows r t
Follows-trans r s t (inl e) g = subst (λ x. Follows x t) e g
Follows-trans r s t (inr (live, ended)) (inl e) = subst (Follows r) (sym e) (inr (live, ended))
Follows-trans r s t (inr (live, ended)) (inr (again, _)) = absurd (Ended-final r s ended again)

pub Evolves-trans : {a b c : List ProvisioningSession} → Evolves a b → Evolves b c → Evolves a c
Evolves-trans e done = e
Evolves-trans e (opened live zero f d) = opened live zero f (Evolves-trans e d)
Evolves-trans (followed {r = r} {r' = r'} f d) (followed {r' = r''} g d') =
    followed (Follows-trans r r' r'' f g) (Evolves-trans d d')
Evolves-trans (opened {r = r} {r' = r'} live zero f d) (followed {r' = r''} g d') =
    opened live zero (Follows-trans r r' r'' f g) (Evolves-trans d d')

pub Evolves-refl : (rs : List ProvisioningSession) → Evolves rs rs
Evolves-refl [] = done
Evolves-refl (r ∷ rs) = followed (inl refl) (Evolves-refl rs)

-- An UPDATE whose writes follow.
update-Evolves :
    (p : ProvisioningSession → Bool) (f : ProvisioningSession → ProvisioningSession)
    (rs : List ProvisioningSession)
    → ((r : ProvisioningSession) → p r ≡ true → Follows r (f r))
    → Evolves rs (update p f rs)
update-Evolves p f [] h = done
update-Evolves p f (r ∷ rs) h = elim (Bool-cases (p r)) [
  | inl hit ↦ rw hit (followed (h r hit) (update-Evolves p f rs h))
  | inr miss ↦ rw miss (followed (inl refl) (update-Evolves p f rs h))
]

same-discovered : (x : ProvisioningStatus) → same_status x discovered ≡ true → x ≡ discovered
same-discovered discovered h = refl
same-discovered _ h = absurd (ground arith)

-- What the machine's step on a "discovered" row gives.
module _ (sha256 : String → String) where
  step-edge :
      (row : ProvisioningSession) (event : ProvisioningEvent) (now : ℕ) (new : ProvisioningState)
      → step sha256 row event now ≡ ok new
      → (edge row.status event ≡ some new.status) × (new.revision ≡ row.revision + 1)
  unfolding step state_of machine
  step-edge row event now new h = elim (Result-cases (post_init (machine row))) [
    | inr (e, raised) ↦ absurd (ground arith)
    | inl (state, built) ↦
        (let (valid, same) = post_init_inverts (machine row) state built in
          let t : transition sha256 state event row.revision (aware now) none none ≡ ok new =
            ground arith in
          let (on_table, _, _, _, m, _) =
            transition-edge sha256 state new event row.revision (aware now) none none t in
          (ground arith, ground arith))
  ]

-- A request changes the table only so.
abbrev pub Evolution : Registry → Registry → Type 0
Evolution s t = Evolves s.sessions t.sessions

pub bind-Evolution :
    {A B : Type 0} (m : Exec Registry A) (f : A → Exec Registry B)
    → Moves Evolution m
    → ((a : A) → Moves Evolution (f a))
    → Moves Evolution (m >>= f)
bind-Evolution m f h k =
    Moves-bind Evolution (λ s. Evolves-refl s.sessions) (λ s t u. Evolves-trans) m f h k

-- A block that leaves the table as it is.
pub still : {A : Type 0} (m : Exec Registry A) → ((s : Registry) → (m s).1 ≡ s) → Moves Evolution m
still m h = record {
  at = λ s. subst (λ t. Evolves s.sessions t.sessions) (sym (h s)) (Evolves-refl s.sessions);
}

pub authorize-still : (house actor : String) (s : Registry) → (authorize house actor s).1 ≡ s
unfolding authorize
authorize-still house actor s = ground arith

pub report-still : (row : ProvisioningSession) (s : Registry) → (report row s).1 ≡ s
unfolding report
report-still row s = ground arith

pub load-still :
    (house actor session_id : String) (s : Registry) → (load house actor session_id s).1 ≡ s
unfolding load
load-still house actor session_id s = ground (arith, authorize-still house actor s)

swap-Evolution :
    (row : ProvisioningSession) (new : ProvisioningState) (stamp : Option (String × (String × ℕ)))
    → ((r : ProvisioningSession) → is_at row r ≡ true → Follows r (write new stamp r))
    → Moves Evolution (swap row new stamp)
unfolding swap
swap-Evolution row new stamp h = record {
  at = λ s. elim (Bool-cases (length (keep (is_at row) s.sessions) == 1)) [
    | inr other ↦ rw other (Evolves-refl s.sessions)
    | inl one ↦ rw one (update-Evolves (is_at row) (write new stamp) s.sessions h)
  ];
}

module _ (sha256 : String → String) where
  expire-Follows :
      (row : ProvisioningSession) (now : ℕ) (new : ProvisioningState)
      → row.status ≡ discovered
      → step sha256 row expire now ≡ ok new
      → (r : ProvisioningSession) → is_at row r ≡ true
      → Follows r (write new none r)
  expire-Follows row now new live h r at =
      let (on_table, next) = step-edge sha256 row expire now new h in
      let live' : r.status ≡ discovered = same-discovered r.status (ground arith) in
      inr (live', inl (ground arith))

  pub cancel-Follows :
      (row : ProvisioningSession) (now : ℕ) (new : ProvisioningState) (key actor : String)
      (revision : ℕ)
      → row.status ≡ discovered
      → row.revision ≡ revision
      → step sha256 row cancel now ≡ ok new
      → (r : ProvisioningSession) → is_at row r ≡ true
      → Follows r (write new (some (key, (actor, revision))) r)
  cancel-Follows row now new key actor revision live current h r at =
      let (on_table, next) = step-edge sha256 row cancel now new h in
      let live' : r.status ≡ discovered = same-discovered r.status (ground arith) in
      inr (live', inr (key, actor, ground arith))

  pub apply-Evolution :
      (row : ProvisioningSession) (event : ProvisioningEvent) (now : ℕ)
      (stamp : Option (String × (String × ℕ)))
      → ((new : ProvisioningState)
          → step sha256 row event now ≡ ok new
          → (r : ProvisioningSession) → is_at row r ≡ true
          → Follows r (write new stamp r))
      → Moves Evolution (apply sha256 row event now stamp)
  unfolding apply
  apply-Evolution row event now stamp h = elim (Result-cases (step sha256 row event now)) [
    | inr (e, raised) ↦ record { at = λ s. rw (raised, apply) (Evolves-refl s.sessions) }
    | inl (new, stepped) ↦ record {
      at = λ s. rw (stepped, apply) ((swap-Evolution row new stamp (h new stepped)).at s);
    }
  ]

  pub expire_row-Evolution :
      (row : ProvisioningSession) (now : ℕ) → Moves Evolution (expire_row sha256 row now)
  unfolding expire_row
  expire_row-Evolution row now =
      elim (Bool-cases (is_discovered row.status && leb row.expires_at now)) [
        | inr early ↦ record { at = λ s. rw early (Evolves-refl s.sessions) }
        | inl late ↦ record {
          at = λ s. rw late (
              (apply-Evolution row expire now none
                  (λ new h. expire-Follows row now new (ground arith) h)).at
                s);
        }
      ]
