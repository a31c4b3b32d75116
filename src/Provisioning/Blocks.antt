-- ===== src/Provisioning/Blocks.antt =====
-- What each block of `ProvisioningService` (app/services/provisioning_service.py) does to the table.
use kz_home_core.Common.{
  ℕ, String, Bool, true, false, not, ◌||◌, ltb, ◌==◌, Option, none, some, ◌≡◌, refl, sym, subst,
  str_eq, lookup, any, Bool-cases, inl, inr, if◌then◌else◌, Exec, Result, ok, err, conflict,
  not_found, Error, Moves, commit_or_roll_back, pure, gets, raise_if, ◌>>=◌, ◌>>◌, arith,
}
use kz_home_core.Provisioning.State.{discovered, cancel, is_discovered}
use kz_home_core.Provisioning.Sessions.{
  ProvisioningSession, Registry, ProvisioningStart, PublicStatus, Secrets, authorize, report, apply,
  expire_row, load,
}
use kz_home_core.Provisioning.Service.{
  get, cancel_row, cancel_block, settle_cancel, cancel_session, clashes, insert_row, new_session,
  claimable_device, clear_active, create_new, create_again, create_block, is_elsewhere,
  is_other_revision, is_repeat, active_on, created_with,
}
use kz_home_core.Provisioning.Evolution.{
  opened, Evolution, Evolves-refl, bind-Evolution, still, authorize-still, report-still, load-still,
  apply-Evolution, cancel-Follows, expire_row-Evolution,
}

pub claimable_device-still :
    (hardware supplied : String) (s : Registry) → (claimable_device hardware supplied s).1 ≡ s
unfolding claimable_device
claimable_device-still hardware supplied s = ground arith

pub raise_if-still : (b : Bool) (e : Error) → Moves Evolution (raise_if b e)
raise_if-still true e = still _ (λ s. refl)
raise_if-still false e = still _ (λ s. refl)

pub if-Evolution :
    {A : Type 0} (b : Bool) (m n : Exec Registry A)
    → (b ≡ true → Moves Evolution m)
    → (b ≡ false → Moves Evolution n)
    → Moves Evolution (if b then m else n)
if-Evolution true m n h k = h refl
if-Evolution false m n h k = k refl

-- A report, and then a value.
pub report-Evolution :
    {A : Type 0} (row : ProvisioningSession) (f : PublicStatus → A)
    → Moves Evolution (report row >>= (λ result. pure (f result)))
report-Evolution row f =
    bind-Evolution (report row) _ (still _ (report-still row)) (λ result. still _ (λ s. refl))

pub committed-Evolution :
    {A : Type 0} (s : Registry) (x : Result A × Registry)
    → Evolution s x.1
    → Evolution s (commit_or_roll_back s x).1
committed-Evolution s (ok a, t) h = h
committed-Evolution s (err e, t) h = Evolves-refl s.sessions

pub settled-state : (x : Result (Bool × PublicStatus) × Registry) → (settle_cancel x).1 ≡ x.1
settled-state (err e, s) = refl
settled-state (ok (true, result), s) = refl
settled-state (ok (false, result), s) = refl

pub insert_row-Evolution :
    (row : ProvisioningSession)
    → row.status ≡ discovered
    → row.revision ≡ 0
    → Moves Evolution (insert_row row)
unfolding insert_row
insert_row-Evolution row live zero = record {
  at = λ s.
      elim (Bool-cases (not (ltb row.created_at row.expires_at) || any (clashes row) s.sessions)) [
        | inl clash ↦ rw clash (Evolves-refl s.sessions)
        | inr free ↦ rw free (opened live zero (inl refl) (Evolves-refl s.sessions))
      ];
}

pub still_current :
    (row : ProvisioningSession) (revision : ℕ)
    → (not (row.revision == revision) || not (is_discovered row.status)) ≡ false
    → (row.status ≡ discovered) × (row.revision ≡ revision)
still_current row revision h = (ground arith, ground arith)

module _ (sha256 : String → String) where
  pub cancel_row-Evolution :
      (actor key : String) (revision now : ℕ) (row : ProvisioningSession)
      → Moves Evolution (cancel_row sha256 actor key revision now row)
  unfolding cancel_row
  cancel_row-Evolution actor key revision now row =
      if-Evolution (is_repeat sha256 actor key row)
        (raise_if (is_other_revision row revision) conflict >> again)
        (if other then refused else ended)
        (λ _.
          bind-Evolution (raise_if (is_other_revision row revision) conflict) (λ _. again)
            (raise_if-still (is_other_revision row revision) conflict)
            (λ _. report-Evolution row (λ result. (false, result))))
        (λ _.
          if-Evolution other refused ended (λ _. report-Evolution row (λ result. (true, result)))
            (λ current.
              bind-Evolution cancelling (λ row'. report row' >>= (λ result. pure (false, result)))
                (apply-Evolution sha256 row cancel now (some (sha256 key, (actor, revision)))
                  (λ new h.
                    cancel-Follows sha256 row now new (sha256 key) actor revision
                      (still_current row revision current).0 (still_current row revision current).1
                      h))
                (λ row'. report-Evolution row' (λ result. (false, result)))))
    where
      other : Bool
      other = not (row.revision == revision) || not (is_discovered row.status)

      cancelling : Exec Registry ProvisioningSession
      cancelling = apply sha256 row cancel now (some (sha256 key, (actor, revision)))

      again : Exec Registry (Bool × PublicStatus)
      again = report row >>= (λ result. pure (false, result))

      refused : Exec Registry (Bool × PublicStatus)
      refused = report row >>= (λ result. pure (true, result))

      ended : Exec Registry (Bool × PublicStatus)
      ended = cancelling >>= (λ row'. report row' >>= (λ result. pure (false, result)))

  pub get-Evolution :
      (house actor session_id : String) (now : ℕ)
      → Moves Evolution (get sha256 house actor session_id now)
  unfolding get
  get-Evolution house actor session_id now = record {
    at = λ s. committed-Evolution s _ (
        (bind-Evolution (load house actor session_id) _
            (still _ (load-still house actor session_id))
            (λ row.
              bind-Evolution (expire_row sha256 row now) _ (expire_row-Evolution sha256 row now)
                (λ row'. still _ (report-still row')))).at
          s);
  }

  pub cancel-Evolution :
      (house actor session_id : String) (revision : ℕ) (key : String) (now : ℕ)
      → Moves Evolution (cancel_session sha256 house actor session_id revision key now)
  unfolding cancel_session cancel_block
  cancel-Evolution house actor session_id revision key now = record {
    at = λ s.
        let block = cancel_block sha256 house actor session_id revision key now in
        let m : Moves Evolution block =
          bind-Evolution (load house actor session_id) _
            (still _ (load-still house actor session_id))
            (λ row.
              bind-Evolution (expire_row sha256 row now) _ (expire_row-Evolution sha256 row now)
                (λ row'. cancel_row-Evolution actor key revision now row')) in
        subst (Evolution s) (sym (settled-state (commit_or_roll_back s (block s))))
          (committed-Evolution s (block s) (m.at s));
  }

  pub clear_active-Evolution :
      (active : Option ProvisioningSession) (now : ℕ)
      → Moves Evolution (clear_active sha256 active now)
  unfolding clear_active
  clear_active-Evolution none now = still _ (λ s. refl)
  clear_active-Evolution (some active) now =
      bind-Evolution (expire_row sha256 active now) _ (expire_row-Evolution sha256 active now)
        (λ active'. raise_if-still _ _)

  pub create_new-Evolution :
      (house actor : String) (request : ProvisioningStart) (supplied key_hash body_hash : String)
      (secrets : Secrets) (now : ℕ)
      → Moves Evolution
          (create_new sha256 house actor request supplied key_hash body_hash secrets now)
  unfolding create_new new_session
  create_new-Evolution house actor request supplied key_hash body_hash secrets now =
      bind-Evolution (gets (λ s. lookup request.room_id s.rooms)) _ (still _ (λ s. refl))
        (λ located.
          bind-Evolution (raise_if (is_elsewhere located house) not_found) _
            (raise_if-still (is_elsewhere located house) not_found)
            (λ _.
              bind-Evolution (claimable_device request.hardware_id supplied) _
                (still _ (claimable_device-still request.hardware_id supplied))
                (λ item.
                  bind-Evolution (gets (active_on item)) _
                    (still (gets (active_on item)) (λ s. refl))
                    (λ active.
                      bind-Evolution (clear_active sha256 active now) _
                        (clear_active-Evolution active now)
                        (λ _.
                          bind-Evolution
                            (insert_row (
                              new_session sha256 house actor request key_hash body_hash secrets
                                item.device_id now))
                            _
                            (insert_row-Evolution
                              (new_session sha256 house actor request key_hash body_hash secrets
                                item.device_id now)
                              refl refl)
                            (λ _.
                              still
                                (report (
                                  new_session sha256 house actor request key_hash body_hash secrets
                                    item.device_id now))
                                (report-still (
                                  new_session sha256 house actor request key_hash body_hash secrets
                                    item.device_id now))))))))

  pub create_again-Evolution :
      (previous : ProvisioningSession) (body_hash : String) (now : ℕ)
      → Moves Evolution (create_again sha256 previous body_hash now)
  unfolding create_again
  create_again-Evolution previous body_hash now =
      bind-Evolution (raise_if (not (str_eq previous.request_hash body_hash)) conflict) _
        (raise_if-still (not (str_eq previous.request_hash body_hash)) conflict)
        (λ _.
          bind-Evolution (expire_row sha256 previous now) _
            (expire_row-Evolution sha256 previous now)
            (λ previous'. still _ (report-still previous')))

  pub create_block-Evolution :
      (house actor : String) (request : ProvisioningStart) (supplied key_hash body_hash : String)
      (secrets : Secrets) (now : ℕ)
      → Moves Evolution
          (create_block sha256 house actor request supplied key_hash body_hash secrets now)
  unfolding create_block
  create_block-Evolution house actor request supplied key_hash body_hash secrets now =
      bind-Evolution (authorize house actor) _ (still _ (authorize-still house actor)) (λ _.
        bind-Evolution (gets (created_with house actor key_hash)) _
          (still (gets (created_with house actor key_hash)) (λ s. refl)) go)
    where
      go :
          (previous : Option ProvisioningSession)
          → Moves Evolution (elim previous as (λ _. Exec Registry PublicStatus) [
            | some found ↦ create_again sha256 found body_hash now
            | none ↦ create_new sha256 house actor request supplied key_hash body_hash secrets now
          ])
      go none = create_new-Evolution house actor request supplied key_hash body_hash secrets now
      go (some found) = create_again-Evolution found body_hash now
