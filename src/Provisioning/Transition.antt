-- ===== src/Provisioning/Transition.antt =====
-- What one call of `transition` does (app/services/provisioning_state.py).
use kz_home_core.Common.{
  ℕ, ◌+◌, ◌≤◌, ◌<◌, String, Bool, true, false, not, ◌&&◌, Option, none, some, ◌≡◌, refl, sym, subst,
  ◌≢◌, leb, is_some, bool_eq, Result, ok, err, value_error, provisioning_expired, arith,
}
use kz_home_core.Identifiers.{is_token, is_hex_digest}
use kz_home_core.Provisioning.State.{
  ProvisioningStatus, discovered, awaiting_confirmation, registered, connected, error, expired,
  cancelled, ProvisioningErrorCode, ProvisioningEvent, proof_verified, confirm, device_connected,
  fail, cancel, expire, Datetime, ProvisioningState, is_discovered, is_error, is_expire, is_fail,
  needs_proof, is_terminal, public_status_valid, post_init, target_of, finish, transition,
}

-- The table of moves: which event leads from which status to which.
abbrev pub edge : ProvisioningStatus → ProvisioningEvent → Option ProvisioningStatus
edge discovered proof_verified = some awaiting_confirmation
edge awaiting_confirmation confirm = some registered
edge registered device_connected = some connected
edge discovered cancel = some cancelled
edge awaiting_confirmation cancel = some cancelled
edge registered cancel = some cancelled
edge discovered fail = some error
edge awaiting_confirmation fail = some error
edge registered fail = some error
edge discovered expire = some expired
edge awaiting_confirmation expire = some expired
edge registered expire = some expired
edge _ _ = none

-- Only PROOF_VERIFIED consumes the proof.
abbrev pub proof_after : ProvisioningEvent → Bool → Bool
proof_after proof_verified _ = true
proof_after _ consumed = consumed

-- What `__post_init__` demands of a snapshot.
pub record IsValid (s : ProvisioningState) : Type 0 where
  pub created_aware : s.created_at.is_aware ≡ true
  pub expires_aware : s.expires_at.is_aware ≡ true
  pub ordered : s.created_at.micros < s.expires_at.micros
  pub hashed : is_hex_digest s.challenge_hash ≡ true
  pub unproven : (is_discovered s.status && s.proof_consumed) ≡ false
  pub proven : (needs_proof s.status && not s.proof_consumed) ≡ false
  pub error_matches : bool_eq (is_error s.status) (is_some s.error_code) ≡ true
  pub public : public_status_valid s ≡ true

pub post_init_accepts : (s : ProvisioningState) → IsValid s → post_init s ≡ ok s
unfolding post_init
post_init_accepts s v = ground arith

pub post_init_inverts : (s t : ProvisioningState) → post_init s ≡ ok t → IsValid s × (t ≡ s)
unfolding post_init
post_init_inverts s t h = ground arith

-- The snapshot that a move from `s` to `target` leaves behind.
abbrev pub moved :
    ProvisioningState → ProvisioningStatus → Bool → Option ProvisioningErrorCode → ProvisioningState
moved s target consumed error_code = record s {
  status = target;
  revision = s.revision + 1;
  proof_consumed = consumed;
  error_code = error_code;
}

-- The ladder only offers targets that the table of moves allows, and only PROOF_VERIFIED changes
-- the proof flag.
target_of-edge :
    (sha256 : String → String) (s : ProvisioningState) (event : ProvisioningEvent) (now : Datetime)
    (challenge : Option String) (error_code : Option ProvisioningErrorCode)
    (target : ProvisioningStatus) (consumed : Bool)
    → is_terminal s.status ≡ false
    → target_of sha256 s event now challenge error_code ≡ ok (some (target, consumed))
    → (edge s.status event ≡ some target) × (consumed ≡ proof_after event s.proof_consumed)
unfolding target_of
target_of-edge sha256 s proof_verified now challenge error_code target consumed live h =
    ground arith
target_of-edge sha256 s _ now challenge error_code target consumed live h = ground arith

finish-moved :
    (s t : ProvisioningState) (error_code : Option ProvisioningErrorCode)
    (r : Result (Option (ProvisioningStatus × Bool)))
    → finish s error_code r ≡ ok t
    → (target : ProvisioningStatus) × (consumed : Bool) × (r ≡ ok (some (target, consumed)))
      × (t ≡ moved s target consumed error_code)
      × IsValid t
unfolding finish
finish-moved s t error_code (err e) h = absurd (ground arith)
finish-moved s t error_code (ok none) h = absurd (ground arith)
finish-moved s t error_code (ok (some (target, consumed))) h =
    let (v, e) = post_init_inverts (moved s target consumed error_code) t h in
    (target, consumed, refl, e, subst IsValid (sym e) v)

-- The guards in front of the ladder.
transition_guards :
    (sha256 : String → String) (s t : ProvisioningState) (event : ProvisioningEvent)
    (expected_revision : ℕ) (now : Datetime) (challenge : Option String)
    (error_code : Option ProvisioningErrorCode)
    → transition sha256 s event expected_revision now challenge error_code ≡ ok t
    → (finish s error_code (target_of sha256 s event now challenge error_code) ≡ ok t)
      × (expected_revision ≡ s.revision)
      × (s.created_at.micros ≤ now.micros)
      × (is_terminal s.status ≡ false)
      × ((leb s.expires_at.micros now.micros && not (is_expire event)) ≡ false)
unfolding transition
transition_guards sha256 s t event expected_revision now challenge error_code h = ground arith

-- EXPIRE finds a target only at or after the expiry.
expire_late :
    (sha256 : String → String) (s : ProvisioningState) (event : ProvisioningEvent) (now : Datetime)
    (challenge : Option String) (error_code : Option ProvisioningErrorCode)
    (target : ProvisioningStatus) (consumed : Bool)
    → target_of sha256 s event now challenge error_code ≡ ok (some (target, consumed))
    → (leb s.expires_at.micros now.micros && not (is_expire event)) ≡ false
    → leb s.expires_at.micros now.micros ≡ is_expire event
unfolding target_of
expire_late sha256 s expire now challenge error_code target consumed h g = ground arith
expire_late sha256 s _ now challenge error_code target consumed h g = ground arith

-- A successful transition follows the table of moves from a status that is not terminal, with the
-- expected revision and not before the creation time, before the expiry unless the event is EXPIRE
-- and at or after it if it is; it adds one to the revision, sets the error code to the one given,
-- consumes the proof only on PROOF_VERIFIED, changes nothing else, and leaves a valid snapshot.
pub transition-edge :
    (sha256 : String → String) (s t : ProvisioningState) (event : ProvisioningEvent)
    (expected_revision : ℕ) (now : Datetime) (challenge : Option String)
    (error_code : Option ProvisioningErrorCode)
    → transition sha256 s event expected_revision now challenge error_code ≡ ok t
    → (edge s.status event ≡ some t.status)
      × (expected_revision ≡ s.revision)
      × (s.created_at.micros ≤ now.micros)
      × (leb s.expires_at.micros now.micros ≡ is_expire event)
      × (t ≡ moved s t.status (proof_after event s.proof_consumed) error_code)
      × IsValid t
transition-edge sha256 s t event expected_revision now challenge error_code h =
    let (f, revision, created, live, early) =
      transition_guards sha256 s t event expected_revision now challenge error_code h in
    let (target, consumed, r, e, v) =
      finish-moved s t error_code (target_of sha256 s event now challenge error_code) f in
    let (on_table, flag) =
      target_of-edge sha256 s event now challenge error_code target consumed live r in
    let late = expire_late sha256 s event now challenge error_code target consumed r early in
    (ground arith, revision, created, late, ground arith, v)

expired-IsValid :
    (s : ProvisioningState)
    → IsValid s
    → is_terminal s.status ≡ false
    → IsValid (moved s expired s.proof_consumed none)
unfolding public_status_valid
expired-IsValid s v live = ground arith

finish-expired :
    (sha256 : String → String) (s : ProvisioningState) (now : Datetime)
    → s.expires_at.micros ≤ now.micros
    → finish s none (target_of sha256 s expire now none none)
      ≡ post_init (moved s expired s.proof_consumed none)
unfolding target_of finish post_init
finish-expired sha256 s now late = ground arith

-- From a valid snapshot that is not terminal, at its own revision and an aware time from its
-- creation on: once the attempt has expired, every event but EXPIRE raises "expired", and EXPIRE
-- with no challenge and no error code always succeeds.
pub transition-expired :
    (sha256 : String → String) (s : ProvisioningState) (event : ProvisioningEvent) (now : Datetime)
    (challenge : Option String) (error_code : Option ProvisioningErrorCode)
    → IsValid s
    → is_terminal s.status ≡ false
    → now.is_aware ≡ true
    → s.expires_at.micros ≤ now.micros
    → is_expire event ≡ false
    → (transition sha256 s event s.revision now challenge error_code ≡ err provisioning_expired)
      × (transition sha256 s expire s.revision now none none
          ≡ ok (moved s expired s.proof_consumed none))
unfolding transition
transition-expired sha256 s event now challenge error_code v live aware late other = (
  ground (arith, v.ordered),
  ground (
    arith,
    v.ordered,
    finish-expired sha256 s now late,
    post_init_accepts (moved s expired s.proof_consumed none) (expired-IsValid s v live),
  ),
)

-- What the ladder offers passes the checks of `__post_init__`, if the error code is the event's.
target_of-IsValid :
    (sha256 : String → String) (s : ProvisioningState) (event : ProvisioningEvent) (now : Datetime)
    (challenge : Option String) (error_code : Option ProvisioningErrorCode)
    (target : ProvisioningStatus) (consumed : Bool)
    → IsValid s
    → is_terminal s.status ≡ false
    → (is_some error_code && not (is_fail event)) ≡ false
    → target_of sha256 s event now challenge error_code ≡ ok (some (target, consumed))
    → IsValid (moved s target consumed error_code)
unfolding target_of public_status_valid
target_of-IsValid sha256 s proof_verified now challenge error_code target consumed v live g h =
    ground arith
target_of-IsValid sha256 s _ now challenge error_code target consumed v live g h = ground arith

target_of-ne-value_error :
    (sha256 : String → String) (s : ProvisioningState) (event : ProvisioningEvent) (now : Datetime)
    (challenge : Option String) (error_code : Option ProvisioningErrorCode)
    → ((c : String) → challenge ≡ some c → is_token c ≡ true)
    → target_of sha256 s event now challenge error_code ≢ err value_error
unfolding target_of
target_of-ne-value_error sha256 s proof_verified now none error_code token h = ground arith
target_of-ne-value_error sha256 s proof_verified now (some c) error_code token h =
    ground (arith, token c refl)
target_of-ne-value_error sha256 s _ now challenge error_code token h = ground arith

finish-ne-value_error :
    (s : ProvisioningState) (error_code : Option ProvisioningErrorCode)
    (r : Result (Option (ProvisioningStatus × Bool)))
    → ((target : ProvisioningStatus) (consumed : Bool)
        → r ≡ ok (some (target, consumed))
        → IsValid (moved s target consumed error_code))
    → r ≢ err value_error
    → finish s error_code r ≢ err value_error
unfolding finish
finish-ne-value_error s error_code (err e) valid ne h = ne (ground arith)
finish-ne-value_error s error_code (ok none) valid ne h = ground arith
finish-ne-value_error s error_code (ok (some (target, consumed))) valid ne h =
    cc (post_init_accepts (moved s target consumed error_code) (valid target consumed refl))

-- From a valid snapshot, at an aware time and with a challenge that is absent or well formed, a
-- transition never raises a plain ValueError: the checks of `__post_init__` accept every snapshot
-- that the ladder builds.
transition-ne-value_error :
    (sha256 : String → String) (s : ProvisioningState) (event : ProvisioningEvent)
    (expected_revision : ℕ) (now : Datetime) (challenge : Option String)
    (error_code : Option ProvisioningErrorCode)
    → IsValid s
    → now.is_aware ≡ true
    → ((c : String) → challenge ≡ some c → is_token c ≡ true)
    → transition sha256 s event expected_revision now challenge error_code ≢ err value_error
unfolding transition
transition-ne-value_error sha256 s event expected_revision now challenge error_code v aware token
      h =
    ground (
      arith,
      finish-ne-value_error s error_code (target_of sha256 s event now challenge error_code)
          (λ target consumed e.
            target_of-IsValid sha256 s event now challenge error_code target consumed v
              (ground arith) (ground arith) e)
          (target_of-ne-value_error sha256 s event now challenge error_code token),
    )
