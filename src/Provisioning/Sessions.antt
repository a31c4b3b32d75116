-- ===== src/Provisioning/Sessions.antt =====
-- The table of app/models/provisioning_session.py, and the steps on it that the methods of
-- `ProvisioningService` share (app/services/provisioning_service.py). Times are aware; the identifier of a
-- row, made by `uuid4`, is a UUID.
use kz_home_core.Common.{
  ℕ, String, Bool, true, false, not, ◌&&◌, ◌||◌, Option, none, some, List, str_eq, leb, ◌==◌,
  is_none, length, keep, find, update, contains, if◌then◌else◌, Exec, Result, ok, err, conflict,
  not_found, forbidden, pure, gets, ◌>>=◌, ◌>>◌,
}
use kz_home_core.Database.{PhysicalDevice}
use kz_home_core.Access.Roles.{device_onboard}
use kz_home_core.Access.Members.{Membership, is_of, has_permission}
use kz_home_core.Access.Sessions.{User}
use kz_home_core.Provisioning.State.{
  ProvisioningStatus, discovered, awaiting_confirmation, registered, connected, error, expired,
  cancelled, ProvisioningEvent, expire, Datetime, ProvisioningState, ProvisioningErrorCode,
  is_discovered, post_init, transition,
}

-- `ProvisioningSessionORM`
pub record ProvisioningSession : Type 0 where
  pub id : String
  pub house_id : String
  pub room_id : String
  pub device_id : String
  pub actor_id : String
  pub name : String
  pub status : ProvisioningStatus
  pub revision : ℕ
  pub created_at : ℕ
  pub expires_at : ℕ
  pub challenge_hash : String
  pub token_hash : String
  pub create_key_hash : String
  pub request_hash : String
  pub cancel_key_hash : Option String
  pub cancel_actor_id : Option String
  pub cancel_revision : Option ℕ

-- The tables that the service reads, and the sessions, which it writes.
pub record Registry : Type 0 where
  pub sessions : List ProvisioningSession
  pub houses : List String
  pub rooms : List (String × String)
  pub memberships : List Membership
  pub users : List User
  pub physical_devices : List PhysicalDevice

pub record ProvisioningStart : Type 0 where
  pub hardware_id : String
  pub room_id : String
  pub name : String
  pub claim_code : String

-- `ProvisioningPublicStatus`
pub record PublicStatus : Type 0 where
  pub session_id : String
  pub house_id : String
  pub device_id : String
  pub room_id : String
  pub status : ProvisioningStatus
  pub revision : ℕ
  pub expires_at : ℕ
  pub error_code : Option ProvisioningErrorCode

-- The identifier and the two secrets of a new row.
pub record Secrets : Type 0 where
  pub id : String
  pub challenge : String
  pub token : String

-- Five minutes.
abbrev pub ttl : ℕ
ttl = 300_000_000

abbrev pub aware : ℕ → Datetime
aware t = record { micros = t; is_aware = true }

abbrev pub same_status : ProvisioningStatus → ProvisioningStatus → Bool
same_status discovered discovered = true
same_status awaiting_confirmation awaiting_confirmation = true
same_status registered registered = true
same_status connected connected = true
same_status error error = true
same_status expired expired = true
same_status cancelled cancelled = true
same_status _ _ = false

-- `_authorize`
unfoldable pub authorize : String → String → Exec Registry (Unit {0})
authorize house actor s =
    if not (contains house s.houses)
    then (err not_found, s)
    else (let membership = find (is_of actor house) s.memberships in
        elim (find (λ u. str_eq u.id actor) s.users) [
          | none ↦ (err not_found, s)
          | some user ↦
              (if not user.is_active || is_none membership
                then (err not_found, s)
                else if not (has_permission membership device_onboard)
                then (err forbidden, s)
                else (ok tt, s))
        ])

-- The state that `_state` builds.
unfoldable pub machine : ProvisioningSession → ProvisioningState
machine row = record {
  session_id = row.id;
  house_id = row.house_id;
  device_id = row.device_id;
  room_id = row.room_id;
  created_at = aware row.created_at;
  expires_at = aware row.expires_at;
  challenge_hash = row.challenge_hash;
  status = row.status;
  revision = row.revision;
  proof_consumed = false;
  error_code = none;
}

-- `_state`
unfoldable pub state_of : ProvisioningSession → Result ProvisioningState
unfolding machine
state_of row = post_init (machine row)

unfoldable pub public_of : ProvisioningState → PublicStatus
public_of s = record {
  session_id = s.session_id;
  house_id = s.house_id;
  device_id = s.device_id;
  room_id = s.room_id;
  status = s.status;
  revision = s.revision;
  expires_at = s.expires_at.micros;
  error_code = s.error_code;
}

-- `self._state(row).public_status()`
unfoldable pub report : ProvisioningSession → Exec Registry PublicStatus
unfolding state_of public_of
report row s = elim (state_of row) [ ok state ↦ (ok (public_of state), s) | err e ↦ (err e, s) ]

-- The WHERE of `_apply`: the row at the revision and status that were read.
abbrev pub is_at : ProvisioningSession → ProvisioningSession → Bool
is_at row r = str_eq r.id row.id && (r.revision == row.revision && same_status r.status row.status)

-- The values that `_apply` writes; `stamp` is who cancels, if anyone does.
abbrev pub write :
    ProvisioningState → Option (String × (String × ℕ)) → ProvisioningSession → ProvisioningSession
write new none r = record r { status = new.status; revision = new.revision }
write new (some (key, (actor, revision))) r = record r {
  status = new.status;
  revision = new.revision;
  cancel_key_hash = some key;
  cancel_actor_id = some actor;
  cancel_revision = some revision;
}

-- `_load`
unfoldable pub load : String → String → String → Exec Registry ProvisioningSession
load house actor session_id = do
  authorize house actor
  found ← gets (λ s. find (λ r. str_eq r.id session_id && str_eq r.house_id house) s.sessions)
  (λ s. elim found [ none ↦ (err not_found, s) | some row ↦ (ok row, s) ])

-- The conditional UPDATE of `_apply`; the row is read again.
unfoldable pub swap :
    ProvisioningSession
    → ProvisioningState
    → Option (String × (String × ℕ))
    → Exec Registry ProvisioningSession
swap row new stamp s =
    if not (length (keep (is_at row) s.sessions) == 1) then (err conflict, s) else (
      ok (write new stamp row),
      record s { sessions = update (is_at row) (write new stamp) s.sessions },
    )

module _ (sha256 : String → String) where
  -- The transition that `_apply` asks the machine for.
  unfoldable pub step : ProvisioningSession → ProvisioningEvent → ℕ → Result ProvisioningState
  unfolding state_of
  step row event now = elim (state_of row) [
    | err e ↦ err e
    | ok state ↦ transition sha256 state event row.revision (aware now) none none
  ]

  -- `_apply`
  unfoldable pub apply :
      ProvisioningSession
      → ProvisioningEvent
      → ℕ
      → Option (String × (String × ℕ))
      → Exec Registry ProvisioningSession
  unfolding step swap
  apply row event now stamp s = elim (step row event now) [
    | err e ↦ (err e, s)
    | ok new ↦ swap row new stamp s
  ]

  -- `_expire`
  unfoldable pub expire_row : ProvisioningSession → ℕ → Exec Registry ProvisioningSession
  expire_row row now =
      if is_discovered row.status && leb row.expires_at now
      then apply row expire now none
      else pure row
