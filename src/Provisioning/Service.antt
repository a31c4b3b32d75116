-- ===== src/Provisioning/Service.antt =====
-- The methods of `ProvisioningService` (app/services/provisioning_service.py). Every method is one
-- transaction. SHA-256, the digest of the request's JSON text and the drawn identifiers and secrets are
-- arguments, and so is the time that `_now` reads.
use kz_home_core.Common.{
  ℕ, ◌+◌, String, Bool, true, false, not, ◌&&◌, ◌||◌, Option, none, some, ◌∷◌, str_eq, ltb, ◌==◌,
  or_else, find, any, lookup, if◌then◌else◌, Exec, Result, ok, err, conflict, not_found, pure, gets,
  raise_if, commit_or_roll_back, ◌>>=◌, ◌>>◌,
}
use kz_home_core.Database.{PhysicalDevice}
use kz_home_core.Onboarding.Service.{is_unprovisioned, has_hardware, claim_digest}
use kz_home_core.Provisioning.State.{discovered, cancel, is_discovered}
use kz_home_core.Provisioning.Sessions.{
  ProvisioningSession, Registry, ProvisioningStart, PublicStatus, Secrets, ttl, authorize, report,
  apply, expire_row, load,
}

-- What `cancel` does behind the commit.
abbrev pub settle_cancel : Result (Bool × PublicStatus) × Registry → Result PublicStatus × Registry
settle_cancel (err e, s) = (err e, s)
settle_cancel (ok (true, result), s) = (err conflict, s)
settle_cancel (ok (false, result), s) = (ok result, s)

-- A row that the table's keys do not let stand beside a new one.
unfoldable pub clashes : ProvisioningSession → ProvisioningSession → Bool
clashes row r =
    str_eq r.id row.id
    || ((str_eq r.house_id row.house_id
          && (str_eq r.actor_id row.actor_id && str_eq r.create_key_hash row.create_key_hash))
        || (str_eq r.device_id row.device_id
            && (is_discovered r.status && is_discovered row.status)))

-- `session.add(row)` and the flush.
unfoldable pub insert_row : ProvisioningSession → Exec Registry (Unit {0})
unfolding clashes
insert_row row s =
    if not (ltb row.created_at row.expires_at) || any (clashes row) s.sessions
    then (err conflict, s)
    else (ok tt, record s { sessions = row ∷ s.sessions })

-- The digest that is compared when no device or no code is there: "0" * 64.
abbrev pub no_digest : String
no_digest = "0000000000000000000000000000000000000000000000000000000000000000"

-- The device that the code claims.
unfoldable pub claimable_device : String → String → Exec Registry PhysicalDevice
claimable_device hardware supplied s = elim (find (has_hardware hardware) s.physical_devices) [
  | none ↦ (err not_found, s)
  | some item ↦
      (if not (is_unprovisioned item.status)
          || not (str_eq (or_else item.claim_code_hash no_digest) supplied)
        then (err not_found, s)
        else (ok item, s))
]

-- The house that a room was found in is another one, or there is no room.
abbrev pub is_elsewhere : Option String → String → Bool
is_elsewhere located house = not (elim located [ none ↦ false | some h ↦ str_eq h house ])

-- The row was cancelled with another revision.
abbrev pub is_other_revision : ProvisioningSession → ℕ → Bool
is_other_revision row revision =
    not (elim row.cancel_revision [ none ↦ false | some r ↦ r == revision ])

-- The query for the attempt that is active on a device.
abbrev pub active_on : PhysicalDevice → Registry → Option ProvisioningSession
active_on item s =
    find (λ r. str_eq r.device_id item.device_id && is_discovered r.status) s.sessions

-- The query for the attempt that was created with the key.
abbrev pub created_with : String → String → String → Registry → Option ProvisioningSession
created_with house actor key_hash s =
    find
      (λ r.
        str_eq r.house_id house && (str_eq r.actor_id actor && str_eq r.create_key_hash key_hash))
      s.sessions

module _ (sha256 : String → String) where
  -- The row was cancelled with the same key, by the same actor.
  abbrev pub is_repeat : String → String → ProvisioningSession → Bool
  is_repeat actor key row =
      elim row.cancel_key_hash [ none ↦ false | some k ↦ str_eq k (sha256 key) ]
      && elim row.cancel_actor_id [ none ↦ false | some a ↦ str_eq a actor ]

  -- `get`
  unfoldable pub get : String → String → String → ℕ → Exec Registry PublicStatus
  get house actor session_id now s =
      commit_or_roll_back s
        ((do row ← load house actor session_id; row' ← expire_row sha256 row now; report row') s)

  -- The branches of `cancel` on the row after its expiry check: the flag `conflict`, and the result.
  unfoldable pub cancel_row :
      String → String → ℕ → ℕ → ProvisioningSession → Exec Registry (Bool × PublicStatus)
  cancel_row actor key revision now row =
      if is_repeat actor key row
      then (do
        raise_if (is_other_revision row revision) conflict
        result ← report row
        pure (false, result))
      else if not (row.revision == revision) || not (is_discovered row.status)
      then (do result ← report row; pure (true, result))
      else (do
        row' ← apply sha256 row cancel now (some (sha256 key, (actor, revision)))
        result ← report row'
        pure (false, result))

  -- The block of `cancel`.
  unfoldable pub cancel_block :
      String → String → String → ℕ → String → ℕ → Exec Registry (Bool × PublicStatus)
  unfolding cancel_row
  cancel_block house actor session_id revision key now = do
    row ← load house actor session_id
    row' ← expire_row sha256 row now
    cancel_row actor key revision now row'

  -- `cancel`
  unfoldable pub cancel_session :
      String → String → String → ℕ → String → ℕ → Exec Registry PublicStatus
  cancel_session house actor session_id revision key now s =
      settle_cancel (commit_or_roll_back s (cancel_block house actor session_id revision key now s))

  unfoldable pub new_session :
      String
      → String
      → ProvisioningStart
      → String
      → String
      → Secrets
      → String
      → ℕ
      → ProvisioningSession
  new_session house actor request key_hash body_hash secrets device_id now = record {
    id = secrets.id;
    house_id = house;
    room_id = request.room_id;
    device_id = device_id;
    actor_id = actor;
    name = request.name;
    status = discovered;
    revision = 0;
    created_at = now;
    expires_at = now + ttl;
    challenge_hash = sha256 secrets.challenge;
    token_hash = sha256 secrets.token;
    create_key_hash = key_hash;
    request_hash = body_hash;
    cancel_key_hash = none;
    cancel_actor_id = none;
    cancel_revision = none;
  }

  -- An active attempt on the device must have run out.
  unfoldable pub clear_active : Option ProvisioningSession → ℕ → Exec Registry (Unit {0})
  clear_active none now = pure tt
  clear_active (some active) now = do
    active' ← expire_row sha256 active now
    raise_if (is_discovered active'.status) conflict

  -- `create` for a key that is not in the table.
  unfoldable pub create_new :
      String
      → String
      → ProvisioningStart
      → String
      → String
      → String
      → Secrets
      → ℕ
      → Exec Registry PublicStatus
  unfolding new_session claimable_device clear_active
  create_new house actor request supplied key_hash body_hash secrets now = do
    located ← gets (λ s. lookup request.room_id s.rooms)
    raise_if (is_elsewhere located house) not_found
    item ← claimable_device request.hardware_id supplied
    active ← gets (active_on item)
    clear_active active now
    insert_row (new_session house actor request key_hash body_hash secrets item.device_id now)
    report (new_session house actor request key_hash body_hash secrets item.device_id now)

  -- `create` for a key that is.
  unfoldable pub create_again : ProvisioningSession → String → ℕ → Exec Registry PublicStatus
  create_again previous body_hash now = do
    raise_if (not (str_eq previous.request_hash body_hash)) conflict
    previous' ← expire_row sha256 previous now
    report previous'

  unfoldable pub create_block :
      String
      → String
      → ProvisioningStart
      → String
      → String
      → String
      → Secrets
      → ℕ
      → Exec Registry PublicStatus
  unfolding create_new create_again
  create_block house actor request supplied key_hash body_hash secrets now = do
    authorize house actor
    previous ← gets (created_with house actor key_hash)
    elim previous [
      | some row ↦ create_again row body_hash now
      | none ↦ create_new house actor request supplied key_hash body_hash secrets now
    ]

  module _ (body_digest : String → String → String → String → String) where
    -- `create`
    unfoldable pub create :
        String → String → ProvisioningStart → String → Secrets → ℕ → Exec Registry PublicStatus
    create house actor request key secrets now s = elim (claim_digest sha256 request.claim_code) [
      | err e ↦ (err e, s)
      | ok supplied ↦ commit_or_roll_back s (
          create_block house actor request supplied (sha256 key)
            (body_digest request.hardware_id request.room_id request.name supplied) secrets now s)
    ]
