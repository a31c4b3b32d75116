-- ===== src/Commands/Submit.antt =====
-- `CommandService.submit` (app/services/command_service.py) in its three stretches: the reservation
-- up to the commit in front of the network call, whatever other requests do while the call is
-- awaited, and the conclusion. With it the guard of app/services/onboarding_service.py. The transport,
-- the identifiers of `uuid4` and the SHA-256 of the key are arguments.
use kz_home_core.Common.{
  ℕ, ◌+◌, String, Bool, false, not, ◌&&◌, ◌||◌, Option, none, some, [], ◌∷◌, str_eq, bool_eq,
  is_some, or_else, if◌then◌else◌, find, contains, Exec, Result, ok, err, conflict, not_found,
  unavailable, invalid_reference, attribute_error, cancelled, pure, gets, raise_if, ◌>>=◌, ◌>>◌,
}
use kz_home_core.Clocks.Wall.{command_lifetime}
use kz_home_core.Clocks.CommandClock.{now}
use kz_home_core.Database.{
  Database, DeviceCommand, Device, queued, dispatched, failed, publish_unconfirmed, is_pending,
  is_active, command_by_id, pending, physical_by_device, device_by_id, located_house, is_in_house,
  command_conflicts,
}
use kz_home_core.System.{System, on_command_clock, commit, roll_back}
use kz_home_core.StateValidator.{boolean, validate_command}
use kz_home_core.Commands.Defs.{expire, finish, store, get}

-- What the caller asks for.
pub record Intent : Type 0 where
  pub house_id : String
  pub device_id : String
  pub user_id : String
  pub key_hash : String
  pub on : Bool

-- The transport as `submit` sees it: there or not, connected or not, and `authorize_command`.
pub record Transport : Type 0 where
  pub is_connected : Bool
  pub authorize : String → String → Result (Unit {0})

pub record Fresh : Type 0 where
  pub command_id : String
  pub correlation_id : String

-- How the awaited `send_command` ended.
pub data Delivery : Type 0 where
  published publish_failed publish_cancelled : Delivery

-- What a reservation gives: the command of an earlier request with this key, or a new one.
pub data Reservation : Type 0 where
  repeated : DeviceCommand → Reservation
  reserved : DeviceCommand → Reservation

abbrev pub lift : {A : Type 0} → Result A → Exec System A
lift r s = (r, s)

-- `PhysicalBindingGuard.require_active`
unfoldable pub require_active : String → Exec System (Unit {0})
require_active device_id s = elim (physical_by_device device_id s.db) [
  | none ↦ (ok tt, s)
  | some item ↦
      (if not (is_active item.status)
        then (err conflict, s)
        else elim (located_house device_id s.db) [
          | none ↦ (err not_found, s)
          | some house ↦
              (if (elim item.house_id [ none ↦ false | some h ↦ str_eq house h ])
                then (ok tt, s)
                else (err conflict, s))
        ])
]

-- `PhysicalBindingGuard.require_command_contract`
unfoldable pub require_command_contract : String → Exec System (Unit {0})
require_command_contract device_id s =
    if is_some (physical_by_device device_id s.db) then (err conflict, s) else (ok tt, s)

-- `CommandRepository.lock_device`
unfoldable pub lock_device : String → Exec System Device
lock_device device_id s = elim (device_by_id device_id s.db) [
  | none ↦ (err not_found, s)
  | some device ↦ (ok device, s)
]

-- The command that an earlier request with this key made.
unfoldable pub previous_command : Intent → Database → Option DeviceCommand
previous_command intent db =
    find
      (λ r.
        str_eq r.house_id intent.house_id
        && (str_eq r.requested_by intent.user_id && str_eq r.idempotency_hash intent.key_hash))
      db.commands

-- The answer to a repeated key.
unfoldable pub repeat : Intent → DeviceCommand → Exec System Reservation
repeat intent row = do
  raise_if (not (str_eq row.device_id intent.device_id) || not (bool_eq row.requested_on intent.on))
      conflict
  row' ← expire row
  store row'
  commit
  pure (repeated row')

-- A pending command of the device must have run out.
unfoldable pub clear_pending : Option DeviceCommand → Exec System (Unit {0})
clear_pending none s = (ok tt, s)
clear_pending (some row) s =
    (do row' ← expire row; store row'; raise_if (is_pending row'.status) conflict) s

unfoldable pub new_row : Intent → Fresh → ℕ → DeviceCommand
new_row intent fresh time = record {
  command_id = fresh.command_id;
  correlation_id = fresh.correlation_id;
  house_id = intent.house_id;
  device_id = intent.device_id;
  requested_by = intent.user_id;
  idempotency_hash = intent.key_hash;
  requested_on = intent.on;
  status = queued;
  ack_status = none;
  reported_on = none;
  failure_code = none;
  created_at = time;
  updated_at = time;
  expires_at = time + command_lifetime;
  dispatch_started_at = some time;
  dispatched_at = none;
  ack_received_at = none;
  state_received_at = none;
  completed_at = none;
}

-- `session.add(row)` and the commit; a broken constraint rolls back.
unfoldable pub insert_command : DeviceCommand → Exec System (Unit {0})
insert_command row s =
    if command_conflicts row s.db
    then (err conflict, roll_back s)
    else (let db : Database = record s.db { commands = row ∷ s.db.commands } in
        (ok tt, record s { db = db; saved = db }))

-- The checks on the device, its pending command and the transport.
unfoldable pub admit : Transport → Intent → Device → Exec System (Unit {0})
admit transport intent device = do
  raise_if (not (str_eq device.type "relay") || not (contains "on_off" device.capabilities))
      invalid_reference
  lift (validate_command device.capabilities (("on", boolean intent.on) ∷ []))
  waiting ← gets (λ s. pending intent.device_id s.db)
  clear_pending waiting
  raise_if (not device.online) conflict
  raise_if (not transport.is_connected) unavailable
  lift (transport.authorize intent.house_id intent.device_id)

-- The new row, dated and committed.
unfoldable pub place : Intent → Fresh → Exec System Reservation
place intent fresh = do
  time ← on_command_clock now
  insert_command (new_row intent fresh time)
  pure (reserved (new_row intent fresh time))

-- A new command.
unfoldable pub create : Transport → Intent → Fresh → Device → Exec System Reservation
create transport intent fresh device = do
  require_command_contract intent.device_id
  admit transport intent device
  place intent fresh

-- The answer to the idempotency query.
unfoldable pub decide :
    Transport → Intent → Fresh → Device → Option DeviceCommand → Exec System Reservation
decide transport intent fresh device (some row) = repeat intent row
decide transport intent fresh device none = create transport intent fresh device

-- The part of `reserve` behind the device's row lock.
unfoldable pub reserve_locked : Transport → Intent → Fresh → Device → Exec System Reservation
reserve_locked transport intent fresh device s =
    if not (is_in_house intent.device_id intent.house_id s.db)
    then (err conflict, s)
    else decide transport intent fresh device (previous_command intent s.db) s

-- `submit` up to the commit in front of the network call.
unfoldable pub reserve : Transport → Intent → Fresh → Exec System Reservation
reserve transport intent fresh = do
  require_active intent.device_id
  device ← lock_device intent.device_id
  reserve_locked transport intent fresh device

-- A command that is still pending after the call has failed.
unfoldable pub mark_unconfirmed : DeviceCommand → Exec System DeviceCommand
mark_unconfirmed row =
    if is_pending row.status then finish failed (some publish_unconfirmed) row else pure row

-- A command that is still pending after the call has returned.
unfoldable pub mark_dispatched : DeviceCommand → Exec System DeviceCommand
mark_dispatched row =
    if is_pending row.status
    then (do
      time ←
          (if is_some row.dispatched_at
            then pure (or_else row.dispatched_at 0)
            else on_command_clock now)
      updated ← on_command_clock now
      pure (record row { status = dispatched; dispatched_at = some time; updated_at = updated }))
    else pure row

-- The handlers behind the awaited call.
unfoldable pub conclude : Delivery → String → Exec System (Unit {0})
conclude publish_cancelled command_id s = (err cancelled, s)
conclude published command_id s = elim (command_by_id command_id s.db) [
  | none ↦ (err attribute_error, s)
  | some row ↦ (do row' ← expire row; row'' ← mark_dispatched row'; store row''; commit) s
]
conclude publish_failed command_id s = elim (command_by_id command_id s.db) [
  | none ↦ (err attribute_error, s)
  | some row ↦ (do row' ← expire row; row'' ← mark_unconfirmed row'; store row''; commit) s
]

-- `submit`; `meanwhile` is what other requests do to the system while the call is awaited.
unfoldable pub submit :
    Transport → Intent → Fresh → (System → System) → Delivery → Exec System DeviceCommand
submit transport intent fresh meanwhile delivery = do
  reservation ← reserve transport intent fresh
  elim reservation [
    | repeated row ↦ pure row
    | reserved row ↦ (do
      (λ s. (ok tt, meanwhile s))
      conclude delivery row.command_id
      get intent.house_id row.command_id)
  ]
