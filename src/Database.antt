-- ===== src/Database.antt =====
-- The tables that the command path reads and writes, and one session over them:
-- app/models/device_command.py, app/models/control_command.py, app/models/physical_device.py and
-- the part of app/models/entities.py that a device's house is read from. Times are microseconds;
-- the JSON texts on the wire are the records of their fields.
use kz_home_core.Common.{
  ℕ, String, Bool, true, false, not, ◌&&◌, ◌||◌, Option, none, some, List, str_eq, any, find,
  update, ltb,
}
use kz_home_core.StateValidator.{State}

pub data CommandStatus : Type 0 where
  queued dispatched applied failed timed_out : CommandStatus

pub data AckStatus : Type 0 where
  accepted applied rejected failed : AckStatus

pub data FailureCode : Type 0 where
  device_rejected device_failed publish_unconfirmed deadline_exceeded : FailureCode

-- `DeviceCommandORM`
pub record DeviceCommand : Type 0 where
  pub command_id : String
  pub correlation_id : String
  pub house_id : String
  pub device_id : String
  pub requested_by : String
  pub idempotency_hash : String
  pub requested_on : Bool
  pub status : CommandStatus
  pub ack_status : Option AckStatus
  pub reported_on : Option Bool
  pub failure_code : Option FailureCode
  pub created_at : ℕ
  pub updated_at : ℕ
  pub expires_at : ℕ
  pub dispatch_started_at : Option ℕ
  pub dispatched_at : Option ℕ
  pub ack_received_at : Option ℕ
  pub state_received_at : Option ℕ
  pub completed_at : Option ℕ

-- The fields of the control command on the wire.
pub record Wire : Type 0 where
  pub core_epoch : String
  pub command_id : String
  pub correlation_id : String
  pub timestamp : ℕ
  pub expires_at : ℕ
  pub on : Bool

-- `ControlCommandORM`
pub record ControlCommand : Type 0 where
  pub command_id : String
  pub execution_profile : String
  pub authority_epoch : String
  pub wire_payload : Wire
  pub wire_sha256 : String
  pub permit_binding_sha256 : Option String

pub data PhysicalStatus : Type 0 where
  unprovisioned provisioning active inactive revoked : PhysicalStatus

-- `PhysicalDeviceORM`
pub record PhysicalDevice : Type 0 where
  pub device_id : String
  pub hardware_id : String
  pub hardware_model : String
  pub status : PhysicalStatus
  pub claim_code_hash : Option String
  pub house_id : Option String
  pub bound_device_id : Option String

-- `DeviceORM`, with the house that its room and floor lead to.
pub record Device : Type 0 where
  pub id : String
  pub house_id : String
  pub type : String
  pub capabilities : List String
  pub online : Bool
  pub state : State

pub record Database : Type 0 where
  pub commands : List DeviceCommand
  pub controls : List ControlCommand
  pub physical_devices : List PhysicalDevice
  pub devices : List Device

-- `status.in_(PENDING)`
abbrev pub is_pending : CommandStatus → Bool
is_pending queued = true
is_pending dispatched = true
is_pending _ = false

abbrev pub is_active : PhysicalStatus → Bool
is_active active = true
is_active _ = false

-- `CommandRepository.find(command_id=…)`, and the same for the control record.
unfoldable pub command_by_id : String → Database → Option DeviceCommand
command_by_id command_id db = find (λ r. str_eq r.command_id command_id) db.commands

unfoldable pub control_by_id : String → Database → Option ControlCommand
control_by_id command_id db = find (λ r. str_eq r.command_id command_id) db.controls

-- `CommandRepository.pending`
unfoldable pub pending : String → Database → Option DeviceCommand
pending device_id db = find (λ r. str_eq r.device_id device_id && is_pending r.status) db.commands

unfoldable pub physical_by_device : String → Database → Option PhysicalDevice
physical_by_device device_id db = find (λ r. str_eq r.device_id device_id) db.physical_devices

unfoldable pub device_by_id : String → Database → Option Device
device_by_id device_id db = find (λ r. str_eq r.id device_id) db.devices

-- A row that the constraints do not let stand beside a new one: the two keys, the idempotency
-- triple, and one pending command for a device.
unfoldable pub excludes : DeviceCommand → DeviceCommand → Bool
excludes row r =
    str_eq r.command_id row.command_id
    || (str_eq r.correlation_id row.correlation_id
        || ((str_eq r.house_id row.house_id
              && (str_eq r.requested_by row.requested_by
                  && str_eq r.idempotency_hash row.idempotency_hash))
            || (str_eq r.device_id row.device_id
                && (is_pending r.status && is_pending row.status))))

-- The constraints that a new command row can break: those, and a deadline after the creation.
unfoldable pub command_conflicts : DeviceCommand → Database → Bool
command_conflicts row db = not (ltb row.created_at row.expires_at) || any (excludes row) db.commands

-- A write to the row of one command.
abbrev pub set_command : DeviceCommand → Database → Database
set_command row db = record db {
  commands = update (λ r. str_eq r.command_id row.command_id) (λ _. row) db.commands;
}

-- The house that the physical binding of a device names.
unfoldable pub bound_house : String → Database → Option String
bound_house device_id db =
    elim (find (λ r. elim r.bound_device_id [ none ↦ false | some bound ↦ str_eq bound device_id ])
      db.physical_devices) [ none ↦ none | some item ↦ item.house_id ]

-- The house of the device's room: `structure_house("device", …)`.
unfoldable pub located_house : String → Database → Option String
unfolding device_by_id
located_house device_id db = elim (device_by_id device_id db) [
  | none ↦ none
  | some device ↦ some device.house_id
]

-- `DeviceRepository.house_id`: a physical binding is the authority over the location.
unfoldable pub house_of_device : String → Database → Option String
unfolding bound_house located_house
house_of_device device_id db = elim (bound_house device_id db) [
  | none ↦ located_house device_id db
  | some house ↦ some house
]

-- `house_id(device) == house`, where a device that is not there has no house.
unfoldable pub is_in_house : String → String → Database → Bool
unfolding house_of_device
is_in_house device_id house db = elim (house_of_device device_id db) [
  | none ↦ false
  | some h ↦ str_eq h house
]
