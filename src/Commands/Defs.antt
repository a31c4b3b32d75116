-- ===== src/Commands/Defs.antt =====
-- `CommandService` (app/services/command_service.py): expiry, and the evidence handlers `ack` and
-- `state`. A method works on the row it has found and writes it back; `save` commits.
use kz_home_core.Common.{
  ℕ, String, Bool, true, false, not, ◌&&◌, ◌||◌, Option, none, some, str_eq, bool_eq, leb, is_some,
  if◌then◌else◌, find, Exec, ok, err, not_found, pure, ◌>>=◌, ◌>>◌,
}
use kz_home_core.Clocks.CommandClock.{now}
use kz_home_core.Clocks.ControlClock.{logical_now}
use kz_home_core.Database.{
  Database, DeviceCommand, ControlCommand, CommandStatus, dispatched, failed, timed_out, AckStatus,
  FailureCode, device_rejected, device_failed, deadline_exceeded, is_pending, control_by_id,
  set_command,
}
use kz_home_core.System.{System, on_authority, on_control_clock, on_command_clock, commit, change}
use kz_home_core.Authority.Defs.{expired}

-- `AckEnvelope` and `StateEnvelope` of app/transports/mqtt_models.py: the fields that are read.
-- `on` is the reported state where it is a bool.
pub record AckEnvelope : Type 0 where
  pub command_id : String
  pub correlation_id : String
  pub status : AckStatus

pub record StateEnvelope : Type 0 where
  pub correlation_id : String
  pub on : Option Bool

abbrev pub control_of : DeviceCommand → Database → Option ControlCommand
control_of row db = control_by_id row.command_id db

-- `event_time`
unfoldable pub event_time : DeviceCommand → Exec System ℕ
event_time row s = elim (control_of row s.db) [
  | none ↦ on_command_clock now s
  | some control ↦ on_control_clock logical_now s
]

-- The row with its final status, failure code and completion time.
abbrev pub completed : CommandStatus → Option FailureCode → ℕ → DeviceCommand → DeviceCommand
completed status code time row = record row {
  status = status;
  failure_code = code;
  updated_at = time;
  completed_at = some time;
}

-- `finish`; the row is assigned before the clock is read.
unfoldable pub finish :
    CommandStatus → Option FailureCode → DeviceCommand → Exec System DeviceCommand
unfolding event_time
finish status code row = do time ← event_time row; pure (completed status code time row)

-- Whether the deadline has passed: the authority decides for a control command, the dispatch clock
-- for any other.
unfoldable pub is_expired : DeviceCommand → Exec System Bool
is_expired row s = elim (control_of row s.db) [
  | none ↦ (do time ← on_command_clock now; pure (leb row.expires_at time)) s
  | some control ↦ on_authority (expired control) s
]

-- `expire` on a row whose deadline has passed.
unfoldable pub time_out : DeviceCommand → Exec System DeviceCommand
unfolding finish
time_out row s = elim (control_of row s.db) [
  | none ↦ finish timed_out (some deadline_exceeded) row s
  | some control ↦
      (do
        time ← on_control_clock logical_now
        pure (completed timed_out (some deadline_exceeded) time row))
        s
]

-- `if expired:` in `expire`
unfoldable pub settle_expiry : Bool → DeviceCommand → Exec System DeviceCommand
settle_expiry true row = time_out row
settle_expiry false row = pure row

-- `expire`
unfoldable pub expire : DeviceCommand → Exec System DeviceCommand
expire row s =
    if is_pending row.status
    then (do past ← is_expired row; settle_expiry past row) s
    else (ok row, s)

-- Write a row back, and `repository.save()`.
abbrev pub store : DeviceCommand → Exec System (Unit {0})
store row = change (set_command row)

-- `get`
unfoldable pub get : String → String → Exec System DeviceCommand
get house command_id s =
    elim (find (λ r. str_eq r.house_id house && str_eq r.command_id command_id) s.db.commands) [
      | none ↦ (err not_found, s)
      | some row ↦ (do row' ← expire row; store row'; commit; pure row') s
    ]

-- `permit_evidence`
unfoldable pub permit_evidence : DeviceCommand → Database → Bool
permit_evidence row db = elim (control_of row db) [
  | none ↦ true
  | some control ↦ is_some control.permit_binding_sha256
]

abbrev pub is_applied_ack : Option AckStatus → Bool
is_applied_ack (some AckStatus.applied) = true
is_applied_ack _ = false

abbrev pub is_negative : AckStatus → Bool
is_negative AckStatus.rejected = true
is_negative AckStatus.failed = true
is_negative _ = false

abbrev pub ack_eq : Option AckStatus → AckStatus → Bool
ack_eq (some AckStatus.accepted) AckStatus.accepted = true
ack_eq (some AckStatus.applied) AckStatus.applied = true
ack_eq (some AckStatus.rejected) AckStatus.rejected = true
ack_eq (some AckStatus.failed) AckStatus.failed = true
ack_eq _ _ = false

-- `row.reported_on == row.requested_on`
abbrev pub matches_request : Option Bool → Bool → Bool
matches_request none requested = false
matches_request (some reported) requested = bool_eq reported requested

-- The test of `confirm`.
unfoldable pub is_confirmed : DeviceCommand → Database → Bool
unfolding permit_evidence
is_confirmed row db =
    is_applied_ack row.ack_status
    && (permit_evidence row db
        && (is_some row.state_received_at && matches_request row.reported_on row.requested_on))

-- `confirm`
unfoldable pub confirm : DeviceCommand → Exec System DeviceCommand
unfolding is_confirmed finish
confirm row s =
    if is_confirmed row s.db then finish CommandStatus.applied none row s else (ok row, s)

-- `eligible` after its `expire`.
abbrev pub is_eligible : DeviceCommand → Bool → Bool
is_eligible row retained =
    not retained && (is_pending row.status && is_some row.dispatch_started_at)

-- `"device_" + envelope.status`
abbrev pub failure_of : AckStatus → FailureCode
failure_of AckStatus.rejected = device_rejected
failure_of _ = device_failed

-- The test under which an ACK changes the row.
abbrev pub accepts_ack : DeviceCommand → AckStatus → Bool
accepts_ack row status =
    is_negative status
    || (not (is_applied_ack row.ack_status) && not (ack_eq row.ack_status status))

-- `row.dispatched_at or self.event_time(row)`
unfoldable pub dispatch_time : DeviceCommand → Exec System ℕ
dispatch_time row s = elim row.dispatched_at [ none ↦ event_time row s | some time ↦ (ok time, s) ]

-- `ack` once the ACK is noted on the row.
unfoldable pub note_ack : AckStatus → DeviceCommand → Exec System DeviceCommand
note_ack status row =
    if is_negative status then finish failed (some (failure_of status)) row else (do
      time ← dispatch_time row
      confirm (record row { status = dispatched; dispatched_at = some time }))

-- `ack` on an eligible row.
unfoldable pub take_ack : AckStatus → DeviceCommand → Exec System DeviceCommand
take_ack status row = do
  received ← event_time row
  updated ← event_time row
  note_ack status (record row {
    ack_status = some status;
    ack_received_at = some received;
    updated_at = updated;
  })

-- `ack` on a row after its expiry check.
unfoldable pub weigh_ack : AckStatus → Bool → DeviceCommand → Exec System DeviceCommand
weigh_ack status retained row s =
    if not (is_eligible row retained)
    then (ok row, s)
    else if is_applied_ack (some status) && not (permit_evidence row s.db)
    then (ok row, s)
    else if accepts_ack row status
    then take_ack status row s
    else (ok row, s)

unfoldable pub ack_row : AckStatus → Bool → DeviceCommand → Exec System DeviceCommand
ack_row status retained row = do row' ← expire row; weigh_ack status retained row'

-- `ack`
unfoldable pub ack : String → String → AckEnvelope → Bool → Exec System (Unit {0})
ack house device envelope retained s =
    elim (find
      (λ r.
        str_eq r.command_id envelope.command_id
        && (str_eq r.correlation_id envelope.correlation_id
            && (str_eq r.house_id house && str_eq r.device_id device)))
      s.db.commands) [
        | none ↦ commit s
        | some row ↦ (do row' ← ack_row envelope.status retained row; store row'; commit) s
      ]

-- `state` on an eligible row.
unfoldable pub take_state : Bool → DeviceCommand → Exec System DeviceCommand
take_state on row = do
  received ← event_time row
  updated ← event_time row
  confirm (record row {
    reported_on = some on;
    state_received_at = some received;
    updated_at = updated;
  })

-- `state` on a row after its expiry check.
unfoldable pub weigh_state : Option Bool → Bool → DeviceCommand → Exec System DeviceCommand
weigh_state on retained row s =
    if is_eligible row retained && permit_evidence row s.db
    then elim on [ none ↦ (ok row, s) | some value ↦ take_state value row s ]
    else (ok row, s)

unfoldable pub state_row : Option Bool → Bool → DeviceCommand → Exec System DeviceCommand
state_row on retained row = do row' ← expire row; weigh_state on retained row'

-- `state`
unfoldable pub state : String → String → StateEnvelope → Bool → Exec System (Unit {0})
state house device envelope retained s =
    elim (find
      (λ r.
        str_eq r.correlation_id envelope.correlation_id
        && (str_eq r.house_id house && str_eq r.device_id device))
      s.db.commands) [
        | none ↦ commit s
        | some row ↦ (do row' ← state_row envelope.on retained row; store row'; commit) s
      ]
