-- ===== src/Commands/Tests.antt =====
-- The command service on one command of the small installation, and its theorems at those inputs.
use kz_home_core.Common.{true, false, none, some, [], ◌∷◌, ◌≡◌, refl, str_eq, bool_eq, is_some, ok}
use kz_home_core.Clocks.CommandClock.{now, observe, settle}
use kz_home_core.Clocks.ControlClock.{tick, accept_tick, logical_now}
use kz_home_core.Database.{
  DeviceCommand, CommandStatus, failed, timed_out, deadline_exceeded, AckStatus, control_by_id,
  pending, physical_by_device, device_by_id, bound_house, located_house, house_of_device,
  is_in_house, command_conflicts, excludes,
}
use kz_home_core.System.{System}
use kz_home_core.StateValidator.{
  validate_command, validate_capabilities, validate_values, is_supported, is_valid_value,
  is_writable,
}
use kz_home_core.Authority.Defs.{expired}
use kz_home_core.Commands.Defs.{
  event_time, completed, finish, is_expired, time_out, settle_expiry, expire, permit_evidence,
  is_confirmed, confirm, dispatch_time, note_ack, take_ack, weigh_ack, ack_row, failure_of,
}
use kz_home_core.Commands.Submit.{
  Intent, Transport, Fresh, repeated, reserved, require_active, require_command_contract,
  lock_device, previous_command, repeat, clear_pending, new_row, insert_command, admit, place,
  create, decide, reserve_locked, reserve,
}
use kz_home_core.Commands.Lifecycle.{by_ack, by_state, handle, terminal_final, late_evidence}
use kz_home_core.Commands.Applied.{IsEvidenced, applied_evidence, negative_ack}
use kz_home_core.Commands.Dated.{IsDated}
use kz_home_core.Commands.Reserve.{IsReserved, reserve-IsReserved, reserve_repeat}
use kz_home_core.Samples.{
  started_row, control, bound_control, system, empty_house, no_commands, value_or,
}

-- The state has come, the "applied" ACK is due.
abbrev reported_row : DeviceCommand
reported_row = record started_row { reported_on = some true; state_received_at = some 86_000_000 }

abbrev applied_row : DeviceCommand
applied_row =
    value_or reported_row
      (handle (by_ack AckStatus.applied) false reported_row (system reported_row bound_control)).0

applied_returns :
    (handle (by_ack AckStatus.applied) false reported_row (system reported_row bound_control)).0
    ≡ ok applied_row
unfolding ack_row weigh_ack take_ack note_ack dispatch_time event_time confirm is_confirmed
    permit_evidence finish expire is_expired settle_expiry expired tick accept_tick logical_now
    control_by_id
applied_returns = refl

applied_status : applied_row.status ≡ CommandStatus.applied
unfolding ack_row weigh_ack take_ack note_ack dispatch_time event_time confirm is_confirmed
    permit_evidence finish expire is_expired settle_expiry expired tick accept_tick logical_now
    control_by_id
applied_status = refl

applied_evidence_example :
    IsEvidenced applied_row (system reported_row bound_control).db
    × (false ≡ false)
    × (is_some reported_row.dispatch_started_at ≡ true)
applied_evidence_example =
    applied_evidence (by_ack AckStatus.applied) false reported_row applied_row
      (system reported_row bound_control) refl applied_returns applied_status

abbrev done_row : DeviceCommand
done_row = completed timed_out (some deadline_exceeded) 99_000_000 started_row

terminal_final_example :
    (expire done_row (system done_row control) ≡ (ok done_row, system done_row control))
    × (handle (by_state (some true)) false done_row (system done_row control)
        ≡ (ok done_row, system done_row control))
terminal_final_example =
    terminal_final (by_state (some true)) false done_row (system done_row control) refl

-- A virtual command whose deadline lies before the clock's first reading.
abbrev late_row : DeviceCommand
late_row = record started_row { created_at = 1; expires_at = 4_000_000 }

abbrev virtual : DeviceCommand → System
virtual row = record empty_house { db = record no_commands { commands = row ∷ [] } }

abbrev late_result : DeviceCommand
late_result = completed timed_out (some deadline_exceeded) 5_000_001 late_row

is_late : (is_expired late_row (virtual late_row)).0 ≡ ok true
unfolding is_expired control_by_id now observe settle
is_late = refl

late_returns :
    (handle (by_ack AckStatus.applied) false late_row (virtual late_row)).0 ≡ ok late_result
unfolding ack_row weigh_ack expire is_expired settle_expiry time_out finish event_time control_by_id
    now observe settle
late_returns = refl

late_evidence_example :
    late_result ≡ completed timed_out (some deadline_exceeded) late_result.updated_at late_row
late_evidence_example =
    late_evidence (by_ack AckStatus.applied) false late_row late_result (virtual late_row) refl
      is_late late_returns

-- A retained ACK in time.
retained_returns :
    (handle (by_ack AckStatus.applied) true started_row (virtual started_row)).0 ≡ ok started_row
unfolding ack_row weigh_ack expire is_expired settle_expiry control_by_id now observe settle
retained_returns = refl

abbrev rejected_row : DeviceCommand
rejected_row =
    value_or started_row (ack_row AckStatus.rejected false started_row (virtual started_row)).0

in_time : (expire started_row (virtual started_row)).0 ≡ ok started_row
unfolding expire is_expired settle_expiry control_by_id now observe settle
in_time = refl

rejected_returns :
    (ack_row AckStatus.rejected false started_row (virtual started_row)).0 ≡ ok rejected_row
unfolding ack_row weigh_ack take_ack note_ack finish event_time expire is_expired settle_expiry
    control_by_id now observe settle
rejected_returns = refl

negative_ack_example :
    (rejected_row.status ≡ failed)
    × (rejected_row.failure_code ≡ some (failure_of AckStatus.rejected))
    × (rejected_row.ack_status ≡ some AckStatus.rejected)
    × (is_some rejected_row.completed_at ≡ true)
negative_ack_example =
    negative_ack AckStatus.rejected started_row rejected_row (virtual started_row) refl refl in_time
      rejected_returns

abbrev transport : Transport
transport = record { is_connected = true; authorize = λ _ _. ok tt }

abbrev intent : Intent
intent = record { house_id = "h"; device_id = "d"; user_id = "u"; key_hash = "i"; on = true }

abbrev fresh : Fresh
fresh = record { command_id = "c"; correlation_id = "k" }

abbrev placed : DeviceCommand
placed = new_row intent fresh 5_000_000

reserve_returns : (reserve transport intent fresh empty_house).0 ≡ ok (reserved placed)
unfolding reserve require_active lock_device reserve_locked decide previous_command create
    require_command_contract admit place clear_pending insert_command command_conflicts excludes
    new_row physical_by_device device_by_id bound_house located_house house_of_device is_in_house
    pending validate_command validate_capabilities validate_values is_supported is_valid_value
    is_writable now observe settle
reserve_returns = refl

unused_key : previous_command intent no_commands ≡ none
unfolding previous_command
unused_key = refl

reserve-IsReserved_example :
    (row : DeviceCommand) × (reserved placed ≡ reserved row)
    × (row ≡ new_row intent fresh row.created_at)
    × IsReserved row (reserve transport intent fresh empty_house).1
    × IsDated empty_house.clock row (reserve transport intent fresh empty_house).1
    × (physical_by_device "d" no_commands ≡ none)
reserve-IsReserved_example =
    reserve-IsReserved transport intent fresh empty_house (reserved placed) unused_key
      reserve_returns

-- The same key again, while the first command is waiting.
abbrev waiting : System
waiting = record (virtual started_row) { saved = (virtual started_row).db }

used_key : previous_command intent waiting.db ≡ some started_row
unfolding previous_command
used_key = refl

repeat_returns : (reserve transport intent fresh waiting).0 ≡ ok (repeated started_row)
unfolding reserve require_active lock_device reserve_locked decide previous_command repeat expire
    is_expired settle_expiry physical_by_device device_by_id bound_house located_house
    house_of_device is_in_house control_by_id now observe settle
repeat_returns = refl

reserve_repeat_example :
    (row' : DeviceCommand) × (repeated started_row ≡ repeated row')
    × ((expire started_row waiting).0 ≡ ok row')
    × (str_eq "d" "d" ≡ true)
    × (bool_eq true true ≡ true)
reserve_repeat_example =
    reserve_repeat transport intent fresh started_row waiting (repeated started_row) used_key
      repeat_returns
