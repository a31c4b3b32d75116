-- ===== src/Commands/Lifecycle.antt =====
-- The lifecycle of one command under device evidence (app/services/command_service.py): an ACK or a
-- state report, each after its expiry check.
use kz_home_core.Common.{Bool, true, false, Option, some, ◌≡◌, refl, ok, Exec, bind-inv, arith}
use kz_home_core.Database.{DeviceCommand, timed_out, AckStatus, deadline_exceeded, is_pending}
use kz_home_core.System.{System}
use kz_home_core.Commands.Defs.{
  completed, is_expired, expire, is_eligible, ack_row, weigh_ack, state_row, weigh_state,
}
use kz_home_core.Commands.Rows.{expire_late}

-- What a device reports about a command.
pub data Evidence : Type 0 where
  by_ack : AckStatus → Evidence
  by_state : Option Bool → Evidence

abbrev pub handle : Evidence → Bool → DeviceCommand → Exec System DeviceCommand
handle (by_ack status) retained row = ack_row status retained row
handle (by_state on) retained row = state_row on retained row

abbrev pub weigh : Evidence → Bool → DeviceCommand → Exec System DeviceCommand
weigh (by_ack status) retained row = weigh_ack status retained row
weigh (by_state on) retained row = weigh_state on retained row

pub handle-inv :
    (ev : Evidence) (retained : Bool) (row row' : DeviceCommand) (s : System)
    → (handle ev retained row s).0 ≡ ok row'
    → (mid : DeviceCommand) × ((expire row s).0 ≡ ok mid)
      × ((weigh ev retained mid (expire row s).1).0 ≡ ok row')
unfolding ack_row state_row
handle-inv (by_ack status) retained row row' s h =
    bind-inv (expire row) (λ mid. weigh_ack status retained mid) s row' h
handle-inv (by_state on) retained row row' s h =
    bind-inv (expire row) (λ mid. weigh_state on retained mid) s row' h

-- Evidence on a row that is not eligible changes nothing.
pub weigh_ineligible :
    (ev : Evidence) (retained : Bool) (row : DeviceCommand) (s : System)
    → is_eligible row retained ≡ false
    → weigh ev retained row s ≡ (ok row, s)
unfolding weigh_ack weigh_state
weigh_ineligible (by_ack status) retained row s h = ground arith
weigh_ineligible (by_state on) retained row s h = ground arith

-- A command whose record is terminal is immutable: the deadline check, and an ACK or a state report
-- of any content, retained or not, return the row as it is and touch nothing, the clocks included.
pub terminal_final :
    (ev : Evidence) (retained : Bool) (row : DeviceCommand) (s : System)
    → is_pending row.status ≡ false
    → (expire row s ≡ (ok row, s)) × (handle ev retained row s ≡ (ok row, s))
unfolding expire ack_row state_row weigh_ack weigh_state
terminal_final (by_ack status) retained row s final = (ground arith, ground arith)
terminal_final (by_state on) retained row s final = (ground arith, ground arith)

-- Late evidence never counts: on a pending command whose deadline has passed, an ACK or a state
-- report of any content can only leave the row timed out with "deadline_exceeded".
pub late_evidence :
    (ev : Evidence) (retained : Bool) (row row' : DeviceCommand) (s : System)
    → is_pending row.status ≡ true
    → (is_expired row s).0 ≡ ok true
    → (handle ev retained row s).0 ≡ ok row'
    → row' ≡ completed timed_out (some deadline_exceeded) row'.updated_at row
late_evidence ev retained row row' s live past h =
    let (mid, p, k) = handle-inv ev retained row row' s h in
    let e = expire_late row mid s live past p in
    let w = weigh_ineligible ev retained mid (expire row s).1 (ground arith) in ground arith

-- Retained evidence is not evidence: it does to the row exactly what the deadline check does.
retained_evidence :
    (ev : Evidence) (row row' : DeviceCommand) (s : System)
    → (handle ev true row s).0 ≡ ok row'
    → (expire row s).0 ≡ ok row'
retained_evidence ev row row' s h =
    let (mid, p, k) = handle-inv ev true row row' s h in
    let w = weigh_ineligible ev true mid (expire row s).1 refl in ground arith
