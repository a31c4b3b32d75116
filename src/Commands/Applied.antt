-- ===== src/Commands/Applied.antt =====
-- What it takes for a command to be recorded as applied, and what a refusal by the device does
-- (app/services/command_service.py).
use kz_home_core.Common.{
  ℕ, Bool, true, false, Option, none, some, ◌≡◌, refl, ◌∙◌, subst, is_some, ok, bind-inv, inl, inr,
  Bool-cases, ◌>>=◌, arith,
}
use kz_home_core.Database.{
  Database, DeviceCommand, CommandStatus, dispatched, failed, AckStatus, FailureCode, is_pending,
}
use kz_home_core.System.{System}
use kz_home_core.Commands.Defs.{
  finish, expire, permit_evidence, is_negative, is_confirmed, confirm, is_eligible, failure_of,
  take_ack, note_ack, dispatch_time, weigh_ack, take_state, weigh_state, event_time, ack_row,
}
use kz_home_core.Commands.Rows.{
  unchanged, timed, expire-Expiry, expire-Keeps, finish-completed, event_time-Keeps,
  dispatch_time-Keeps,
}
use kz_home_core.Commands.Lifecycle.{
  Evidence, by_ack, by_state, handle, weigh, handle-inv, weigh_ineligible,
}

-- The evidence of an applied command: the device's "applied" ACK, a permit if the command is
-- under physical control, and a received state that is the requested one.
pub record IsEvidenced (row : DeviceCommand) (db : Database) : Type 0 where
  pub acked : row.ack_status ≡ some AckStatus.applied
  pub permitted : permit_evidence row db ≡ true
  pub received : is_some row.state_received_at ≡ true
  pub reported : row.reported_on ≡ some row.requested_on

confirmed-IsEvidenced :
    (row : DeviceCommand) (db : Database) → is_confirmed row db ≡ true → IsEvidenced row db
unfolding is_confirmed
confirmed-IsEvidenced row db h = ground arith

confirm-IsEvidenced :
    (row row' : DeviceCommand) (s : System)
    → is_pending row.status ≡ true
    → (confirm row s).0 ≡ ok row'
    → row'.status ≡ CommandStatus.applied
    → IsEvidenced row' s.db
unfolding confirm permit_evidence
confirm-IsEvidenced row row' s live h a = ground arith

failed_not_applied :
    (code : Option FailureCode) (row row' : DeviceCommand) (s : System)
    → (finish failed code row s).0 ≡ ok row'
    → row'.status ≡ CommandStatus.applied
    → ⊥
failed_not_applied code row row' s h a = ground (arith, finish-completed failed code row row' s h)

note_ack-IsEvidenced :
    (status : AckStatus) (row row' : DeviceCommand) (s : System)
    → (note_ack status row s).0 ≡ ok row'
    → row'.status ≡ CommandStatus.applied
    → IsEvidenced row' s.db
unfolding note_ack
note_ack-IsEvidenced AckStatus.rejected row row' s h a =
    absurd (failed_not_applied _ row row' s h a)
note_ack-IsEvidenced AckStatus.failed row row' s h a = absurd (failed_not_applied _ row row' s h a)
note_ack-IsEvidenced _ row row' s h a =
    let go = λ (t : ℕ). record row { status = dispatched; dispatched_at = some t } in
    let (time, p, k) = bind-inv (dispatch_time row) (λ t. confirm (go t)) s row' h in
    subst (IsEvidenced row') ((dispatch_time-Keeps row).at s).0
      (confirm-IsEvidenced (go time) row' (dispatch_time row s).1 refl k a)

take_ack-IsEvidenced :
    (status : AckStatus) (row row' : DeviceCommand) (s : System)
    → (take_ack status row s).0 ≡ ok row'
    → row'.status ≡ CommandStatus.applied
    → IsEvidenced row' s.db
unfolding take_ack
take_ack-IsEvidenced status row row' s h a =
    let noted = λ (r u : ℕ). record row {
      ack_status = some status;
      ack_received_at = some r;
      updated_at = u;
    } in
    let (received, p, k) =
      bind-inv (event_time row) (λ r. do u ← event_time row; note_ack status (noted r u)) s row'
        h in
    let s1 = (event_time row s).1 in
    let (updated, q, l) =
      bind-inv (event_time row) (λ u. note_ack status (noted received u)) s1 row' k in
    subst (IsEvidenced row') (((event_time-Keeps row).at s1).0 ∙ ((event_time-Keeps row).at s).0)
      (note_ack-IsEvidenced status (noted received updated) row' (event_time row s1).1 l a)

take_state-IsEvidenced :
    (on : Bool) (row row' : DeviceCommand) (s : System)
    → is_pending row.status ≡ true
    → (take_state on row s).0 ≡ ok row'
    → row'.status ≡ CommandStatus.applied
    → IsEvidenced row' s.db
unfolding take_state
take_state-IsEvidenced on row row' s live h a =
    let noted = λ (r u : ℕ). record row {
      reported_on = some on;
      state_received_at = some r;
      updated_at = u;
    } in
    let (received, p, k) =
      bind-inv (event_time row) (λ r. do u ← event_time row; confirm (noted r u)) s row' h in
    let s1 = (event_time row s).1 in
    let (updated, q, l) = bind-inv (event_time row) (λ u. confirm (noted received u)) s1 row' k in
    subst (IsEvidenced row') (((event_time-Keeps row).at s1).0 ∙ ((event_time-Keeps row).at s).0)
      (confirm-IsEvidenced (noted received updated) row' (event_time row s1).1 live l a)

-- Evidence that makes a pending row applied.
weigh-IsEvidenced :
    (ev : Evidence) (retained : Bool) (row row' : DeviceCommand) (s : System)
    → is_pending row.status ≡ true
    → (weigh ev retained row s).0 ≡ ok row'
    → row'.status ≡ CommandStatus.applied
    → IsEvidenced row' s.db
unfolding weigh_ack weigh_state
weigh-IsEvidenced (by_ack status) retained row row' s live h a =
    ground (arith, take_ack-IsEvidenced status row row' s)
weigh-IsEvidenced (by_state none) retained row row' s live h a = absurd (ground arith)
weigh-IsEvidenced (by_state (some on)) retained row row' s live h a =
    ground (arith, take_state-IsEvidenced on row row' s live)

-- A pending row never counts as applied, whatever else it holds.
pending-ne-applied :
    (row : DeviceCommand) → is_pending row.status ≡ true → row.status ≡ CommandStatus.applied → ⊥
pending-ne-applied row live a = ground arith

-- A pending command is recorded as applied only by evidence that is not retained, after its
-- dispatch had started, and with the full evidence on the row: the device's "applied" ACK, the permit
-- that a control command needs, and a received state equal to the requested one.
pub applied_evidence :
    (ev : Evidence) (retained : Bool) (row row' : DeviceCommand) (s : System)
    → is_pending row.status ≡ true
    → (handle ev retained row s).0 ≡ ok row'
    → row'.status ≡ CommandStatus.applied
    → IsEvidenced row' s.db × (retained ≡ false) × (is_some row.dispatch_started_at ≡ true)
applied_evidence ev retained row row' s live h a =
    let (mid, p, k) = handle-inv ev retained row row' s h in
    let s1 = (expire row s).1 in
    elim (expire-Expiry row mid s p) [
      | timed time _ e ↦
          absurd (let w = weigh_ineligible ev retained mid s1 (ground arith) in ground arith)
      | unchanged e ↦ elim (Bool-cases (is_eligible mid retained)) [
        | inr not_eligible ↦
            absurd (let w = weigh_ineligible ev retained mid s1 not_eligible in ground arith)
        | inl eligible ↦ (
          subst (IsEvidenced row') ((expire-Keeps row).at s).0
              (weigh-IsEvidenced ev retained mid row' s1 (ground arith) k a),
          ground arith,
          ground arith,
        )
      ]
    ]

-- A "rejected" or "failed" ACK that is not retained, on a pending and started command whose deadline
-- has not passed, ends it as failed with the device's code, whatever evidence had come before.
pub negative_ack :
    (status : AckStatus) (row row' : DeviceCommand) (s : System)
    → is_negative status ≡ true
    → is_eligible row false ≡ true
    → (expire row s).0 ≡ ok row
    → (ack_row status false row s).0 ≡ ok row'
    → (row'.status ≡ failed)
      × (row'.failure_code ≡ some (failure_of status))
      × (row'.ack_status ≡ some status)
      × (is_some row'.completed_at ≡ true)
unfolding ack_row weigh_ack take_ack note_ack finish
negative_ack AckStatus.rejected row row' s n eligible fresh h = ground arith
negative_ack AckStatus.failed row row' s n eligible fresh h = ground arith
negative_ack AckStatus.accepted row row' s n eligible fresh h = absurd (ground arith)
negative_ack AckStatus.applied row row' s n eligible fresh h = absurd (ground arith)
