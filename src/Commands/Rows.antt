-- ===== src/Commands/Rows.antt =====
-- What the handlers of app/services/command_service.py do to one command row.
use kz_home_core.Common.{
  ℕ, Bool, true, false, Option, none, some, ◌≡◌, refl, ◌∙◌, inl, inr, ok, Exec, Moves, Moves-bind,
  Moves-pure, pure, bind-inv, Bool-cases, ◌>>=◌, arith,
}
use kz_home_core.Database.{
  DeviceCommand, CommandStatus, timed_out, AckStatus, FailureCode, deadline_exceeded, is_pending,
}
use kz_home_core.System.{System}
use kz_home_core.Commands.Defs.{
  event_time, completed, finish, is_expired, time_out, settle_expiry, expire, confirm, take_ack,
  ack_row, take_state, state_row, note_ack, dispatch_time, weigh_ack, weigh_state,
}

-- A call that leaves the data of the session alone: it only moves the clocks.
abbrev pub SameData : System → System → Type 0
SameData s t = (t.db ≡ s.db) × (t.saved ≡ s.saved)

-- How the deadline check can leave a row.
pub data Expiry (row : DeviceCommand) (row' : DeviceCommand) : Type 0 where
  unchanged : row' ≡ row → Expiry row row'
  timed :
      (time : ℕ)
      → is_pending row.status ≡ true
      → row' ≡ completed timed_out (some deadline_exceeded) time row
      → Expiry row row'

SameData-trans : (s t u : System) → SameData s t → SameData t u → SameData s u
SameData-trans s t u h k = (k.0 ∙ h.0, k.1 ∙ h.1)

abbrev pub Keeps : {A : Type 0} → Exec System A → Type 0
Keeps m = Moves SameData m

Keeps-bind :
    {A B : Type 0} (m : Exec System A) (f : A → Exec System B)
    → Keeps m
    → ((a : A) → Keeps (f a))
    → Keeps (m >>= f)
Keeps-bind = Moves-bind SameData (λ s. (refl, refl)) SameData-trans

Keeps-pure : {A : Type 0} (a : A) → Keeps (pure a)
Keeps-pure = Moves-pure SameData (λ s. (refl, refl)) SameData-trans

pub event_time-Keeps : (row : DeviceCommand) → Keeps (event_time row)
unfolding event_time
event_time-Keeps row = record { at = λ s. (ground arith, ground arith) }

pub dispatch_time-Keeps : (row : DeviceCommand) → Keeps (dispatch_time row)
unfolding dispatch_time
dispatch_time-Keeps row = record { at = λ s. ground (arith, (event_time-Keeps row).at s) }

is_expired-Keeps : (row : DeviceCommand) → Keeps (is_expired row)
unfolding is_expired
is_expired-Keeps row = record { at = λ s. (ground arith, ground arith) }

finish-Keeps :
    (status : CommandStatus) (code : Option FailureCode) (row : DeviceCommand)
    → Keeps (finish status code row)
unfolding finish
finish-Keeps status code row = record { at = λ s. (ground arith, ground arith) }

settle_expiry-Keeps : (past : Bool) (row : DeviceCommand) → Keeps (settle_expiry past row)
unfolding settle_expiry time_out
settle_expiry-Keeps true row = record { at = λ s. (ground arith, ground arith) }
settle_expiry-Keeps false row = Keeps-pure row

pub expire-Keeps : (row : DeviceCommand) → Keeps (expire row)
unfolding expire
expire-Keeps row = record {
  at = λ s. ground (
    arith,
    (Keeps-bind (is_expired row) (λ past. settle_expiry past row) (is_expired-Keeps row)
          (λ past. settle_expiry-Keeps past row)).at
        s,
  );
}

confirm-Keeps : (row : DeviceCommand) → Keeps (confirm row)
unfolding confirm
confirm-Keeps row = record {
  at = λ s. ground (arith, (finish-Keeps CommandStatus.applied none row).at s);
}

note_ack-Keeps : (status : AckStatus) (row : DeviceCommand) → Keeps (note_ack status row)
unfolding note_ack
note_ack-Keeps AckStatus.rejected row = finish-Keeps _ _ row
note_ack-Keeps AckStatus.failed row = finish-Keeps _ _ row
note_ack-Keeps _ row =
    Keeps-bind (dispatch_time row) _ (dispatch_time-Keeps row) (λ time. confirm-Keeps _)

take_ack-Keeps : (status : AckStatus) (row : DeviceCommand) → Keeps (take_ack status row)
unfolding take_ack
take_ack-Keeps status row = Keeps-bind (event_time row) _ (event_time-Keeps row) λ received.
    Keeps-bind (event_time row) _ (event_time-Keeps row) λ updated. note_ack-Keeps status _

take_state-Keeps : (on : Bool) (row : DeviceCommand) → Keeps (take_state on row)
unfolding take_state
take_state-Keeps on row =
    Keeps-bind (event_time row) _ (event_time-Keeps row)
      λ received. Keeps-bind (event_time row) _ (event_time-Keeps row) λ updated. confirm-Keeps _

weigh_ack-Keeps :
    (status : AckStatus) (retained : Bool) (row : DeviceCommand)
    → Keeps (weigh_ack status retained row)
unfolding weigh_ack
weigh_ack-Keeps status retained row = record {
  at = λ s. ground (arith, (take_ack-Keeps status row).at s);
}

weigh_state-Keeps :
    (on : Option Bool) (retained : Bool) (row : DeviceCommand) → Keeps (weigh_state on retained row)
unfolding weigh_state
weigh_state-Keeps none retained row = record { at = λ s. ground arith }
weigh_state-Keeps (some value) retained row = record {
  at = λ s. ground (arith, (take_state-Keeps value row).at s);
}

pub ack_row-Keeps :
    (status : AckStatus) (retained : Bool) (row : DeviceCommand)
    → Keeps (ack_row status retained row)
unfolding ack_row
ack_row-Keeps status retained row =
    Keeps-bind (expire row) _ (expire-Keeps row) (λ row'. weigh_ack-Keeps status retained row')

pub state_row-Keeps :
    (on : Option Bool) (retained : Bool) (row : DeviceCommand) → Keeps (state_row on retained row)
unfolding state_row
state_row-Keeps on retained row =
    Keeps-bind (expire row) _ (expire-Keeps row) (λ row'. weigh_state-Keeps on retained row')

pub finish-completed :
    (status : CommandStatus) (code : Option FailureCode) (row row' : DeviceCommand) (s : System)
    → (finish status code row s).0 ≡ ok row'
    → row' ≡ completed status code row'.updated_at row
unfolding finish
finish-completed status code row row' s h = ground arith

settle_expiry-Expiry :
    (past : Bool) (row row' : DeviceCommand) (s : System)
    → is_pending row.status ≡ true
    → (settle_expiry past row s).0 ≡ ok row'
    → Expiry row row'
unfolding settle_expiry time_out
settle_expiry-Expiry false row row' s p h = unchanged (ground arith)
settle_expiry-Expiry true row row' s p h = timed row'.updated_at p (ground arith)

pub expire-Expiry :
    (row row' : DeviceCommand) (s : System) → (expire row s).0 ≡ ok row' → Expiry row row'
unfolding expire
expire-Expiry row row' s h = elim (Bool-cases (is_pending row.status)) [
  | inr final ↦ unchanged (ground arith)
  | inl live ↦
      (let (past, p, k) =
          bind-inv (is_expired row) (λ past. settle_expiry past row) s row' (rw live at h) in
        settle_expiry-Expiry past row row' (is_expired row s).1 live k)
]

-- A command whose deadline has passed does not survive the check as pending.
pub expire_late :
    (row row' : DeviceCommand) (s : System)
    → is_pending row.status ≡ true
    → (is_expired row s).0 ≡ ok true
    → (expire row s).0 ≡ ok row'
    → row' ≡ completed timed_out (some deadline_exceeded) row'.updated_at row
unfolding expire settle_expiry time_out
expire_late row row' s live past h = ground arith
