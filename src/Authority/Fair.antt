-- ===== src/Authority/Fair.antt =====
-- The calls of the command service on one row: they leave it a row of another command or a started one
-- (app/services/command_service.py).
use kz_home_core.Common.{
  String, Bool, Option, none, some, ◌≡◌, sym, subst, ◌⊎◌, inl, inr, Bool-cases, Result, ok, Exec,
  pure, arith,
}
use kz_home_core.Database.{DeviceCommand, CommandStatus, failed, AckStatus, FailureCode}
use kz_home_core.System.{System}
use kz_home_core.Commands.Rows.{
  unchanged, timed, event_time-Keeps, dispatch_time-Keeps, expire-Keeps, expire-Expiry,
}
use kz_home_core.Commands.Defs.{
  event_time, finish, expire, is_confirmed, confirm, dispatch_time, note_ack, take_ack, weigh_ack,
  ack_row, take_state, weigh_state, state_row, is_negative, failure_of,
}
use kz_home_core.Authority.Staged.{IsFair, IsDurable, Holds, Holds-bind, Holds-pure, Holds-Keeps}

module _ (id : String) where
  -- A call that gives a fair row.
  abbrev pub Fair : Exec System DeviceCommand → Type 0
  Fair m = Holds id (IsFair id) m

  pub Fair-pure : (row : DeviceCommand) → IsFair id row → Fair (pure row)
  Fair-pure row fair = Holds-pure id (IsFair id) row fair

  pub Fair-expire : (row : DeviceCommand) → IsFair id row → Fair (expire row)
  Fair-expire row fair = record {
    at = λ s p. (
      ((Holds-Keeps id (expire row) (expire-Keeps row)).at s p).0,
      λ row' e. elim (expire-Expiry row row' s e) [
        | unchanged same ↦ subst (IsFair id) (sym same) fair
        | timed time live same ↦ subst (IsFair id) (sym same) fair
      ],
    );
  }

  pub Fair-finish :
      (status : CommandStatus) (code : Option FailureCode) (row : DeviceCommand)
      → IsFair id row
      → Fair (finish status code row)
  unfolding finish
  Fair-finish status code row fair =
      Holds-bind id (event_time row) _ (Holds-Keeps id (event_time row) (event_time-Keeps row))
        (λ time _. Fair-pure _ fair)

  Fair-confirm : (row : DeviceCommand) → IsFair id row → Fair (confirm row)
  unfolding confirm
  Fair-confirm row fair = record {
    at = λ s p. elim (Bool-cases (is_confirmed row s.db)) [
      | inl hit ↦ rw hit ((Fair-finish CommandStatus.applied none row fair).at s p)
      | inr miss ↦ rw miss ((Fair-pure row fair).at s p)
    ];
  }

  Fair-note_ack :
      (status : AckStatus) (row : DeviceCommand) → IsFair id row → Fair (note_ack status row)
  unfolding note_ack
  Fair-note_ack status row fair = elim (Bool-cases (is_negative status)) [
    | inl hit ↦ rw hit (Fair-finish failed (some (failure_of status)) row fair)
    | inr miss ↦ rw miss (
        Holds-bind id (dispatch_time row) _
          (Holds-Keeps id (dispatch_time row) (dispatch_time-Keeps row))
          (λ time _. Fair-confirm _ fair))
  ]

  Fair-take_ack :
      (status : AckStatus) (row : DeviceCommand) → IsFair id row → Fair (take_ack status row)
  unfolding take_ack
  Fair-take_ack status row fair =
      Holds-bind id (event_time row) _ (Holds-Keeps id (event_time row) (event_time-Keeps row))
        (λ received _.
          Holds-bind id (event_time row) _ (Holds-Keeps id (event_time row) (event_time-Keeps row))
            (λ updated _. Fair-note_ack status _ fair))

  -- One of the two ends of a test on the state.
  Fair-choice :
      (m a b : Exec System DeviceCommand)
      → ((s : System) → (m s ≡ a s) ⊎ (m s ≡ b s))
      → Fair a
      → Fair b
      → Fair m
  Fair-choice m a b either fa fb = record {
    at = λ s p. elim (either s) [
      | inl e ↦
          subst
            (λ (x : Result DeviceCommand × System).
              IsDurable id x.1 × ((r : DeviceCommand) → x.0 ≡ ok r → IsFair id r))
            (sym e) (fa.at s p)
      | inr e ↦
          subst
            (λ (x : Result DeviceCommand × System).
              IsDurable id x.1 × ((r : DeviceCommand) → x.0 ≡ ok r → IsFair id r))
            (sym e) (fb.at s p)
    ];
  }

  Fair-weigh_ack :
      (status : AckStatus) (retained : Bool) (row : DeviceCommand)
      → IsFair id row
      → Fair (weigh_ack status retained row)
  unfolding weigh_ack
  Fair-weigh_ack status retained row fair =
      Fair-choice (weigh_ack status retained row) (pure row) (take_ack status row)
        (λ s. ground arith) (Fair-pure row fair) (Fair-take_ack status row fair)

  pub Fair-ack_row :
      (status : AckStatus) (retained : Bool) (row : DeviceCommand)
      → IsFair id row
      → Fair (ack_row status retained row)
  unfolding ack_row
  Fair-ack_row status retained row fair =
      Holds-bind id (expire row) _ (Fair-expire row fair)
        (λ row' fair'. Fair-weigh_ack status retained row' fair')

  Fair-take_state : (on : Bool) (row : DeviceCommand) → IsFair id row → Fair (take_state on row)
  unfolding take_state
  Fair-take_state on row fair =
      Holds-bind id (event_time row) _ (Holds-Keeps id (event_time row) (event_time-Keeps row))
        (λ received _.
          Holds-bind id (event_time row) _ (Holds-Keeps id (event_time row) (event_time-Keeps row))
            (λ updated _. Fair-confirm _ fair))

  Fair-weigh_state :
      (on : Option Bool) (retained : Bool) (row : DeviceCommand)
      → IsFair id row
      → Fair (weigh_state on retained row)
  unfolding weigh_state
  Fair-weigh_state none retained row fair =
      Fair-choice (weigh_state none retained row) (pure row) (pure row) (λ s. ground arith)
        (Fair-pure row fair) (Fair-pure row fair)
  Fair-weigh_state (some on) retained row fair =
      Fair-choice (weigh_state (some on) retained row) (pure row) (take_state on row)
        (λ s. ground arith) (Fair-pure row fair) (Fair-take_state on row fair)

  pub Fair-state_row :
      (on : Option Bool) (retained : Bool) (row : DeviceCommand)
      → IsFair id row
      → Fair (state_row on retained row)
  unfolding state_row
  Fair-state_row on retained row fair =
      Holds-bind id (expire row) _ (Fair-expire row fair)
        (λ row' fair'. Fair-weigh_state on retained row' fair')
