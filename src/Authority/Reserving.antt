-- ===== src/Authority/Reserving.antt =====
-- The first transaction of `submit` leaves a staged command staged (app/services/command_service.py).
use kz_home_core.Common.{
  String, not, ◌&&◌, ◌||◌, Option, none, some, ◌≡◌, refl, inl, inr, str_eq, bool_eq, Bool-cases,
  Result, conflict, Exec, raise_if, pure, ◌>>◌, arith, unavailable, invalid_reference, [], ◌∷◌,
}
use kz_home_core.Clocks.CommandClock.{now}
use kz_home_core.StateValidator.{boolean, validate_command}
use kz_home_core.Database.{
  DeviceCommand, Device, is_pending, command_conflicts, pending, is_in_house,
}
use kz_home_core.System.{System, on_command_clock}
use kz_home_core.Commands.Defs.{expire, store}
use kz_home_core.Commands.Submit.{
  Intent, Transport, Fresh, Reservation, repeated, reserved, lift, require_active,
  require_command_contract, lock_device, previous_command, repeat, clear_pending, new_row,
  insert_command, admit, place, create, decide, reserve_locked, reserve,
}
use kz_home_core.Authority.Staged.{
  IsFair, IsStaged, IsDurable, Holds, Anything, Holds-bind, Holds-pure, Holds-same, Holds-raise_if,
  Holds-store, inserted-IsFair,
}
use kz_home_core.Authority.Fair.{Fair-expire}
use kz_home_core.Authority.Evidence.{Holds-save, Holds-found}

module _ (id : String) where
  any_result :
      {A : Type 0} {Q : A → Type 0} (m : Exec System A) → Holds id Q m → Holds id Anything m
  any_result m h = record { at = λ s d. ((h.at s d).0, λ a e. tt) }

  Holds-repeat :
      (intent : Intent) (row : DeviceCommand)
      → IsFair id row
      → Holds id Anything (repeat intent row)
  unfolding repeat
  Holds-repeat intent row fair =
      Holds-bind id
        (raise_if
          (not (str_eq row.device_id intent.device_id) || not (bool_eq row.requested_on intent.on))
          conflict)
        _ (Holds-raise_if id _ conflict)
        (λ _ _.
          Holds-save id (expire row) (λ row'. pure (repeated row')) (Fair-expire id row fair)
            (λ row'. Holds-pure id Anything (repeated row') tt))

  Holds-clear_pending :
      (row : DeviceCommand) → IsFair id row → Holds id Anything (clear_pending (some row))
  unfolding clear_pending
  Holds-clear_pending row fair =
      Holds-bind id (expire row) _ (Fair-expire id row fair) (λ row' fair'.
        Holds-bind id (store row') _ (Holds-store id row' fair')
          (λ _ _. Holds-raise_if id (is_pending row'.status) conflict))

  Holds-clear_none : Holds id Anything (clear_pending none)
  unfolding clear_pending
  Holds-clear_none = Holds-same id _ (λ s. (refl, refl))

  insert_command-IsStaged :
      (row : DeviceCommand) (s : System) → IsDurable id s → IsDurable id (insert_command row s).1
  unfolding insert_command
  insert_command-IsStaged row s d = elim (Bool-cases (command_conflicts row s.db)) [
    | inl clash ↦ rw clash (d.1, d.1)
    | inr free ↦
        (let after : IsStaged id (record s.db { commands = row ∷ s.db.commands }) = record {
          started = (inserted-IsFair id row s.db d.0 free, d.0.started);
          present = ground (arith, d.0.present);
        } in
          rw free (after, after))
  ]

  Holds-insert_command : (row : DeviceCommand) → Holds id Anything (insert_command row)
  Holds-insert_command row = record { at = λ s d. (insert_command-IsStaged row s d, λ a e. tt) }

  Holds-place : (intent : Intent) (fresh : Fresh) → Holds id Anything (place intent fresh)
  unfolding place
  Holds-place intent fresh =
      Holds-bind id (on_command_clock now) _ (Holds-same id _ (λ s. (refl, refl))) (λ time _.
        Holds-bind id (insert_command (new_row intent fresh time)) _
          (Holds-insert_command (new_row intent fresh time))
          (λ _ _. Holds-pure id Anything (reserved (new_row intent fresh time)) tt))

  -- What `admit` does once it has found the pending command.
  rest_of_admit : Transport → Intent → Device → Exec System (Unit {0})
  rest_of_admit transport intent device = do
    raise_if (not device.online) conflict
    raise_if (not transport.is_connected) unavailable
    lift (transport.authorize intent.house_id intent.device_id)

  Holds-rest_of_admit :
      (transport : Transport) (intent : Intent) (device : Device)
      → Holds id Anything (rest_of_admit transport intent device)
  unfolding rest_of_admit
  Holds-rest_of_admit transport intent device =
      Holds-bind id (raise_if (not device.online) conflict) _ (Holds-raise_if id _ conflict) (λ _ _.
        Holds-bind id (raise_if (not transport.is_connected) unavailable) _
          (Holds-raise_if id _ unavailable) (λ _ _. Holds-same id _ (λ s. (refl, refl))))

  Holds-admit :
      (transport : Transport) (intent : Intent) (device : Device)
      → Holds id Anything (admit transport intent device)
  unfolding admit pending rest_of_admit
  Holds-admit transport intent device =
      Holds-bind id (raise_if _ invalid_reference) _ (Holds-raise_if id _ invalid_reference) (λ _ _.
        Holds-bind id (lift (validate_command device.capabilities (("on", boolean intent.on) ∷ [])))
          _ (Holds-same id _ (λ s. (refl, refl)))
          (λ _ _.
            Holds-found id (λ r. str_eq r.device_id intent.device_id && is_pending r.status) _
              (do clear_pending none; rest_of_admit transport intent device)
              (λ row. do clear_pending (some row); rest_of_admit transport intent device)
              (λ s. by_pending s (pending intent.device_id s.db))
              (Holds-bind id (clear_pending none) _ Holds-clear_none
                (λ _ _. Holds-rest_of_admit transport intent device))
              (λ row fair.
                Holds-bind id (clear_pending (some row)) _ (Holds-clear_pending row fair)
                  (λ _ _. Holds-rest_of_admit transport intent device))))
    where
      by_pending :
          (s : System) (o : Option DeviceCommand)
          → (clear_pending o >> rest_of_admit transport intent device) s
            ≡ (elim o as (λ _. Result (Unit {0}) × System) [
              | none ↦ (clear_pending none >> rest_of_admit transport intent device) s
              | some row ↦ (clear_pending (some row) >> rest_of_admit transport intent device) s
            ])
      by_pending s none = refl
      by_pending s (some row) = refl

  Holds-create :
      (transport : Transport) (intent : Intent) (fresh : Fresh) (device : Device)
      → Holds id Anything (create transport intent fresh device)
  unfolding create require_command_contract
  Holds-create transport intent fresh device =
      Holds-bind id (require_command_contract intent.device_id) _
        (Holds-same id _ (λ s. ground arith))
        (λ _ _.
          Holds-bind id (admit transport intent device) _ (Holds-admit transport intent device)
            (λ _ _. Holds-place intent fresh))

  -- The answer to the idempotency query on the first state.
  decided : Transport → Intent → Fresh → Device → Exec System Reservation
  decided transport intent fresh device s =
      decide transport intent fresh device (previous_command intent s.db) s

  Holds-decided :
      (transport : Transport) (intent : Intent) (fresh : Fresh) (device : Device)
      → Holds id Anything (decided transport intent fresh device)
  unfolding decided decide previous_command
  Holds-decided transport intent fresh device =
      Holds-found id
        (λ r.
          str_eq r.house_id intent.house_id
          && (str_eq r.requested_by intent.user_id && str_eq r.idempotency_hash intent.key_hash))
        (decided transport intent fresh device) (create transport intent fresh device)
        (λ row. repeat intent row) (λ s. by_previous s (previous_command intent s.db))
        (Holds-create transport intent fresh device) (λ row fair. Holds-repeat intent row fair)
    where
      by_previous :
          (s : System) (o : Option DeviceCommand)
          → decide transport intent fresh device o s
            ≡ (elim o as (λ _. Result Reservation × System) [
              | none ↦ create transport intent fresh device s
              | some row ↦ repeat intent row s
            ])
      by_previous s none = refl
      by_previous s (some row) = refl

  Holds-reserve_locked :
      (transport : Transport) (intent : Intent) (fresh : Fresh) (device : Device)
      → Holds id Anything (reserve_locked transport intent fresh device)
  unfolding reserve_locked decided
  Holds-reserve_locked transport intent fresh device = record {
    at = λ s d. elim (Bool-cases (not (is_in_house intent.device_id intent.house_id s.db))) [
      | inl outside ↦ rw outside (d, λ a e. tt)
      | inr inside ↦ rw inside ((Holds-decided transport intent fresh device).at s d)
    ];
  }

  pub Holds-reserve :
      (transport : Transport) (intent : Intent) (fresh : Fresh)
      → Holds id Anything (reserve transport intent fresh)
  unfolding reserve require_active lock_device
  Holds-reserve transport intent fresh =
      Holds-bind id (require_active intent.device_id) _ (Holds-same id _ (λ s. ground arith))
        (λ _ _.
          Holds-bind id (lock_device intent.device_id) _ (Holds-same id _ (λ s. ground arith))
            (λ device _. Holds-reserve_locked transport intent fresh device))
