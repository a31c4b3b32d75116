-- ===== src/Authority/Keeping.antt =====
-- A staged command stays staged under `stage` and `prepare` (app/services/control_authority.py).
use kz_home_core.Common.{
  ℕ, ◌+◌, ◌-◌, String, Bool, not, ◌||◌, Option, none, some, refl, Bool-cases, inl, inr, is_some,
  leb, Result, conflict, unavailable, Exec, raise_if, gets, modify, ◌>>=◌, ◌>>◌, arith, lookup,
  length, insert,
}
use kz_home_core.Clocks.ControlClock.{sample}
use kz_home_core.Database.{
  Database, DeviceCommand, ControlCommand, Wire, is_pending, command_by_id, control_by_id,
  command_conflicts, set_command,
}
use kz_home_core.System.{Window, System, on_control_clock}
use kz_home_core.Authority.Defs.{
  max_windows, bound_command, identity, deadline_invalid, evict, physical, insert_candidate,
  prepare, stageable, dispatch, stage_at, stage,
}
use kz_home_core.Authority.Staged.{
  IsFair, IsStaged, IsDurable, Holds, Anything, Holds-bind, Holds-same, Holds-raise_if,
  set_command-IsStaged, inserted-IsFair,
}

module _ (digest : Wire → String) (gate : Database → String → String → Result (Unit {0}))
    (id : String) where
  pub Holds-physical :
      (house device : String) → Holds id Anything (physical digest gate house device)
  unfolding physical
  Holds-physical house device = Holds-same id _ (λ s. ground arith)

  pub Holds-sample : Holds id Anything (on_control_clock sample)
  Holds-sample = Holds-same id _ (λ s. (refl, refl))

  dispatch-IsDurable :
      (command_id : String) (now at : ℕ) (row : Option DeviceCommand)
      (control : Option ControlCommand) (window : Option Window) (s : System)
      → IsDurable id s
      → IsDurable id (dispatch digest gate command_id now at row control window s).1
  unfolding dispatch
  dispatch-IsDurable command_id now at (some row) (some control) (some window) s d =
      elim (Bool-cases (stageable digest gate s.authority.clock.epoch at row control window)) [
        | inl passes ↦
            (let started : DeviceCommand = record row { dispatch_started_at = some now } in
              let after : IsStaged id (set_command started s.db) =
                set_command-IsStaged id started s.db (ground arith) d.0 in
              rw passes (after, after))
        | inr refused ↦ rw refused d
      ]
  dispatch-IsDurable command_id now at none control window s d = d
  dispatch-IsDurable command_id now at (some row) none window s d = d
  dispatch-IsDurable command_id now at (some row) (some control) none s d = d

  pub Holds-stage :
      (house device command_id : String)
      → Holds id Anything (stage digest gate house device command_id)
  unfolding stage stage_at
  Holds-stage house device command_id =
      Holds-bind id (physical digest gate house device) _ (Holds-physical house device) (λ _ _.
        Holds-bind id (on_control_clock sample) _ Holds-sample (λ sampled _. record {
          at = λ s d. (
            dispatch-IsDurable command_id sampled.0 sampled.1
                (bound_command house device command_id s.db) (control_by_id command_id s.db)
                (lookup command_id s.authority.windows) s d,
            λ a e. tt,
          );
        }))

  Holds-insert_candidate :
      (row : DeviceCommand) → Holds id Anything (insert_candidate digest gate row)
  unfolding insert_candidate
  Holds-insert_candidate row = record {
    at = λ s d. (
      elim (Bool-cases
          (command_conflicts row s.db || is_some (control_by_id row.command_id s.db))) [
            | inl clash ↦ rw clash (d.1, d.1)
            | inr free ↦
                (let fair : IsFair id row = inserted-IsFair id row s.db d.0 (ground arith) in
                  rw free (
                    record { started = (fair, d.0.started); present = ground (arith, d.0.present) },
                    record { started = (fair, d.0.started); present = ground (arith, d.0.present) },
                  ))
          ],
      λ a e. tt,
    );
  }

  Holds-evict : Holds id Anything evict
  unfolding evict
  Holds-evict = Holds-same id _ (λ s. ground arith)

  -- The parts of `prepare` behind its clock sample.
  register : DeviceCommand → ℕ → ℕ → ControlCommand → Exec System (Unit {0})
  register row now at control = modify (λ s. record s {
    authority = record s.authority {
      windows =
          insert row.command_id
            (record {
              deadline = at + (row.expires_at - now);
              identity = identity row;
              wire_sha256 = control.wire_sha256;
            })
            s.authority.windows;
    };
  })

  insert_and_register : DeviceCommand → ℕ → ℕ → Exec System (Unit {0})
  insert_and_register row now at = do
    control ← insert_candidate digest gate row
    register row now at control

  find_room : DeviceCommand → ℕ → ℕ → Exec System (Unit {0})
  find_room row now at = do
    evict
    full ← gets (λ s. leb max_windows (length s.authority.windows))
    raise_if full unavailable
    insert_and_register row now at

  checked : Bool → DeviceCommand → ℕ → ℕ → Exec System (Unit {0})
  checked transient row now at = do
    exists ← gets (λ s. is_some (command_by_id row.command_id s.db))
    raise_if
        (not transient || not (is_pending row.status) || exists || is_some row.dispatch_started_at)
        conflict
    raise_if (deadline_invalid row now) conflict
    find_room row now at

  Holds-insert_and_register :
      (row : DeviceCommand) (now at : ℕ) → Holds id Anything (insert_and_register row now at)
  unfolding insert_and_register register
  Holds-insert_and_register row now at =
      Holds-bind id (insert_candidate digest gate row) (register row now at)
        (Holds-insert_candidate row)
        (λ control _. Holds-same id (register row now at control) (λ s. (refl, refl)))

  Holds-find_room : (row : DeviceCommand) (now at : ℕ) → Holds id Anything (find_room row now at)
  unfolding find_room
  Holds-find_room row now at = Holds-bind id evict _ Holds-evict (λ _ _.
      Holds-bind id (gets (λ s. leb max_windows (length s.authority.windows)))
        (λ full. raise_if full unavailable >> insert_and_register row now at)
        (Holds-same id _ (λ s. (refl, refl)))
        (λ full _.
          Holds-bind id (raise_if full unavailable) (λ _. insert_and_register row now at)
            (Holds-raise_if id full unavailable) (λ _ _. Holds-insert_and_register row now at)))

  Holds-checked :
      (transient : Bool) (row : DeviceCommand) (now at : ℕ)
      → Holds id Anything (checked transient row now at)
  unfolding checked
  Holds-checked transient row now at =
      let refused = λ (exists : Bool).
        not transient || not (is_pending row.status) || exists || is_some row.dispatch_started_at in
      let timed = raise_if (deadline_invalid row now) conflict in
      Holds-bind id (gets (λ s. is_some (command_by_id row.command_id s.db)))
        (λ exists. raise_if (refused exists) conflict >> (timed >> find_room row now at))
        (Holds-same id _ (λ s. (refl, refl)))
        (λ exists _.
          Holds-bind id (raise_if (refused exists) conflict) (λ _. timed >> find_room row now at)
            (Holds-raise_if id (refused exists) conflict)
            (λ _ _.
              Holds-bind id timed (λ _. find_room row now at)
                (Holds-raise_if id (deadline_invalid row now) conflict)
                (λ _ _. Holds-find_room row now at)))

  pub Holds-prepare :
      (transient : Bool) (row : DeviceCommand)
      → Holds id Anything (prepare digest gate transient row)
  unfolding prepare checked find_room insert_and_register register
  Holds-prepare transient row =
      Holds-bind id (physical digest gate row.house_id row.device_id) _
        (Holds-physical row.house_id row.device_id)
        (λ _ _.
          Holds-bind id (gets (λ s. s.authority.recovery_initialized)) _
            (Holds-same id _ (λ s. (refl, refl)))
            (λ initialized _.
              Holds-bind id (raise_if (not initialized) unavailable) _
                (Holds-raise_if id _ unavailable)
                (λ _ _.
                  Holds-bind id (on_control_clock sample) _ Holds-sample
                    (λ sampled _. Holds-checked transient row sampled.0 sampled.1))))
