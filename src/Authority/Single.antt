-- ===== src/Authority/Single.antt =====
-- A command is staged at most once (app/services/control_authority.py).
use kz_home_core.Common.{
  ℕ, String, true, false, ◌&&◌, Option, none, some, ◌≡◌, refl, sym, ap, subst, ◌∙◌, is_some, str_eq,
  Result, ok, err, returns, Exec, find-test, All-find, eq_iff, Bool-cases, inl, inr, List, bind-ok,
  ◌>>=◌, ◌>>◌, arith, lookup,
}
use kz_home_core.Database.{
  Database, DeviceCommand, ControlCommand, Wire, control_by_id, set_command,
}
use kz_home_core.Clocks.ControlClock.{sample}
use kz_home_core.System.{System, Window, ControlDelivery, on_control_clock}
use kz_home_core.Authority.Defs.{bound_command, physical, stageable, dispatch, stage, stage_at}
use kz_home_core.Authority.Staged.{is_named, IsFair, IsStaged, IsDurable, started-IsStaged}
use kz_home_core.Authority.Later.{Request, serve_all, serve_all-IsDurable}

-- The query of a stage call names the command.
named_row :
    (house device command_id : String) (r : DeviceCommand)
    → (str_eq r.command_id command_id && (str_eq r.house_id house && str_eq r.device_id device))
      ≡ true
    → is_named command_id r ≡ true
named_row house device command_id r h = ground arith

bound_command-is_named :
    (house device command_id : String) (db : Database) (row : DeviceCommand)
    → bound_command house device command_id db ≡ some row
    → is_named command_id row ≡ true
unfolding bound_command
bound_command-is_named house device command_id db row e =
    named_row house device command_id row (find-test _ db.commands row e)

module _ (digest : Wire → String) (gate : Database → String → String → Result (Unit {0})) where
  -- A dispatch that returns leaves the command staged, whatever the ledger was.
  dispatch-IsStaged :
      (house device command_id : String) (now at : ℕ) (row : Option DeviceCommand)
      (control : Option ControlCommand) (window : Option Window) (s : System) (d : ControlDelivery)
      → bound_command house device command_id s.db ≡ row
      → (dispatch digest gate command_id now at row control window s).0 ≡ ok d
      → IsDurable command_id (dispatch digest gate command_id now at row control window s).1
  unfolding dispatch bound_command
  dispatch-IsStaged house device command_id now at (some row) (some control) (some window) s d e h =
      elim (Bool-cases (stageable digest gate s.authority.clock.epoch at row control window)) [
        | inl passes ↦
            (let started : DeviceCommand = record row { dispatch_started_at = some now } in
              let named = bound_command-is_named house device command_id s.db row e in
              let after : IsStaged command_id (set_command started s.db) =
                started-IsStaged command_id started row
                  (λ r.
                    str_eq r.command_id command_id
                    && (str_eq r.house_id house && str_eq r.device_id device))
                  s.db ((eq_iff row.command_id command_id).0 named) (ground arith)
                  (named_row house device command_id) e in
              rw passes (after, after))
        | inr refused ↦ absurd (ground arith)
      ]
  dispatch-IsStaged house device command_id now at none control window s d e h =
      absurd (ground arith)
  dispatch-IsStaged house device command_id now at (some row) none window s d e h =
      absurd (ground arith)
  dispatch-IsStaged house device command_id now at (some row) (some control) none s d e h =
      absurd (ground arith)

  -- No dispatch of a staged command returns.
  dispatch_again :
      (house device command_id : String) (now at : ℕ) (row : Option DeviceCommand)
      (control : Option ControlCommand) (window : Option Window) (s : System)
      → bound_command house device command_id s.db ≡ row
      → ((x : DeviceCommand) → row ≡ some x → is_some x.dispatch_started_at ≡ true)
      → returns (dispatch digest gate command_id now at row control window s).0 ≡ false
  unfolding dispatch
  dispatch_again house device command_id now at (some row) (some control) (some window) s e h =
      ground (arith, h row refl)
  dispatch_again house device command_id now at _ _ _ s e h = refl

  staged_row :
      (house device command_id : String) (s : System) (x : DeviceCommand)
      → IsStaged command_id s.db
      → bound_command house device command_id s.db ≡ some x
      → is_some x.dispatch_started_at ≡ true
  unfolding bound_command
  staged_row house device command_id s x staged e =
      let fair = All-find (IsFair command_id) _ s.db.commands x staged.started e in
      let named = named_row house device command_id x (find-test _ s.db.commands x e) in
      ground arith

  physical_state :
      (house device : String) (s : System) → (physical digest gate house device s).1 ≡ s
  unfolding physical
  physical_state house device s = ground arith

  -- A call that runs `m` behind `physical` and a clock sample, and returns, runs `m` on the same
  -- database.
  pub behind_sample :
      {A : Type 0} (m : ℕ × ℕ → Exec System A) (house device : String) (s : System) (a : A)
      → ((do physical digest gate house device; sampled ← on_control_clock sample; m sampled) s).0
        ≡ ok a
      → (sampled : ℕ × ℕ) × (t : System) × (t.db ≡ s.db)
        × ((do physical digest gate house device; sampled ← on_control_clock sample; m sampled) s
            ≡ m sampled t)
  behind_sample {A} m house device s a h =
      let (_, p, e) =
        bind-ok (physical digest gate house device)
          (λ _. do sampled ← on_control_clock sample; m sampled) s a h in
      let s1 = (physical digest gate house device s).1 in
      let (sampled, q, f) =
        bind-ok (on_control_clock sample) m s1 a
          (subst (λ (x : Result A × System). x.0 ≡ ok a) e h) in
      (
        sampled,
        (on_control_clock sample s1).1,
        ap (λ (t : System). t.db) (physical_state house device s),
        e ∙ f,
      )

  stage_at-IsStaged :
      (house device command_id : String) (sampled : ℕ × ℕ) (s : System) (d : ControlDelivery)
      → (stage_at digest gate house device command_id sampled s).0 ≡ ok d
      → IsDurable command_id (stage_at digest gate house device command_id sampled s).1
  unfolding stage_at
  stage_at-IsStaged house device command_id (now, at) s d h =
      dispatch-IsStaged house device command_id now at (bound_command house device command_id s.db)
        _ _ s d refl h

  stage_at_again :
      (house device command_id : String) (sampled : ℕ × ℕ) (s : System) (d : ControlDelivery)
      → IsStaged command_id s.db
      → ¬ ((stage_at digest gate house device command_id sampled s).0 ≡ ok d)
  unfolding stage_at
  stage_at_again house device command_id (now, at) s d staged h =
      let refused =
        dispatch_again house device command_id now at (bound_command house device command_id s.db)
          (control_by_id command_id s.db) (lookup command_id s.authority.windows) s refl
          (λ x e. staged_row house device command_id s x staged e) in
      cc

  stage-IsDurable :
      (house device command_id : String) (s : System) (d : ControlDelivery)
      → (stage digest gate house device command_id s).0 ≡ ok d
      → IsDurable command_id (stage digest gate house device command_id s).1
  unfolding stage
  stage-IsDurable house device command_id s d h =
      let (x, s', es, e) =
        behind_sample (stage_at digest gate house device command_id) house device s d h in
      subst (λ (r : Result ControlDelivery × System). IsDurable command_id r.1) (sym e)
        (stage_at-IsStaged house device command_id x s' d
          (subst (λ (r : Result ControlDelivery × System). r.0 ≡ ok d) e h))

  stage_refused :
      (house device command_id : String) (t : System)
      → IsStaged command_id t.db
      → returns (stage digest gate house device command_id t).0 ≡ false
  unfolding stage
  stage_refused house device command_id t staged =
      go (stage digest gate house device command_id t).0 refl
    where
      go :
          (q : Result ControlDelivery)
          → (stage digest gate house device command_id t).0 ≡ q
          → returns q ≡ false
      go (err e) k = refl
      go (ok d) k =
          let (y, t', et, f) =
            behind_sample (stage_at digest gate house device command_id) house device t d k in
          absurd (
            stage_at_again house device command_id y t' d
              (subst (IsStaged command_id) (sym et) staged)
              (subst (λ (r : Result ControlDelivery × System). r.0 ≡ ok d) f k))

  -- Once a stage call has returned, no stage call for the same command, of whichever house and device, returns
  -- after any further requests to the authority (stage, prepare and permit requests) and to the command service
  -- (ACKs, states, reads and both transactions of a submission), in any order, with any restart or other change of
  -- the process's memory in between: a staged command is never handed to the transport twice.
  pub stage_once :
      (binding_digest : List String → String) (house device command_id : String) (s : System)
      (d : ControlDelivery) (later : List Request) (house' device' : String)
      → (stage digest gate house device command_id s).0 ≡ ok d
      → returns
          (stage digest gate house' device' command_id (
            serve_all digest binding_digest gate later
              (stage digest gate house device command_id s).1)).0
        ≡ false
  stage_once binding_digest house device command_id s d later house' device' h =
      let after = (stage digest gate house device command_id s).1 in
      let kept =
        serve_all-IsDurable digest binding_digest gate command_id later after
          (stage-IsDurable house device command_id s d h) in
      stage_refused house' device' command_id (serve_all digest binding_digest gate later after)
        kept.0
