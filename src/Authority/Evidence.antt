-- ===== src/Authority/Evidence.antt =====
-- The operations of the command service leave a staged command staged (app/services/command_service.py).
use kz_home_core.Common.{
  String, Bool, ◌&&◌, Option, none, some, ◌≡◌, refl, sym, subst, str_eq, Result, ok, err, not_found,
  Error, Exec, pure, ◌>>=◌, ◌>>◌, find,
}
use kz_home_core.Database.{DeviceCommand}
use kz_home_core.System.{System, commit}
use kz_home_core.Commands.Defs.{
  AckEnvelope, StateEnvelope, expire, store, get, ack_row, ack, state_row, state,
}
use kz_home_core.Authority.Staged.{
  IsFair, IsDurable, Holds, Anything, Holds-bind, Holds-pure, Holds-store, Holds-commit,
  found-IsFair,
}
use kz_home_core.Authority.Fair.{Fair, Fair-expire, Fair-ack_row, Fair-state_row}

module _ (id : String) where
  -- A fair row is written back and committed.
  pub Holds-save :
      {A : Type 0} (m : Exec System DeviceCommand) (f : DeviceCommand → Exec System A)
      → Fair id m
      → ((row : DeviceCommand) → Holds id Anything (f row))
      → Holds id Anything (do row ← m; store row; commit; f row)
  Holds-save m f fair k = Holds-bind id m _ fair (λ row fair'.
      Holds-bind id (store row) _ (Holds-store id row fair')
        (λ _ _. Holds-bind id commit _ (Holds-commit id) (λ _ _. k row)))

  pub Holds-store-commit :
      (m : Exec System DeviceCommand)
      → Fair id m
      → Holds id Anything (do row ← m; store row; commit)
  Holds-store-commit m fair =
      Holds-bind id m _ fair (λ row fair'.
        Holds-bind id (store row) _ (Holds-store id row fair') (λ _ _. Holds-commit id))

  -- A call whose rest works on the row that a query finds.
  pub Holds-found :
      {A : Type 0} (p : DeviceCommand → Bool) (m lost : Exec System A)
      (f : DeviceCommand → Exec System A)
      → ((s : System)
          → m s ≡ (elim (find p s.db.commands) as (λ _. Result A × System) [
            | none ↦ lost s
            | some row ↦ f row s
          ]))
      → Holds id Anything lost
      → ((row : DeviceCommand) → IsFair id row → Holds id Anything (f row))
      → Holds id Anything m
  Holds-found {A} p m lost f means h k = record {
    at = λ s d.
        subst (λ (x : Result A × System). IsDurable id x.1 × ((a : A) → x.0 ≡ ok a → Anything a))
          (sym (means s)) (go s d (find p s.db.commands) refl);
  }
    where
      go :
          (s : System)
          → IsDurable id s
          → (o : Option DeviceCommand) → find p s.db.commands ≡ o
          → let x : Result A × System = elim o as (λ _. Result A × System) [
            | none ↦ lost s
            | some row ↦ f row s
          ] in
            IsDurable id x.1 × ((a : A) → x.0 ≡ ok a → Anything a)
      go s d none e = h.at s d
      go s d (some row) e = (k row (found-IsFair id p s row d e)).at s d

  pub Holds-err : {A : Type 0} (e : Error) → Holds id (Anything {A = A}) (λ s. (err e, s))
  Holds-err e = record { at = λ s d. (d, λ a h. tt) }

  pub Holds-ack :
      (house device : String) (envelope : AckEnvelope) (retained : Bool)
      → Holds id Anything (ack house device envelope retained)
  unfolding ack
  Holds-ack house device envelope retained =
      Holds-found
        (λ r.
          str_eq r.command_id envelope.command_id
          && (str_eq r.correlation_id envelope.correlation_id
              && (str_eq r.house_id house && str_eq r.device_id device)))
        (ack house device envelope retained) commit
        (λ row. do row' ← ack_row envelope.status retained row; store row'; commit) (λ s. refl)
        (Holds-commit id)
        (λ row fair.
          Holds-store-commit (ack_row envelope.status retained row)
            (Fair-ack_row id envelope.status retained row fair))

  pub Holds-state :
      (house device : String) (envelope : StateEnvelope) (retained : Bool)
      → Holds id Anything (state house device envelope retained)
  unfolding state
  Holds-state house device envelope retained =
      Holds-found
        (λ r.
          str_eq r.correlation_id envelope.correlation_id
          && (str_eq r.house_id house && str_eq r.device_id device))
        (state house device envelope retained) commit
        (λ row. do row' ← state_row envelope.on retained row; store row'; commit) (λ s. refl)
        (Holds-commit id)
        (λ row fair.
          Holds-store-commit (state_row envelope.on retained row)
            (Fair-state_row id envelope.on retained row fair))

  pub Holds-get : (house command_id : String) → Holds id Anything (get house command_id)
  unfolding get
  Holds-get house command_id =
      Holds-found (λ r. str_eq r.house_id house && str_eq r.command_id command_id)
        (get house command_id) (λ s. (err not_found, s))
        (λ row. do row' ← expire row; store row'; commit; pure row') (λ s. refl)
        (Holds-err not_found)
        (λ row fair.
          Holds-save (expire row) pure (Fair-expire id row fair) (λ r. Holds-pure id Anything r tt))
