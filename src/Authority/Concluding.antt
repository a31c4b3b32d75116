-- ===== src/Authority/Concluding.antt =====
-- The end of `submit`, behind the awaited call, leaves a staged command staged (app/services/command_service.py).
use kz_home_core.Common.{
  String, some, refl, inl, inr, str_eq, Bool-cases, err, attribute_error, cancelled, pure, ◌>>=◌,
  if◌then◌else◌, ◌>>◌, arith, is_some, or_else,
}
use kz_home_core.Clocks.CommandClock.{now}
use kz_home_core.Database.{DeviceCommand, failed, publish_unconfirmed, is_pending, command_by_id}
use kz_home_core.System.{commit, on_command_clock}
use kz_home_core.Commands.Defs.{expire, store}
use kz_home_core.Commands.Submit.{
  Delivery, published, publish_failed, publish_cancelled, mark_unconfirmed, mark_dispatched,
  conclude,
}
use kz_home_core.Authority.Staged.{IsFair, Holds, Anything, Holds-bind, Holds-same}
use kz_home_core.Authority.Fair.{Fair, Fair-pure, Fair-expire, Fair-finish}
use kz_home_core.Authority.Evidence.{Holds-store-commit, Holds-found, Holds-err}

module _ (id : String) where
  Fair-mark_unconfirmed : (row : DeviceCommand) → IsFair id row → Fair id (mark_unconfirmed row)
  unfolding mark_unconfirmed
  Fair-mark_unconfirmed row fair = elim (Bool-cases (is_pending row.status)) [
    | inl live ↦ rw live (Fair-finish id failed (some publish_unconfirmed) row fair)
    | inr done ↦ rw done (Fair-pure id row fair)
  ]

  Fair-mark_dispatched : (row : DeviceCommand) → IsFair id row → Fair id (mark_dispatched row)
  unfolding mark_dispatched
  Fair-mark_dispatched row fair = elim (Bool-cases (is_pending row.status)) [
    | inl live ↦ rw live (
        Holds-bind id
          (if is_some row.dispatched_at
            then pure (or_else row.dispatched_at 0)
            else on_command_clock now)
          _ (Holds-same id _ (λ s. ground arith))
          (λ time _.
            Holds-bind id (on_command_clock now) _ (Holds-same id _ (λ s. (refl, refl)))
              (λ updated _. Fair-pure id _ fair)))
    | inr done ↦ rw done (Fair-pure id row fair)
  ]

  pub Holds-conclude :
      (delivery : Delivery) (command_id : String) → Holds id Anything (conclude delivery command_id)
  unfolding conclude command_by_id
  Holds-conclude publish_cancelled command_id = Holds-err id cancelled
  Holds-conclude published command_id =
      Holds-found id (λ r. str_eq r.command_id command_id) (conclude published command_id)
        (λ s. (err attribute_error, s))
        (λ row. do row' ← expire row; row'' ← mark_dispatched row'; store row''; commit) (λ s. refl)
        (Holds-err id attribute_error)
        (λ row fair. Holds-bind id (expire row) _ (Fair-expire id row fair) (λ row' fair'.
          Holds-store-commit id (mark_dispatched row') (Fair-mark_dispatched row' fair')))
  Holds-conclude publish_failed command_id =
      Holds-found id (λ r. str_eq r.command_id command_id) (conclude publish_failed command_id)
        (λ s. (err attribute_error, s))
        (λ row. do row' ← expire row; row'' ← mark_unconfirmed row'; store row''; commit)
        (λ s. refl) (Holds-err id attribute_error)
        (λ row fair. Holds-bind id (expire row) _ (Fair-expire id row fair) (λ row' fair'.
          Holds-store-commit id (mark_unconfirmed row') (Fair-mark_unconfirmed row' fair')))
