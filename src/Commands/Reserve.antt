-- ===== src/Commands/Reserve.antt =====
-- What `submit` has done when it goes to the network, and what a repeated key gets
-- (app/services/command_service.py).
use text.Mathlib.TextPositions.{eq_refl}
use kz_home_core.Common.{
  ℕ, String, Bool, true, false, not, ◌&&◌, ◌||◌, none, some, List, [], ◌∷◌, ◌≡◌, refl, ◌∙◌, sym, ap,
  subst, str_eq, bool_eq, any, keep, Result, ok, conflict, Error, bind-inv, bind-ok, ok-transport,
  Bool-cases, inl, inr, ◌>>=◌, ◌>>◌, pure, raise_if, arith, ltb,
}
use kz_home_core.Clocks.CommandClock.{CommandClock, now}
use kz_home_core.Database.{
  DeviceCommand, Device, is_pending, command_by_id, command_conflicts, excludes, physical_by_device,
}
use kz_home_core.System.{System, on_command_clock, commit}
use kz_home_core.Commands.Defs.{expire, store}
use kz_home_core.Commands.Dated.{Reads, IsDated, IsDated-later, place-IsDated, admit-OnlyReads}
use kz_home_core.Commands.Submit.{
  Intent, Transport, Fresh, Reservation, repeated, reserved, require_active,
  require_command_contract, lock_device, previous_command, repeat, new_row, insert_command, admit,
  place, create, decide, reserve_locked, reserve,
}

-- The test of a pending command of a device.
abbrev pub is_pending_of : String → DeviceCommand → Bool
is_pending_of device r = str_eq r.device_id device && is_pending r.status

excludes-false :
    (row r : DeviceCommand)
    → is_pending row.status ≡ true
    → excludes row r ≡ false
    → is_pending_of row.device_id r ≡ false
unfolding excludes
excludes-false row r live h = ground arith

no_conflict_no_pending :
    (row : DeviceCommand) (rows : List DeviceCommand)
    → is_pending row.status ≡ true
    → any (excludes row) rows ≡ false
    → keep (is_pending_of row.device_id) rows ≡ []
no_conflict_no_pending row [] live h = refl
no_conflict_no_pending row (r ∷ rows) live h = elim (Bool-cases (excludes row r)) [
  | inl clash ↦ absurd (ground arith)
  | inr free ↦
      rw (excludes-false row r live free) (no_conflict_no_pending row rows live (rw free at h))
]

-- A row that has been inserted is committed, is the one found by its id, and is the only pending
-- command of its device.
pub record IsReserved (row : DeviceCommand) (t : System) : Type 0 where
  pub committed : t.saved ≡ t.db
  pub found : command_by_id row.command_id t.db ≡ some row
  pub alone : keep (is_pending_of row.device_id) t.db.commands ≡ row ∷ []
  pub ends_later : ltb row.created_at row.expires_at ≡ true

insert-IsReserved :
    (row : DeviceCommand) (s : System)
    → is_pending row.status ≡ true
    → (insert_command row s).0 ≡ ok tt
    → IsReserved row (insert_command row s).1
unfolding insert_command command_by_id command_conflicts
insert-IsReserved row s live h = record {
  committed = ground arith;
  found = ground (arith, eq_refl row.command_id);
  alone = ground (arith, eq_refl row.device_id, no_conflict_no_pending row s.db.commands live);
  ends_later = ground arith;
}

place-IsReserved :
    (intent : Intent) (fresh : Fresh) (s : System) (q : Reservation)
    → (place intent fresh s).0 ≡ ok q
    → (row : DeviceCommand) × (q ≡ reserved row)
      × (row ≡ new_row intent fresh row.created_at)
      × IsReserved row (place intent fresh s).1
      × IsDated s.clock row (place intent fresh s).1
unfolding place new_row
place-IsReserved intent fresh s q h =
    let next = λ (t : ℕ).
      insert_command (new_row intent fresh t) >> pure (reserved (new_row intent fresh t)) in
    let (time, p, e) = bind-ok (on_command_clock now) next s q h in
    let s1 = (on_command_clock now s).1 in
    let row = new_row intent fresh time in
    let (_, i, f) =
      bind-ok (insert_command row) (λ _. pure (reserved row)) s1 q (ok-transport e h) in
    (
      row,
      ground arith,
      refl,
      subst (λ (x : Result Reservation × System). IsReserved row x.1) (sym (e ∙ f))
          (insert-IsReserved row s1 refl i),
      place-IsDated intent fresh s row (ground (arith, h, ok-transport f (ok-transport e h))),
    )

contract-clock :
    (device : String) (s : System) → (require_command_contract device s).1.clock ≡ s.clock
unfolding require_command_contract
contract-clock device s = ground arith

no_contract :
    (device : String) (s : System)
    → (require_command_contract device s).0 ≡ ok tt
    → physical_by_device device s.db ≡ none
unfolding require_command_contract
no_contract device s h = ground arith

-- What `create` gives is a row that `IsReserved` and `IsDated`, and no physical device stands behind it.
create-IsReserved :
    (transport : Transport) (intent : Intent) (fresh : Fresh) (device : Device) (s : System)
    (q : Reservation)
    → (create transport intent fresh device s).0 ≡ ok q
    → (row : DeviceCommand) × (q ≡ reserved row)
      × (row ≡ new_row intent fresh row.created_at)
      × IsReserved row (create transport intent fresh device s).1
      × IsDated s.clock row (create transport intent fresh device s).1
      × (physical_by_device intent.device_id s.db ≡ none)
unfolding create
create-IsReserved transport intent fresh device s q h =
    let rest = admit transport intent device >> place intent fresh in
    let (_, c, e) = bind-ok (require_command_contract intent.device_id) (λ _. rest) s q h in
    let s1 = (require_command_contract intent.device_id s).1 in
    let (_, a, f) =
      bind-ok (admit transport intent device) (λ _. place intent fresh) s1 q (ok-transport e h) in
    let s2 = (admit transport intent device s1).1 in
    let (row, same, fields, done, dated) =
      place-IsReserved intent fresh s2 q (ok-transport f (ok-transport e h)) in
    (
      row,
      same,
      fields,
      subst (λ (x : Result Reservation × System). IsReserved row x.1) (sym (e ∙ f)) done,
      subst (λ (x : Result Reservation × System). IsDated s.clock row x.1) (sym (e ∙ f))
          (IsDated-later
            (subst (λ (c : CommandClock). Reads c s2.clock) (contract-clock intent.device_id s)
              (admit-OnlyReads transport intent device s1))
            dated),
      no_contract intent.device_id s c,
    )

-- The checks in front of the idempotency query leave the system as it is.
require_active-state : (device : String) (s : System) → (require_active device s).1 ≡ s
unfolding require_active
require_active-state device s = ground arith

lock_device-state : (device : String) (s : System) → (lock_device device s).1 ≡ s
unfolding lock_device
lock_device-state device s = ground arith

-- A reservation that returns is the answer to the idempotency query on the first state.
reserve-decide :
    (transport : Transport) (intent : Intent) (fresh : Fresh) (s : System) (q : Reservation)
    → (reserve transport intent fresh s).0 ≡ ok q
    → (device : Device) × (reserve transport intent fresh s
        ≡ decide transport intent fresh device (previous_command intent s.db) s)
unfolding reserve reserve_locked
reserve-decide transport intent fresh s q h =
    let locked = λ (d : Device). reserve_locked transport intent fresh d in
    let (_, p, e) =
      bind-ok (require_active intent.device_id) (λ _. lock_device intent.device_id >>= locked) s q
        h in
    let e' =
      e ∙ ap (lock_device intent.device_id >>= locked) (require_active-state intent.device_id s) in
    let (device, l, f) = bind-ok (lock_device intent.device_id) locked s q (ok-transport e' h) in
    let f' = e' ∙ (f ∙ ap (locked device) (lock_device-state intent.device_id s)) in
    (device, f' ∙ ground (arith, ok-transport f' h))

-- When a reservation with an unused key returns, it is a new row built from the intent; it is dated by the last
-- reading of the command clock, which the call has only read, and ends 30 seconds later; the row is committed
-- before anything is sent, is the one found by its id, and is the only pending command of its device; and the
-- device is no physical one.
pub reserve-IsReserved :
    (transport : Transport) (intent : Intent) (fresh : Fresh) (s : System) (q : Reservation)
    → previous_command intent s.db ≡ none
    → (reserve transport intent fresh s).0 ≡ ok q
    → (row : DeviceCommand) × (q ≡ reserved row)
      × (row ≡ new_row intent fresh row.created_at)
      × IsReserved row (reserve transport intent fresh s).1
      × IsDated s.clock row (reserve transport intent fresh s).1
      × (physical_by_device intent.device_id s.db ≡ none)
unfolding decide
reserve-IsReserved transport intent fresh s q unused h =
    let (device, e) = reserve-decide transport intent fresh s q h in
    let e' = e ∙ ap (λ p. decide transport intent fresh device p s) unused in
    let (row, same, fields, done, dated, virtual) =
      create-IsReserved transport intent fresh device s q (ok-transport e' h) in
    (
      row,
      same,
      fields,
      subst (λ (x : Result Reservation × System). IsReserved row x.1) (sym e') done,
      subst (λ (x : Result Reservation × System). IsDated s.clock row x.1) (sym e') dated,
      virtual,
    )

raise_if-passes :
    (b : Bool) (e : Error) (s : System)
    → {x : Unit {0}} → (raise_if b e s).0 ≡ ok x
    → (b ≡ false) × ((raise_if b e s).1 ≡ s)
raise_if-passes true e s h = absurd (ground arith)
raise_if-passes false e s h = (refl, refl)

repeat-repeated :
    (intent : Intent) (row : DeviceCommand) (s : System) (q : Reservation)
    → (repeat intent row s).0 ≡ ok q
    → (row' : DeviceCommand) × (q ≡ repeated row')
      × ((expire row s).0 ≡ ok row')
      × (str_eq row.device_id intent.device_id ≡ true)
      × (bool_eq row.requested_on intent.on ≡ true)
unfolding repeat
repeat-repeated intent row s q h =
    let other =
      not (str_eq row.device_id intent.device_id) || not (bool_eq row.requested_on intent.on) in
    let answer = λ (r : DeviceCommand). store r >> commit >> pure (repeated r) in
    let (_, p, k) = bind-inv (raise_if other conflict) (λ _. expire row >>= answer) s q h in
    let same = raise_if-passes other conflict s p in
    let (row', e, l) =
      bind-inv (expire row) answer s q
        (subst (λ (t : System). ((expire row >>= answer) t).0 ≡ ok q) same.1 k) in
    (row', ground arith, e, ground arith, ground arith)

-- When a reservation with a key that this user has used in this house returns, it is the earlier
-- command after its expiry check, never a new one, and that command was for the same device and the
-- same state.
pub reserve_repeat :
    (transport : Transport) (intent : Intent) (fresh : Fresh) (row : DeviceCommand) (s : System)
    (q : Reservation)
    → previous_command intent s.db ≡ some row
    → (reserve transport intent fresh s).0 ≡ ok q
    → (row' : DeviceCommand) × (q ≡ repeated row')
      × ((expire row s).0 ≡ ok row')
      × (str_eq row.device_id intent.device_id ≡ true)
      × (bool_eq row.requested_on intent.on ≡ true)
unfolding decide
reserve_repeat transport intent fresh row s q used h =
    let (device, e) = reserve-decide transport intent fresh s q h in
    repeat-repeated intent row s q
      (ok-transport (e ∙ ap (λ p. decide transport intent fresh device p s) used) h)
