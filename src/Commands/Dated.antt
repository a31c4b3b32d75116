-- ===== src/Commands/Dated.antt =====
-- The time from which a new command is dated: the reading of the command clock that `submit` takes for it
-- (app/services/command_service.py).
use kz_home_core.Common.{
  ℕ, ◌+◌, Bool, true, false, not, Option, none, some, ◌≡◌, refl, sym, subst, ◌∙◌, ap, ◌⊎◌, inl, inr,
  Bool-cases, [], ◌∷◌, Result, ok, Exec, invalid_reference, conflict, unavailable, Moves,
  Moves-bind, bind-ok, ok-transport, gets, pure, raise_if, ◌>>=◌, ◌>>◌, arith,
}
use kz_home_core.Clocks.CommandClock.{CommandClock, now}
use kz_home_core.Database.{DeviceCommand, Device, pending, is_pending}
use kz_home_core.StateValidator.{boolean, validate_command}
use kz_home_core.System.{System, on_command_clock}
use kz_home_core.Commands.Defs.{
  event_time, finish, is_expired, time_out, settle_expiry, expire, store,
}
use kz_home_core.Commands.Submit.{
  Intent, Transport, Fresh, Reservation, lift, reserved, clear_pending, new_row, insert_command,
  admit, place,
}

-- The clocks that further readings of a command clock lead to.
pub data Reads (c : CommandClock) : CommandClock → Type 0 where
  unread : Reads c c
  further : (d : CommandClock) → Reads c d → Reads c (now d).1

Reads-trans : {c d e : CommandClock} → Reads c d → Reads d e → Reads c e
Reads-trans h unread = h
Reads-trans h (further d k) = further d (Reads-trans h k)

-- The row is dated by the last reading of the command clock, and ends 30 seconds later.
pub record IsDated (c : CommandClock) (row : DeviceCommand) (t : System) : Type 0 where
  pub clock : CommandClock
  pub reads : Reads c clock
  pub told : (now clock).0 ≡ ok row.created_at
  pub last : t.clock ≡ (now clock).1
  pub ends : row.expires_at ≡ row.created_at + 30_000_000

-- The same seen from an earlier clock.
pub IsDated-later :
    {c d : CommandClock} {row : DeviceCommand} {t : System}
    → Reads c d
    → IsDated d row t
    → IsDated c row t
IsDated-later h k = record {
  clock = k.clock;
  reads = Reads-trans h k.reads;
  told = k.told;
  last = k.last;
  ends = k.ends;
}

abbrev ReadsOf : System → System → Type 0
ReadsOf s t = Reads s.clock t.clock

abbrev OnlyReads : {A : Type 0} → Exec System A → Type 0
OnlyReads m = Moves ReadsOf m

OnlyReads-bind :
    {A B : Type 0} (m : Exec System A) (f : A → Exec System B)
    → OnlyReads m
    → ((a : A) → OnlyReads (f a))
    → OnlyReads (m >>= f)
OnlyReads-bind = Moves-bind ReadsOf (λ s. unread) (λ s t u. Reads-trans)

OnlyReads-same :
    {A : Type 0} (m : Exec System A) → ((s : System) → (m s).1.clock ≡ s.clock) → OnlyReads m
OnlyReads-same m h = record { at = λ s. subst (Reads s.clock) (sym (h s)) unread }

OnlyReads-now : OnlyReads (on_command_clock now)
OnlyReads-now = record { at = λ s. further s.clock unread }

OnlyReads-if :
    {A : Type 0} (m : Exec System A)
    → ((s : System) → ((m s).1.clock ≡ s.clock) ⊎ ((m s).1.clock ≡ (now s.clock).1))
    → OnlyReads m
OnlyReads-if m h = record {
  at = λ s. elim (h s) [
    | inl same ↦ subst (Reads s.clock) (sym same) unread
    | inr moved ↦ subst (Reads s.clock) (sym moved) (further s.clock unread)
  ];
}

event_time-OnlyReads : (row : DeviceCommand) → OnlyReads (event_time row)
unfolding event_time
event_time-OnlyReads row = OnlyReads-if (event_time row) (λ s. ground arith)

is_expired-OnlyReads : (row : DeviceCommand) → OnlyReads (is_expired row)
unfolding is_expired
is_expired-OnlyReads row = OnlyReads-if (is_expired row) (λ s. ground arith)

time_out-OnlyReads : (row : DeviceCommand) → OnlyReads (time_out row)
unfolding time_out finish event_time
time_out-OnlyReads row = OnlyReads-if (time_out row) (λ s. ground arith)

settle_expiry-OnlyReads : (past : Bool) (row : DeviceCommand) → OnlyReads (settle_expiry past row)
unfolding settle_expiry
settle_expiry-OnlyReads true row = time_out-OnlyReads row
settle_expiry-OnlyReads false row = OnlyReads-same (pure row) (λ s. refl)

expire-OnlyReads : (row : DeviceCommand) → OnlyReads (expire row)
unfolding expire
expire-OnlyReads row = record {
  at = λ s. elim (Bool-cases (is_pending row.status)) [
    | inl live ↦ rw live (
        (OnlyReads-bind (is_expired row) (λ past. settle_expiry past row) (is_expired-OnlyReads row)
            (λ past. settle_expiry-OnlyReads past row)).at
          s)
    | inr done ↦ rw done unread
  ];
}

clear_pending-OnlyReads : (waiting : Option DeviceCommand) → OnlyReads (clear_pending waiting)
unfolding clear_pending
clear_pending-OnlyReads none = OnlyReads-same (clear_pending none) (λ s. refl)
clear_pending-OnlyReads (some row) = record {
  at = λ s.
      (OnlyReads-bind (expire row) _ (expire-OnlyReads row) (λ row'.
          OnlyReads-same (store row' >> raise_if (is_pending row'.status) conflict)
            (λ t. ground arith))).at
        s;
}

-- The checks in front of a new row only read the command clock.
pub admit-OnlyReads :
    (transport : Transport) (intent : Intent) (device : Device) (s : System)
    → Reads s.clock (admit transport intent device s).1.clock
unfolding admit
admit-OnlyReads transport intent device s =
    (OnlyReads-bind (raise_if _ invalid_reference) _ (OnlyReads-same _ (λ t. ground arith)) (λ _.
        OnlyReads-bind
          (lift (validate_command device.capabilities (("on", boolean intent.on) ∷ []))) _
          (OnlyReads-same _ (λ t. refl))
          (λ _.
            OnlyReads-bind (gets (λ t. pending intent.device_id t.db)) _
              (OnlyReads-same _ (λ t. refl))
              (λ waiting.
                OnlyReads-bind (clear_pending waiting) _ (clear_pending-OnlyReads waiting) (λ _.
                  OnlyReads-bind (raise_if (not device.online) conflict) _
                    (OnlyReads-same _ (λ t. ground arith))
                    (λ _.
                      OnlyReads-bind (raise_if (not transport.is_connected) unavailable) _
                        (OnlyReads-same _ (λ t. ground arith))
                        (λ _.
                          OnlyReads-same
                            (lift (transport.authorize intent.house_id intent.device_id))
                            (λ t. refl)))))))).at
      s

insert_command-clock : (row : DeviceCommand) (s : System) → (insert_command row s).1.clock ≡ s.clock
unfolding insert_command
insert_command-clock row s = ground arith

-- `place` dates its row by its own reading.
pub place-IsDated :
    (intent : Intent) (fresh : Fresh) (s : System) (row : DeviceCommand)
    → (place intent fresh s).0 ≡ ok (reserved row)
    → IsDated s.clock row (place intent fresh s).1
unfolding place new_row
place-IsDated intent fresh s row h =
    let next = λ (t : ℕ).
      insert_command (new_row intent fresh t) >> pure (reserved (new_row intent fresh t)) in
    let (time, p, e) = bind-ok (on_command_clock now) next s (reserved row) h in
    let new = new_row intent fresh time in
    let s1 = (on_command_clock now s).1 in
    let (_, i, f) =
      bind-ok (insert_command new) (λ _. pure (reserved new)) s1 (reserved row)
        (ok-transport e h) in
    let same : new ≡ row = ground (arith, ok-transport f (ok-transport e h)) in
    record {
      clock = s.clock;
      reads = unread;
      told = ground arith;
      last =
          ap (λ (x : Result Reservation × System). x.1.clock) (e ∙ f) ∙ insert_command-clock new s1;
      ends = ground arith;
    }
