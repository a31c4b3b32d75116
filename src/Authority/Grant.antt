-- ===== src/Authority/Grant.antt =====
-- `request` of `ControlAuthority` and its rate limit (app/services/control_authority.py). SHA-256
-- over the wire text and over the JSON list that binds a permit, and the gate, are arguments.
use kz_home_core.Common.{
  ℕ, ◌+◌, ◌-◌, ◌/◌, String, Bool, true, false, not, ◌&&◌, ◌||◌, Option, none, some, List, [], ◌∷◌,
  str_eq, ltb, leb, ◌==◌, is_some, if◌then◌else◌, length, keep, any, update, lookup, insert, Exec,
  Result, ok, err, conflict, unavailable, pure, gets, modify, raise_if, ◌>>=◌, ◌>>◌, min,
}
use kz_home_core.Clocks.ControlClock.{sample, permit_us}
use kz_home_core.Database.{Database, DeviceCommand, ControlCommand, Wire, is_pending, control_by_id}
use kz_home_core.System.{
  Window, PermitRequest, ControlDelivery, grant, Rate, Authority, System, on_authority,
  on_control_clock, roll_back,
}
use kz_home_core.Authority.Defs.{profile, identity, identity_eq, bound_command, physical}

abbrev pub max_replies : ℕ
max_replies = 1024

abbrev pub max_rates : ℕ
max_rates = 4096

abbrev pub max_per_second : ℕ
max_per_second = 100

abbrev pub rate_interval : ℕ
rate_interval = 1_000_000

-- `tick - value < 1_000_000`
unfoldable pub is_recent : ℕ → Rate → Bool
is_recent tick r = ltb tick (r.tick + rate_interval)

unfoldable pub is_rate_of : String → String → Rate → Bool
is_rate_of house device r = str_eq r.house_id house && str_eq r.device_id device

-- A new second resets the global count.
unfoldable pub count_in_second : Option ℕ → ℕ → ℕ → ℕ
count_in_second none second count = 0
count_in_second (some last) second count = if last == second then count else 0

-- `_limit`
unfoldable pub limit : String → String → ℕ → Exec Authority (Unit {0})
unfolding is_recent is_rate_of count_in_second
limit house device tick a =
    let rates = keep (is_recent tick) a.rates in
    let count = count_in_second a.global_second (tick / rate_interval) a.global_count in
    let purged = record a {
      rates = rates;
      global_second = some (tick / rate_interval);
      global_count = count;
    } in
    if any (is_rate_of house device) rates
      || (leb max_rates (length rates) || leb max_per_second count)
    then (err unavailable, purged)
    else (
      ok tt,
      record purged {
        rates = record { house_id = house; device_id = device; tick = tick } ∷ rates;
        global_count = count + 1;
      },
    )

-- Replies that are still valid at `tick`.
unfoldable pub is_valid_at : ℕ → String × (String × ControlDelivery) → Bool
is_valid_at tick (command_id, (binding, reply)) = ltb tick reply.valid_until_tick

-- The compare-and-set of the permit binding: the unique constraint over all records, then the rows
-- that are still unbound.
unfoldable pub binding_taken : String → Database → Bool
binding_taken binding db =
    any (λ c. elim c.permit_binding_sha256 [ none ↦ false | some b ↦ str_eq b binding ]) db.controls

unfoldable pub is_unbound : String → ControlCommand → Bool
is_unbound command_id c = str_eq c.command_id command_id && not (is_some c.permit_binding_sha256)

unfoldable pub bind_permit : String → String → Exec System (Unit {0})
unfolding binding_taken is_unbound
bind_permit command_id binding s =
    if binding_taken binding s.db
    then (err conflict, roll_back s)
    else if not (length (keep (is_unbound command_id) s.db.controls) == 1)
    then (err conflict, roll_back s)
    else (let db = record s.db {
      controls =
          update (is_unbound command_id) (λ c. record c { permit_binding_sha256 = some binding })
            s.db.controls;
    } in
        (ok tt, record s { db = db; saved = db }))

-- A bound permit is only ever answered again, by the same reply to the same binding.
unfoldable pub repeat_reply :
    ℕ → String → String → Option (String × ControlDelivery) → Result ControlDelivery
repeat_reply tick bound binding none = err conflict
repeat_reply tick bound binding (some (previous, reply)) =
    if str_eq bound binding && (str_eq previous binding && ltb tick reply.valid_until_tick)
    then ok reply
    else err conflict

-- The limits in front of a grant: the rate, and room for one more reply.
unfoldable pub make_room : String → String → ℕ → Exec Authority (Unit {0})
unfolding is_valid_at
make_room house device tick = do
  limit house device tick
  modify (λ a. record a { replies = keep (is_valid_at tick) a.replies })
  full ← gets (λ a. leb max_replies (length a.replies))
  raise_if full unavailable

-- `min(PERMIT_US, deadline - tick) - 1`
abbrev pub remaining_us : ℕ → ℕ → ℕ
remaining_us deadline tick = min permit_us (deadline - tick) - 1

unfoldable pub reply_of : PermitRequest → ℕ → ℕ → DeviceCommand → Window → String → ControlDelivery
reply_of r now tick row window epoch = record {
  payload = grant r now row.expires_at (remaining_us window.deadline tick);
  command_id = row.command_id;
  epoch = epoch;
  deadline_tick = window.deadline;
  valid_until_tick = tick + remaining_us window.deadline tick;
  is_grant = true;
}

-- The first answer to a candidate: limits, the remaining time, the durable binding, the reply.
unfoldable pub grant_permit :
    String
    → String
    → PermitRequest
    → ℕ
    → ℕ
    → DeviceCommand
    → Window
    → String
    → Exec System ControlDelivery
grant_permit house device r now tick row window binding = do
  on_authority (make_room house device tick)
  raise_if (leb (remaining_us window.deadline tick) 0) conflict
  bind_permit row.command_id binding
  reply ← gets (λ s. reply_of r now tick row window s.authority.clock.epoch)
  on_authority
      (modify (λ a. record a { replies = insert row.command_id (binding, reply) a.replies }))
  pure reply

module _ (digest : Wire → String) (binding_digest : List String → String)
    (gate : Database → String → String → Result (Unit {0})) where
  -- `digest(json.dumps([house, device, core_epoch, boot_id, session_id, nonce]))`
  unfoldable pub binding_of : String → String → PermitRequest → String
  binding_of house device r =
      binding_digest (house ∷ device ∷ r.core_epoch ∷ r.boot_id ∷ r.session_id ∷ r.nonce ∷ [])

  -- The guard of `request` on the rows found.
  unfoldable pub is_candidate :
      String → PermitRequest → DeviceCommand → ControlCommand → Window → Bool
  is_candidate epoch r row control window =
      str_eq control.execution_profile profile
      && (str_eq r.core_epoch epoch
          && (str_eq control.authority_epoch epoch
              && (str_eq r.intent_sha256 control.wire_sha256
                  && (str_eq control.wire_sha256 window.wire_sha256
                      && (str_eq (digest control.wire_payload) control.wire_sha256
                          && (is_pending row.status
                              && (is_some row.dispatch_started_at
                                  && identity_eq window.identity (identity row))))))))

  -- `request` on the rows found.
  unfoldable pub answer :
      String
      → String
      → PermitRequest
      → ℕ
      → ℕ
      → Option DeviceCommand
      → Option ControlCommand
      → Option Window
      → Exec System ControlDelivery
  unfolding is_candidate repeat_reply
  answer house device r now tick (some row) (some control) (some window) s =
      if not (is_candidate s.authority.clock.epoch r row control window)
      then (err conflict, s)
      else if leb window.deadline tick
      then (err conflict, s)
      else elim control.permit_binding_sha256 [
        | some bound ↦ (
          repeat_reply tick bound (binding_of house device r)
              (lookup row.command_id s.authority.replies),
          s,
        )
        | none ↦ grant_permit house device r now tick row window (binding_of house device r) s
      ]
  answer house device r now tick _ _ _ s = (err conflict, s)

  -- The queries of `request` and what it does with their rows.
  unfoldable pub request_at : String → String → PermitRequest → ℕ × ℕ → Exec System ControlDelivery
  request_at house device r (now, at) s =
      answer house device r now at (bound_command house device r.command_id s.db)
        (control_by_id r.command_id s.db) (lookup r.command_id s.authority.windows) s

  -- `request`
  unfoldable pub request : String → String → PermitRequest → Exec System ControlDelivery
  request house device r = do
    physical digest gate house device
    sampled ← on_control_clock sample
    request_at house device r sampled
