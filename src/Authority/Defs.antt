-- ===== src/Authority/Defs.antt =====
-- The operations of `ControlAuthority` up to staging (app/services/control_authority.py). SHA-256
-- over the command's wire text and the gate callable are arguments.
use kz_home_core.Common.{
  ℕ, ◌+◌, ◌-◌, String, Bool, true, false, not, ◌&&◌, ◌||◌, Option, none, some, List, [], ◌∷◌,
  str_eq, bool_eq, ltb, leb, ◌==◌, is_some, is_none, if◌then◌else◌, length, keep, find, contains,
  lookup, insert, Exec, Result, ok, err, conflict, unavailable, not_found, gets, modify, raise_if,
  min, ◌>>=◌, ◌>>◌,
}
use kz_home_core.Clocks.ControlClock.{sample, tick, recovered, lifetime_us}
use kz_home_core.Database.{
  Database, DeviceCommand, ControlCommand, PhysicalDevice, Wire, is_pending, is_active,
  command_by_id, control_by_id, physical_by_device, is_in_house, command_conflicts, set_command,
}
use kz_home_core.System.{
  Identity, Window, ControlDelivery, command, Authority, System, on_authority, on_control_clock,
  roll_back,
}

abbrev pub profile : String
profile = "deadline-permit-v1"

abbrev pub max_windows : ℕ
max_windows = 4096

-- `closed_gate`
unfoldable pub closed_gate : Database → String → String → Result (Unit {0})
closed_gate db house device = err conflict

-- `identity`
unfoldable pub identity : DeviceCommand → Identity
identity row = record {
  command_id = row.command_id;
  house_id = row.house_id;
  device_id = row.device_id;
  correlation_id = row.correlation_id;
  created_at = row.created_at;
  expires_at = row.expires_at;
  requested_on = row.requested_on;
}

unfoldable pub identity_eq : Identity → Identity → Bool
identity_eq a b =
    str_eq a.command_id b.command_id
    && (str_eq a.house_id b.house_id
        && (str_eq a.device_id b.device_id
            && (str_eq a.correlation_id b.correlation_id
                && (a.created_at == b.created_at
                    && (a.expires_at == b.expires_at && bool_eq a.requested_on b.requested_on)))))

-- `CommandRepository.find(command_id=…, house_id=…, device_id=…)`
unfoldable pub bound_command : String → String → String → Database → Option DeviceCommand
bound_command house device command_id db =
    find
      (λ r.
        str_eq r.command_id command_id && (str_eq r.house_id house && str_eq r.device_id device))
      db.commands

-- `PhysicalDeviceRepository.for_house`
unfoldable pub for_house : String → String → Database → Option PhysicalDevice
unfolding physical_by_device
for_house house device db = elim (physical_by_device device db) [
  | none ↦ none
  | some item ↦
      (if (elim item.house_id [ none ↦ false | some h ↦ str_eq h house ]) then some item else none)
]

-- The snapshot of `initialize`: pending commands of other epochs.
unfoldable pub foreign_pending : String → Database → List ControlCommand
foreign_pending epoch db =
    keep
      (λ c.
        elim (command_by_id c.command_id db) [ none ↦ false | some row ↦ is_pending row.status ]
        && not (str_eq c.authority_epoch epoch))
      db.controls

abbrev pub identifiers : List ControlCommand → List String
identifiers [] = []
identifiers (c ∷ cs) = c.command_id ∷ identifiers cs

-- The end of `initialize`: the reading starts the fence, or latches the timer fault.
unfoldable pub start_fence : List String → Option ℕ → Exec Authority (Unit {0})
start_fence ids reading a =
    elim (if a.clock.timer_fault
      then none
      else elim reading [ none ↦ none | some t ↦ if ltb t a.clock.last then none else some t ]) [
        | none ↦ (err unavailable, record a { clock = record a.clock { timer_fault = true } })
        | some t ↦ (
          ok tt,
          record a {
            clock = record a.clock { last = t; fence_start = t };
            recovery_ids = ids;
            recovery_initialized = true;
          },
        )
      ]

-- `initialize`
unfoldable pub initialize : Exec System (Unit {0})
unfolding start_fence foreign_pending
initialize s =
    if s.authority.recovery_initialized
    then (ok tt, s)
    else let found = foreign_pending s.authority.clock.epoch s.db in
      if ltb max_windows (length found)
      then (err unavailable, s)
      else let c = s.authority.clock in
        let read = record s.authority { clock = record c { calls = c.calls + 1 } } in
        on_authority (start_fence (identifiers found) (c.ticks c.calls))
          (record s { authority = read })

-- A window is kept unless its command is in the database and no longer pending.
unfoldable pub is_unresolved : Database → String × Window → Bool
is_unresolved db (command_id, window) = elim (command_by_id command_id db) [
  | none ↦ true
  | some row ↦ is_pending row.status
]

-- Pop the windows of terminal commands, only when the table is full.
unfoldable pub evict : Exec System (Unit {0})
unfolding is_unresolved
evict s =
    if leb max_windows (length s.authority.windows)
    then (
      ok tt,
      record s {
        authority = record s.authority { windows = keep (is_unresolved s.db) s.authority.windows };
      },
    )
    else (ok tt, s)

-- `not created <= now < expires or not 0 < lifetime <= LIFETIME_US`
unfoldable pub deadline_invalid : DeviceCommand → ℕ → Bool
deadline_invalid row now =
    not (leb row.created_at now && ltb now row.expires_at)
    || not (ltb row.created_at row.expires_at && leb (row.expires_at - row.created_at) lifetime_us)

unfoldable pub wire_of : String → DeviceCommand → Wire
wire_of epoch row = record {
  core_epoch = epoch;
  command_id = row.command_id;
  correlation_id = row.correlation_id;
  timestamp = row.created_at;
  expires_at = row.expires_at;
  on = row.requested_on;
}

module _ (digest : Wire → String) (gate : Database → String → String → Result (Unit {0})) where
  -- `physical`
  unfoldable pub physical : String → String → Exec System (Unit {0})
  unfolding for_house
  physical house device s = elim (for_house house device s.db) [
    | none ↦ (err not_found, s)
    | some item ↦
        (if not (is_active item.status) || not (is_in_house device house s.db)
          then (err conflict, s)
          else (gate s.db house device, s))
  ]

  -- The ledger row, then its private record, committed together; a conflict rolls both back.
  unfoldable pub insert_candidate : DeviceCommand → Exec System ControlCommand
  unfolding wire_of
  insert_candidate row s =
      let wire = wire_of s.authority.clock.epoch row in
      let control : ControlCommand = record {
        command_id = row.command_id;
        execution_profile = profile;
        authority_epoch = s.authority.clock.epoch;
        wire_payload = wire;
        wire_sha256 = digest wire;
        permit_binding_sha256 = none;
      } in
      if command_conflicts row s.db || is_some (control_by_id row.command_id s.db)
      then (err conflict, roll_back s)
      else (let db : Database = record s.db {
        commands = row ∷ s.db.commands;
        controls = control ∷ s.db.controls;
      } in
          (ok control, record s { db = db; saved = db }))

  -- `prepare`; `is_transient` is `inspect(row).transient`.
  unfoldable pub prepare : Bool → DeviceCommand → Exec System (Unit {0})
  prepare is_transient row = do
    physical row.house_id row.device_id
    initialized ← gets (λ s. s.authority.recovery_initialized)
    raise_if (not initialized) unavailable
    (now, at) ← on_control_clock sample
    exists ← gets (λ s. is_some (command_by_id row.command_id s.db))
    raise_if
        (not is_transient
          || not (is_pending row.status)
          || exists
          || is_some row.dispatch_started_at)
        conflict
    raise_if (deadline_invalid row now) conflict
    evict
    full ← gets (λ s. leb max_windows (length s.authority.windows))
    raise_if full unavailable
    control ← insert_candidate row
    modify (λ s. record s {
      authority = record s.authority {
        windows =
            insert row.command_id
              (record {
                deadline = at + (row.expires_at - now);
                identity = identity row;
                wire_sha256 = control.wire_sha256;
              })
              s.authority.windows;
      };
    })

  -- The guard of `stage`.
  unfoldable pub stageable : String → ℕ → DeviceCommand → ControlCommand → Window → Bool
  stageable epoch at row control window =
      str_eq control.authority_epoch epoch
      && (is_pending row.status
          && (is_none row.dispatch_started_at
              && (identity_eq window.identity (identity row)
                  && (str_eq control.wire_sha256 window.wire_sha256
                      && (str_eq (digest control.wire_payload) window.wire_sha256
                          && ltb at window.deadline)))))

  -- The rest of `stage` on the rows found.
  unfoldable pub dispatch :
      String
      → ℕ
      → ℕ
      → Option DeviceCommand
      → Option ControlCommand
      → Option Window
      → Exec System ControlDelivery
  unfolding stageable
  dispatch command_id now at (some row) (some control) (some window) s =
      if stageable s.authority.clock.epoch at row control window
      then (let db = set_command (record row { dispatch_started_at = some now }) s.db in
          (
            ok (record {
              payload = command control.wire_payload;
              command_id = command_id;
              epoch = s.authority.clock.epoch;
              deadline_tick = window.deadline;
              valid_until_tick = window.deadline;
              is_grant = false;
            }),
            record s { db = db; saved = db },
          ))
      else (err conflict, s)
  dispatch command_id now at _ _ _ s = (err conflict, s)

  -- The queries of `stage` and what it does with their rows.
  unfoldable pub stage_at : String → String → String → ℕ × ℕ → Exec System ControlDelivery
  stage_at house device command_id (now, at) s =
      dispatch command_id now at (bound_command house device command_id s.db)
        (control_by_id command_id s.db) (lookup command_id s.authority.windows) s

  -- `stage`
  unfoldable pub stage : String → String → String → Exec System ControlDelivery
  stage house device command_id = do
    physical house device
    sampled ← on_control_clock sample
    stage_at house device command_id sampled

-- `validate_delivery`
unfoldable pub validate_delivery : ControlDelivery → Exec System (Unit {0})
validate_delivery delivery = do
  (now, at) ← on_control_clock sample
  epoch ← gets (λ s. s.authority.clock.epoch)
  raise_if
      (not (str_eq delivery.epoch epoch)
        || leb (min delivery.valid_until_tick delivery.deadline_tick) at)
      conflict

-- `expired`
unfoldable pub expired : ControlCommand → Exec Authority Bool
expired control a =
    if not (str_eq control.authority_epoch a.clock.epoch)
    then (if not a.recovery_initialized || not (contains control.command_id a.recovery_ids)
        then (err unavailable, a)
        else (let (r, c) = recovered a.clock in
            (
              elim r [ ok past ↦ (if past then ok true else err unavailable) | err e ↦ err e ],
              record a { clock = c },
            )))
    else elim (lookup control.command_id a.windows) [
      | none ↦ (err unavailable, a)
      | some window ↦
          (let (r, c) = tick a.clock in
            (elim r [ ok t ↦ ok (leb window.deadline t) | err e ↦ err e ], record a { clock = c }))
    ]
