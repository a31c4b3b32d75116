-- ===== src/System.antt =====
-- The state that the command path shares: the session's view of the database and what is committed
-- of it, the dispatch clock, and the one `ControlAuthority` (app/services/control_authority.py) with
-- its private windows, replies and rate counters.
use kz_home_core.Common.{ℕ, String, Bool, Option, List, Exec, ok}
use kz_home_core.Clocks.CommandClock.{CommandClock}
use kz_home_core.Clocks.ControlClock.{ControlClock}
use kz_home_core.Database.{Database, Wire}

-- `identity(row)`
pub record Identity : Type 0 where
  pub command_id : String
  pub house_id : String
  pub device_id : String
  pub correlation_id : String
  pub created_at : ℕ
  pub expires_at : ℕ
  pub requested_on : Bool

pub record Window : Type 0 where
  pub deadline : ℕ
  pub identity : Identity
  pub wire_sha256 : String

-- `PermitRequest` of app/transports/control_models.py, less its literals.
pub record PermitRequest : Type 0 where
  pub core_epoch : String
  pub command_id : String
  pub boot_id : String
  pub session_id : String
  pub nonce : String
  pub intent_sha256 : String

-- What is published: the staged command, or the grant that repeats the request.
pub data Payload : Type 0 where
  command : Wire → Payload
  grant : PermitRequest → ℕ → ℕ → ℕ → Payload

pub record ControlDelivery : Type 0 where
  pub payload : Payload
  pub command_id : String
  pub epoch : String
  pub deadline_tick : ℕ
  pub valid_until_tick : ℕ
  pub is_grant : Bool

pub record Rate : Type 0 where
  pub house_id : String
  pub device_id : String
  pub tick : ℕ

-- `global_second` is `none` for the initial -1.
pub record Authority : Type 0 where
  pub clock : ControlClock
  pub windows : List (String × Window)
  pub replies : List (String × (String × ControlDelivery))
  pub rates : List Rate
  pub global_second : Option ℕ
  pub global_count : ℕ
  pub recovery_initialized : Bool
  pub recovery_ids : List String

pub record System : Type 0 where
  pub db : Database
  pub saved : Database
  pub clock : CommandClock
  pub authority : Authority

-- A call on one of the parts.
abbrev pub on_authority : {A : Type 0} → Exec Authority A → Exec System A
on_authority m s = let (r, a) = m s.authority in (r, record s { authority = a })

abbrev pub on_control_clock : {A : Type 0} → Exec ControlClock A → Exec System A
on_control_clock m s =
    let (r, c) = m s.authority.clock in
    (r, record s { authority = record s.authority { clock = c } })

abbrev pub on_command_clock : {A : Type 0} → Exec CommandClock A → Exec System A
on_command_clock m s = let (r, c) = m s.clock in (r, record s { clock = c })

-- `session.commit()` and `session.rollback()`
abbrev pub commit : Exec System (Unit {0})
commit s = (ok tt, record s { saved = s.db })

abbrev pub roll_back : System → System
roll_back s = record s { db = s.saved }

abbrev pub change : (Database → Database) → Exec System (Unit {0})
change f s = (ok tt, record s { db = f s.db })
