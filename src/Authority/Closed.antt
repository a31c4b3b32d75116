-- ===== src/Authority/Closed.antt =====
-- Shipped wiring: with the closed gate no physical command is prepared, staged or granted
-- (app/services/control_authority.py, `closed_gate`).
use kz_home_core.Common.{String, Bool, false, List, ◌≡◌, returns, arith}
use kz_home_core.Database.{DeviceCommand, Wire}
use kz_home_core.System.{System, PermitRequest}
use kz_home_core.Authority.Defs.{closed_gate, physical, prepare, stage}
use kz_home_core.Authority.Grant.{request}

physical_closed :
    (digest : Wire → String) (house device : String) (s : System)
    → (returns (physical digest closed_gate house device s).0 ≡ false)
      × ((physical digest closed_gate house device s).1 ≡ s)
unfolding physical closed_gate
physical_closed digest house device s = (ground arith, ground arith)

-- Under the closed gate preparing, staging and requesting a permit never return and leave the whole
-- system (database, windows, replies, clocks) exactly as it was.
pub closed_refuses :
    (digest : Wire → String) (binding_digest : List String → String) (s : System)
    (is_transient : Bool) (row : DeviceCommand) (house device command_id : String)
    (r : PermitRequest)
    → (returns (prepare digest closed_gate is_transient row s).0 ≡ false)
      × ((prepare digest closed_gate is_transient row s).1 ≡ s)
      × (returns (stage digest closed_gate house device command_id s).0 ≡ false)
      × ((stage digest closed_gate house device command_id s).1 ≡ s)
      × (returns (request digest binding_digest closed_gate house device r s).0 ≡ false)
      × ((request digest binding_digest closed_gate house device r s).1 ≡ s)
unfolding prepare stage request
closed_refuses digest binding_digest s is_transient row house device command_id r = (
  ground (arith, physical_closed digest row.house_id row.device_id s),
  ground (arith, physical_closed digest row.house_id row.device_id s),
  ground (arith, physical_closed digest house device s),
  ground (arith, physical_closed digest house device s),
  ground (arith, physical_closed digest house device s),
  ground (arith, physical_closed digest house device s),
)
