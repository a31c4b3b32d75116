-- ===== src/Samples.antt =====
-- A small installation that the tests run: house "h" with the lamp "d", a physical device behind a
-- qualified control clock, and one control command "c" in it.
use kz_home_core.Common.{ℕ, ◌+◌, String, true, false, none, some, List, [], ◌∷◌, Result, ok, err}
use kz_home_core.Clocks.Wall.{Wall}
use kz_home_core.Clocks.CommandClock.{CommandClock}
use kz_home_core.Clocks.ControlClock.{ControlClock}
use kz_home_core.Database.{
  Database, DeviceCommand, Wire, ControlCommand, PhysicalDevice, active, Device, queued,
}
use kz_home_core.System.{Window, PermitRequest, Authority, System}

abbrev pub utc_at : ℕ → Wall
utc_at t = record { micros = t; is_utc = true }

-- The first reading is 5 seconds, then a microsecond more at every call.
abbrev pub dispatch_clock : CommandClock
dispatch_clock = record {
  wall = λ k. utc_at (5_000_000 + k);
  ticks = λ k. some (100 + k);
  calls = 0;
  anchor = none;
  fault = false;
  last_tick = none;
}

-- A qualified clock whose fence is over: tick k reads 40_000_000 + k.
abbrev pub control_clock : ControlClock
control_clock = record {
  ticks = λ k. some (40_000_000 + k);
  wall = λ k. utc_at 90_000_000;
  utc_health = λ _. true;
  calls = 0;
  epoch = "epoch";
  qualified = true;
  start = 0;
  last = 0;
  fence_start = 0;
  anchor = utc_at 50_000_000;
  timer_fault = false;
  wall_fault = false;
  fence_us = 30_000_000;
}

-- A command for the lamp, not yet staged.
abbrev pub fresh_row : DeviceCommand
fresh_row = record {
  command_id = "c";
  correlation_id = "k";
  house_id = "h";
  device_id = "d";
  requested_by = "u";
  idempotency_hash = "i";
  requested_on = true;
  status = queued;
  ack_status = none;
  reported_on = none;
  failure_code = none;
  created_at = 80_000_000;
  updated_at = 80_000_000;
  expires_at = 110_000_000;
  dispatch_started_at = none;
  dispatched_at = none;
  ack_received_at = none;
  state_received_at = none;
  completed_at = none;
}

abbrev pub started_row : DeviceCommand
started_row = record fresh_row { dispatch_started_at = some 85_000_000 }

abbrev pub wire : Wire
wire = record {
  core_epoch = "epoch";
  command_id = "c";
  correlation_id = "k";
  timestamp = 80_000_000;
  expires_at = 110_000_000;
  on = true;
}

abbrev pub control : ControlCommand
control = record {
  command_id = "c";
  execution_profile = "deadline-permit-v1";
  authority_epoch = "epoch";
  wire_payload = wire;
  wire_sha256 = "w";
  permit_binding_sha256 = none;
}

abbrev pub bound_control : ControlCommand
bound_control = record control { permit_binding_sha256 = some "n" }

abbrev pub lamp : PhysicalDevice
lamp = record {
  device_id = "d";
  hardware_id = "hw";
  hardware_model = "relay";
  status = active;
  claim_code_hash = none;
  house_id = some "h";
  bound_device_id = some "d";
}

abbrev pub device : Device
device = record {
  id = "d";
  house_id = "h";
  type = "relay";
  capabilities = "on_off" ∷ [];
  online = true;
  state = [];
}

abbrev pub window : Window
window = record {
  deadline = 70_000_000;
  identity = record {
    command_id = "c";
    house_id = "h";
    device_id = "d";
    correlation_id = "k";
    created_at = 80_000_000;
    expires_at = 110_000_000;
    requested_on = true;
  };
  wire_sha256 = "w";
}

abbrev pub authority : Authority
authority = record {
  clock = control_clock;
  windows = ("c", window) ∷ [];
  replies = [];
  rates = [];
  global_second = none;
  global_count = 0;
  recovery_initialized = true;
  recovery_ids = "old" ∷ [];
}

abbrev pub database : DeviceCommand → ControlCommand → Database
database row c = record {
  commands = row ∷ [];
  controls = c ∷ [];
  physical_devices = lamp ∷ [];
  devices = device ∷ [];
}

-- The system with one command.
abbrev pub system : DeviceCommand → ControlCommand → System
system row c = record {
  db = database row c;
  saved = database row c;
  clock = dispatch_clock;
  authority = authority;
}

-- A house with the lamp as a virtual device and no command yet.
abbrev pub no_commands : Database
no_commands = record { commands = []; controls = []; physical_devices = []; devices = device ∷ [] }

abbrev pub empty_house : System
empty_house = record {
  db = no_commands;
  saved = no_commands;
  clock = dispatch_clock;
  authority = record authority { windows = [] };
}

-- The arguments of the model: a digest of commands, one of bindings that keeps the nonce, and an open
-- gate.
abbrev pub digest : Wire → String
digest _ = "w"

abbrev pub last_of : List String → String
last_of [] = ""
last_of (x ∷ []) = x
last_of (x ∷ y ∷ xs) = last_of (y ∷ xs)

abbrev pub open_gate : Database → String → String → Result (Unit {0})
open_gate _ _ _ = ok tt

abbrev pub permit_request : String → PermitRequest
permit_request nonce = record {
  core_epoch = "epoch";
  command_id = "c";
  boot_id = "b";
  session_id = "s";
  nonce = nonce;
  intent_sha256 = "w";
}

-- The value of a run, or one to take its place.
abbrev pub value_or : {A : Type 0} → A → Result A → A
value_or a (ok b) = b
value_or a (err _) = a
