-- ===== src/Provisioning/ServiceTests.antt =====
-- One attempt from its creation to its cancellation, and the theorem at that input.
use kz_home_core.Common.{String, true, none, some, List, [], ◌∷◌}
use kz_home_core.Database.{unprovisioned}
use kz_home_core.Access.Roles.{owner}
use kz_home_core.Provisioning.Sessions.{Registry, ProvisioningStart, Secrets}
use kz_home_core.Provisioning.Evolution.{Evolves}
use kz_home_core.Provisioning.Attempts.{Request, to_create, to_get, to_cancel, run-Evolves}
use kz_home_core.Provisioning.Attempts

abbrev hash : String
hash = "0123456789abcdef0123456789abcdef0123456789abcdef0123456789abcdef"

abbrev sha256 : String → String
sha256 s = hash

abbrev body_digest : String → String → String → String → String
body_digest hardware room name digest = digest

abbrev code : String
code = "AAAAAAAAAAAAAAAAAAAAAAAAAAAAAAAAAAAAAAAAAAA"

abbrev registry : Registry
registry = record {
  sessions = [];
  houses = "h" ∷ [];
  rooms = ("room", "h") ∷ [];
  memberships = record { id = "m"; user_id = "ann"; house_id = "h"; role = owner } ∷ [];
  users = record { id = "ann"; email = "ann@h"; password_hash = "p"; is_active = true } ∷ [];
  physical_devices =
      record {
        device_id = "d";
        hardware_id = "hw";
        hardware_model = "esp32-relay-v1";
        status = unprovisioned;
        claim_code_hash = some hash;
        house_id = none;
        bound_device_id = none;
      }
      ∷ [];
}

abbrev start : ProvisioningStart
start = record { hardware_id = "hw"; room_id = "room"; name = "lamp"; claim_code = code }

abbrev secrets : Secrets
secrets = record { id = "6f9619ff-8b86-4d01-b42d-00cf4fc964ff"; challenge = "x"; token = "y" }

abbrev requests : List (Request sha256 body_digest)
requests =
    to_create "h" "ann" start "key" secrets 100
    ∷ to_get "h" "ann" secrets.id 200
    ∷ to_cancel "h" "ann" secrets.id 0 "key2" 300
    ∷ to_cancel "h" "ann" secrets.id 1 "key3" 400
    ∷ []

run-Evolves_example :
    Evolves registry.sessions (Attempts.run sha256 body_digest requests registry).sessions
run-Evolves_example = run-Evolves sha256 body_digest requests registry
