-- ===== src/Onboarding/Tests.antt =====
-- One device from its registration to its claim, and the theorems at those inputs.
use kz_home_core.Common.{String, false, none, some, [], ◌∷◌, ◌≡◌, refl, ok, returns}
use kz_home_core.Identifiers.{
  is_token, is_topic_id, is_token_char, is_identifier, is_identifier_char, is_alnum,
}
use kz_home_core.Database.{PhysicalDevice, unprovisioned, active, revoked}
use kz_home_core.Onboarding.Service.{
  Inventory, DeviceClaim, is_bound, atomic, by_hardware, add_device, bind_to, claim_row,
  claim_digest, check_claim, bind_item, claim_item, claim,
}
use kz_home_core.Onboarding.Binding.{AllBound}
use kz_home_core.Onboarding.Claims
use kz_home_core.Onboarding.Claims.{run-AllBound, claim_once, to_move, to_claim}

abbrev code : String
code = "AAAAAAAAAAAAAAAAAAAAAAAAAAAAAAAAAAAAAAAAAAA"

abbrev sha256 : String → String
sha256 s = s

abbrev item : PhysicalDevice
item = record {
  device_id = "d";
  hardware_id = "hw";
  hardware_model = "esp32-relay-v1";
  status = unprovisioned;
  claim_code_hash = some code;
  house_id = none;
  bound_device_id = none;
}

abbrev inventory : Inventory
inventory = record {
  physical_devices = item ∷ [];
  devices = [];
  rooms = ("room", "h") ∷ [];
  events = [];
}

abbrev claim_request : DeviceClaim
claim_request = record { hardware_id = "hw"; claim_code = code; room_id = "room" }

all_bound : AllBound inventory.physical_devices
unfolding is_bound
all_bound = (refl, tt)

claim_returns : (claim sha256 "h" claim_request "ann" inventory).0 ≡ ok (bind_to "h" item)
unfolding claim atomic by_hardware claim_item check_claim claim_digest bind_item add_device
    claim_row is_token is_topic_id is_token_char is_identifier is_identifier_char is_alnum
claim_returns = refl

run-AllBound_example :
    AllBound
      (Claims.run sha256
        (to_claim "h" claim_request "ann" ∷ to_move "h" "d" active "ann" ∷ [])
        inventory).physical_devices
run-AllBound_example =
    run-AllBound sha256 (to_claim "h" claim_request "ann" ∷ to_move "h" "d" active "ann" ∷ [])
      inventory all_bound

claim_once_example :
    returns
      (claim sha256 "g" claim_request "bob" (
        Claims.run sha256
          (to_move "h" "d" revoked "ann" ∷ [])
          (claim sha256 "h" claim_request "ann" inventory).1)).0
    ≡ false
claim_once_example =
    claim_once sha256 "h" "g" claim_request claim_request "ann" "bob" (bind_to "h" item)
      (to_move "h" "d" revoked "ann" ∷ []) inventory all_bound claim_returns refl
