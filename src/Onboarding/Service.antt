-- ===== src/Onboarding/Service.antt =====
-- `OnboardingService` (app/services/onboarding_service.py) over `PhysicalDeviceRepository`. Every method
-- is one transaction of `atomic`, on a session with nothing uncommitted. SHA-256 of a claim code is an
-- argument; the identifiers of the audit rows are left out.
use kz_home_core.Common.{
  commit_or_roll_back, String, Bool, true, false, not, ◌&&◌, ◌||◌, Option, none, some, List, [],
  ◌∷◌, str_eq, ◌==◌, is_some, is_none, or_else, length, keep, find, any, update, lookup,
  if◌then◌else◌, Exec, Result, ok, err, conflict, not_found, invalid_reference, value_error,
  key_error, pure, gets, modify, raise_if, or_raise, ◌>>=◌, ◌>>◌,
}
use kz_home_core.Identifiers.{is_token, is_topic_id}
use kz_home_core.Database.{
  PhysicalDevice, PhysicalStatus, unprovisioned, provisioning, active, inactive, revoked, Device,
}

pub record Audit : Type 0 where
  pub house_id : String
  pub entity_id : String
  pub actor_id : String
  pub status : PhysicalStatus

-- The physical devices, the devices, the house of every room, and the event log.
pub record Inventory : Type 0 where
  pub physical_devices : List PhysicalDevice
  pub devices : List Device
  pub rooms : List (String × String)
  pub events : List Audit

pub record InventoryRegistration : Type 0 where
  pub device_id : String
  pub hardware_id : String
  pub hardware_model : String
  pub claim_code : String

pub record DeviceClaim : Type 0 where
  pub hardware_id : String
  pub claim_code : String
  pub room_id : String

-- The check constraint `ck_physical_binding`.
unfoldable pub is_bound : PhysicalDevice → Bool
is_bound i = elim i.status [
  | unprovisioned ↦ is_none i.house_id && (is_none i.bound_device_id && is_some i.claim_code_hash)
  | _ ↦
      is_some i.house_id
      && (elim i.bound_device_id [ none ↦ false | some d ↦ str_eq d i.device_id ]
          && is_none i.claim_code_hash)
]

abbrev pub is_unprovisioned : PhysicalStatus → Bool
is_unprovisioned unprovisioned = true
is_unprovisioned _ = false

abbrev pub status_eq : PhysicalStatus → PhysicalStatus → Bool
status_eq unprovisioned unprovisioned = true
status_eq provisioning provisioning = true
status_eq active active = true
status_eq inactive inactive = true
status_eq revoked revoked = true
status_eq _ _ = false

-- `atomic`: commit when the block ends, roll back when it raises.
unfoldable pub atomic : {A : Type 0} → Exec Inventory A → Exec Inventory A
atomic m s = commit_or_roll_back s (m s)

abbrev pub has_hardware : String → PhysicalDevice → Bool
has_hardware hardware i = str_eq i.hardware_id hardware

abbrev pub has_device : String → PhysicalDevice → Bool
has_device device i = str_eq i.device_id device

-- `by_hardware`
unfoldable pub by_hardware : String → Inventory → Option PhysicalDevice
by_hardware hardware s = find (has_hardware hardware) s.physical_devices

-- `add_inventory`: the primary key and the unique hardware id refuse a second row.
unfoldable pub add_inventory : PhysicalDevice → Exec Inventory (Unit {0})
add_inventory i s =
    if any (λ x. has_device i.device_id x || has_hardware i.hardware_id x) s.physical_devices
    then (err conflict, s)
    else (ok tt, record s { physical_devices = i ∷ s.physical_devices })

-- The row of a new device in the inventory.
abbrev pub new_item : InventoryRegistration → String → PhysicalDevice
new_item request digest = record {
  device_id = request.device_id;
  hardware_id = request.hardware_id;
  hardware_model = request.hardware_model;
  status = unprovisioned;
  claim_code_hash = some digest;
  house_id = none;
  bound_device_id = none;
}

-- `add_device`
unfoldable pub add_device : Device → Exec Inventory (Unit {0})
add_device d s =
    if any (λ x. str_eq x.id d.id) s.devices
    then (err conflict, s)
    else (ok tt, record s { devices = d ∷ s.devices })

abbrev pub is_claimable : String → PhysicalDevice → Bool
is_claimable device i = has_device device i && (is_unprovisioned i.status && is_none i.house_id)

abbrev pub bind_to : String → PhysicalDevice → PhysicalDevice
bind_to house i = record i {
  house_id = some house;
  bound_device_id = some i.device_id;
  claim_code_hash = none;
  status = provisioning;
}

-- `PhysicalDeviceRepository.claim`; the constraint on `bound_device_id` follows from the primary key, since
-- a device is bound to its own identity.
unfoldable pub claim_row : PhysicalDevice → String → Exec Inventory (Unit {0})
claim_row item house s =
    if not (length (keep (is_claimable item.device_id) s.physical_devices) == 1)
    then (err conflict, s)
    else (
      ok tt,
      record s {
        physical_devices = update (is_claimable item.device_id) (bind_to house) s.physical_devices;
      },
    )

abbrev pub is_at : String → PhysicalStatus → PhysicalDevice → Bool
is_at device status i = has_device device i && status_eq i.status status

-- `set_status`
unfoldable pub set_status : PhysicalDevice → PhysicalStatus → Exec Inventory (Unit {0})
set_status item status s =
    if not (length (keep (is_at item.device_id item.status) s.physical_devices) == 1)
    then (err conflict, s)
    else (
      ok tt,
      record s {
        physical_devices =
            update (is_at item.device_id item.status) (λ i. record i { status = status })
              s.physical_devices;
        devices =
            update (λ d. str_eq d.id item.device_id) (λ d. record d { online = false }) s.devices;
      },
    )

-- `_audit`
abbrev pub audit : String → String → String → PhysicalStatus → Exec Inventory (Unit {0})
audit device house actor status = modify (λ s. record s {
  events =
      record { house_id = house; entity_id = device; actor_id = actor; status = status } ∷ s.events;
})

-- `PROFILES`
abbrev pub profiles : List (String × (String × List String))
profiles =
    ("esp32-c6-relay-v1", ("relay", "on_off" ∷ []))
    ∷ ("esp32-relay-v1", ("relay", "on_off" ∷ []))
    ∷ []

-- The targets that `transition` allows; a missing key raises.
unfoldable pub allowed : PhysicalStatus → Option (List PhysicalStatus)
allowed unprovisioned = none
allowed provisioning = some (active ∷ inactive ∷ revoked ∷ [])
allowed active = some (inactive ∷ revoked ∷ [])
allowed inactive = some (active ∷ revoked ∷ [])
allowed revoked = some []

-- `for_house`
unfoldable pub item_of_house : String → String → Exec Inventory PhysicalDevice
item_of_house house device s = elim (find (has_device device) s.physical_devices) [
  | none ↦ (err not_found, s)
  | some item ↦
      (if (elim item.house_id [ none ↦ false | some h ↦ str_eq h house ])
        then (ok item, s)
        else (err not_found, s))
]

-- The check of the stored house against the caller's, in `claim`.
abbrev pub is_foreign : String → PhysicalDevice → Bool
is_foreign house item = elim item.house_id [ none ↦ false | some h ↦ not (str_eq h house) ]

-- The guards of `transition` on the location, then the write and the audit row.
unfoldable pub move_to :
    PhysicalDevice → String → PhysicalStatus → String → Exec Inventory (Unit {0})
move_to item house target actor = do
  located ← gets (λ s. find (λ d. str_eq d.id item.device_id) s.devices)
  device ← or_raise located not_found
  raise_if (not (str_eq device.house_id house)) conflict
  set_status item target
  audit item.device_id house actor target

-- `transition` on the row found.
unfoldable pub transition_item :
    PhysicalDevice → String → PhysicalStatus → String → Exec Inventory PhysicalDevice
transition_item item house target actor s =
    if status_eq item.status target then (ok item, s) else elim (allowed item.status) [
      | none ↦ (err key_error, s)
      | some targets ↦
          (if not (any (status_eq target) targets)
            then (err conflict, s)
            else (do move_to item house target actor; pure (record item { status = target })) s)
    ]

-- `transition`
unfoldable pub transition :
    String → String → PhysicalStatus → String → Exec Inventory PhysicalDevice
transition house device target actor =
    atomic (do item ← item_of_house house device; transition_item item house target actor)

module _ (sha256 : String → String) where
  -- `claim_digest`
  unfoldable pub claim_digest : String → Result String
  claim_digest code = if is_token code then ok (sha256 code) else err invalid_reference

  -- `register_inventory`
  unfoldable pub register_inventory : InventoryRegistration → Exec Inventory (Unit {0})
  unfolding claim_digest
  register_inventory request s = elim (claim_digest request.claim_code) [
    | err e ↦ (err e, s)
    | ok digest ↦
        atomic
          (do
            used ← gets (λ s. any (λ d. str_eq d.id request.device_id) s.devices)
            raise_if used conflict
            add_inventory (new_item request digest))
          s
  ]

  -- The checks of `claim` on the row found: ownership, status, the code, the room.
  unfoldable pub check_claim : String → DeviceClaim → PhysicalDevice → Inventory → Result (Unit {0})
  unfolding claim_digest
  check_claim house request item s =
      if is_foreign house item
      then err not_found
      else if not (is_unprovisioned item.status)
      then err conflict
      else elim (claim_digest request.claim_code) [
        | err e ↦ err e
        | ok digest ↦
            (if not (str_eq (or_else item.claim_code_hash "") digest)
              then err not_found
              else elim (lookup request.room_id s.rooms) [
                | none ↦ err not_found
                | some h ↦ if str_eq h house then ok tt else err not_found
              ])
      ]

  -- The writes of `claim`.
  unfoldable pub bind_item : String → String → PhysicalDevice → Exec Inventory PhysicalDevice
  bind_item house actor item = do
    (device_type, capabilities) ← or_raise (lookup item.hardware_model profiles) key_error
    add_device (record {
      id = item.device_id;
      house_id = house;
      type = device_type;
      capabilities = capabilities;
      online = false;
      state = [];
    })
    claim_row item house
    audit item.device_id house actor provisioning
    pure (bind_to house item)

  -- `claim` on the row found.
  unfoldable pub claim_item :
      String → DeviceClaim → String → Option PhysicalDevice → Exec Inventory PhysicalDevice
  unfolding check_claim bind_item
  claim_item house request actor none s = (err not_found, s)
  claim_item house request actor (some item) s = elim (check_claim house request item s) [
    | err e ↦ (err e, s)
    | ok _ ↦ bind_item house actor item s
  ]

  -- `claim`
  unfoldable pub claim : String → DeviceClaim → String → Exec Inventory PhysicalDevice
  unfolding claim_item
  claim house request actor s =
      if not (is_topic_id house)
      then (err value_error, s)
      else atomic (λ t. claim_item house request actor (by_hardware request.hardware_id t) t) s
