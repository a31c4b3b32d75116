-- ===== src/Onboarding/Claims.antt =====
-- A claim code works once, and no request breaks the binding of a device
-- (app/services/onboarding_service.py).
use text.Mathlib.TextPositions.{eq_refl}
use kz_home_core.Common.{
  String, true, false, Option, none, some, List, [], ◌∷◌, ◌≡◌, refl, sym, subst, str_eq, find, any,
  All-find, find-update, Bool-cases, inl, inr, Result, ok, err, returns, Moves, arith, gets,
  raise_if, conflict,
}
use kz_home_core.Identifiers.{is_topic_id}
use kz_home_core.Database.{PhysicalDevice, PhysicalStatus}
use kz_home_core.Onboarding.Service.{
  Inventory, InventoryRegistration, DeviceClaim, is_bound, atomic, has_hardware, by_hardware,
  new_item, add_device, is_claimable, bind_to, claim_row, transition, claim_digest,
  register_inventory, check_claim, bind_item, claim_item, claim,
}
use kz_home_core.Onboarding.Binding.{
  AllBound, is_claimed, Keeps, same_rows, bind-Keeps, atomic-Keeps, add_inventory-Keeps,
  transition-Keeps, bind_item-Keeps, claimed_row,
}

module _ (sha256 : String → String) where
  claim_item-Keeps :
      (hardware house : String) (request : DeviceClaim) (actor : String)
      (item : Option PhysicalDevice)
      → Moves (Keeps hardware) (claim_item sha256 house request actor item)
  unfolding claim_item
  claim_item-Keeps hardware house request actor none = same_rows hardware _ (λ s. refl)
  claim_item-Keeps hardware house request actor (some item) = record {
    at = λ s. go s (check_claim sha256 house request item s) refl;
  }
    where
      go :
          (s : Inventory) (c : Result (Unit {0}))
          → check_claim sha256 house request item s ≡ c
          → Keeps hardware s (claim_item sha256 house request actor (some item) s).1
      go s (err e) k = rw (k, claim_item) (λ bound. (bound, λ c. c))
      go s (ok x) k = rw (k, claim_item) ((bind_item-Keeps sha256 hardware house actor item).at s)

  pub claim-Keeps :
      (hardware house : String) (request : DeviceClaim) (actor : String)
      → Moves (Keeps hardware) (claim sha256 house request actor)
  unfolding claim
  claim-Keeps hardware house request actor = record {
    at = λ s. elim (Bool-cases (is_topic_id house)) [
      | inr bad ↦ rw bad (λ bound. (bound, λ c. c))
      | inl good ↦ rw good (
          (atomic-Keeps hardware
              (λ t. claim_item sha256 house request actor (by_hardware request.hardware_id t) t)
              (record {
                at = λ t.
                    (claim_item-Keeps hardware house request actor
                        (by_hardware request.hardware_id t)).at
                      t;
              })).at
            s)
    ];
  }

  pub register_inventory-Keeps :
      (hardware : String) (request : InventoryRegistration)
      → Moves (Keeps hardware) (register_inventory sha256 request)
  unfolding register_inventory is_bound
  register_inventory-Keeps hardware request = record {
    at = λ s. go s (claim_digest sha256 request.claim_code) refl;
  }
    where
      go :
          (s : Inventory) (c : Result String)
          → claim_digest sha256 request.claim_code ≡ c
          → Keeps hardware s (register_inventory sha256 request s).1
      go s (err e) k = rw (k, register_inventory) (λ bound. (bound, λ c. c))
      go s (ok digest) k =
          rw (k, register_inventory)
            ((atomic-Keeps hardware _ (
                bind-Keeps hardware (gets (λ s. any (λ d. str_eq d.id request.device_id) s.devices))
                  _ (same_rows hardware _ (λ s. refl))
                  (λ used.
                    bind-Keeps hardware (raise_if used conflict) _
                      (same_rows hardware _ (λ s. ground arith))
                      (λ _. add_inventory-Keeps hardware (new_item request digest) refl)))).at
              s)

  -- A request to the service, and what is left when it has returned or raised.
  pub data Request : Type 0 where
    to_register : InventoryRegistration → Request
    to_claim : String → DeviceClaim → String → Request
    to_move : String → String → PhysicalStatus → String → Request

  abbrev pub serve : Request → Inventory → Inventory
  serve (to_register request) s = (register_inventory sha256 request s).1
  serve (to_claim house request actor) s = (claim sha256 house request actor s).1
  serve (to_move house device target actor) s = (transition house device target actor s).1

  abbrev pub run : List Request → Inventory → Inventory
  run [] s = s
  run (r ∷ rs) s = run rs (serve r s)

  run-Keeps : (hardware : String) (rs : List Request) (s : Inventory) → Keeps hardware s (run rs s)
  run-Keeps hardware [] s bound = (bound, λ c. c)
  run-Keeps hardware (r ∷ rs) s bound =
      let (b, c) = serve-Keeps r s bound in
      let (d, e) = run-Keeps hardware rs (serve r s) b in (d, λ x. e (c x))
    where
      serve-Keeps : (r : Request) (s : Inventory) → Keeps hardware s (serve r s)
      serve-Keeps (to_register request) s = (register_inventory-Keeps hardware request).at s
      serve-Keeps (to_claim house request actor) s = (claim-Keeps hardware house request actor).at s
      serve-Keeps (to_move house device target actor) s =
          (transition-Keeps hardware house device target actor).at s

  -- No sequence of registrations, claims and lifecycle changes, whether they return or raise, leaves a
  -- row that breaks the binding constraint: an unprovisioned device has a claim code and no house, any
  -- other one has a house, is bound to its own identity, and its claim code is gone.
  pub run-AllBound :
      (rs : List Request) (s : Inventory)
      → AllBound s.physical_devices
      → AllBound (run rs s).physical_devices
  run-AllBound rs s bound = (run-Keeps "" rs s bound).0

  claim_row-claims :
      (item : PhysicalDevice) (house hardware : String) (s : Inventory)
      → (claim_row item house s).0 ≡ ok tt
      → find (has_hardware hardware) s.physical_devices ≡ some item
      → is_claimable item.device_id item ≡ true
      → is_claimed hardware (claim_row item house s).1.physical_devices ≡ true
  unfolding claim_row
  claim_row-claims item house hardware s h found free = ground (
    arith,
    find-update (has_hardware hardware) (is_claimable item.device_id) (bind_to house)
        s.physical_devices item (λ i. refl) found,
  )

  bind_item-claims :
      (item d : PhysicalDevice) (house actor hardware : String) (s : Inventory)
      → (bind_item sha256 house actor item s).0 ≡ ok d
      → find (has_hardware hardware) s.physical_devices ≡ some item
      → is_claimable item.device_id item ≡ true
      → is_claimed hardware (bind_item sha256 house actor item s).1.physical_devices ≡ true
  unfolding bind_item add_device claim_row
  bind_item-claims item d house actor hardware s h found free = ground (
    arith,
    find-update (has_hardware hardware) (is_claimable item.device_id) (bind_to house)
        s.physical_devices item (λ i. refl) found,
  )

  claim_item-claims :
      (house : String) (request : DeviceClaim) (actor hardware : String)
      (item : Option PhysicalDevice) (d : PhysicalDevice) (s : Inventory)
      → AllBound s.physical_devices
      → find (has_hardware hardware) s.physical_devices ≡ item
      → (claim_item sha256 house request actor item s).0 ≡ ok d
      → is_claimed hardware (claim_item sha256 house request actor item s).1.physical_devices ≡ true
  unfolding claim_item check_claim is_bound
  claim_item-claims house request actor hardware none d s bound found h = absurd (ground arith)
  claim_item-claims house request actor hardware (some item) d s bound found h =
      let b =
        All-find (λ i. is_bound i ≡ true) (has_hardware hardware) s.physical_devices item bound
          found in
      ground (arith, bind_item-claims item d house actor hardware s, eq_refl item.device_id)

  claim-claims :
      (house : String) (request : DeviceClaim) (actor : String) (d : PhysicalDevice) (s : Inventory)
      → AllBound s.physical_devices
      → (claim sha256 house request actor s).0 ≡ ok d
      → is_claimed request.hardware_id (claim sha256 house request actor s).1.physical_devices
        ≡ true
  unfolding claim by_hardware atomic
  claim-claims house request actor d s bound h = ground (
    arith,
    claim_item-claims house request actor request.hardware_id
        (find (has_hardware request.hardware_id) s.physical_devices) d s bound refl,
  )

  claimed_refuses :
      (house : String) (request : DeviceClaim) (actor : String) (s : Inventory)
      → is_claimed request.hardware_id s.physical_devices ≡ true
      → returns (claim sha256 house request actor s).0 ≡ false
  unfolding claim by_hardware atomic claim_item check_claim
  claimed_refuses house request actor s c =
      let (item, found, final) = claimed_row request.hardware_id s.physical_devices c in
      ground arith

  -- Once a claim has returned, no claim of the same hardware returns again, for any house and with any
  -- code, after any further registrations, claims and lifecycle changes, if every row satisfied the
  -- binding constraint before it.
  pub claim_once :
      (house house' : String) (request request' : DeviceClaim) (actor actor' : String)
      (d : PhysicalDevice) (rs : List Request) (s : Inventory)
      → AllBound s.physical_devices
      → (claim sha256 house request actor s).0 ≡ ok d
      → request'.hardware_id ≡ request.hardware_id
      → returns
          (claim sha256 house' request' actor' (run rs (claim sha256 house request actor s).1)).0
        ≡ false
  claim_once house house' request request' actor actor' d rs s bound h same =
      let t = (claim sha256 house request actor s).1 in
      let claimed = claim-claims house request actor d s bound h in
      let kept = (claim-Keeps request.hardware_id house request actor).at s bound in
      claimed_refuses house' request' actor' (run rs t) (
        subst (λ i. is_claimed i (run rs t).physical_devices ≡ true) (sym same)
          ((run-Keeps request.hardware_id rs t kept.0).1 claimed))
