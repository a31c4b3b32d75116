-- ===== src/Onboarding/Binding.antt =====
-- The binding of a physical device to its house: the table's check constraint, and the single use of a
-- claim code (app/services/onboarding_service.py).
use text.Mathlib.TextPositions.{eq_refl}
use kz_home_core.Common.{
  commit_or_roll_back, String, Bool, true, false, not, ◌||◌, none, some, List, [], ◌∷◌, ◌≡◌, refl,
  sym, ap, subst, str_eq, eq_iff, ◌==◌, length, keep, find, any, update, lookup, All, All-update,
  find-update, Bool-cases, Option-cases, inl, inr, Exec, Result, ok, err, Moves, Moves-bind, arith,
  gets, raise_if, or_raise, pure, not_found, conflict, key_error, ◌>>=◌,
}
use kz_home_core.Database.{PhysicalDevice, PhysicalStatus, Device}
use kz_home_core.Onboarding.Service.{
  Inventory, is_bound, is_unprovisioned, status_eq, atomic, has_hardware, has_device, add_inventory,
  add_device, is_claimable, bind_to, claim_row, is_at, set_status, audit, profiles, allowed,
  item_of_house, move_to, transition_item, transition, bind_item,
}

-- Every row satisfies `ck_physical_binding`.
abbrev pub AllBound : List PhysicalDevice → Type 0
AllBound = All (λ i. is_bound i ≡ true)

-- The hardware has a row, and it is no longer unprovisioned.
abbrev pub is_claimed : String → List PhysicalDevice → Bool
is_claimed hardware is = elim (find (has_hardware hardware) is) [
  | none ↦ false
  | some i ↦ not (is_unprovisioned i.status)
]

-- What every operation keeps: the constraint, and for one hardware that it is claimed.
abbrev pub Keeps : String → Inventory → Inventory → Type 0
Keeps hardware s t =
    AllBound s.physical_devices
    → AllBound t.physical_devices
      × (is_claimed hardware s.physical_devices ≡ true
          → is_claimed hardware t.physical_devices ≡ true)

bind_to-is_bound : (house : String) (i : PhysicalDevice) → is_bound (bind_to house i) ≡ true
unfolding is_bound
bind_to-is_bound house i = ground (arith, eq_refl i.device_id)

-- A status other than "unprovisioned" may follow another such one.
set-is_bound :
    (status : PhysicalStatus) (i : PhysicalDevice)
    → is_unprovisioned status ≡ false
    → is_unprovisioned i.status ≡ false
    → is_bound i ≡ true
    → is_bound (record i { status = status }) ≡ true
unfolding is_bound
set-is_bound status i new old h = ground arith

found_any :
    (p q : PhysicalDevice → Bool) (is : List PhysicalDevice) (x : PhysicalDevice)
    → ((i : PhysicalDevice) → p i ≡ true → q i ≡ true)
    → find p is ≡ some x
    → any q is ≡ true
found_any p q [] x sub h = absurd (ground arith)
found_any p q (i ∷ is) x sub h = elim (Bool-cases (p i)) [
  | inl hit ↦ ground (arith, sub i hit)
  | inr miss ↦ ground (arith, found_any p q is x sub)
]

pub claimed_row :
    (hardware : String) (is : List PhysicalDevice)
    → is_claimed hardware is ≡ true
    → (i : PhysicalDevice) × (find (has_hardware hardware) is ≡ some i)
      × (is_unprovisioned i.status ≡ false)
claimed_row hardware is h = elim (Option-cases (find (has_hardware hardware) is)) [
  | inl gone ↦ absurd (ground arith)
  | inr (i, e) ↦ (i, e, ground arith)
]

-- An update of rows that leaves their hardware and makes none unprovisioned.
update-is_claimed :
    (hardware : String) (q : PhysicalDevice → Bool) (f : PhysicalDevice → PhysicalDevice)
    (is : List PhysicalDevice)
    → ((i : PhysicalDevice) → has_hardware hardware (f i) ≡ has_hardware hardware i)
    → ((i : PhysicalDevice) → is_unprovisioned (f i).status ≡ false)
    → is_claimed hardware is ≡ true
    → is_claimed hardware (update q f is) ≡ true
update-is_claimed hardware q f is same final h =
    let (i, found, old) = claimed_row hardware is h in
    ground (arith, find-update (has_hardware hardware) q f is i same found, final i)

claim_row-Keeps :
    (hardware house : String) (item : PhysicalDevice)
    → Moves (Keeps hardware) (claim_row item house)
unfolding claim_row
claim_row-Keeps hardware house item = record {
  at = λ s bound.
      elim (Bool-cases (length (keep (is_claimable item.device_id) s.physical_devices) == 1)) [
        | inr other ↦ rw other (bound, λ h. h)
        | inl one ↦ rw one (
          All-update _ (is_claimable item.device_id) (bind_to house) s.physical_devices
              (λ i hit old. bind_to-is_bound house i) bound,
          update-is_claimed hardware _ (bind_to house) s.physical_devices (λ i. refl) (λ i. refl),
        )
      ];
}

set_status-Keeps :
    (hardware : String) (item : PhysicalDevice) (status : PhysicalStatus)
    → is_unprovisioned status ≡ false
    → is_unprovisioned item.status ≡ false
    → Moves (Keeps hardware) (set_status item status)
unfolding set_status
set_status-Keeps hardware item status new old = record {
  at = λ s bound.
      elim (Bool-cases (length (keep (is_at item.device_id item.status) s.physical_devices) == 1)) [
        | inr other ↦ rw other (bound, λ h. h)
        | inl one ↦ rw one (
          All-update _ (is_at item.device_id item.status) (λ i. record i { status = status })
              s.physical_devices (λ i hit b. set-is_bound status i new (ground arith) b) bound,
          update-is_claimed hardware _ (λ i. record i { status = status }) s.physical_devices
              (λ i. refl) (λ i. new),
        )
      ];
}

-- A block that leaves the rows as they are.
pub same_rows :
    (hardware : String) {A : Type 0} (m : Exec Inventory A)
    → ((s : Inventory) → (m s).1.physical_devices ≡ s.physical_devices)
    → Moves (Keeps hardware) m
same_rows hardware m h = record {
  at = λ s bound.
      subst
        (λ rows.
          AllBound rows
          × (is_claimed hardware s.physical_devices ≡ true → is_claimed hardware rows ≡ true))
        (sym (h s)) (bound, λ c. c);
}

pub bind-Keeps :
    (hardware : String) {A B : Type 0} (m : Exec Inventory A) (f : A → Exec Inventory B)
    → Moves (Keeps hardware) m
    → ((a : A) → Moves (Keeps hardware) (f a))
    → Moves (Keeps hardware) (m >>= f)
bind-Keeps hardware m f h k =
    Moves-bind (Keeps hardware) (λ s bound. (bound, λ c. c))
      (λ s t u f g bound. let (b, c) = f bound in let (d, e) = g b in (d, λ x. e (c x))) m f h k

committed-Keeps :
    (hardware : String) {A : Type 0} (s : Inventory) (x : Result A × Inventory)
    → Keeps hardware s x.1
    → Keeps hardware s (commit_or_roll_back s x).1
committed-Keeps hardware s (ok a, t) h = h
committed-Keeps hardware s (err e, t) h = λ bound. (bound, λ c. c)

pub atomic-Keeps :
    (hardware : String) {A : Type 0} (m : Exec Inventory A)
    → Moves (Keeps hardware) m
    → Moves (Keeps hardware) (atomic m)
unfolding atomic
atomic-Keeps hardware m h = record { at = λ s. committed-Keeps hardware s (m s) (h.at s) }

-- A row of another hardware in front.
new_row-is_claimed :
    (hardware : String) (i : PhysicalDevice) (rows : List PhysicalDevice)
    → any (λ x. has_device i.device_id x || has_hardware i.hardware_id x) rows ≡ false
    → is_claimed hardware rows ≡ true
    → is_claimed hardware (i ∷ rows) ≡ true
new_row-is_claimed hardware i rows free c = elim (Bool-cases (has_hardware hardware i)) [
  | inr other ↦ ground arith
  | inl same ↦ absurd (
      let (x, found, final) = claimed_row hardware rows c in
      let e : i.hardware_id ≡ hardware = ground (arith, eq_iff i.hardware_id hardware) in
      let some_row =
        found_any (has_hardware hardware)
          (λ x. has_device i.device_id x || has_hardware i.hardware_id x) rows x
          (λ y hit. let k = subst (λ k. has_hardware k y ≡ true) (sym e) hit in ground (arith, k))
          found in
      ground arith)
]

pub add_inventory-Keeps :
    (hardware : String) (i : PhysicalDevice)
    → is_bound i ≡ true
    → Moves (Keeps hardware) (add_inventory i)
unfolding add_inventory
add_inventory-Keeps hardware i b = record {
  at = λ s bound.
      elim (Bool-cases
        (any (λ x. has_device i.device_id x || has_hardware i.hardware_id x) s.physical_devices)) [
          | inl clash ↦ rw clash (bound, λ c. c)
          | inr free ↦ rw free ((b, bound), new_row-is_claimed hardware i s.physical_devices free)
        ];
}

allowed-target :
    (status target : PhysicalStatus) (targets : List PhysicalStatus)
    → allowed status ≡ some targets
    → any (status_eq target) targets ≡ true
    → (is_unprovisioned target ≡ false) × (is_unprovisioned status ≡ false)
unfolding allowed
allowed-target status target targets h k = (ground arith, ground arith)

move_to-Keeps :
    (hardware : String) (item : PhysicalDevice) (house : String) (target : PhysicalStatus)
    (actor : String)
    → is_unprovisioned target ≡ false
    → is_unprovisioned item.status ≡ false
    → Moves (Keeps hardware) (move_to item house target actor)
unfolding move_to
move_to-Keeps hardware item house target actor new old =
    bind-Keeps hardware (gets (λ s. find (λ d. str_eq d.id item.device_id) s.devices)) _
      (same_rows hardware _ (λ s. refl))
      (λ located.
        bind-Keeps hardware (or_raise located not_found) _
          (same_rows hardware _ (λ s. ground arith))
          (λ device.
            bind-Keeps hardware (raise_if (not (str_eq device.house_id house)) conflict) _
              (same_rows hardware _ (λ s. ground arith))
              (λ _.
                bind-Keeps hardware (set_status item target) _
                  (set_status-Keeps hardware item target new old)
                  (λ _. same_rows hardware (audit item.device_id house actor target) (λ s. refl)))))

item_of_house-state : (house device : String) (s : Inventory) → (item_of_house house device s).1 ≡ s
unfolding item_of_house
item_of_house-state house device s = ground arith

transition_item-Keeps :
    (hardware : String) (item : PhysicalDevice) (house : String) (target : PhysicalStatus)
    (actor : String)
    → Moves (Keeps hardware) (transition_item item house target actor)
unfolding transition_item
transition_item-Keeps hardware item house target actor = record {
  at = λ s bound. elim (Bool-cases (status_eq item.status target)) [
    | inl same ↦ rw same (bound, λ c. c)
    | inr different ↦ elim (Option-cases (allowed item.status)) [
      | inl none_allowed ↦ rw different (rw none_allowed (bound, λ c. c))
      | inr (targets, e) ↦ elim (Bool-cases (any (status_eq target) targets)) [
        | inr refused ↦ rw different (rw e (rw refused (bound, λ c. c)))
        | inl permitted ↦
            (let (new, old) = allowed-target item.status target targets e permitted in
              rw different (
                rw e (
                  rw permitted (
                    (bind-Keeps hardware (move_to item house target actor)
                        (λ _. pure (record item { status = target }))
                        (move_to-Keeps hardware item house target actor new old)
                        (λ _. same_rows hardware _ (λ s. refl))).at
                      s bound))))
      ]
    ]
  ];
}

pub transition-Keeps :
    (hardware house device : String) (target : PhysicalStatus) (actor : String)
    → Moves (Keeps hardware) (transition house device target actor)
unfolding transition
transition-Keeps hardware house device target actor = atomic-Keeps hardware _ (
    bind-Keeps hardware (item_of_house house device) _
      (same_rows hardware _
        (λ s. ap (λ t. t.physical_devices) (item_of_house-state house device s)))
      (λ item. transition_item-Keeps hardware item house target actor))

add_device-rows :
    (d : Device) (s : Inventory) → (add_device d s).1.physical_devices ≡ s.physical_devices
unfolding add_device
add_device-rows d s = ground arith

module _ (sha256 : String → String) where
  pub bind_item-Keeps :
      (hardware house actor : String) (item : PhysicalDevice)
      → Moves (Keeps hardware) (bind_item sha256 house actor item)
  unfolding bind_item
  bind_item-Keeps hardware house actor item =
      bind-Keeps hardware (or_raise (lookup item.hardware_model profiles) key_error) _
        (same_rows hardware _ (λ s. ground arith))
        (λ profile.
          bind-Keeps hardware (add_device _) _ (same_rows hardware _ (add_device-rows _)) (λ _.
            bind-Keeps hardware (claim_row item house) _ (claim_row-Keeps hardware house item)
              (λ _. same_rows hardware _ (λ s. refl))))
