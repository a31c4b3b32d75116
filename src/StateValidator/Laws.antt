-- ===== src/StateValidator/Laws.antt =====
-- What a state must be for `validate_command` and `validate_report` (app/services/state_validator.py) to
-- let it pass, written out field by field.
use kz_home_core.Common.{
  ℕ, ◌≤◌, String, Bool, true, false, ◌&&◌, ◌⊎◌, inl, inr, List, [], ◌∷◌, ◌≡◌, ◌≢◌, refl, subst, all,
  All, ap, ◌∙◌, ◌↔◌, contains, str_eq, eq_iff, Bool-cases, ok, arith,
}
use kz_home_core.StateValidator.{
  StateValue, State, null, boolean, integer, negative, str, is_null, is_supported, is_valid_value,
  is_writable, validate_capabilities, validate_values, validate_command, validate_report,
}

-- A field that a device with these capabilities may be asked to take.
pub data IsCommandable (capabilities : List String) : String × StateValue → Type 0 where
  switch :
      (b : Bool)
      → contains "on_off" capabilities ≡ true
      → IsCommandable capabilities ("on", boolean b)
  dim :
      (n : ℕ)
      → n ≤ 100
      → contains "brightness" capabilities ≡ true
      → IsCommandable capabilities ("brightness", integer n)
  move :
      (n : ℕ)
      → n ≤ 100
      → contains "position" capabilities ≡ true
      → IsCommandable capabilities ("position", integer n)
  heat :
      (v : StateValue)
      → v ≢ null
      → contains "target_temperature" capabilities ≡ true
      → IsCommandable capabilities ("target_temperature", v)

-- A field that a device with these capabilities may report.
pub data IsReportable (capabilities : List String) : String × StateValue → Type 0 where
  commandable :
      (f : String × StateValue) → IsCommandable capabilities f → IsReportable capabilities f
  motion :
      (b : Bool)
      → contains "motion" capabilities ≡ true
      → IsReportable capabilities ("motion", boolean b)
  leak :
      (b : Bool)
      → contains "leak" capabilities ≡ true
      → IsReportable capabilities ("leak", boolean b)
  temperature :
      (v : StateValue)
      → v ≢ null
      → contains "temperature" capabilities ≡ true
      → IsReportable capabilities ("temperature", v)
  humidity :
      (v : StateValue)
      → v ≢ null
      → contains "humidity" capabilities ≡ true
      → IsReportable capabilities ("humidity", v)
  illuminance :
      (v : StateValue)
      → v ≢ null
      → contains "illuminance" capabilities ≡ true
      → IsReportable capabilities ("illuminance", v)

-- The fields there are.
data Known : String → Type 0 where
  on_known : Known "on"
  brightness_known : Known "brightness"
  position_known : Known "position"
  temperature_known : Known "temperature"
  target_known : Known "target_temperature"
  motion_known : Known "motion"
  humidity_known : Known "humidity"
  leak_known : Known "leak"
  illuminance_known : Known "illuminance"

named : (k : String) → Known k → (name : String) → Known name ⊎ (str_eq k name ≡ false)
named k known name = elim (Bool-cases (str_eq k name)) [
  | inl same ↦ inl (subst Known ((eq_iff k name).0 same) known)
  | inr other ↦ inr other
]

supported-Known :
    (capabilities : List String) (name : String)
    → is_supported capabilities name ≡ true
    → Known name
unfolding is_supported
supported-Known capabilities name h = elim (named "on" on_known name) [
  | inl k ↦ k
  | inr a ↦ elim (named "brightness" brightness_known name) [
    | inl k ↦ k
    | inr b ↦ elim (named "position" position_known name) [
      | inl k ↦ k
      | inr c ↦ elim (named "temperature" temperature_known name) [
        | inl k ↦ k
        | inr d ↦ elim (named "target_temperature" target_known name) [
          | inl k ↦ k
          | inr e ↦ elim (named "motion" motion_known name) [
            | inl k ↦ k
            | inr f ↦ elim (named "humidity" humidity_known name) [
              | inl k ↦ k
              | inr g ↦ elim (named "leak" leak_known name) [
                | inl k ↦ k
                | inr i ↦ elim (named "illuminance" illuminance_known name) [
                  | inl k ↦ k
                  | inr j ↦ absurd (ground arith)
                ]
              ]
            ]
          ]
        ]
      ]
    ]
  ]
]

-- The checks on a single field are the description of it, for commands and for reports.
field-IsCommandable :
    (capabilities : List String) (name : String) (v : StateValue)
    → Known name
    → is_supported capabilities name ≡ true
    → is_valid_value (name, v) ≡ true
    → is_writable (name, v) ≡ true
    → IsCommandable capabilities (name, v)
unfolding is_supported is_valid_value is_writable
field-IsCommandable cs _ (boolean b) on_known s h w = switch b s
field-IsCommandable cs _ (integer n) brightness_known s h w = dim n (ground arith) s
field-IsCommandable cs _ (integer n) position_known s h w = move n (ground arith) s
field-IsCommandable cs _ v target_known s h w = heat v (λ e. ground arith) s
field-IsCommandable cs _ _ _ s h w = absurd (ground arith)

field-IsReportable :
    (capabilities : List String) (name : String) (v : StateValue)
    → Known name
    → is_supported capabilities name ≡ true
    → is_valid_value (name, v) ≡ true
    → IsReportable capabilities (name, v)
unfolding is_supported is_valid_value
field-IsReportable cs _ (boolean b) on_known s h = commandable _ (switch b s)
field-IsReportable cs _ (integer n) brightness_known s h = commandable _ (dim n (ground arith) s)
field-IsReportable cs _ (integer n) position_known s h = commandable _ (move n (ground arith) s)
field-IsReportable cs _ v target_known s h = commandable _ (heat v (λ e. ground arith) s)
field-IsReportable cs _ (boolean b) motion_known s h = motion b s
field-IsReportable cs _ (boolean b) leak_known s h = leak b s
field-IsReportable cs _ v temperature_known s h = temperature v (λ e. ground arith) s
field-IsReportable cs _ v humidity_known s h = humidity v (λ e. ground arith) s
field-IsReportable cs _ v illuminance_known s h = illuminance v (λ e. ground arith) s
field-IsReportable cs _ _ _ s h = absurd (ground arith)

null-or : (v : StateValue) → v ≢ null → is_null v ≡ false
null-or null n = absurd (n refl)
null-or (boolean _) n = refl
null-or (integer _) n = refl
null-or (negative _) n = refl
null-or (str _) n = refl

IsCommandable-field :
    (capabilities : List String) (f : String × StateValue)
    → IsCommandable capabilities f
    → (is_supported capabilities f.0 && (is_valid_value f && is_writable f)) ≡ true
unfolding is_supported is_valid_value is_writable
IsCommandable-field cs _ (switch b s) = ground arith
IsCommandable-field cs _ (dim n h s) = ground arith
IsCommandable-field cs _ (move n h s) = ground arith
IsCommandable-field cs _ (heat v n s) = ground (arith, null-or v n)

IsReportable-field :
    (capabilities : List String) (f : String × StateValue)
    → IsReportable capabilities f
    → (is_supported capabilities f.0 && is_valid_value f) ≡ true
unfolding is_supported is_valid_value
IsReportable-field cs _ (commandable f c) = ground (arith, IsCommandable-field cs f c)
IsReportable-field cs _ (motion b s) = ground arith
IsReportable-field cs _ (leak b s) = ground arith
IsReportable-field cs _ (temperature v n s) = ground (arith, null-or v n)
IsReportable-field cs _ (humidity v n s) = ground (arith, null-or v n)
IsReportable-field cs _ (illuminance v n s) = ground (arith, null-or v n)

all-All :
    {A : Type 0} (p : A → Bool) (P : A → Type 0) (xs : List A)
    → ((x : A) → p x ≡ true → P x)
    → all p xs ≡ true
    → All P xs
all-All p P [] f h = tt
all-All p P (x ∷ xs) f h = (f x (ground arith), all-All p P xs f (ground arith))

All-all :
    {A : Type 0} (p : A → Bool) (P : A → Type 0) (xs : List A)
    → ((x : A) → P x → p x ≡ true)
    → All P xs
    → all p xs ≡ true
All-all p P [] f h = refl
All-all p P (x ∷ xs) f h = ground (arith, f x h.0, All-all p P xs f h.1)

all-and :
    {A : Type 0} (p q : A → Bool) (xs : List A) → all (λ x. p x && q x) xs ≡ (all p xs && all q xs)
all-and p q [] = refl
all-and p q (x ∷ xs) = ground (arith, all-and p q xs)

-- The checks of all fields, in one pass.
abbrev may_take : List String → String × StateValue → Bool
may_take capabilities f = is_supported capabilities f.0 && (is_valid_value f && is_writable f)

abbrev may_report : List String → String × StateValue → Bool
may_report capabilities f = is_supported capabilities f.0 && is_valid_value f

may_take-IsCommandable :
    (capabilities : List String) (f : String × StateValue)
    → may_take capabilities f ≡ true
    → IsCommandable capabilities f
may_take-IsCommandable cs (name, v) h =
    field-IsCommandable cs name v (supported-Known cs name (ground arith)) (ground arith)
      (ground arith) (ground arith)

may_report-IsReportable :
    (capabilities : List String) (f : String × StateValue)
    → may_report capabilities f ≡ true
    → IsReportable capabilities f
may_report-IsReportable cs (name, v) h =
    field-IsReportable cs name v (supported-Known cs name (ground arith)) (ground arith)
      (ground arith)

all-may_take :
    (cs : List String) (state : State)
    → all (may_take cs) state ≡ (
        all (λ f. is_supported cs f.0) state && (all is_valid_value state && all is_writable state))
all-may_take cs state =
    all-and (λ f. is_supported cs f.0) (λ f. is_valid_value f && is_writable f) state
    ∙ ap (λ b. all (λ f. is_supported cs f.0) state && b) (all-and is_valid_value is_writable state)

validate_command-may_take :
    (cs : List String) (state : State)
    → validate_command cs state ≡ ok tt
    → (state ≢ []) × (all (may_take cs) state ≡ true)
unfolding validate_command validate_capabilities validate_values
validate_command-may_take cs state h = (λ e. ground arith, ground (arith, all-may_take cs state))

may_take-validate_command :
    (cs : List String) (state : State)
    → state ≢ []
    → all (may_take cs) state ≡ true
    → validate_command cs state ≡ ok tt
unfolding validate_command validate_capabilities validate_values
may_take-validate_command cs [] filled h = absurd (filled refl)
may_take-validate_command cs (f ∷ fs) filled h = ground (arith, all-may_take cs (f ∷ fs))

validate_report-may_report :
    (cs : List String) (state : State)
    → (validate_report cs state ≡ ok tt) ↔ (all (may_report cs) state ≡ true)
unfolding validate_report validate_capabilities validate_values
validate_report-may_report cs state =
    let both = all-and (λ f. is_supported cs f.0) is_valid_value state in
    (λ h. ground (arith, both), λ h. ground (arith, both))

-- A command state passes exactly when it is not empty and each of its fields is one that the device may be
-- asked to take: "on" with a Boolean, "brightness" or "position" with a whole number from 0 to 100, or
-- "target_temperature" with a value other than null, under an advertised capability. A report passes
-- exactly when each of its fields is such a field, or "motion" or "leak" with a Boolean, or "temperature",
-- "humidity" or "illuminance" with a value other than null, under an advertised capability.
pub validate_command-IsCommandable :
    (capabilities : List String) (state : State)
    → ((validate_command capabilities state ≡ ok tt)
        ↔ ((state ≢ []) × All (IsCommandable capabilities) state))
      × ((validate_report capabilities state ≡ ok tt) ↔ All (IsReportable capabilities) state)
validate_command-IsCommandable cs state = (
  (
    λ h.
        let (filled, a) = validate_command-may_take cs state h in
        (filled, all-All (may_take cs) (IsCommandable cs) state (may_take-IsCommandable cs) a),
    λ (filled, a).
        may_take-validate_command cs state filled
          (All-all (may_take cs) (IsCommandable cs) state (IsCommandable-field cs) a),
  ),
  (
    λ h.
        all-All (may_report cs) (IsReportable cs) state (may_report-IsReportable cs)
          ((validate_report-may_report cs state).0 h),
    λ a.
        (validate_report-may_report cs state).1
          (All-all (may_report cs) (IsReportable cs) state (IsReportable-field cs) a),
  ),
)
