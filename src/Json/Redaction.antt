-- ===== src/Json/Redaction.antt =====
-- `sanitized` of app/services/event_log_service.py. `str.lower` is an argument.
use text.Mathlib.Text.{find?}
use mathlib.Core.Bool.{and-eq-true_iff}
use kz_home_core.Common.{
  String, Bool, true, false, not, ◌&&◌, ◌||◌, List, [], ◌∷◌, ◌≡◌, refl, ap, ap₂, subst, ◌↔◌, str_eq,
  any, is_some, if◌then◌else◌, arith, Bool-cases, inl, inr,
}
use kz_home_core.Json.{
  Json, null, boolean, integer, negative, str, list, dict, Items, nil, cons, Fields, end, field,
}

abbrev pub sensitive_key_parts : List String
sensitive_key_parts = "password" ∷ "token" ∷ "secret" ∷ "authorization" ∷ []

-- `part in key`
abbrev pub is_part_of : String → String → Bool
is_part_of key part = is_some (find? key part)

not-true : (b : Bool) → not b ≡ true → b ≡ false
not-true false h = refl
not-true true h = absurd (ground arith)

module _ (lower : String → String) where
  -- A key that is left out.
  unfoldable pub is_sensitive : String → Bool
  is_sensitive key =
      str_eq (lower key) "database_url" || any (is_part_of (lower key)) sensitive_key_parts

  unfoldable mutual
    pub sanitized : Json → Json
    sanitized (dict fs) = dict (sanitized_fields fs)
    sanitized (list vs) = list (sanitized_items vs)
    sanitized v = v

    pub sanitized_items : Items → Items
    sanitized_items nil = nil
    sanitized_items (cons v vs) = cons (sanitized v) (sanitized_items vs)

    pub sanitized_fields : Fields → Fields
    sanitized_fields end = end
    sanitized_fields (field key v fs) =
        let rest = sanitized_fields fs in
        let kept = sanitized v in if is_sensitive key then rest else field key kept rest

  -- No sensitive key at any depth.
  mutual
    pub is_clean : Json → Bool
    is_clean (dict fs) = fields_clean fs
    is_clean (list vs) = items_clean vs
    is_clean _ = true

    pub items_clean : Items → Bool
    items_clean nil = true
    items_clean (cons v vs) = is_clean v && items_clean vs

    pub fields_clean : Fields → Bool
    fields_clean end = true
    fields_clean (field key v fs) = not (is_sensitive key) && (is_clean v && fields_clean fs)

  mutual
    unfolding sanitized is_clean

    sanitized-clean : (v : Json) → is_clean (sanitized v) ≡ true
    sanitized-clean (dict fs) = fields-clean fs
    sanitized-clean (list vs) = items-clean vs
    sanitized-clean null = refl
    sanitized-clean (boolean b) = refl
    sanitized-clean (integer n) = refl
    sanitized-clean (negative n) = refl
    sanitized-clean (str s) = refl

    items-clean : (vs : Items) → items_clean (sanitized_items vs) ≡ true
    items-clean nil = refl
    items-clean (cons v vs) = rw (sanitized-clean v, items-clean vs) refl

    fields-clean : (fs : Fields) → fields_clean (sanitized_fields fs) ≡ true
    fields-clean end = refl
    fields-clean (field key v fs) = elim (Bool-cases (is_sensitive key)) [
      | inl hit ↦ rw hit (fields-clean fs)
      | inr miss ↦ rw (miss, miss) (rw (sanitized-clean v, fields-clean fs) refl)
    ]

  mutual
    unfolding sanitized is_clean

    sanitized-keeps : (v : Json) → is_clean v ≡ true → sanitized v ≡ v
    sanitized-keeps (dict fs) h = ap dict (fields-keeps fs h)
    sanitized-keeps (list vs) h = ap list (items-keeps vs h)
    sanitized-keeps null h = refl
    sanitized-keeps (boolean b) h = refl
    sanitized-keeps (integer n) h = refl
    sanitized-keeps (negative n) h = refl
    sanitized-keeps (str s) h = refl

    items-keeps : (vs : Items) → items_clean vs ≡ true → sanitized_items vs ≡ vs
    items-keeps nil h = refl
    items-keeps (cons v vs) h =
        let (this, others) = (and-eq-true_iff (is_clean v) (items_clean vs)).0 h in
        ap₂ cons (sanitized-keeps v this) (items-keeps vs others)

    fields-keeps : (fs : Fields) → fields_clean fs ≡ true → sanitized_fields fs ≡ fs
    fields-keeps end h = refl
    fields-keeps (field key v fs) h =
        let (public, rest) =
          (and-eq-true_iff (not (is_sensitive key)) (is_clean v && fields_clean fs)).0 h in
        let (this, others) = (and-eq-true_iff (is_clean v) (fields_clean fs)).0 rest in
        rw (not-true (is_sensitive key) public)
          (ap₂ (field key) (sanitized-keeps v this) (fields-keeps fs others))

  -- What is logged holds no sensitive key at any depth, and a value leaves the redaction unchanged exactly
  -- when it holds none.
  pub sanitized-is_clean :
      (v : Json) → (is_clean (sanitized v) ≡ true) × ((sanitized v ≡ v) ↔ (is_clean v ≡ true))
  sanitized-is_clean v = (
    sanitized-clean v,
    (λ e. subst (λ w. is_clean w ≡ true) e (sanitized-clean v), sanitized-keeps v),
  )
