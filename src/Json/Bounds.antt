-- ===== src/Json/Bounds.antt =====
-- The check of a payload's bounds is the recursive one, and its loop ends (app/transports/mqtt_models.py).
use Prim.Native.String.{len}
use kz_home_core.Common.{
  ℕ, zero, suc, ◌+◌, ◌≤◌, max, Bool, true, false, not, ◌&&◌, some, List, [], ◌∷◌, ◌≡◌, refl, ap,
  ◌∙◌, leb, if◌then◌else◌, ok, err, value_error, arith,
}
use kz_home_core.Json.{
  Json, null, boolean, integer, negative, str, list, dict, Items, nil, cons, Fields, end, field,
  items, keys, values, max_text, json_depth, items_depth, fields_depth, is_too_long, extend, expand,
  scan, size, size_items, size_fields, validate_json_bounds,
}

-- Every text, keys included, is short enough.
mutual
  pub is_short : Json → Bool
  is_short (str s) = leb (len s) max_text
  is_short (list vs) = are_short vs
  is_short (dict fs) = fields_short fs
  is_short _ = true

  pub are_short : Items → Bool
  are_short nil = true
  are_short (cons v vs) = is_short v && are_short vs

  pub fields_short : Fields → Bool
  fields_short end = true
  fields_short (field k v fs) = leb (len k) max_text && (is_short v && fields_short fs)

-- How deep containers with something in them are nested.
mutual
  pub height : Json → ℕ
  height (list (cons v vs)) = suc (max (height v) (items_height vs))
  height (dict (field k v fs)) = suc (max (height v) (fields_height fs))
  height _ = 0

  pub items_height : Items → ℕ
  items_height nil = 0
  items_height (cons v vs) = max (height v) (items_height vs)

  pub fields_height : Fields → ℕ
  fields_height end = 0
  fields_height (field k v fs) = max (height v) (fields_height fs)

mutual
  unfolding json_depth height

  depth-height : (v : Json) (c : ℕ) → json_depth v c ≡ c + height v
  depth-height (list (cons v vs)) c =
      ground (arith, depth-height v (c + 1), items-height vs (c + 1))
  depth-height (dict (field k v fs)) c =
      ground (arith, depth-height v (c + 1), fields-height fs (c + 1))
  depth-height (list nil) c = omega arith
  depth-height (dict end) c = omega arith
  depth-height null c = omega arith
  depth-height (boolean b) c = omega arith
  depth-height (integer n) c = omega arith
  depth-height (negative n) c = omega arith
  depth-height (str s) c = omega arith

  items-height : (vs : Items) (c : ℕ) → max c (items_depth vs c) ≡ c + items_height vs
  items-height nil c = omega arith
  items-height (cons v vs) c = ground (arith, depth-height v c, items-height vs c)

  fields-height : (fs : Fields) (c : ℕ) → max c (fields_depth fs c) ≡ c + fields_height fs
  fields-height end c = omega arith
  fields-height (field k v fs) c = ground (arith, depth-height v c, fields-height fs c)

-- The same for a stack.
stack_size : List Json → ℕ
stack_size [] = 0
stack_size (v ∷ vs) = size v + stack_size vs

stack_short : List Json → Bool
stack_short [] = true
stack_short (v ∷ vs) = is_short v && stack_short vs

extend-size :
    (vs stack : List Json) → stack_size (extend vs stack) ≡ stack_size vs + stack_size stack
unfolding extend stack_size
extend-size [] stack = omega arith
extend-size (v ∷ vs) stack = omega (arith, extend-size vs (v ∷ stack))

extend-short :
    (vs stack : List Json) → stack_short (extend vs stack) ≡ (stack_short vs && stack_short stack)
unfolding extend stack_short
extend-short [] stack = refl
extend-short (v ∷ vs) stack = ground (arith, extend-short vs (v ∷ stack))

items-size : (vs : Items) → stack_size (items vs) ≡ size_items vs
unfolding stack_size size
items-size nil = refl
items-size (cons v vs) = omega (arith, items-size vs)

fields-size : (fs : Fields) → stack_size (values fs) + stack_size (keys fs) ≡ size_fields fs
unfolding stack_size size
fields-size end = refl
fields-size (field k v fs) = omega (arith, fields-size fs)

items-short : (vs : Items) → stack_short (items vs) ≡ are_short vs
unfolding stack_short is_short
items-short nil = refl
items-short (cons v vs) = ground (arith, items-short vs)

and_shuffle : (p q r s : Bool) → ((p && r) && (q && s)) ≡ (q && (p && (r && s)))
and_shuffle true true r s = refl
and_shuffle true false true s = refl
and_shuffle true false false s = refl
and_shuffle false true r s = refl
and_shuffle false false r s = refl

fields-short : (fs : Fields) → (stack_short (values fs) && stack_short (keys fs)) ≡ fields_short fs
unfolding stack_short is_short
fields-short end = refl
fields-short (field k v fs) =
    and_shuffle (is_short v) (leb (len k) max_text) (stack_short (values fs))
      (stack_short (keys fs))
    ∙ ap (λ rest. leb (len k) max_text && (is_short v && rest)) (fields-short fs)

-- One round takes an item off the stack's size and keeps what is left to find.
expand-size :
    (v : Json) (stack : List Json) → suc (stack_size (expand v stack)) ≡ stack_size (v ∷ stack)
unfolding expand stack_size size
expand-size (dict fs) stack = omega (
  arith,
  extend-size (values fs) (extend (keys fs) stack),
  extend-size (keys fs) stack,
  fields-size fs,
)
expand-size (list vs) stack = omega (arith, extend-size (items vs) stack, items-size vs)
expand-size null stack = omega arith
expand-size (boolean b) stack = omega arith
expand-size (integer n) stack = omega arith
expand-size (negative n) stack = omega arith
expand-size (str s) stack = omega arith

expand-short :
    (v : Json) (stack : List Json)
    → (not (is_too_long v) && stack_short (expand v stack)) ≡ stack_short (v ∷ stack)
unfolding expand stack_short is_too_long is_short
expand-short (dict fs) stack = ground (
  arith,
  extend-short (values fs) (extend (keys fs) stack),
  extend-short (keys fs) stack,
  fields-short fs,
)
expand-short (list vs) stack = ground (arith, extend-short (items vs) stack, items-short vs)
expand-short null stack = refl
expand-short (boolean b) stack = refl
expand-short (integer n) stack = refl
expand-short (negative n) stack = refl
expand-short (str s) stack = ground arith

scan-short :
    (fuel : ℕ) (stack : List Json)
    → stack_size stack ≤ fuel
    → scan fuel stack ≡ some (if stack_short stack then ok tt else err value_error)
unfolding scan stack_short
scan-short fuel [] h = refl
scan-short zero (v ∷ stack) h = absurd (let e = expand-size v stack in omega arith)
scan-short (suc fuel) (v ∷ stack) h = ground (
  arith,
  scan-short fuel (expand v stack) (let e = expand-size v stack in omega arith),
  expand-short v stack,
)

one_item : (v : Json) → stack_size (v ∷ []) ≤ size v
unfolding stack_size
one_item v = omega arith

one_short : (v : Json) → stack_short (v ∷ []) ≡ is_short v
unfolding stack_short
one_short v = ground arith

-- The check of a payload ends on every value, and is the recursive one: it passes exactly when
-- containers with something in them are nested at most seven deep and every text, keys included, has
-- at most 1024 bytes.
pub validate_json_bounds-is_short :
    (v : Json)
    → validate_json_bounds v
      ≡ some (if leb (height v) 7 && is_short v then ok tt else err value_error)
unfolding validate_json_bounds
validate_json_bounds-is_short v =
    let one : stack_size (v ∷ []) ≤ size v = one_item v in
    let scanned =
      scan-short (size v) (v ∷ []) one
      ∙ ap (λ b. some (if b then ok tt else err value_error)) (one_short v) in
    let depth = depth-height v 1 in ground arith
