-- ===== src/Json.antt =====
-- JSON values as the core passes them on: the limits of app/transports/mqtt_models.py and the redaction of
-- app/services/event_log_service.py. Numbers are whole; fractional ones are left out.
pub mod Bounds
pub mod Redaction
mod Tests
use Prim.Native.String.{len}
use kz_home_core.Common.{
  ℕ, zero, suc, ◌+◌, ◌*◌, max, String, Bool, true, false, not, ◌&&◌, ◌||◌, Option, none, some, List,
  [], ◌∷◌, leb, ltb, if◌then◌else◌, Result, ok, err, value_error,
}

mutual
  pub data Json : Type 0 where
    null : Json
    boolean : Bool → Json
    integer : ℕ → Json
    negative : ℕ → Json
    str : String → Json
    list : Items → Json
    dict : Fields → Json

  pub data Items : Type 0 where
    nil : Items
    cons : Json → Items → Items

  pub data Fields : Type 0 where
    end : Fields
    field : String → Json → Fields → Fields

abbrev pub items : Items → List Json
items nil = []
items (cons v vs) = v ∷ items vs

abbrev pub keys : Fields → List Json
keys end = []
keys (field k v fs) = str k ∷ keys fs

abbrev pub values : Fields → List Json
values end = []
values (field k v fs) = v ∷ values fs

abbrev pub max_depth : ℕ
max_depth = 8

abbrev pub max_text : ℕ
max_text = 1024

-- `json_depth`: the largest depth that a container's children reach, and its own if it is empty.
unfoldable mutual
  pub json_depth : Json → ℕ → ℕ
  json_depth (list (cons v vs)) current =
      max (json_depth v (current + 1)) (items_depth vs (current + 1))
  json_depth (dict (field k v fs)) current =
      max (json_depth v (current + 1)) (fields_depth fs (current + 1))
  json_depth _ current = current

  pub items_depth : Items → ℕ → ℕ
  items_depth nil current = 0
  items_depth (cons v vs) current = max (json_depth v current) (items_depth vs current)

  pub fields_depth : Fields → ℕ → ℕ
  fields_depth end current = 0
  fields_depth (field k v fs) current = max (json_depth v current) (fields_depth fs current)

-- `isinstance(item, str) and len(item.encode("utf-8")) > 1024`
unfoldable pub is_too_long : Json → Bool
is_too_long (str s) = ltb max_text (len s)
is_too_long _ = false

-- `stack.extend(values)`; the list's end, where `pop` takes from, is the head here.
unfoldable pub extend : List Json → List Json → List Json
extend [] stack = stack
extend (v ∷ vs) stack = extend vs (v ∷ stack)

-- What a popped item leaves on the stack.
unfoldable pub expand : Json → List Json → List Json
unfolding extend
expand (dict fs) stack = extend (values fs) (extend (keys fs) stack)
expand (list vs) stack = extend (items vs) stack
expand _ stack = stack

-- `while stack:`; none is a loop that has run out of fuel.
unfoldable pub scan : ℕ → List Json → Option (Result (Unit {0}))
unfolding is_too_long expand
scan fuel [] = some (ok tt)
scan zero (v ∷ stack) = none
scan (suc fuel) (v ∷ stack) =
    let rest = scan fuel (expand v stack) in if is_too_long v then some (err value_error) else rest

-- The number of items that the loop pops from a value.
unfoldable mutual
  pub size : Json → ℕ
  size (list vs) = suc (size_items vs)
  size (dict fs) = suc (size_fields fs)
  size _ = 1

  pub size_items : Items → ℕ
  size_items nil = 0
  size_items (cons v vs) = size v + size_items vs

  pub size_fields : Fields → ℕ
  size_fields end = 0
  size_fields (field k v fs) = suc (size v + size_fields fs)

-- `validate_json_bounds`, with the fuel that the value takes.
unfoldable pub validate_json_bounds : Json → Option (Result (Unit {0}))
validate_json_bounds v =
    if ltb max_depth (json_depth v 1) then some (err value_error) else scan (size v) (v ∷ [])
