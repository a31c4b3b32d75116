-- ===== src/Json/Tests.antt =====
-- A payload with a secret in it.
use kz_home_core.Common.{
  String, true, ◌≡◌, refl, ◌↔◌, some, ok, err, value_error, if◌then◌else◌, leb, ◌&&◌,
}
use kz_home_core.Json.{
  Json, null, integer, str, list, dict, nil, cons, end, field, json_depth, scan, is_too_long,
  expand, extend, size, validate_json_bounds,
}
use kz_home_core.Json.Bounds.{height, is_short, validate_json_bounds-is_short}
use kz_home_core.Json.Redaction.{is_sensitive, sanitized, is_clean, sanitized-is_clean}

abbrev lower : String → String
lower s = s

abbrev payload : Json
payload = dict (
    field "device" (dict (field "api_token" (str "x") (field "level" (integer 3) end)))
      (field "tags" (list (cons null nil)) end))

redacts :
    sanitized lower payload
    ≡ dict (
        field "device"
          (dict (field "level" (integer 3) end))
          (field "tags" (list (cons null nil)) end))
unfolding sanitized is_sensitive
redacts = refl

passes : validate_json_bounds payload ≡ some (ok tt)
unfolding validate_json_bounds json_depth scan is_too_long expand extend size
passes = refl

validate_json_bounds-is_short_example :
    validate_json_bounds payload
    ≡ some (if leb (height payload) 7 && is_short payload then ok tt else err value_error)
validate_json_bounds-is_short_example = validate_json_bounds-is_short payload

sanitized-is_clean_example :
    (is_clean lower (sanitized lower payload) ≡ true)
    × ((sanitized lower payload ≡ payload) ↔ (is_clean lower payload ≡ true))
sanitized-is_clean_example = sanitized-is_clean lower payload
