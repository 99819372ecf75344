-- ===== src/Phase2/Checks.antt =====
-- The errors of src/phase2/body/body.schema.mjs and the checks that its message types share.
use a2a_fun.Prelude.{
  String, List, [], ◌∷◌, if◌then◌else◌, Outcome, ok, throw, Value, str, arr, Items, none_left, item,
  Fields, no_field, field,
}
use a2a_fun.Phase2.SafeText.{validate_safe_short_text, TextError}
use a2a_fun.Phase2.SafeArray.{has, validate_safe_string_array, ArrayError, Options}

pub data BodyError : Type 0 where
  missing_v missing_type reserved_type unknown_type body_not_object : BodyError
  unknown_field : String → BodyError
  -- the field of the body that is missing or wrong
  invalid_field : String → BodyError
  unsafe_text : TextError → BodyError
  unsafe_array : ArrayError → BodyError
  unsupported_protocol unsupported_transport : BodyError

-- `for (const k of Object.keys(body)) if (!allowed.includes(k)) throw`
unfoldable pub check_keys : List String → Fields → Outcome BodyError (Unit {0})
check_keys allowed no_field = ok tt
check_keys allowed (field k v fs) =
    let rest = check_keys allowed fs in if has k allowed then rest else throw (unknown_field k)

abbrev pub to_items : List String → Items
to_items [] = none_left
to_items (s ∷ ss) = item (str s) (to_items ss)

abbrev pub strings : List String → Value
strings ss = arr (to_items ss)

unfoldable pub safe_text : Value → Outcome BodyError (Unit {0})
safe_text v = elim (validate_safe_short_text 160 v) [
  | ok _ ↦ ok tt
  | throw e ↦ throw (unsafe_text e)
]

unfoldable pub safe_array : Options → Value → Outcome BodyError (List String)
safe_array opts v = elim (validate_safe_string_array opts v) [
  | ok out ↦ ok out
  | throw e ↦ throw (unsafe_array e)
]
