-- ===== src/Phase2/Body.antt =====
-- `validateDecryptedBodyByType` of src/phase2/body/body.schema.mjs. The body is a JavaScript value;
-- the result is the body as the call leaves it, since `probe.hello` has its arrays replaced.
pub mod Meaning
pub mod Free
pub mod Safety
use a2a_fun.Prelude.{
  String, Bool, true, false, not, ◌&&◌, ◌||◌, List, [], ◌∷◌, str_eq, if◌then◌else◌, ◌>>◌, require,
  Outcome, ok, throw, field_of, is_nullish, is_string, is_object, property, is_named, Value, bool,
  str, arr, obj, Items, none_left, item, Fields, ◌>>=◌,
}
use a2a_fun.Phase2.SafeArray.{has}
use a2a_fun.Phase2.Checks.{
  check_keys, safe_text, BodyError, missing_v, missing_type, reserved_type, unknown_type,
  body_not_object, invalid_field,
}
use a2a_fun.Phase2.Hello.{validate_hello}

abbrev pub supported_types : List String
supported_types =
    "probe.hello" ∷ "probe.question" ∷ "probe.answer" ∷ "probe.summary" ∷ "probe.done"
    ∷ "human.entry" ∷ "human.exit" ∷ "friendship.establish" ∷ "session.close" ∷ "error" ∷ []

abbrev pub reserved_types : List String
reserved_types = "exchange.request" ∷ "exchange.response" ∷ []

abbrev pub is_true : Value → Bool
is_true (bool true) = true
is_true _ = false

abbrev pub all_strings : Items → Bool
all_strings none_left = true
all_strings (item v vs) = is_string v && all_strings vs

abbrev pub is_string_array : Value → Bool
is_string_array (arr vs) = all_strings vs
is_string_array _ = false

-- `typeof v === 'string' && list.includes(v)`
abbrev pub is_one_of : List String → Value → Bool
is_one_of list (str s) = has s list
is_one_of list _ = false

-- A body with one text: `probe.question` and `probe.answer`.
unfoldable pub validate_single_text : String → Fields → Outcome BodyError (Unit {0})
validate_single_text key fs = do check_keys (key ∷ []) fs; safe_text (field_of key fs)

unfoldable pub validate_summary : Fields → Outcome BodyError (Unit {0})
validate_summary fs = do
  check_keys ("summary" ∷ "risk_flags" ∷ "suggested_action" ∷ []) fs
  safe_text (field_of "summary" fs)
  let flags = field_of "risk_flags" fs
  require (is_nullish flags || is_string_array flags) (invalid_field "risk_flags")
  let action = field_of "suggested_action" fs
  require (is_nullish action || is_string action) (invalid_field "suggested_action")

unfoldable pub validate_done : Fields → Outcome BodyError (Unit {0})
validate_done fs = do
  check_keys ("done" ∷ []) fs
  require (is_true (field_of "done" fs)) (invalid_field "done")

unfoldable pub validate_entry : Fields → Outcome BodyError (Unit {0})
validate_entry fs = do
  check_keys ("entered" ∷ "entry_id" ∷ "note" ∷ "bind" ∷ []) fs
  require (is_true (field_of "entered" fs)) (invalid_field "entered")
  let bind = field_of "bind" fs
  require (is_object bind) (invalid_field "bind")
  require (is_string (property "session_id" bind)) (invalid_field "session_id")
  require (is_string (property "probe_transcript_hash" bind))
      (invalid_field "probe_transcript_hash")

abbrev pub close_reasons : List String
close_reasons =
    "NO_HUMAN_ENTRY_TIMEOUT" ∷ "PROBE_TIMEOUT" ∷ "USER_CLOSE" ∷ "POLICY_REJECT" ∷ "TRANSPORT_FAIL"
    ∷ "PROTOCOL_VIOLATION" ∷ []

unfoldable pub validate_close : Fields → Outcome BodyError (Unit {0})
validate_close fs = do
  check_keys ("reason" ∷ "final" ∷ []) fs
  require (is_one_of close_reasons (field_of "reason" fs)) (invalid_field "reason")
  require (is_true (field_of "final" fs)) (invalid_field "final")

abbrev pub error_codes : List String
error_codes = "VERSION_MISMATCH" ∷ "VALIDATION_FAILED" ∷ "UNAUTHORIZED" ∷ "INTERNAL" ∷ []

abbrev pub error_reasons : List String
error_reasons = "SCHEMA" ∷ "SIGNATURE" ∷ "DECRYPT" ∷ "POLICY" ∷ "UNKNOWN" ∷ []

unfoldable pub validate_error : Fields → Outcome BodyError (Unit {0})
validate_error fs = do
  check_keys ("code" ∷ "reason" ∷ []) fs
  require (is_one_of error_codes (field_of "code" fs)) (invalid_field "code")
  require (is_one_of error_reasons (field_of "reason" fs)) (invalid_field "reason")

unfoldable pub validate_establish : Fields → Outcome BodyError (Unit {0})
validate_establish fs = do
  check_keys ("peer_actor_id" ∷ "session_id" ∷ "created_at" ∷ []) fs
  require (is_named (field_of "peer_actor_id" fs)) (invalid_field "peer_actor_id")
  require (is_named (field_of "session_id" fs)) (invalid_field "session_id")
  let created = field_of "created_at" fs
  require (is_nullish created || is_string created) (invalid_field "created_at")

-- The checks of a type; a type without a clause of its own has none.
unfoldable pub validate_fields : String → Fields → Outcome BodyError Fields
validate_fields type fs =
    if str_eq type "probe.hello"
    then validate_hello fs
    else if str_eq type "probe.question"
    then validate_single_text "q" fs >> ok fs
    else if str_eq type "probe.answer"
    then validate_single_text "a" fs >> ok fs
    else if str_eq type "probe.summary"
    then validate_summary fs >> ok fs
    else if str_eq type "probe.done"
    then validate_done fs >> ok fs
    else if str_eq type "human.entry"
    then validate_entry fs >> ok fs
    else if str_eq type "session.close"
    then validate_close fs >> ok fs
    else if str_eq type "error"
    then validate_error fs >> ok fs
    else if str_eq type "friendship.establish"
    then validate_establish fs >> ok fs
    else ok fs

unfoldable pub plain_fields : Value → Outcome BodyError Fields
plain_fields (obj fs) = ok fs
plain_fields _ = throw body_not_object

-- `validateDecryptedBodyByType` of a type that is a string.
unfoldable pub validate_body_of : String → Value → Outcome BodyError Value
validate_body_of type body = do
  require (not (str_eq type "")) missing_type
  require (not (has type reserved_types)) reserved_type
  require (has type supported_types) unknown_type
  fs ← plain_fields body
  checked ← validate_fields type fs
  ok (obj checked)

unfoldable pub validate_decrypted_body_by_type : Value → Value → Value → Outcome BodyError Value
validate_decrypted_body_by_type v (str type) body = do
  require (is_named v) missing_v
  validate_body_of type body
validate_decrypted_body_by_type v type body = do require (is_named v) missing_v; throw missing_type
