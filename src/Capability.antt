-- ===== src/Capability.antt =====
-- src/capability: the reference to a friend's capability, the request that invokes it and the result
-- that it gives. An error is the code that is thrown. `digest` is the SHA-256 of a text in
-- hexadecimal, and `to_json` the JSON text of an object.
use Prim.Native.String
use a2a_fun.Prelude.{
  ℕ, String, Bool, true, false, List, [], ◌∷◌, leb, ◌==◌, length, ◌>>◌, require, Outcome, ok,
  utf16_length, field_of, keys, is_nullish, property, Value, null, bool, num, str, obj, Fields,
  no_field, field, is_filled, is_plain, is_true, object, own_fields, sort_fields, ◌>>=◌,
}

abbrev pub epoch : Value
epoch = str "1970-01-01T00:00:00.000Z"

abbrev pub max_keys : ℕ
max_keys = 10

abbrev pub max_key_length : ℕ
max_key_length = 64

abbrev pub max_value_length : ℕ
max_value_length = 160

abbrev pub require_filled : List String → Fields → Outcome String (Unit {0})
require_filled [] fs = ok tt
require_filled (k ∷ ks) fs =
    require (is_filled (field_of k fs)) "INVALID_INPUT" >> require_filled ks fs

-- `assertFriendshipRecord`
unfoldable pub assert_friendship_record : Value → Outcome String Fields
assert_friendship_record v = do
  require (is_plain v) "INVALID_INPUT"
  require (is_filled (property "friendship_id" v)) "INVALID_INPUT"
  require (is_true (property "established" v)) "INVALID_FRIENDSHIP"
  ok (own_fields v)

unfoldable pub assert_discovered_capability : Value → Outcome String Fields
assert_discovered_capability v = do
  require (is_plain v) "INVALID_INPUT"
  require_filled ("capability_id" ∷ "name" ∷ "summary" ∷ []) (own_fields v)
  ok (own_fields v)

-- `` `${v}` `` of a text that was checked.
abbrev pub text_of : Value → String
text_of (str s) = s
text_of _ = ""

abbrev pub joined_by_bar : String → String → String → String
joined_by_bar a b c = String.◌++◌ a (String.◌++◌ "|" (String.◌++◌ b (String.◌++◌ "|" c)))

unfoldable pub create_capability_reference :
    (String → String) → Value → Value → Outcome String Fields
create_capability_reference digest friendship_record capability = do
  fr ← assert_friendship_record friendship_record
  cap ← assert_discovered_capability capability
  let friendship_id = field_of "friendship_id" fr
  let capability_id = field_of "capability_id" cap
  let hash = digest (joined_by_bar "capref" (text_of friendship_id) (text_of capability_id))
  ok (
      object (
        ("capability_ref_id", str (String.◌++◌ "capref:sha256:" hash))
        ∷ ("friendship_id", friendship_id)
        ∷ ("capability_id", capability_id)
        ∷ ("name", field_of "name" cap)
        ∷ ("invocation_ready", bool true)
        ∷ ("created_at", epoch)
        ∷ []))

-- `assertCapabilityReference`
unfoldable pub assert_capability_reference : Value → Outcome String Fields
assert_capability_reference v = do
  require (is_plain v) "INVALID_INPUT"
  require_filled ("capability_ref_id" ∷ "friendship_id" ∷ "capability_id" ∷ []) (own_fields v)
  require (is_true (property "invocation_ready" v)) "INVALID_REFERENCE"
  ok (own_fields v)

-- A value that a payload or a result may hold.
unfoldable pub is_small : Value → Bool
is_small (str s) = leb (utf16_length s) max_value_length
is_small (num n) = true
is_small (bool b) = true
is_small _ = false

-- The loop of `assertPayload` and of `assertResultObject`, which throw different codes.
unfoldable pub check_entries : String → Fields → Outcome String (Unit {0})
check_entries code no_field = ok tt
check_entries code (field k v fs) = do
  require (is_filled (str k)) "INVALID_INPUT"
  require (leb (utf16_length k) max_key_length) code
  require (is_small v) code
  check_entries code fs

unfoldable pub check_object : String → Value → Outcome String Fields
check_object code v = do
  require (is_plain v) code
  require (leb (length (keys (own_fields v))) max_keys) code
  check_entries code (own_fields v)
  ok (own_fields v)

unfoldable pub create_capability_invocation_request :
    (String → String) → (Fields → String) → Value → Value → Outcome String Fields
create_capability_invocation_request digest to_json capability_reference payload = do
  ref ← assert_capability_reference capability_reference
  fs ← check_object "INVALID_PAYLOAD" payload
  let ref_id = field_of "capability_ref_id" ref
  let hash = digest (joined_by_bar "invocation" (text_of ref_id) (to_json (sort_fields fs)))
  ok (
      object (
        ("invocation_id", str (String.◌++◌ "inv:sha256:" hash))
        ∷ ("capability_ref_id", ref_id)
        ∷ ("friendship_id", field_of "friendship_id" ref)
        ∷ ("capability_id", field_of "capability_id" ref)
        ∷ ("payload", obj (sort_fields fs))
        ∷ ("created_at", epoch)
        ∷ []))

-- `assertErrorObject`: a code of at most 64 units, and nothing else.
unfoldable pub assert_error_object : Value → Outcome String Value
assert_error_object v = do
  require (is_plain v) "INVALID_ERROR"
  require (is_filled (property "code" v)) "INVALID_INPUT"
  require (leb (utf16_length (text_of (property "code" v))) 64) "INVALID_ERROR"
  require (length (keys (own_fields v)) == 1) "INVALID_ERROR"
  ok (property "code" v)

abbrev pub invocation_result : Value → Bool → Value → Value → Fields
invocation_result invocation_id success result error = object (
    ("invocation_id", invocation_id)
    ∷ ("ok", bool success)
    ∷ ("result", result)
    ∷ ("error", error)
    ∷ ("created_at", epoch)
    ∷ [])

-- `createCapabilityInvocationResult`, for each of the two values of `ok`.
unfoldable pub create_capability_invocation_result :
    Value → Bool → Value → Value → Outcome String Fields
create_capability_invocation_result request true result error = do
  require (is_plain request) "INVALID_INPUT"
  require (is_filled (property "invocation_id" request)) "INVALID_INPUT"
  require (is_nullish error) "INVALID_INPUT"
  fs ← check_object "INVALID_RESULT" result
  ok (invocation_result (property "invocation_id" request) true (obj (sort_fields fs)) null)
create_capability_invocation_result request false result error = do
  require (is_plain request) "INVALID_INPUT"
  require (is_filled (property "invocation_id" request)) "INVALID_INPUT"
  require (is_nullish result) "INVALID_INPUT"
  code ← assert_error_object error
  ok (
      invocation_result (property "invocation_id" request) false null
        (obj (field "code" code no_field)))
