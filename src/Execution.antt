-- ===== src/Execution.antt =====
-- src/execution: the registry of handlers, the execution of an invocation and the adaptation of what
-- the handler gives. A handler is a function of the payload; `none` stands for a throw.
use a2a_fun.Prelude.{
  String, Bool, true, false, ◌&&◌, Option, none, some, List, [], ◌∷◌, require, Outcome, ok, Dict,
  get, put, field_of, property, Value, null, bool, str, obj, Fields, no_field, field, is_text,
  is_filled, is_plain, is_true, object, has_key, own_fields, ◌>>=◌, ◌>>◌,
}
use a2a_fun.Capability.{text_of, create_capability_invocation_result}

abbrev pub Handler : Type 0
Handler = Value → Option Value

abbrev pub Registry : Type 0
Registry = Dict Handler

-- `registerCapabilityHandler` of a function.
unfoldable pub register_capability_handler : Value → Handler → Registry → Outcome String Registry
register_capability_handler capability_id handler registry = do
  require (is_filled capability_id) "INVALID_INPUT"
  ok (put (text_of capability_id) handler registry)

unfoldable pub get_capability_handler : Value → Registry → Outcome String (Option Handler)
get_capability_handler capability_id registry = do
  require (is_filled capability_id) "INVALID_INPUT"
  ok (get (text_of capability_id) registry)

abbrev pub request_ids : List String
request_ids = "invocation_id" ∷ "capability_ref_id" ∷ "friendship_id" ∷ "capability_id" ∷ []

unfoldable pub all_filled : List String → Fields → Bool
all_filled [] fs = true
all_filled (k ∷ ks) fs = is_filled (field_of k fs) && all_filled ks fs

-- What `assertInvocationRequest`, and the checks of the two ends of the transport, ask for.
unfoldable pub is_request : Value → Bool
is_request v =
    is_plain v && all_filled request_ids (own_fields v) && is_plain (property "payload" v)

abbrev pub error_of : String → Value
error_of code = obj (field "code" (str code) no_field)

abbrev pub execution_result : Value → Bool → Value → Value → Fields
execution_result invocation_id executed raw_result error = object (
    ("invocation_id", invocation_id)
    ∷ ("executed", bool executed)
    ∷ ("raw_result", raw_result)
    ∷ ("error", error)
    ∷ [])

unfoldable pub run_handler : Value → Value → Option Handler → Fields
run_handler invocation_id payload none =
    execution_result invocation_id false null (error_of "HANDLER_NOT_FOUND")
run_handler invocation_id payload (some handler) = elim (handler payload) [
  | none ↦ execution_result invocation_id false null (error_of "HANDLER_EXECUTION_FAILED")
  | some raw_result ↦ execution_result invocation_id true raw_result null
]

unfoldable pub execute_invocation : Registry → Value → Outcome String Fields
execute_invocation registry request = do
  require (is_request request) "INVALID_INVOCATION_REQUEST"
  handler ← get_capability_handler (property "capability_id" request) registry
  ok (run_handler (property "invocation_id" request) (property "payload" request) handler)

abbrev pub is_boolean : Value → Bool
is_boolean (bool b) = true
is_boolean _ = false

abbrev pub is_null : Value → Bool
is_null null = true
is_null _ = false

-- What an execution that did, or did not, succeed has to carry.
unfoldable pub assert_outcome : Fields → Bool → Outcome String (Unit {0})
assert_outcome r true = require (is_null (field_of "error" r)) "INVALID_EXECUTION_RESULT"
assert_outcome r false = do
  require (is_null (field_of "raw_result" r)) "INVALID_EXECUTION_RESULT"
  require (is_plain (field_of "error" r)) "INVALID_EXECUTION_RESULT"
  require (is_filled (property "code" (field_of "error" r))) "INVALID_INPUT"

unfoldable pub assert_execution_result : Value → Outcome String Fields
assert_execution_result v = do
  require (is_plain v) "INVALID_EXECUTION_RESULT"
  let r = own_fields v
  require (is_filled (field_of "invocation_id" r)) "INVALID_INPUT"
  require (is_boolean (field_of "executed" r)) "INVALID_EXECUTION_RESULT"
  require (has_key "raw_result" r) "INVALID_EXECUTION_RESULT"
  require (has_key "error" r) "INVALID_EXECUTION_RESULT"
  assert_outcome r (is_true (field_of "executed" r))
  ok r

-- The result of an execution that was checked.
unfoldable pub adapted : Value → Fields → Bool → Outcome String Fields
adapted request r true =
    create_capability_invocation_result request true (field_of "raw_result" r) null
adapted request r false =
    create_capability_invocation_result request false null
      (obj (field "code" (property "code" (field_of "error" r)) no_field))

-- `a !== b` of two values that are texts.
unfoldable pub adapt_execution_result : Value → Value → Outcome String Fields
adapt_execution_result request execution = do
  require (is_plain request) "INVALID_INPUT"
  require (is_filled (property "invocation_id" request)) "INVALID_INPUT"
  r ← assert_execution_result execution
  require (is_text (text_of (property "invocation_id" request)) (field_of "invocation_id" r))
      "INVALID_EXECUTION_RESULT"
  adapted request r (is_true (field_of "executed" r))
