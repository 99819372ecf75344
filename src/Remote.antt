-- ===== src/Remote.antt =====
-- src/remote: an invocation that is sent to another node, its execution there behind the friendship
-- gate, and the way back of its result. A transport is a function of what it is handed: what it gives
-- back, or the value that it throws; an operation also says what it has handed to it. The events of the social feed change nothing and are left out.
pub mod Bounds
pub mod Gate
mod Made
pub mod Journey
use Prim.Native.Char.{code}
use Prim.Native.String
use a2a_fun.Prelude.{
  ℕ, ◌-◌, String, Bool, true, false, not, ◌&&◌, List, [], ◌∷◌, ltb, leb, if◌then◌else◌, ◌>>=◌,
  Outcome, ok, throw, utf16_length, field_of, is_string, property, Value, null, bool, str, obj,
  Fields, is_truthy, safe_str, is_text, or_null, is_filled, is_plain, is_true, object, own_fields,
}
use a2a_fun.Capability.{text_of}
use a2a_fun.Execution.{Registry, is_request, execute_invocation, adapt_execution_result}

abbrev pub Transport : Type 0
Transport = Fields → Outcome Value Value

-- The first units of a text; a pair of units is not cut in two.
unfoldable pub first_units : ℕ → String → String
first_units n String.[] = ""
first_units n (String.◌∷◌ c s) =
    let width = if ltb (code c) 65536 then 1 else 2 in
    let rest = first_units (n - width) s in if leb width n then String.◌∷◌ c rest else ""

unfoldable pub bound_code : String → String
bound_code s = if ltb 64 (utf16_length s) then first_units 64 s else s

-- `toMachineSafeErrorCode`
unfoldable pub to_machine_safe_error_code : Value → String
to_machine_safe_error_code e =
    if is_filled (property "code" e)
    then bound_code (safe_str (property "code" e))
    else "TRANSPORT_FAILED"

pub data SendResult : Type 0 where
  sent : Value → SendResult
  not_sent : String → SendResult

-- What is handed to the transport: the payload with the way to the peer.
unfoldable pub transport_input : Fields → Fields → Fields
transport_input peer payload = object (
    ("peerUrl", field_of "peerUrl" peer)
    ∷ ("payload", obj payload)
    ∷ ("relayAvailable", bool (is_truthy (field_of "relayAvailable" peer)))
    ∷ ("timeoutMs", field_of "timeoutMs" peer)
    ∷ ("relayUrl", field_of "relayUrl" peer)
    ∷ ("nodeId", field_of "nodeId" peer)
    ∷ ("relayTo", field_of "relayTo" peer)
    ∷ [])

-- `out && typeof out === 'object' && typeof out.transport === 'string' ? out.transport : null`
abbrev pub transport_used : Value → Value
transport_used out = if is_string (property "transport" out) then property "transport" out else null

abbrev pub send_result : Outcome Value Value → SendResult
send_result (ok out) = sent (transport_used out)
send_result (throw e) = not_sent (to_machine_safe_error_code e)

-- The result, and what the transport was handed, in its order.
abbrev pub Sending : Type 0
Sending = SendResult × List Fields

unfoldable pub send_payload : Transport → Value → Fields → Sending
send_payload transport peer payload =
    let input = transport_input (own_fields peer) payload in
    (send_result (transport input), input ∷ [])

abbrev pub request_payload : Value → Fields
request_payload request =
    object (("kind", str "REMOTE_INVOCATION_REQUEST") ∷ ("invocation_request", request) ∷ [])

abbrev pub is_peer : Value → Bool
is_peer peer = is_plain peer && is_filled (property "peerUrl" peer)

unfoldable pub send_remote_invocation : Transport → Value → Value → Sending
send_remote_invocation transport peer request =
    if not (is_peer peer)
    then (not_sent "INVALID_INPUT", [])
    else if is_request request
    then send_payload transport peer (request_payload request)
    else (not_sent "INVALID_INPUT", [])

-- The answer of the node that executes: a refusal with its code, or the result.
pub data RemoteAnswer : Type 0 where
  refused : String → Value → RemoteAnswer
  done : Value → Fields → RemoteAnswer

-- `validateFriendshipGate`
unfoldable pub friendship_gate : Value → Value → Bool
friendship_gate friendship_record request =
    is_plain friendship_record
    && is_true (property "established" friendship_record)
    && is_filled (property "friendship_id" friendship_record)
    && is_text (text_of (property "friendship_id" friendship_record))
        (property "friendship_id" request)

-- `payload?.invocation_request?.invocation_id ?? null`
abbrev pub invocation_id_of : Value → Value
invocation_id_of payload =
    or_null (property "invocation_id" (property "invocation_request" payload))

unfoldable pub answer_execution : Value → Fields → RemoteAnswer
answer_execution request execution =
    let id = property "invocation_id" request in
    if is_true (field_of "executed" execution)
    then elim (adapt_execution_result request (obj execution)) [
      | ok result ↦ done id result
      | throw code ↦ refused (bound_code code) id
    ]
    else refused (bound_code (text_of (property "code" (field_of "error" execution)))) id

-- `handleRemoteInvocation`; what the checked request makes `executeInvocation` throw cannot occur.
unfoldable pub handle_remote_invocation : Value → Registry → Value → Outcome String RemoteAnswer
handle_remote_invocation payload registry friendship_record =
    let request = property "invocation_request" payload in
    if not (is_plain payload)
    then ok (refused "INVALID_PAYLOAD" (invocation_id_of payload))
    else if not (is_text "REMOTE_INVOCATION_REQUEST" (property "kind" payload))
    then ok (refused "INVALID_KIND" (invocation_id_of payload))
    else if not (is_plain request)
    then ok (refused "INVALID_PAYLOAD" (invocation_id_of payload))
    else if not (is_request request)
    then ok (refused "INVALID_INVOCATION_REQUEST" (invocation_id_of payload))
    else if not (friendship_gate friendship_record request)
    then ok (refused "INVALID_FRIENDSHIP" (property "invocation_id" request))
    else execute_invocation registry request >>= λ execution.
        ok (answer_execution request execution)

-- A result that succeeded has an object and no error, one that failed the reverse.
unfoldable pub is_outcome : Value → Value → Value → Bool
is_outcome (bool true) result null = is_plain result
is_outcome (bool false) null error = is_plain error && is_filled (property "code" error)
is_outcome _ _ _ = false

-- `validateInvocationResult`
unfoldable pub is_invocation_result : Value → Bool
is_invocation_result v =
    is_plain v
    && is_filled (property "invocation_id" v)
    && is_outcome (property "ok" v) (property "result" v) (property "error" v)

abbrev pub result_payload : Value → Fields
result_payload result =
    object (("kind", str "REMOTE_INVOCATION_RESULT") ∷ ("invocation_result", result) ∷ [])

unfoldable pub send_remote_invocation_result : Transport → Value → Value → Sending
send_remote_invocation_result transport peer result =
    if not (is_peer peer)
    then (not_sent "INVALID_INPUT", [])
    else if is_invocation_result result
    then send_payload transport peer (result_payload result)
    else (not_sent "INVALID_INVOCATION_RESULT", [])

-- `handleRemoteInvocationResult`
unfoldable pub handle_remote_invocation_result : Value → RemoteAnswer
handle_remote_invocation_result payload =
    let result = property "invocation_result" payload in
    if not (is_plain payload)
    then refused "INVALID_PAYLOAD" null
    else if not (is_text "REMOTE_INVOCATION_RESULT" (property "kind" payload))
    then refused "INVALID_KIND" null
    else if is_invocation_result result
    then done (property "invocation_id" result) (own_fields result)
    else refused "INVALID_INVOCATION_RESULT" (or_null (property "invocation_id" result))
