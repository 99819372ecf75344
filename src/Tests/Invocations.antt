-- ===== src/Tests/Invocations.antt =====
-- A remote invocation on concrete values.
use a2a_fun.Prelude.{
  String, ◌≡◌, refl, true, some, [], ◌∷◌, ok, get, is_space, trim_start, trim_end, trim,
  utf16_length, field_of, property, Value, null, bool, str, obj, exotic, Fields, no_field,
  is_filled, object, has_key, own_fields, insert_field, sort_fields,
}
use a2a_fun.Capability.{
  epoch, text_of, create_capability_reference, is_small, check_entries, check_object,
  create_capability_invocation_request, invocation_result, create_capability_invocation_result,
}
use a2a_fun.Execution.{
  Handler, Registry, get_capability_handler, all_filled, is_request, run_handler,
  execute_invocation, assert_outcome, assert_execution_result, adapted, adapt_execution_result,
}
use a2a_fun.Remote.{
  Transport, request_payload, is_peer, send_remote_invocation, friendship_gate, answer_execution,
  handle_remote_invocation, send_remote_invocation_result, handle_remote_invocation_result, done,
}
use a2a_fun.Remote.Gate.{done-Executed, AreFriends, Executed}
use a2a_fun.Remote.Journey.{invocation-journey, IsCarried}

abbrev friendship : Value
friendship = obj (object (("friendship_id", str "f1") ∷ ("established", bool true) ∷ []))

abbrev echo_capability : Value
echo_capability =
    obj (object (("capability_id", str "echo") ∷ ("name", str "Echo") ∷ ("summary", str "s") ∷ []))

abbrev echo_payload : Value
echo_payload = obj (object (("text", str "hello") ∷ []))

same_digest : String → String
same_digest s = "00"

no_json : Fields → String
no_json fs = "{}"

abbrev echo_request : Fields
echo_request = object (
    ("invocation_id", str "inv:sha256:00")
    ∷ ("capability_ref_id", str "capref:sha256:00")
    ∷ ("friendship_id", str "f1")
    ∷ ("capability_id", str "echo")
    ∷ ("payload", echo_payload)
    ∷ ("created_at", epoch)
    ∷ [])

abbrev echo : Handler
echo v = some v

abbrev echo_registry : Registry
echo_registry = ("echo", echo) ∷ []

abbrev echo_peer : Value
echo_peer = obj (object (("peerUrl", str "http://b") ∷ []))

carrying : Transport
carrying input = ok (obj (object (("transport", str "direct") ∷ [])))

never_throws : (input : Fields) → (out : Value) × (carrying input ≡ ok out)
unfolding carrying
never_throws input = (_, refl)

friendship_named : is_filled (property "friendship_id" friendship) ≡ true
unfolding is_filled trim trim_start trim_end is_space field_of
friendship_named = refl

abbrev IsTold : String → Type 0
IsTold key = is_filled (property key echo_capability) ≡ true

capability-IsTold : IsTold "capability_id" × IsTold "name" × IsTold "summary"
unfolding is_filled trim trim_start trim_end is_space field_of
capability-IsTold = (refl, refl, refl)

handler_found : get (text_of (property "capability_id" echo_capability)) echo_registry ≡ some echo
unfolding get field_of
handler_found = refl

echo_gave : echo (obj (sort_fields (own_fields echo_payload))) ≡ some echo_payload
unfolding sort_fields insert_field
echo_gave = refl

abbrev IsBounded : String → Type 0
IsBounded code = check_object code echo_payload ≡ ok (own_fields echo_payload)

echo-IsBounded : IsBounded "INVALID_PAYLOAD" × IsBounded "INVALID_RESULT"
unfolding check_object check_entries is_small is_filled trim trim_start trim_end is_space
    utf16_length
echo-IsBounded = (refl, refl)

peer_named : is_peer echo_peer ≡ true
unfolding is_filled trim trim_start trim_end is_space field_of
peer_named = refl

friendship_established : property "established" friendship ≡ bool true
unfolding field_of
friendship_established = refl

invocation-journey_example :
    (ref request : Fields) × (create_capability_reference same_digest friendship echo_capability
      ≡ ok ref)
    × (create_capability_invocation_request same_digest no_json (obj ref) echo_payload ≡ ok request)
    × (let id = field_of "invocation_id" request in
        let result = invocation_result id true (obj (sort_fields (own_fields echo_payload))) null in
        IsCarried echo_peer
          (send_remote_invocation carrying echo_peer (obj request))
          (λ given. handle_remote_invocation given echo_registry friendship ≡ ok (done id result))
        × IsCarried echo_peer
            (send_remote_invocation_result carrying echo_peer (obj result))
            (λ given. handle_remote_invocation_result given ≡ done id result))
invocation-journey_example =
    invocation-journey same_digest no_json carrying carrying friendship friendship echo_capability
      echo_payload echo_payload echo_peer echo_peer (own_fields echo_payload) echo_registry echo
      refl friendship_named friendship_established refl capability-IsTold.0 capability-IsTold.1
      capability-IsTold.2 echo-IsBounded.0 refl friendship_established refl handler_found echo_gave
      echo-IsBounded.1 peer_named peer_named never_throws never_throws

echo_handled :
    handle_remote_invocation (obj (request_payload (obj echo_request))) echo_registry friendship
    ≡ ok (
        done (str "inv:sha256:00") (invocation_result (str "inv:sha256:00") true echo_payload null))
unfolding handle_remote_invocation is_request all_filled friendship_gate execute_invocation
    get_capability_handler run_handler answer_execution adapt_execution_result
    assert_execution_result assert_outcome adapted create_capability_invocation_result check_object
    check_entries is_small is_filled trim trim_start trim_end is_space utf16_length sort_fields
    insert_field field_of has_key get
echo_handled = refl

done-Executed_example :
    let payload = obj (request_payload (obj echo_request)) in
    let request = property "invocation_request" payload in
    (property "kind" payload ≡ str "REMOTE_INVOCATION_REQUEST")
    × (is_request request ≡ true)
    × AreFriends friendship request
    × ((fs : Fields) × Executed echo_registry request fs
        × (str "inv:sha256:00" ≡ property "invocation_id" request)
        × (invocation_result (str "inv:sha256:00") true echo_payload null
            ≡ invocation_result (str "inv:sha256:00") true (obj (sort_fields fs)) null))
done-Executed_example =
    done-Executed (obj (request_payload (obj echo_request))) friendship (str "inv:sha256:00")
      echo_registry (invocation_result (str "inv:sha256:00") true echo_payload null) echo_handled

-- A handler that returns a promise, an object without keys of its own, succeeds with an empty result.
promise_lost :
    answer_execution (obj echo_request) (
      run_handler (str "inv:sha256:00") echo_payload (some (λ v. some (exotic "[object Promise]"))))
    ≡ done (str "inv:sha256:00") (invocation_result (str "inv:sha256:00") true (obj no_field) null)
unfolding run_handler answer_execution adapt_execution_result assert_execution_result assert_outcome
    adapted create_capability_invocation_result check_object check_entries is_filled trim trim_start
    trim_end is_space sort_fields field_of has_key
promise_lost = refl
