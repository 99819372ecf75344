-- ===== src/Remote/Journey.antt =====
-- An invocation on its way from a friend's capability to the result.
use a2a_fun.Remote.Made.{
  reference_of, reference-Made, request-is_request, reference-made, request-made,
}
use a2a_fun.Remote.{
  Transport, transport_input, transport_used, send_result, Sending, send_payload, request_payload,
  is_peer, send_remote_invocation, friendship_gate, answer_execution, handle_remote_invocation,
  is_outcome, is_invocation_result, result_payload, send_remote_invocation_result,
  handle_remote_invocation_result, sent, RemoteAnswer, done,
}
use a2a_fun.Remote.Gate.{
  filled-is_text, adapt-executed, property-own_fields, request-RequestParts, execute-request,
}
use a2a_fun.Execution.{Handler, Registry, is_request, run_handler}
use a2a_fun.Capability.{
  text_of, create_capability_reference, check_object, create_capability_invocation_request,
  invocation_result,
}
use a2a_fun.Prelude.{
  String, ◌≡◌, refl, ap, ◌∙◌, true, some, [], ◌∷◌, arith, ok, get, field_of, property, Value, null,
  bool, obj, Fields, is_filled, is_plain, own_fields, sort_fields,
}

module _ (theirs : Value) (request : Fields) (registry : Registry) where
  gate-friends :
      (mine : Value)
      → is_plain theirs ≡ true
      → property "established" theirs ≡ bool true
      → property "friendship_id" theirs ≡ property "friendship_id" mine
      → is_filled (property "friendship_id" mine) ≡ true
      → field_of "friendship_id" request ≡ property "friendship_id" mine
      → friendship_gate theirs (obj request) ≡ true
  unfolding friendship_gate
  gate-friends mine plain established same filled named =
      let own = filled-is_text (property "friendship_id" mine) filled in
      rw (plain, established, same, filled, named, own) refl

  answer-run :
      (handler : Handler) (raw : Value) (fs : Fields)
      → is_request (obj request) ≡ true
      → get (text_of (field_of "capability_id" request)) registry ≡ some handler
      → handler (field_of "payload" request) ≡ some raw
      → check_object "INVALID_RESULT" raw ≡ ok fs
      → let id = field_of "invocation_id" request in
        answer_execution (obj request) (
          run_handler id
            (field_of "payload" request)
            (get (text_of (field_of "capability_id" request)) registry))
        ≡ done id (invocation_result id true (obj (sort_fields fs)) null)
  unfolding answer_execution run_handler field_of
  answer-run handler raw fs good found gave bounded =
      let parts = request-RequestParts (obj request) good in
      let adapted_to = adapt-executed (obj request) raw refl parts.has_id in ground arith

  handle-request :
      (answer : RemoteAnswer)
      → is_request (obj request) ≡ true
      → friendship_gate theirs (obj request) ≡ true
      → answer_execution (obj request) (
          run_handler
            (field_of "invocation_id" request)
            (field_of "payload" request)
            (get (text_of (field_of "capability_id" request)) registry))
        ≡ answer
      → handle_remote_invocation (obj (request_payload (obj request))) registry theirs ≡ ok answer
  unfolding handle_remote_invocation field_of
  handle-request answer good gate answered =
      let run = execute-request registry (obj request) good in rw (good, gate, run, answered) refl

-- A payload that has been handed to the transport once, with the address of the peer, and what is
-- true of it where it is received.
pub record IsCarried (peer : Value) (s : Sending) (received : Value → Type 0) : Type 0 where
  pub used : Value
  pub input : Fields
  pub once : s ≡ (sent used, input ∷ [])
  pub addressed : field_of "peerUrl" input ≡ property "peerUrl" peer
  pub taken : received (field_of "payload" input)

payload-IsCarried :
    (transport : Transport) (peer : Value) (payload : Fields) (received : Value → Type 0)
    → ((input : Fields) → (out : Value) × (transport input ≡ ok out))
    → received (obj payload)
    → IsCarried peer (send_payload transport peer payload) received
unfolding send_payload transport_input field_of
payload-IsCarried transport peer payload received works taken =
    let input = transport_input (own_fields peer) payload in
    let (out, carried) = works input in
    record {
      used = transport_used out;
      input = input;
      once = ap (λ r. (send_result r, input ∷ [])) carried;
      addressed = property-own_fields "peerUrl" peer;
      taken = taken;
    }

-- A friend's capability is invoked from one node and executed on the other. If the friendship and the
-- capability are complete, the payload and what the handler gives are bounded, the other node has a
-- handler for the capability and an established record of the same friendship, both peers are
-- named and neither transport throws, then the request is made and handed to the transport; the
-- other node, on the payload that was handed over, runs the handler and has a result, which it hands
-- to its transport; and the first node takes it from that payload: the object that the handler gave,
-- with its keys sorted.
pub invocation-journey :
    (digest : String → String) (to_json : Fields → String) (there back : Transport)
    (mine theirs capability payload raw peer friend : Value) (fs : Fields) (registry : Registry)
    (handler : Handler)
    → is_plain mine ≡ true
    → is_filled (property "friendship_id" mine) ≡ true
    → property "established" mine ≡ bool true
    → is_plain capability ≡ true
    → is_filled (property "capability_id" capability) ≡ true
    → is_filled (property "name" capability) ≡ true
    → is_filled (property "summary" capability) ≡ true
    → check_object "INVALID_PAYLOAD" payload ≡ ok (own_fields payload)
    → is_plain theirs ≡ true
    → property "established" theirs ≡ bool true
    → property "friendship_id" theirs ≡ property "friendship_id" mine
    → get (text_of (property "capability_id" capability)) registry ≡ some handler
    → handler (obj (sort_fields (own_fields payload))) ≡ some raw
    → check_object "INVALID_RESULT" raw ≡ ok fs
    → is_peer peer ≡ true
    → is_peer friend ≡ true
    → ((input : Fields) → (out : Value) × (there input ≡ ok out))
    → ((input : Fields) → (out : Value) × (back input ≡ ok out))
    → (ref request : Fields) × (create_capability_reference digest mine capability ≡ ok ref)
      × (create_capability_invocation_request digest to_json (obj ref) payload ≡ ok request)
      × (let id = field_of "invocation_id" request in
          let result = invocation_result id true (obj (sort_fields fs)) null in
          IsCarried peer
            (send_remote_invocation there peer (obj request))
            (λ given. handle_remote_invocation given registry theirs ≡ ok (done id result))
          × IsCarried friend
              (send_remote_invocation_result back friend (obj result))
              (λ given. handle_remote_invocation_result given ≡ done id result))
unfolding send_remote_invocation send_remote_invocation_result handle_remote_invocation_result
    is_invocation_result is_outcome field_of
invocation-journey digest to_json there back mine theirs capability payload raw peer friend fs
      registry handler plain_mine has_id established_mine complete cap_id cap_name cap_summary small
      plain established same found gave bounded peer_named friend_named works returns =
    let made_ref =
      reference-made digest mine capability plain_mine has_id established_mine complete cap_id
        cap_name cap_summary in
    let ref = reference_of digest (own_fields mine) (own_fields capability) in
    let m = reference-Made digest mine capability ref made_ref in
    let has_friendship : is_filled (field_of "friendship_id" ref) ≡ true =
      rw m.friendship_id m.has_friendship in
    let has_capability : is_filled (field_of "capability_id" ref) ≡ true =
      rw m.capability_id m.has_capability in
    let (request, made) =
      request-made digest to_json ref payload m.ref_id has_friendship has_capability refl small in
    let (good, named, cap, content) =
      request-is_request digest to_json ref payload request m.ref_id has_friendship has_capability
        made in
    let gate =
      gate-friends theirs request registry mine plain established same m.has_friendship
        (named ∙ m.friendship_id) in
    let known : get (text_of (field_of "capability_id" request)) registry ≡ some handler =
      rw (cap ∙ m.capability_id) found in
    let given : handler (field_of "payload" request) ≡ some raw = rw content gave in
    let answered = answer-run theirs request registry handler raw fs good known given bounded in
    let parts = request-RequestParts (obj request) good in
    let id = field_of "invocation_id" request in
    let result = invocation_result id true (obj (sort_fields fs)) null in
    let handled = handle-request theirs request registry (done id result) good gate answered in
    (
      ref,
      request,
      made_ref,
      made,
      (
        rw (peer_named, good)
            (payload-IsCarried there peer (request_payload (obj request)) _ works handled),
        rw (friend_named, parts.has_id)
            (payload-IsCarried back friend (result_payload (obj result)) _ returns
              (rw parts.has_id refl)),
      ),
    )
