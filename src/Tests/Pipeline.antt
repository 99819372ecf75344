-- ===== src/Tests/Pipeline.antt =====
-- The schemas, the inbound pipeline and the outbound builder on one question from node to node.
use a2a_fun.Prelude.{
  ◌≡◌, refl, false, Option, none, some, [], ◌∷◌, arith, eq_iff, take, ok, is_space, test, field_of,
  property, Value, str, obj, Fields, no_field, field, is_truthy, set_field, has_key,
}
use a2a_fun.Identity.Lint.{
  email_re, at_handle_re, messenger_re, wa_me_re, long_digits_re, is_phone, find_contact_like_token,
  default_max_string_scan, lint_text, assert_no_raw_handle, lint_items, lint_fields,
}
use a2a_fun.Phase2.Constants.{probing}
use a2a_fun.Phase2.SafeText.{
  is_line_end, is_markdown, url_re, tld_re, has_url_like, check_text, validate_safe_short_text,
}
use a2a_fun.Phase2.SafeArray.{
  lower_char, to_lower_case, check_token, check_item, check_items, unique_from, insert, sort,
  validate_safe_string_array,
}
use a2a_fun.Phase2.Checks.{check_keys, strings, safe_text, safe_array}
use a2a_fun.Phase2.Hello.{
  all_supported, protocol_re, language_re, language_options, hello_protocols, hello_transports,
  hello_languages, validate_hello,
}
use a2a_fun.Phase2.Body.{
  validate_single_text, validate_fields, plain_fields, validate_body_of,
  validate_decrypted_body_by_type,
}
use a2a_fun.Phase2.Body.Safety.{guarded_is_free, by_question}
use a2a_fun.Phase2.Envelope.{
  req_string, req_obj, base64_re, is_base64, plaintext, lint_plaintext, validate_header,
  validate_parties, validate_crypto, validate_payload, validate_envelope,
}
use a2a_fun.Phase2.Session.{raw, is_known_state, SessionState}
use a2a_fun.Phase2.Session.Inbound.{apply_session_message}
use a2a_fun.Phase2.Session.Rules.{IsValid, received, Step}
use a2a_fun.Phase2.Processor.{
  message_type_of, close_reason_of, apply_stage, decrypt_stage, verify_stage, process_inbound, Deps,
  Processed,
}
use a2a_fun.Phase2.Processor.Order.{all_calls, reach, calls_in_order}
use a2a_fun.Phase2.Processor.Passed.{process_inbound-Step, Passed}
use a2a_fun.Phase7.Outbound.{
  version, check_inputs, check_body, check_encrypted, envelope_with, check_sig, check_envelope,
  run_encrypt, run_sign, build_formal_outbound_envelope, Request,
}
use a2a_fun.Phase7.Outbound.Delivery.{delivered, outbound_is_free}

schema_steps : Unit {0}
unfolding find_contact_like_token email_re is_phone at_handle_re messenger_re wa_me_re
    long_digits_re test assert_no_raw_handle lint_text check_text validate_safe_short_text
    is_line_end is_markdown has_url_like url_re tld_re field_of safe_text check_keys
    validate_single_text validate_fields plain_fields validate_body_of
    validate_decrypted_body_by_type
schema_steps = tt

abbrev question_fields : Fields
question_fields = field "q" (str "What is the goal?") no_field

question_accepted :
    validate_decrypted_body_by_type (str "0.4.4") (str "probe.question") (obj question_fields)
    ≡ ok (obj question_fields)
unfolding schema_steps
question_accepted = refl

guarded_is_free_example :
    (obj question_fields ≡ obj question_fields)
    × (assert_no_raw_handle default_max_string_scan (obj question_fields) ≡ ok tt)
guarded_is_free_example =
    guarded_is_free "0.4.4" "probe.question" question_fields (obj question_fields) by_question
      (refl, tt) question_accepted

abbrev languages : Value
languages = strings ("EN" ∷ "de" ∷ "en" ∷ [])

array_steps : Unit {0}
unfolding schema_steps language_re protocol_re check_token check_item check_items
    validate_safe_string_array unique_from sort insert to_lower_case lower_char is_space
array_steps = tt

languages_sorted : validate_safe_string_array language_options languages ≡ ok ("de" ∷ "en" ∷ [])
unfolding array_steps
languages_sorted = refl

abbrev hello_fields : Fields
hello_fields = field "protocols" (strings ("A2A.friendship/1" ∷ "a2a.friendship/1" ∷ [])) no_field

abbrev hello_kept : Fields
hello_kept = field "protocols" (strings ("a2a.friendship/1" ∷ [])) no_field

hello_accepted : validate_hello hello_fields ≡ ok hello_kept
unfolding array_steps validate_hello hello_protocols hello_transports hello_languages safe_array
    all_supported set_field
hello_accepted = refl

abbrev asked : Request
asked = record {
  session_id = str "s";
  msg_id = str "m1";
  ts = str "2026-01-01T00:00:00Z";
  from_actor_id = str "a";
  to_actor_id = str "b";
  from_key_fpr = str "fa";
  to_key_fpr = str "fb";
  type = str "probe.question";
  body = obj question_fields;
}

abbrev cipher : Value
cipher = obj (
    field "ciphertext" (str "QUJD") (
      field "nonce" (str "bm9u") (
        field "content_type" (str "application/json")
          (field "enc" (str "aead") (field "kdf" (str "hkdf") no_field)))))

abbrev encrypt : Value → Option Value
encrypt _ = some cipher

abbrev sign : Value → Option Value
sign _ = some (str "c2ln")

abbrev sent : Value
sent = envelope_with asked cipher (field "sig" (str "c2ln") no_field)

envelope_steps : Unit {0}
unfolding schema_steps validate_envelope validate_header validate_parties validate_crypto
    validate_payload req_string req_obj is_base64 base64_re lint_plaintext lint_fields lint_items
    has_key
envelope_steps = tt

sent_built : build_formal_outbound_envelope encrypt sign asked ≡ ok sent
unfolding envelope_steps build_formal_outbound_envelope check_inputs check_body run_encrypt
    check_encrypted run_sign check_sig check_envelope is_truthy
sent_built = refl

abbrev deps : Deps
deps = record {
  resolve_peer_public_key = λ _ _. some (some "pem");
  verify_envelope_signature = λ _ _. some tt;
  decrypt_ciphertext = λ _. some (obj question_fields);
  event_hash = λ _. "hash";
}

abbrev probed : SessionState
probed = record {
  state = probing;
  session_id = "s";
  peer_actor_id = "a";
  local_entered = false;
  remote_entered = false;
  closed_reason = none;
}

delivered_example :
    (body : Value) × (validate_decrypted_body_by_type version
        (str "probe.question")
        (obj question_fields)
      ≡ ok body)
    × ((process_inbound deps "now" (raw probed) sent).outcome
        ≡ (apply_stage deps "now" (raw probed) sent body).outcome)
delivered_example =
    delivered encrypt sign asked sent deps "now" "pem" (raw probed) sent_built refl
      (ground (arith, eq_iff "pem" "")) refl refl

outbound_is_free_example :
    (assert_no_raw_handle default_max_string_scan (obj question_fields) ≡ ok tt)
    × (assert_no_raw_handle default_max_string_scan (plaintext sent) ≡ ok tt)
outbound_is_free_example =
    outbound_is_free encrypt sign asked sent question_fields sent_built refl (refl, tt)

calls_in_order_example :
    (process_inbound deps "now" (raw probed) sent).calls
    ≡ take (reach (process_inbound deps "now" (raw probed) sent).outcome) all_calls
calls_in_order_example = calls_in_order deps "now" (raw probed) sent

question_processed :
    (p : Processed) × ((process_inbound deps "now" (raw probed) sent).outcome ≡ ok p)
unfolding envelope_steps process_inbound verify_stage decrypt_stage apply_stage
    apply_session_message message_type_of close_reason_of
question_processed = (_, refl)

probed-IsValid : IsValid probed
unfolding is_known_state
probed-IsValid = record {
  known = refl;
  session = ground (arith, eq_iff "s" "");
  peer = ground (arith, eq_iff "a" "");
}

process_inbound-Step_example :
    (h : Passed deps "now" (raw probed) sent question_processed.0) × Step probed
      question_processed.0.session_apply_result.next_state
      (received (message_type_of "probe.question") (close_reason_of (property "reason" h.body)))
unfolding field_of
process_inbound-Step_example =
    process_inbound-Step deps "now" probed sent question_processed.0 probed-IsValid
      question_processed.1
