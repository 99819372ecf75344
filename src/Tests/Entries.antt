-- ===== src/Tests/Entries.antt =====
-- The formal entry on a payload that asks for both confirmations.
use a2a_fun.Capability.{epoch}
use a2a_fun.Candidate.{
  create_friendship_candidate, assert_candidate, confirm_locally, confirm_remotely,
  trigger_friendship_persistence,
}
use a2a_fun.Inbound.Consent.{formal_inbound_entry-HasConsent, HasConsent}
use a2a_fun.Prelude.{
  String, ◌≡◌, refl, true, false, none, some, [], ◌∷◌, ok, is_space, trim_start, trim_end, trim,
  test, field_of, property, Value, null, bool, str, obj, Fields, is_filled, object, has_key,
}
use a2a_fun.Inbound.{
  confirm_local_step, record_step, confirm_remote_step, befriend, after_probe, after_processor,
  run_processor, enter_session, enter_envelope, wanted_of, formal_inbound_entry, Caller, Response,
  answered,
}
use a2a_fun.Identity.Lint.{
  email_re, at_handle_re, messenger_re, wa_me_re, long_digits_re, is_phone, find_contact_like_token,
  lint_text, assert_no_raw_handle, lint_items, lint_fields,
}
use a2a_fun.Phase2.Envelope.{
  req_string, req_obj, base64_re, is_base64, lint_plaintext, validate_header, validate_parties,
  validate_crypto, validate_payload, validate_envelope,
}
use a2a_fun.Phase3.Probe.{
  is_listed_state, normalize_state, assert_non_empty_string, check_kind, normalize_message,
  probe_transition, apply_session_probe_message, ProbeState, probing, probe_ack, Input, Session,
  Message,
}

abbrev party : String → Value
party actor = obj (object (("actor_id", str actor) ∷ ("key_fpr", str "fa") ∷ []))

abbrev crypto_part : Value
crypto_part = obj (object (("enc", str "aead") ∷ ("kdf", str "hkdf") ∷ ("nonce", str "bm9u") ∷ []))

abbrev body_part : Value
body_part =
    obj (object (("content_type", str "application/json") ∷ ("ciphertext", str "QUJD") ∷ []))

abbrev entry_envelope : Value
entry_envelope = obj (
    object (
      ("v", str "0.4.4")
      ∷ ("type", str "probe.question")
      ∷ ("msg_id", str "m1")
      ∷ ("session_id", str "s1")
      ∷ ("ts", str "2027")
      ∷ ("from", party "a")
      ∷ ("to", party "b")
      ∷ ("crypto", crypto_part)
      ∷ ("body", body_part)
      ∷ ("sig", str "c2ln")
      ∷ []))

entry_valid : validate_envelope entry_envelope ≡ ok tt
unfolding find_contact_like_token email_re is_phone at_handle_re messenger_re wa_me_re
    long_digits_re test assert_no_raw_handle lint_text field_of validate_envelope validate_header
    validate_parties validate_crypto validate_payload req_string req_obj is_base64 base64_re
    lint_plaintext lint_fields lint_items has_key
entry_valid = refl

abbrev entry_payload : Value
entry_payload = obj (
    object (
      ("envelope", entry_envelope)
      ∷ ("friendship_confirm_local", bool true)
      ∷ ("friendship_confirm_remote", bool true)
      ∷ []))

abbrev entered_before : Input
entered_before = record {
  session_id = some "s1";
  peer_actor_id = some "a";
  state = some ProbeState.local_entered;
  local_entered = true;
  remote_entered = false;
}

abbrev acknowledged : Message
acknowledged = record { kind = probe_ack; session_id = some "s1"; peer_actor_id = some "a" }

abbrev entry_caller : Caller
entry_caller = record {
  read_session = none;
  process = some (λ envelope state. some (record {
    next_state = null;
    audit_count = none;
    phase3_state = some entered_before;
    phase3_message = some acknowledged;
  }));
  digest = λ s. "00";
}

abbrev entry_candidate : Fields
entry_candidate = object (
    ("candidate_id", str "fcand:sha256:00")
    ∷ ("session_id", str "s1")
    ∷ ("peer_actor_id", str "a")
    ∷ ("created_at", epoch)
    ∷ ("phase3_state", str "PROBING")
    ∷ ("local_confirmed", bool false)
    ∷ ("remote_confirmed", bool false)
    ∷ [])

abbrev confirmed_once : Fields
confirmed_once = object (
    ("candidate_id", str "fcand:sha256:00")
    ∷ ("session_id", str "s1")
    ∷ ("peer_actor_id", str "a")
    ∷ ("local_confirmed", bool true)
    ∷ ("remote_confirmed", bool false)
    ∷ ("confirmed_at", epoch)
    ∷ [])

abbrev confirmed_twice : Fields
confirmed_twice = object (
    ("candidate_id", str "fcand:sha256:00")
    ∷ ("session_id", str "s1")
    ∷ ("peer_actor_id", str "a")
    ∷ ("local_confirmed", bool true)
    ∷ ("remote_confirmed", bool true)
    ∷ ("mutually_confirmed", bool true)
    ∷ ("confirmed_at", epoch)
    ∷ [])

abbrev entry_friend : Fields
entry_friend = object (
    ("friendship_id", str "friendship:sha256:00")
    ∷ ("candidate_id", str "fcand:sha256:00")
    ∷ ("session_id", str "s1")
    ∷ ("peer_actor_id", str "a")
    ∷ ("established", bool true)
    ∷ ("established_at", epoch)
    ∷ [])

abbrev entry_session : Session
entry_session = record {
  session_id = some "s1";
  peer_actor_id = some "a";
  state = probing;
  local_entered = true;
  remote_entered = true;
}

abbrev entry_response : Response
entry_response = record {
  session_state = null;
  audit_records_count = none;
  phase3 = some entry_session;
  friendship_candidate = some entry_candidate;
  friendship_confirmation_local = some confirmed_once;
  friendship_confirmation_remote = some confirmed_twice;
  friendship_record = some entry_friend;
}

entry_step :
    enter_session entry_caller (wanted_of entry_payload) "s1" entry_envelope
    ≡ answered "s1" none entry_response
unfolding enter_session run_processor after_processor after_probe apply_session_probe_message
    normalize_state normalize_message is_listed_state check_kind assert_non_empty_string
    probe_transition create_friendship_candidate befriend confirm_local_step confirm_remote_step
    record_step confirm_locally confirm_remotely assert_candidate trigger_friendship_persistence
    is_filled trim trim_start trim_end is_space field_of
entry_step = refl

entry_answered : formal_inbound_entry entry_caller entry_payload ≡ answered "s1" none entry_response
unfolding formal_inbound_entry enter_envelope field_of has_key
entry_answered = rw (entry_valid, enter_envelope) entry_step

formal_inbound_entry-HasConsent_example :
    (validate_envelope (property "envelope" entry_payload) ≡ ok tt)
    × HasConsent entry_caller
        (property "envelope" entry_payload)
        (wanted_of entry_payload)
        entry_response
        entry_friend
formal_inbound_entry-HasConsent_example =
    formal_inbound_entry-HasConsent entry_caller entry_payload "s1" none entry_response entry_friend
      entry_answered refl
