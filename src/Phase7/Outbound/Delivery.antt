-- ===== src/Phase7/Outbound/Delivery.antt =====
-- From one node to the other: what the builder makes passes the checks of the peer's pipeline.
use a2a_fun.Identity.Lint.{default_max_string_scan, assert_no_raw_handle}
use a2a_fun.Phase2.Processor.{apply_stage, decrypt_stage, verify_stage, process_inbound, Deps}
use a2a_fun.Phase2.Body.Meaning.{HasDistinctKeys}
use a2a_fun.Phase2.Session.{Raw}
use a2a_fun.Prelude.{
  String, ◌≡◌, refl, ◌≢◌, inl, inr, true, false, Option, some, arith, str_eq, eq_iff, Bool-cases,
  require, bind-eq-ok, ok, field_of, is_string, property, Value, str, obj, Fields, no_field, field,
  has_key,
}
use a2a_fun.Phase2.Body.{is_one_of, validate_decrypted_body_by_type}
use a2a_fun.Phase2.Body.Safety.{guarded_is_free, MachineSafe, by_question, by_done}
use a2a_fun.Phase2.Envelope.{
  plaintext, lint_plaintext, validate_header, validate_parties, validate_crypto, validate_payload,
  validate_envelope, missing,
}
use a2a_fun.Phase7.Outbound.{
  version, supported_egress_types, check_inputs, check_body, to_encrypt, check_encrypted,
  envelope_with, check_sig, check_envelope, run_encrypt, run_sign, build_formal_outbound_envelope,
  Request,
}

-- The two types that may leave, both guarded.
egress_type :
    (v : Value)
    → is_one_of supported_egress_types v ≡ true
    → (type : String) × (v ≡ str type) × MachineSafe type
egress_type (str s) e = elim (Bool-cases (str_eq s "probe.question")) [
  | inl is ↦ (s, refl, let same : s ≡ "probe.question" = (eq_iff s _).0 is in rw same by_question)
  | inr other ↦
      let is : str_eq s "probe.done" ≡ true = ground arith in
      (s, refl, let same : s ≡ "probe.done" = (eq_iff s _).0 is in rw same by_done)
]
egress_type _ e = cc

-- A well-formed envelope has passed the lint.
validate_envelope-lint :
    (e : Value)
    → validate_envelope e ≡ ok tt
    → assert_no_raw_handle default_max_string_scan (plaintext e) ≡ ok tt
unfolding validate_envelope lint_plaintext
validate_envelope-lint e h =
    let (_, _, e1) = bind-eq-ok (validate_header e) _ h in
    let (_, _, e2) = bind-eq-ok (validate_parties e) _ e1 in
    let (_, _, e3) = bind-eq-ok (validate_crypto e) _ e2 in
    let (_, _, e4) = bind-eq-ok (validate_payload e) _ e3 in
    let (_, _, e5) = bind-eq-ok (require (is_string (property "sig" e)) (missing "sig")) _ e4 in
    ground arith

module _ (encrypt sign : Value → Option Value) where
  -- What stands behind an envelope of the builder.
  record Built (r : Request) (envelope : Value) : Type 0 where
    enc : Value
    sig : Value
    body : Value
    egress : is_one_of supported_egress_types r.type ≡ true
    valid_body : validate_decrypted_body_by_type version r.type r.body ≡ ok body
    is : envelope ≡ envelope_with r enc (field "sig" sig no_field)
    well_formed : validate_envelope envelope ≡ ok tt

  check_envelope-ok :
      (e f : Value) → check_envelope e ≡ ok f → (f ≡ e) × (validate_envelope e ≡ ok tt)
  unfolding check_envelope
  check_envelope-ok e f h = (ground arith, ground arith)

  check_body-ok :
      (r : Request) (body : Value)
      → check_body r ≡ ok body
      → validate_decrypted_body_by_type version r.type r.body ≡ ok body
  unfolding check_body
  check_body-ok r body h = ground arith

  check_inputs-ok :
      (r : Request) → check_inputs r ≡ ok tt → is_one_of supported_egress_types r.type ≡ true
  unfolding check_inputs
  check_inputs-ok r h = ground arith

  build-Built :
      (r : Request) (envelope : Value)
      → build_formal_outbound_envelope encrypt sign r ≡ ok envelope
      → Built r envelope
  unfolding build_formal_outbound_envelope
  build-Built r envelope e =
      let (_, inputs, e1) = bind-eq-ok (check_inputs r) _ e in
      let (body, valid, e2) = bind-eq-ok (check_body r) _ e1 in
      let (enc, _, e3) = bind-eq-ok (run_encrypt encrypt sign (to_encrypt r body)) _ e2 in
      let (_, _, e4) = bind-eq-ok (check_encrypted enc) _ e3 in
      let (sig, _, e5) = bind-eq-ok (run_sign encrypt sign (envelope_with r enc no_field)) _ e4 in
      let (_, _, e6) = bind-eq-ok (check_sig sig) _ e5 in
      let whole = envelope_with r enc (field "sig" sig no_field) in
      let (same, formed) = check_envelope-ok whole envelope e6 in
      record {
        enc = enc;
        sig = sig;
        body = body;
        egress = check_inputs-ok r inputs;
        valid_body = check_body-ok r body valid;
        is = same;
        well_formed = rw same formed;
      }

  -- What a peer's pipeline reads of the envelope.
  record IsRead (r : Request) (envelope : Value) : Type 0 where
    v_read : property "v" envelope ≡ version
    type_read : property "type" envelope ≡ r.type
    actor_read : property "actor_id" (property "from" envelope) ≡ r.from_actor_id
    key_read : property "key_fpr" (property "from" envelope) ≡ r.from_key_fpr

  Built-IsRead : (r : Request) (envelope : Value) → Built r envelope → IsRead r envelope
  unfolding field_of
  Built-IsRead r envelope h = record {
    v_read = rw h.is refl;
    type_read = rw h.is refl;
    actor_read = rw h.is refl;
    key_read = rw h.is refl;
  }

  -- An envelope of the builder passes every check of the peer's inbound pipeline up to the session
  -- manager, which then decides, provided that the peer resolves a key for the sender, verifies the
  -- signature with it and decrypts the body that was given to the builder.
  pub delivered :
      (r : Request) (envelope : Value) (deps : Deps) (now pem : String) (state : Raw)
      → build_formal_outbound_envelope encrypt sign r ≡ ok envelope
      → deps.resolve_peer_public_key r.from_actor_id r.from_key_fpr ≡ some (some pem)
      → pem ≢ ""
      → deps.verify_envelope_signature envelope pem ≡ some tt
      → deps.decrypt_ciphertext envelope ≡ some r.body
      → (body : Value) × (validate_decrypted_body_by_type version r.type r.body ≡ ok body)
        × ((process_inbound deps now state envelope).outcome
            ≡ (apply_stage deps now state envelope body).outcome)
  unfolding process_inbound
  delivered r envelope deps now pem state e resolves has_key verifies decrypts =
      let h = build-Built r envelope e in
      let i = Built-IsRead r envelope h in
      let given : str_eq pem "" ≡ false = ground (arith, eq_iff pem "") in
      let opens : deps.resolve_peer_public_key (property "actor_id" (property "from" envelope))
            (property "key_fpr" (property "from" envelope))
          ≡ some (some pem) =
        rw (i.actor_read, i.key_read) resolves in
      let valid : validate_decrypted_body_by_type (property "v" envelope) (property "type" envelope)
            r.body
          ≡ ok h.body =
        rw (i.v_read, i.type_read) h.valid_body in
      (
        h.body,
        h.valid_body,
        rw (h.well_formed, process_inbound)
            (unfold verify_stage in
              rw opens
                (rw given (rw verifies (unfold decrypt_stage in rw decrypts (rw valid refl))))),
      )

  -- Whatever `encrypt` and `sign` are, the body that an envelope of the builder was made from, if its
  -- object has no key twice, and the plaintext of the envelope pass the outbound lint.
  pub outbound_is_free :
      (r : Request) (envelope : Value) (fs : Fields)
      → build_formal_outbound_envelope encrypt sign r ≡ ok envelope
      → r.body ≡ obj fs
      → HasDistinctKeys fs
      → (assert_no_raw_handle default_max_string_scan r.body ≡ ok tt)
        × (assert_no_raw_handle default_max_string_scan (plaintext envelope) ≡ ok tt)
  outbound_is_free r envelope fs e plain distinct =
      let h = build-Built r envelope e in
      let (type, named, kind) = egress_type r.type h.egress in
      let valid = rw (named, plain) at h.valid_body in
      let (kept, free) = guarded_is_free "0.4.4" type fs h.body kind distinct valid in
      (rw plain (rw kept at free), validate_envelope-lint envelope h.well_formed)
