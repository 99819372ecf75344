-- ===== src/Phase2/Processor/Passed.antt =====
-- What stands behind a message that is applied.
use a2a_fun.Prelude.{
  String, ◌≡◌, refl, ◌≢◌, inl, inr, none, some, map, arith, eq_iff, Option-cases, Outcome-cases,
  ok-injective, ok, property, Value,
}
use a2a_fun.Phase2.Body.{validate_decrypted_body_by_type}
use a2a_fun.Phase2.Envelope.{validate_envelope}
use a2a_fun.Phase2.Session.{raw, Raw, SessionState}
use a2a_fun.Phase2.Session.Inbound.{apply_session_message}
use a2a_fun.Phase2.Session.Rules.{IsValid, received, Step}
use a2a_fun.Phase2.Session.Exact.{message-Step}
use a2a_fun.Phase2.Processor.{
  message_type_of, close_reason_of, text_of, message_of, bind_audit_event_core, processed,
  apply_stage, decrypt_stage, verify_stage, process_inbound, Deps, Processed,
}

module _ (deps : Deps) (now : String) (state : Raw) (envelope : Value) where
  -- What has been passed by a run that ends well.
  pub record Passed (p : Processed) : Type 0 where
    pub pem : String
    pub sent_body : Value
    pub body : Value
    pub well_formed : validate_envelope envelope ≡ ok tt
    pub resolved :
        deps.resolve_peer_public_key
          (property "actor_id" (property "from" envelope))
          (property "key_fpr" (property "from" envelope))
        ≡ some (some pem)
    pub has_key : pem ≢ ""
    pub verified : deps.verify_envelope_signature envelope pem ≡ some tt
    pub decrypted : deps.decrypt_ciphertext envelope ≡ some sent_body
    pub valid_body :
        validate_decrypted_body_by_type (property "v" envelope) (property "type" envelope) sent_body
        ≡ ok body
    pub applied :
        apply_session_message
          (some state)
          (some (message_of envelope))
          (some (close_reason_of (property "reason" body)))
        ≡ ok p.session_apply_result
    pub audited :
        p.audit_records
        ≡ map (bind_audit_event_core deps.event_hash now) p.session_apply_result.audit_events

  apply_stage-ok :
      (body : Value) (p : Processed)
      → (apply_stage deps now state envelope body).outcome ≡ ok p
      → (apply_session_message
            (some state)
            (some (message_of envelope))
            (some (close_reason_of (property "reason" body)))
          ≡ ok p.session_apply_result)
        × (p.audit_records
            ≡ map (bind_audit_event_core deps.event_hash now) p.session_apply_result.audit_events)
  unfolding apply_stage
  apply_stage-ok body p e =
      elim (Outcome-cases (
        apply_session_message (some state) (some (message_of envelope))
          (some (close_reason_of (property "reason" body))))) [
            | inl (r, f) ↦
                let is : processed deps now r ≡ p = ok-injective (rw (f, apply_stage) at e) in
                rw (← is) (f, refl)
            | inr (x, f) ↦ absurd (ground arith)
          ]

  decrypt_stage-ok :
      (p : Processed)
      → (decrypt_stage deps now state envelope).outcome ≡ ok p
      → (sent body : Value) × (deps.decrypt_ciphertext envelope ≡ some sent)
        × (validate_decrypted_body_by_type (property "v" envelope) (property "type" envelope) sent
            ≡ ok body)
        × ((apply_stage deps now state envelope body).outcome ≡ ok p)
  unfolding decrypt_stage
  decrypt_stage-ok p e = ground arith

  verify_stage-ok :
      (p : Processed)
      → (verify_stage deps now state envelope).outcome ≡ ok p
      → (pem : String) × (deps.resolve_peer_public_key
            (property "actor_id" (property "from" envelope))
            (property "key_fpr" (property "from" envelope))
          ≡ some (some pem))
        × (pem ≢ "")
        × (deps.verify_envelope_signature envelope pem ≡ some tt)
        × ((decrypt_stage deps now state envelope).outcome ≡ ok p)
  unfolding verify_stage
  verify_stage-ok p e =
      elim (Option-cases (
        deps.resolve_peer_public_key (property "actor_id" (property "from" envelope))
          (property "key_fpr" (property "from" envelope)))) [
            | inl f ↦ absurd (ground arith)
            | inr (none, f) ↦ absurd (ground arith)
            | inr (some pem, f) ↦
                (pem, f, ground (arith, eq_iff pem ""), ground arith, ground arith)
          ]

  -- A run that ends well has passed every stage.
  process_inbound-Passed :
      (p : Processed) → (process_inbound deps now state envelope).outcome ≡ ok p → Passed p
  unfolding process_inbound
  process_inbound-Passed p e = elim (Outcome-cases (validate_envelope envelope)) [
    | inr (x, f) ↦ absurd (ground arith)
    | inl (_, f) ↦
        let (pem, resolved, given, verified, rest) =
          verify_stage-ok p (rw (f, process_inbound) at e) in
        let (sent, body, decrypted, valid, last) = decrypt_stage-ok p rest in
        let (applied, audited) = apply_stage-ok body p last in
        record {
          pem = pem;
          sent_body = sent;
          body = body;
          well_formed = f;
          resolved = resolved;
          has_key = given;
          verified = verified;
          decrypted = decrypted;
          valid_body = valid;
          applied = applied;
          audited = audited;
        }
  ]

-- A message that is processed in a valid session has passed every stage, and the next state of the
-- session is that of a step of the protocol for the envelope's type and the body's reason.
pub process_inbound-Step :
    (deps : Deps) (now : String) (s : SessionState) (envelope : Value) (p : Processed)
    → IsValid s
    → (process_inbound deps now (raw s) envelope).outcome ≡ ok p
    → (h : Passed deps now (raw s) envelope p) × Step s p.session_apply_result.next_state (
        received
          (message_type_of (text_of (property "type" envelope)))
          (close_reason_of (property "reason" h.body)))
process_inbound-Step deps now s envelope p valid e =
    let h = process_inbound-Passed deps now (raw s) envelope p e in
    let m = message_of envelope in
    let reason = close_reason_of (property "reason" h.body) in
    (
      h,
      (message-Step s p.session_apply_result.next_state m reason valid).0
          (p.session_apply_result, h.applied, refl),
    )
