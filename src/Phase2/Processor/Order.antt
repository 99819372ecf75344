-- ===== src/Phase2/Processor/Order.antt =====
-- The order of the inbound stages: which calls a run has made when it ends.
use a2a_fun.Prelude.{
  ℕ, suc, ◌-◌, ◌≤◌, String, ◌≡◌, refl, ap, inl, inr, none, some, List, [], ◌∷◌, arith, str_eq,
  Bool-cases, Option-cases, take, drop, Outcome-cases, Outcome, ok, throw, property, Value,
}
use a2a_fun.Phase2.Body.{validate_decrypted_body_by_type}
use a2a_fun.Phase2.Envelope.{validate_envelope}
use a2a_fun.Phase2.Session.{Raw}
use a2a_fun.Phase2.Session.Inbound.{apply_session_message}
use a2a_fun.Phase2.Processor.{
  close_reason_of, message_of, after, apply_stage, decrypt_stage, verify_stage, process_inbound,
  ProcessError, bad_envelope, resolver_failed, missing_public_key, bad_signature, decrypt_failed,
  bad_body, bad_session, Deps, Call, resolving, verifying, decrypting, applying, Processed, Run,
}

-- The stages in the order of the documentation.
abbrev pub all_calls : List Call
all_calls = resolving ∷ verifying ∷ decrypting ∷ applying ∷ []

-- The number of calls that have been made when a run ends in this way.
abbrev pub reach : Outcome ProcessError Processed → ℕ
reach (ok _) = 4
reach (throw (bad_envelope _)) = 0
reach (throw resolver_failed) = 1
reach (throw missing_public_key) = 1
reach (throw bad_signature) = 2
reach (throw decrypt_failed) = 3
reach (throw (bad_body _)) = 3
reach (throw (bad_session _)) = 4

-- The calls of a run that begins behind the first `n` stages.
abbrev EndsInOrder : ℕ → Run → Type 0
EndsInOrder n r = (n ≤ reach r.outcome) × (r.calls ≡ take (reach r.outcome - n) (drop n all_calls))

after-EndsInOrder :
    (n : ℕ) (c : Call) (r : Run)
    → drop n all_calls ≡ c ∷ drop (suc n) all_calls
    → EndsInOrder (suc n) r
    → EndsInOrder n (after c r)
after-EndsInOrder n c r next (bound, same) =
    let one_more : reach r.outcome - n ≡ suc (reach r.outcome - suc n) = omega arith in
    (omega arith, rw next (rw one_more (ap (λ cs. c ∷ cs) same)))

module _ (deps : Deps) (now : String) (state : Raw) (envelope : Value) where
  apply_stage-order : (body : Value) → EndsInOrder 3 (apply_stage deps now state envelope body)
  unfolding apply_stage
  apply_stage-order body =
      elim (Outcome-cases (
        apply_session_message (some state) (some (message_of envelope))
          (some (close_reason_of (property "reason" body))))) [
            | inl (r, e) ↦ rw (e, apply_stage) (omega arith, refl)
            | inr (x, e) ↦ rw (e, apply_stage) (omega arith, refl)
          ]

  decrypt_stage-order : EndsInOrder 2 (decrypt_stage deps now state envelope)
  unfolding decrypt_stage
  decrypt_stage-order = elim (Option-cases (deps.decrypt_ciphertext envelope)) [
    | inl e ↦ rw (e, decrypt_stage) (omega arith, refl)
    | inr (sent, e) ↦
        elim (Outcome-cases (
          validate_decrypted_body_by_type (property "v" envelope) (property "type" envelope)
            sent)) [
              | inl (body, v) ↦
                  rw (e, decrypt_stage)
                    (rw v (after-EndsInOrder 2 decrypting _ refl (apply_stage-order body)))
              | inr (x, v) ↦ rw (e, decrypt_stage) (rw v (omega arith, refl))
            ]
  ]

  verify_stage-order : EndsInOrder 0 (verify_stage deps now state envelope)
  unfolding verify_stage
  verify_stage-order =
      elim (Option-cases (
        deps.resolve_peer_public_key (property "actor_id" (property "from" envelope))
          (property "key_fpr" (property "from" envelope)))) [
            | inl e ↦ rw (e, verify_stage) (omega arith, refl)
            | inr (none, e) ↦ rw (e, verify_stage) (omega arith, refl)
            | inr (some pem, e) ↦ elim (Bool-cases (str_eq pem "")) [
              | inl empty ↦ rw (e, verify_stage) (rw empty (omega arith, refl))
              | inr given ↦ elim (Option-cases (deps.verify_envelope_signature envelope pem)) [
                | inl bad ↦ rw (e, verify_stage) (rw given (rw bad (omega arith, refl)))
                | inr (_, good) ↦
                    rw (e, verify_stage)
                      (rw given (
                        rw good (
                          after-EndsInOrder 0 resolving _ refl
                            (after-EndsInOrder 1 verifying _ refl decrypt_stage-order))))
              ]
            ]
          ]

  -- Each way in which a run ends comes with exactly the calls before it, in the documented order:
  -- nothing is resolved for a malformed envelope, nothing decrypted before the signature is
  -- verified, and nothing applied before the body is valid.
  pub calls_in_order :
      (process_inbound deps now state envelope).calls
      ≡ take (reach (process_inbound deps now state envelope).outcome) all_calls
  unfolding process_inbound
  calls_in_order = elim (Outcome-cases (validate_envelope envelope)) [
    | inl (_, e) ↦
        let whole : reach (verify_stage deps now state envelope).outcome - 0
            ≡ reach (verify_stage deps now state envelope).outcome =
          omega arith in
        rw (e, process_inbound) (rw whole at verify_stage-order.1)
    | inr (x, e) ↦ rw (e, process_inbound) refl
  ]
