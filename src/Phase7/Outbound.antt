-- ===== src/Phase7/Outbound.antt =====
-- `buildFormalOutboundEnvelope` of src/phase7/egress/formalOutboundBuilder.mjs. `encrypt` and `sign`
-- are handed in, as in the code; `none` is a call of them that throws.
pub mod Delivery
use a2a_fun.Prelude.{
  String, Option, none, some, List, [], ◌∷◌, require, Outcome, ok, throw, is_object, property,
  is_named, Value, str, obj, Fields, no_field, field, is_truthy, ◌>>=◌, ◌>>◌,
}
use a2a_fun.Phase2.Checks.{BodyError}
use a2a_fun.Phase2.Body.{is_one_of, validate_decrypted_body_by_type}
use a2a_fun.Phase2.Envelope.{is_base64, validate_envelope, EnvelopeError}

pub data OutboundError : Type 0 where
  missing_input : String → OutboundError
  unsupported_type : OutboundError
  outbound_body : BodyError → OutboundError
  encrypt_failed encrypt_invalid : OutboundError
  encrypt_missing : String → OutboundError
  sign_failed sign_invalid sig_not_base64 : OutboundError
  outbound_envelope : EnvelopeError → OutboundError

pub record Request : Type 0 where
  pub session_id : Value
  pub msg_id : Value
  pub ts : Value
  pub from_actor_id : Value
  pub to_actor_id : Value
  pub from_key_fpr : Value
  pub to_key_fpr : Value
  pub type : Value
  pub body : Value

abbrev pub version : Value
version = str "0.4.4"

abbrev pub supported_egress_types : List String
supported_egress_types = "probe.question" ∷ "probe.done" ∷ []

unfoldable pub check_inputs : Request → Outcome OutboundError (Unit {0})
check_inputs r = do
  require (is_truthy r.session_id) (missing_input "session_id")
  require (is_truthy r.msg_id) (missing_input "msg_id")
  require (is_truthy r.ts) (missing_input "ts")
  require (is_truthy r.from_actor_id) (missing_input "from_actor_id")
  require (is_truthy r.to_actor_id) (missing_input "to_actor_id")
  require (is_truthy r.from_key_fpr) (missing_input "from_key_fpr")
  require (is_truthy r.to_key_fpr) (missing_input "to_key_fpr")
  require (is_truthy r.type) (missing_input "type")
  require (is_one_of supported_egress_types r.type) unsupported_type

unfoldable pub check_body : Request → Outcome OutboundError Value
check_body r = elim (validate_decrypted_body_by_type version r.type r.body) [
  | throw e ↦ throw (outbound_body e)
  | ok body ↦ ok body
]

abbrev party : Value → Value → Value
party actor_id key_fpr = obj (field "actor_id" actor_id (field "key_fpr" key_fpr no_field))

-- The argument of `encrypt`.
abbrev pub to_encrypt : Request → Value → Value
to_encrypt r body = obj (
    field "v" version (
      field "type" r.type (
        field "body" body (
          field "session_id" r.session_id (
            field "msg_id" r.msg_id (
              field "ts" r.ts (
                field "from" (party r.from_actor_id r.from_key_fpr)
                  (field "to" (party r.to_actor_id r.to_key_fpr) no_field))))))))

unfoldable pub check_encrypted : Value → Outcome OutboundError (Unit {0})
check_encrypted enc = do
  require (is_object enc) encrypt_invalid
  require (is_truthy (property "ciphertext" enc)) (encrypt_missing "ciphertext")
  require (is_truthy (property "nonce" enc)) (encrypt_missing "nonce")
  require (is_truthy (property "content_type" enc)) (encrypt_missing "content_type")
  require (is_truthy (property "enc" enc)) (encrypt_missing "enc")
  require (is_truthy (property "kdf" enc)) (encrypt_missing "kdf")

-- The envelope, with the fields that come last.
abbrev pub envelope_with : Request → Value → Fields → Value
envelope_with r enc last = obj (
    field "v" version (
      field "type" r.type (
        field "msg_id" r.msg_id (
          field "session_id" r.session_id (
            field "ts" r.ts (
              field "from" (party r.from_actor_id r.from_key_fpr) (
                field "to" (party r.to_actor_id r.to_key_fpr) (
                  field "crypto"
                    (obj (
                      field "enc" (property "enc" enc) (
                        field "kdf" (property "kdf" enc)
                          (field "nonce" (property "nonce" enc) no_field))))
                    (field "body"
                      (obj (
                        field "ciphertext" (property "ciphertext" enc)
                          (field "content_type" (property "content_type" enc) no_field)))
                      last)))))))))

unfoldable pub check_sig : Value → Outcome OutboundError (Unit {0})
check_sig sig = do require (is_named sig) sign_invalid; require (is_base64 sig) sig_not_base64

unfoldable pub check_envelope : Value → Outcome OutboundError Value
check_envelope e = elim (validate_envelope e) [
  | throw x ↦ throw (outbound_envelope x)
  | ok _ ↦ ok e
]

module _ (encrypt sign : Value → Option Value) where
  unfoldable pub run_encrypt : Value → Outcome OutboundError Value
  run_encrypt v = elim (encrypt v) [ none ↦ throw encrypt_failed | some enc ↦ ok enc ]

  unfoldable pub run_sign : Value → Outcome OutboundError Value
  run_sign v = elim (sign v) [ none ↦ throw sign_failed | some sig ↦ ok sig ]

  -- `buildFormalOutboundEnvelope`
  unfoldable pub build_formal_outbound_envelope : Request → Outcome OutboundError Value
  build_formal_outbound_envelope r = do
    check_inputs r
    body ← check_body r
    enc ← run_encrypt (to_encrypt r body)
    check_encrypted enc
    sig ← run_sign (envelope_with r enc no_field)
    check_sig sig
    check_envelope (envelope_with r enc (field "sig" sig no_field))
