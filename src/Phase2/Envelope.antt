-- ===== src/Phase2/Envelope.antt =====
-- `validateEnvelope` of src/phase2/envelope/envelope.schema.mjs. An envelope is any JavaScript value.
use a2a_fun.Prelude.{
  ℕ, String, Bool, false, not, ◌&&◌, ◌||◌, str_eq, ◌==◌, require, Outcome, ok, throw, units,
  is_digit, is_letter, test, Regex, one, seq, at_least, from_start, to_end, is_string, is_object,
  property, is_named, Value, str, obj, no_field, field, ◌>>◌,
}
use a2a_fun.Identity.Lint.{default_max_string_scan, assert_no_raw_handle, Hit}

pub data EnvelopeError : Type 0 where
  -- the key whose value is missing or of the wrong kind
  missing : String → EnvelopeError
  not_base64 : EnvelopeError
  raw_handle : Hit → EnvelopeError

unfoldable pub req_string : Value → String → Outcome EnvelopeError (Unit {0})
req_string o key = require (is_named (property key o)) (missing key)

unfoldable pub req_obj : Value → String → Outcome EnvelopeError (Unit {0})
req_obj o key = require (is_object (property key o)) (missing key)

is_base64_char : ℕ → Bool
is_base64_char c = is_letter c || is_digit c || c == b'+' || c == b'/' || c == b'='

-- `^[A-Za-z0-9+/=]+$`
unfoldable pub base64_re : Regex
unfolding is_base64_char is_letter is_digit
base64_re = seq from_start (seq (at_least 1 (one is_base64_char)) to_end)

unfoldable pub is_base64 : Value → Bool
is_base64 (str s) = not (str_eq s "") && test base64_re (units s)
is_base64 _ = false

-- The plaintext fields that the lint is given.
abbrev pub plaintext : Value → Value
plaintext e = obj (
    field "v" (property "v" e) (
      field "type" (property "type" e) (
        field "msg_id" (property "msg_id" e) (
          field "session_id" (property "session_id" e) (
            field "ts" (property "ts" e) (
              field "from" (property "from" e) (
                field "to" (property "to" e) (
                  field "crypto" (property "crypto" e) (
                    field "body"
                      (obj (
                        field "content_type" (property "content_type" (property "body" e))
                          no_field))
                      no_field)))))))))

unfoldable pub lint_plaintext : Value → Outcome EnvelopeError (Unit {0})
lint_plaintext e = elim (assert_no_raw_handle default_max_string_scan (plaintext e)) [
  | ok _ ↦ ok tt
  | throw hit ↦ throw (raw_handle hit)
]

unfoldable pub validate_header : Value → Outcome EnvelopeError (Unit {0})
validate_header e = do
  req_string e "v"
  req_string e "type"
  req_string e "msg_id"
  req_string e "session_id"
  req_string e "ts"

unfoldable pub validate_parties : Value → Outcome EnvelopeError (Unit {0})
validate_parties e = do
  req_obj e "from"
  req_obj e "to"
  req_string (property "from" e) "actor_id"
  req_string (property "to" e) "actor_id"
  req_string (property "from" e) "key_fpr"
  req_string (property "to" e) "key_fpr"

unfoldable pub validate_crypto : Value → Outcome EnvelopeError (Unit {0})
validate_crypto e = do
  req_obj e "crypto"
  req_string (property "crypto" e) "enc"
  req_string (property "crypto" e) "kdf"
  req_string (property "crypto" e) "nonce"

unfoldable pub validate_payload : Value → Outcome EnvelopeError (Unit {0})
validate_payload e = do
  req_obj e "body"
  req_string (property "body" e) "ciphertext"
  req_string (property "body" e) "content_type"
  require (is_base64 (property "ciphertext" (property "body" e))) not_base64

unfoldable pub validate_envelope : Value → Outcome EnvelopeError (Unit {0})
validate_envelope e = do
  validate_header e
  validate_parties e
  validate_crypto e
  validate_payload e
  require (is_string (property "sig" e)) (missing "sig")
  lint_plaintext e
