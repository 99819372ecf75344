-- ===== src/Phase2/Hello.antt =====
-- The branch `probe.hello` of src/phase2/body/body.schema.mjs, which replaces the arrays of the body.
pub mod Protocols
use a2a_fun.Prelude.{
  ℕ, String, Bool, ◌||◌, List, [], ◌∷◌, ◌==◌, if◌then◌else◌, Outcome, ok, throw, is_digit,
  is_letter, literal, Regex, one, seq, between, at_least, from_start, to_end, field_of, is_nullish,
  Fields, set_field, ◌>>=◌, ◌>>◌,
}
use a2a_fun.Phase2.SafeArray.{has, Options}
use a2a_fun.Phase2.Checks.{
  check_keys, strings, safe_array, BodyError, unsupported_protocol, unsupported_transport,
}

abbrev pub supported_protocols : List String
supported_protocols = "a2a.friendship/1" ∷ []

abbrev pub supported_transports : List String
supported_transports = "webrtc" ∷ "tcp" ∷ []

-- The support layer: every item is in the list.
unfoldable pub all_supported : List String → BodyError → List String → Outcome BodyError (Unit {0})
all_supported list e [] = ok tt
all_supported list e (s ∷ ss) =
    let rest = all_supported list e ss in if has s list then rest else throw e

is_name_char : ℕ → Bool
is_name_char c = is_letter c || is_digit c || c == b'.' || c == b'_' || c == b'-'

is_token_char : ℕ → Bool
is_token_char c = is_letter c || is_digit c || c == b'-'

-- `^a2a\.[a-z0-9._-]+\/[0-9]+$` with the flag `i`
unfoldable pub protocol_re : Regex
unfolding is_name_char is_letter is_digit
protocol_re = seq from_start (
    literal "a2a."
      (seq (at_least 1 (one is_name_char)) (literal "/" (seq (at_least 1 (one is_digit)) to_end))))

-- `^[a-z0-9-]{1,16}$` with the flag `i`
unfoldable pub transport_re : Regex
unfolding is_token_char is_letter is_digit
transport_re = seq from_start (seq (between 1 15 (one is_token_char)) to_end)

-- `^[a-z]{2}(-[a-z]{2})?$` with the flag `i`
unfoldable pub language_re : Regex
unfolding is_letter
language_re =
    let two = between 2 0 (one is_letter) in
    seq from_start (seq two (seq (between 0 1 (literal "-" two)) to_end))

abbrev pub protocol_options : Options
protocol_options = record { max_items = 8; max_item_len = 64; pattern = protocol_re }

abbrev pub transport_options : Options
transport_options = record { max_items = 5; max_item_len = 16; pattern = transport_re }

abbrev pub language_options : Options
language_options = record { max_items = 5; max_item_len = 16; pattern = language_re }

-- The array `protocols` is required.
unfoldable pub hello_protocols : Fields → Outcome BodyError Fields
hello_protocols fs = do
  out ← safe_array protocol_options (field_of "protocols" fs)
  all_supported supported_protocols unsupported_protocol out
  ok (set_field "protocols" (strings out) fs)

unfoldable pub hello_transports : Fields → Outcome BodyError Fields
hello_transports fs = if is_nullish (field_of "transports" fs) then ok fs else (do
  out ← safe_array transport_options (field_of "transports" fs)
  all_supported supported_transports unsupported_transport out
  ok (set_field "transports" (strings out) fs))

unfoldable pub hello_languages : Fields → Outcome BodyError Fields
hello_languages fs = if is_nullish (field_of "languages" fs) then ok fs else (do
  out ← safe_array language_options (field_of "languages" fs)
  ok (set_field "languages" (strings out) fs))

unfoldable pub validate_hello : Fields → Outcome BodyError Fields
validate_hello fs = do
  check_keys ("protocols" ∷ "transports" ∷ "languages" ∷ []) fs
  with_protocols ← hello_protocols fs
  with_transports ← hello_transports with_protocols
  hello_languages with_transports
