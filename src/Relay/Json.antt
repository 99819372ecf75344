-- ===== src/Relay/Json.antt =====
-- The length of what `writeWsText` of src/relay/relayServerV2.mjs and src/relay/relayCoreV0_1.mjs is
-- given: `Buffer.from(JSON.stringify(obj), 'utf8').length`. A text of 65536 bytes or more is not
-- written.
use Prim.Native.Char.{code}
use a2a_fun.Prelude.{
  ℕ, ◌+◌, String, Bool, true, false, ◌||◌, Option, none, some, List, [], ◌∷◌, ltb, ◌==◌,
  if◌then◌else◌,
}

-- The bytes of a character in UTF-8.
unfoldable pub utf8_width : ℕ → ℕ
utf8_width c = if ltb c 128 then 1 else if ltb c 2048 then 2 else if ltb c 65536 then 3 else 4

unfoldable pub utf8_length : String → ℕ
utf8_length String.[] = 0
utf8_length (String.◌∷◌ c s) = utf8_width (code c) + utf8_length s

abbrev pub has_short_escape : ℕ → Bool
has_short_escape c = c == b'"' || c == b'\\' || c == 8 || c == 9 || c == 10 || c == 12 || c == 13

-- A character inside a JSON text: itself, or its escape, which for the other control characters
-- is `\u` with four digits.
unfoldable pub escaped_width : ℕ → ℕ
escaped_width c = if has_short_escape c then 2 else if ltb c 32 then 6 else utf8_width c

unfoldable pub escaped_length : String → ℕ
escaped_length String.[] = 0
escaped_length (String.◌∷◌ c s) = escaped_width (code c) + escaped_length s

-- A string with its quotes.
unfoldable pub text_size : String → ℕ
text_size s = escaped_length s + 2

-- `null` for no string.
unfoldable pub text_or_null_size : Option String → ℕ
text_or_null_size none = 4
text_or_null_size (some s) = text_size s

abbrev pub bool_size : Bool → ℕ
bool_size true = 4
bool_size false = 5

-- The members of an object, each with its colon and the comma or the brace that follows.
unfoldable pub members_size : List (String × ℕ) → ℕ
members_size [] = 0
members_size ((key, size) ∷ rest) = text_size key + size + 2 + members_size rest

-- An object that has a key.
unfoldable pub object_size : List (String × ℕ) → ℕ
object_size members = 1 + members_size members

-- What of a text reaches the socket.
abbrev pub frames {ℓ} : {A : Type ℓ} → ℕ → A → List A
frames size x = if ltb size 65536 then x ∷ [] else []
