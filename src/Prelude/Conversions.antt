-- ===== src/Prelude/Conversions.antt =====
-- JavaScript's conversions of a value: `Boolean`, `String` and the idioms built on them.
use Prim.Native.Nat.{ℕ, zero, suc, ◌+◌, ◌/◌, ◌%◌}
use Prim.Native.String
use Prim.Native.String.{String, slice}
use mathlib.Core.Bool.{Bool, true, false, not}
use text.Mathlib.Text.{◌==◌ as str_eq}
use a2a_fun.Prelude.Tests.{ltb, ◌==◌, if◌then◌else◌}
use a2a_fun.Prelude.Text.{trim}
use a2a_fun.Prelude.Values.{
  is_nullish, Value, undefined, null, bool, num, str, arr, obj, exotic, Items, none_left, item,
}

-- `Boolean(v)`
unfoldable pub is_truthy : Value → Bool
is_truthy undefined = false
is_truthy null = false
is_truthy (bool b) = b
is_truthy (num n) = not (n == 0)
is_truthy (str s) = not (str_eq s "")
is_truthy _ = true

-- `typeof v === 'string' ? v.trim() : ''`
unfoldable pub safe_str : Value → String
unfolding trim
safe_str (str s) = trim s
safe_str _ = ""

unfoldable pub digit : ℕ → String
digit n = slice "0123456789" n (n + 1)

-- A number in decimal; each round divides it by ten, so as many rounds as its value are enough.
unfoldable pub decimal_from : ℕ → ℕ → String
decimal_from zero n = ""
decimal_from (suc fuel) n =
    let rest = decimal_from fuel (n / 10) in
    if ltb n 10 then digit n else String.◌++◌ rest (digit (n % 10))

unfoldable pub decimal : ℕ → String
decimal n = decimal_from (suc n) n

-- `String(v)`; a number below 10^21 in its digits, an array as its elements with commas between them.
abbrev or_blank : Value → String → String
or_blank undefined s = ""
or_blank null s = ""
or_blank _ s = s

unfoldable mutual
  pub string_of : Value → String
  string_of undefined = "undefined"
  string_of null = "null"
  string_of (bool true) = "true"
  string_of (bool false) = "false"
  string_of (num n) = decimal n
  string_of (str s) = s
  string_of (arr vs) = joined vs
  string_of (obj fs) = "[object Object]"
  string_of (exotic s) = s

  pub joined : Items → String
  joined none_left = ""
  joined (item v vs) = String.◌++◌ (or_blank v (string_of v)) (joined_rest vs)

  pub joined_rest : Items → String
  joined_rest none_left = ""
  joined_rest (item v vs) =
      String.◌++◌ "," (String.◌++◌ (or_blank v (string_of v)) (joined_rest vs))

-- `String(v || '')`
unfoldable pub text_or_empty : Value → String
text_or_empty v = if is_truthy v then string_of v else ""

-- `v === s`
abbrev pub is_text : String → Value → Bool
is_text s (str t) = str_eq t s
is_text s _ = false

-- `v || w`, `v ?? null`
abbrev pub or_else : Value → Value → Value
or_else v w = if is_truthy v then v else w

abbrev pub or_null : Value → Value
or_null v = if is_nullish v then null else v

-- `s || null`
abbrev pub text_or_null : String → Value
text_or_null s = if str_eq s "" then null else str s

-- `!s`
abbrev pub is_blank : String → Bool
is_blank s = str_eq s ""

-- `typeof v === 'string' && v.trim() !== ''`
unfoldable pub is_filled : Value → Bool
is_filled (str s) = not (is_blank (trim s))
is_filled _ = false

-- `v && typeof v === 'object' && !Array.isArray(v)`
abbrev pub is_plain : Value → Bool
is_plain (obj fs) = true
is_plain (exotic s) = true
is_plain _ = false

-- `v === true`
abbrev pub is_true : Value → Bool
is_true (bool true) = true
is_true _ = false
