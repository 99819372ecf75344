-- ===== src/Phase2/SafeArray.antt =====
-- src/phase2/body/safeArray.mjs: the policy for an array of short tokens. Every caller gives a
-- pattern and has the items put in lower case; none gives an allowlist.
pub mod Sets
use Prim.Native.Char.{Char, code}
use Prim.Native.Nat.{Ordering}
use Prim.Native.String.{compare}
use a2a_fun.Prelude.{
  ℕ, zero, suc, ◌-◌, String, Bool, true, false, ◌&&◌, List, [], ◌∷◌, str_eq, ltb, leb, ◌==◌,
  if◌then◌else◌, length, any, Outcome, ok, throw, is_space, units, test, Regex, one, Value, str,
  arr, Items, none_left, item, ◌>>=◌, ◌>>◌,
}
use a2a_fun.Identity.Lint.{default_max_string_scan, lint_text, Hit}
use a2a_fun.Phase2.SafeText.{is_markdown, has_url_like}

pub data ArrayError : Type 0 where
  not_array array_empty too_many : ArrayError
  item_required item_too_long has_white_space item_has_url item_has_markdown : ArrayError
  item_contact : Hit → ArrayError
  no_match : ArrayError

pub record Options : Type 0 where
  pub max_items : ℕ
  pub max_item_len : ℕ
  pub pattern : Regex

abbrev nth_char : String → ℕ → Char → Char
nth_char String.[] n d = d
nth_char (String.◌∷◌ c s) zero d = c
nth_char (String.◌∷◌ c s) (suc n) d = nth_char s n d

-- `toLowerCase` as far as the patterns see it: besides A to Z the Kelvin sign has an ASCII letter as
-- its lower case; every other character stays one that no pattern lets through.
unfoldable pub lower_char : Char → Char
lower_char c =
    let n = code c in
    if leb 65 n && leb n 90
    then nth_char "abcdefghijklmnopqrstuvwxyz" (n - 65) c
    else if n == 0x212a
    then "k"
    else c

unfoldable pub to_lower_case : String → String
unfolding lower_char
to_lower_case String.[] = String.[]
to_lower_case (String.◌∷◌ c s) = String.◌∷◌ (lower_char c) (to_lower_case s)

-- The checks on an item, in their order; the item in lower case.
unfoldable pub check_token : Options → String → Outcome ArrayError String
check_token opts raw =
    let s = units raw in
    if length s == 0
    then throw item_required
    else if ltb opts.max_item_len (length s)
    then throw item_too_long
    else if test (one is_space) s
    then throw has_white_space
    else if has_url_like s
    then throw item_has_url
    else if test (one is_markdown) s
    then throw item_has_markdown
    else elim (lint_text default_max_string_scan raw) [
      | throw hit ↦ throw (item_contact hit)
      | ok _ ↦
          if test opts.pattern (units (to_lower_case raw))
          then ok (to_lower_case raw)
          else throw no_match
    ]

unfoldable pub check_item : Options → Value → Outcome ArrayError String
unfolding check_token
check_item opts (str raw) = check_token opts raw
check_item opts _ = throw item_required

unfoldable pub check_items : Options → Items → Outcome ArrayError (List String)
check_items opts none_left = ok []
check_items opts (item v vs) = do s ← check_item opts v; rest ← check_items opts vs; ok (s ∷ rest)

abbrev pub has : String → List String → Bool
has s ts = any (str_eq s) ts

-- `[...new Set(out)]`, with the items that the set has so far.
unfoldable pub unique_from : List String → List String → List String
unique_from seen [] = []
unique_from seen (s ∷ ss) =
    let skipped = unique_from seen ss in
    let taken = unique_from (s ∷ seen) ss in if has s seen then skipped else s ∷ taken

abbrev not_after : String → String → Bool
not_after s t = elim (compare s t) [ Ordering.gt ↦ false | _ ↦ true ]

unfoldable pub insert : String → List String → List String
insert s [] = s ∷ []
insert s (t ∷ ts) = let later = insert s ts in if not_after s t then s ∷ t ∷ ts else t ∷ later

-- `uniq.sort()`; the items are ASCII after the pattern.
unfoldable pub sort : List String → List String
unfolding insert
sort [] = []
sort (s ∷ ss) = insert s (sort ss)

-- The number of elements of an array.
abbrev count : Items → ℕ
count none_left = 0
count (item v vs) = suc (count vs)

-- `validateSafeStringArray`
unfoldable pub validate_safe_string_array : Options → Value → Outcome ArrayError (List String)
validate_safe_string_array opts (arr vs) =
    if count vs == 0
    then throw array_empty
    else if ltb opts.max_items (count vs)
    then throw too_many
    else elim (check_items opts vs) [ throw e ↦ throw e | ok out ↦ ok (sort (unique_from [] out)) ]
validate_safe_string_array opts _ = throw not_array
