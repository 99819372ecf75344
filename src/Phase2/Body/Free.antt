-- ===== src/Phase2/Body/Free.antt =====
-- Objects, texts and constants in which the outbound lint finds nothing.
use a2a_fun.Prelude.{
  String, ◌≡◌, refl, sym, subst, inl, inr, true, false, List, [], ◌∷◌, arith, str_eq, eq_iff,
  eq_refl, Bool-cases, All, ok, units, test, field_of, keys, Value, undefined, bool, str, obj,
  Fields, no_field, field, string_of, is_true, has_key,
}
use a2a_fun.Identity.Lint.{
  email_re, at_handle_re, messenger_re, wa_me_re, long_digits_re, is_phone, find_contact_like_token,
  default_max_string_scan, lint_text, assert_no_raw_handle, lint_fields,
}
use a2a_fun.Phase2.SafeText.{validate_safe_short_text}
use a2a_fun.Phase2.SafeText.Meaning.{validate_safe_short_text_iff, IsSafe}
use a2a_fun.Phase2.SafeArray.{has}
use a2a_fun.Phase2.Checks.{check_keys, safe_text}
use a2a_fun.Phase2.Body.{is_one_of, close_reasons, error_codes, error_reasons}
use a2a_fun.Phase2.Body.Meaning.{HasDistinctKeys, check_keys-cons, field_of-absent}

-- Nothing that the lint finds.
abbrev pub IsFree : Value → Type 0
IsFree v = assert_no_raw_handle default_max_string_scan v ≡ ok tt

-- The name of a key, and the value under it, are free of contact tokens.
abbrev pub IsFreeAt : Fields → String → Type 0
IsFreeAt fs k = (lint_text default_max_string_scan k ≡ ok tt) × IsFree (field_of k fs)

IsFreeAt-tail :
    (l : String) (v : Value) (fs : Fields) (allowed : List String)
    → has l (keys fs) ≡ false
    → All (IsFreeAt (field l v fs)) allowed
    → All (IsFreeAt fs) allowed
unfolding field_of assert_no_raw_handle
IsFreeAt-tail l v fs [] h a = tt
IsFreeAt-tail l v fs (k ∷ ks) h (a, rest) = (one_key, IsFreeAt-tail l v fs ks h rest)
  where
    one_key : IsFreeAt fs k
    one_key = elim (Bool-cases (str_eq l k)) [
      | inl same ↦
          let l_is : l ≡ k = (eq_iff l k).0 same in
          let absent : field_of k fs ≡ undefined = field_of-absent k fs (rw l_is at h) in
          (a.0, rw absent refl)
      | inr other ↦ let free = a.1 in (a.0, rw other at free)
    ]

IsFreeAt-has :
    (l : String) (fs : Fields) (allowed : List String)
    → has l allowed ≡ true
    → All (IsFreeAt fs) allowed
    → IsFreeAt fs l
IsFreeAt-has l fs [] h a = cc
IsFreeAt-has l fs (k ∷ ks) h (a, rest) = elim (Bool-cases (str_eq l k)) [
  | inl same ↦ let k_is : l ≡ k = (eq_iff l k).0 same in rw k_is a
  | inr other ↦ IsFreeAt-has l fs ks (rw other at h) rest
]

-- The fields of an object are free of contact tokens if its allowed keys are.
pub lint_fields-eq :
    (fs : Fields) (allowed : List String)
    → HasDistinctKeys fs
    → check_keys allowed fs ≡ ok tt
    → All (IsFreeAt fs) allowed
    → lint_fields default_max_string_scan fs ≡ ok tt
unfolding lint_fields field_of
lint_fields-eq no_field allowed d c h = refl
lint_fields-eq (field l v fs) allowed d c h =
    let (listed, rest) = check_keys-cons allowed l v fs c in
    let (name_free, value_free) = IsFreeAt-has l (field l v fs) allowed listed h in
    let here : field_of l (field l v fs) ≡ v = ground (arith, eq_refl l) in
    let tail = lint_fields-eq fs allowed d.1 rest (IsFreeAt-tail l v fs allowed d.0 h) in
    rw name_free (rw (← here) (rw value_free tail))

-- Opens the lint on a text that is given.
lint_steps : Unit {0}
unfolding lint_text find_contact_like_token email_re is_phone at_handle_re messenger_re wa_me_re
    long_digits_re test
lint_steps = tt

abbrev pub IsFreeText : String → Type 0
IsFreeText s = lint_text default_max_string_scan s ≡ ok tt

-- An object is free of contact tokens if its fields are; what `String` makes of it always is.
pub fields-IsFree : (fs : Fields) → lint_fields default_max_string_scan fs ≡ ok tt → IsFree (obj fs)
unfolding assert_no_raw_handle lint_steps string_of
fields-IsFree fs h = elim (Bool-cases (has_key "constructor" fs)) [
  | inl other ↦ rw other refl
  | inr plain ↦ rw plain h
]

pub keys_free : All IsFreeText ("q" ∷ "a" ∷ "done" ∷ "reason" ∷ "final" ∷ "code" ∷ [])
unfolding lint_steps
keys_free = (refl, (refl, (refl, (refl, (refl, (refl, tt))))))

pub close_reasons_free : All IsFreeText close_reasons
unfolding lint_steps
close_reasons_free = (refl, (refl, (refl, (refl, (refl, (refl, tt))))))

pub error_codes_free : All IsFreeText error_codes
unfolding lint_steps
error_codes_free = (refl, (refl, (refl, (refl, tt))))

pub error_reasons_free : All IsFreeText error_reasons
unfolding lint_steps
error_reasons_free = (refl, (refl, (refl, (refl, (refl, tt)))))

has-free :
    (s : String) (list : List String) → All IsFreeText list → has s list ≡ true → IsFreeText s
has-free s [] h e = cc
has-free s (t ∷ ts) (a, rest) e = elim (Bool-cases (str_eq s t)) [
  | inl same ↦ let is : s ≡ t = (eq_iff s t).0 same in rw is a
  | inr other ↦ has-free s ts rest (rw other at e)
]

pub is_one_of-IsFree :
    (list : List String) (v : Value) → All IsFreeText list → is_one_of list v ≡ true → IsFree v
unfolding assert_no_raw_handle
is_one_of-IsFree list (str s) h e = has-free s list h e
is_one_of-IsFree list _ h e = cc

pub is_true-IsFree : (v : Value) → is_true v ≡ true → IsFree v
unfolding assert_no_raw_handle lint_steps string_of
is_true-IsFree (bool true) e = refl
is_true-IsFree _ e = cc

IsSafe-IsFree : (s : String) → IsSafe 160 (units s) → IsFree (str s)
unfolding assert_no_raw_handle lint_text
IsSafe-IsFree s safe = let none_found = safe.no_contact in ground (arith, none_found)

pub safe_text-IsFree : (v : Value) → safe_text v ≡ ok tt → IsFree v
unfolding safe_text
safe_text-IsFree v e =
    let text_ok : validate_safe_short_text 160 v ≡ ok tt = ground arith in
    let known = (validate_safe_short_text_iff 160 v).0 text_ok in
    subst IsFree (sym known.1) (IsSafe-IsFree known.0 known.2)
