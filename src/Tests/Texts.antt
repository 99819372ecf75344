-- ===== src/Tests/Texts.antt =====
-- The lint and the short texts on concrete values.
use a2a_fun.Prelude.{
  String, ◌≡◌, refl, ◌↔◌, Option, none, some, All, ok, throw, units, test, Value, num, str, arr,
  obj, none_left, item, no_field, field, digit, decimal_from, decimal, string_of, has_key,
}
use a2a_fun.Identity.Lint.{
  email_re, at_handle_re, messenger_re, wa_me_re, long_digits_re, is_phone, find_contact_like_token,
  lint_text, assert_no_raw_handle, Hit, email, e164_phone, at_handle, messenger_handle,
  whatsapp_link, long_digits,
}
use a2a_fun.Identity.Lint.Coverage.{texts, IsClean, lint_coverage}
use a2a_fun.Phase2.SafeText.{
  is_line_end, is_markdown, url_re, tld_re, has_url_like, check_text, validate_safe_short_text,
  text_required, text_too_long, has_url, has_markdown,
}
use a2a_fun.Phase2.SafeText.Meaning.{validate_safe_short_text_iff, IsSafe}

lint_steps : Unit {0}
unfolding find_contact_like_token email_re is_phone at_handle_re messenger_re wa_me_re
    long_digits_re test assert_no_raw_handle lint_text check_text validate_safe_short_text
    is_line_end is_markdown has_url_like url_re tld_re
lint_steps = tt

abbrev found : String → Option Hit
found s = find_contact_like_token (units s)

detectors :
    (found "write to Bob.x@mail.org now" ≡ some email)
    × (found "call +49 151 2345678" ≡ some e164_phone)
    × (found "I am @bob_7" ≡ some at_handle)
    × (found "WeChat: abc" ≡ some messenger_handle)
    × (found "see wa.me/123456" ≡ some whatsapp_link)
    × (found "id 1234567890" ≡ some long_digits)
    × (found "id 123456789, mail me" ≡ none)
unfolding lint_steps
detectors = (refl, refl, refl, refl, refl, refl, refl)

abbrev nested : Value
nested = obj (field "a" (arr (item (str "call +49 151 2345678") none_left)) no_field)

nested_found : assert_no_raw_handle 4096 nested ≡ throw e164_phone
unfolding lint_steps has_key
nested_found = refl

-- A number is searched as a text, and a key `constructor` keeps an object from being searched.
odd_values :
    (assert_no_raw_handle 4096 (num 1234567890) ≡ throw long_digits)
    × (assert_no_raw_handle 4096 (obj (field "constructor" (str "a@b.cd") no_field)) ≡ ok tt)
unfolding lint_steps has_key string_of decimal decimal_from digit
odd_values = (refl, refl)

lint_coverage_example :
    (assert_no_raw_handle 4096 nested ≡ ok tt) ↔ All (IsClean 4096) (texts nested)
lint_coverage_example = lint_coverage 4096 nested

short_texts :
    (validate_safe_short_text 160 (str "What is the goal?") ≡ ok tt)
    × (validate_safe_short_text 160 (str "see HTTPS://x") ≡ throw has_url)
    × (validate_safe_short_text 160 (str "at example.com today") ≡ throw has_url)
    × (validate_safe_short_text 160 (str "a [b]") ≡ throw has_markdown)
    × (validate_safe_short_text 3 (str "long") ≡ throw text_too_long)
    × (validate_safe_short_text 160 (num 3) ≡ throw text_required)
unfolding lint_steps
short_texts = (refl, refl, refl, refl, refl, refl)

validate_safe_short_text_iff_example :
    (validate_safe_short_text 160 (str "What is the goal?") ≡ ok tt)
    ↔ ((s : String) × (str "What is the goal?" ≡ str s) × IsSafe 160 (units s))
validate_safe_short_text_iff_example = validate_safe_short_text_iff 160 (str "What is the goal?")
