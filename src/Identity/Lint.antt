-- ===== src/Identity/Lint.antt =====
-- src/identity/outboundLint.mjs: no contact-like token may leave the node. The error keeps the kind
-- of the token; its path and its hashed preview are left out.
pub mod Coverage
use a2a_fun.Prelude.{
  ℕ, ◌+◌, String, Bool, false, not, ◌&&◌, ◌||◌, Option, none, some, List, [], ◌∷◌, leb, ◌==◌,
  if◌then◌else◌, take, Outcome, ok, throw, is_space, units, is_digit, is_letter, is_word, test,
  literal, Regex, one, seq, alt, between, at_least, word_edge, from_start, to_end, Value, undefined,
  null, bool, num, str, arr, obj, exotic, Items, none_left, item, Fields, no_field, field,
  string_of, has_key, ◌>>=◌, ◌>>◌,
}

pub data Hit : Type 0 where
  email e164_phone at_handle messenger_handle whatsapp_link long_digits : Hit

is_email_local : ℕ → Bool
is_email_local c =
    is_letter c || is_digit c || c == b'.' || c == b'_' || c == b'%' || c == b'+' || c == b'-'

is_email_domain : ℕ → Bool
is_email_domain c = is_letter c || is_digit c || c == b'.' || c == b'-'

unit : ℕ → Regex
unit u = one (λ c. c == u)

-- `\b[A-Z0-9._%+-]{1,64}@[A-Z0-9.-]{1,255}\.[A-Z]{2,63}\b` with the flag `i`
unfoldable pub email_re : Regex
unfolding is_email_local is_email_domain unit is_letter is_digit
email_re = seq word_edge (
    seq (between 1 63 (one is_email_local)) (
      seq (unit b'@') (
        seq (between 1 254 (one is_email_domain))
          (seq (unit b'.') (seq (between 2 61 (one is_letter)) word_edge)))))

-- `(^|\s)@[a-zA-Z0-9_]{3,32}(\b|$)`
unfoldable pub at_handle_re : Regex
unfolding unit is_word is_space
at_handle_re =
    seq (alt from_start (one is_space))
      (seq (unit b'@') (seq (between 3 29 (one is_word)) (alt word_edge to_end)))

-- `(wechat|weixin|whatsapp|telegram)\s*[:=]\s*[^\s]{3,}` with the flag `i`
unfoldable pub messenger_re : Regex
unfolding is_space
messenger_re =
    let tail = seq (at_least 0 (one is_space)) (
      seq (one (λ c. c == b':' || c == b'='))
        (seq (at_least 0 (one is_space)) (at_least 3 (one (λ c. not (is_space c)))))) in
    alt (literal "wechat" tail)
      (alt (literal "weixin" tail) (alt (literal "whatsapp" tail) (literal "telegram" tail)))

-- `\bwa\.me\/[0-9]{6,}\b` with the flag `i`
unfoldable pub wa_me_re : Regex
unfolding is_digit
wa_me_re = seq word_edge (literal "wa.me/" (seq (at_least 6 (one is_digit)) word_edge))

-- `\b\d{10,}\b`
unfoldable pub long_digits_re : Regex
unfolding is_digit
long_digits_re = seq word_edge (seq (at_least 10 (one is_digit)) word_edge)

-- The number of digits of a text: the length of `tail.replace(/[^0-9]/g, '')`.
unfoldable pub count_digits : List ℕ → ℕ
unfolding is_digit
count_digits [] = 0
count_digits (c ∷ cs) = (if is_digit c then 1 else 0) + count_digits cs

-- What follows the first plus sign, and nothing where there is none.
unfoldable pub after_plus : List ℕ → Option (List ℕ)
after_plus [] = none
after_plus (c ∷ cs) = if c == b'+' then some cs else after_plus cs

unfoldable pub is_phone : List ℕ → Bool
unfolding count_digits after_plus
is_phone t = elim (after_plus t) [
  | none ↦ false
  | some tail ↦ let n = count_digits (take 32 tail) in leb 8 n && leb n 15
]

-- The detectors in their order.
unfoldable pub find_contact_like_token : List ℕ → Option Hit
find_contact_like_token t =
    if test email_re t
    then some email
    else if is_phone t
    then some e164_phone
    else if test at_handle_re t
    then some at_handle
    else if test messenger_re t
    then some messenger_handle
    else if test wa_me_re t
    then some whatsapp_link
    else if test long_digits_re t
    then some long_digits
    else none

abbrev pub default_max_string_scan : ℕ
default_max_string_scan = 4096

-- The case of a string: its first `max` units are searched.
unfoldable pub lint_text : ℕ → String → Outcome Hit (Unit {0})
lint_text max s = elim (find_contact_like_token (take max (units s))) [
  | none ↦ ok tt
  | some hit ↦ throw hit
]

-- `assertNoRawHandle` with `maxStringScan`. A number and a truth value are searched in the text that
-- `String` makes of them. An object with a key `constructor` is not taken for a plain one, so it is
-- searched in the text of an object only; its key `toString` is taken for none that is called.
unfoldable mutual
  pub assert_no_raw_handle : ℕ → Value → Outcome Hit (Unit {0})
  assert_no_raw_handle max undefined = ok tt
  assert_no_raw_handle max null = ok tt
  assert_no_raw_handle max (bool b) = lint_text max (string_of (bool b))
  assert_no_raw_handle max (num n) = lint_text max (string_of (num n))
  assert_no_raw_handle max (str s) = lint_text max s
  assert_no_raw_handle max (arr vs) = lint_items max vs
  assert_no_raw_handle max (obj fs) =
      let inside = lint_fields max fs in
      if has_key "constructor" fs then lint_text max (string_of (obj fs)) else inside
  assert_no_raw_handle max (exotic s) = lint_text max s

  pub lint_items : ℕ → Items → Outcome Hit (Unit {0})
  lint_items max none_left = ok tt
  lint_items max (item v vs) = do assert_no_raw_handle max v; lint_items max vs

  pub lint_fields : ℕ → Fields → Outcome Hit (Unit {0})
  lint_fields max no_field = ok tt
  lint_fields max (field k v fs) = do
    lint_text max k
    assert_no_raw_handle max v
    lint_fields max fs
