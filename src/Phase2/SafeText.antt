-- ===== src/Phase2/SafeText.antt =====
-- src/phase2/body/safeText.mjs: the policy for a short text of a message body.
pub mod Meaning
use a2a_fun.Prelude.{
  ℕ, Bool, ◌||◌, none, some, List, ltb, ◌==◌, if◌then◌else◌, length, take, Outcome, ok, throw,
  units, is_digit, is_letter, test, either_case, literal, Regex, one, seq, alt, between, at_least,
  word_edge, to_end, Value, str,
}
use a2a_fun.Identity.Lint.{find_contact_like_token, default_max_string_scan, Hit}

pub data TextError : Type 0 where
  text_required text_too_long not_single_line has_url has_markdown : TextError
  contact : Hit → TextError

-- `/[\r\n]/`
unfoldable pub is_line_end : ℕ → Bool
is_line_end c = c == 13 || c == 10

-- ``/[`*_\[\]\(\)~>#]/``
unfoldable pub is_markdown : ℕ → Bool
is_markdown c =
    c == b'`'
    || c == b'*'
    || c == b'_'
    || c == b'['
    || c == b']'
    || c == b'('
    || c == b')'
    || c == b'~'
    || c == b'>'
    || c == b'#'

-- `(https?:\/\/|www\.)` with the flag `i`
unfoldable pub url_re : Regex
url_re =
    alt
      (literal "http"
        (seq (between 0 1 (one (either_case b's'))) (literal "://" (between 0 0 to_end))))
      (literal "www." (between 0 0 to_end))

is_label : ℕ → Bool
is_label c = is_letter c || is_digit c || c == b'-'

-- `\b[a-z0-9-]+\.(com|net|org|io|me|fun|cn|gg|ai)\b` with the flag `i`
unfoldable pub tld_re : Regex
unfolding is_label is_letter is_digit
tld_re = seq word_edge (
    seq (at_least 1 (one is_label)) (
      seq (one (λ c. c == b'.')) (
        alt (literal "com" word_edge) (
          alt (literal "net" word_edge) (
            alt (literal "org" word_edge) (
              alt (literal "io" word_edge) (
                alt (literal "me" word_edge) (
                  alt (literal "fun" word_edge) (
                    alt (literal "cn" word_edge)
                      (alt (literal "gg" word_edge) (literal "ai" word_edge)))))))))))

unfoldable pub has_url_like : List ℕ → Bool
has_url_like s = test url_re s || test tld_re s

-- The checks on a string, in their order.
unfoldable pub check_text : ℕ → List ℕ → Outcome TextError (Unit {0})
check_text max_len s =
    if length s == 0
    then throw text_required
    else if ltb max_len (length s)
    then throw text_too_long
    else if test (one is_line_end) s
    then throw not_single_line
    else if has_url_like s
    then throw has_url
    else if test (one is_markdown) s
    then throw has_markdown
    else elim (find_contact_like_token (take default_max_string_scan s)) [
      | none ↦ ok tt
      | some hit ↦ throw (contact hit)
    ]

-- `validateSafeShortText` with `maxLen`.
unfoldable pub validate_safe_short_text : ℕ → Value → Outcome TextError (Unit {0})
validate_safe_short_text max_len (str s) = check_text max_len (units s)
validate_safe_short_text max_len _ = throw text_required
