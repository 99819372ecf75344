-- ===== src/Phase2/Body/Meaning.antt =====
-- What an accepted body of a message is like.
use a2a_fun.Prelude.{
  String, ◌≡◌, refl, ◌≢◌, ◌↔◌, true, false, List, [], ◌∷◌, arith, eq_iff, eq_refl, ok, units,
  field_of, keys, Value, undefined, str, obj, Fields, no_field, field,
}
use a2a_fun.Phase2.SafeText.{validate_safe_short_text}
use a2a_fun.Phase2.SafeText.Meaning.{validate_safe_short_text_iff, IsSafe}
use a2a_fun.Phase2.SafeArray.{has}
use a2a_fun.Phase2.Checks.{check_keys, safe_text}
use a2a_fun.Phase2.Body.{
  validate_single_text, validate_fields, plain_fields, validate_body_of,
  validate_decrypted_body_by_type,
}

-- No key of an object stands in it twice.
abbrev pub HasDistinctKeys : Fields → Type 0
HasDistinctKeys no_field = Unit {0}
HasDistinctKeys (field k v fs) = (has k (keys fs) ≡ false) × HasDistinctKeys fs

pub check_keys-cons :
    (allowed : List String) (k : String) (v : Value) (fs : Fields)
    → check_keys allowed (field k v fs) ≡ ok tt
    → (has k allowed ≡ true) × (check_keys allowed fs ≡ ok tt)
unfolding check_keys
check_keys-cons allowed k v fs e = (ground arith, ground arith)

pub field_of-absent :
    (k : String) (fs : Fields) → has k (keys fs) ≡ false → field_of k fs ≡ undefined
unfolding field_of
field_of-absent k no_field h = refl
field_of-absent k (field l v fs) h =
    let rest = field_of-absent k fs in ground (arith, eq_iff k l, eq_iff l k)

-- An object with one allowed key at most, whose value is a text, is that key and that text.
only_field :
    (k : String) (fs : Fields) (s : String)
    → HasDistinctKeys fs
    → check_keys (k ∷ []) fs ≡ ok tt
    → field_of k fs ≡ str s
    → fs ≡ field k (str s) no_field
unfolding check_keys field_of
only_field k no_field s d c e = cc
only_field k (field l v no_field) s d c e = ground (arith, eq_iff l k)
only_field k (field l v (field m w fs)) s d c e =
    let (a, rest) = check_keys-cons (k ∷ []) l v (field m w fs) c in
    let (b, _) = check_keys-cons (k ∷ []) m w fs rest in
    let l_is : l ≡ k = ground (arith, eq_iff l k) in
    let m_is : m ≡ k = ground (arith, eq_iff m k) in
    let apart = d.0 in absurd (ground (arith, eq_iff l m))

-- A body with a single text is accepted exactly when it is the object with that text under its key.
validate_single_text_iff :
    (k : String) (fs : Fields)
    → HasDistinctKeys fs
    → (validate_single_text k fs ≡ ok tt)
      ↔ ((s : String) × (fs ≡ field k (str s) no_field) × IsSafe 160 (units s))
unfolding validate_single_text safe_text check_keys field_of
validate_single_text_iff k fs d = (to, from)
  where
    to :
        validate_single_text k fs ≡ ok tt
        → (s : String) × (fs ≡ field k (str s) no_field) × IsSafe 160 (units s)
    to e =
        let keys_ok : check_keys (k ∷ []) fs ≡ ok tt = ground arith in
        let text_ok : validate_safe_short_text 160 (field_of k fs) ≡ ok tt = ground arith in
        let (s, is, safe) = (validate_safe_short_text_iff 160 (field_of k fs)).0 text_ok in
        (s, only_field k fs s d keys_ok is, safe)

    from :
        (s : String) × (fs ≡ field k (str s) no_field) × IsSafe 160 (units s)
        → validate_single_text k fs ≡ ok tt
    from (s, same, safe) =
        let text_ok : validate_safe_short_text 160 (str s) ≡ ok tt =
          (validate_safe_short_text_iff 160 (str s)).1 (s, refl, safe) in
        rw same (ground (arith, eq_refl k, text_ok))

-- The types with a single text, and the key of that text.
pub data TextKey : String → String → Type 0 where
  of_question : TextKey "probe.question" "q"
  of_answer : TextKey "probe.answer" "a"

-- The way to the check of the text.
single_text-reached :
    (v type key : String) (fs : Fields) (b : Value)
    → TextKey type key
    → v ≢ ""
    → (validate_decrypted_body_by_type (str v) (str type) (obj fs) ≡ ok b)
      ↔ ((validate_single_text key fs ≡ ok tt) × (b ≡ obj fs))
unfolding validate_decrypted_body_by_type validate_body_of validate_fields plain_fields
single_text-reached v _ _ fs b of_question named = (
  (λ e. (ground (arith, eq_iff v ""), ground (arith, eq_iff v ""))),
  (λ h. let checked = h.0 in let kept = h.1 in ground (arith, eq_iff v "")),
)
single_text-reached v _ _ fs b of_answer named = (
  (λ e. (ground (arith, eq_iff v ""), ground (arith, eq_iff v ""))),
  (λ h. let checked = h.0 in let kept = h.1 in ground (arith, eq_iff v "")),
)

-- A question or an answer whose object has no key twice is accepted exactly when it is the object
-- with one key, `q` or `a`, whose value is a safe text of 160 UTF-16 units at most; it is left as
-- it is.
single_text_iff :
    (v type key : String) (fs : Fields) (b : Value)
    → TextKey type key
    → v ≢ ""
    → HasDistinctKeys fs
    → (validate_decrypted_body_by_type (str v) (str type) (obj fs) ≡ ok b)
      ↔ ((b ≡ obj fs) × ((s : String) × (fs ≡ field key (str s) no_field) × IsSafe 160 (units s)))
single_text_iff v type key fs b kind named d =
    let (to, from) = single_text-reached v type key fs b kind named in
    let (is, safe) = validate_single_text_iff key fs d in
    ((λ e. let (checked, kept) = to e in (kept, is checked)), (λ h. from (safe h.1, h.0)))
