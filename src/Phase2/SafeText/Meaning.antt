-- ===== src/Phase2/SafeText/Meaning.antt =====
-- What an accepted short text is like.
use a2a_fun.Prelude.{
  ℕ, ◌≤◌, ◌<◌, String, ◌≡◌, refl, ◌≢◌, ◌↔◌, Bool, false, none, List, [], ◌∷◌, arith, length, take,
  any, All, ok, units, test, test-one, one, Value, str,
}
use a2a_fun.Identity.Lint.{find_contact_like_token, default_max_string_scan}
use a2a_fun.Phase2.SafeText.{
  is_line_end, is_markdown, has_url_like, check_text, validate_safe_short_text,
}

-- The policy, character by character where it can be said so.
pub record IsSafe (max_len : ℕ) (s : List ℕ) : Type 0 where
  pub some_text : 0 < length s
  pub short : length s ≤ max_len
  pub one_line : All (λ c. (c ≢ 13) × (c ≢ 10)) s
  pub no_url : has_url_like s ≡ false
  pub plain : All (λ c. is_markdown c ≡ false) s
  pub no_contact : find_contact_like_token (take default_max_string_scan s) ≡ none

module _ {A : Type 0} (p : A → Bool) where
  any-eq-false_iff : (xs : List A) → (any p xs ≡ false) ↔ All (λ x. p x ≡ false) xs
  any-eq-false_iff [] = ((λ _. tt), (λ _. refl))
  any-eq-false_iff (x ∷ xs) =
      let (to, from) = any-eq-false_iff xs in
      (
        (λ e. (ground arith, to (ground arith))),
        (λ h. let a = h.0 in let b = from h.1 in ground arith),
      )

All-map :
    {A : Type 0} {P Q : A → Type 0} (xs : List A) → ((x : A) → P x → Q x) → All P xs → All Q xs
All-map [] f h = tt
All-map (x ∷ xs) f h = (f x h.0, All-map xs f h.1)

one_line_iff : (s : List ℕ) → (test (one is_line_end) s ≡ false) ↔ All (λ c. (c ≢ 13) × (c ≢ 10)) s
unfolding is_line_end
one_line_iff s =
    let (to, from) = any-eq-false_iff is_line_end s in
    rw (test-one is_line_end s) (
      (λ e. All-map s (λ c h. ground arith) (to e)),
      (λ h. from (All-map s (λ c k. ground arith) h)),
    )

plain_iff : (s : List ℕ) → (test (one is_markdown) s ≡ false) ↔ All (λ c. is_markdown c ≡ false) s
plain_iff s = rw (test-one is_markdown s) (any-eq-false_iff is_markdown s)

check_text-IsSafe : (max_len : ℕ) (s : List ℕ) → check_text max_len s ≡ ok tt → IsSafe max_len s
unfolding check_text
check_text-IsSafe max_len s e = record {
  some_text = ground arith;
  short = ground arith;
  one_line = (one_line_iff s).0 (ground arith);
  no_url = ground arith;
  plain = (plain_iff s).0 (ground arith);
  no_contact = ground arith;
}

IsSafe-check_text : (max_len : ℕ) (s : List ℕ) → IsSafe max_len s → check_text max_len s ≡ ok tt
unfolding check_text
IsSafe-check_text max_len s h =
    let single = (one_line_iff s).1 h.one_line in
    let unmarked = (plain_iff s).1 h.plain in ground (arith, single, unmarked)

-- A short text is accepted exactly when it is a string that has 1 to `max_len` UTF-16 units, no
-- line end, no address, no markdown character and no contact-like token.
pub validate_safe_short_text_iff :
    (max_len : ℕ) (v : Value)
    → (validate_safe_short_text max_len v ≡ ok tt)
      ↔ ((s : String) × (v ≡ str s) × IsSafe max_len (units s))
unfolding validate_safe_short_text
validate_safe_short_text_iff max_len (str s) = (
  (λ e. (s, refl, check_text-IsSafe max_len (units s) e)),
  (λ h.
      let (t, same, safe) = h in
      let inj : s ≡ t = cc in IsSafe-check_text max_len (units s) (rw inj safe)),
)
validate_safe_short_text_iff max_len _ = ((λ e. cc e), (λ h. cc h.1))
