-- ===== src/Identity/Lint/Coverage.antt =====
-- The lint looks at every text of a value: at every depth, keys and values.
use a2a_fun.Prelude.{
  ℕ, String, ◌≡◌, refl, ◌↔◌, inl, inr, none, List, [], ◌∷◌, ◌++◌, if◌then◌else◌, Bool-cases,
  Option-cases, take, All, ◌>>◌, Outcome, ok, throw, units, Value, undefined, null, bool, num, str,
  arr, obj, exotic, Items, none_left, item, Fields, no_field, field, string_of, has_key,
}
use a2a_fun.Identity.Lint.{
  find_contact_like_token, lint_text, assert_no_raw_handle, lint_items, lint_fields, Hit,
}

mutual
  pub texts : Value → List String
  texts undefined = []
  texts null = []
  texts (bool b) = string_of (bool b) ∷ []
  texts (num n) = string_of (num n) ∷ []
  texts (str s) = s ∷ []
  texts (arr vs) = item_texts vs
  texts (obj fs) =
      let inside = field_texts fs in
      if has_key "constructor" fs then string_of (obj fs) ∷ [] else inside
  texts (exotic s) = s ∷ []

  pub item_texts : Items → List String
  item_texts none_left = []
  item_texts (item v vs) = texts v ++ item_texts vs

  pub field_texts : Fields → List String
  field_texts no_field = []
  field_texts (field k v fs) = k ∷ texts v ++ field_texts fs

-- No detector fires on the part of the text that is searched.
abbrev pub IsClean : ℕ → String → Type 0
IsClean max s = find_contact_like_token (take max (units s)) ≡ none

lint_text_iff : (max : ℕ) (s : String) → (lint_text max s ≡ ok tt) ↔ IsClean max s
unfolding lint_text
lint_text_iff max s = elim (Option-cases (find_contact_like_token (take max (units s)))) [
  | inl e ↦ rw (e, lint_text) ((λ _. refl), (λ _. refl))
  | inr (hit, e) ↦ rw (e, lint_text) ((λ x. cc x), (λ x. cc x))
]

shown_iff : (max : ℕ) (s : String) → (lint_text max s ≡ ok tt) ↔ All (IsClean max) (s ∷ [])
shown_iff max s = let (to, from) = lint_text_iff max s in ((λ e. (to e, tt)), (λ h. from h.0))

module _ {A : Type 0} (P : A → Type 0) where
  All-append_iff : (xs ys : List A) → All P (xs ++ ys) ↔ (All P xs × All P ys)
  All-append_iff [] ys = ((λ h. (tt, h)), (λ h. h.1))
  All-append_iff (x ∷ xs) ys =
      let (to, from) = All-append_iff xs ys in
      ((λ h. ((h.0, (to h.1).0), (to h.1).1)), (λ h. (h.0.0, from (h.0.1, h.1))))

-- A chain of two checks passes exactly when both do.
then_iff :
    {P Q : Type 0} (m n : Outcome Hit (Unit {0}))
    → ((m ≡ ok tt) ↔ P)
    → ((n ≡ ok tt) ↔ Q)
    → ((m >> n) ≡ ok tt) ↔ (P × Q)
then_iff (ok tt) n p q = ((λ e. (p.0 refl, q.0 e)), (λ h. q.1 h.1))
then_iff (throw hit) n p q = ((λ e. cc e), (λ h. cc (p.1 h.0)))

mutual
  unfolding texts assert_no_raw_handle

  covers :
      (max : ℕ) (v : Value) → (assert_no_raw_handle max v ≡ ok tt) ↔ All (IsClean max) (texts v)
  covers max undefined = ((λ _. tt), (λ _. refl))
  covers max null = ((λ _. tt), (λ _. refl))
  covers max (bool b) = shown_iff max (string_of (bool b))
  covers max (num n) = shown_iff max (string_of (num n))
  covers max (str s) = shown_iff max s
  covers max (arr vs) = covers_items max vs
  covers max (obj fs) =
      let shown = shown_iff max (string_of (obj fs)) in
      let inside = covers_fields max fs in
      elim (Bool-cases (has_key "constructor" fs)) [
        | inl other ↦ rw other shown
        | inr plain ↦ rw plain inside
      ]
  covers max (exotic s) = shown_iff max s

  covers_items :
      (max : ℕ) (vs : Items) → (lint_items max vs ≡ ok tt) ↔ All (IsClean max) (item_texts vs)
  covers_items max none_left = ((λ _. tt), (λ _. refl))
  covers_items max (item v vs) =
      let (to, from) =
        then_iff (assert_no_raw_handle max v) (lint_items max vs) (covers max v)
          (covers_items max vs) in
      let (split, join) = All-append_iff (IsClean max) (texts v) (item_texts vs) in
      ((λ e. join (to e)), (λ h. from (split h)))

  covers_fields :
      (max : ℕ) (fs : Fields) → (lint_fields max fs ≡ ok tt) ↔ All (IsClean max) (field_texts fs)
  covers_fields max no_field = ((λ _. tt), (λ _. refl))
  covers_fields max (field k v fs) =
      let (to, from) =
        then_iff (assert_no_raw_handle max v) (lint_fields max fs) (covers max v)
          (covers_fields max fs) in
      let (split, join) = All-append_iff (IsClean max) (texts v) (field_texts fs) in
      let (key_to, key_from) =
        then_iff (lint_text max k) (assert_no_raw_handle max v >> lint_fields max fs)
          (lint_text_iff max k) (to, from) in
      ((λ e. let (a, b) = key_to e in (a, join b)), (λ h. key_from (h.0, split h.1)))

-- A value passes the lint exactly when no contact-like token is found in the first `max` units of any
-- of its texts: at any depth its strings, the keys of its plain objects, and what `String` makes of
-- its numbers, its truth values and its other objects, among them those with a key `constructor`.
pub lint_coverage :
    (max : ℕ) (v : Value) → (assert_no_raw_handle max v ≡ ok tt) ↔ All (IsClean max) (texts v)
lint_coverage max v = covers max v
