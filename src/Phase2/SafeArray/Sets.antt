-- ===== src/Phase2/SafeArray/Sets.antt =====
-- What `validateSafeStringArray` makes of the checked items: the same items, each once.
use a2a_fun.Prelude.{
  String, ◌≡◌, refl, ◌∙◌, ◌≢◌, inl, inr, false, not, ◌&&◌, ◌||◌, List, [], ◌∷◌, arith, str_eq,
  eq_iff, eq_refl, Bool-cases, Outcome-cases, ok, Value, arr, Items, none_left, item,
}
use a2a_fun.Phase2.SafeArray.{
  check_items, has, unique_from, insert, sort, validate_safe_string_array, Options,
}

-- No string stands in the list twice.
abbrev pub IsDistinct : List String → Type 0
IsDistinct [] = Unit {0}
IsDistinct (s ∷ ss) = (has s ss ≡ false) × IsDistinct ss

has-insert : (x s : String) (ss : List String) → has x (insert s ss) ≡ (str_eq x s || has x ss)
unfolding insert
has-insert x s [] = refl
has-insert x s (t ∷ ts) = let rest = has-insert x s ts in ground arith

insert-IsDistinct :
    (s : String) (ss : List String) → has s ss ≡ false → IsDistinct ss → IsDistinct (insert s ss)
unfolding insert
insert-IsDistinct s [] h d = (refl, tt)
insert-IsDistinct s (t ∷ ts) h (fresh, d) =
    let rest = insert-IsDistinct s ts (ground arith) d in
    let in_rest = has-insert t s ts in ground (arith, eq_iff s t, eq_iff t s)

has-sort : (x : String) (ss : List String) → has x (sort ss) ≡ has x ss
unfolding sort
has-sort x [] = refl
has-sort x (s ∷ ss) = let rest = has-sort x ss in rw (has-insert x s (sort ss)) (ground arith)

sort-IsDistinct : (ss : List String) → IsDistinct ss → IsDistinct (sort ss)
unfolding sort
sort-IsDistinct [] d = tt
sort-IsDistinct (s ∷ ss) (fresh, d) =
    insert-IsDistinct s (sort ss) (has-sort s ss ∙ fresh) (sort-IsDistinct ss d)

-- What has been seen is left out, the rest is kept.
has-unique_from :
    (x : String) (seen ss : List String)
    → has x (unique_from seen ss) ≡ (not (has x seen) && has x ss)
unfolding unique_from
has-unique_from x seen [] = ground arith
has-unique_from x seen (s ∷ ss) =
    let skipped = has-unique_from x seen ss in
    let taken = has-unique_from x (s ∷ seen) ss in
    elim (Bool-cases (str_eq x s)) [
      | inl same ↦ let is : x ≡ s = (eq_iff x s).0 same in ground (arith, is)
      | inr other ↦ ground arith
    ]

unique_from-IsDistinct : (seen ss : List String) → IsDistinct (unique_from seen ss)
unfolding unique_from
unique_from-IsDistinct seen [] = tt
unique_from-IsDistinct seen (s ∷ ss) =
    let skipped = unique_from-IsDistinct seen ss in
    let taken = unique_from-IsDistinct (s ∷ seen) ss in
    let fresh = has-unique_from s (s ∷ seen) ss in ground (arith, eq_refl s)

-- An accepted array has the checked items, each once, and one at least.
pub record IsSetOf (checked out : List String) : Type 0 where
  pub same_items : (x : String) → has x out ≡ has x checked
  pub distinct : IsDistinct out
  pub some_item : out ≢ []

check_items-some :
    (opts : Options) (v : Value) (vs : Items) → ¬ (check_items opts (item v vs) ≡ ok [])
unfolding check_items
check_items-some opts v vs e = ground arith

sorted_set :
    (checked : List String) → checked ≢ [] → IsSetOf checked (sort (unique_from [] checked))
sorted_set checked filled = record {
  same_items = same_as;
  distinct = sort-IsDistinct _ (unique_from-IsDistinct [] checked);
  some_item = nonempty checked filled same_as;
}
  where
    same_as : (x : String) → has x (sort (unique_from [] checked)) ≡ has x checked
    same_as x = has-sort x (unique_from [] checked) ∙ has-unique_from x [] checked

    nonempty :
        {out : List String} (ss : List String)
        → ss ≢ []
        → ((x : String) → has x out ≡ has x ss)
        → out ≢ []
    nonempty [] h same e = h refl
    nonempty {out} (s ∷ ss) h same e =
        let first = same s in
        let none_in : has s out ≡ false = rw e refl in absurd (ground (arith, eq_refl s))

-- An accepted array consists of the checked items in lower case, each once, and one at least.
pub validate_safe_string_array_lem :
    (opts : Options) (v : Value) (out : List String)
    → validate_safe_string_array opts v ≡ ok out
    → (vs : Items) × (checked : List String) × (v ≡ arr vs)
      × (check_items opts vs ≡ ok checked)
      × IsSetOf checked out
unfolding validate_safe_string_array
validate_safe_string_array_lem opts (arr none_left) out e = ground arith
validate_safe_string_array_lem opts (arr (item v vs)) out e =
    elim (Outcome-cases (check_items opts (item v vs))) [
      | inr (x, f) ↦ absurd (ground arith)
      | inl (checked, f) ↦
          let is : sort (unique_from [] checked) ≡ out = ground arith in
          let filled : checked ≢ [] = λ h. check_items-some opts v vs (rw h at f) in
          (item v vs, checked, refl, f, rw (← is) (sorted_set checked filled))
    ]
validate_safe_string_array_lem opts _ out e = ground arith
