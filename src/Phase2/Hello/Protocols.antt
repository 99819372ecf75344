-- ===== src/Phase2/Hello/Protocols.antt =====
-- The one protocol that an accepted `probe.hello` names.
use a2a_fun.Prelude.{
  String, ◌≡◌, refl, sym, ap, ◌∙◌, ◌≢◌, inl, inr, true, List, [], ◌∷◌, arith, eq_iff, Bool-cases,
  All, bind-eq-ok, ok-injective, ok, field_of, is_nullish, Fields, field_of-set_field,
  field_of-set_field_other,
}
use a2a_fun.Phase2.SafeArray.{has, validate_safe_string_array}
use a2a_fun.Phase2.SafeArray.Sets.{IsDistinct, validate_safe_string_array_lem}
use a2a_fun.Phase2.Checks.{
  check_keys, strings, safe_array, BodyError, unsupported_protocol, unsupported_transport,
}
use a2a_fun.Phase2.Hello.{
  supported_protocols, supported_transports, all_supported, protocol_options, transport_options,
  language_options, hello_protocols, hello_transports, hello_languages, validate_hello,
}

all_supported-All :
    (list : List String) (x : BodyError) (ss : List String)
    → all_supported list x ss ≡ ok tt
    → All (λ s. has s list ≡ true) ss
unfolding all_supported
all_supported-All list x [] e = tt
all_supported-All list x (s ∷ ss) e = (ground arith, all_supported-All list x ss (ground arith))

-- A list that is not empty, has no string twice and holds one string only is that string.
singleton :
    (p : String) (ss : List String)
    → ss ≢ []
    → IsDistinct ss
    → All (λ s. has s (p ∷ []) ≡ true) ss
    → ss ≡ p ∷ []
singleton p [] h d a = absurd (h refl)
singleton p (s ∷ []) h d (a, _) = let is : s ≡ p = ground (arith, eq_iff s p) in rw is refl
singleton p (s ∷ t ∷ ts) h (fresh, _) (a, (b, _)) =
    absurd (ground (arith, eq_iff s p, eq_iff t p, eq_iff s t))

hello_protocols-eq :
    (fs gs : Fields)
    → hello_protocols fs ≡ ok gs
    → field_of "protocols" gs ≡ strings ("a2a.friendship/1" ∷ [])
unfolding hello_protocols safe_array
hello_protocols-eq fs gs e =
    let given = field_of "protocols" fs in
    let (out, e1, e2) = bind-eq-ok (safe_array protocol_options given) _ e in
    let (_, e3, e4) =
      bind-eq-ok (all_supported supported_protocols unsupported_protocol out) _ e2 in
    let checked : validate_safe_string_array protocol_options given ≡ ok out = ground arith in
    let (vs, items, _, _, set) =
      validate_safe_string_array_lem protocol_options given out checked in
    let single : out ≡ "a2a.friendship/1" ∷ [] =
      singleton _ out set.some_item set.distinct
        (all_supported-All supported_protocols unsupported_protocol out e3) in
    rw (← ok-injective e4) (field_of-set_field "protocols" (strings out) fs ∙ ap strings single)

hello_transports-kept :
    (fs gs : Fields)
    → hello_transports fs ≡ ok gs
    → field_of "protocols" gs ≡ field_of "protocols" fs
unfolding hello_transports
hello_transports-kept fs gs e = elim (Bool-cases (is_nullish (field_of "transports" fs))) [
  | inl absent ↦ ap (field_of "protocols") (sym (ok-injective (rw absent at e)))
  | inr given ↦
      let e0 = rw given at e in
      let (out, _, e1) =
        bind-eq-ok (safe_array transport_options (field_of "transports" fs)) _ e0 in
      let (_, _, e2) =
        bind-eq-ok (all_supported supported_transports unsupported_transport out) _ e1 in
      rw (← ok-injective e2)
        (field_of-set_field_other "protocols" "transports" (strings out) fs refl)
]

hello_languages-kept :
    (fs gs : Fields)
    → hello_languages fs ≡ ok gs
    → field_of "protocols" gs ≡ field_of "protocols" fs
unfolding hello_languages
hello_languages-kept fs gs e = elim (Bool-cases (is_nullish (field_of "languages" fs))) [
  | inl absent ↦ ap (field_of "protocols") (sym (ok-injective (rw absent at e)))
  | inr given ↦
      let e0 = rw given at e in
      let (out, _, e1) = bind-eq-ok (safe_array language_options (field_of "languages" fs)) _ e0 in
      rw (← ok-injective e1)
        (field_of-set_field_other "protocols" "languages" (strings out) fs refl)
]

-- An accepted `probe.hello` is left with exactly one protocol, `a2a.friendship/1`, however often and
-- in whatever case the peer has written it.
validate_hello_lem :
    (fs gs : Fields)
    → validate_hello fs ≡ ok gs
    → field_of "protocols" gs ≡ strings ("a2a.friendship/1" ∷ [])
unfolding validate_hello
validate_hello_lem fs gs e =
    let (_, _, e1) =
      bind-eq-ok (check_keys ("protocols" ∷ "transports" ∷ "languages" ∷ []) fs) _ e in
    let (f1, p, e2) = bind-eq-ok (hello_protocols fs) _ e1 in
    let (f2, t, l) = bind-eq-ok (hello_transports f1) _ e2 in
    hello_languages-kept f2 gs l ∙ hello_transports-kept f1 f2 t ∙ hello_protocols-eq fs f1 p
