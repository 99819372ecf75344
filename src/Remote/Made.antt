-- ===== src/Remote/Made.antt =====
-- The reference to a capability and the request that invokes it, where they are made of what is
-- complete.
use Prim.Native.Char.{Char, code}
use Prim.Native.String
use text.Mathlib.TextLemmas.{cons-append}
use a2a_fun.Remote.Gate.{property-own_fields}
use a2a_fun.Execution.{all_filled, is_request}
use a2a_fun.Capability.{
  epoch, assert_friendship_record, assert_discovered_capability, text_of, joined_by_bar,
  create_capability_reference, assert_capability_reference, check_object,
  create_capability_invocation_request,
}
use a2a_fun.Prelude.{
  String, ◌≡◌, refl, sym, ap, inl, inr, Bool, true, false, not, [], ◌∷◌, arith, str_eq, eq_iff,
  Bool-cases, ok, is_space, trim_start, trim_end, trim, field_of, property, Value, bool, str, obj,
  Fields, is_filled, is_plain, is_true, object, own_fields, sort_fields,
}

-- A text that begins with a printed character is filled.
is_solid : String → Bool
is_solid String.[] = false
is_solid (String.◌∷◌ c s) = not (is_space (code c))

is_cons : String → Bool
is_cons String.[] = false
is_cons (String.◌∷◌ c s) = true

filled_cons : (c : Char) (s : String) → str_eq (String.◌∷◌ c s) "" ≡ false
unfolding is_cons
filled_cons c s = elim (Bool-cases (str_eq (String.◌∷◌ c s) "")) [
  | inl blank ↦ let bad : true ≡ false = ap is_cons ((eq_iff (String.◌∷◌ c s) "").0 blank) in cc
  | inr filled ↦ filled
]

filled-append : (p t : String) → is_solid p ≡ true → is_filled (str (String.◌++◌ p t)) ≡ true
unfolding is_filled trim trim_start trim_end is_solid
filled-append String.[] t solid = absurd (ground arith)
filled-append (String.◌∷◌ c s) t solid =
    let printed : is_space (code c) ≡ false = ground arith in
    rw (cons-append c s t, printed)
      (rw printed (rw (filled_cons c (trim_end (String.◌++◌ s t))) refl))

filled_id : (hash : String) → is_filled (str (String.◌++◌ "inv:sha256:" hash)) ≡ true
unfolding is_solid is_space
filled_id hash = filled-append "inv:sha256:" hash refl

filled_ref : (hash : String) → is_filled (str (String.◌++◌ "capref:sha256:" hash)) ≡ true
unfolding is_solid is_space
filled_ref hash = filled-append "capref:sha256:" hash refl

-- The reference of a checked friendship and capability.
abbrev pub reference_of : (String → String) → Fields → Fields → Fields
reference_of digest fr cap =
    let hash = digest (
      joined_by_bar "capref" (text_of (field_of "friendship_id" fr))
        (text_of (field_of "capability_id" cap))) in
    object (
      ("capability_ref_id", str (String.◌++◌ "capref:sha256:" hash))
      ∷ ("friendship_id", field_of "friendship_id" fr)
      ∷ ("capability_id", field_of "capability_id" cap)
      ∷ ("name", field_of "name" cap)
      ∷ ("invocation_ready", bool true)
      ∷ ("created_at", epoch)
      ∷ [])

-- What a reference that was created has been made of.
pub record Made (digest : String → String) (friendship_record capability : Value) (ref : Fields)
    : Type 0 where
  pub established : is_true (property "established" friendship_record) ≡ true
  pub plain : is_plain friendship_record ≡ true
  pub has_friendship : is_filled (property "friendship_id" friendship_record) ≡ true
  pub has_capability : is_filled (property "capability_id" capability) ≡ true
  pub friendship_id : field_of "friendship_id" ref ≡ property "friendship_id" friendship_record
  pub capability_id : field_of "capability_id" ref ≡ property "capability_id" capability
  pub ref_id : is_filled (field_of "capability_ref_id" ref) ≡ true

pub reference-Made :
    (digest : String → String) (friendship_record capability : Value) (ref : Fields)
    → create_capability_reference digest friendship_record capability ≡ ok ref
    → Made digest friendship_record capability ref
unfolding create_capability_reference assert_friendship_record assert_discovered_capability field_of
reference-Made digest friendship_record capability ref h =
    let plain : is_plain friendship_record ≡ true = ground arith in
    let has_friendship : is_filled (property "friendship_id" friendship_record) ≡ true =
      ground arith in
    let established : is_true (property "established" friendship_record) ≡ true = ground arith in
    let has_capability : is_filled (field_of "capability_id" (own_fields capability)) ≡ true =
      ground arith in
    let is : reference_of digest (own_fields friendship_record) (own_fields capability) ≡ ref =
      ground arith in
    let cap = property-own_fields "capability_id" capability in
    let own = property-own_fields "friendship_id" friendship_record in
    record {
      established = established;
      plain = plain;
      has_friendship = has_friendship;
      has_capability = rw (sym cap) has_capability;
      friendship_id = rw (sym is) own;
      capability_id = rw (sym is) cap;
      ref_id = rw (sym is) (
          filled_ref (
            digest (
              joined_by_bar "capref"
                (text_of (field_of "friendship_id" (own_fields friendship_record)))
                (text_of (field_of "capability_id" (own_fields capability))))));
    }

abbrev pub request_of : String → Fields → Fields → Fields
request_of hash ref fs = object (
    ("invocation_id", str (String.◌++◌ "inv:sha256:" hash))
    ∷ ("capability_ref_id", field_of "capability_ref_id" ref)
    ∷ ("friendship_id", field_of "friendship_id" ref)
    ∷ ("capability_id", field_of "capability_id" ref)
    ∷ ("payload", obj (sort_fields fs))
    ∷ ("created_at", epoch)
    ∷ [])

-- The request made of a reference and a checked payload.
pub request-is_request :
    (digest : String → String) (to_json : Fields → String) (ref : Fields) (payload : Value)
    (request : Fields)
    → is_filled (field_of "capability_ref_id" ref) ≡ true
    → is_filled (field_of "friendship_id" ref) ≡ true
    → is_filled (field_of "capability_id" ref) ≡ true
    → create_capability_invocation_request digest to_json (obj ref) payload ≡ ok request
    → (is_request (obj request) ≡ true)
      × (field_of "friendship_id" request ≡ field_of "friendship_id" ref)
      × (field_of "capability_id" request ≡ field_of "capability_id" ref)
      × (field_of "payload" request ≡ obj (sort_fields (own_fields payload)))
unfolding create_capability_invocation_request assert_capability_reference check_object is_request
    all_filled field_of
request-is_request digest to_json ref payload request has_ref has_friend has_cap h =
    let id = digest (
      joined_by_bar "invocation" (text_of (field_of "capability_ref_id" ref))
        (to_json (sort_fields (own_fields payload)))) in
    let is : request_of id ref (own_fields payload) ≡ request = ground arith in
    rw (sym is) (ground (arith, filled_id id), refl, refl, refl)

-- The reference of a friendship and a capability that are complete.
pub reference-made :
    (digest : String → String) (mine capability : Value)
    → is_plain mine ≡ true
    → is_filled (property "friendship_id" mine) ≡ true
    → property "established" mine ≡ bool true
    → is_plain capability ≡ true
    → is_filled (property "capability_id" capability) ≡ true
    → is_filled (property "name" capability) ≡ true
    → is_filled (property "summary" capability) ≡ true
    → create_capability_reference digest mine capability
      ≡ ok (reference_of digest (own_fields mine) (own_fields capability))
unfolding create_capability_reference assert_friendship_record assert_discovered_capability
reference-made digest mine capability plain friend established complete id name summary =
    let id' : is_filled (field_of "capability_id" (own_fields capability)) ≡ true =
      rw (property-own_fields "capability_id" capability) id in
    let name' : is_filled (field_of "name" (own_fields capability)) ≡ true =
      rw (property-own_fields "name" capability) name in
    let summary' : is_filled (field_of "summary" (own_fields capability)) ≡ true =
      rw (property-own_fields "summary" capability) summary in
    rw (plain, friend, established, complete, id', name', summary') refl

-- The request of a reference that is complete and a payload that is bounded.
pub request-made :
    (digest : String → String) (to_json : Fields → String) (ref : Fields) (payload : Value)
    → is_filled (field_of "capability_ref_id" ref) ≡ true
    → is_filled (field_of "friendship_id" ref) ≡ true
    → is_filled (field_of "capability_id" ref) ≡ true
    → field_of "invocation_ready" ref ≡ bool true
    → check_object "INVALID_PAYLOAD" payload ≡ ok (own_fields payload)
    → (request : Fields) × (create_capability_invocation_request digest to_json (obj ref) payload
        ≡ ok request)
unfolding create_capability_invocation_request assert_capability_reference
request-made digest to_json ref payload has_ref has_friend has_cap ready bounded =
    let id = digest (
      joined_by_bar "invocation" (text_of (field_of "capability_ref_id" ref))
        (to_json (sort_fields (own_fields payload)))) in
    (request_of id ref (own_fields payload), rw (has_ref, has_friend, has_cap, ready, bounded) refl)
