-- ===== src/Remote/Bounds.antt =====
-- What the checks of a payload and of a result let through.
use a2a_fun.Prelude.{
  ◌≤◌, String, ◌≡◌, sym, true, leb, leb→le, length, ◌>>◌, require, bind-eq-ok, ok-injective,
  require-eq-ok, Outcome, ok, utf16_length, keys, Value, str, Fields, no_field, field, is_filled,
  is_plain, own_fields,
}
use a2a_fun.Capability.{is_small, check_entries, check_object}

-- Every key is a text of at most 64 units that is not blank, and every value is a number, a truth
-- value or a text of at most 160 units.
abbrev pub HasSmallEntries : Fields → Type 0
HasSmallEntries no_field = Unit {0}
HasSmallEntries (field k v fs) =
    (is_filled (str k) ≡ true) × (utf16_length k ≤ 64) × (is_small v ≡ true) × HasSmallEntries fs

pub record IsBounded (raw : Value) (fs : Fields) : Type 0 where
  pub is_object : is_plain raw ≡ true
  pub own : fs ≡ own_fields raw
  pub few : length (keys fs) ≤ 10
  pub small : HasSmallEntries fs

HasSmallEntries-check :
    (code : String) (fs : Fields) → check_entries code fs ≡ ok tt → HasSmallEntries fs
unfolding check_entries
HasSmallEntries-check code no_field h = tt
HasSmallEntries-check code (field k v fs) h =
    let (filled, h1) =
      require-eq-ok (is_filled (str k)) "INVALID_INPUT"
        (require (leb (utf16_length k) 64) code
          >> (require (is_small v) code >> check_entries code fs))
        h in
    let (short, h2) =
      require-eq-ok (leb (utf16_length k) 64) code
        (require (is_small v) code >> check_entries code fs) h1 in
    let (small, h3) = require-eq-ok (is_small v) code (check_entries code fs) h2 in
    (filled, leb→le (utf16_length k) 64 short, small, HasSmallEntries-check code fs h3)

pub IsBounded-check :
    (code : String) (v : Value) (fs : Fields) → check_object code v ≡ ok fs → IsBounded v fs
unfolding check_object
IsBounded-check code v fs h =
    let entries = own_fields v in
    let last : Outcome String Fields = check_entries code entries >> ok entries in
    let (plain, h1) =
      require-eq-ok (is_plain v) code (require (leb (length (keys entries)) 10) code >> last) h in
    let (few, h2) = require-eq-ok (leb (length (keys entries)) 10) code last h1 in
    let (t, checked, h3) = bind-eq-ok (check_entries code entries) (λ _. ok entries) h2 in
    let is : entries ≡ fs = ok-injective h3 in
    record {
      is_object = plain;
      own = sym is;
      few = rw (sym is) (leb→le (length (keys entries)) 10 few);
      small = rw (sym is) (HasSmallEntries-check code entries checked);
    }
