-- ===== src/Prelude/Values.antt =====
-- JavaScript values, as far as the checks of the program tell them apart.
use Prim.Native.Nat.{ℕ}
use Prim.Native.String.{String}
use mathlib.Core.Bool.{Bool, true, false, not}
use mathlib.Core.List.{List, [], ◌∷◌}
use text.Mathlib.Text.{◌==◌ as str_eq}
use a2a_fun.Prelude.Tests.{if◌then◌else◌}

mutual
  pub data Value : Type 0 where
    undefined null : Value
    bool : Bool → Value
    num : ℕ → Value
    str : String → Value
    arr : Items → Value
    -- a plain object, its own fields in order
    obj : Fields → Value
    -- any other object, by what `String` makes of it
    exotic : String → Value

  pub data Items : Type 0 where
    none_left : Items
    item : Value → Items → Items

  pub data Fields : Type 0 where
    no_field : Fields
    field : String → Value → Fields → Fields

-- `o[key]` of a plain object; the fields of an object have different keys.
unfoldable pub field_of : String → Fields → Value
field_of key no_field = undefined
field_of key (field k v fs) = if str_eq k key then v else field_of key fs

abbrev pub keys : Fields → List String
keys no_field = []
keys (field k v fs) = k ∷ keys fs

abbrev pub elements : Items → List Value
elements none_left = []
elements (item v vs) = v ∷ elements vs

-- `v == null`
abbrev pub is_nullish : Value → Bool
is_nullish undefined = true
is_nullish null = true
is_nullish _ = false

-- `typeof v === 'string'`
abbrev pub is_string : Value → Bool
is_string (str _) = true
is_string _ = false

-- `typeof v === 'object'` of a value that is truthy
abbrev pub is_object : Value → Bool
is_object (arr _) = true
is_object (obj _) = true
is_object (exotic _) = true
is_object _ = false

-- The property of a value; only a plain object has the keys that are read here.
abbrev pub property : String → Value → Value
property key (obj fs) = field_of key fs
property key _ = undefined

-- `typeof v === 'string' && v.length > 0`
abbrev pub is_named : Value → Bool
is_named (str s) = not (str_eq s "")
is_named _ = false
