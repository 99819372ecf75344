-- ===== src/Prelude/Objects.antt =====
-- Objects that are written to: `o[key] = v` and `Object.assign`.
use Prim.Native.Nat.{Ordering}
use Prim.Native.String
use Prim.Native.String.{String}
use mathlib.Core.Path.{◌≡◌}
use mathlib.Core.Logic.{inl, inr}
use mathlib.Core.List.{List, [], ◌∷◌}
use mathlib.Core.Bool.{Bool, true, false, ◌||◌}
use native.Mathlib.Omega.{arith}
use text.Mathlib.Text.{◌==◌ as str_eq}
use text.Mathlib.TextEquality.{eq_iff}
use text.Mathlib.TextPositions.{eq_refl}
use a2a_fun.Prelude.Lists.{any}
use a2a_fun.Prelude.Tests.{if◌then◌else◌, Bool-cases}
use a2a_fun.Prelude.Values.{field_of, Value, undefined, obj, exotic, Fields, no_field, field}

-- An object, by the list of its fields.
abbrev pub object : List (String × Value) → Fields
object [] = no_field
object ((k, v) ∷ rest) = field k v (object rest)

-- `o[key] = v`: in its place, or at the end.
unfoldable pub set_field : String → Value → Fields → Fields
set_field key v no_field = field key v no_field
set_field key v (field k w fs) =
    let rest = set_field key v fs in if str_eq k key then field k v fs else field k w rest

pub field_of-set_field : (k : String) (v : Value) (fs : Fields) → field_of k (set_field k v fs) ≡ v
unfolding field_of set_field
field_of-set_field k v no_field = ground (arith, eq_refl k)
field_of-set_field k v (field l w fs) =
    let rest = field_of-set_field k v fs in ground (arith, eq_refl k, eq_iff l k)

pub field_of-set_field_other :
    (k l : String) (v : Value) (fs : Fields)
    → str_eq l k ≡ false
    → field_of k (set_field l v fs) ≡ field_of k fs
unfolding field_of set_field
field_of-set_field_other k l v no_field h = ground arith
field_of-set_field_other k l v (field m w fs) h =
    let rest = field_of-set_field_other k l v fs h in ground (arith, eq_iff m l, eq_iff m k)

unfoldable pub has_key : String → Fields → Bool
has_key key no_field = false
has_key key (field k v fs) = let rest = has_key key fs in if str_eq k key then true else rest

-- `Object.assign(target, source)`: the fields of the source in their order.
unfoldable pub assign : Fields → Fields → Fields
assign target no_field = target
assign target (field k v fs) = assign (set_field k v target) fs

-- No key of an object stands in it twice.
abbrev pub IsObject : Fields → Type 0
IsObject no_field = Unit {0}
IsObject (field k v fs) = (has_key k fs ≡ false) × IsObject fs

-- A field of the result is the source's where the source has it, and the target's otherwise.
pub field_of-assign :
    (key : String) (target source : Fields)
    → IsObject source
    → field_of key (assign target source)
      ≡ (if has_key key source then field_of key source else field_of key target)
unfolding assign has_key field_of
field_of-assign key target no_field d = ground arith
field_of-assign key target (field k v fs) d =
    let rest = field_of-assign key (set_field k v target) fs d.1 in
    elim (Bool-cases (str_eq k key)) [
      | inl same ↦
          let is : k ≡ key = (eq_iff k key).0 same in
          let absent : has_key key fs ≡ false = rw is at d.0 in
          let stored = field_of-set_field k v target in ground (arith, is)
      | inr other ↦ let kept = field_of-set_field_other key k v target other in ground arith
    ]

-- The names of the properties that every object inherits.
abbrev pub inherited_names : List String
inherited_names =
    "constructor" ∷ "hasOwnProperty" ∷ "isPrototypeOf" ∷ "propertyIsEnumerable" ∷ "toLocaleString"
    ∷ "toString" ∷ "valueOf" ∷ "__proto__" ∷ "__defineGetter__" ∷ "__defineSetter__"
    ∷ "__lookupGetter__" ∷ "__lookupSetter__" ∷ []

unfoldable pub is_inherited : String → Bool
is_inherited s = any (λ t. str_eq t s) inherited_names

-- `o[key]`, with what is inherited: a function, or the prototype.
unfoldable pub lookup : String → Fields → Value
lookup key fs =
    if has_key key fs
    then field_of key fs
    else if is_inherited key
    then exotic "function"
    else undefined

pub has_key-set_field :
    (key k : String) (v : Value) (fs : Fields)
    → has_key key (set_field k v fs) ≡ (str_eq k key || has_key key fs)
unfolding has_key set_field
has_key-set_field key k v no_field = ground arith
has_key-set_field key k v (field l w fs) =
    let rest = has_key-set_field key k v fs in ground (arith, eq_iff l k)

-- `{ ...v }`: only a plain object has fields of its own.
abbrev pub own_fields : Value → Fields
own_fields (obj fs) = fs
own_fields _ = no_field

-- `Object.keys(v).sort()`, by code points.
unfoldable pub insert_field : String → Value → Fields → Fields
insert_field k v no_field = field k v no_field
insert_field k v (field l w fs) =
    let rest = insert_field k v fs in
    elim (String.compare k l) [ Ordering.gt ↦ field l w rest | _ ↦ field k v (field l w fs) ]

unfoldable pub sort_fields : Fields → Fields
sort_fields no_field = no_field
sort_fields (field k v fs) = insert_field k v (sort_fields fs)
