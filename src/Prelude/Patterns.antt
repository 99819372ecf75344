-- ===== src/Prelude/Patterns.antt =====
-- JavaScript regular expressions, as far as the program uses them: `test` on the UTF-16 units of a
-- string. A cursor is a position: the unit before it, and the units from it on.
use Prim.Native.Nat.{ℕ, zero, suc, ◌+◌, ◌-◌, ◌/◌, ◌%◌}
use Prim.Native.Char.{code}
use Prim.Native.String.{String}
use mathlib.Core.Path.{◌≡◌, refl}
use mathlib.Core.Bool.{Bool, true, false, not, ◌&&◌, ◌||◌}
use mathlib.Core.Option.{Option, none, some}
use mathlib.Core.List.{List, [], ◌∷◌, ◌++◌, flat_map}
use native.Mathlib.Omega.{arith}
use a2a_fun.Prelude.Tests.{leb, ltb, ◌==◌, if◌then◌else◌}
use a2a_fun.Prelude.Lists.{length, any}

-- A code point above 65535 is a surrogate pair.
abbrev pub units : String → List ℕ
units String.[] = []
units (String.◌∷◌ c s) =
    let n = code c in
    if ltb n 65536
    then n ∷ units s
    else ((0xd800 + (n - 65536) / 1024) ∷ (0xdc00 + (n - 65536) % 1024) ∷ units s)

pub data Regex : Type 0 where
  -- one unit of a class
  one : (ℕ → Bool) → Regex
  seq alt : Regex → Regex → Regex
  -- `{lo,lo+extra}` and `{lo,}`
  between : (lo extra : ℕ) → Regex → Regex
  at_least : (lo : ℕ) → Regex → Regex
  -- `\b`, `^` and `$`
  word_edge from_start to_end : Regex

pub record Cursor : Type 0 where
  pub before : Option ℕ
  pub rest : List ℕ

unfoldable pub is_digit : ℕ → Bool
is_digit c = leb 48 c && leb c 57

-- `[A-Z]` and `[a-zA-Z]` under the flag `i`
unfoldable pub is_letter : ℕ → Bool
is_letter c = (leb 65 c && leb c 90) || (leb 97 c && leb c 122)

unfoldable pub is_word : ℕ → Bool
unfolding is_digit is_letter
is_word c = is_digit c || is_letter c || c == 95

abbrev word_before : Option ℕ → Bool
word_before none = false
word_before (some c) = is_word c

abbrev word_after : List ℕ → Bool
word_after [] = false
word_after (c ∷ _) = is_word c

abbrev differ : Bool → Bool → Bool
differ true b = not b
differ false b = b

step_one : (ℕ → Bool) → Cursor → List Cursor
step_one p c = elim c.rest [
  | [] ↦ []
  | u ∷ us ↦ if p u then record { before = some u; rest = us } ∷ [] else []
]

exactly : ℕ → (Cursor → List Cursor) → List Cursor → List Cursor
exactly zero f cs = cs
exactly (suc n) f cs = exactly n f (flat_map f cs)

up_to : ℕ → (Cursor → List Cursor) → List Cursor → List Cursor
up_to zero f cs = cs
up_to (suc n) f cs = cs ++ up_to n f (flat_map f cs)

keep_if : Bool → Cursor → List Cursor
keep_if true c = c ∷ []
keep_if false c = []

-- Every position at which a match from the cursor may end. A repetition of a nonempty expression
-- takes as many rounds at most as there are units left.
unfoldable pub ends : Regex → Cursor → List Cursor
unfolding step_one exactly up_to keep_if is_word flat_map
ends (one p) c = step_one p c
ends (seq r s) c = flat_map (ends s) (ends r c)
ends (alt r s) c = ends r c ++ ends s c
ends (between lo extra r) c = up_to extra (ends r) (exactly lo (ends r) (c ∷ []))
ends (at_least lo r) c = up_to (length c.rest) (ends r) (exactly lo (ends r) (c ∷ []))
ends word_edge c = keep_if (differ (word_before c.before) (word_after c.rest)) c
ends from_start c = elim c.before [ none ↦ c ∷ [] | some _ ↦ [] ]
ends to_end c = elim c.rest [ [] ↦ c ∷ [] | _ ∷ _ ↦ [] ]

non_empty_list : List Cursor → Bool
non_empty_list [] = false
non_empty_list (_ ∷ _) = true

unfoldable pub test_from : Regex → Option ℕ → List ℕ → Bool
unfolding ends non_empty_list
test_from r before [] = non_empty_list (ends r (record { before = before; rest = [] }))
test_from r before (u ∷ us) =
    non_empty_list (ends r (record { before = before; rest = u ∷ us })) || test_from r (some u) us

-- `regex.test(s)` on the units of `s`
unfoldable pub test : Regex → List ℕ → Bool
unfolding test_from
test r s = test_from r none s

test_from-one :
    (p : ℕ → Bool) (before : Option ℕ) (s : List ℕ) → test_from (one p) before s ≡ any p s
unfolding test_from
test_from-one p before [] = refl
test_from-one p before (u ∷ us) = ground (arith, test_from-one p (some u) us)

-- A class alone is found exactly where some unit is in it.
pub test-one : (p : ℕ → Bool) (s : List ℕ) → test (one p) s ≡ any p s
unfolding test
test-one p s = test_from-one p none s

-- A text of the source, letter by letter, without regard to case.
abbrev pub either_case : ℕ → ℕ → Bool
either_case u c = c == u || (leb 97 u && leb u 122 && c == u - 32)

abbrev pub literal : String → Regex → Regex
literal String.[] r = r
literal (String.◌∷◌ c s) r = seq (one (either_case (code c))) (literal s r)
