-- ===== src/Prelude/Trims.antt =====
-- Trimming twice is trimming once.
use Prim.Native.Char.{code}
use Prim.Native.String.{String, [], ◌∷◌}
use mathlib.Core.Path.{◌≡◌, refl}
use mathlib.Core.Logic.{inl, inr}
use mathlib.Core.Bool.{false, ◌&&◌}
use native.Mathlib.Omega.{arith}
use text.Mathlib.Text.{◌==◌ as str_eq}
use a2a_fun.Prelude.Tests.{Bool-cases}
use a2a_fun.Prelude.Text.{is_space, trim_start, trim_end, trim}

-- The text does not begin with white space.
abbrev IsSolid : String → Type 0
IsSolid [] = Unit {0}
IsSolid (c ∷ s) = is_space (code c) ≡ false

trim_start-IsSolid : (s : String) → IsSolid (trim_start s)
unfolding trim_start
trim_start-IsSolid [] = tt
trim_start-IsSolid (c ∷ s) = elim (Bool-cases (is_space (code c))) [
  | inl space ↦ rw space (trim_start-IsSolid s)
  | inr solid ↦ rw solid solid
]

trim_start_solid : (s : String) → IsSolid s → trim_start s ≡ s
unfolding trim_start
trim_start_solid [] h = refl
trim_start_solid (c ∷ s) h = ground (arith, h)

trim_end-IsSolid : (s : String) → IsSolid s → IsSolid (trim_end s)
unfolding trim_end
trim_end-IsSolid [] h = tt
trim_end-IsSolid (c ∷ s) h = rw h h

trim_end-trim_end : (s : String) → trim_end (trim_end s) ≡ trim_end s
unfolding trim_end
trim_end-trim_end [] = refl
trim_end-trim_end (c ∷ s) =
    let rest = trim_end-trim_end s in
    elim (Bool-cases (is_space (code c) && str_eq (trim_end s) "")) [
      | inl gone ↦ rw gone refl
      | inr kept ↦ rw (kept, rest, kept) refl
    ]

pub trim-trim : (s : String) → trim (trim s) ≡ trim s
unfolding trim
trim-trim s =
    let solid = trim_end-IsSolid (trim_start s) (trim_start-IsSolid s) in
    rw (trim_start_solid (trim_end (trim_start s)) solid, trim_end-trim_end (trim_start s)) refl
