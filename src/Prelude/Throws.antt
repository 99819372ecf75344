-- ===== src/Prelude/Throws.antt =====
-- A function that may throw returns an `Outcome`: a value, or the error that was thrown.
use mathlib.Core.Bool.{Bool, true, false}
use mathlib.Core.Path.{◌≡◌, refl, ap}
use mathlib.Core.Logic.{◌⊎◌, inl, inr}

pub data Outcome (E A : Type 0) : Type 0 where
  ok : A → Outcome E A
  throw : E → Outcome E A

module _ {E A B : Type 0} where
  infixl 5 ◌>>=◌
  abbrev pub ◌>>=◌ : Outcome E A → (A → Outcome E B) → Outcome E B
  ok a >>= f = f a
  throw e >>= f = throw e

module _ {E B : Type 0} where
  infixl 5 ◌>>◌
  abbrev pub ◌>>◌ : Outcome E (Unit {0}) → Outcome E B → Outcome E B
  m >> k = m >>= λ _. k

-- `if (!b) throw e;`
abbrev pub require : {E : Type 0} → Bool → E → Outcome E (Unit {0})
require true e = ok tt
require false e = throw e

pub Outcome-cases :
    {E A : Type 0} (m : Outcome E A) → ((a : A) × (m ≡ ok a)) ⊎ ((e : E) × (m ≡ throw e))
Outcome-cases (ok a) = inl (a, refl)
Outcome-cases (throw e) = inr (e, refl)

-- What a successful bind has done.
pub bind-eq-ok :
    {E A B : Type 0} (m : Outcome E A) (f : A → Outcome E B) {b : B}
    → (m >>= f) ≡ ok b
    → (a : A) × (m ≡ ok a) × (f a ≡ ok b)
bind-eq-ok (ok a) f e = (a, refl, e)
bind-eq-ok (throw x) f e = cc

value_or : {E A : Type 0} → A → Outcome E A → A
value_or a (ok b) = b
value_or a (throw e) = a

pub ok-injective : {E A : Type 0} {a b : A} → ◌≡◌ {A = Outcome E A} (ok a) (ok b) → a ≡ b
unfolding value_or
ok-injective {a = a} e = ap (value_or a) e

-- A guard that has let a value through.
pub require-eq-ok :
    {E B : Type 0} (b : Bool) (e : E) (k : Outcome E B) {x : B}
    → (require b e >> k) ≡ ok x
    → (b ≡ true) × (k ≡ ok x)
require-eq-ok true e k h = (refl, h)
require-eq-ok false e k h = cc
