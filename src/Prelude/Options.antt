-- ===== src/Prelude/Options.antt =====
-- Chains of partial results: the `?` of Rust on an `Option`.
use mathlib.Core.Path.{◌≡◌, refl}
use mathlib.Core.Option.{Option, none, some}

infixl 5 ◌>>=◌
abbrev pub ◌>>=◌ {κ μ} : {T : Type κ} {U : Type μ} → Option T → (T → Option U) → Option U
some value >>= next = next value
none >>= next = none

-- A chain that gives something has something at its first step.
pub >>=-eq-some {κ μ} :
    {T : Type κ} {U : Type μ} (first : Option T) (next : T → Option U) {u : U}
    → (first >>= next) ≡ some u
    → (t : T) × (first ≡ some t) × (next t ≡ some u)
>>=-eq-some none next e = cc
>>=-eq-some (some t) next e = (t, refl, e)

pub some-eq {ℓ} : {A : Type ℓ} {a b : A} → some a ≡ some b → a ≡ b
some-eq h = cc

pub none-ne {ℓ} : {A : Type ℓ} {a : A} → none ≡ some a → ⊥
none-ne h = cc
