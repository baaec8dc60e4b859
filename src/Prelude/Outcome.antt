-- ===== src/Prelude/Outcome.antt =====
-- What a Python call that may raise gives: a value or an exception, seen as its class name and message.
use Prim.Native.Nat.{ℕ}
use Prim.Native.String.{String}
use mathlib.Core.Option.{Option, none, some}
use mathlib.Core.List.{List, [], ◌∷◌}
use mathlib.Core.Path.{◌≡◌, refl}
use native.Mathlib.Omega.{arith}
use mathlib.Core.Logic.{◌⊎◌, inl, inr}

pub record Exception : Type 0 where
  pub type_name : String
  pub message : List ℕ

pub data Outcome {ℓ} (A : Type ℓ) : Type ℓ where
  returned : A → Outcome A
  raised : Exception → Outcome A

infixl 5 ◌>>=◌ ◌>>◌
abbrev pub ◌>>=◌ {ℓ κ} : {A : Type ℓ} {B : Type κ} → Outcome A → (A → Outcome B) → Outcome B
returned a >>= f = f a
raised e >>= f = raised e

abbrev pub ◌>>◌ {ℓ} : {B : Type ℓ} → Outcome (Unit {0}) → Outcome B → Outcome B
m >> k = m >>= λ _. k

pub Outcome-cases {ℓ} :
    {A : Type ℓ} (o : Outcome A) → ((a : A) × (o ≡ returned a)) ⊎ ((e : Exception) × (o ≡ raised e))
Outcome-cases (returned a) = inl (a, refl)
Outcome-cases (raised e) = inr (e, refl)

-- `[f(x) for x in xs]`, where `f` may raise.
unfoldable pub map_outcome {ℓ κ} :
    {A : Type ℓ} {B : Type κ} → (A → Outcome B) → List A → Outcome (List B)
map_outcome f [] = returned []
map_outcome f (x ∷ xs) = do y ← f x; ys ← map_outcome f xs; returned (y ∷ ys)

-- `f(x) if x is not None else None`
unfoldable pub optional {ℓ κ} :
    {A : Type ℓ} {B : Type κ} → (A → Outcome B) → Option A → Outcome (Option B)
optional f none = returned none
optional f (some a) = do b ← f a; returned (some b)

-- What an optional call that gave a value started from.
pub optional-eq-returned {ℓ κ} :
    {A : Type ℓ} {B : Type κ} (f : A → Outcome B) (o : Option A) {b : B}
    → optional f o ≡ returned (some b)
    → (a : A) × (o ≡ some a) × (f a ≡ returned b)
unfolding optional
optional-eq-returned f none h = absurd (ground (arith, h))
optional-eq-returned f (some a) h = (a, refl, ground arith)

-- Inversion of a bind that gave a value.
pub >>=-eq-returned {ℓ κ} :
    {A : Type ℓ} {B : Type κ} (m : Outcome A) (f : A → Outcome B) {b : B}
    → (m >>= f) ≡ returned b
    → (a : A) × (m ≡ returned a) × (f a ≡ returned b)
>>=-eq-returned (returned a) f h = (a, refl, h)
>>=-eq-returned (raised e) f h = cc

pub returned-injective {ℓ} : {A : Type ℓ} {a b : A} → returned a ≡ returned b → a ≡ b
returned-injective h = ground arith

abbrev pub IsRaised {ℓ} : {A : Type ℓ} → Outcome A → Type 0
IsRaised (returned a) = ⊥
IsRaised (raised e) = Unit
