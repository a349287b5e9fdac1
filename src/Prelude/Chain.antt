-- ===== src/Prelude/Chain.antt =====
-- Steps that can fail, one after the other.
use mathlib.Core.Path.{◌≡◌, refl}
use mathlib.Core.Logic.{◌⊎◌, inl, inr}
use mathlib.Core.Option.{Option, none, some}

infixl 5 ◌>>=◌
abbrev pub ◌>>=◌ {ℓ κ} : {A : Type ℓ} {B : Type κ} → Option A → (A → Option B) → Option B
none >>= f = none
some a >>= f = f a

-- A step that succeeds did its first half and then its second.
pub bind_some {ℓ κ} :
    {A : Type ℓ} {B : Type κ}
    → (o : Option A) (f : A → Option B) (b : B) → (o >>= f) ≡ some b
    → (a : A) × (o ≡ some a) × (f a ≡ some b)
bind_some none f b h = cc h
bind_some (some a) f b h = (a, refl, h)

pub bind_ap {ℓ κ} :
    {A : Type ℓ} {B : Type κ}
    → (o : Option A) (f g : A → Option B) → ((a : A) → f a ≡ g a)
    → (o >>= f) ≡ (o >>= g)
bind_ap none f g h = refl
bind_ap (some a) f g h = h a

pub bind_none {ℓ κ} :
    {A : Type ℓ} {B : Type κ}
    → (o : Option A) (f : A → B) → (o >>= (λ a. some (f a))) ≡ none
    → o ≡ none
bind_none none f h = refl
bind_none (some a) f h = cc h

-- A split on a computed option that keeps the equation.
pub Option-cases {ℓ} : {A : Type ℓ} → (o : Option A) → (o ≡ none) ⊎ ((a : A) × (o ≡ some a))
Option-cases none = inl refl
Option-cases (some a) = inr (a, refl)

pub bind_to_none {ℓ κ} :
    {A : Type ℓ} {B : Type κ} → (o : Option A) → ◌>>=◌ {B = B} o (λ _. none) ≡ none
bind_to_none none = refl
bind_to_none (some a) = refl
