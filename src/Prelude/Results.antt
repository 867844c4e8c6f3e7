-- ===== src/Prelude/Results.antt =====
-- Chains of steps that may fail, and what holds of their result.
use mathlib.Core.Path.{◌≡◌, refl, subst}
use mathlib.Core.Bool.{Bool, true, false}
use mathlib.Core.Option.{Option, none, some}
use distributed_image_proces.Prelude.Tests.{if◌then◌else◌}

infixl 5 ◌>>=◌
abbrev pub ◌>>=◌ {ℓ κ} : {A : Type ℓ} {B : Type κ} → Option A → (A → Option B) → Option B
none >>= f = none
some a >>= f = f a

-- If there is a result, it is as `P` says.
abbrev pub IfSome {ℓ κ} : {A : Type ℓ} → (A → Type κ) → Option A → Type κ
IfSome P none = Unit
IfSome P (some a) = P a

module _ {ℓ κ} {A : Type ℓ} where
  pub IfSome-bind {μ} :
      {B : Type κ} (P : B → Type μ) (m : Option A) (f : A → Option B)
      → ((a : A) → m ≡ some a → IfSome P (f a))
      → IfSome P (m >>= f)
  IfSome-bind P none f k = tt
  IfSome-bind P (some a) f k = k a refl

  pub IfSome-some : (P : A → Type κ) (m : Option A) (a : A) → IfSome P m → m ≡ some a → P a
  IfSome-some P m a h e = subst (IfSome P) e h

  pub IfSome-of : (P : A → Type κ) (m : Option A) → ((a : A) → m ≡ some a → P a) → IfSome P m
  IfSome-of P none f = tt
  IfSome-of P (some a) f = f a refl

-- A result that there is only under a test.
pub IfSome-if {ℓ κ} :
    {A : Type ℓ} (P : A → Type κ) (b : Bool) (a : A)
    → (b ≡ true → P a)
    → IfSome P (if b then some a else none)
IfSome-if P true a f = f refl
IfSome-if P false a f = tt

pub IfSome-mono {ℓ κ μ} :
    {A : Type ℓ} (P : A → Type κ) (Q : A → Type μ) (m : Option A)
    → ((a : A) → P a → Q a)
    → IfSome P m
    → IfSome Q m
IfSome-mono P Q none f h = tt
IfSome-mono P Q (some a) f h = f a h
