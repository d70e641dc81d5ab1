-- ===== src/Base/Partial.antt =====
-- Results that may be missing: steps one after another, and a property of the result where there is
-- one.
use mathlib.Core.Path.{◌≡◌, refl}
use mathlib.Core.Bool.{Bool, true, false}
use mathlib.Core.Option.{Option, none, some}
use marte2hieratika.Base.Tests.{if◌then◌else◌}

infixl 1 ◌>>=◌
abbrev pub ◌>>=◌ {ℓ κ} : {A : Type ℓ} {B : Type κ} → Option A → (A → Option B) → Option B
none >>= f = none
some a >>= f = f a

abbrev pub WhereSome {ℓ κ} : {A : Type ℓ} → (A → Type κ) → Option A → Type κ
WhereSome P none = Unit
WhereSome P (some a) = P a

module _ {ℓ κ} {A : Type ℓ} (P : A → Type κ) where
  pub if-WhereSome :
      (b : Bool) (a : A) → (b ≡ true → P a) → WhereSome P (if b then some a else none)
  if-WhereSome true a h = h refl
  if-WhereSome false a h = tt

  pub bind-WhereSome {μ} :
      {B : Type μ} (o : Option B) (f : B → Option A)
      → ((b : B) → o ≡ some b → WhereSome P (f b))
      → WhereSome P (o >>= f)
  bind-WhereSome none f h = tt
  bind-WhereSome (some b) f h = h b refl
