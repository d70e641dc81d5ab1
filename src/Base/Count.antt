-- ===== src/Base/Count.antt =====
-- How often a number stands in a list, and the weights of its entries, and the effect of writing an
-- entry.
use marte2hieratika.Base.Tests.{◌==◌, if◌then◌else◌}
use marte2hieratika.Base.Lists.{length, get_or, get_elem?, set}
use Prim.Native.Nat.{ℕ, zero, suc, ◌+◌, ◌≤◌, ◌<◌}
use mathlib.Core.Path.{◌≡◌, ap}
use mathlib.Core.Option.{some}
use mathlib.Core.List.{List, [], ◌∷◌}
use native.Mathlib.Omega.{arith}

abbrev pub hits : ℕ → ℕ → ℕ
hits a x = if x == a then 1 else 0

abbrev pub count : ℕ → List ℕ → ℕ
count a [] = 0
count a (x ∷ xs) = hits a x + count a xs

pub count-set :
    (a : ℕ) (xs : List ℕ) (i v : ℕ)
    → i < length xs
    → count a (set xs i v) + hits a (get_or xs i 0) ≡ count a xs + hits a v
count-set a [] i v h = elim h [ ]
count-set a (x ∷ xs) zero v h = omega arith
count-set a (x ∷ xs) (suc i) v h = omega (arith, count-set a xs i v (omega arith))

module _ {ℓ} {A : Type ℓ} (w : A → ℕ) where
  -- The weights of the entries, added up.
  abbrev pub tally : List A → ℕ
  tally [] = 0
  tally (x ∷ xs) = w x + tally xs

  pub tally-set :
      (xs : List A) (i : ℕ) (a v : A)
      → get_elem? xs i ≡ some a
      → tally (set xs i v) + w a ≡ tally xs + w v
  tally-set [] i a v e = cc
  tally-set (x ∷ xs) zero a v e = let same : x ≡ a = cc in omega (arith, ap w same)
  tally-set (x ∷ xs) (suc i) a v e = omega (arith, tally-set xs i a v e)

  pub tally-le-length : ((a : A) → w a ≤ 1) → (xs : List A) → tally xs ≤ length xs
  tally-le-length small [] = omega arith
  tally-le-length small (x ∷ xs) = omega (arith, small x, tally-le-length small xs)

  -- An entry without a weight.
  pub tally-lt-length :
      ((a : A) → w a ≤ 1)
      → (xs : List A) (i : ℕ) (a : A) → get_elem? xs i ≡ some a
      → w a ≡ 0
      → tally xs < length xs
  tally-lt-length small [] i a e h = cc
  tally-lt-length small (x ∷ xs) zero a e h =
      let same : x ≡ a = cc in omega (arith, ap w same, tally-le-length small xs)
  tally-lt-length small (x ∷ xs) (suc i) a e h =
      omega (arith, small x, tally-lt-length small xs i a e h)
