-- ===== src/Base/Sums.antt =====
-- Sums over the first indices, and how often each index stands in a list.
use marte2hieratika.Base.Lists.{length}
use marte2hieratika.Base.Count.{count, hits}
use Prim.Native.Nat.{ℕ, zero, suc, ◌+◌, ◌≤◌, ◌<◌}
use mathlib.Core.Path.{◌≡◌, refl}
use mathlib.Core.List.{List, [], ◌∷◌, ◌++◌}
use native.Mathlib.Omega.{arith}
use native.Mathlib.Decide.{dec_lt}

abbrev pub sum_to : ℕ → (ℕ → ℕ) → ℕ
sum_to zero c = 0
sum_to (suc n) c = sum_to n c + c n

abbrev pub AllBelow : ℕ → List ℕ → Type 0
AllBelow n [] = Unit {0}
AllBelow n (x ∷ xs) = (x < n) × AllBelow n xs

pub append-AllBelow :
    (n : ℕ) (xs ys : List ℕ) → AllBelow n xs → AllBelow n ys → AllBelow n (xs ++ ys)
append-AllBelow n [] ys h k = k
append-AllBelow n (x ∷ xs) ys h k = (h.0, append-AllBelow n xs ys h.1 k)

pub count-append :
    (before after : List ℕ) (k : ℕ) → count k (before ++ after) ≡ count k after + count k before
count-append [] after k = omega arith
count-append (j ∷ before) after k = let ih = count-append before after k in omega (arith, ih)

pub sum_to-add : (n : ℕ) (a b : ℕ → ℕ) → sum_to n (λ k. a k + b k) ≡ sum_to n a + sum_to n b
sum_to-add zero a b = refl
sum_to-add (suc n) a b = omega (arith, sum_to-add n a b)

sum_to_none : (n k : ℕ) → n ≤ k → sum_to n (λ j. hits j k) ≡ 0
sum_to_none zero k h = refl
sum_to_none (suc n) k h = ground (arith, sum_to_none n k)

pub sum_to-hits : (n k : ℕ) → k < n → sum_to n (λ j. hits j k) ≡ 1
sum_to-hits zero k h = absurd (omega arith)
sum_to-hits (suc n) k h = elim (dec_lt k n) [
  | yes lt ↦ ground (arith, sum_to-hits n k lt)
  | no ge ↦ ground (arith, sum_to_none n k)
]

pub sum_to-zero : (n : ℕ) → sum_to n (λ j. 0) ≡ 0
sum_to-zero zero = refl
sum_to-zero (suc n) = omega (arith, sum_to-zero n)

pub sum_to-count : (n : ℕ) (xs : List ℕ) → AllBelow n xs → sum_to n (λ j. count j xs) ≡ length xs
sum_to-count n [] h = sum_to-zero n
sum_to-count n (x ∷ xs) h = omega (
  arith,
  sum_to-add n (λ j. hits j x) (λ j. count j xs),
  sum_to-hits n x h.0,
  sum_to-count n xs h.1,
)

pub sum_to-le : (n : ℕ) (c : ℕ → ℕ) → ((k : ℕ) → k < n → c k ≤ 1) → sum_to n c ≤ n
sum_to-le zero c h = omega arith
sum_to-le (suc n) c h = omega (arith, h n (omega arith), sum_to-le n c (λ k lt. h k (omega arith)))
