-- ===== src/Base/Prefix.antt =====
-- Lists that start alike.
use Prim.Native.Nat.{ℕ, zero, suc, ◌≤◌}
use mathlib.Core.Path.{◌≡◌, refl, sym, ap, ◌∙◌}
use mathlib.Core.List.{List, [], ◌∷◌, ◌++◌}
use native.Mathlib.Omega.{arith}
use marte2hieratika.Base.Lists.{length, take, drop, take-append-drop}
use marte2hieratika.Base.Memory.{take-append_length, drop-append_length}

pub take-append_short {ℓ} :
    {A : Type ℓ} (xs ys : List A) (n : ℕ) → n ≤ length xs → take n (xs ++ ys) ≡ take n xs
take-append_short xs ys zero h = refl
take-append_short [] ys (suc n) h = absurd (omega arith)
take-append_short (x ∷ xs) ys (suc n) h = ap (◌∷◌ x) (take-append_short xs ys n (omega arith))

pub drop-append_short {ℓ} :
    {A : Type ℓ} (xs ys : List A) (n : ℕ) → n ≤ length xs → drop n (xs ++ ys) ≡ drop n xs ++ ys
drop-append_short xs ys zero h = refl
drop-append_short [] ys (suc n) h = absurd (omega arith)
drop-append_short (x ∷ xs) ys (suc n) h = drop-append_short xs ys n (omega arith)

-- A list that starts with a shorter one.
pub split_prefix {ℓ} :
    {A : Type ℓ} (xs ys zs ws : List A)
    → xs ++ ys ≡ zs ++ ws
    → length zs ≤ length xs
    → (xs ≡ zs ++ drop (length zs) xs) × (drop (length zs) xs ++ ys ≡ ws)
split_prefix xs ys zs ws e h =
    let front : take (length zs) xs ≡ zs =
      sym (take-append_short xs ys (length zs) h)
      ∙ ap (take (length zs)) e
      ∙ take-append_length zs ws in
    (
      sym (take-append-drop (length zs) xs) ∙ ap (λ l. l ++ drop (length zs) xs) front,
      sym (drop-append_short xs ys (length zs) h)
          ∙ ap (drop (length zs)) e
          ∙ drop-append_length zs ws,
    )

pub split_partial {ℓ} :
    {A : Type ℓ} (xs ys zs ws : List A)
    → xs ++ ys ≡ zs ++ ws
    → length xs ≤ length zs
    → xs ≡ take (length xs) zs
split_partial xs ys zs ws e h =
    sym (take-append_length xs ys) ∙ ap (take (length xs)) e ∙ take-append_short zs ws (length xs) h
