-- ===== src/Marte/Order.antt =====
-- The order that `StringHelper::Compare` defines on names.
use marte2hieratika.Base.{◌≡◌, refl, sym, ◌≢◌, arith, ℕ_discrete}
use mathlib.Core.Path.{subst}
use marte2hieratika.Marte.{Text, StringHelper}

module _ (s : StringHelper) where
  open s use {compare, compare_range, compare_eq, compare_swap, compare_trans}

  -- `a` does not follow `b`.
  abbrev pub Le : Text → Text → Type 0
  Le a b = compare b a ≢ 1

  pub Le-refl : (a : Text) → Le a a
  Le-refl a h = omega (arith, (compare_eq a a).1 refl)

  pub Le_of_precedes : (a b : Text) → compare a b ≡ 1 → Le a b
  Le_of_precedes a b h k = omega (arith, (compare_swap a b).0 h)

  pub Le-trans : (a b c : Text) → Le a b → Le b c → Le a c
  Le-trans a b c h k e = elim (ℕ_discrete (compare b a) 0) [
    | yes z ↦ k (subst (λ x. compare c x ≡ 1) (sym ((compare_eq b a).0 z)) e)
    | no z ↦ k (compare_trans c a b e ((compare_swap a b).1 (omega (arith, compare_range b a))))
  ]
