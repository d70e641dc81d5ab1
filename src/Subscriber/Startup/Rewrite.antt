-- ===== src/Subscriber/Startup/Rewrite.antt =====
-- A region of a list that is written twice, each time with what it held.
use marte2hieratika.Base.{
  ℕ, suc, ◌+◌, ◌≤◌, ◌≡◌, ◌⊎◌, refl, ap, sym, subst, ◌∙◌, List, [], ◌∷◌, length, drop, slice,
  copy_into, length-copy_into, slice-copy_into_self, slice-copy_into_apart, length-take,
  length-drop, arith,
}
use marte2hieratika.Subscriber.{PvDescriptor}
use marte2hieratika.Subscriber.Memory.{place}

pub length-place : (pvs : List PvDescriptor) (start : ℕ) → length (place pvs start) ≡ length pvs
unfolding place
length-place [] start = refl
length-place (pv ∷ pvs) start = ap suc (length-place pvs _)

module _ {ℓ} {A : Type ℓ} where
  pub length-slice : (xs : List A) (o n : ℕ) → o + n ≤ length xs → length (slice xs o n) ≡ n
  length-slice xs o n h = omega (arith, length-take n (drop o xs), length-drop o xs)

module _ {ℓ} {A : Type ℓ} (f g : List A → List A)
    (f_size : (xs : List A) → length (f xs) ≡ length xs)
    (g_size : (xs : List A) → length (g xs) ≡ length xs) where
  -- A region that is written twice, each time with what it held.
  abbrev pub rewrite_region : List A → ℕ → ℕ → List A
  rewrite_region xs o n =
      let ys = copy_into xs o (f (slice xs o n)) in copy_into ys o (g (slice ys o n))

  module _ (xs : List A) (o n : ℕ) (h : o + n ≤ length xs) where
    pub first_size : length (f (slice xs o n)) ≡ n
    first_size = f_size (slice xs o n) ∙ length-slice xs o n h

    pub first_copy : slice (copy_into xs o (f (slice xs o n))) o n ≡ f (slice xs o n)
    first_copy =
        let back = slice-copy_into_self xs o (f (slice xs o n)) (omega (arith, h, first_size)) in
        ap (λ m. slice (copy_into xs o (f (slice xs o n))) o m) (sym first_size) ∙ back

    second_size : length (g (f (slice xs o n))) ≡ n
    second_size = g_size (f (slice xs o n)) ∙ first_size

    pub slice-rewrite_region : slice (rewrite_region xs o n) o n ≡ g (f (slice xs o n))
    slice-rewrite_region =
        let ys = copy_into xs o (f (slice xs o n)) in
        let all = length-copy_into xs o (f (slice xs o n)) in
        let back =
          slice-copy_into_self ys o (g (f (slice xs o n))) (omega (arith, h, all, second_size)) in
        ap (λ zs. slice (copy_into ys o (g zs)) o n) first_copy
        ∙ ap (λ m. slice (copy_into ys o (g (f (slice xs o n)))) o m) (sym second_size)
        ∙ back

    pub rewrite_region-apart :
        (p m : ℕ) → (p + m ≤ o) ⊎ (o + n ≤ p) → slice (rewrite_region xs o n) p m ≡ slice xs p m
    rewrite_region-apart p m apart =
        let ys = copy_into xs o (f (slice xs o n)) in
        let size = g_size (slice ys o n) in
        let same : length (slice ys o n) ≡ n = ap length first_copy ∙ first_size in
        let one : (p + m ≤ o) ⊎ (o + length (f (slice xs o n)) ≤ p) =
          subst (λ k. (p + m ≤ o) ⊎ (o + k ≤ p)) (sym first_size) apart in
        let two : (p + m ≤ o) ⊎ (o + length (g (slice ys o n)) ≤ p) =
          subst (λ k. (p + m ≤ o) ⊎ (o + k ≤ p)) (sym (size ∙ same)) apart in
        slice-copy_into_apart ys o (g (slice ys o n)) p m two
        ∙ slice-copy_into_apart xs o (f (slice xs o n)) p m one

  pub length-rewrite_region : (xs : List A) (o n : ℕ) → length (rewrite_region xs o n) ≡ length xs
  length-rewrite_region xs o n =
      let ys = copy_into xs o (f (slice xs o n)) in
      length-copy_into ys o (g (slice ys o n)) ∙ length-copy_into xs o (f (slice xs o n))
