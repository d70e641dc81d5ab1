-- ===== src/Base/Memory.antt =====
-- Buffers of bytes as lists: `MemoryOperationsHelper::Copy` (memcpy), the bytes of a region, and
-- `MemoryOperationsHelper::Compare` (memcmp) used as a test. A write past the end changes nothing
-- there.
use Prim.Native.Nat.{ℕ, zero, suc, ◌+◌, ◌≤◌}
use mathlib.Core.Path.{◌≡◌, refl, ap, subst, sym, ◌∙◌}
use mathlib.Core.Logic.{◌⊎◌, inl, inr, ◌↔◌}
use mathlib.Core.Bool.{Bool, true, false, ◌&&◌}
use mathlib.Core.List.{List, [], ◌∷◌, ◌++◌}
use native.Mathlib.Omega.{arith}
use marte2hieratika.Base.Lists.{length, take, drop}
use marte2hieratika.Base.Tests.{◌==◌}

module _ {ℓ} {A : Type ℓ} where
  -- `Copy(dest + offset, bytes, length bytes)`.
  unfoldable pub copy_into : List A → ℕ → List A → List A
  copy_into [] o bs = []
  copy_into (x ∷ xs) zero [] = x ∷ xs
  copy_into (x ∷ xs) zero (b ∷ bs) = b ∷ copy_into xs zero bs
  copy_into (x ∷ xs) (suc o) bs = x ∷ copy_into xs o bs

  -- The `n` bytes from `offset` on.
  abbrev pub slice : List A → ℕ → ℕ → List A
  slice mem offset n = take n (drop offset mem)

  pub length-copy_into :
      (xs : List A) (o : ℕ) (bs : List A) → length (copy_into xs o bs) ≡ length xs
  unfolding copy_into
  length-copy_into [] o bs = refl
  length-copy_into (x ∷ xs) zero [] = refl
  length-copy_into (x ∷ xs) zero (b ∷ bs) = ap suc (length-copy_into xs zero bs)
  length-copy_into (x ∷ xs) (suc o) bs = ap suc (length-copy_into xs o bs)

  -- What was copied is what the region then holds.
  pub slice-copy_into_self :
      (xs : List A) (o : ℕ) (bs : List A)
      → o + length bs ≤ length xs
      → slice (copy_into xs o bs) o (length bs) ≡ bs
  unfolding copy_into
  slice-copy_into_self [] zero [] h = refl
  slice-copy_into_self [] (suc o) [] h = refl
  slice-copy_into_self [] o (b ∷ bs) h = absurd (omega arith)
  slice-copy_into_self (x ∷ xs) zero [] h = refl
  slice-copy_into_self (x ∷ xs) zero (b ∷ bs) h =
      ap (◌∷◌ b) (slice-copy_into_self xs zero bs (omega arith))
  slice-copy_into_self (x ∷ xs) (suc o) bs h = slice-copy_into_self xs o bs (omega arith)

  -- A copy over the whole buffer.
  pub copy_over : (xs bs : List A) → length bs ≡ length xs → copy_into xs 0 bs ≡ bs
  unfolding copy_into
  copy_over [] [] h = refl
  copy_over [] (b ∷ bs) h = absurd (omega arith)
  copy_over (x ∷ xs) [] h = absurd (omega arith)
  copy_over (x ∷ xs) (b ∷ bs) h = ap (◌∷◌ b) (copy_over xs bs (omega arith))

  pub take-length : (xs : List A) → take (length xs) xs ≡ xs
  take-length [] = refl
  take-length (x ∷ xs) = ap (◌∷◌ x) (take-length xs)

  take-copy_into_above :
      (xs : List A) (o : ℕ) (bs : List A) (n : ℕ) → n ≤ o → take n (copy_into xs o bs) ≡ take n xs
  unfolding copy_into
  take-copy_into_above xs o bs zero h = refl
  take-copy_into_above [] o bs (suc n) h = refl
  take-copy_into_above (x ∷ xs) zero bs (suc n) h = absurd (omega arith)
  take-copy_into_above (x ∷ xs) (suc o) bs (suc n) h =
      ap (◌∷◌ x) (take-copy_into_above xs o bs n (omega arith))

  drop-copy_into_below :
      (xs : List A) (o : ℕ) (bs : List A) (p : ℕ)
      → o + length bs ≤ p
      → drop p (copy_into xs o bs) ≡ drop p xs
  unfolding copy_into
  drop-copy_into_below [] o bs p h = refl
  drop-copy_into_below (x ∷ xs) zero [] p h = refl
  drop-copy_into_below (x ∷ xs) zero (b ∷ bs) zero h = absurd (omega arith)
  drop-copy_into_below (x ∷ xs) zero (b ∷ bs) (suc p) h =
      drop-copy_into_below xs zero bs p (omega arith)
  drop-copy_into_below (x ∷ xs) (suc o) bs zero h = absurd (omega arith)
  drop-copy_into_below (x ∷ xs) (suc o) bs (suc p) h = drop-copy_into_below xs o bs p (omega arith)

  slice-copy_into_above :
      (xs : List A) (o : ℕ) (bs : List A) (p n : ℕ)
      → p + n ≤ o
      → slice (copy_into xs o bs) p n ≡ slice xs p n
  unfolding copy_into
  slice-copy_into_above xs o bs zero n h = take-copy_into_above xs o bs n (omega arith)
  slice-copy_into_above [] o bs (suc p) n h = refl
  slice-copy_into_above (x ∷ xs) zero bs (suc p) n h = absurd (omega arith)
  slice-copy_into_above (x ∷ xs) (suc o) bs (suc p) n h =
      slice-copy_into_above xs o bs p n (omega arith)

  -- A region apart from the one written keeps its bytes.
  pub slice-copy_into_apart :
      (xs : List A) (o : ℕ) (bs : List A) (p n : ℕ)
      → (p + n ≤ o) ⊎ (o + length bs ≤ p)
      → slice (copy_into xs o bs) p n ≡ slice xs p n
  slice-copy_into_apart xs o bs p n (inl h) = slice-copy_into_above xs o bs p n h
  slice-copy_into_apart xs o bs p n (inr h) = ap (take n) (drop-copy_into_below xs o bs p h)

  pub take-append_length : (xs ys : List A) → take (length xs) (xs ++ ys) ≡ xs
  take-append_length [] ys = refl
  take-append_length (x ∷ xs) ys = ap (◌∷◌ x) (take-append_length xs ys)

  pub drop-append_length : (xs ys : List A) → drop (length xs) (xs ++ ys) ≡ ys
  drop-append_length [] ys = refl
  drop-append_length (x ∷ xs) ys = drop-append_length xs ys

  pub drop-nil : (n : ℕ) → drop {A = A} n [] ≡ []
  drop-nil zero = refl
  drop-nil (suc n) = refl

  pub drop-add : (m n : ℕ) (xs : List A) → drop (m + n) xs ≡ drop n (drop m xs)
  drop-add zero n xs = ap (λ k. drop k xs) (omega arith)
  drop-add (suc m) n [] = drop-nil (suc m + n) ∙ sym (drop-nil n)
  drop-add (suc m) n (x ∷ xs) =
      let e : suc m + n ≡ suc (m + n) = omega arith in rw e (drop-add m n xs)

module _ {ℓ} {A : Type ℓ} where
  take-nil : (n : ℕ) → take {A = A} n [] ≡ []
  take-nil zero = refl
  take-nil (suc n) = refl

  take-add : (a b : ℕ) (xs : List A) → take (a + b) xs ≡ take a xs ++ take b (drop a xs)
  take-add zero b xs = let e : 0 + b ≡ b = omega arith in rw e refl
  take-add (suc a) b [] = take-nil (suc a + b) ∙ sym (take-nil b)
  take-add (suc a) b (x ∷ xs) =
      let e : suc a + b ≡ suc (a + b) = omega arith in rw e (ap (◌∷◌ x) (take-add a b xs))

  -- A region in two parts.
  pub slice-add :
      (xs : List A) (o a b : ℕ) → slice xs o (a + b) ≡ slice xs o a ++ slice xs (o + a) b
  slice-add xs o a b =
      take-add a b (drop o xs) ∙ ap (λ ys. slice xs o a ++ take b ys) (sym (drop-add o a xs))

-- `Compare(a, b, n) == 0` on regions of the same size.
unfoldable pub same_bytes : List ℕ → List ℕ → Bool
same_bytes [] [] = true
same_bytes [] (b ∷ bs) = false
same_bytes (a ∷ xs) [] = false
same_bytes (a ∷ xs) (b ∷ bs) = a == b && same_bytes xs bs

same_bytes_sound : (xs ys : List ℕ) → same_bytes xs ys ≡ true → xs ≡ ys
unfolding same_bytes
same_bytes_sound [] [] h = refl
same_bytes_sound [] (b ∷ bs) h = cc
same_bytes_sound (a ∷ xs) [] h = cc
same_bytes_sound (a ∷ xs) (b ∷ bs) h = ground (arith, same_bytes_sound xs bs)

same_bytes_refl : (xs : List ℕ) → same_bytes xs xs ≡ true
unfolding same_bytes
same_bytes_refl [] = refl
same_bytes_refl (a ∷ xs) = ground (arith, same_bytes_refl xs)

pub same_bytes_iff : (xs ys : List ℕ) → (same_bytes xs ys ≡ true) ↔ (xs ≡ ys)
same_bytes_iff xs ys =
    (same_bytes_sound xs ys, λ e. subst (λ z. same_bytes xs z ≡ true) e (same_bytes_refl xs))
