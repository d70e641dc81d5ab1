-- ===== src/Marte/Plain.antt =====
-- A concrete StringHelper: lexicographic comparison by character. It shows that the documented
-- behaviour can be met, and lets the models run on concrete inputs.
use marte2hieratika.Base.{
  ℕ, ◌≤◌, ◌<◌, length, ◌≡◌, refl, subst, ◌≢◌, ◌↔◌, [], ◌∷◌, ◌++◌, arith, take, ltb, ◌==◌,
  if◌then◌else◌,
}
use marte2hieratika.Marte.{Text, Lacks, StringHelper}

unfoldable pub compare_text : Text → Text → ℕ
compare_text [] [] = 0
compare_text [] (y ∷ ys) = 1
compare_text (x ∷ xs) [] = 2
compare_text (x ∷ xs) (y ∷ ys) =
    let rest = compare_text xs ys in if ltb x y then 1 else if ltb y x then 2 else rest

pub compare_text_range : (a b : Text) → compare_text a b < 3
unfolding compare_text
compare_text_range [] [] = omega arith
compare_text_range [] (y ∷ ys) = omega arith
compare_text_range (x ∷ xs) [] = omega arith
compare_text_range (x ∷ xs) (y ∷ ys) = ground (arith, compare_text_range xs ys)

compare_text_refl : (a : Text) → compare_text a a ≡ 0
unfolding compare_text
compare_text_refl [] = refl
compare_text_refl (x ∷ xs) = ground (arith, compare_text_refl xs)

compare_text_sound : (a b : Text) → compare_text a b ≡ 0 → a ≡ b
unfolding compare_text
compare_text_sound [] [] h = refl
compare_text_sound [] (y ∷ ys) h = absurd (omega arith)
compare_text_sound (x ∷ xs) [] h = absurd (omega arith)
compare_text_sound (x ∷ xs) (y ∷ ys) h = ground (arith, compare_text_sound xs ys)

pub compare_text_swap : (a b : Text) → compare_text a b ≡ 1 → compare_text b a ≡ 2
unfolding compare_text
compare_text_swap [] [] h = absurd (omega arith)
compare_text_swap [] (y ∷ ys) h = refl
compare_text_swap (x ∷ xs) [] h = absurd (omega arith)
compare_text_swap (x ∷ xs) (y ∷ ys) h = ground (arith, compare_text_swap xs ys)

pub compare_text_swap_back : (a b : Text) → compare_text b a ≡ 2 → compare_text a b ≡ 1
unfolding compare_text
compare_text_swap_back [] [] h = absurd (omega arith)
compare_text_swap_back [] (y ∷ ys) h = refl
compare_text_swap_back (x ∷ xs) [] h = absurd (omega arith)
compare_text_swap_back (x ∷ xs) (y ∷ ys) h = ground (arith, compare_text_swap_back xs ys)

pub compare_text_trans :
    (a b c : Text) → compare_text a b ≡ 1 → compare_text b c ≡ 1 → compare_text a c ≡ 1
unfolding compare_text
compare_text_trans [] [] c h k = absurd (omega arith)
compare_text_trans [] (y ∷ ys) [] h k = absurd (omega arith)
compare_text_trans [] (y ∷ ys) (z ∷ zs) h k = refl
compare_text_trans (x ∷ xs) [] c h k = absurd (omega arith)
compare_text_trans (x ∷ xs) (y ∷ ys) [] h k = absurd (omega arith)
compare_text_trans (x ∷ xs) (y ∷ ys) (z ∷ zs) h k = ground (arith, compare_text_trans xs ys zs)

unfoldable pub compare_text_n : Text → Text → ℕ → ℕ
compare_text_n a b n = compare_text (take n a) (take n b)

pub compare_text_eq : (a b : Text) → (compare_text a b ≡ 0) ↔ (a ≡ b)
compare_text_eq a b =
    (compare_text_sound a b, λ e. subst (λ c. compare_text a c ≡ 0) e (compare_text_refl a))

pub compare_text_n_eq : (a b : Text) (n : ℕ) → (compare_text_n a b n ≡ 0) ↔ (take n a ≡ take n b)
unfolding compare_text_n
compare_text_n_eq a b n = compare_text_eq (take n a) (take n b)

unfoldable pub split_token : Text → ℕ → Text × ℕ
split_token [] t = ([], 0)
split_token (x ∷ xs) t = let r = split_token xs t in if x == t then ([], t) else (x ∷ r.0, r.1)

pub split_token_none : (a : Text) (t : ℕ) → t ≢ 0 → Lacks t a → (split_token a t).1 ≢ t
unfolding split_token
split_token_none [] t h l = λ e. h (omega arith)
split_token_none (x ∷ xs) t h l = ground (arith, split_token_none xs t h l.1, l.0)

pub split_token_some : (a b : Text) (t : ℕ) → Lacks t a → split_token (a ++ (t ∷ b)) t ≡ (a, t)
unfolding split_token
split_token_some [] b t l = ground arith
split_token_some (x ∷ xs) b t l = ground (arith, split_token_some xs b t l.1, l.0)

pub length-split_token : (a : Text) (t : ℕ) → length (split_token a t).0 ≤ length a
unfolding split_token
length-split_token [] t = omega arith
length-split_token (x ∷ xs) t = ground (arith, length-split_token xs t)

abbrev pub plain : StringHelper
plain = record {
  compare = compare_text;
  compare_range = compare_text_range;
  compare_eq = compare_text_eq;
  compare_swap = λ a b. (compare_text_swap a b, compare_text_swap_back a b);
  compare_trans = compare_text_trans;
  compare_n = compare_text_n;
  compare_n_eq = compare_text_n_eq;
  get_token = split_token;
  get_token_none = split_token_none;
  get_token_some = λ a b t ne l. split_token_some a b t l;
  length-get_token = length-split_token;
}
