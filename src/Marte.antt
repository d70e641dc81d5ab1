-- ===== src/Marte.antt =====
-- What the modelled code takes from the MARTe framework, whose sources are not in the repository:
-- the string functions of StringHelper and StreamString, as an interface of operations with their
-- documented behaviour. A text is the list of its characters.
pub mod Cpus
pub mod Plain
pub mod Order
pub mod Socket
pub mod Stream
use marte2hieratika.Base.{ℕ, ◌≤◌, ◌<◌, length, ◌≡◌, ◌≢◌, ◌↔◌, List, [], ◌∷◌, ◌++◌, take}

abbrev pub Text : Type 0
Text = List ℕ

-- No character of the text is `c`.
abbrev pub Lacks : ℕ → Text → Type 0
Lacks c [] = Unit {0}
Lacks c (x ∷ xs) = (x ≢ c) × Lacks c xs

pub record StringHelper : Type 0 where
  -- `StringHelper::Compare`: 0 for equal texts, 1 if the first precedes, 2 if it follows.
  pub compare : Text → Text → ℕ
  pub compare_range : (a b : Text) → compare a b < 3
  pub compare_eq : (a b : Text) → (compare a b ≡ 0) ↔ (a ≡ b)
  pub compare_swap : (a b : Text) → (compare a b ≡ 1) ↔ (compare b a ≡ 2)
  pub compare_trans : (a b c : Text) → compare a b ≡ 1 → compare b c ≡ 1 → compare a c ≡ 1
  -- `StringHelper::CompareN`: 0 if the first `n` characters agree.
  pub compare_n : Text → Text → ℕ → ℕ
  pub compare_n_eq : (a b : Text) (n : ℕ) → (compare_n a b n ≡ 0) ↔ (take n a ≡ take n b)
  -- `StreamString::GetToken` with one terminator, from position 0: the token and the terminator
  -- that ended it (another character where the text ended first).
  pub get_token : Text → ℕ → Text × ℕ
  pub get_token_none : (a : Text) (t : ℕ) → t ≢ 0 → Lacks t a → (get_token a t).1 ≢ t
  pub get_token_some :
      (a b : Text) (t : ℕ) → a ≢ [] → Lacks t a → get_token (a ++ (t ∷ b)) t ≡ (a, t)
  -- A token is a part of the text.
  pub length-get_token : (a : Text) (t : ℕ) → length (get_token a t).0 ≤ length a
