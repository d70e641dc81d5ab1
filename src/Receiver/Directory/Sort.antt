-- ===== src/Receiver/Directory/Sort.antt =====
-- The array of names after the two passes over the input file in `Initialise`.
mod Insert
use mathlib.Core.List.{reverse, reverse-cons, Perm, perm_middle, reverse_perm}
use marte2hieratika.Base.{
  Bool-cases, inl, inr, Bool, length-set, length-replicate, ℕ, zero, suc, ◌+◌, ◌-◌, ◌≤◌, ◌<◌, ◌≡◌,
  refl, sym, ap, ◌∙◌, ◌≢◌, max, List, [], ◌∷◌, ◌++◌, append-nil, length, length-append, get_or, set,
  take, replicate, ◌==◌, leb, if◌then◌else◌, arith, true, false, ℕ_discrete, dec_le, dec_lt, ◌||◌,
}
use marte2hieratika.Marte.{Text, StringHelper}
use marte2hieratika.Marte.Order.{Le}
use marte2hieratika.Receiver.Directory.{
  swap_names, count_variables, fill_names, sift_name, load_names,
}
use marte2hieratika.Receiver.Directory.Search.{Ascending}
use Insert.{
  insert_name, place_name_lem, length-insert_name, insert_name-perm, insert_name-Falling, Falling,
  AllLe, length-reverse, set-append_length, get_or-append_left, get_or-append_length,
}
use mathlib.Core.List.Perm

-- How many variables the loops still take when they hold `n`: always one.
abbrev pub room : ℕ → ℕ → ℕ
room limit n = max 1 (limit - n)

module _ {ℓ} {A : Type ℓ} where
  pub take_nil : (n : ℕ) → take {A = A} n [] ≡ []
  take_nil zero = refl
  take_nil (suc n) = refl

  pub take-room_last :
      (limit n : ℕ) (v : A) (vs : List A) → limit ≤ n + 1 → take (room limit n) (v ∷ vs) ≡ v ∷ []
  take-room_last limit n v vs h = let k : room limit n ≡ 1 = omega arith in rw k

  pub take-room_more :
      (limit n : ℕ) (v : A) (vs : List A)
      → ¬ (limit ≤ n + 1)
      → take (room limit n) (v ∷ vs) ≡ v ∷ take (room limit (n + 1)) vs
  take-room_more limit n v vs h =
      let k : room limit n ≡ suc (room limit (n + 1)) = omega arith in rw k

module _ (s : StringHelper) where
  open s use {compare}

  -- The variables of the file from the first one on.
  pub drop_until : Text → List Text → List Text
  drop_until first [] = []
  drop_until first (v ∷ vs) =
      let rest = drop_until first vs in if compare v first == 0 then v ∷ vs else rest

  -- The variables that the configuration selects.
  pub selected : Text → ℕ → List Text → List Text
  selected first limit vs = take (room limit 0) (drop_until first vs)

  insert_all : List Text → List Text → List Text
  insert_all [] ys = ys
  insert_all (v ∷ vs) ys = insert_all vs (insert_name s v ys)

  insert_all-Falling : (vs ys : List Text) → Falling s ys → Falling s (insert_all vs ys)
  unfolding insert_all
  insert_all-Falling [] ys f = f
  insert_all-Falling (v ∷ vs) ys f =
      insert_all-Falling vs (insert_name s v ys) (insert_name-Falling s v ys f)

  insert_all-perm : (vs ys : List Text) → Perm (insert_all vs ys) (vs ++ ys)
  unfolding insert_all
  insert_all-perm [] ys = Perm.refl ys
  insert_all-perm (v ∷ vs) ys =
      Perm.trans (insert_all-perm vs (insert_name s v ys))
        (Perm.trans (Perm.append (Perm.refl vs) (insert_name-perm s v ys)) (perm_middle vs ys))

  count_started :
      (first : Text) (limit n : ℕ) (vs : List Text)
      → count_variables s first limit vs true n ≡ n + length (take (room limit n) vs)
  unfolding count_variables
  count_started first limit n [] = rw (take_nil {0} _) (omega arith)
  count_started first limit n (v ∷ vs) = elim (dec_le limit (n + 1)) [
    | yes p ↦ rw (take-room_last limit n v vs p) (ground arith)
    | no p ↦
        rw (take-room_more limit n v vs p) (ground (arith, count_started first limit (n + 1) vs))
  ]

  fill_last :
      (first : Text) (limit n : ℕ) (v : Text) (vs names : List Text)
      → limit ≤ n + 1
      → fill_names s first limit (v ∷ vs) true n names ≡ sift_name s n (set names n v)
  unfolding fill_names
  fill_last first limit n v vs names h = ground arith

  fill_more :
      (first : Text) (limit n : ℕ) (v : Text) (vs names : List Text)
      → ¬ (limit ≤ n + 1)
      → fill_names s first limit (v ∷ vs) true n names
        ≡ fill_names s first limit vs true (n + 1) (sift_name s n (set names n v))
  unfolding fill_names
  fill_more first limit n v vs names h = ground arith

  fill_started :
      (first : Text) (limit : ℕ) (vs ys : List Text)
      → fill_names s first limit vs true
          (length ys)
          (reverse ys ++ replicate (length (take (room limit (length ys)) vs)) [])
        ≡ reverse (insert_all (take (room limit (length ys)) vs) ys)
  unfolding fill_names insert_all
  fill_started first limit [] ys = rw (take_nil {0} _) (append-nil (reverse ys))
  fill_started first limit (v ∷ vs) ys = elim (dec_le limit (length ys + 1)) [
    | yes p ↦
        rw
          (
            take-room_last limit (length ys) v vs p,
            fill_last first limit (length ys) v vs _ p,
            place_name_lem s ys v [] [],
          )
          (append-nil (reverse (insert_name s v ys)))
    | no p ↦
        rw
          (
            take-room_more limit (length ys) v vs p,
            fill_more first limit (length ys) v vs _ p,
            place_name_lem s ys v [] _,
            ← length-insert_name s v ys,
          )
          (fill_started first limit vs (insert_name s v ys))
  ]

  drop_here :
      (first v : Text) (vs : List Text) → compare v first ≡ 0 → drop_until first (v ∷ vs) ≡ v ∷ vs
  unfolding drop_until
  drop_here first v vs e = rw e

  drop_past :
      (first v : Text) (vs : List Text)
      → compare v first ≢ 0
      → drop_until first (v ∷ vs) ≡ drop_until first vs
  unfolding drop_until
  drop_past first v vs e = ground arith

  pub selected_none : (first : Text) (limit : ℕ) → selected first limit [] ≡ []
  unfolding selected drop_until
  selected_none first limit = take_nil {A = Text} (room limit 0)

  pub selected_here :
      (first : Text) (limit : ℕ) (v : Text) (vs : List Text)
      → compare v first ≡ 0
      → selected first limit (v ∷ vs) ≡ take (room limit 0) (v ∷ vs)
  unfolding selected
  selected_here first limit v vs e = ap (take (room limit 0)) (drop_here first v vs e)

  pub selected_past :
      (first : Text) (limit : ℕ) (v : Text) (vs : List Text)
      → compare v first ≢ 0
      → selected first limit (v ∷ vs) ≡ selected first limit vs
  unfolding selected
  selected_past first limit v vs e = ap (take (room limit 0)) (drop_past first v vs e)

  count_waiting :
      (first : Text) (limit : ℕ) (vs : List Text)
      → count_variables s first limit vs false 0 ≡ length (selected first limit vs)
  unfolding selected
  count_waiting first limit [] = here
    where
      here :
          count_variables s first limit [] false 0
          ≡ length (take (room limit 0) (drop_until first []))
      here = unfold count_variables drop_until in rw (take_nil {A = Text} (room limit 0))
  count_waiting first limit (v ∷ vs) = elim (ℕ_discrete (compare v first) 0) [
    | yes e ↦
        rw (drop_here first v vs e) (here e ∙ count_started first limit 0 (v ∷ vs) ∙ omega arith)
    | no e ↦ rw (drop_past first v vs e) (past e ∙ count_waiting first limit vs)
  ]
    where
      here :
          compare v first ≡ 0
          → count_variables s first limit (v ∷ vs) false 0
            ≡ count_variables s first limit (v ∷ vs) true 0
      here e = unfold count_variables in rw e

      past :
          compare v first ≢ 0
          → count_variables s first limit (v ∷ vs) false 0
            ≡ count_variables s first limit vs false 0
      past e = unfold count_variables in ground arith

  fill_waiting :
      (first : Text) (limit : ℕ) (vs : List Text)
      → fill_names s first limit vs false 0 (replicate (length (selected first limit vs)) [])
        ≡ reverse (insert_all (selected first limit vs) [])
  unfolding selected
  fill_waiting first limit [] =
      unfold fill_names drop_until insert_all in rw (take_nil {A = Text} (room limit 0))
  fill_waiting first limit (v ∷ vs) = elim (ℕ_discrete (compare v first) 0) [
    | yes e ↦ rw (drop_here first v vs e) (here e _ ∙ fill_started first limit (v ∷ vs) [])
    | no e ↦ rw (drop_past first v vs e) (past e _ ∙ fill_waiting first limit vs)
  ]
    where
      here :
          compare v first ≡ 0
          → (names : List Text)
          → fill_names s first limit (v ∷ vs) false 0 names
            ≡ fill_names s first limit (v ∷ vs) true 0 names
      here e names = unfold fill_names in rw e

      past :
          compare v first ≢ 0
          → (names : List Text)
          → fill_names s first limit (v ∷ vs) false 0 names
            ≡ fill_names s first limit vs false 0 names
      past e names = unfold fill_names in ground arith

  load_names_lem :
      (first : Text) (limit : ℕ) (vs : List Text)
      → load_names s first limit vs ≡ reverse (insert_all (selected first limit vs) [])
  unfolding load_names
  load_names_lem first limit vs = rw (count_waiting first limit vs) (fill_waiting first limit vs)

  -- Both passes of `Initialise` over the file select the same variables: the array is made for as
  -- many names as the second pass stores, and at the end holds the variables from
  -- `firstVariableName` on, at most `MaxNumberOfVariables` of them (but one at least where there is
  -- one), as a permutation.
  pub load_names-perm :
      (first : Text) (limit : ℕ) (vs : List Text)
      → Perm (load_names s first limit vs) (selected first limit vs)
        × (count_variables s first limit vs false 0 ≡ length (selected first limit vs))
  load_names-perm first limit vs = (
    rw (load_names_lem first limit vs) (
        Perm.trans (reverse_perm (insert_all (selected first limit vs) [])) (
          rw (append-nil (selected first limit vs)) at
            (insert_all-perm (selected first limit vs) []))),
    count_waiting first limit vs,
  )

  AllLe-get :
      (v : Text) (ys : List Text) (i : ℕ)
      → AllLe s v ys
      → i < length ys
      → Le s (get_or (reverse ys) i []) v
  AllLe-get v [] i a h = elim h [ ]
  AllLe-get v (y ∷ ys) i a h = elim (dec_lt i (length ys)) [
    | yes p ↦
        rw
          (
            reverse-cons y ys,
            get_or-append_left (reverse ys) (y ∷ []) i [] (omega (arith, length-reverse ys)),
          )
          (AllLe-get v ys i a.1 p)
    | no p ↦
        let e : i ≡ length (reverse ys) = omega (arith, length-reverse ys) in
        rw (reverse-cons y ys, e, get_or-append_length (reverse ys) y [] []) a.0
  ]

  Falling-Ascending : (ys : List Text) → Falling s ys → Ascending s (reverse ys) (length ys)
  Falling-Ascending [] f a b h k = elim k [ ]
  Falling-Ascending (y ∷ ys) f a b h k = elim (dec_lt b (length ys)) [
    | yes p ↦
        rw
          (
            reverse-cons y ys,
            get_or-append_left (reverse ys) (y ∷ []) a [] (omega (arith, length-reverse ys)),
            get_or-append_left (reverse ys) (y ∷ []) b [] (omega (arith, length-reverse ys)),
          )
          (Falling-Ascending ys f.1 a b h p)
    | no p ↦
        let e : b ≡ length (reverse ys) = omega (arith, length-reverse ys) in
        rw
          (
            reverse-cons y ys,
            get_or-append_left (reverse ys) (y ∷ []) a [] (omega (arith, length-reverse ys)),
            e,
            get_or-append_length (reverse ys) y [] [],
          )
          (AllLe-get y ys a f.0 (omega (arith, length-reverse ys)))
  ]

  -- The names that `Initialise` leaves in the array are in the order of `StringHelper::Compare`.
  pub load_names-Ascending :
      (first : Text) (limit : ℕ) (vs : List Text)
      → Ascending s (load_names s first limit vs) (length (load_names s first limit vs))
  load_names-Ascending first limit vs =
      let ys = insert_all (selected first limit vs) [] in
      rw (load_names_lem first limit vs, length-reverse ys)
        (Falling-Ascending ys (insert_all-Falling (selected first limit vs) [] tt))

  length-swap_names : (names : List Text) (i j : ℕ) → length (swap_names names i j) ≡ length names
  unfolding swap_names
  length-swap_names names i j =
      length-set (set names j (get_or names i [])) i (get_or names j [])
      ∙ length-set names j (get_or names i [])

  length-sift_name : (j : ℕ) (names : List Text) → length (sift_name s j names) ≡ length names
  unfolding sift_name
  length-sift_name zero names = refl
  length-sift_name (suc j) names =
      ground
        (arith, length-sift_name j (swap_names names (suc j) j), length-swap_names names (suc j) j)

  length-fill_names :
      (first : Text) (limit : ℕ) (vs : List Text) (start : Bool) (n : ℕ) (names : List Text)
      → length (fill_names s first limit vs start n names) ≡ length names
  unfolding fill_names
  length-fill_names first limit [] start n names = refl
  length-fill_names first limit (v ∷ vs) start n names =
      let put = set names n v in
      let stored = length-sift_name n put ∙ length-set names n v in
      elim (Bool-cases (start || (compare v first == 0))) [
        | inr e ↦ rw e (length-fill_names first limit vs false n names)
        | inl e ↦ rw e (elim (Bool-cases (leb limit (n + 1))) [
          | inl f ↦ rw f stored
          | inr f ↦
              rw f (length-fill_names first limit vs true (n + 1) (sift_name s n put) ∙ stored)
        ])
      ]

  -- The array keeps the size that the first pass gave it.
  pub length-load_names :
      (first : Text) (limit : ℕ) (vs : List Text)
      → length (load_names s first limit vs) ≡ count_variables s first limit vs false 0
  unfolding load_names
  length-load_names first limit vs =
      length-fill_names first limit vs false 0
        (replicate (count_variables s first limit vs false 0) [])
      ∙ length-replicate (count_variables s first limit vs false 0) []
