-- ===== src/Receiver/Directory/Sort/Insert.antt =====
-- One insertion: the loop over the array against insertion into the list of the names before it,
-- last name first.
use mathlib.Core.List.{reverse, reverse-cons, Perm}
use marte2hieratika.Base.{
  ℕ_discrete, ◌+◌, ℕ, zero, suc, ◌≡◌, refl, ap, List, [], ◌∷◌, ◌++◌, append_assoc, length,
  length-append, get_or, set, ◌==◌, if◌then◌else◌, arith, ◌<◌, ◌≢◌,
}
use marte2hieratika.Marte.{Text, StringHelper}
use marte2hieratika.Marte.Order.{Le, Le-trans, Le_of_precedes}
use marte2hieratika.Receiver.Directory.{swap_names, sift_name}
use mathlib.Core.List.Perm

module _ {ℓ} {A : Type ℓ} where
  pub length-reverse : (xs : List A) → length (reverse xs) ≡ length xs
  length-reverse [] = refl
  length-reverse (x ∷ xs) =
      omega (
        arith,
        ap length (reverse-cons x xs),
        length-append (reverse xs) (x ∷ []),
        length-reverse xs,
      )

  pub get_or-append_length :
      (xs : List A) (y d : A) (ys : List A) → get_or (xs ++ y ∷ ys) (length xs) d ≡ y
  get_or-append_length [] y d ys = refl
  get_or-append_length (x ∷ xs) y d ys = get_or-append_length xs y d ys

  pub get_or-append_suc :
      (xs : List A) (y z d : A) (ys : List A) → get_or (xs ++ y ∷ z ∷ ys) (suc (length xs)) d ≡ z
  get_or-append_suc [] y z d ys = refl
  get_or-append_suc (x ∷ xs) y z d ys = get_or-append_suc xs y z d ys

  pub get_or-append_left :
      (xs ys : List A) (i : ℕ) (d : A) → i < length xs → get_or (xs ++ ys) i d ≡ get_or xs i d
  get_or-append_left [] ys i d h = elim h [ ]
  get_or-append_left (x ∷ xs) ys zero d h = refl
  get_or-append_left (x ∷ xs) ys (suc i) d h = get_or-append_left xs ys i d (omega arith)

  pub set-append_length :
      (xs : List A) (y v : A) (ys : List A) → set (xs ++ y ∷ ys) (length xs) v ≡ xs ++ v ∷ ys
  set-append_length [] y v ys = refl
  set-append_length (x ∷ xs) y v ys = ap (◌∷◌ x) (set-append_length xs y v ys)

  pub set-append_suc :
      (xs : List A) (y z v : A) (ys : List A)
      → set (xs ++ y ∷ z ∷ ys) (suc (length xs)) v ≡ xs ++ y ∷ v ∷ ys
  set-append_suc [] y z v ys = refl
  set-append_suc (x ∷ xs) y z v ys = ap (◌∷◌ x) (set-append_suc xs y z v ys)

pub swap_names_lem :
    (xs : List Text) (y z : Text) (ys : List Text)
    → swap_names (xs ++ y ∷ z ∷ ys) (suc (length xs)) (length xs) ≡ xs ++ z ∷ y ∷ ys
unfolding swap_names
swap_names_lem xs y z ys = rw (
  get_or-append_suc xs y z [] ys,
  get_or-append_length xs y [] (z ∷ ys),
  set-append_length xs y z (z ∷ ys),
  set-append_suc xs z z y ys,
)

module _ (s : StringHelper) where
  open s use {compare}

  -- Insertion into the names before, last name first.
  pub insert_name : Text → List Text → List Text
  insert_name v [] = v ∷ []
  insert_name v (y ∷ ys) =
      let rest = y ∷ insert_name v ys in if compare v y == 1 then rest else v ∷ y ∷ ys

  insert_up :
      (v y : Text) (ys : List Text)
      → compare v y ≡ 1
      → insert_name v (y ∷ ys) ≡ y ∷ insert_name v ys
  unfolding insert_name
  insert_up v y ys h = ground arith

  insert_here :
      (v y : Text) (ys : List Text) → compare v y ≢ 1 → insert_name v (y ∷ ys) ≡ v ∷ y ∷ ys
  unfolding insert_name
  insert_here v y ys h = ground arith

  sift_down :
      (xs : List Text) (y v : Text) (tail : List Text)
      → compare v y ≡ 1
      → sift_name s (suc (length xs)) (xs ++ y ∷ v ∷ tail)
        ≡ sift_name s (length xs) (xs ++ v ∷ y ∷ tail)
  unfolding sift_name
  sift_down xs y v tail h = rw (
    get_or-append_suc xs y v [] tail,
    get_or-append_length xs y [] (v ∷ tail),
    h,
    swap_names_lem xs y v tail,
  )

  sift_stop :
      (xs : List Text) (y v : Text) (tail : List Text)
      → compare v y ≢ 1
      → sift_name s (suc (length xs)) (xs ++ y ∷ v ∷ tail) ≡ xs ++ y ∷ v ∷ tail
  unfolding sift_name
  sift_stop xs y v tail h =
      rw (get_or-append_suc xs y v [] tail, get_or-append_length xs y [] (v ∷ tail)) (ground arith)

  reverse_head :
      (y : Text) (ys rest : List Text) → reverse (y ∷ ys) ++ rest ≡ reverse ys ++ (y ∷ rest)
  reverse_head y ys rest = rw (reverse-cons y ys) (append_assoc (reverse ys) (y ∷ []) rest)

  sift_cases :
      (ys : List Text) (v y : Text) (tail : List Text)
      → sift_name s (length ys) (reverse ys ++ v ∷ y ∷ tail)
        ≡ reverse (insert_name v ys) ++ (y ∷ tail)
      → sift_name s (suc (length ys)) (reverse (y ∷ ys) ++ v ∷ tail)
        ≡ reverse (insert_name v (y ∷ ys)) ++ tail
  sift_cases ys v y tail ih = elim (ℕ_discrete (compare v y) 1) [
    | yes h ↦ rw (
      reverse_head y ys (v ∷ tail),
      ← length-reverse ys,
      sift_down (reverse ys) y v tail h,
      length-reverse ys,
      ih,
      insert_up v y ys h,
      reverse_head y (insert_name v ys) tail,
    )
    | no h ↦
        rw
          (
            reverse_head y ys (v ∷ tail),
            ← length-reverse ys,
            sift_stop (reverse ys) y v tail h,
            insert_here v y ys h,
            reverse_head v (y ∷ ys) tail,
            reverse_head y ys (v ∷ tail),
          )
          refl
  ]

  -- The loop of the source is that insertion.
  pub sift_name_lem :
      (ys : List Text) (v : Text) (tail : List Text)
      → sift_name s (length ys) (reverse ys ++ v ∷ tail) ≡ reverse (insert_name v ys) ++ tail
  unfolding sift_name insert_name
  sift_name_lem [] v tail = refl
  sift_name_lem (y ∷ ys) v tail = sift_cases ys v y tail (sift_name_lem ys v (y ∷ tail))

  -- The new name is copied behind the sorted ones, and sorted in.
  pub place_name_lem :
      (ys : List Text) (v old : Text) (tail : List Text)
      → sift_name s (length ys) (set (reverse ys ++ old ∷ tail) (length ys) v)
        ≡ reverse (insert_name v ys) ++ tail
  place_name_lem ys v old tail =
      rw (← length-reverse ys, set-append_length (reverse ys) old v tail, length-reverse ys)
        (sift_name_lem ys v tail)

  pub length-insert_name : (v : Text) (ys : List Text) → length (insert_name v ys) ≡ length ys + 1
  unfolding insert_name
  length-insert_name v [] = refl
  length-insert_name v (y ∷ ys) = ground (arith, length-insert_name v ys)

  pub insert_name-perm : (v : Text) (ys : List Text) → Perm (insert_name v ys) (v ∷ ys)
  unfolding insert_name
  insert_name-perm v [] = Perm.refl (v ∷ [])
  insert_name-perm v (y ∷ ys) = elim (ℕ_discrete (compare v y) 1) [
    | yes h ↦
        rw (insert_up v y ys h)
          (Perm.trans (Perm.cons y (insert_name-perm v ys)) (Perm.swap v y ys))
    | no h ↦ rw (insert_here v y ys h) (Perm.refl (v ∷ y ∷ ys))
  ]

  -- The list falls from its head on.
  abbrev pub AllLe : Text → List Text → Type 0
  AllLe v [] = Unit {0}
  AllLe v (y ∷ ys) = Le s y v × AllLe v ys

  abbrev pub Falling : List Text → Type 0
  Falling [] = Unit {0}
  Falling (y ∷ ys) = AllLe y ys × Falling ys

  AllLe-trans : (v w : Text) (ys : List Text) → Le s v w → AllLe v ys → AllLe w ys
  AllLe-trans v w [] h a = tt
  AllLe-trans v w (y ∷ ys) h a = (Le-trans s y v w a.0 h, AllLe-trans v w ys h a.1)

  AllLe-insert_name :
      (v w : Text) (ys : List Text) → Le s v w → AllLe w ys → AllLe w (insert_name v ys)
  unfolding insert_name
  AllLe-insert_name v w [] h a = (h, tt)
  AllLe-insert_name v w (y ∷ ys) h a = elim (ℕ_discrete (compare v y) 1) [
    | yes k ↦ rw (insert_up v y ys k) (a.0, AllLe-insert_name v w ys h a.1)
    | no k ↦ rw (insert_here v y ys k) (h, a)
  ]

  pub insert_name-Falling : (v : Text) (ys : List Text) → Falling ys → Falling (insert_name v ys)
  unfolding insert_name
  insert_name-Falling v [] f = (tt, tt)
  insert_name-Falling v (y ∷ ys) f = elim (ℕ_discrete (compare v y) 1) [
    | yes k ↦
        rw (insert_up v y ys k)
          (AllLe-insert_name v y ys (Le_of_precedes s v y k) f.0, insert_name-Falling v ys f.1)
    | no k ↦ rw (insert_here v y ys k) ((k, AllLe-trans y v ys k f.0), f)
  ]
