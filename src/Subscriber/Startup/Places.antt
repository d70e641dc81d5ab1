-- ===== src/Subscriber/Startup/Places.antt =====
-- The thread of a variable, and its place in the memories one behind another.
use marte2hieratika.Base.{
  ℕ, zero, suc, ◌+◌, ◌*◌, ◌-◌, ◌/◌, ◌≤◌, ◌<◌, ◌≡◌, inl, inr, refl, ap, ◌∙◌, List, [], ◌∷◌, length,
  get_or, take, drop, slice, arith, dec_lt,
}
use native.Mathlib.Nat.{div-mul-le_self, div-lt_iff_lt-mul, mul-le-mul_right}
use marte2hieratika.Subscriber.{PvDescriptor, no_pv, value_size, EpicsParserAndSubscriber}
use marte2hieratika.Subscriber.Memory.{range_of, place}
use marte2hieratika.Subscriber.Memory.Ranges.{IsDivided, range_of-start, range_of-tiles}
use marte2hieratika.Subscriber.Memory.Regions.{region_size}
use marte2hieratika.Subscriber.Offsets.{remap_from}
use marte2hieratika.Subscriber.Offsets.Remap.{thread_of}
use marte2hieratika.Subscriber.Synchronise.Find.{Sizes, sizes_before}
use marte2hieratika.Subscriber.Startup.Filled.{from, range_of-apart}

module _ {ℓ} {A : Type ℓ} where
  get_or-take : (xs : List A) (n x : ℕ) (d : A) → x < n → get_or (take n xs) x d ≡ get_or xs x d
  get_or-take xs zero x d h = absurd (omega arith)
  get_or-take [] (suc n) x d h = refl
  get_or-take (y ∷ ys) (suc n) zero d h = refl
  get_or-take (y ∷ ys) (suc n) (suc x) d h = get_or-take ys n x d (omega arith)

  get_or-drop : (xs : List A) (o x : ℕ) (d : A) → get_or (drop o xs) x d ≡ get_or xs (o + x) d
  get_or-drop xs zero x d = ap (λ i. get_or xs i d) (omega arith)
  get_or-drop [] (suc o) x d = refl
  get_or-drop (y ∷ ys) (suc o) x d =
      let e : suc o + x ≡ suc (o + x) = omega arith in rw e (get_or-drop ys o x d)

  pub get_or-slice :
      (xs : List A) (o n i : ℕ) (d : A)
      → o ≤ i
      → i < o + n
      → get_or (slice xs o n) (i - o) d ≡ get_or xs i d
  get_or-slice xs o n i d above below =
      let there : o + (i - o) ≡ i = omega arith in
      get_or-take (drop o xs) n (i - o) d (omega arith)
      ∙ get_or-drop xs o (i - o) d
      ∙ ap (λ j. get_or xs j d) there

-- The memories of the threads one behind another.
pub sizes_before-le :
    (ns : List ℕ) (a b : ℕ) → a < b → sizes_before ns a + get_or ns a 0 ≤ sizes_before ns b
sizes_before-le ns zero zero h = absurd (omega arith)
sizes_before-le [] zero (suc b) h = omega arith
sizes_before-le [] (suc a) b h = omega arith
sizes_before-le (n ∷ ns) zero (suc b) h = omega arith
sizes_before-le (n ∷ ns) (suc a) zero h = absurd (omega arith)
sizes_before-le (n ∷ ns) (suc a) (suc b) h = omega (arith, sizes_before-le ns a b (omega arith))

pub remap_from-region :
    (t : EpicsParserAndSubscriber) (pvs : List PvDescriptor) (i cnt j : ℕ)
    → region_size (get_or (remap_from t i cnt pvs) j no_pv) ≡ region_size (get_or pvs j no_pv)
unfolding remap_from
remap_from-region t [] i cnt j = refl
remap_from-region t (pv ∷ pvs) i cnt zero = refl
remap_from-region t (pv ∷ pvs) i cnt (suc j) = remap_from-region t pvs _ _ j

pub remap_from-memory :
    (t : EpicsParserAndSubscriber) (pvs : List PvDescriptor) (i cnt j : ℕ)
    → (get_or (remap_from t i cnt pvs) j no_pv).memory ≡ (get_or pvs j no_pv).memory
unfolding remap_from
remap_from-memory t [] i cnt j = refl
remap_from-memory t (pv ∷ pvs) i cnt zero = refl
remap_from-memory t (pv ∷ pvs) i cnt (suc j) = remap_from-memory t pvs _ _ j

pub place-memory :
    (pvs : List PvDescriptor) (start j : ℕ)
    → (get_or (place pvs start) j no_pv).memory ≡ (get_or (place pvs start) j no_pv).offset
unfolding place
place-memory [] start j = refl
place-memory (pv ∷ pvs) start zero = refl
place-memory (pv ∷ pvs) start (suc j) = place-memory pvs _ j

-- The timestamp of a variable stands right behind its value.
abbrev pub IsStamped : PvDescriptor → Type 0
IsStamped pv = pv.time_stamp ≡ pv.memory + value_size pv

pub place-IsStamped :
    (pvs : List PvDescriptor) (start j : ℕ) → IsStamped (get_or (place pvs start) j no_pv)
unfolding place
place-IsStamped [] start j = omega arith
place-IsStamped (pv ∷ pvs) start zero = refl
place-IsStamped (pv ∷ pvs) start (suc j) = place-IsStamped pvs _ j

pub remap_from-IsStamped :
    (t : EpicsParserAndSubscriber) (pvs : List PvDescriptor) (i cnt j : ℕ)
    → IsStamped (get_or pvs j no_pv)
    → IsStamped (get_or (remap_from t i cnt pvs) j no_pv)
unfolding remap_from
remap_from-IsStamped t [] i cnt j h = h
remap_from-IsStamped t (pv ∷ pvs) i cnt zero h = h
remap_from-IsStamped t (pv ∷ pvs) i cnt (suc j) h = remap_from-IsStamped t pvs _ _ j h

pub Sizes-length : (ms : List (List ℕ)) (ns : List ℕ) → Sizes ms ns → length ms ≡ length ns
Sizes-length [] [] h = refl
Sizes-length [] (n ∷ ns) h = absurd h
Sizes-length (m ∷ ms) [] h = absurd h
Sizes-length (m ∷ ms) (n ∷ ns) h = ap suc (Sizes-length ms ns h.1)

module _ (t : EpicsParserAndSubscriber) (v : IsDivided t) where
  -- The thread of a variable is the one in whose range it is.
  pub thread_of-range :
      (i : ℕ)
      → i < t.number_of_variables
      → (thread_of t i < t.number_of_pool_threads)
        × (from t v (thread_of t i) ≤ i)
        × (i < (range_of t (thread_of t i)).1)
  thread_of-range i lt =
      let k = thread_of t i in
      let known : k < t.number_of_pool_threads = omega (arith, v.threads) in
      let quotient : k ≤ i / t.n_vars_per_chunk = omega arith in
      let here = range_of-start t v k known in
      let (begins, ends, next) = range_of-tiles t v k known in
      let chunk : 0 < t.n_vars_per_chunk = omega (arith, v.threads, v.many) in
      let low : k * t.n_vars_per_chunk ≤ i / t.n_vars_per_chunk * t.n_vars_per_chunk =
        mul-le-mul_right t.n_vars_per_chunk quotient in
      (
        known,
        omega (arith, here.1, low, div-mul-le_self i t.n_vars_per_chunk),
        elim next [
          | inl (more, e) ↦
              let exact : i / t.n_vars_per_chunk < k + 1 = omega arith in
              let there = range_of-start t v (k + 1) more in
              omega (arith, e, there.1, (div-lt_iff_lt-mul chunk).0 exact)
          | inr (last, e) ↦ omega (arith, e, lt)
        ],
      )

  pub thread_of-le : (i j : ℕ) → i < j → j < t.number_of_variables → thread_of t i ≤ thread_of t j
  thread_of-le i j ij lt =
      let (known, from_i, to_i) = thread_of-range i (omega arith) in
      let (known', from_j, to_j) = thread_of-range j lt in
      elim (dec_lt (thread_of t j) (thread_of t i)) [
        | yes back ↦ absurd (
            omega
              (arith, range_of-apart t v (thread_of t j) (thread_of t i) back known, from_i, to_j))
        | no fine ↦ omega arith
      ]
