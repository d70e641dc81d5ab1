-- ===== src/Subscriber/Synchronise/Find.antt =====
-- Where the memory of a thread is found in what `Synchronise` copied.
use native.Mathlib.Nat.{mod-eq_of_lt}
use marte2hieratika.Base.{
  copy_over, take-length, subst, length-replicate, ◌%◌, ap, sym, drop-add, replicate, ℕ, zero, suc,
  ◌+◌, ◌≤◌, ◌<◌, ◌≡◌, refl, ◌∙◌, List, [], ◌∷◌, length, take, drop, slice, get_or, copy_into,
  length-copy_into, slice-copy_into_self, slice-copy_into_apart, arith, u32_mod, inl,
}
use marte2hieratika.Subscriber.{EpicsParserAndSubscriber}
use marte2hieratika.Subscriber.Synchronise.{copy_memories, synchronise}

-- The sizes of the first `k` threads, added up.
abbrev pub sizes_before : List ℕ → ℕ → ℕ
sizes_before sizes zero = 0
sizes_before [] (suc k) = 0
sizes_before (n ∷ ns) (suc k) = n + sizes_before ns k

-- Every thread's memory has the size that is kept for it.
abbrev pub Sizes : List (List ℕ) → List ℕ → Type 0
Sizes [] [] = Unit {0}
Sizes [] (n ∷ ns) = ⊥
Sizes (m ∷ ms) [] = ⊥
Sizes (m ∷ ms) (n ∷ ns) = (length m ≡ n) × Sizes ms ns

copy_memories-below :
    (ms : List (List ℕ)) (ns : List ℕ) (offset : ℕ) (out : List ℕ) (p n : ℕ)
    → offset + sizes_before ns (length ns) < u32_mod
    → p + n ≤ offset
    → slice (copy_memories ms ns offset out) p n ≡ slice out p n
unfolding copy_memories
copy_memories-below [] ns offset out p n h le = refl
copy_memories-below (m ∷ ms) [] offset out p n h le = refl
copy_memories-below (m ∷ ms) (k ∷ ks) offset out p n h le =
    let next : (offset + k) % u32_mod ≡ offset + k = mod-eq_of_lt (omega arith) in
    rw next (
      copy_memories-below ms ks (offset + k) (copy_into out offset (take k m)) p n (omega arith)
        (omega arith)
      ∙ slice-copy_into_apart out offset (take k m) p n (inl le))

module _ {ℓ} {A : Type ℓ} where
  slice-take :
      (xs : List A) (l p n : ℕ) → p + n ≤ l → take n (drop p (take l xs)) ≡ take n (drop p xs)
  slice-take xs l p zero h = refl
  slice-take [] zero p (suc n) h = absurd (omega arith)
  slice-take [] (suc l) p (suc n) h = refl
  slice-take (x ∷ xs) zero p (suc n) h = absurd (omega arith)
  slice-take (x ∷ xs) (suc l) zero (suc n) h = ap (◌∷◌ x) (slice-take xs l zero n (omega arith))
  slice-take (x ∷ xs) (suc l) (suc p) (suc n) h = slice-take xs l p (suc n) (omega arith)

  -- A part of what was copied.
  slice-copied :
      (xs : List A) (o : ℕ) (bs : List A) (p n : ℕ)
      → o + length bs ≤ length xs
      → p + n ≤ length bs
      → slice (copy_into xs o bs) (o + p) n ≡ slice bs p n
  slice-copied xs o bs p n h le =
      ap (take n) (drop-add o p (copy_into xs o bs))
      ∙ sym (slice-take (drop o (copy_into xs o bs)) (length bs) p n le)
      ∙ ap (λ z. take n (drop p z)) (slice-copy_into_self xs o bs h)

copy_memories_lem :
    (ms : List (List ℕ)) (ns : List ℕ) (offset : ℕ) (out : List ℕ) (k p n : ℕ)
    → Sizes ms ns
    → offset + sizes_before ns (length ns) < u32_mod
    → offset + sizes_before ns (length ns) ≤ length out
    → k < length ms
    → p + n ≤ get_or ns k 0
    → slice (copy_memories ms ns offset out) (offset + sizes_before ns k + p) n
      ≡ slice (get_or ms k []) p n
unfolding copy_memories
copy_memories_lem [] ns offset out k p n s h room lt le = absurd (omega arith)
copy_memories_lem (m ∷ ms) [] offset out k p n s h room lt le = absurd s
copy_memories_lem (m ∷ ms) (a ∷ bs) offset out zero p n s h room lt le =
    let next : (offset + a) % u32_mod ≡ offset + a = mod-eq_of_lt (omega arith) in
    let whole : take a m ≡ m = rw (← s.0) (take-length m) in
    let here : offset + 0 + p ≡ offset + p = omega arith in
    rw (next, whole, here)
      (copy_memories-below ms bs (offset + a) (copy_into out offset m) (offset + p) n (omega arith)
          (omega arith)
        ∙ slice-copied out offset m p n (omega (arith, s.0)) (omega (arith, s.0)))
copy_memories_lem (m ∷ ms) (a ∷ bs) offset out (suc k) p n s h room lt le =
    let next : (offset + a) % u32_mod ≡ offset + a = mod-eq_of_lt (omega arith) in
    let same = length-copy_into out offset (take a m) in
    let there : offset + (a + sizes_before bs k) + p ≡ offset + a + sizes_before bs k + p =
      omega arith in
    rw (next, there)
      (copy_memories_lem ms bs (offset + a) (copy_into out offset (take a m)) k p n s.1
        (omega arith) (omega (arith, same)) (omega arith) le)

-- After `Synchronise` of EpicsParserAndSubscriber every part of the memory of a thread stands in
-- the memory that goes out, at its place behind the memories of the threads before; the flags go
-- out as they were, and those of the data source are reset. The memories have the sizes kept for
-- them, which together fit into the memory that goes out and below 2^32, and both arrays of flags
-- have an entry for each variable.
pub synchronise-find :
    (t : EpicsParserAndSubscriber) (memory_out changed_flags : List ℕ) (k p n : ℕ)
    → Sizes t.memory t.memory_size
    → sizes_before t.memory_size (length t.memory_size) < u32_mod
    → sizes_before t.memory_size (length t.memory_size) ≤ length memory_out
    → length t.changed_flag_mem ≡ t.number_of_variables
    → length changed_flags ≡ t.number_of_variables
    → k < length t.memory
    → p + n ≤ get_or t.memory_size k 0
    → let (out, flags, t') = synchronise t memory_out changed_flags in
      (slice out (sizes_before t.memory_size k + p) n ≡ slice (get_or t.memory k []) p n)
      × (flags ≡ t.changed_flag_mem)
      × (t'.changed_flag_mem ≡ replicate t.number_of_variables 0)
unfolding synchronise
synchronise-find t memory_out changed_flags k p n s small room flags flags' lt le =
    let start : 0 + sizes_before t.memory_size k + p ≡ sizes_before t.memory_size k + p =
      omega arith in
    let out = copy_memories t.memory t.memory_size 0 memory_out in
    (
      subst (λ q. slice out q n ≡ slice (get_or t.memory k []) p n) start
          (copy_memories_lem t.memory t.memory_size 0 memory_out k p n s (omega arith) (omega arith)
            lt le),
      rw (← flags, take-length t.changed_flag_mem)
          (copy_over changed_flags t.changed_flag_mem (omega arith)),
      copy_over t.changed_flag_mem (replicate t.number_of_variables 0)
          (omega (arith, length-replicate {A = ℕ} t.number_of_variables 0)),
    )
