-- ===== src/Subscriber/Offsets/Remap.antt =====
-- What the loop of `CreateSubscriptions` makes of the offsets.
use marte2hieratika.Base.{
  ◌≤◌, slice, ℕ, zero, suc, ◌+◌, ◌*◌, ◌/◌, ◌%◌, ◌-◌, ◌<◌, ◌≡◌, ◌⊎◌, inl, inr, refl, ap, ◌∙◌, min,
  List, [], ◌∷◌, length, get_or, add32, sub32, u32_mod, u64_mod, arith, dec_lt,
}
use native.Mathlib.Nat.{
  zero-mod, div-add-mod', mod-lt, mod-eq_of_lt, div-eq_of_lt-le, div-eq_of_eq-mul_left,
  mul-mod_left, zero-div,
}
use marte2hieratika.Subscriber.{PvDescriptor, no_pv, EpicsParserAndSubscriber}
use marte2hieratika.Subscriber.Synchronise.Find.{Sizes, synchronise-find, sizes_before}
use marte2hieratika.Subscriber.Synchronise.{synchronise}
use marte2hieratika.Subscriber.Offsets.{add_sizes, mem_cnt, remap_from, remap_offsets}

-- A quotient goes up by one exactly at the multiples.
next_quotient :
    (i c : ℕ)
    → 0 < c
    → (((i + 1) % c ≡ 0) × ((i + 1) / c ≡ i / c + 1)) ⊎ ((0 < (i + 1) % c) × ((i + 1) / c ≡ i / c))
next_quotient i c h =
    let now = div-add-mod' i c in
    let below = mod-lt i h in
    elim (dec_lt (i % c + 1) c) [
      | yes more ↦
          let up : (i / c + 1) * c ≡ i / c * c + c = omega arith in
          let same : (i + 1) / c ≡ i / c =
            div-eq_of_lt-le c (omega (arith, now)) (omega (arith, now, up, more)) in
          let then_on = div-add-mod' (i + 1) c in
          let again : (i + 1) / c * c ≡ i / c * c = ap (λ k. k * c) same in
          inr (omega (arith, now, then_on, again), same)
      | no last ↦
          let up : (i / c + 1) * c ≡ i / c * c + c = omega arith in
          let whole : i + 1 ≡ (i / c + 1) * c = omega (arith, now, up, below, last) in
          inl (ap (λ k. k % c) whole ∙ mul-mod_left (i / c + 1) c, div-eq_of_eq-mul_left h whole)
    ]

add_sizes_lem :
    (sizes : List ℕ) (k offset : ℕ)
    → offset + sizes_before sizes (length sizes) < u64_mod
    → add_sizes sizes k offset ≡ offset + sizes_before sizes k
unfolding add_sizes
add_sizes_lem sizes zero offset h = omega arith
add_sizes_lem [] (suc k) offset h = omega arith
add_sizes_lem (n ∷ ns) (suc k) offset h =
    let whole : (offset + n) % u64_mod ≡ offset + n = mod-eq_of_lt (omega arith) in
    rw whole (add_sizes_lem ns k (offset + n) (omega arith) ∙ omega arith)

-- The thread that lays out the variable `i`.
abbrev pub thread_of : EpicsParserAndSubscriber → ℕ → ℕ
thread_of t i = min (i / t.n_vars_per_chunk) (t.number_of_pool_threads - 1)

module _ (t : EpicsParserAndSubscriber) (chunk : 0 < t.n_vars_per_chunk)
    (threads : 0 < t.number_of_pool_threads) (few : t.number_of_pool_threads < u32_mod) where
  last_whole : sub32 t.number_of_pool_threads 1 ≡ t.number_of_pool_threads - 1
  last_whole = omega (arith, threads, few)

  mem_cnt_first : mem_cnt t 0 0 ≡ thread_of t 0
  unfolding mem_cnt
  mem_cnt_first =
      rw (last_whole, zero-div t.n_vars_per_chunk, zero-mod t.n_vars_per_chunk) (ground arith)

  mem_cnt_next : (i : ℕ) → mem_cnt t (i + 1) (thread_of t i) ≡ thread_of t (i + 1)
  unfolding mem_cnt
  mem_cnt_next i =
      let whole : add32 (thread_of t i) 1 ≡ thread_of t i + 1 = omega (arith, few, threads) in
      elim (next_quotient i t.n_vars_per_chunk chunk) [
        | inl (r, q) ↦ rw (last_whole, r, q, whole) (ground arith)
        | inr (r, q) ↦ rw (last_whole, q) (ground (arith, r))
      ]

  remap_from_lem :
      (pvs : List PvDescriptor) (i cnt j : ℕ)
      → mem_cnt t i cnt ≡ thread_of t i
      → j < length pvs
      → (get_or (remap_from t i cnt pvs) j no_pv).offset
        ≡ add_sizes t.memory_size (thread_of t (i + j)) (get_or pvs j no_pv).offset
  unfolding remap_from
  remap_from_lem [] i cnt j e lt = absurd (omega arith)
  remap_from_lem (pv ∷ pvs) i cnt zero e lt =
      let here : i + 0 ≡ i = omega arith in rw (here, e) refl
  remap_from_lem (pv ∷ pvs) i cnt (suc j) e lt =
      let there : i + suc j ≡ i + 1 + j = omega arith in
      rw (there, e) (remap_from_lem pvs (i + 1) (thread_of t i) j (mem_cnt_next i) (omega arith))

  -- The last thread moves the offset of each variable by the sizes of the memories of the threads
  -- before the one that laid it out.
  pub remap_offsets_lem :
      (i : ℕ)
      → i < length t.pv_descriptor
      → (get_or t.pv_descriptor i no_pv).offset + sizes_before t.memory_size (length t.memory_size)
        < u64_mod
      → (get_or (remap_offsets t).pv_descriptor i no_pv).offset
        ≡ (get_or t.pv_descriptor i no_pv).offset + sizes_before t.memory_size (thread_of t i)
  unfolding remap_offsets
  remap_offsets_lem i lt small =
      let start : 0 + i ≡ i = omega arith in
      let moved = remap_from_lem t.pv_descriptor 0 0 i mem_cnt_first lt in
      moved
      ∙ ap (λ k. add_sizes t.memory_size (thread_of t k) (get_or t.pv_descriptor i no_pv).offset)
          start
      ∙ add_sizes_lem t.memory_size (thread_of t i) (get_or t.pv_descriptor i no_pv).offset small

-- At the offset that the last thread gives a variable, the memory that `Synchronise` of
-- EpicsParserAndSubscriber hands to the sender holds what the memory of the variable's thread holds
-- at the offset that the thread gave it: the thread is that of the variable's chunk, or the last
-- one. There are threads, fewer than 2^32 and as many as memories, and a chunk is not empty; the
-- memories have the sizes kept for them, which together fit into the memory that goes out and below
-- 2^32; both arrays of flags have an entry for each variable; and the first offset is below 2^32
-- and, with the bytes that are read, inside the memory of the thread.
pub remap-synchronise :
    (t : EpicsParserAndSubscriber) (memory_out changed_flags : List ℕ) (i n : ℕ)
    → 0 < t.n_vars_per_chunk
    → 0 < t.number_of_pool_threads
    → t.number_of_pool_threads < u32_mod
    → length t.memory ≡ t.number_of_pool_threads
    → Sizes t.memory t.memory_size
    → sizes_before t.memory_size (length t.memory_size) < u32_mod
    → sizes_before t.memory_size (length t.memory_size) ≤ length memory_out
    → length t.changed_flag_mem ≡ t.number_of_variables
    → length changed_flags ≡ t.number_of_variables
    → i < length t.pv_descriptor
    → (get_or t.pv_descriptor i no_pv).offset < u32_mod
    → (get_or t.pv_descriptor i no_pv).offset + n ≤ get_or t.memory_size (thread_of t i) 0
    → slice
        (synchronise (remap_offsets t) memory_out changed_flags).0
        (get_or (remap_offsets t).pv_descriptor i no_pv).offset
        n
      ≡ slice (get_or t.memory (thread_of t i) []) (get_or t.pv_descriptor i no_pv).offset n
unfolding remap_offsets
remap-synchronise t memory_out changed_flags i n chunk threads few all s small room flags flags' lt
      local le =
    let k = thread_of t i in
    let old = (get_or t.pv_descriptor i no_pv).offset in
    let moved = remap_offsets_lem t chunk threads few i lt (omega (arith, small, local)) in
    let found =
      synchronise-find (remap_offsets t) memory_out changed_flags k old n s small room flags flags'
        (omega (arith, all, threads)) le in
    let at : (get_or (remap_offsets t).pv_descriptor i no_pv).offset
        ≡ sizes_before t.memory_size k + old =
      omega (arith, moved) in
    rw at (found.0)
