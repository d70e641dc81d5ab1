-- ===== src/Subscriber/Memory/Ranges.antt =====
-- How the ranges of the threads lie to each other.
use marte2hieratika.Base.{
  lt→ltb, ap, true, false, dec_lt, ◌%◌, ◌-◌, ℕ, ◌+◌, ◌*◌, ◌/◌, ◌≤◌, ◌<◌, ◌≡◌, refl, arith, add32,
  sub32, mul32, u32_mod, ltb, inl, inr, ◌⊎◌,
}
use native.Mathlib.Nat.{div-add-mod, mod-lt, mod-eq_of_lt, mul-le-mul_right}
use marte2hieratika.Subscriber.{EpicsParserAndSubscriber}
use marte2hieratika.Subscriber.Memory.{range_of}

-- The numbers that `ParseAndSubscribe` sets, with a chunk for each thread at least as large as the
-- number of threads.
pub record IsDivided (t : EpicsParserAndSubscriber) : Type 0 where
  pub threads : 0 < t.number_of_pool_threads
  pub chunk : t.n_vars_per_chunk ≡ t.number_of_variables / t.number_of_pool_threads
  pub many : t.number_of_pool_threads ≤ t.n_vars_per_chunk
  pub small : t.number_of_variables < u32_mod

ltb-false_of_le : (a b : ℕ) → b ≤ a → ltb a b ≡ false
ltb-false_of_le a b h = ground arith

module _ (t : EpicsParserAndSubscriber) (v : IsDivided t) where
  divided :
      t.number_of_pool_threads * t.n_vars_per_chunk
        + t.number_of_variables % t.number_of_pool_threads
      ≡ t.number_of_variables
  divided = rw v.chunk (div-add-mod t.number_of_variables t.number_of_pool_threads)

  left_over : t.number_of_variables % t.number_of_pool_threads < t.number_of_pool_threads
  left_over = mod-lt t.number_of_variables v.threads

  -- A multiple of the chunk up to the number of threads is below the number of variables.
  pub multiple_in :
      (k : ℕ)
      → k ≤ t.number_of_pool_threads
      → k * t.n_vars_per_chunk + t.number_of_variables % t.number_of_pool_threads
        ≤ t.number_of_variables
  multiple_in k h = omega (arith, divided, mul-le-mul_right t.n_vars_per_chunk h)

  multiple_whole :
      (k : ℕ) → k ≤ t.number_of_pool_threads → mul32 k t.n_vars_per_chunk ≡ k * t.n_vars_per_chunk
  multiple_whole k h = mod-eq_of_lt (omega (arith, multiple_in k h, v.small))

  next_whole : (id : ℕ) → id < t.number_of_pool_threads → add32 id 1 ≡ id + 1
  next_whole id h =
      let fewer = multiple_in 1 v.threads in
      let one : 1 * t.n_vars_per_chunk ≡ t.n_vars_per_chunk = omega arith in
      mod-eq_of_lt (omega (arith, fewer, one, v.many, v.small))

  left_behind :
      (k : ℕ)
      → k ≤ t.number_of_pool_threads
      → sub32 t.number_of_variables (k * t.n_vars_per_chunk)
        ≡ t.number_of_variables - k * t.n_vars_per_chunk
  left_behind k h = omega (arith, multiple_in k h, v.small)

  -- Where the range of a thread begins.
  pub range_of-start :
      (id : ℕ)
      → id < t.number_of_pool_threads
      → (id * t.n_vars_per_chunk ≤ t.number_of_variables)
        × ((range_of t id).0 ≡ id * t.n_vars_per_chunk)
  unfolding range_of
  range_of-start id h =
      (omega (arith, multiple_in id (omega arith)), multiple_whole id (omega arith))

  -- The ranges of the threads of EpicsParserAndSubscriber follow one on another: the first begins
  -- at 0, each ends where the next one begins, and the last ends at the number of variables, and
  -- none ends before it begins. The chunk is the number of variables divided by that of the
  -- threads, and at least as large as the number of threads; the variables are fewer than 2^32.
  pub range_of-tiles :
      (id : ℕ)
      → id < t.number_of_pool_threads
      → ((range_of t 0).0 ≡ 0)
        × ((range_of t id).0 ≤ (range_of t id).1)
        × (((id + 1 < t.number_of_pool_threads) × ((range_of t id).1 ≡ (range_of t (id + 1)).0))
            ⊎ ((id + 1 ≡ t.number_of_pool_threads) × ((range_of t id).1 ≡ t.number_of_variables)))
  unfolding range_of
  range_of-tiles id h =
      let begin = multiple_whole id (omega arith) in
      let end = multiple_whole (id + 1) (omega arith) in
      let next : (id + 1) * t.n_vars_per_chunk ≡ id * t.n_vars_per_chunk + t.n_vars_per_chunk =
        omega arith in
      rw (next_whole id h, begin, end, left_behind (id + 1) (omega arith))
        (elim (dec_lt (id + 1) t.number_of_pool_threads) [
          | yes more ↦
              let two : (id + 2) * t.n_vars_per_chunk
                  ≡ (id + 1) * t.n_vars_per_chunk + t.n_vars_per_chunk =
                omega arith in
              let far : ltb (t.number_of_variables - (id + 1) * t.n_vars_per_chunk)
                    t.number_of_pool_threads
                  ≡ false =
                ltb-false_of_le _ _
                  (omega (arith, multiple_in (id + 2) (omega arith), two, v.many)) in
              rw far (omega arith, omega (arith, next), inl (more, refl))
          | no last ↦
              let same : id + 1 ≡ t.number_of_pool_threads = omega arith in
              let whole : (id + 1) * t.n_vars_per_chunk
                  ≡ t.number_of_pool_threads * t.n_vars_per_chunk =
                ap (λ k. k * t.n_vars_per_chunk) same in
              let near : ltb (t.number_of_variables - (id + 1) * t.n_vars_per_chunk)
                    t.number_of_pool_threads
                  ≡ true =
                lt→ltb _ _ (omega (arith, divided, left_over, whole)) in
              rw near (omega arith, omega (arith, multiple_in id (omega arith)), inr (same, refl))
        ])
