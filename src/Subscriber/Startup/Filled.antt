-- ===== src/Subscriber/Startup/Filled.antt =====
-- What `FillMemorySizes` does to the range of its thread, and that it keeps the other ranges.
use marte2hieratika.Base.{
  ℕ, ◌+◌, ◌-◌, ◌≤◌, ◌<◌, ◌≡◌, ◌≢◌, ◌⊎◌, inl, inr, refl, ap, ◌∙◌, List, [], length, get_or, set, map,
  slice, copy_into, replicate, length-map, length-set, get_or-set_self, get_or-set_ne, arith,
  dec_lt,
}
use native.Mathlib.Nat.{mul-le-mul_right}
use marte2hieratika.Marte.{StringHelper}
use marte2hieratika.Channels.{ChannelAccess, Channel}
use marte2hieratika.Subscriber.{PvDescriptor, EpicsParserAndSubscriber}
use marte2hieratika.Subscriber.Memory.{
  range_of, discard_large, sum_sizes, place, lay_out, fill_memory_sizes,
}
use marte2hieratika.Subscriber.Memory.Ranges.{IsDivided, range_of-tiles, range_of-start}
use marte2hieratika.Subscriber.Startup.{asked, fill_range}
use marte2hieratika.Subscriber.Startup.Rewrite.{
  length-place, rewrite_region, first_copy, slice-rewrite_region, rewrite_region-apart,
  length-rewrite_region,
}

-- The numbers of a data source, which no thread changes.
pub record SameNumbers (t q : EpicsParserAndSubscriber) : Type 0 where
  pub variables : q.number_of_variables ≡ t.number_of_variables
  pub threads : q.number_of_pool_threads ≡ t.number_of_pool_threads
  pub chunk : q.n_vars_per_chunk ≡ t.n_vars_per_chunk
  pub limit : q.max_array_size ≡ t.max_array_size
  pub pvs : length q.pv_descriptor ≡ t.number_of_variables
  pub sizes : length q.memory_size ≡ t.number_of_pool_threads
  pub memories : length q.memory ≡ t.number_of_pool_threads

module _ (t : EpicsParserAndSubscriber) (v : IsDivided t) where
  abbrev pub from : ℕ → ℕ
  from k = (range_of t k).0

  abbrev pub many : ℕ → ℕ
  many k = (range_of t k).1 - (range_of t k).0

  pub range_of-inside :
      (k : ℕ)
      → k < t.number_of_pool_threads
      → (from k ≤ (range_of t k).1)
        × ((range_of t k).1 ≤ t.number_of_variables)
        × (from k + many k ≡ (range_of t k).1)
  range_of-inside k lt =
      let (begins, ends, next) = range_of-tiles t v k lt in
      elim next [
        | inl (more, e) ↦
            let there = range_of-start t v (k + 1) more in
            (ends, omega (arith, e, there.0, there.1), omega (arith, ends))
        | inr (last, e) ↦ (ends, omega (arith, e), omega (arith, ends))
      ]

  pub range_of-apart : (j k : ℕ) → j < k → k < t.number_of_pool_threads → (range_of t j).1 ≤ from k
  range_of-apart j k jk lt =
      let (begins, ends, next) = range_of-tiles t v j (omega arith) in
      elim next [
        | inl (more, e) ↦
            let here = range_of-start t v (j + 1) more in
            let there = range_of-start t v k lt in
            let le : j + 1 ≤ k = omega arith in
            omega (arith, e, here.1, there.1, mul-le-mul_right t.n_vars_per_chunk le)
        | inr (last, e) ↦ absurd (omega arith)
      ]

module _ (s : StringHelper) (ca : ChannelAccess) (channels : ℕ → Channel)
    (t : EpicsParserAndSubscriber) (v : IsDivided t) where
  -- What channel access tells of the variables of a range.
  abbrev pub told : ℕ → List PvDescriptor
  told k = map (asked s ca channels) (slice t.pv_descriptor (from t v k) (many t v k))

  abbrev pub kept : ℕ → List PvDescriptor
  kept k = map (discard_large t.max_array_size) (told k)

  abbrev pub memory_of : ℕ → ℕ
  memory_of k = sum_sizes t.max_array_size (told k) 0

  -- The range of a thread is laid out in its memory.
  pub record IsFilled (q : EpicsParserAndSubscriber) (k : ℕ) : Type 0 where
    pub range : slice q.pv_descriptor (from t v k) (many t v k) ≡ place (kept k) 0
    pub size : get_or q.memory_size k 0 ≡ memory_of k
    pub memory : get_or q.memory k [] ≡ replicate (memory_of k) 0

  -- The range of a thread is as it was at the start.
  pub record IsFresh (q : EpicsParserAndSubscriber) (k : ℕ) : Type 0 where
    pub range :
        slice q.pv_descriptor (from t v k) (many t v k)
        ≡ slice t.pv_descriptor (from t v k) (many t v k)
    pub size : get_or q.memory_size k 0 ≡ 0

  module _ (q : EpicsParserAndSubscriber) (same : SameNumbers t q) (k : ℕ)
      (lt : k < t.number_of_pool_threads) where
    same_range : (j : ℕ) → range_of q j ≡ range_of t j
    unfolding range_of
    same_range j = rw (same.variables, same.threads, same.chunk) refl

    asked_size : (pvs : List PvDescriptor) → length (map (asked s ca channels) pvs) ≡ length pvs
    asked_size pvs = length-map pvs (asked s ca channels)

    placed_size :
        (pvs : List PvDescriptor)
        → length (place (map (discard_large t.max_array_size) pvs) 0) ≡ length pvs
    placed_size pvs =
        length-place (map (discard_large t.max_array_size) pvs) 0
        ∙ length-map pvs (discard_large t.max_array_size)

    abbrev new_pvs : List PvDescriptor
    new_pvs =
        rewrite_region (map (asked s ca channels))
          (λ pvs. place (map (discard_large t.max_array_size) pvs) 0) asked_size placed_size
          q.pv_descriptor (from t v k) (many t v k)

    range_inside : from t v k + many t v k ≤ length q.pv_descriptor
    range_inside =
        let (begins, ends, whole) = range_of-inside t v k lt in omega (arith, whole, ends, same.pvs)

    told_again :
        IsFresh q k
        → slice
            (copy_into q.pv_descriptor
              (from t v k)
              (map (asked s ca channels) (slice q.pv_descriptor (from t v k) (many t v k))))
            (from t v k)
            (many t v k)
          ≡ told k
    told_again fresh =
        first_copy (map (asked s ca channels))
          (λ pvs. place (map (discard_large t.max_array_size) pvs) 0) asked_size placed_size
          q.pv_descriptor (from t v k) (many t v k) range_inside
        ∙ ap (map (asked s ca channels)) fresh.range

    fill_range_pvs : (fill_range s ca channels q k).pv_descriptor ≡ new_pvs
    unfolding fill_range fill_memory_sizes lay_out
    fill_range_pvs = rw (same_range k, same.limit) refl

    fill_range_sizes :
        IsFresh q k → (fill_range s ca channels q k).memory_size ≡ set q.memory_size k (memory_of k)
    unfolding fill_range fill_memory_sizes lay_out
    fill_range_sizes fresh =
        rw (same_range k, same.limit, fresh.size)
          (ap (λ pvs. set q.memory_size k (sum_sizes t.max_array_size pvs 0)) (told_again fresh))

    fill_range_memory :
        IsFresh q k
        → (fill_range s ca channels q k).memory ≡ set q.memory k (replicate (memory_of k) 0)
    unfolding fill_range fill_memory_sizes lay_out
    fill_range_memory fresh =
        rw (same_range k, same.limit, fresh.size)
          (ap (λ pvs. set q.memory k (replicate (sum_sizes t.max_array_size pvs 0) 0))
            (told_again fresh))

    pub fill_range-SameNumbers : IsFresh q k → SameNumbers t (fill_range s ca channels q k)
    unfolding fill_range fill_memory_sizes
    fill_range-SameNumbers fresh = record {
      variables = same.variables;
      threads = same.threads;
      chunk = same.chunk;
      limit = same.limit;
      pvs =
          ap length fill_range_pvs
          ∙ length-rewrite_region (map (asked s ca channels))
              (λ pvs. place (map (discard_large t.max_array_size) pvs) 0) asked_size placed_size
              q.pv_descriptor (from t v k) (many t v k)
          ∙ same.pvs;
      sizes =
          ap length (fill_range_sizes fresh)
          ∙ length-set q.memory_size k (memory_of k)
          ∙ same.sizes;
      memories =
          ap length (fill_range_memory fresh)
          ∙ length-set q.memory k (replicate (memory_of k) 0)
          ∙ same.memories;
    }

    -- The thread lays its range out.
    pub fill_range-IsFilled : IsFresh q k → IsFilled (fill_range s ca channels q k) k
    fill_range-IsFilled fresh = record {
      range =
          ap (λ pvs. slice pvs (from t v k) (many t v k)) fill_range_pvs
          ∙ slice-rewrite_region (map (asked s ca channels))
              (λ pvs. place (map (discard_large t.max_array_size) pvs) 0) asked_size placed_size
              q.pv_descriptor (from t v k) (many t v k) range_inside
          ∙ ap
              (λ pvs.
                place (map (discard_large t.max_array_size) (map (asked s ca channels) pvs)) 0)
              fresh.range;
      size =
          ap (λ ns. get_or ns k 0) (fill_range_sizes fresh)
          ∙ get_or-set_self q.memory_size k (memory_of k) 0 (omega (arith, same.sizes));
      memory =
          ap (λ ms. get_or ms k []) (fill_range_memory fresh)
          ∙ get_or-set_self q.memory k (replicate (memory_of k) 0) []
              (omega (arith, same.memories));
    }

    module _ (fresh : IsFresh q k) (j : ℕ) (j_lt : j < t.number_of_pool_threads) (ne : k ≢ j) where
      -- Another thread's range and memory stay.
      other_range :
          slice (fill_range s ca channels q k).pv_descriptor (from t v j) (many t v j)
          ≡ slice q.pv_descriptor (from t v j) (many t v j)
      other_range =
          let (begins, ends, whole) = range_of-inside t v k lt in
          let (begins', ends', whole') = range_of-inside t v j j_lt in
          let apart : (from t v j + many t v j ≤ from t v k)
              ⊎ (from t v k + many t v k ≤ from t v j) =
            elim (dec_lt j k) [
              | yes less ↦ inl (omega (arith, whole', range_of-apart t v j k less lt))
              | no more ↦ inr (omega (arith, whole, range_of-apart t v k j (omega arith) j_lt))
            ] in
          ap (λ pvs. slice pvs (from t v j) (many t v j)) fill_range_pvs
          ∙ rewrite_region-apart (map (asked s ca channels))
              (λ pvs. place (map (discard_large t.max_array_size) pvs) 0) asked_size placed_size
              q.pv_descriptor (from t v k) (many t v k) range_inside (from t v j) (many t v j) apart

      other_size : get_or (fill_range s ca channels q k).memory_size j 0 ≡ get_or q.memory_size j 0
      other_size =
          ap (λ ns. get_or ns j 0) (fill_range_sizes fresh)
          ∙ get_or-set_ne q.memory_size (memory_of k) 0 ne

      other_memory : get_or (fill_range s ca channels q k).memory j [] ≡ get_or q.memory j []
      other_memory =
          ap (λ ms. get_or ms j []) (fill_range_memory fresh)
          ∙ get_or-set_ne q.memory (replicate (memory_of k) 0) [] ne

      pub kept-IsFilled : IsFilled q j → IsFilled (fill_range s ca channels q k) j
      kept-IsFilled f = record {
        range = other_range ∙ f.range;
        size = other_size ∙ f.size;
        memory = other_memory ∙ f.memory;
      }

      pub kept-IsFresh : IsFresh q j → IsFresh (fill_range s ca channels q k) j
      kept-IsFresh f = record { range = other_range ∙ f.range; size = other_size ∙ f.size }
