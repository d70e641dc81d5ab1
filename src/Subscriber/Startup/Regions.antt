-- ===== src/Subscriber/Startup/Regions.antt =====
-- Where the variables lie in the memory that goes out, once all threads have started.
use marte2hieratika.Base.{
  ℕ, ◌+◌, ◌*◌, ◌-◌, ◌≤◌, ◌<◌, ◌≡◌, refl, ap, sym, subst, ◌∙◌, true, List, some, length, length-map,
  get_or, slice, arith, u32_mod,
}
use native.Mathlib.Decide.{ℕ_discrete}
use marte2hieratika.Marte.{StringHelper}
use marte2hieratika.Channels.{ChannelAccess, Channel}
use marte2hieratika.Subscriber.{PvDescriptor, no_pv, EpicsParserAndSubscriber}
use marte2hieratika.Subscriber.Memory.{range_of, place, discard_large}
use marte2hieratika.Subscriber.Memory.Ranges.{multiple_in}
use marte2hieratika.Subscriber.Memory.Regions.{
  region_size, total_size, place-above, place-apart, sum_sizes_lem,
}
use marte2hieratika.Subscriber.Offsets.{remap_offsets}
use marte2hieratika.Subscriber.Offsets.Remap.{thread_of, remap_offsets_lem}
use marte2hieratika.Subscriber.Synchronise.Find.{sizes_before}
use marte2hieratika.Subscriber.Startup.{
  Startup, ThreadStep, startup_run, not_started, is_initialised,
}
use marte2hieratika.Subscriber.Startup.Filled.{
  SameNumbers, IsFilled, from, many, told, kept, range_of-inside,
}
use marte2hieratika.Subscriber.Startup.Run.{IsParsed, startup_run-IsReady}
use marte2hieratika.Subscriber.Startup.Rewrite.{length-slice}
use marte2hieratika.Subscriber.Startup.Places.{
  IsStamped, place-IsStamped, remap_from-IsStamped, get_or-slice, sizes_before-le,
  remap_from-region, place-memory, thread_of-range, thread_of-le,
}

-- The descriptor of a variable.
abbrev pub descriptor : EpicsParserAndSubscriber → ℕ → PvDescriptor
descriptor t i = get_or t.pv_descriptor i no_pv

-- `GetTotalMemorySize`, where the sum does not wrap around.
abbrev pub total_memory_size : EpicsParserAndSubscriber → ℕ
total_memory_size t = sizes_before t.memory_size t.number_of_pool_threads

-- The end of the region of a variable, for its value and its timestamp.
abbrev pub region_end : PvDescriptor → ℕ
region_end pv = pv.offset + region_size pv

module _ (s : StringHelper) (ca : ChannelAccess) (channels : ℕ → Channel)
    (t : EpicsParserAndSubscriber) (v : IsParsed t) where
  -- The sizes of the variables of each range, with eight bytes more for each, are below 2^32.
  abbrev pub RangesSmall : Type 0
  RangesSmall =
      (k : ℕ)
      → k < t.number_of_pool_threads
      → 8 * length (told s ca channels t v.divided k)
          + total_size (kept s ca channels t v.divided k)
        < u32_mod

  module _ (small : RangesSmall) (p : EpicsParserAndSubscriber) (same : SameNumbers t p)
      (all : (k : ℕ) → k < t.number_of_pool_threads → IsFilled s ca channels t v.divided p k) where
    pub kept_size :
        (k : ℕ)
        → k < t.number_of_pool_threads
        → length (kept s ca channels t v.divided k) ≡ many t v.divided k
    kept_size k lt =
        let (begins, ends, whole) = range_of-inside t v.divided k lt in
        length-map (told s ca channels t v.divided k) (discard_large t.max_array_size)
        ∙ length-map (slice t.pv_descriptor (from t v.divided k) (many t v.divided k)) _
        ∙ length-slice t.pv_descriptor (from t v.divided k) (many t v.divided k)
            (omega (arith, v.described, whole, ends))

    pub placed_there :
        (i : ℕ)
        → i < t.number_of_variables
        → let k = thread_of t i in
          descriptor p i
          ≡ get_or (place (kept s ca channels t v.divided k) 0) (i - from t v.divided k) no_pv
    placed_there i lt =
        let k = thread_of t i in
        let (known, low, high) = thread_of-range t v.divided i lt in
        let (begins, ends, whole) = range_of-inside t v.divided k known in
        let f = all k known in
        sym (
          get_or-slice p.pv_descriptor (from t v.divided k) (many t v.divided k) i no_pv low
            (omega (arith, high, whole)))
        ∙ ap (λ pvs. get_or pvs (i - from t v.divided k) no_pv) f.range

    pub pointer :
        (i : ℕ) → i < t.number_of_variables → (descriptor p i).memory ≡ (descriptor p i).offset
    pointer i lt =
        let there = placed_there i lt in
        ap (λ (pv : PvDescriptor). pv.memory) there
        ∙ place-memory (kept s ca channels t v.divided (thread_of t i)) 0 _
        ∙ sym (ap (λ (pv : PvDescriptor). pv.offset) there)

    pub stamped : (i : ℕ) → i < t.number_of_variables → IsStamped (descriptor p i)
    stamped i lt =
        subst IsStamped (sym (placed_there i lt))
          (place-IsStamped (kept s ca channels t v.divided (thread_of t i)) 0 _)

    pub remapped-IsStamped :
        (i : ℕ) → i < t.number_of_variables → IsStamped (descriptor (remap_offsets p) i)
    unfolding remap_offsets
    remapped-IsStamped i lt = remap_from-IsStamped p p.pv_descriptor 0 0 i (stamped i lt)

    -- A variable lies inside the memory of its thread.
    pub local_inside :
        (i : ℕ)
        → i < t.number_of_variables
        → region_end (descriptor p i) ≤ get_or p.memory_size (thread_of t i) 0
    local_inside i lt =
        let k = thread_of t i in
        let (known, low, high) = thread_of-range t v.divided i lt in
        let (begins, ends, whole) = range_of-inside t v.divided k known in
        let f = all k known in
        let bytes = small k known in
        let above =
          place-above (kept s ca channels t v.divided k) 0 (i - from t v.divided k)
            (omega (arith, bytes)) (omega (arith, kept_size k known, low, high, whole)) in
        let room =
          sum_sizes_lem t.max_array_size (told s ca channels t v.divided k) 0
            (omega (arith, bytes)) in
        let here : region_end (descriptor p i)
            ≡ region_end (
                get_or (place (kept s ca channels t v.divided k) 0) (i - from t v.divided k)
                  no_pv) =
          ap region_end (placed_there i lt) in
        omega (arith, here, above.1, room, f.size)

    pub local_apart :
        (i j : ℕ)
        → i < j
        → j < t.number_of_variables
        → thread_of t i ≡ thread_of t j
        → region_end (descriptor p i) ≤ (descriptor p j).offset
    local_apart i j ij lt e =
        let k = thread_of t i in
        let (known, low, high) = thread_of-range t v.divided i (omega arith) in
        let (known', low', high') = thread_of-range t v.divided j lt in
        let (begins, ends, whole) = range_of-inside t v.divided k known in
        let last : j < (range_of t k).1 = subst (λ x. j < (range_of t x).1) (sym e) high' in
        let bytes = small k known in
        let apart =
          place-apart (kept s ca channels t v.divided k) 0 (i - from t v.divided k)
            (j - from t v.divided k) (omega (arith, bytes)) (omega (arith, low, ij))
            (omega (arith, kept_size k known, low, ij, last, whole)) in
        let one : region_end (descriptor p i)
            ≡ region_end (
                get_or (place (kept s ca channels t v.divided k) 0) (i - from t v.divided k)
                  no_pv) =
          ap region_end (placed_there i (omega arith)) in
        let two : (descriptor p j).offset
            ≡ (get_or (place (kept s ca channels t v.divided k) 0) (j - from t v.divided k)
                no_pv).offset =
          subst
            (λ x.
              (descriptor p j).offset
              ≡ (get_or (place (kept s ca channels t v.divided x) 0) (j - from t v.divided x)
                  no_pv).offset)
            (sym e) (ap (λ (pv : PvDescriptor). pv.offset) (placed_there j lt)) in
        omega (arith, one, two, apart)

    -- The last thread moves a variable behind the memories of the threads before its own.
    pub moved :
        (i : ℕ)
        → i < t.number_of_variables
        → sizes_before p.memory_size t.number_of_pool_threads < u32_mod
        → ((descriptor (remap_offsets p) i).offset
            ≡ (descriptor p i).offset + sizes_before p.memory_size (thread_of t i))
          × (region_size (descriptor (remap_offsets p) i) ≡ region_size (descriptor p i))
    unfolding remap_offsets
    moved i lt total =
        let (known, low, high) = thread_of-range t v.divided i lt in
        let d = v.divided in
        let whole : sizes_before p.memory_size (length p.memory_size)
            ≡ sizes_before p.memory_size t.number_of_pool_threads =
          ap (sizes_before p.memory_size) same.sizes in
        let behind = sizes_before-le p.memory_size (thread_of t i) t.number_of_pool_threads known in
        let chunk : 0 < p.n_vars_per_chunk = omega (arith, same.chunk, d.threads, d.many) in
        let threads : 0 < p.number_of_pool_threads = omega (arith, same.threads, d.threads) in
        let few : p.number_of_pool_threads < u32_mod =
          omega (arith, same.threads, multiple_in t d 1 d.threads, d.many, d.small) in
        let thread : thread_of p i ≡ thread_of t i = rw (same.chunk, same.threads) refl in
        (
          remap_offsets_lem p chunk threads few i (omega (arith, same.pvs, lt))
                (omega (arith, whole, total, behind, local_inside i lt))
              ∙ ap (λ k. (descriptor p i).offset + sizes_before p.memory_size k) thread,
          remap_from-region p p.pv_descriptor 0 0 i,
        )

    pub moved_apart :
        (i j : ℕ)
        → i < j
        → j < t.number_of_variables
        → sizes_before p.memory_size t.number_of_pool_threads < u32_mod
        → (region_end (descriptor (remap_offsets p) i) ≤ (descriptor (remap_offsets p) j).offset)
          × (region_end (descriptor (remap_offsets p) j)
              ≤ sizes_before p.memory_size t.number_of_pool_threads)
    moved_apart i j ij lt total =
        let (at_i, size_i) = moved i (omega arith) total in
        let (at_j, size_j) = moved j lt total in
        let inside_i = local_inside i (omega arith) in
        let inside_j = local_inside j lt in
        let (known, low, high) = thread_of-range t v.divided j lt in
        let le = thread_of-le t v.divided i j ij lt in
        let behind = sizes_before-le p.memory_size (thread_of t j) t.number_of_pool_threads known in
        (
          elim (ℕ_discrete (thread_of t i) (thread_of t j)) [
            | yes e ↦
                let shift : sizes_before p.memory_size (thread_of t i)
                    ≡ sizes_before p.memory_size (thread_of t j) =
                  ap (sizes_before p.memory_size) e in
                omega (arith, at_i, size_i, at_j, shift, local_apart i j ij lt e)
            | no ne ↦
                let between =
                  sizes_before-le p.memory_size (thread_of t i) (thread_of t j) (omega arith) in
                omega (arith, at_i, size_i, at_j, inside_i, between)
          ],
          omega (arith, at_j, size_j, inside_j, behind),
        )

  -- In whatever order the threads of EpicsParserAndSubscriber go through their startup stages, each
  -- from one lock to the next, with any answers of channel access: once `InitialisationDone` holds,
  -- each variable that has elements has a region of its own in the memory that goes out to the
  -- sender, of as many bytes as its value has and eight more. Of two variables, the region of the
  -- one ends before that of the later one begins, and the later one ends inside
  -- `GetTotalMemorySize`; and the pointer to the timestamp of each is right behind its value in the
  -- memory of its thread. A variable without elements, as it is where the channel is not connected
  -- or has too many, has a region of no bytes. `ParseAndSubscribe` has left the descriptors, empty
  -- memories and a chunk for each thread at least as large as the number of threads; the sizes of
  -- the variables of each range, with eight bytes more for each, are below 2^32, and so are those
  -- of all memories together.
  pub startup_run-apart :
      (steps : List ThreadStep) (q : Startup) (i j : ℕ)
      → RangesSmall
      → startup_run s ca channels steps (not_started t) ≡ some q
      → is_initialised q ≡ true
      → total_memory_size q.source < u32_mod
      → i < j
      → j < t.number_of_variables
      → (region_end (descriptor q.source i) ≤ (descriptor q.source j).offset)
        × (region_end (descriptor q.source j) ≤ total_memory_size q.source)
        × IsStamped (descriptor q.source i)
        × IsStamped (descriptor q.source j)
  unfolding remap_offsets
  startup_run-apart steps q i j small e ready total ij lt =
      let r = startup_run-IsReady s ca channels t v steps q e ready in
      let p = r.before in
      let sizes : total_memory_size q.source ≡ sizes_before p.memory_size t.number_of_pool_threads =
        ap total_memory_size r.moved ∙ ap (sizes_before p.memory_size) r.same.threads in
      let apart = moved_apart small p r.same r.all_filled i j ij lt (omega (arith, sizes, total)) in
      subst
        (λ x.
          (region_end (descriptor x i) ≤ (descriptor x j).offset)
          × (region_end (descriptor x j) ≤ total_memory_size x)
          × IsStamped (descriptor x i)
          × IsStamped (descriptor x j))
        (sym r.moved)
        (
          apart.0,
          omega (arith, apart.1, sizes, ap total_memory_size r.moved),
          remapped-IsStamped small p r.same r.all_filled i (omega arith),
          remapped-IsStamped small p r.same r.all_filled j lt,
        )
