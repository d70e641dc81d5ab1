-- ===== src/Subscriber/Startup/Found.antt =====
-- What `Synchronise` hands out once all threads have started.
use marte2hieratika.Base.{
  ℕ, ◌+◌, ◌≤◌, ◌<◌, ◌≡◌, ap, sym, ◌∙◌, true, List, [], some, length, get_or, slice, arith, u32_mod,
}
use marte2hieratika.Marte.{StringHelper}
use marte2hieratika.Channels.{ChannelAccess, Channel}
use marte2hieratika.Subscriber.{EpicsParserAndSubscriber}
use marte2hieratika.Subscriber.Memory.Regions.{region_size}
use marte2hieratika.Subscriber.Offsets.{remap_offsets}
use marte2hieratika.Subscriber.Offsets.Remap.{thread_of}
use marte2hieratika.Subscriber.Synchronise.Find.{Sizes, sizes_before, synchronise-find}
use marte2hieratika.Subscriber.Synchronise.{synchronise}
use marte2hieratika.Subscriber.Startup.{
  Startup, ThreadStep, startup_run, not_started, is_initialised,
}
use marte2hieratika.Subscriber.Startup.Run.{IsParsed, startup_run-IsReady}
use marte2hieratika.Subscriber.Startup.Places.{remap_from-memory, Sizes-length, thread_of-range}
use marte2hieratika.Subscriber.Startup.Regions.{
  descriptor, total_memory_size, RangesSmall, moved, pointer, local_inside,
}

module _ (s : StringHelper) (ca : ChannelAccess) (channels : ℕ → Channel)
    (t : EpicsParserAndSubscriber) (v : IsParsed t) where
  -- In whatever order the threads of EpicsParserAndSubscriber go through their startup stages, with
  -- any answers of channel access: once `InitialisationDone` holds, and whatever stands in the
  -- memories of the threads by then, the memory that `Synchronise` hands to the sender holds, at
  -- the offset of each variable, what the memory of its thread holds at the place that the thread
  -- gave the variable. The data source is as in startup_run-apart; the memories have the sizes kept
  -- for them, which fit into the memory that goes out; both arrays of flags have an entry for each
  -- variable; and the bytes that are read are in the region of the variable.
  pub startup_run-synchronise :
      (steps : List ThreadStep) (q : Startup) (m : List (List ℕ))
      (memory_out changed_flags : List ℕ) (i n : ℕ)
      → RangesSmall s ca channels t v
      → startup_run s ca channels steps (not_started t) ≡ some q
      → is_initialised q ≡ true
      → total_memory_size q.source < u32_mod
      → total_memory_size q.source ≤ length memory_out
      → Sizes m q.source.memory_size
      → length q.source.changed_flag_mem ≡ q.source.number_of_variables
      → length changed_flags ≡ q.source.number_of_variables
      → i < t.number_of_variables
      → n ≤ region_size (descriptor q.source i)
      → slice
          (synchronise (record (q.source) { memory = m }) memory_out changed_flags).0
          (descriptor q.source i).offset
          n
        ≡ slice (get_or m (thread_of t i) []) (descriptor q.source i).memory n
  unfolding remap_offsets
  startup_run-synchronise steps q m memory_out changed_flags i n small e ready total room sized
        flags flags' lt le =
      let r = startup_run-IsReady s ca channels t v steps q e ready in
      let p = r.before in
      let k = thread_of t i in
      let (known, low, high) = thread_of-range t v.divided i lt in
      let sizes : total_memory_size q.source ≡ sizes_before p.memory_size t.number_of_pool_threads =
        ap total_memory_size r.moved ∙ ap (sizes_before p.memory_size) r.same.threads in
      let (at, size) =
        moved s ca channels t v small p r.same r.all_filled i lt (omega (arith, sizes, total)) in
      let stays : (descriptor q.source i).memory ≡ (descriptor p i).offset =
        ap (λ (x : EpicsParserAndSubscriber). (descriptor x i).memory) r.moved
        ∙ remap_from-memory p p.pv_descriptor 0 0 i
        ∙ pointer s ca channels t v small p r.same r.all_filled i lt in
      let there : (descriptor q.source i).offset
          ≡ sizes_before q.source.memory_size k + (descriptor p i).offset =
        ap (λ (x : EpicsParserAndSubscriber). (descriptor x i).offset) r.moved
        ∙ omega (
          arith,
          at,
          ap (λ (x : EpicsParserAndSubscriber). sizes_before x.memory_size k) r.moved,
        ) in
      let same_sizes : q.source.memory_size ≡ p.memory_size =
        ap (λ (x : EpicsParserAndSubscriber). x.memory_size) r.moved in
      let count : length q.source.memory_size ≡ t.number_of_pool_threads =
        ap length same_sizes ∙ r.same.sizes in
      let whole : sizes_before q.source.memory_size (length q.source.memory_size)
          ≡ total_memory_size q.source =
        ap (sizes_before q.source.memory_size) (
          count
          ∙ sym (
              ap (λ (x : EpicsParserAndSubscriber). x.number_of_pool_threads) r.moved
              ∙ r.same.threads)) in
      let region : region_size (descriptor q.source i) ≡ region_size (descriptor p i) =
        ap (λ (x : EpicsParserAndSubscriber). region_size (descriptor x i)) r.moved ∙ size in
      let found =
        synchronise-find (record (q.source) { memory = m }) memory_out changed_flags k
          (descriptor p i).offset n sized (omega (arith, whole, total)) (omega (arith, whole, room))
          flags flags' (omega (arith, Sizes-length m q.source.memory_size sized, count, known))
          (omega (
            arith,
            le,
            region,
            local_inside s ca channels t v small p r.same r.all_filled i lt,
            ap (λ ns. get_or ns k 0) same_sizes,
          )) in
      rw (there, stays) (found.0)
