-- ===== src/Subscriber/Memory.antt =====
-- How the threads of EpicsParserAndSubscriber.cpp share the variables and lay them out: the ranges
-- of `Execute` and the loops of `FillMemorySizes`, after channel access has told the size of each
-- variable.
pub mod Ranges
pub mod Regions
use marte2hieratika.Base.{
  ◌%◌, u64_mod, ℕ, ◌+◌, ◌-◌, ◌/◌, List, [], ◌∷◌, map, slice, copy_into, replicate, get_or, set,
  add32, sub32, mul32, ltb, if◌then◌else◌,
}
use marte2hieratika.Subscriber.{PvDescriptor, value_size, EpicsParserAndSubscriber}

-- `beg` and `end` of a thread in `Execute`.
unfoldable pub range_of : EpicsParserAndSubscriber → ℕ → ℕ × ℕ
range_of t thread_id =
    let end = mul32 (add32 thread_id 1) t.n_vars_per_chunk in
    (
      mul32 thread_id t.n_vars_per_chunk,
      if ltb (sub32 t.number_of_variables end) t.number_of_pool_threads
          then t.number_of_variables
          else end,
    )

-- A variable with more elements than `maxArraySize` is discarded.
unfoldable pub discard_large : ℕ → PvDescriptor → PvDescriptor
discard_large max_array_size pv =
    if ltb max_array_size pv.number_of_elements then record pv { number_of_elements = 0 } else pv

-- `memorySize[threadId]` after the first loop.
unfoldable pub sum_sizes : ℕ → List PvDescriptor → ℕ → ℕ
sum_sizes max_array_size [] size = size
sum_sizes max_array_size (pv ∷ pvs) size = sum_sizes max_array_size pvs (
    if ltb max_array_size pv.number_of_elements
    then size
    else (size + (value_size pv + 8)) % u64_mod)

-- The second loop: each variable gets its place, `memoryOffset` behind the last one.
unfoldable pub place : List PvDescriptor → ℕ → List PvDescriptor
place [] memory_offset = []
place (pv ∷ pvs) memory_offset =
    record pv {
      memory = memory_offset;
      offset = memory_offset;
      time_stamp = memory_offset + value_size pv;
    }
    ∷ place pvs (
        if ltb 0 pv.number_of_elements
        then add32 memory_offset (value_size pv + 8)
        else memory_offset)

-- Both loops over the variables of a range: their descriptors and the size of the memory.
unfoldable pub lay_out : ℕ → List PvDescriptor → ℕ → List PvDescriptor × ℕ
lay_out max_array_size pvs size =
    (place (map (discard_large max_array_size) pvs) 0, sum_sizes max_array_size pvs size)

unfoldable pub fill_memory_sizes : EpicsParserAndSubscriber → ℕ → ℕ → ℕ → EpicsParserAndSubscriber
fill_memory_sizes t beg end thread_id =
    let (placed, size) =
      lay_out t.max_array_size (slice t.pv_descriptor beg (end - beg))
        (get_or t.memory_size thread_id 0) in
    record t {
      pv_descriptor = copy_into t.pv_descriptor beg placed;
      memory_size = set t.memory_size thread_id size;
      memory = set t.memory thread_id (replicate size 0);
    }
