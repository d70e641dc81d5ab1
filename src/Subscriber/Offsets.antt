-- ===== src/Subscriber/Offsets.antt =====
-- The end of `CreateSubscriptions` in EpicsParserAndSubscriber.cpp: the last thread turns the
-- offset of each variable in the memory of its thread into one in the memory that `Synchronise`
-- copies.
pub mod Remap
use marte2hieratika.Base.{
  ℕ, zero, suc, ◌+◌, ◌%◌, ◌&&◌, List, [], ◌∷◌, add32, sub32, u64_mod, ltb, ◌==◌, if◌then◌else◌,
}
use marte2hieratika.Subscriber.{PvDescriptor, EpicsParserAndSubscriber}

-- `for (k = 0; k < memCnt; k++)`: the offset with the sizes of the first `k` threads added.
unfoldable pub add_sizes : List ℕ → ℕ → ℕ → ℕ
add_sizes sizes zero offset = offset
add_sizes [] (suc k) offset = offset
add_sizes (n ∷ ns) (suc k) offset = add_sizes ns k ((offset + n) % u64_mod)

-- `memCnt` of the variable `i`, from that of the one before.
unfoldable pub mem_cnt : EpicsParserAndSubscriber → ℕ → ℕ → ℕ
mem_cnt t i cnt =
    let next = (if i % t.n_vars_per_chunk == 0 && ltb 0 i then add32 cnt 1 else cnt) in
    if ltb (sub32 t.number_of_pool_threads 1) next then sub32 t.number_of_pool_threads 1 else next

-- The loop over the variables from `i` on.
unfoldable pub remap_from : EpicsParserAndSubscriber → ℕ → ℕ → List PvDescriptor → List PvDescriptor
remap_from t i cnt [] = []
remap_from t i cnt (pv ∷ pvs) =
    let cnt' = mem_cnt t i cnt in
    record pv { offset = add_sizes t.memory_size cnt' pv.offset } ∷ remap_from t (i + 1) cnt' pvs

unfoldable pub remap_offsets : EpicsParserAndSubscriber → EpicsParserAndSubscriber
remap_offsets t = record t { pv_descriptor = remap_from t 0 0 t.pv_descriptor }
