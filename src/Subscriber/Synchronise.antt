-- ===== src/Subscriber/Synchronise.antt =====
-- `EpicsParserAndSubscriber::Synchronise` in EpicsParserAndSubscriber.cpp: the memories of the
-- threads and the change flags go out to the sender.
pub mod Find
use marte2hieratika.Base.{
  u32_mod, ℕ, zero, suc, ◌+◌, ◌%◌, ◌&&◌, List, [], ◌∷◌, take, copy_into, replicate, get_or, add32,
  sub32, u64_mod, ltb, ◌==◌, if◌then◌else◌,
}
use marte2hieratika.Subscriber.{PvDescriptor, EpicsParserAndSubscriber}

-- The loop over the threads: the memories are copied one behind another.
pub copy_memories : List (List ℕ) → List ℕ → ℕ → List ℕ → List ℕ
copy_memories [] sizes offset memory_out = memory_out
copy_memories (m ∷ ms) [] offset memory_out = memory_out
copy_memories (m ∷ ms) (n ∷ ns) offset memory_out =
    copy_memories ms ns ((offset + n) % u32_mod) (copy_into memory_out offset (take n m))

-- The bytes and flags that go out, and the data source with its flags reset.
pub synchronise :
    EpicsParserAndSubscriber → List ℕ → List ℕ → List ℕ × List ℕ × EpicsParserAndSubscriber
synchronise t memory_out changed_flags = (
  copy_memories t.memory t.memory_size 0 memory_out,
  copy_into changed_flags 0 (take t.number_of_variables t.changed_flag_mem),
  record t {
    changed_flag_mem = copy_into t.changed_flag_mem 0 (replicate t.number_of_variables 0);
  },
)
