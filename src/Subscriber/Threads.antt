-- ===== src/Subscriber/Threads.antt =====
-- The loop of `Initialise` in EpicsParserAndSubscriber.cpp that gives each thread its CPU mask.
pub mod Pinned
use marte2hieratika.Base.{ℕ, zero, suc, List, [], ◌∷◌, ◌==◌, if◌then◌else◌}
use marte2hieratika.Marte.Cpus.{one_shifted, shift_left}

-- `currentCpuMask`, started again behind the last CPU.
pub wrap_mask : ℕ → ℕ → ℕ
wrap_mask cpus mask = if mask == one_shifted cpus then 1 else mask

-- The masks for so many threads, from `currentCpuMask` on.
pub pool_masks : ℕ → ℕ → ℕ → List ℕ
pool_masks zero cpus mask = []
pool_masks (suc n) cpus mask =
    let current = wrap_mask cpus mask in current ∷ pool_masks n cpus (shift_left current)
