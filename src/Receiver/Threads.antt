-- ===== src/Receiver/Threads.antt =====
-- `DiodeReceiver::AddThread` in DiodeReceiver.cpp: a new thread of the server, with the mask of the
-- next CPU.
pub mod Pinned
use marte2hieratika.Base.{
  ℕ, Bool, true, false, not, List, [], ◌∷◌, ◌++◌, length, leb, if◌then◌else◌,
}
use marte2hieratika.Marte.Cpus.{one_shifted, shift_left}

-- The masks of the threads in `threadPool`, and the fields that `AddThread` reads.
pub record Pool : Type 0 where
  pub thread_pool : List ℕ
  pub current_cpu_mask : ℕ
  pub number_of_cpus : ℕ
  pub max_number_of_threads : ℕ

-- What the framework answers: the new thread is valid, it starts, and it is inserted.
pub record Answers : Type 0 where
  pub is_valid : Bool
  pub starts : Bool
  pub inserts : Bool

-- `currentCpuMask` after a thread has its mask.
pub next_mask : Pool → ℕ
next_mask p =
    let mask = shift_left p.current_cpu_mask in
    if leb (one_shifted p.number_of_cpus) mask then 1 else mask

-- The first component says that there is no error.
pub add_thread : Answers → Pool → Bool × Pool
add_thread x p =
    let moved = record p { current_cpu_mask = next_mask p } in
    let grown = record moved { thread_pool = p.thread_pool ++ (p.current_cpu_mask ∷ []) } in
    if leb p.max_number_of_threads (length p.thread_pool)
    then (false, p)
    else (if not x.is_valid
        then (false, p)
        else (if not x.starts
            then (false, moved)
            else (if x.inserts then (true, grown) else (false, moved))))

-- Calls one after another.
pub add_threads : List Answers → Pool → Pool
add_threads [] p = p
add_threads (x ∷ xs) p = add_threads xs (add_thread x p).1
