-- ===== src/Receiver/Start.antt =====
-- `DiodeReceiver::Start` in DiodeReceiver.cpp, after its threads have asked channel access for the
-- types: the offsets of the variables, and the buffers.
pub mod Ready
use marte2hieratika.Base.{ℕ, ◌+◌, List, [], ◌∷◌, replicate, add32, mul32}
use marte2hieratika.Receiver.{PvRecDescriptor, Receiver, index_init_id}

-- The loop over the variables: the descriptors with their offsets, from `total` on.
pub place_from : List PvRecDescriptor → ℕ → List PvRecDescriptor
place_from [] total = []
place_from (pv ∷ pvs) total =
    record pv { offset = total } ∷ place_from pvs (add32 total (pv.total_size + 8))

-- `totalMemorySize` after the loop.
pub sum_from : List PvRecDescriptor → ℕ → ℕ
sum_from [] total = total
sum_from (pv ∷ pvs) total = sum_from pvs (add32 total (pv.total_size + 8))

-- The state that `Start` leaves, where the server opens.
pub start : Receiver → Receiver
start r =
    let total = sum_from r.pvs 0 in
    record r {
      pvs = place_from r.pvs 0;
      total_memory_size = total;
      memory = replicate total 0;
      memory_2 = replicate total 0;
      memory_prec = replicate total 0;
      change_flag = replicate r.number_of_variables 0;
      change_flag_2 = replicate r.number_of_variables 0;
      pv_mapping = replicate (mul32 2 r.number_of_variables) index_init_id;
      number_of_received_pvs = replicate r.max_number_of_threads 0;
    }
