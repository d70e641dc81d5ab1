-- ===== src/Receiver/Put.antt =====
-- The rest of `DiodeReceiverCycleLoop` in DiodeReceiver.cpp: the variables of a thread, and one round
-- in which the variables that have changed are put.
pub mod Round
use Prim.Native.Nat.{bit_or}
use marte2hieratika.Base.{
  ℕ, zero, suc, ◌+◌, ◌-◌, ◌/◌, List, [], ◌∷◌, ◌++◌, drop, get_or, add32, sub32, mul32, ltb, ◌==◌,
  if◌then◌else◌,
}
use marte2hieratika.Marte.{Text}
use marte2hieratika.Receiver.{Receiver, no_pv}
use marte2hieratika.Receiver.Store.{synchronise}

-- `beg` and `end` of a thread.
pub range_of : Receiver → ℕ → ℕ × ℕ
range_of r thread_id =
    let vars_per_thread = r.number_of_variables / r.number_of_init_threads in
    let end = mul32 (add32 thread_id 1) vars_per_thread in
    (
      mul32 thread_id vars_per_thread,
      if ltb (sub32 r.number_of_variables end) r.number_of_init_threads
          then r.number_of_variables
          else end,
    )

-- A call of `ca_array_put`: the type, the number of elements, the channel by its name, and the
-- memory from the pointer on.
pub record Put : Type 0 where
  pub put_type : ℕ
  pub elements : ℕ
  pub channel : Text
  pub bytes : List ℕ

pub put_of : Receiver → ℕ → Put
put_of r index =
    let pv = get_or r.pvs index no_pv in
    record {
      put_type = bit_or pv.pv_type 0x8000;
      elements = pv.number_of_elements;
      channel = pv.pv_name;
      bytes = drop pv.offset r.memory_2;
    }

-- The loop over the variables from `index` on, `k` of them.
pub put_range : Receiver → ℕ → ℕ → List Put
put_range r index zero = []
put_range r index (suc k) =
    let rest = put_range r (index + 1) k in
    if get_or r.change_flag_2 index 0 == 1 then put_of r index ∷ rest else rest

pub put_thread : Receiver → ℕ → List Put
put_thread r thread_id = let (beg, end) = range_of r thread_id in put_range r beg (end - beg)

-- `arg.Synchronise(arg.memory2, arg.changeFlag2)` of the first thread.
pub synchronise_round : Receiver → Receiver
synchronise_round r =
    let (memory, flags, r') = synchronise r r.memory_2 r.change_flag_2 in
    record r' { memory_2 = memory; change_flag_2 = flags }
