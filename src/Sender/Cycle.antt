-- ===== src/Sender/Cycle.antt =====
-- `PrioritySenderCycleLoop` in PrioritySender.cpp: one round of the loop that chooses the variables
-- of the next cycle and hands them to the pool threads. What the data source, the clock and the
-- pool threads do between the rounds are arguments of the round.
pub mod Order
pub mod Window
pub mod Frame
use marte2hieratika.Base.{
  ℕ, zero, suc, ◌+◌, ◌-◌, ◌%◌, Bool, true, false, ◌||◌, List, [], ◌∷◌, get_or, set, add32, sub32,
  mul32, ltb, leb, ◌==◌, if◌then◌else◌,
}
use marte2hieratika.Subscriber.{PvDescriptor, no_pv, value_size}
use marte2hieratika.Sender.{PrioritySender}

-- The entries at `i` and `j` change places, through `temp`.
pub swap : List ℕ → ℕ → ℕ → List ℕ
swap xs i j = set (set xs i (get_or xs j 0)) j (get_or xs i 0)

module _ (pvs : List PvDescriptor) where
  -- `numberOfElements * memorySize` of the descriptor at a position.
  abbrev pub size_at : ℕ → ℕ
  size_at i = value_size (get_or pvs i no_pv)

  -- The position `offset` places behind `current_idx`.
  abbrev pub position : PrioritySender → ℕ → ℕ
  position t offset = add32 t.current_idx offset % t.number_of_variables

  abbrev pub before : PrioritySender → ℕ → ℕ
  before t j = if j == 0 then t.number_of_variables - 1 else j - 1

  -- `for (j = currentChangePos; j > 0; j--)`: the entry moves forward past larger variables.
  pub push_forward : PrioritySender → ℕ → ℕ → List ℕ → List ℕ
  push_forward t pv_size zero xs = xs
  push_forward t pv_size (suc j) xs =
      let here = position t (suc j) in
      let rest = push_forward t pv_size j (swap xs (before t here) here) in
      if ltb pv_size (size_at (before t here)) then rest else xs

  -- One round of the insertion loop: a signal that has changed goes behind those already in front.
  pub insert_changed : PrioritySender → ℕ → PrioritySender
  insert_changed t i =
      let here = position t i in
      let swapped = swap t.index_list (position t t.current_change_pos) here in
      if get_or t.change_flag (get_or t.index_list here 0) 0 == 1
      then record t {
        index_list = push_forward t (size_at here) t.current_change_pos swapped;
        current_change_pos = add32 t.current_change_pos 1;
      }
      else t

  -- The rounds `i` to `i + k` of the loop.
  pub insert_all_changed : PrioritySender → ℕ → ℕ → PrioritySender
  insert_all_changed t zero i = t
  insert_all_changed t (suc k) i = insert_all_changed (insert_changed t i) k (i + 1)

  -- The loop against `maxBytesPerCycle`, with `k` variables left to check: how many are sent.
  pub fit_bytes : PrioritySender → ℕ → ℕ → ℕ → ℕ
  fit_bytes t zero n total = n
  fit_bytes t (suc k) n total =
      let total' = add32 total (size_at (position t n)) in
      let rest = fit_bytes t k (n + 1) total' in
      if ltb t.max_bytes_per_cycle total' then (if ltb 0 n then n - 1 else n) else rest

  abbrev pub max_signals : PrioritySender → ℕ
  max_signals t = mul32 t.number_of_signal_to_be_sent t.number_of_pool_threads

  -- The choice by priority, or by turns while the first chunks go out: the sender and `nVariables`.
  pub choose : PrioritySender → ℕ → PrioritySender × ℕ
  choose t chunks_read =
      let sorted = insert_all_changed t t.number_of_variables 0 in
      if leb t.number_of_chunks chunks_read
      then (sorted, sorted.current_change_pos)
      else (record t { chunck_counter = add32 t.chunck_counter 1 }, max_signals t)

  abbrev pub clamp_count : PrioritySender → ℕ → ℕ
  clamp_count t n =
      let wanted = (if t.send_only_changed == 0 then max_signals t else n) in
      if ltb (max_signals t) wanted then max_signals t else wanted

  -- `currentChangePos` after `n` variables were taken.
  abbrev pub take_changed : PrioritySender → ℕ → PrioritySender
  take_changed t n = record t {
    current_change_pos = if ltb n t.current_change_pos then t.current_change_pos - n else 0;
  }

  -- Too many signals have changed, or the reset is due: by turns again.
  pub restart : PrioritySender → ℕ → PrioritySender
  restart t send_counter =
      let too_many = ltb (sub32 t.number_of_variables (max_signals t)) t.current_change_pos in
      if too_many || leb t.reset_counter send_counter
      then record t { current_change_pos = 0; chunck_counter = 0 }
      else t

  -- The block under `if (!changed)`, after `Synchronise`: the sender and `nVariables`.
  pub schedule : PrioritySender → ℕ → ℕ → PrioritySender × ℕ
  schedule t chunks_read send_counter =
      let (chosen, wanted) = choose t chunks_read in
      let n = fit_bytes chosen (clamp_count chosen wanted) 0 0 in
      (restart (take_changed chosen n) send_counter, n)

-- The block under `if (nThreadsFinishedTmp == arg.numberOfPoolThreads)`: the pool threads get the
-- memory and the list, and the window moves on.
pub hand_out : PrioritySender → ℕ → PrioritySender
hand_out t n = record t {
  n_threads_finished = 0;
  memory_threads = t.memory;
  index_list_threads = t.index_list;
  current_idx_threads = t.current_idx;
  current_idx = add32 t.current_idx n % t.number_of_variables;
  number_of_changed_variables = n;
}

-- The local variables of the loop.
pub record Loop : Type 0 where
  pub sender : PrioritySender
  pub changed : Bool
  pub n_variables : ℕ
  pub send_counter : ℕ

-- What a round finds: `chunckCounter` and `nThreadsFinished` as it reads them, and the memory and
-- flags that `Synchronise` copies.
pub record Input : Type 0 where
  pub chunks_read : ℕ
  pub finished : ℕ
  pub memory : List ℕ
  pub flags : List ℕ

pub prepare : List PvDescriptor → Loop → Input → Loop
prepare pvs l x =
    let synced = record (l.sender) { memory = x.memory; change_flag = x.flags } in
    let (t, n) = schedule pvs synced x.chunks_read l.send_counter in
    if l.changed then l else record l { sender = t; changed = true; n_variables = n }

-- One round of the loop.
pub cycle : List PvDescriptor → Loop → Input → Loop
cycle pvs l x =
    let p = prepare pvs l x in
    if x.finished == p.sender.number_of_pool_threads
    then record p {
      sender = hand_out p.sender p.n_variables;
      changed = false;
      send_counter = add32 p.send_counter 1;
    }
    else p

pub run_cycles : List PvDescriptor → Loop → List Input → Loop
run_cycles pvs l [] = l
run_cycles pvs l (x ∷ xs) = run_cycles pvs (cycle pvs l x) xs
