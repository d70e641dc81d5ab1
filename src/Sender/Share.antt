-- ===== src/Sender/Share.antt =====
-- The first lines of `PrioritySender::SendVariables` in PrioritySender.cpp: how the pool threads
-- share the variables that the loop handed out.
pub mod Tiles
pub mod Same
use marte2hieratika.Base.{
  zero, suc, ◌++◌, ℕ, ◌+◌, ◌/◌, ◌%◌, List, [], ◌∷◌, add32, sub32, ◌==◌, if◌then◌else◌,
}
use marte2hieratika.Sender.{PrioritySender}

-- `nVarsPerThread` of a thread.
pub vars_per_thread : PrioritySender → ℕ → ℕ
vars_per_thread t thread_id =
    let share = t.number_of_changed_variables / t.number_of_pool_threads in
    if thread_id == sub32 t.number_of_pool_threads 1
    then add32 share (t.number_of_changed_variables % t.number_of_pool_threads)
    else share

-- The block under the lock: the thread takes the next positions of the list, `listIndex` is its
-- first one.
unfoldable pub take_share : PrioritySender → ℕ → PrioritySender × ℕ
take_share t thread_id = (
  record t {
    current_idx_threads =
        add32 t.current_idx_threads (vars_per_thread t thread_id) % t.number_of_variables;
  },
  t.current_idx_threads,
)

-- The `listIndex` of each variable that a thread sends: it moves on by one, around the list.
unfoldable pub list_positions : ℕ → ℕ → ℕ → List ℕ
list_positions n_variables list_index zero = []
list_positions n_variables list_index (suc k) =
    list_index ∷ list_positions n_variables (add32 list_index 1 % n_variables) k

-- The positions that the threads take, in the order in which they enter the lock.
unfoldable pub share_out : PrioritySender → List ℕ → List ℕ
share_out t [] = []
share_out t (id ∷ ids) =
    let (t', list_index) = take_share t id in
    list_positions t.number_of_variables list_index (vars_per_thread t id) ++ share_out t' ids
