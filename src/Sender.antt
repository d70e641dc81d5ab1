-- ===== src/Sender.antt =====
-- PrioritySender (Source/Components/Interfaces/PrioritySender/PrioritySender.h and .cpp): the
-- process that sends the variables of the data source, those that changed first.
pub mod Message
pub mod Cycle
pub mod Share
pub mod Setup
pub mod Send
pub mod Request
pub mod Pool
pub mod Tests
use marte2hieratika.Base.{ℕ, List}

-- The fields of a PrioritySender that its threads share.
pub record PrioritySender : Type 0 where
  pub index_list : List ℕ
  pub index_list_threads : List ℕ
  pub memory : List ℕ
  pub memory_threads : List ℕ
  pub change_flag : List ℕ
  pub number_of_variables : ℕ
  pub current_idx : ℕ
  pub current_idx_threads : ℕ
  pub current_change_pos : ℕ
  pub number_of_signal_to_be_sent : ℕ
  pub number_of_pool_threads : ℕ
  pub n_threads_finished : ℕ
  pub chunck_counter : ℕ
  pub number_of_chunks : ℕ
  pub number_of_changed_variables : ℕ
  pub max_bytes_per_cycle : ℕ
  pub max_var_size : ℕ
  pub chunk_size : ℕ
  pub reset_counter : ℕ
  pub send_only_changed : ℕ
