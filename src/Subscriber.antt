-- ===== src/Subscriber.antt =====
-- EpicsParserAndSubscriber (Source/Components/Interfaces/EpicsParserAndSubscriber/
-- EpicsParserAndSubscriber.h and .cpp): the data source of the sender. Here are its descriptor
-- of a variable and its state.
pub mod Memory
pub mod Synchronise
pub mod Offsets
pub mod Connect
pub mod Parse
pub mod Callbacks
pub mod Threads
pub mod Startup
pub mod Tests
use marte2hieratika.Base.{List, [], ℕ, mul32}
use marte2hieratika.Marte.{Text}

-- `PvDescriptor`, less the channel and event identifiers, the mutex and the `TypeDescriptor`. The
-- pointers `memory` and `timeStamp` are positions in the buffer of the thread `thread`.
pub record PvDescriptor : Type 0 where
  pub pv_type : ℕ
  pub memory : ℕ
  pub number_of_elements : ℕ
  pub memory_size : ℕ
  pub pv_name : Text
  pub index : ℕ
  pub time_stamp : ℕ
  pub offset : ℕ
  pub type_id : ℕ

abbrev pub no_pv : PvDescriptor
no_pv = record {
  pv_type = 0;
  memory = 0;
  number_of_elements = 0;
  memory_size = 0;
  pv_name = [];
  index = 0;
  time_stamp = 0;
  offset = 0;
  type_id = 0;
}

-- `numberOfElements * memorySize`, of two `uint32`.
abbrev pub value_size : PvDescriptor → ℕ
value_size pv = mul32 pv.number_of_elements pv.memory_size

-- The fields of an EpicsParserAndSubscriber that its threads share, less what channel access keeps.
pub record EpicsParserAndSubscriber : Type 0 where
  pub pv_descriptor : List PvDescriptor
  pub memory : List (List ℕ)
  pub memory_size : List ℕ
  pub changed_flag_mem : List ℕ
  pub number_of_variables : ℕ
  pub number_of_pool_threads : ℕ
  pub n_vars_per_chunk : ℕ
  pub max_array_size : ℕ
