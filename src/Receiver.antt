-- ===== src/Receiver.antt =====
-- DiodeReceiver (Source/Components/Interfaces/DiodeReceiver/DiodeReceiver.h and .cpp): the process
-- that takes the variables from the sender's messages. Here is the data that its parts share.
pub mod Directory
pub mod Message
pub mod Store
pub mod Start
pub mod Setup
pub mod Connect
pub mod Put
pub mod Service
pub mod Server
pub mod Threads
pub mod Samples
pub mod Tests
pub mod SetupTests
use marte2hieratika.Base.{ℕ, List, [], ◌-◌, ◌^◌}
use marte2hieratika.Marte.{Text}

-- The `PvRecDescriptor` of one variable, less its channel identifier. `at` is the id of the
-- `AnyType` in the table `descriptors`.
pub record PvRecDescriptor : Type 0 where
  pub pv_type : ℕ
  pub number_of_elements : ℕ
  pub pv_name : Text
  pub at : ℕ
  pub total_size : ℕ
  pub offset : ℕ

-- `PV_NAME_MAX_SIZE_REC`, `INDEX_INIT_ID`, `INDEX_NOT_FOUND_ID` and `NUMBER_OF_TYPES`.
abbrev pub pv_name_max_size_rec : ℕ
pv_name_max_size_rec = 64

abbrev pub index_init_id : ℕ
index_init_id = 0xFFFF_FFFF

abbrev pub index_not_found_id : ℕ
index_not_found_id = 0xFFFF_FFFE

abbrev pub number_of_types : ℕ
number_of_types = 11

-- What `pvs[i]` reads outside the array in a total model.
abbrev pub no_pv : PvRecDescriptor
no_pv = record {
  pv_type = 0;
  number_of_elements = 0;
  pv_name = [];
  at = 0;
  total_size = 0;
  offset = 0;
}

-- The fields of a DiodeReceiver that the threads share. Pointers to buffers are their bytes; the
-- configuration is what `Initialise` read.
pub record Receiver : Type 0 where
  pub pvs : List PvRecDescriptor
  pub number_of_variables : ℕ
  pub max_array_size : ℕ
  pub max_number_of_threads : ℕ
  pub number_of_init_threads : ℕ
  pub total_memory_size : ℕ
  pub debug : ℕ
  pub memory : List ℕ
  pub memory_2 : List ℕ
  pub memory_prec : List ℕ
  pub change_flag : List ℕ
  pub change_flag_2 : List ℕ
  pub pv_mapping : List ℕ
  pub number_of_received_pvs : List ℕ
