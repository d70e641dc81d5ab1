-- ===== src/Sender/Setup.antt =====
-- How a PrioritySender comes to be in PrioritySender.cpp: the constructor, `Initialise`, which reads
-- the configuration, and `SetDataSource`.
pub mod Ready
use marte2hieratika.Base.{
  ℕ, zero, suc, ◌+◌, ◌*◌, ◌/◌, ◌%◌, ◌^◌, Bool, true, false, List, [], ◌∷◌, Option, none, some,
  replicate, ltb, leb, if◌then◌else◌, mul32, add32,
}
use marte2hieratika.Marte.{Text}
use marte2hieratika.Sender.{PrioritySender}

infixl 1 ◌>>=◌
abbrev pub ◌>>=◌ {ℓ κ} : {A : Type ℓ} {B : Type κ} → Option A → (A → Option B) → Option B
none >>= f = none
some a >>= f = f a

-- What `data.Read` gives for each name that `Initialise` reads: the number, or a failure.
pub record Configuration : Type 0 where
  pub number_of_signal_per_thread : Option ℕ
  pub server_ip : Option Text
  pub server_port : Option ℕ
  pub number_of_cpus : Option ℕ
  pub msec_period : Option ℕ
  pub max_bytes_per_cycle : Option ℕ
  pub max_var_size : Option ℕ
  pub connection_timeout : Option ℕ
  pub read_timeout : Option ℕ
  pub chunk_size : Option ℕ
  pub reset_counter : Option ℕ
  pub send_only_changed : Option ℕ
  pub debug : Option ℕ

-- What `Initialise` sets besides the fields of the sender.
pub record Settings : Type 0 where
  pub server_ip_address : Text
  pub server_port : ℕ
  pub number_of_cpus : ℕ
  pub msec_period : ℕ
  pub connection_timeout : ℕ
  pub number_of_cycles_per_timeout : ℕ
  pub read_timeout : ℕ
  pub debug : ℕ

abbrev pub or_else : Option ℕ → ℕ → ℕ
or_else none d = d
or_else (some v) d = v

-- The sender that the constructor makes; `threads` is the number of pool threads that
-- `MultiThreadService::Initialise` reads.
pub constructed : ℕ → PrioritySender
constructed threads = record {
  index_list = [];
  index_list_threads = [];
  memory = [];
  memory_threads = [];
  change_flag = [];
  number_of_variables = 0;
  current_idx = 0;
  current_idx_threads = 0;
  current_change_pos = 0;
  number_of_signal_to_be_sent = 0;
  number_of_pool_threads = threads;
  n_threads_finished = 0;
  chunck_counter = 0;
  number_of_chunks = 0;
  number_of_changed_variables = 0;
  max_bytes_per_cycle = 0xFFFF_FFFF;
  max_var_size = 0xFFFF_FFFF;
  chunk_size = 1;
  reset_counter = 120;
  send_only_changed = 0;
}

-- `sendOnlyChanged` after `if (data.Read("SendOnlyChanged", sendOnlyChanged))`.
pub read_send_only_changed : Option ℕ → ℕ → ℕ
read_send_only_changed none old = old
read_send_only_changed (some v) old = 0

-- The reads with a default, where all names that must be there are.
pub read_defaults : PrioritySender → Configuration → ℕ → PrioritySender
read_defaults t config signals = record t {
  number_of_signal_to_be_sent = signals;
  max_bytes_per_cycle = or_else config.max_bytes_per_cycle 0xFFFF_FFFF;
  max_var_size = or_else config.max_var_size 0xFFFF_FFFF;
  chunk_size = or_else config.chunk_size 1;
  reset_counter = or_else config.reset_counter 120;
  send_only_changed = read_send_only_changed config.send_only_changed t.send_only_changed;
}

pub read_settings : Configuration → Text → ℕ → ℕ → ℕ → Settings
read_settings config ip port cpus period =
    let timeout = or_else config.connection_timeout 10000 in
    record {
      server_ip_address = ip;
      server_port = port;
      number_of_cpus = cpus;
      msec_period = period;
      connection_timeout = timeout;
      number_of_cycles_per_timeout = if ltb 0 period then timeout / period else 0;
      read_timeout = or_else config.read_timeout 10000;
      debug = or_else config.debug 0;
    }

-- `Initialise`, where that of MultiThreadService succeeds; `none` where a name is missing that must
-- be there.
unfoldable pub initialise : PrioritySender → Configuration → Option (PrioritySender × Settings)
initialise t config = do
  signals ← config.number_of_signal_per_thread
  ip ← config.server_ip
  port ← config.server_port
  cpus ← config.number_of_cpus
  period ← config.msec_period
  some (read_defaults t config signals, read_settings config ip port cpus period)

-- `indexList[i] = i` from `i` on, for `k` entries.
pub in_order : ℕ → ℕ → List ℕ
in_order i zero = []
in_order i (suc k) = i ∷ in_order (i + 1) k

-- `SetDataSource`, with what the data source returns for the size of its memory and the number of
-- its variables; the second part is `ret`. Bytes that are allocated and not written count as 0.
pub set_data_source : PrioritySender → ℕ → ℕ → PrioritySender × Bool
set_data_source t total_memory_size number_of_variables =
    let sent_per_cycle = mul32 t.number_of_pool_threads t.number_of_signal_to_be_sent in
    let chunks = number_of_variables / sent_per_cycle in
    let counted = record t {
      number_of_variables = number_of_variables;
      memory = replicate total_memory_size 0;
      memory_threads = replicate total_memory_size 0;
      change_flag = replicate number_of_variables 0;
    } in
    if leb sent_per_cycle number_of_variables
    then (
      record counted {
        index_list = in_order 0 number_of_variables;
        index_list_threads = in_order 0 number_of_variables;
        number_of_chunks =
            if ltb 0 (number_of_variables % sent_per_cycle) then add32 chunks 1 else chunks;
        n_threads_finished = 0;
      },
      true,
    )
    else (counted, false)
