-- ===== src/Receiver/Setup.antt =====
-- `Initialise` in DiodeReceiver.cpp: the constructor, the configuration, and the descriptors that it
-- leads to; then the round of `DiodeReceiverCycleLoop` over all variables that asks for their types.
pub mod Started
use marte2hieratika.Base.{◌>>=◌, ℕ, suc, false, List, [], ◌∷◌, Option, none, some, drop, get_or}
use marte2hieratika.Marte.{Text, StringHelper}
use marte2hieratika.Channels.{ChannelAccess, Channel}
use marte2hieratika.Receiver.{PvRecDescriptor, Receiver}
use marte2hieratika.Receiver.Directory.{count_variables, load_names}
use marte2hieratika.Receiver.Connect.{void_any_type, connect}

-- What `data.Read` gives for each name, and the variables that `GetVariable` reads from the file of
-- `InputFilePath`: nothing where the name is missing or the file does not open.
pub record Configuration : Type 0 where
  pub server_port : Option ℕ
  pub variables : Option (List Text)
  pub first_variable_name : Option Text
  pub number_of_cpus : Option ℕ
  pub debug : Option ℕ
  pub number_of_init_threads : Option ℕ
  pub max_number_of_variables : Option ℕ
  pub msec_period : Option ℕ
  pub read_timeout : Option ℕ
  pub accept_timeout : Option ℕ
  pub max_array_size : Option ℕ

-- What `Initialise` sets besides the fields of the receiver; `acceptTimeout` is `TTInfiniteWait`
-- where it is not given.
pub record Settings : Type 0 where
  pub port : ℕ
  pub cpus : ℕ
  pub max_variables : ℕ
  pub period : ℕ
  pub read_time : ℕ
  pub accept_time : Option ℕ

abbrev pub or_default : Option ℕ → ℕ → ℕ
or_default none d = d
or_default (some v) d = v

-- The array of descriptors with the names and `at`; the other fields are what `new` left there.
unfoldable pub new_pvs : (ℕ → PvRecDescriptor) → List Text → ℕ → List PvRecDescriptor
new_pvs fresh [] n = []
new_pvs fresh (name ∷ names) n =
    record (fresh n) { pv_name = name; at = void_any_type } ∷ new_pvs fresh names (suc n)

module _ (s : StringHelper) where
  -- The receiver with the variables of the file, where all names that must be there are; `threads`
  -- is the number of threads that `MultiClientService::Initialise` reads, and `fresh` what stands in
  -- the new array.
  unfoldable pub with_variables :
      (ℕ → PvRecDescriptor) → ℕ → Configuration → Text → List Text → Receiver
  with_variables fresh threads config first variables =
      let limit = or_default config.max_number_of_variables 0xFFFF_FFFF in
      record {
        pvs = new_pvs fresh (load_names s first limit variables) 0;
        number_of_variables = count_variables s first limit variables false 0;
        max_array_size = or_default config.max_array_size 20000;
        max_number_of_threads = threads;
        number_of_init_threads = or_default config.number_of_init_threads 1;
        total_memory_size = 0;
        debug = or_default config.debug 0;
        memory = [];
        memory_2 = [];
        memory_prec = [];
        change_flag = [];
        change_flag_2 = [];
        pv_mapping = [];
        number_of_received_pvs = [];
      }

  -- `Initialise`; `none` where a name is missing that must be there.
  unfoldable pub initialise :
      (ℕ → PvRecDescriptor) → ℕ → Configuration → Option (Receiver × Settings)
  initialise fresh threads config = config.server_port >>= λ port. config.variables >>= λ variables.
      config.first_variable_name >>= λ first. config.number_of_cpus >>= λ cpus. some (
        with_variables fresh threads config first variables,
        record {
          port = port;
          cpus = cpus;
          max_variables = or_default config.max_number_of_variables 0xFFFF_FFFF;
          period = or_default config.msec_period 1000;
          read_time = or_default config.read_timeout 10000;
          accept_time = config.accept_timeout;
        },
      )

  -- All threads of `DiodeReceiverCycleLoop` have asked for the types, with the answers for each
  -- variable.
  unfoldable pub connect_all :
      ChannelAccess → ℕ → List PvRecDescriptor → (ℕ → Channel) → ℕ → List PvRecDescriptor
  connect_all ca max_array_size [] channels n = []
  connect_all ca max_array_size (pv ∷ pvs) channels n =
      connect s ca max_array_size pv (channels n)
      ∷ connect_all ca max_array_size pvs channels (suc n)

  unfoldable pub connected : ChannelAccess → Receiver → (ℕ → Channel) → Receiver
  connected ca r channels = record r { pvs = connect_all ca r.max_array_size r.pvs channels 0 }
