-- ===== src/Receiver/SetupTests.antt =====
-- The set-up of a receiver at a concrete configuration.
use marte2hieratika.Base.{List, ℕ, ◌≡◌, refl, true, [], ◌∷◌, none, some, arith, false}
use marte2hieratika.Marte.Plain.{plain, compare_text}
use marte2hieratika.Channels.{ChannelAccess, Channel, is_named}
use marte2hieratika.Receiver.{PvRecDescriptor, Receiver}
use marte2hieratika.Receiver.Directory.{
  count_variables, fill_names, sift_name, swap_names, load_names,
}
use marte2hieratika.Receiver.Connect.{set_type, cainfo, connect}
use marte2hieratika.Receiver.Store.Layout.{IsStarted}
use marte2hieratika.Receiver.Start.{start}
use marte2hieratika.Receiver.Start.Ready.{bytes_of}
use marte2hieratika.Receiver.Threads.{Pool, Answers, add_threads}
use marte2hieratika.Receiver.Threads.Pinned.{IsPinned, add_threads-IsPinned}
use marte2hieratika.Receiver.Setup.{
  new_pvs, Configuration, Settings, initialise, with_variables, connect_all, connected,
}
use marte2hieratika.Receiver.Setup.Started.{start-initialise}

-- A file of three variables, of which the last two are taken.
abbrev two_of_three : Configuration
two_of_three = record {
  server_port = some 80;
  variables = some ((67 ∷ []) ∷ (66 ∷ []) ∷ (65 ∷ []) ∷ []);
  first_variable_name = some (66 ∷ []);
  number_of_cpus = some 4;
  debug = none;
  number_of_init_threads = none;
  max_number_of_variables = none;
  msec_period = none;
  read_timeout = none;
  accept_timeout = none;
  max_array_size = none;
}

-- What stands in a new array.
abbrev stale : ℕ → PvRecDescriptor
stale n = record {
  pv_type = n;
  number_of_elements = 7;
  pv_name = [];
  at = n;
  total_size = 99;
  offset = 5;
}

abbrev loaded : Receiver
loaded =
    with_variables plain stale 3 two_of_three (66 ∷ []) ((67 ∷ []) ∷ (66 ∷ []) ∷ (65 ∷ []) ∷ [])

abbrev settings : Settings
settings = record {
  port = 80;
  cpus = 4;
  max_variables = 0xFFFF_FFFF;
  period = 1000;
  read_time = 10000;
  accept_time = none;
}

-- Each variable has three elements of a type that is not listed.
abbrev some_access : ChannelAccess
some_access = record { type_to_text = λ k. []; dbf_double = 6; max_string_size = 40 }

abbrev three_each : ℕ → Channel
three_each n = record { created = true; state = 2; element_count = 3; field_type = 6 }

initialised : initialise plain stale 3 two_of_three ≡ some (loaded, settings)
unfolding initialise
initialised = refl

two_loaded : loaded.number_of_variables ≡ 2
unfolding with_variables count_variables compare_text
two_loaded = refl

sized : bytes_of (connected plain some_access loaded three_each).pvs ≡ 64
unfolding connected connect_all new_pvs with_variables load_names fill_names sift_name swap_names
    count_variables compare_text connect cainfo set_type is_named
sized = refl

start-initialise_example :
    IsStarted plain (λ k. []) (start (connected plain some_access loaded three_each))
start-initialise_example =
    start-initialise plain some_access (λ k. []) stale 3 two_of_three loaded settings three_each
      initialised (omega (arith, two_loaded)) (omega (arith, sized))

-- Two CPUs and at most three threads; the second of four calls does not start its thread.
abbrev no_threads : Pool
no_threads = record {
  thread_pool = [];
  current_cpu_mask = 1;
  number_of_cpus = 2;
  max_number_of_threads = 3;
}

abbrev good : Answers
good = record { is_valid = true; starts = true; inserts = true }

abbrev four_calls : List Answers
four_calls = good ∷ record good { starts = false } ∷ good ∷ good ∷ []

no_threads-IsPinned : IsPinned no_threads
no_threads-IsPinned = record {
  room = omega arith;
  pinned = tt;
  next = (0, omega arith, refl);
  few = omega arith;
}

add_threads-IsPinned_example : IsPinned (add_threads four_calls no_threads)
add_threads-IsPinned_example = add_threads-IsPinned four_calls no_threads no_threads-IsPinned
