-- ===== src/Sender/Tests.antt =====
-- The sender's theorems at concrete inputs.
use marte2hieratika.Base.{
  ◌+◌, ◌*◌, true, some, none, ℕ, zero, suc, ◌≤◌, ◌<◌, ◌≡◌, ◌↔◌, refl, false, List, [], ◌∷◌, arith,
  count, ltb, if◌then◌else◌, replicate,
}
use marte2hieratika.Subscriber.{PvDescriptor, no_pv}
use marte2hieratika.Sender.{PrioritySender}
use marte2hieratika.Sender.Setup.{
  Configuration, constructed, read_defaults, read_settings, initialise, set_data_source,
}
use marte2hieratika.Sender.Setup.Ready.{set_data_source-IsOrdered, initialise-send_all}
use marte2hieratika.Sender.Cycle.{Loop, Input, run_cycles, schedule, max_signals}
use marte2hieratika.Sender.Cycle.Order.{IsOrdered, run_cycles-IsOrdered}
use marte2hieratika.Sender.Cycle.Window.{NoWrap, bytes, schedule-fits, schedule-idle}
use marte2hieratika.Sender.Share.{share_out, list_positions}
use marte2hieratika.Sender.Share.Tiles.{IsSmall, share_out-tiles}

-- Two pool threads and five variables, of which three were handed out from position 3 on.
abbrev five_variables : PrioritySender
five_variables = record {
  index_list = 0 ∷ 1 ∷ 2 ∷ 3 ∷ 4 ∷ [];
  index_list_threads = 4 ∷ 3 ∷ 2 ∷ 1 ∷ 0 ∷ [];
  memory = [];
  memory_threads = [];
  change_flag = replicate 5 0;
  number_of_variables = 5;
  current_idx = 1;
  current_idx_threads = 3;
  current_change_pos = 0;
  number_of_signal_to_be_sent = 2;
  number_of_pool_threads = 2;
  n_threads_finished = 0;
  chunck_counter = 0;
  number_of_chunks = 2;
  number_of_changed_variables = 3;
  max_bytes_per_cycle = 10;
  max_var_size = 100;
  chunk_size = 0;
  reset_counter = 1000;
  send_only_changed = 0;
}

abbrev pv_of : ℕ → PvDescriptor
pv_of n = record no_pv { number_of_elements = n; memory_size = 4 }

abbrev first_loop : Loop
first_loop = record { sender = five_variables; changed = false; n_variables = 0; send_counter = 0 }

abbrev two_rounds : List Input
two_rounds =
    record { chunks_read = 2; finished = 1; memory = []; flags = 0 ∷ 1 ∷ 0 ∷ 1 ∷ 1 ∷ [] }
    ∷ record { chunks_read = 2; finished = 2; memory = []; flags = replicate 5 1 }
    ∷ []

each_below : (a : ℕ) → count a (0 ∷ 1 ∷ 2 ∷ 3 ∷ 4 ∷ []) ≡ (if ltb a 5 then 1 else 0)
each_below a = ground arith

each_below_back : (a : ℕ) → count a (4 ∷ 3 ∷ 2 ∷ 1 ∷ 0 ∷ []) ≡ (if ltb a 5 then 1 else 0)
each_below_back a = ground arith

five_variables-IsOrdered : IsOrdered five_variables
five_variables-IsOrdered = record {
  positive = omega arith;
  listed = refl;
  each_once = each_below;
  threads_listed = refl;
  threads_each_once = each_below_back;
  idx_in = omega arith;
}

run_cycles-IsOrdered_example :
    IsOrdered (run_cycles (pv_of 1 ∷ pv_of 2 ∷ []) first_loop two_rounds).sender
run_cycles-IsOrdered_example =
    run_cycles-IsOrdered (pv_of 1 ∷ pv_of 2 ∷ []) first_loop two_rounds five_variables-IsOrdered

five_sizes-NoWrap : NoWrap (replicate 5 (pv_of 2)) five_variables
five_sizes-NoWrap zero = omega arith
five_sizes-NoWrap (suc zero) = omega arith
five_sizes-NoWrap (suc (suc zero)) = omega arith
five_sizes-NoWrap (suc (suc (suc zero))) = omega arith
five_sizes-NoWrap (suc (suc (suc (suc zero)))) = omega arith
five_sizes-NoWrap (suc (suc (suc (suc (suc i))))) = omega arith

schedule-fits_example :
    ((schedule (replicate 5 (pv_of 2)) five_variables 0 0).1
      ≤ max_signals (replicate 5 (pv_of 2)) five_variables)
    × (bytes
          (replicate 5 (pv_of 2))
          five_variables
          (schedule (replicate 5 (pv_of 2)) five_variables 0 0).1
        ≤ 10)
schedule-fits_example = schedule-fits (replicate 5 (pv_of 2)) five_variables 0 0 five_sizes-NoWrap

schedule-idle_example :
    ((schedule (replicate 5 (pv_of 2)) five_variables 0 0).1 ≡ 0)
    ↔ (10 < bytes (replicate 5 (pv_of 2)) five_variables 2)
schedule-idle_example =
    schedule-idle (replicate 5 (pv_of 2)) five_variables 0 0 five_sizes-NoWrap refl (omega arith)

-- Two variables of eight bytes each do not fit into ten: none is sent.
stuck : (schedule (replicate 5 (pv_of 2)) five_variables 0 0).1 ≡ 0
stuck =
    let idle =
      schedule-idle (replicate 5 (pv_of 2)) five_variables 0 0 five_sizes-NoWrap refl
        (omega arith) in
    idle.1 (omega arith)

five_variables-IsSmall : IsSmall five_variables
five_variables-IsSmall = record {
  threads = omega arith;
  threads_small = omega arith;
  idx_in = omega arith;
  no_wrap = omega arith;
}

share_out-tiles_example : share_out five_variables (1 ∷ 0 ∷ []) ≡ list_positions 5 3 3
share_out-tiles_example =
    share_out-tiles five_variables (1 ∷ 0 ∷ []) five_variables-IsSmall refl refl

-- A configuration that asks for changed variables only.
abbrev only_changed : Configuration
only_changed = record {
  number_of_signal_per_thread = some 2;
  server_ip = some (49 ∷ []);
  server_port = some 80;
  number_of_cpus = some 4;
  msec_period = some 10;
  max_bytes_per_cycle = none;
  max_var_size = none;
  connection_timeout = none;
  read_timeout = none;
  chunk_size = none;
  reset_counter = none;
  send_only_changed = some 1;
  debug = none;
}

abbrev configured : PrioritySender
configured = read_defaults (constructed 2) only_changed 2

initialise-send_all_example : configured.send_only_changed ≡ 0
unfolding initialise
initialise-send_all_example =
    initialise-send_all 2 only_changed configured (read_settings only_changed (49 ∷ []) 80 4 10)
      refl

-- Two pool threads of two signals, before the data source is known.
abbrev unset : PrioritySender
unset = record five_variables { current_idx = 0 }

set_data_source-IsOrdered_example :
    let (t', ok) = set_data_source unset 20 5 in
    (ok ≡ true)
    × IsOrdered t'
    × (5 ≤ t'.number_of_chunks * (2 * 2))
    × (t'.number_of_chunks * (2 * 2) < 5 + 2 * 2)
set_data_source-IsOrdered_example =
    set_data_source-IsOrdered unset 20 5 refl (omega arith) (omega arith) (omega arith)
