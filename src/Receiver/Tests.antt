-- ===== src/Receiver/Tests.antt =====
-- The receiver's theorems at concrete inputs.
use marte2hieratika.Base.{
  none, refl, sym, ℕ, ◌≡◌, ◌≢◌, ◌⊎◌, Bool, true, false, List, [], ◌∷◌, some, arith, get_or, length,
  slice, replicate,
}
use mathlib.Core.List.{Perm}
use marte2hieratika.Marte.Plain.{plain}
use marte2hieratika.Receiver.{Receiver}
use marte2hieratika.Receiver.Message.{Header, read_var_name_and_index}
use marte2hieratika.Receiver.Message.Size.{Sized, read-Sized}
use marte2hieratika.Receiver.Directory.{load_names, count_variables, get_local_variable_index}
use marte2hieratika.Receiver.Directory.Search.{Answers, get_local_variable_index_lem}
use marte2hieratika.Receiver.Directory.Sort.{selected, load_names-perm}
use marte2hieratika.Receiver.Store.{write_value, store_value, consume, find_index}
use marte2hieratika.Receiver.Store.Write.{region_kept}
use marte2hieratika.Receiver.Store.Resolve.{Resolved, find_index_lem}
use marte2hieratika.Receiver.Store.Change.{value_in}
use marte2hieratika.Receiver.Store.Step.{store_value_lem}
use marte2hieratika.Receiver.Store.Loop.{consume_total}
use marte2hieratika.Receiver.Store.Layout.{IsStarted}
use marte2hieratika.Receiver.Put.{synchronise_round}
use marte2hieratika.Receiver.Put.Round.{put_threads, flagged_puts, put_threads-synchronise_round}
use marte2hieratika.Receiver.Start.{start}
use marte2hieratika.Receiver.Start.Ready.{start-IsStarted}
use marte2hieratika.Receiver.Server.{Thread, Call, wait_request, termination, server_cycle}
use marte2hieratika.Receiver.Server.Owner.{IsOwner, Run, idle, call, server_cycle-Run}
use marte2hieratika.Receiver.Samples.{
  two_pvs, base_name_dot, name_a, name_b, two_variables, two_variables-IsLaid,
  two_variables-IsStarted, two_names-Ascending, sender_names, no_conversion,
}

-- A payload that holds no message.
abbrev noise : List ℕ
noise = 7 ∷ 34 ∷ 65 ∷ []

-- A message for `B.V`, behind a byte that is none of it: index 0, type 0, size 0, offset 0.
abbrev message_b : List ℕ
message_b = 7 ∷ 34 ∷ 66 ∷ b'.' ∷ 86 ∷ 34 ∷ 58 ∷ 32 ∷ replicate 13 0

-- The header of a message for `B`.
abbrev header_b : Header
header_b = record {
  var_name = name_b;
  received_index = 0;
  received_type_id = 3;
  received_size = 4;
  received_offset = 0;
  processed_size = 6;
  data_pos = 16;
}

abbrev bytes_b : List ℕ
bytes_b = 1 ∷ 2 ∷ 3 ∷ 4 ∷ replicate 8 9

get_local_variable_index_lem_example :
    (res : Bool × ℕ) × (get_local_variable_index plain (name_a ∷ name_b ∷ []) 2 name_b ≡ some res)
    × Answers plain (name_a ∷ name_b ∷ []) 2 name_b 0 2 res
get_local_variable_index_lem_example =
    get_local_variable_index_lem plain (name_a ∷ name_b ∷ []) 2 name_b (omega arith)
      two_names-Ascending

load_names-perm_example :
    Perm
      (load_names plain name_b 2 (name_a ∷ name_b ∷ name_a ∷ name_a ∷ []))
      (selected plain name_b 2 (name_a ∷ name_b ∷ name_a ∷ name_a ∷ []))
    × (count_variables plain name_b 2 (name_a ∷ name_b ∷ name_a ∷ name_a ∷ []) false 0
        ≡ length (selected plain name_b 2 (name_a ∷ name_b ∷ name_a ∷ name_a ∷ [])))
load_names-perm_example = load_names-perm plain name_b 2 (name_a ∷ name_b ∷ name_a ∷ name_a ∷ [])

consume_total_example :
    (r' : Receiver) × (left : List ℕ) × (consume plain no_conversion 4 two_variables noise 0
      ≡ some (r', left))
consume_total_example =
    consume_total plain no_conversion 4 two_variables noise 0 (omega arith) (omega arith)

read-Sized_example :
    Sized plain two_variables
      (length message_b)
      (read_var_name_and_index plain two_variables message_b)
read-Sized_example = read-Sized plain two_variables message_b

region_kept_example :
    slice (write_value no_conversion two_variables 1 header_b true bytes_b) 0 12
    ≡ slice (two_variables.memory) 0 12
region_kept_example =
    region_kept no_conversion two_variables 1 0 header_b true bytes_b two_variables-IsLaid
      (omega arith) (omega arith) (λ e. omega arith) (λ e. omega arith) (omega arith)

find_index_lem_example :
    Resolved plain sender_names two_variables name_b (find_index plain two_variables header_b)
find_index_lem_example =
    find_index_lem plain sender_names two_variables header_b two_variables-IsStarted (omega arith)
      (sym base_name_dot)

store_value_lem_example :
    let r' = store_value no_conversion two_variables 1 header_b true bytes_b 0 in
    (r'.memory ≡ write_value no_conversion two_variables 1 header_b true bytes_b)
    × (value_in r'.memory_prec two_variables 1 ≡ value_in r'.memory two_variables 1)
    × ((r'.change_flag ≡ two_variables.change_flag)
          × (value_in r'.memory two_variables 1
              ≡ value_in two_variables.memory_prec two_variables 1)
        ⊎ (get_or r'.change_flag 1 0 ≡ 1)
          × (value_in r'.memory two_variables 1
              ≢ value_in two_variables.memory_prec two_variables 1))
    × ((j : ℕ) → 1 ≢ j → get_or r'.change_flag j 0 ≡ get_or two_variables.change_flag j 0)
store_value_lem_example =
    store_value_lem plain no_conversion sender_names two_variables 1 header_b true bytes_b 0
      two_variables-IsStarted (omega arith)

-- One thread puts the two variables, of which the second has changed.
abbrev changed_b : Receiver
changed_b = record two_variables { change_flag = 0 ∷ 1 ∷ [] }

put_threads-synchronise_round_example :
    (put_threads (synchronise_round changed_b) 1
      ≡ flagged_puts two_pvs (0 ∷ 1 ∷ []) (replicate 24 0))
    × ((synchronise_round changed_b).change_flag ≡ replicate 2 0)
    × ((synchronise_round changed_b).memory ≡ replicate 24 0)
put_threads-synchronise_round_example =
    put_threads-synchronise_round changed_b
      (record { threads = omega arith; many = omega arith; small = omega arith })
      (record { count = refl; values = refl; copies = refl; flags = refl; flag_copies = refl })

start-IsStarted_example : IsStarted plain sender_names (start two_variables)
start-IsStarted_example =
    start-IsStarted plain sender_names two_variables refl (omega arith) (omega arith)
      two_names-Ascending

-- A new thread, and what it finds when a connection comes.
abbrev new_thread : Thread
new_thread = record { thread_number = 7; context = none; sockets = []; next_socket = 0 }

abbrev good_call : Call
good_call = record {
  quit = 0;
  id = 7;
  thread_index = 0;
  connected = true;
  started = true;
  served = true;
  keep_alive = true;
  closes = true;
}

abbrev connected : Thread
connected = (server_cycle wait_request good_call new_thread).1

first_call : Run new_thread connected
first_call = call wait_request good_call idle tt

server_cycle-Run_example :
    IsOwner connected × ((server_cycle termination good_call connected).1.sockets ≡ [])
server_cycle-Run_example = server_cycle-Run new_thread connected good_call refl first_call
