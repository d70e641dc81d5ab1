-- ===== src/RoundTrip/AssembleTests.antt =====
-- A variable that is sent in two blocks.
use marte2hieratika.Base.{
  ap, ℕ, zero, suc, ◌+◌, ◌<◌, ◌≡◌, ◌≢◌, refl, List, [], ◌∷◌, ◌++◌, some, arith, replicate, length,
  slice, get_or,
}
use marte2hieratika.Marte.Plain.{plain, split_token}
use marte2hieratika.Subscriber.{PvDescriptor, no_pv}
use marte2hieratika.Receiver.Message.{base_name}
use marte2hieratika.Receiver.Store.{consume}
use marte2hieratika.Receiver.Store.Layout.{IsStarted, pv_at, names_of}
use marte2hieratika.Receiver.Store.Whole.{IsRoomy}
use marte2hieratika.Receiver.Samples.{
  two_variables, two_variables-IsStarted, sender_names, no_conversion,
}
use marte2hieratika.Sender.{PrioritySender}
use marte2hieratika.Sender.Message.{Block}
use marte2hieratika.Sender.Send.{Sending, fragment, total_size, send_variable}
use marte2hieratika.Sender.Send.Whole.{pv_of}
use marte2hieratika.Sender.Send.Cut.{blocks_at}
use marte2hieratika.Sender.Request.{write_buffer}
use marte2hieratika.RoundTrip.{IsSendable}
use marte2hieratika.RoundTrip.Parse.{block_header}
use marte2hieratika.RoundTrip.Sequence.{encode_all}
use marte2hieratika.RoundTrip.Pieces.{AllDue, IsDue, apply_blocks}
use marte2hieratika.RoundTrip.Fragments.{IsOnly}
use marte2hieratika.RoundTrip.Transfer.{first_of}
use marte2hieratika.RoundTrip.Assemble.{stamp_of, send_variable-assemble}

-- A sender of one variable, `B.V` of four bytes, of which a block carries at most two, at the start of its memory.
abbrev two_blocks : PrioritySender
two_blocks = record {
  index_list = 0 ∷ [];
  index_list_threads = 0 ∷ [];
  memory = [];
  memory_threads = 34 ∷ 58 ∷ 1 ∷ 2 ∷ replicate 8 7;
  change_flag = 0 ∷ [];
  number_of_variables = 1;
  current_idx = 0;
  current_idx_threads = 0;
  current_change_pos = 0;
  number_of_signal_to_be_sent = 1;
  number_of_pool_threads = 1;
  n_threads_finished = 0;
  chunck_counter = 0;
  number_of_chunks = 1;
  number_of_changed_variables = 1;
  max_bytes_per_cycle = 100;
  max_var_size = 2;
  chunk_size = 0;
  reset_counter = 1000;
  send_only_changed = 0;
}

abbrev four_bytes : List PvDescriptor
four_bytes =
    record no_pv {
      number_of_elements = 1;
      memory_size = 4;
      pv_name = 66 ∷ b'.' ∷ 86 ∷ [];
      type_id = 3;
    }
    ∷ []

abbrev first_block : Block
first_block = fragment two_blocks (pv_of two_blocks four_bytes 0) 0 0 2

first_block-IsSendable : IsSendable two_variables first_block
unfolding fragment
first_block-IsSendable = record {
  name_fits = omega arith;
  unquoted = (λ e. omega arith, (λ e. omega arith, (λ e. omega arith, tt)));
  unterminated = (λ e. omega arith, (λ e. omega arith, (λ e. omega arith, tt)));
  index_known = omega arith;
  variables_fit = omega arith;
  type_fits = omega arith;
  size_small = omega arith;
  offset_fits = omega arith;
  value_size = refl;
  timestamp_size = refl;
  message_fits = omega arith;
}

first_block-IsRoomy : IsRoomy two_variables (block_header plain first_block)
unfolding fragment
first_block-IsRoomy zero h e = (omega arith, omega arith)
first_block-IsRoomy (suc zero) h e = (omega arith, omega arith)
first_block-IsRoomy (suc (suc j)) h e = absurd (omega arith)

first_block-IsDue : IsDue plain no_conversion sender_names two_variables first_block
unfolding fragment
first_block-IsDue = record {
  sendable = first_block-IsSendable;
  indexed = refl;
  roomy = first_block-IsRoomy;
}

abbrev second_block : Block
second_block = fragment two_blocks (pv_of two_blocks four_bytes 0) 0 2 2

second_block-IsSendable : IsSendable two_variables second_block
unfolding fragment
second_block-IsSendable = record {
  name_fits = omega arith;
  unquoted = (λ e. omega arith, (λ e. omega arith, (λ e. omega arith, tt)));
  unterminated = (λ e. omega arith, (λ e. omega arith, (λ e. omega arith, tt)));
  index_known = omega arith;
  variables_fit = omega arith;
  type_fits = omega arith;
  size_small = omega arith;
  offset_fits = omega arith;
  value_size = refl;
  timestamp_size = refl;
  message_fits = omega arith;
}

second_block-IsRoomy : IsRoomy two_variables (block_header plain second_block)
unfolding fragment
second_block-IsRoomy zero h e = (omega arith, omega arith)
second_block-IsRoomy (suc zero) h e = (omega arith, omega arith)
second_block-IsRoomy (suc (suc j)) h e = absurd (omega arith)

second_block-IsDue : IsDue plain no_conversion sender_names two_variables second_block
unfolding fragment
second_block-IsDue = record {
  sendable = second_block-IsSendable;
  indexed = refl;
  roomy = second_block-IsRoomy;
}

two_cut : blocks_at two_blocks four_bytes 0 ≡ first_block ∷ second_block ∷ []
unfolding fragment total_size
two_cut = refl

both_due : AllDue plain no_conversion sender_names two_variables (blocks_at two_blocks four_bytes 0)
unfolding fragment total_size
both_due = (first_block-IsDue, (second_block-IsDue, tt))

only_b :
    (j : ℕ)
    → j < 2
    → get_or (names_of two_variables) j [] ≡ base_name plain (66 ∷ b'.' ∷ 86 ∷ [])
    → j ≡ 1
unfolding base_name split_token
only_b zero h e = absurd (omega (arith, ap (λ l. get_or l 0 0) e))
only_b (suc zero) h e = refl
only_b (suc (suc j)) h e = absurd (omega arith)

b-IsOnly : IsOnly plain no_conversion sender_names (66 ∷ b'.' ∷ 86 ∷ []) 1 two_variables
unfolding base_name split_token
b-IsOnly = record { known = omega arith; named = refl; only = only_b }

send_variable-assemble_example :
    (g' : Sending (List ℕ)) × (send_variable write_buffer two_blocks four_bytes 4 (first_of 0 4)
      ≡ some g')
    × (g'.writer ≡ [] ++ encode_all (blocks_at two_blocks four_bytes 0))
    × (g'.var_offset ≡ 0)
    × let blocks = blocks_at two_blocks four_bytes 0 in
      let r' = apply_blocks plain no_conversion sender_names two_variables blocks 0 in
      ((rest : List ℕ) (fuel : ℕ)
        → consume plain no_conversion
            (length blocks + fuel)
            two_variables
            (encode_all blocks ++ rest)
            0
          ≡ consume plain no_conversion fuel r' rest 0)
      × IsStarted plain sender_names r'
      × (slice r'.memory 12 4 ≡ slice two_blocks.memory_threads 0 4)
      × (slice r'.memory 16 8 ≡ stamp_of two_blocks (pv_of two_blocks four_bytes 0))
      × ((j : ℕ)
          → j < 2
          → 1 ≢ j
          → slice r'.memory (pv_at two_variables j).offset ((pv_at two_variables j).total_size + 8)
            ≡ slice two_variables.memory
                (pv_at two_variables j).offset
                ((pv_at two_variables j).total_size + 8))
unfolding total_size
send_variable-assemble_example =
    send_variable-assemble plain no_conversion sender_names two_blocks four_bytes 4 (first_of 0 4)
      two_variables 1 0 (omega arith) (omega arith) (omega arith) (omega arith) (omega arith)
      (omega arith) (omega arith) refl refl refl two_variables-IsStarted both_due b-IsOnly refl
