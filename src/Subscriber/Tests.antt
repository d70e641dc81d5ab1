-- ===== src/Subscriber/Tests.antt =====
-- The theorems about the data source at concrete inputs.
use mathlib.Core.List.{Perm}
use marte2hieratika.Base.{
  true, replicate, slice, map, ◌+◌, ◌≤◌, ◌≡◌, ◌⊎◌, refl, List, [], ◌∷◌, arith, get_or, length, ℕ,
}
use marte2hieratika.Marte.{Text}
use marte2hieratika.Marte.Plain.{plain}
use marte2hieratika.Channels.{ChannelAccess, Channel}
use marte2hieratika.Receiver.Connect.{connect}
use marte2hieratika.Receiver.Directory.{load_names}
use marte2hieratika.Receiver.Directory.Sort.{selected}
use marte2hieratika.Subscriber.Connect.{cainfo}
use marte2hieratika.Subscriber.Connect.Agree.{Agree, connect-Agree}
use marte2hieratika.Subscriber.Parse.{parse}
use marte2hieratika.Subscriber.Parse.Selected.{numbered, parse-selected}
use marte2hieratika.Subscriber.{PvDescriptor, no_pv, EpicsParserAndSubscriber}
use marte2hieratika.Subscriber.Synchronise.{synchronise}
use marte2hieratika.Subscriber.Callbacks.Found.{IsPlaced, answered, callbacks-synchronise}
use marte2hieratika.Marte.Cpus.{ArePinned}
use marte2hieratika.Subscriber.Threads.{pool_masks}
use marte2hieratika.Subscriber.Threads.Pinned.{pool_masks-ArePinned}
use marte2hieratika.Subscriber.Offsets.{remap_offsets}
use marte2hieratika.Subscriber.Offsets.Remap.{remap-synchronise}
use marte2hieratika.Subscriber.Memory.{discard_large}
use marte2hieratika.Receiver

-- Seven variables for two threads.
abbrev seven_variables : EpicsParserAndSubscriber
seven_variables = record {
  pv_descriptor = [];
  memory = [];
  memory_size = 0 ∷ 0 ∷ [];
  changed_flag_mem = [];
  number_of_variables = 7;
  number_of_pool_threads = 2;
  n_vars_per_chunk = 3;
  max_array_size = 10;
}

-- Two threads with three and two bytes.
abbrev two_memories : EpicsParserAndSubscriber
two_memories = record {
  pv_descriptor = [];
  memory = (1 ∷ 2 ∷ 3 ∷ []) ∷ (4 ∷ 5 ∷ []) ∷ [];
  memory_size = 3 ∷ 2 ∷ [];
  changed_flag_mem = 1 ∷ 0 ∷ [];
  number_of_variables = 2;
  number_of_pool_threads = 2;
  n_vars_per_chunk = 1;
  max_array_size = 10;
}

-- The same threads, each with a variable at the second byte of its memory.
abbrev placed_memories : EpicsParserAndSubscriber
placed_memories = record two_memories {
  pv_descriptor = record no_pv { offset = 1 } ∷ record no_pv { offset = 1 } ∷ [];
}

remap-synchronise_example :
    slice
      (synchronise (remap_offsets placed_memories) (replicate 5 0) (0 ∷ 0 ∷ [])).0
      (get_or (remap_offsets placed_memories).pv_descriptor 1 no_pv).offset
      1
    ≡ 5 ∷ []
remap-synchronise_example =
    remap-synchronise placed_memories (replicate 5 0) (0 ∷ 0 ∷ []) 1 1 (omega arith) (omega arith)
      (omega arith) refl (refl, (refl, tt)) (omega arith) (omega arith) refl refl (omega arith)
      (omega arith) (omega arith)

-- A channel of three elements of a type whose text is empty.
abbrev quiet_access : ChannelAccess
quiet_access = record { type_to_text = λ k. []; dbf_double = 6; max_string_size = 40 }

abbrev three_elements : Channel
three_elements = record { created = true; state = 2; element_count = 3; field_type = 6 }

connect-Agree_example :
    Agree
      (connect plain quiet_access 10 Receiver.no_pv three_elements)
      (discard_large 10 (cainfo plain quiet_access no_pv three_elements))
connect-Agree_example = connect-Agree plain quiet_access 10 Receiver.no_pv no_pv three_elements refl

-- Three variables in the file, from the second on.
abbrev three_names : List Text
three_names = (67 ∷ []) ∷ (65 ∷ []) ∷ (66 ∷ []) ∷ []

parse-selected_example :
    let t = parse plain seven_variables (65 ∷ []) 10 three_names in
    (t.pv_descriptor ≡ numbered 0 (selected plain (65 ∷ []) 10 three_names))
    × (t.number_of_variables ≡ length (selected plain (65 ∷ []) 10 three_names))
    × Perm (load_names plain (65 ∷ []) 10 three_names) (map (λ pv. pv.pv_name) t.pv_descriptor)
parse-selected_example = parse-selected plain (65 ∷ []) 10 seven_variables three_names

-- The second thread with a variable of three bytes, at the second byte of its memory.
abbrev roomy_memories : EpicsParserAndSubscriber
roomy_memories = record two_memories {
  memory = (1 ∷ 2 ∷ 3 ∷ []) ∷ replicate 13 0 ∷ [];
  memory_size = 3 ∷ 13 ∷ [];
}

abbrev three_bytes : PvDescriptor
three_bytes = record no_pv {
  memory = 1;
  number_of_elements = 3;
  memory_size = 1;
  index = 1;
  time_stamp = 4;
}

three_bytes-IsPlaced : IsPlaced roomy_memories (replicate 16 0) (0 ∷ 0 ∷ []) 1 three_bytes
three_bytes-IsPlaced = record {
  sizes = (refl, (refl, tt));
  small = omega arith;
  room = omega arith;
  flags = refl;
  flags_out = refl;
  known = omega arith;
  listed = omega arith;
  behind = refl;
  fits = omega arith;
}

abbrev new_value : List ℕ
new_value = 7 ∷ 8 ∷ 9 ∷ []

callbacks-synchronise_example :
    let (out, flags, t') =
      synchronise
        (answered 1 three_bytes new_value (replicate 8 5) roomy_memories)
        (replicate 16 0)
        (0 ∷ 0 ∷ []) in
    (slice out (3 + 1) 3 ≡ new_value)
    × (slice out (3 + 4) 8 ≡ replicate 8 5)
    × (get_or flags 1 0 ≡ 1)
    × ((a n : ℕ)
        → a + n ≤ 13
        → (a + n ≤ 1) ⊎ (4 + 8 ≤ a)
        → slice out (3 + a) n ≡ slice (replicate 13 0) a n)
callbacks-synchronise_example =
    callbacks-synchronise roomy_memories (replicate 16 0) (0 ∷ 0 ∷ []) 1 three_bytes
      three_bytes-IsPlaced new_value (replicate 8 5) refl refl

-- Five threads on two CPUs.
pool_masks-ArePinned_example : ArePinned 2 (pool_masks 5 2 1) × (length (pool_masks 5 2 1) ≡ 5)
pool_masks-ArePinned_example = pool_masks-ArePinned 2 (omega arith) (omega arith) 5
