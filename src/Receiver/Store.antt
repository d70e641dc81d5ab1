-- ===== src/Receiver/Store.antt =====
-- What DiodeReceiver.cpp does with the message of one variable: `GetLocalIndex`,
-- `ReadVarValueAndSkip`, the loop of `ClientService` over the messages of a payload, and
-- `Synchronise`, which hands the variables over to the threads that put them.
pub mod Layout
pub mod Write
pub mod Resolve
pub mod Change
pub mod Step
pub mod Loop
pub mod Cached
pub mod Whole
use marte2hieratika.Base.{
  ℕ, zero, suc, ◌+◌, ◌≡◌, Bool, true, false, ◌&&◌, List, map, Option, none, some, ltb, leb, ◌==◌,
  if◌then◌else◌, length, get_or, set, take, drop, slice, add32, copy_into, same_bytes, replicate,
}
use marte2hieratika.Marte.{StringHelper}
use marte2hieratika.Receiver.{
  PvRecDescriptor, Receiver, no_pv, index_init_id, index_not_found_id, number_of_types,
}
use marte2hieratika.Receiver.Directory.{get_local_variable_index}
use marte2hieratika.Receiver.Message.{Header, read_var_name_and_index}

-- `AnyType` conversion by `TypeConvert`, of the framework: the new bytes of the variable, from the
-- type id and the bytes of the source and the old bytes. It writes the variable's bytes only.
pub record Converter : Type 0 where
  pub convert : PvRecDescriptor → ℕ → List ℕ → List ℕ → List ℕ
  pub length-convert :
      (pv : PvRecDescriptor) (id : ℕ) (src old : List ℕ)
      → length (convert pv id src old) ≡ length old

-- What `GetLocalIndex` sets and returns; `ok` is whether the payload holds the whole message.
pub record Placed : Type 0 where
  pub receiver : Receiver
  pub index : ℕ
  pub processed_size : ℕ
  pub control : Bool
  pub ok : Bool

-- `controlOk`: the block lies inside the variable.
pub control_ok : Receiver → Header → ℕ → Bool
control_ok r h index =
    let total = (get_or r.pvs index no_pv).total_size in
    if ltb index r.number_of_variables
    then ltb 0 total && leb (add32 h.received_size h.received_offset) total
    else true

-- `processedSize` after `GetLocalIndex`: the size of the whole message of a variable.
abbrev pub message_size : Header → ℕ
message_size h = add32 h.processed_size (12 + h.received_size + 8 + 4)

module _ (s : StringHelper) where
  -- The index of the variable for a sender's index that is not mapped yet, and the receiver with
  -- the index mapped where the name was found.
  pub resolve_index : Receiver → Header → Receiver × ℕ
  resolve_index r h =
      elim (get_local_variable_index s (map (λ pv. pv.pv_name) r.pvs) r.number_of_variables
        h.var_name) [
          | some (true, i) ↦ (record r { pv_mapping = set r.pv_mapping h.received_index i }, i)
          | _ ↦ (r, index_not_found_id)
        ]

  pub find_index : Receiver → Header → Receiver × ℕ
  find_index r h =
      let mapped = get_or r.pv_mapping h.received_index index_init_id in
      let resolved = resolve_index r h in if mapped == index_init_id then resolved else (r, mapped)

  pub get_local_index : Receiver → List ℕ → Header → Placed
  get_local_index r payload h =
      let (r', index) = find_index r h in
      record {
        receiver = r';
        index = index;
        processed_size = message_size h;
        control = control_ok r h index;
        ok = leb (message_size h) (length payload);
      }

pub count_received : Receiver → ℕ → List ℕ
count_received r thread =
    if ltb thread r.max_number_of_threads
    then set r.number_of_received_pvs thread (add32 (get_or r.number_of_received_pvs thread 0) 1)
    else r.number_of_received_pvs

-- The flag is set, and the copy of the last value replaced, where the value has changed.
pub mark_changed : Receiver → ℕ → Receiver
mark_changed r index =
    let pv = get_or r.pvs index no_pv in
    let value = slice r.memory pv.offset pv.total_size in
    if same_bytes value (slice r.memory_prec pv.offset pv.total_size) then r else record r {
      change_flag = set r.change_flag index 1;
      memory_prec = copy_into r.memory_prec pv.offset value;
    }

module _ (c : Converter) where
  open c use {convert}

  -- The bytes of the variable, all of them, after the message: the block and the timestamp are
  -- copied, or the value is converted.
  pub write_value : Receiver → ℕ → Header → Bool → List ℕ → List ℕ
  write_value r index h control bytes =
      let pv = get_or r.pvs index no_pv in
      let copied =
        copy_into r.memory (pv.offset + h.received_offset) (take h.received_size bytes) in
      let stamped = copy_into copied (pv.offset + pv.total_size) (slice bytes h.received_size 8) in
      let old = slice r.memory pv.offset pv.total_size in
      let converted = copy_into r.memory pv.offset (convert pv h.received_type_id bytes old) in
      if control
      then stamped
      else if h.received_offset == 0 && ltb h.received_type_id number_of_types
      then converted
      else r.memory

  pub store_value : Receiver → ℕ → Header → Bool → List ℕ → ℕ → Receiver
  unfolding write_value count_received mark_changed
  store_value r index h control bytes thread =
      mark_changed
        (record r {
          memory = write_value r index h control bytes;
          number_of_received_pvs = count_received r thread;
        })
        index

  -- `ReadVarValueAndSkip`: the receiver, and the payload behind the message.
  pub read_var_value_and_skip : Receiver → List ℕ → Header → ℕ → ℕ → ℕ → Bool → Receiver × List ℕ
  unfolding store_value
  read_var_value_and_skip r payload h index processed thread control =
      let bytes = drop (h.data_pos + 4) payload in
      let stored = store_value r index h control bytes thread in
      (
        if ltb index r.number_of_variables then stored else r,
        drop (if ltb (length payload) processed then length payload else processed) payload,
      )

module _ (s : StringHelper) (c : Converter) where
  -- `GetLocalIndex` and `ReadVarValueAndSkip`, where `ReadVarNameAndIndex` returns true.
  pub take_message : Receiver → List ℕ → Option Header → ℕ → Bool × Receiver × List ℕ
  take_message r left none thread = (false, r, left)
  take_message r left (some h) thread =
      let p = get_local_index s r left h in
      let (r', rest) =
        read_var_value_and_skip c p.receiver left h p.index p.processed_size thread p.control in
      if p.ok then (true, r', rest) else (false, p.receiver, left)

  -- One round of `while (ok)` in `ClientService`: `ok`, the receiver and the payload.
  pub consume_step : Receiver → List ℕ → ℕ → Bool × Receiver × List ℕ
  unfolding take_message
  consume_step r payload thread =
      let (left, header) = read_var_name_and_index s r payload in take_message r left header thread

  -- The loop, on fuel; `none` when it runs out.
  pub consume : ℕ → Receiver → List ℕ → ℕ → Option (Receiver × List ℕ)
  consume zero r payload thread = none
  consume (suc fuel) r payload thread =
      let (ok, r', payload') = consume_step r payload thread in
      let rest = consume fuel r' payload' thread in if ok then rest else some (r', payload')

-- `Synchronise`: the bytes and flags that go out, and the receiver with its flags (and, in debug
-- mode, its counters) reset.
unfoldable pub synchronise : Receiver → List ℕ → List ℕ → List ℕ × List ℕ × Receiver
synchronise r memory_out changed_flags = (
  copy_into memory_out 0 (take r.total_memory_size r.memory),
  copy_into changed_flags 0 (take r.number_of_variables r.change_flag),
  record r {
    change_flag = copy_into r.change_flag 0 (replicate r.number_of_variables 0);
    number_of_received_pvs =
        if ltb 0 r.debug
        then copy_into r.number_of_received_pvs 0 (replicate r.max_number_of_threads 0)
        else r.number_of_received_pvs;
  },
)
