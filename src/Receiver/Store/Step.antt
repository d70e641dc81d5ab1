-- ===== src/Receiver/Store/Step.antt =====
-- One round of the loop in `ClientService`, from the header that was read to the receiver that it
-- leaves.
use marte2hieratika.Base.{
  ℕ, ◌+◌, ◌≤◌, ◌<◌, ◌≡◌, refl, sym, ◌∙◌, ◌≢◌, ◌⊎◌, Bool, true, false, List, length, get_or, drop,
  some, none, arith, if◌then◌else◌, ltb,
}
use marte2hieratika.Marte.{Text, StringHelper}
use marte2hieratika.Receiver.{Receiver}
use marte2hieratika.Receiver.Message.{Header, read_var_name_and_index}
use marte2hieratika.Receiver.Store.{
  Converter, write_value, count_received, mark_changed, store_value, find_index, control_ok,
  message_size, get_local_index, read_var_value_and_skip, consume_step,
}
use marte2hieratika.Receiver.Store.Layout.{pv_at, IsStarted}
use marte2hieratika.Receiver.Store.Write.{length-write_value}
use marte2hieratika.Receiver.Store.Change.{mark_changed-IsStarted, mark_changed_lem, value_in}

module _ (s : StringHelper) (c : Converter) where
  -- The receiver that a whole message leaves: the value is stored where the variable is known.
  unfoldable pub after_message : Receiver → Header → List ℕ → ℕ → Receiver
  after_message r h bytes thread =
      let (r', i) = find_index s r h in
      if ltb i r'.number_of_variables
      then store_value c r' i h (control_ok r h i) bytes thread
      else r'

  -- A header whose message is there in full is taken and the payload goes on behind it.
  pub step_taken :
      (r : Receiver) (payload : List ℕ) (thread : ℕ) (h : Header)
      → read_var_name_and_index s r payload ≡ (payload, some h)
      → message_size h ≤ length payload
      → consume_step s c r payload thread ≡ (
        true,
        after_message r h (drop (h.data_pos + 4) payload) thread,
        drop (message_size h) payload,
      )
  unfolding consume_step get_local_index read_var_value_and_skip after_message
  step_taken r payload thread h e there = rw (e, consume_step) (ground arith)

  -- A header whose message is not complete changes no more than the cache of indices, and the
  -- payload waits for the next chunk.
  pub step_waits :
      (r : Receiver) (payload : List ℕ) (thread : ℕ) (h : Header)
      → read_var_name_and_index s r payload ≡ (payload, some h)
      → length payload < message_size h
      → consume_step s c r payload thread ≡ (false, (find_index s r h).0, payload)
  unfolding consume_step get_local_index read_var_value_and_skip
  step_waits r payload thread h e short = rw (e, consume_step) (ground arith)

  -- Without a header the loop ends with the payload that the parser leaves.
  pub step_stops :
      (r : Receiver) (payload left : List ℕ) (thread : ℕ)
      → read_var_name_and_index s r payload ≡ (left, none)
      → consume_step s c r payload thread ≡ (false, r, left)
  unfolding consume_step
  step_stops r payload left thread e = rw (e, consume_step)

  pub after_known :
      (r : Receiver) (h : Header) (bytes : List ℕ) (thread : ℕ) (q : Receiver) (i : ℕ)
      → find_index s r h ≡ (q, i)
      → i < q.number_of_variables
      → after_message r h bytes thread ≡ store_value c q i h (control_ok r h i) bytes thread
  unfolding after_message
  after_known r h bytes thread q i e lt = rw (e, after_message) (ground arith)

  pub after_unknown :
      (r : Receiver) (h : Header) (bytes : List ℕ) (thread : ℕ) (q : Receiver) (i : ℕ)
      → find_index s r h ≡ (q, i)
      → q.number_of_variables ≤ i
      → after_message r h bytes thread ≡ q
  unfolding after_message
  after_unknown r h bytes thread q i e le = rw (e, after_message) (ground arith)

  -- A block inside its variable passes the check.
  pub control_ok-true :
      (r : Receiver) (h : Header) (i : ℕ)
      → i < r.number_of_variables
      → 0 < (pv_at r i).total_size
      → h.received_size + h.received_offset ≤ (pv_at r i).total_size
      → control_ok r h i ≡ true
  unfolding control_ok
  control_ok-true r h i known pos fits = ground arith

  module _ (sender : ℕ → Text) (r : Receiver) (i : ℕ) (h : Header) (control : Bool) (bytes : List ℕ)
      (thread : ℕ) (v : IsStarted s sender r) (known : i < r.number_of_variables) where
    -- The receiver between the write and the test for a change.
    abbrev written : Receiver
    written = record r {
      memory = write_value c r i h control bytes;
      number_of_received_pvs = count_received r thread;
    }

    written-IsStarted : IsStarted s sender written
    written-IsStarted = record {
      laid = record {
        count = v.laid.count;
        few = v.laid.few;
        inside = λ j lt. rw (length-write_value c r i h control bytes) (v.laid.inside j lt);
        apart = v.laid.apart;
        prec_size = v.laid.prec_size ∙ sym (length-write_value c r i h control bytes);
        flags_size = v.laid.flags_size;
        mapping_size = v.laid.mapping_size;
      };
      sorted = v.sorted;
      mapped = v.mapped;
    }

    -- Storing a value keeps the shape of the receiver.
    pub store_value-IsStarted : IsStarted s sender (store_value c r i h control bytes thread)
    unfolding store_value
    store_value-IsStarted = mark_changed-IsStarted s sender written i written-IsStarted known

    stored : store_value c r i h control bytes thread ≡ mark_changed written i
    unfolding store_value
    stored = refl

    -- What `ReadVarValueAndSkip` leaves for a known variable of a started receiver: the memory that
    -- was written, the new value as the last one, and the flag of the variable set exactly where
    -- its value differs from the last one before; the other flags stay.
    pub store_value_lem :
        let r' = store_value c r i h control bytes thread in
        (r'.memory ≡ write_value c r i h control bytes)
        × (value_in r'.memory_prec r i ≡ value_in r'.memory r i)
        × ((r'.change_flag ≡ r.change_flag) × (value_in r'.memory r i ≡ value_in r.memory_prec r i)
            ⊎ (get_or r'.change_flag i 0 ≡ 1)
              × (value_in r'.memory r i ≢ value_in r.memory_prec r i))
        × ((j : ℕ) → i ≢ j → get_or r'.change_flag j 0 ≡ get_or r.change_flag j 0)
    store_value_lem =
        let (synced, same, flags, others) =
          mark_changed_lem s sender written i written-IsStarted known in
        rw (stored, same) (refl, synced, flags, others)
