-- ===== src/RoundTrip/Deliver.antt =====
-- A message of the sender through one round of the receiver's loop.
use marte2hieratika.Base.{
  Bool, refl, inl, inr, subst, ◌≢◌, ap, ◌∷◌, drop-append_length, take-append_length, length-append,
  ℕ, ◌+◌, ◌≤◌, ◌<◌, ◌≡◌, ◌∙◌, ◌⊎◌, true, List, [], ◌++◌, length, get_or, slice, take, arith,
}
use marte2hieratika.Receiver.Store.Resolve.{find_index_lem, Resolved, SameStore}
use marte2hieratika.Receiver.Store.{find_index, Converter, consume_step, message_size, store_value}
use marte2hieratika.Marte.{Text, StringHelper}
use marte2hieratika.Receiver.{Receiver}
use marte2hieratika.Receiver.Message.{base_name}
use marte2hieratika.Receiver.Store.Layout.{IsStarted, pv_at, names_of}
use marte2hieratika.Receiver.Store.Write.{block_written, stamp_written, others_kept, region_kept}
use marte2hieratika.Receiver.Store.Change.{value_in}
use marte2hieratika.Receiver.Store.Step.{
  after_unknown, store_value-IsStarted, control_ok-true, after_known, after_message, step_taken,
  store_value_lem,
}
use marte2hieratika.Sender.Message.{Block, encode}
use marte2hieratika.RoundTrip.{IsSendable}
use marte2hieratika.RoundTrip.Parse.{block_header, body_of, read-encode, body-encode, length-encode}

module _ (s : StringHelper) (c : Converter) (sender : ℕ → Text) where
  -- The receiver holds the block: some variable of the block's name has its bytes and timestamp,
  -- its other bytes and every other variable are as before, and the change is flagged where there is one.
  pub record Holds (r : Receiver) (b : Block) (r' : Receiver) : Type 0 where
    pub index : ℕ
    pub known : index < r.number_of_variables
    pub named : get_or (names_of r) index [] ≡ base_name s b.name
    pub value : slice r'.memory ((pv_at r index).offset + b.offset) b.size ≡ b.value
    pub timestamp :
        slice r'.memory ((pv_at r index).offset + (pv_at r index).total_size) 8 ≡ b.timestamp
    pub outside :
        (p n : ℕ)
        → (p + n ≤ b.offset) ⊎ (b.offset + b.size ≤ p)
        → p + n ≤ (pv_at r index).total_size
        → slice r'.memory ((pv_at r index).offset + p) n
          ≡ slice r.memory ((pv_at r index).offset + p) n
    pub others :
        (j : ℕ)
        → j < r.number_of_variables
        → index ≢ j
        → slice r'.memory (pv_at r j).offset ((pv_at r j).total_size + 8)
          ≡ slice r.memory (pv_at r j).offset ((pv_at r j).total_size + 8)
    pub flagged :
        (r'.change_flag ≡ r.change_flag)
          × (value_in r'.memory r index ≡ value_in r.memory_prec r index)
        ⊎ (get_or r'.change_flag index 0 ≡ 1)
          × (value_in r'.memory r index ≢ value_in r.memory_prec r index)

  -- The cache of indices plays no part in what a receiver holds.
  rebase :
      (r : Receiver) (m : List ℕ) (b : Block) (x : Receiver)
      → Holds (record r { pv_mapping = m }) b x
      → Holds r b x
  rebase r m b x h = record {
    index = h.index;
    known = h.known;
    named = h.named;
    value = h.value;
    timestamp = h.timestamp;
    outside = h.outside;
    others = h.others;
    flagged = h.flagged;
  }

  -- A block that lies inside the variables of its name.
  pub record Fits (r : Receiver) (b : Block) : Type 0 where
    pub place : ℕ
    pub place_known : place < r.number_of_variables
    pub place_named : get_or (names_of r) place [] ≡ base_name s b.name
    pub roomy :
        (j : ℕ)
        → j < r.number_of_variables
        → get_or (names_of r) j [] ≡ base_name s b.name
        → (0 < (pv_at r j).total_size) × (b.size + b.offset ≤ (pv_at r j).total_size)

  module _ (r : Receiver) (b : Block) (rest : List ℕ) (thread : ℕ) (w : IsSendable r b) where
    whole : message_size (block_header s b) ≡ length (encode b)
    whole = omega (arith, length-encode r b w, w.name_fits, w.message_fits)

    pub step_encode :
        consume_step s c r (encode b ++ rest) thread
        ≡ (true, after_message s c r (block_header s b) (body_of b rest) thread, rest)
    step_encode =
        step_taken s c r (encode b ++ rest) thread (block_header s b) (read-encode s r b rest w)
          (omega (arith, whole, length-append (encode b) rest))
        ∙ rw (whole, body-encode b rest, drop-append_length (encode b) rest)

  module _ (q : Receiver) (b : Block) (rest : List ℕ) (thread : ℕ) (i : ℕ)
      (v : IsStarted s sender q) (w : IsSendable q b) (known : i < q.number_of_variables)
      (named : get_or (names_of q) i [] ≡ base_name s b.name)
      (fits : b.size + b.offset ≤ (pv_at q i).total_size) where
    there : b.size + 8 ≤ length (body_of b rest)
    there = omega (
      arith,
      w.value_size,
      w.timestamp_size,
      length-append b.value (b.timestamp ++ (10 ∷ 13 ∷ rest)),
      length-append b.timestamp (10 ∷ 13 ∷ rest),
    )

    value_taken : take b.size (body_of b rest) ≡ b.value
    value_taken = rw (← w.value_size) (take-append_length b.value (b.timestamp ++ (10 ∷ 13 ∷ rest)))

    stamp_taken : slice (body_of b rest) b.size 8 ≡ b.timestamp
    stamp_taken =
        rw
          (
            ← w.value_size,
            drop-append_length b.value (b.timestamp ++ (10 ∷ 13 ∷ rest)),
            ← w.timestamp_size,
          )
          (take-append_length b.timestamp (10 ∷ 13 ∷ rest))

    shifted :
        (p n : ℕ)
        → (p + n ≤ b.offset) ⊎ (b.offset + b.size ≤ p)
        → ((pv_at q i).offset + p + n ≤ (pv_at q i).offset + b.offset)
          ⊎ ((pv_at q i).offset + b.offset + b.size ≤ (pv_at q i).offset + p)
    shifted p n (inl h) = inl (omega arith)
    shifted p n (inr h) = inr (omega arith)

    stored_Holds : Holds q b (store_value c q i (block_header s b) true (body_of b rest) thread)
    stored_Holds =
        let h = block_header s b in
        let (memory, synced, flags, kept) =
          store_value_lem s c sender q i h true (body_of b rest) thread v known in
        record {
          index = i;
          known = known;
          named = named;
          value =
              rw memory
                (block_written c q i h (body_of b rest) v.laid known fits there ∙ value_taken);
          timestamp =
              rw memory
                (stamp_written c q i h (body_of b rest) v.laid known fits there ∙ stamp_taken);
          outside = λ p n apart inside. rw memory (
              others_kept c q i h (body_of b rest) v.laid known fits there ((pv_at q i).offset + p)
                n (shifted p n apart) (inl (omega arith)));
          others = λ j lt ne.
              rw memory
                (region_kept c q i j h true (body_of b rest) v.laid known lt ne (λ e. fits) there);
          flagged = flags;
        }

  module _ (r : Receiver) (b : Block) (rest : List ℕ) (thread : ℕ) (v : IsStarted s sender r)
      (w : IsSendable r b) (named : b.name ≡ sender b.index) where
    resolved : Resolved s sender r (base_name s b.name) (find_index s r (block_header s b))
    resolved = find_index_lem s sender r (block_header s b) v w.index_known (ap (base_name s) named)

    abbrev Delivered : Bool × Receiver × List ℕ → Type 0
    Delivered (ok, r', left) = (ok ≡ true) × (left ≡ rest) × IsStarted s sender r' × Holds r b r'

    deliver_at :
        (m : List ℕ) (i : ℕ)
        → find_index s r (block_header s b) ≡ (record r { pv_mapping = m }, i)
        → IsStarted s sender (record r { pv_mapping = m })
        → i < r.number_of_variables
        → get_or (names_of r) i [] ≡ base_name s b.name
        → 0 < (pv_at r i).total_size
        → b.size + b.offset ≤ (pv_at r i).total_size
        → Delivered (consume_step s c r (encode b ++ rest) thread)
    deliver_at m i e started lt same pos fits =
        let q = record r { pv_mapping = m } in
        rw
          (
            step_encode r b rest thread w,
            after_known s c r (block_header s b) (body_of b rest) thread q i e lt,
            control_ok-true s c r (block_header s b) i lt pos fits,
          )
          (
            refl,
            refl,
            store_value-IsStarted s c sender q i (block_header s b) true (body_of b rest) thread
                started lt,
            rebase r m b _ (stored_Holds q b rest thread i started (sendable m) lt same fits),
          )
      where
        sendable : (m : List ℕ) → IsSendable (record r { pv_mapping = m }) b
        sendable m = record {
          name_fits = w.name_fits;
          unquoted = w.unquoted;
          unterminated = w.unterminated;
          index_known = w.index_known;
          variables_fit = w.variables_fit;
          type_fits = w.type_fits;
          size_small = w.size_small;
          offset_fits = w.offset_fits;
          value_size = w.value_size;
          timestamp_size = w.timestamp_size;
          message_fits = w.message_fits;
        }

    deliver_by :
        (q : Receiver) (i : ℕ)
        → find_index s r (block_header s b) ≡ (q, i)
        → Resolved s sender r (base_name s b.name) (q, i)
        → Fits r b
        → Delivered (consume_step s c r (encode b ++ rest) thread)
    deliver_by q i e (started, inl (lt, same), only) f =
        deliver_at q.pv_mapping i (e ∙ ap (λ (z : Receiver). (z, i)) only)
          (subst (IsStarted s sender) only started) lt same (f.roomy i lt same).0
          (f.roomy i lt same).1
    deliver_by q i e (started, inr (_, absent), only) f =
        absurd (absent f.place f.place_known f.place_named)

    -- One round of the loop of `ClientService` takes from its payload exactly the message that the
    -- sender wrote for a block: it succeeds and leaves what follows the message; a variable with
    -- the block's name (less what follows a dot) holds the bytes of the block at the block's
    -- offset, and its timestamp; the other bytes of the variable stay, and every other variable
    -- keeps its value and timestamp; the change flag of the variable is set where its value differs
    -- from the last one, and else the flags stay; and the receiver stays well-formed. The receiver
    -- is a started one, the block is that of the sender's variable of its index and within the
    -- limits of the protocol, some variable has its name, and the block lies inside every variable
    -- of that name.
    pub deliver :
        Fits r b
        → let (ok, r', left) = consume_step s c r (encode b ++ rest) thread in
          (ok ≡ true) × (left ≡ rest) × IsStarted s sender r' × Holds r b r'
    deliver f =
        let found = find_index s r (block_header s b) in deliver_by found.0 found.1 refl resolved f

    ignore_by :
        (q : Receiver) (i : ℕ)
        → find_index s r (block_header s b) ≡ (q, i)
        → Resolved s sender r (base_name s b.name) (q, i)
        → ((k : ℕ) → k < r.number_of_variables → get_or (names_of r) k [] ≢ base_name s b.name)
        → consume_step s c r (encode b ++ rest) thread ≡ (true, q, rest)
    ignore_by q i e (started, inl (lt, same), only) absent = absurd (absent i lt same)
    ignore_by q i e (started, inr (missing, _), only) absent = rw (
      step_encode r b rest thread w,
      after_unknown s c r (block_header s b) (body_of b rest) thread q i e
          (rw (only, missing) (omega (arith, v.laid.few))),
    )

    -- A message for a name that the receiver does not have is skipped: the round succeeds, nothing
    -- but the cache of indices may change, the receiver stays well-formed, and the payload goes on
    -- behind the message. The receiver is a started one, and the block is that of the sender's
    -- variable of its index and within the limits of the protocol.
    pub ignore :
        ((k : ℕ) → k < r.number_of_variables → get_or (names_of r) k [] ≢ base_name s b.name)
        → let (ok, r', left) = consume_step s c r (encode b ++ rest) thread in
          (ok ≡ true) × (left ≡ rest) × IsStarted s sender r' × SameStore s sender r r'
    ignore absent =
        let found = find_index s r (block_header s b) in
        rw (ignore_by found.0 found.1 refl resolved absent) (refl, refl, resolved.0, resolved.2)
