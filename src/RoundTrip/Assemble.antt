-- ===== src/RoundTrip/Assemble.antt =====
-- A variable of any size from the sender's memory to the receiver's.
use marte2hieratika.Base.{
  ℕ, ◌+◌, ◌≤◌, ◌<◌, ◌≡◌, ◌≢◌, refl, ap, sym, subst, ◌∙◌, true, List, [], ◌∷◌, ◌++◌, some, length,
  slice, slice-add, arith, u32_mod, mul32,
}
use marte2hieratika.Marte.{Text, StringHelper}
use marte2hieratika.Subscriber.{PvDescriptor}
use marte2hieratika.Receiver.{Receiver}
use marte2hieratika.Receiver.Store.{Converter, consume}
use marte2hieratika.Receiver.Store.Layout.{IsStarted, pv_at}
use marte2hieratika.Sender.{PrioritySender}
use marte2hieratika.Sender.Message.{Block}
use marte2hieratika.Sender.Send.{total_size, fragment, Sending, send_variable}
use marte2hieratika.Sender.Send.Whole.{pv_of, signal_at}
use marte2hieratika.Sender.Send.Cut.{
  cut, cut_nil, cut_cons, block_size, block_inside, blocks_at, send_variable_cut,
}
use marte2hieratika.Sender.Request.{write_buffer}
use marte2hieratika.RoundTrip.Sequence.{encode_all}
use marte2hieratika.RoundTrip.Transfer.{buffer_accepts}
use marte2hieratika.RoundTrip.Pieces.{apply_blocks, AllDue}
use marte2hieratika.RoundTrip.Fragments.{
  Chain, joined, joined_size, IsOnly, consume_blocks, apply_blocks-Assembled,
}

-- The timestamp of a variable in the sender's memory.
abbrev pub stamp_of : PrioritySender → PvDescriptor → List ℕ
stamp_of t pv = slice t.memory_threads (pv.offset + mul32 pv.number_of_elements pv.memory_size) 8

some_block : (bs : List Block) → 0 < joined_size bs → 0 < length bs
some_block [] h = h
some_block (b ∷ bs) h = omega arith

module _ (t : PrioritySender) (pv : PvDescriptor) (signal_index : ℕ) where
  -- The blocks of a variable are a chain, and their values are the value of the variable.
  record IsCut (start : ℕ) (bs : List Block) : Type 0 where
    chain : Chain pv.pv_name (stamp_of t pv) start bs
    size : start + joined_size bs ≡ total_size pv
    value : joined bs ≡ slice t.memory_threads (pv.offset + start) (joined_size bs)

  cut-IsCut :
      (bs : List Block) (k start : ℕ)
      → cut t pv signal_index k start ≡ bs
      → total_size pv ≤ start + k
      → start ≤ total_size pv
      → 0 < t.max_var_size
      → IsCut start bs
  unfolding fragment
  cut-IsCut [] k start e all inside room =
      let past = cut_nil t pv signal_index k start e all in
      record { chain = tt; size = omega (arith, past); value = refl }
  cut-IsCut (b ∷ bs) k start e all inside room =
      let (k', one_more, lt, first, rest) = cut_cons t pv signal_index k start b bs e in
      let grown = block_inside t pv signal_index start room lt in
      let size = block_size t pv signal_index start in
      let ih =
        cut-IsCut bs k' (start + size) rest (omega (arith, all, one_more, grown)) grown.1 room in
      subst (λ x. IsCut start (x ∷ bs)) (sym first)
        (record {
          chain = (refl, refl, refl, ih.chain);
          size = omega (arith, ih.size);
          value =
              let at : pv.offset + (start + size) ≡ pv.offset + start + size = omega arith in
              ap (λ l. slice t.memory_threads (pv.offset + start) size ++ l)
                (ih.value ∙ ap (λ o. slice t.memory_threads o (joined_size bs)) at)
              ∙ sym (slice-add t.memory_threads (pv.offset + start) size (joined_size bs));
        })

module _ (s : StringHelper) (c : Converter) (sender : ℕ → Text) (t : PrioritySender)
    (pvs : List PvDescriptor) where
  -- A variable of any size, in any number of blocks: the round of `SendVariables` for it ends with
  -- all its blocks written to the buffer, one after the other, and `varOffset` back at 0; and the
  -- loop of `ClientService` on these messages, with whatever follows them, takes them all and
  -- leaves the receiver well-formed, with the whole value that the sender's memory held in the
  -- place of the receiver's variable of that name, its timestamp behind it, and the value and the
  -- timestamp of every other variable as they were. The request has room for a block more than the
  -- variable has, with its numbers below 2^32, and no error so far; `maxVarSize` and the size of
  -- the variable are not 0; the receiver is a started one, one variable of it has the name, with
  -- the same size, and every block is within its limits, under the sender's name for the index and
  -- inside that variable.
  pub send_variable-assemble :
      (n : ℕ) (g : Sending (List ℕ)) (r : Receiver) (i thread : ℕ)
      → let pv = pv_of t pvs g.list_index in
        let blocks = blocks_at t pvs g.list_index in
        0 < t.max_var_size
        → n < u32_mod
        → 0 < pv.number_of_elements
        → 0 < pv.memory_size
        → 0 < total_size pv
        → g.i + length blocks < n
        → g.cnt_variables < n
        → g.var_offset ≡ 0
        → g.condition ≡ true
        → g.ok ≡ true
        → IsStarted s sender r
        → AllDue s c sender r blocks
        → IsOnly s c sender pv.pv_name i r
        → (pv_at r i).total_size ≡ total_size pv
        → (g' : Sending (List ℕ)) × (send_variable write_buffer t pvs n g ≡ some g')
          × (g'.writer ≡ g.writer ++ encode_all blocks)
          × (g'.var_offset ≡ 0)
          × let r' = apply_blocks s c sender r blocks thread in
            ((rest : List ℕ) (fuel : ℕ)
              → consume s c (length blocks + fuel) r (encode_all blocks ++ rest) thread
                ≡ consume s c fuel r' rest thread)
            × IsStarted s sender r'
            × (slice r'.memory (pv_at r i).offset (total_size pv)
                ≡ slice t.memory_threads pv.offset (total_size pv))
            × (slice r'.memory ((pv_at r i).offset + total_size pv) 8 ≡ stamp_of t pv)
            × ((j : ℕ)
                → j < r.number_of_variables
                → i ≢ j
                → slice r'.memory (pv_at r j).offset ((pv_at r j).total_size + 8)
                  ≡ slice r.memory (pv_at r j).offset ((pv_at r j).total_size + 8))
  unfolding buffer_accepts
  send_variable-assemble n g r i thread max few elements size bytes room count offset cond ok v due
        one same =
      let pv = pv_of t pvs g.list_index in
      let blocks = blocks_at t pvs g.list_index in
      let (w, sent, written) =
        send_variable_cut write_buffer buffer_accepts t pvs n max few g elements size room count
          offset cond ok in
      let whole =
        cut-IsCut t pv (signal_at t pvs g.list_index) blocks (total_size pv) 0 refl (omega arith)
          (omega arith) max in
      let a =
        apply_blocks-Assembled s c sender pv.pv_name (stamp_of t pv) i thread blocks r 0 v due one
          whole.chain in
      let size : joined_size blocks ≡ total_size pv = omega (arith, whole.size) in
      let here : (pv_at r i).offset + 0 ≡ (pv_at r i).offset = omega arith in
      let there : pv.offset + 0 ≡ pv.offset = omega arith in
      let r' = apply_blocks s c sender r blocks thread in
      let value : slice r'.memory (pv_at r i).offset (total_size pv)
          ≡ slice t.memory_threads pv.offset (total_size pv) =
        subst (λ m. slice r'.memory (pv_at r i).offset m ≡ slice t.memory_threads pv.offset m) size
          (ap (λ o. slice r'.memory o (joined_size blocks)) (sym here)
            ∙ a.value
            ∙ whole.value
            ∙ ap (λ o. slice t.memory_threads o (joined_size blocks)) there) in
      let stamp : slice r'.memory ((pv_at r i).offset + total_size pv) 8 ≡ stamp_of t pv =
        subst (λ m. slice r'.memory ((pv_at r i).offset + m) 8 ≡ stamp_of t pv) same
          (a.timestamp (some_block blocks (omega (arith, size, bytes)))) in
      (
        _,
        sent,
        written,
        refl,
        (
          λ rest fuel. consume_blocks s c sender blocks r rest thread fuel v due,
          a.started,
          value,
          stamp,
          a.others,
        ),
      )
