-- ===== src/RoundTrip/Sequence.antt =====
-- The messages of many blocks, as `SendVariables` writes them one behind another, through the loop
-- of `ClientService`.
use marte2hieratika.Base.{
  ℕ, suc, ◌+◌, ◌≡◌, ◌∙◌, ap, List, [], ◌∷◌, ◌++◌, append_assoc, length, arith,
}
use marte2hieratika.Marte.{StringHelper}
use marte2hieratika.Receiver.{Receiver}
use marte2hieratika.Receiver.Store.{Converter, consume}
use marte2hieratika.Receiver.Store.Step.{after_message}
use marte2hieratika.Receiver.Store.Loop.{after_message_limits, consume-suc, SameLimits}
use marte2hieratika.Sender.Message.{Block, encode}
use marte2hieratika.RoundTrip.{IsSendable}
use marte2hieratika.RoundTrip.Parse.{block_header, body_of}
use marte2hieratika.RoundTrip.Deliver.{step_encode}

-- The payload of several blocks.
unfoldable pub encode_all : List Block → List ℕ
encode_all [] = []
encode_all (b ∷ bs) = encode b ++ encode_all bs

-- Every block is within the limits of the receiver.
abbrev pub AllSendable : Receiver → List Block → Type 0
AllSendable r [] = Unit {0}
AllSendable r (b ∷ bs) = IsSendable r b × AllSendable r bs

pub IsSendable-limits :
    (r q : Receiver) (b : Block) → SameLimits r q → IsSendable r b → IsSendable q b
IsSendable-limits r q b limits w = record {
  name_fits = w.name_fits;
  unquoted = w.unquoted;
  unterminated = w.unterminated;
  index_known = rw (limits.0) w.index_known;
  variables_fit = rw (limits.0) w.variables_fit;
  type_fits = w.type_fits;
  size_small = rw (limits.1) w.size_small;
  offset_fits = w.offset_fits;
  value_size = w.value_size;
  timestamp_size = w.timestamp_size;
  message_fits = w.message_fits;
}

AllSendable-limits :
    (r q : Receiver) (bs : List Block) → SameLimits r q → AllSendable r bs → AllSendable q bs
AllSendable-limits r q [] limits w = tt
AllSendable-limits r q (b ∷ bs) limits w =
    (IsSendable-limits r q b limits w.0, AllSendable-limits r q bs limits w.1)

module _ (s : StringHelper) (c : Converter) where
  -- The receiver after the blocks, one after the other; `rest` is what follows them in the payload.
  pub after_blocks : Receiver → List Block → List ℕ → ℕ → Receiver
  after_blocks r [] rest thread = r
  after_blocks r (b ∷ bs) rest thread =
      after_blocks
        (after_message s c r (block_header s b) (body_of b (encode_all bs ++ rest)) thread) bs rest
        thread

  -- On the messages of any number of blocks, each within the limits of the receiver, the loop of
  -- `ClientService` takes the messages one by one, in order, and comes to what follows them with
  -- the receiver that these messages make.
  pub consume-encode_all :
      (bs : List Block) (r : Receiver) (rest : List ℕ) (thread fuel : ℕ)
      → AllSendable r bs
      → consume s c (length bs + fuel) r (encode_all bs ++ rest) thread
        ≡ consume s c fuel (after_blocks r bs rest thread) rest thread
  unfolding encode_all after_blocks
  consume-encode_all [] r rest thread fuel w = ap (λ n. consume s c n r rest thread) (omega arith)
  consume-encode_all (b ∷ bs) r rest thread fuel w =
      let h = block_header s b in
      let q = after_message s c r h (body_of b (encode_all bs ++ rest)) thread in
      let e : length (b ∷ bs) + fuel ≡ suc (length bs + fuel) = omega arith in
      rw (e, append_assoc (encode b) (encode_all bs) rest)
        (consume-suc s c (length bs + fuel) r q _ _ thread
            (step_encode s c (λ _. []) r b (encode_all bs ++ rest) thread w.0)
          ∙ consume-encode_all bs q rest thread fuel
              (AllSendable-limits r q bs (after_message_limits s c r h _ thread) w.1))
