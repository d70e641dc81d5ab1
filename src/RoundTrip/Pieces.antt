-- ===== src/RoundTrip/Pieces.antt =====
-- The messages of many blocks when they come in pieces: what the loop of `ClientService` over a
-- payload leaves for the next piece.
use marte2hieratika.Base.{
  split_prefix, split_partial, take-length, subst, length-drop, ℕ, zero, suc, ◌<◌, ◌≡◌, refl, sym,
  ap, ◌∙◌, inl, inr, true, false, List, [], ◌∷◌, ◌++◌, length, length-append, take, drop, slice,
  take-append_length, drop-append_length, arith, some, dec_le,
}
use marte2hieratika.Marte.{Text, StringHelper}
use marte2hieratika.Receiver.{Receiver}
use marte2hieratika.Receiver.Store.{Converter, consume, consume_step, find_index}
use marte2hieratika.Receiver.Store.Step.{after_message, step_stops}
use marte2hieratika.Receiver.Message.{base_name}
use marte2hieratika.Receiver.Message.Partial.{read_nil}
use marte2hieratika.Receiver.Store.Loop.{consume-suc, consume_stop}
use marte2hieratika.Receiver.Store.Layout.{IsStarted}
use marte2hieratika.Receiver.Store.Resolve.{find_index_lem}
use marte2hieratika.Receiver.Store.Whole.{
  SameShape, find_index_shape, IsRoomy, Whole, message-Whole,
}
use marte2hieratika.Sender.Message.{Block, encode}
use marte2hieratika.RoundTrip.{IsSendable}
use marte2hieratika.RoundTrip.Parse.{length-encode, block_header, body_of}
use marte2hieratika.RoundTrip.Deliver.{step_encode}
use marte2hieratika.RoundTrip.Sequence.{encode_all, IsSendable-limits}
use marte2hieratika.RoundTrip.Partial.{Stops, step_partial}

module _ (s : StringHelper) (c : Converter) (sender : ℕ → Text) where
  -- The receiver that the message of a block makes, whatever follows it.
  abbrev pub apply_block : Receiver → Block → ℕ → Receiver
  apply_block r b thread = after_message s c r (block_header s b) (b.value ++ b.timestamp) thread

  abbrev pub apply_blocks : Receiver → List Block → ℕ → Receiver
  apply_blocks r [] thread = r
  apply_blocks r (b ∷ bs) thread = apply_blocks (apply_block r b thread) bs thread

  -- A block for this receiver: within its limits, under the name that the sender has for the
  -- index, and inside every variable of that name.
  pub record IsDue (r : Receiver) (b : Block) : Type 0 where
    pub sendable : IsSendable r b
    pub indexed : b.name ≡ sender b.index
    pub roomy : IsRoomy r (block_header s b)

  abbrev pub AllDue : Receiver → List Block → Type 0
  AllDue r [] = Unit {0}
  AllDue r (b ∷ bs) = IsDue r b × AllDue r bs

  IsDue-shape : (r q : Receiver) (b : Block) → SameShape r q → IsDue r b → IsDue q b
  IsDue-shape r q b same due = record {
    sendable = IsSendable-limits r q b (same.variables, same.array_size) due.sendable;
    indexed = due.indexed;
    roomy = rw (same.pvs, same.variables) due.roomy;
  }

  pub AllDue-shape : (r q : Receiver) (bs : List Block) → SameShape r q → AllDue r bs → AllDue q bs
  AllDue-shape r q [] same due = tt
  AllDue-shape r q (b ∷ bs) same due =
      (IsDue-shape r q b same due.0, AllDue-shape r q bs same due.1)

  pub whole_block :
      (r : Receiver) (b : Block) (bytes : List ℕ) (thread : ℕ)
      → IsStarted s sender r
      → IsDue r b
      → Whole s c sender r (block_header s b) bytes thread
  whole_block r b bytes thread v due =
      message-Whole s c sender r (block_header s b) bytes thread v due.sendable.index_known
        due.roomy
        (find_index_lem s sender r (block_header s b) v due.sendable.index_known
          (ap (base_name s) due.indexed))

  -- One round takes the message of a block.
  pub step_block :
      (r : Receiver) (b : Block) (rest : List ℕ) (thread : ℕ)
      → IsStarted s sender r
      → IsDue r b
      → consume_step s c r (encode b ++ rest) thread ≡ (true, apply_block r b thread, rest)
  step_block r b rest thread v due =
      let w = due.sendable in
      let tail = 10 ∷ 13 ∷ rest in
      let value =
        ap (λ n. take n (body_of b rest)) (sym w.value_size) ∙ take-append_length b.value _ in
      let alone =
        ap (λ n. take n (b.value ++ b.timestamp)) (sym w.value_size)
        ∙ take-append_length b.value _ in
      let stamp : slice (body_of b rest) b.size 8 ≡ b.timestamp =
        ap (λ n. slice (body_of b rest) n 8) (sym w.value_size)
        ∙ ap (take 8) (drop-append_length b.value (b.timestamp ++ tail))
        ∙ ap (λ n. take n (b.timestamp ++ tail)) (sym w.timestamp_size)
        ∙ take-append_length b.timestamp tail in
      let stamp_alone : slice (b.value ++ b.timestamp) b.size 8 ≡ b.timestamp =
        ap (λ n. slice (b.value ++ b.timestamp) n 8) (sym w.value_size)
        ∙ ap (take 8) (drop-append_length b.value b.timestamp)
        ∙ ap (λ n. take n b.timestamp) (sym w.timestamp_size)
        ∙ take-length b.timestamp in
      step_encode s c sender r b rest thread w
      ∙ ap (λ (q : Receiver). (true, q, rest))
          ((whole_block r b (body_of b rest) thread v due).local (b.value ++ b.timestamp)
            (value ∙ sym alone) (stamp ∙ sym stamp_alone))

  -- What the loop leaves of a part of the messages: the blocks that are still to come, and a
  -- receiver that they take to the same end.
  pub record Settled (r : Receiver) (payload future : List ℕ) (bs : List Block) (fuel thread : ℕ)
      : Type 0 where
    pub receiver : Receiver
    pub left : List ℕ
    pub blocks : List Block
    pub consumed : consume s c fuel r payload thread ≡ some (receiver, left)
    pub rest : left ++ future ≡ encode_all blocks
    pub same_end : apply_blocks receiver blocks thread ≡ apply_blocks r bs thread
    pub started : IsStarted s sender receiver
    pub due : AllDue receiver blocks
    pub ended : future ≡ [] → blocks ≡ []

  settle_partial :
      (b : Block) (bs : List Block) (r : Receiver) (payload future : List ℕ) (fuel thread : ℕ)
      → IsStarted s sender r
      → (due : AllDue r (b ∷ bs)) → payload ++ future ≡ encode_all (b ∷ bs)
      → length payload < length (encode b)
      → Stops s c r b due.0.sendable thread payload
      → Settled r payload future (b ∷ bs) (suc fuel) thread
  unfolding encode_all
  settle_partial b bs r payload future fuel thread v due e lt (q, stopped, kept) =
      let whole = whole_block r b (b.value ++ b.timestamp) thread v due.0 in
      let found =
        find_index_lem s sender r (block_header s b) v due.0.sendable.index_known
          (ap (base_name s) due.0.indexed) in
      let looked = (find_index s r (block_header s b)).0 in
      let settled : (p : Receiver)
          → consume_step s c r payload thread ≡ (false, p, payload)
          → apply_block p b thread ≡ apply_block r b thread
          → IsStarted s sender p
          → SameShape r p
          → Settled r payload future (b ∷ bs) (suc fuel) thread =
        λ p stop same started shape. record {
          receiver = p;
          left = payload;
          blocks = b ∷ bs;
          consumed = consume_stop s c fuel r p payload payload thread stop;
          rest = e;
          same_end = ap (λ x. apply_blocks x bs thread) same;
          started = started;
          due = AllDue-shape r p (b ∷ bs) shape due;
          ended = λ none_left. absurd (
              omega (
                arith,
                ap length e,
                ap length none_left,
                length-append payload future,
                length-append (encode b) (encode_all bs),
              ));
        } in
      elim kept [
        | inl same ↦
            settled r (stopped ∙ ap (λ (p : Receiver). (false, p, payload)) same) refl v
              (record { pvs = refl; variables = refl; array_size = refl })
        | inr cached ↦
            settled looked (stopped ∙ ap (λ (p : Receiver). (false, p, payload)) cached) whole.again
              found.0 (find_index_shape s c sender r (block_header s b))
      ]

  -- On any part, from their start, of the messages of some blocks the loop of `ClientService` ends
  -- within as much fuel as the part has bytes and one more. What it leaves of the part is the start
  -- of the messages of the blocks that are still to come; the receiver stays well-formed, and these
  -- blocks take it to the same end as all blocks take the one before; no block is left where the
  -- part is all of the messages. The receiver is a started one, and every block is within its
  -- limits, under the sender's name for the index and inside every variable of that name.
  pub settle :
      (bs : List Block) (r : Receiver) (payload future : List ℕ) (fuel thread : ℕ)
      → IsStarted s sender r
      → AllDue r bs
      → payload ++ future ≡ encode_all bs
      → length payload < fuel
      → Settled r payload future bs fuel thread
  unfolding encode_all
  settle bs r payload future zero thread v due e lt = absurd (omega arith)
  settle [] r [] future (suc fuel) thread v due e lt = record {
    receiver = r;
    left = [];
    blocks = [];
    consumed =
        consume_stop s c fuel r r [] [] thread (step_stops s c r [] [] thread (read_nil s r));
    rest = e;
    same_end = refl;
    started = v;
    due = tt;
    ended = λ _. refl;
  }
  settle [] r (x ∷ xs) future (suc fuel) thread v due e lt = absurd (omega (arith, ap length e))
  settle (b ∷ bs) r payload future (suc fuel) thread v due e lt =
      elim (dec_le (length (encode b)) (length payload)) [
        | yes whole ↦
            let split = split_prefix payload future (encode b) (encode_all bs) e whole in
            let tail = drop (length (encode b)) payload in
            let after = whole_block r b (b.value ++ b.timestamp) thread v due.0 in
            let size = length-encode r b due.0.sendable in
            let ih =
              settle bs (apply_block r b thread) tail future fuel thread after.started
                (AllDue-shape r (apply_block r b thread) bs after.shape due.1) split.1
                (omega (arith, length-drop (length (encode b)) payload, size)) in
            record {
              receiver = ih.receiver;
              left = ih.left;
              blocks = ih.blocks;
              consumed =
                  ap (λ p. consume s c (suc fuel) r p thread) split.0
                  ∙ consume-suc s c fuel r _ _ _ thread (step_block r b tail thread v due.0)
                  ∙ ih.consumed;
              rest = ih.rest;
              same_end = ih.same_end;
              started = ih.started;
              due = ih.due;
              ended = ih.ended;
            }
        | no part ↦
            let here = split_partial payload future (encode b) (encode_all bs) e (omega arith) in
            settle_partial b bs r payload future fuel thread v due e (omega arith) (
              subst (Stops s c r b due.0.sendable thread) (sym here)
                (step_partial s c r b due.0.sendable thread (length payload) (omega arith)))
      ]
