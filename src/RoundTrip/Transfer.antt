-- ===== src/RoundTrip/Transfer.antt =====
-- A request from end to end: what a pool thread of the sender writes, through the receiver's loop.
use marte2hieratika.Base.{
  Option, none, false, ℕ, ◌<◌, ◌≡◌, refl, sym, ap, ◌∙◌, true, List, [], ◌++◌, map, length, arith,
  some, u32_mod, ltb,
}
use marte2hieratika.Marte.{Text, StringHelper}
use marte2hieratika.Marte.Socket.{TcpSocket}
use marte2hieratika.Subscriber.{PvDescriptor}
use marte2hieratika.Receiver.{Receiver}
use marte2hieratika.Receiver.Store.{Converter}
use marte2hieratika.Receiver.Store.Layout.{IsStarted}
use marte2hieratika.Receiver.Service.{Service, serve_body}
use marte2hieratika.Sender.{PrioritySender}
use marte2hieratika.Sender.Message.{Block}
use marte2hieratika.Sender.Share.{list_positions}
use marte2hieratika.Sender.Send.{Sending, send_share}
use marte2hieratika.Sender.Send.Whole.{Accepts, FitsBlock, block_at, send_share_whole, pv_of}
use marte2hieratika.Sender.Request.{write_buffer}
use marte2hieratika.RoundTrip.Sequence.{encode_all}
use marte2hieratika.RoundTrip.Pieces.{AllDue}
use marte2hieratika.RoundTrip.Body.{Served, serve_body-encode_all}

unfoldable pub buffer_accepts : Accepts write_buffer
unfolding write_buffer
buffer_accepts = record { written = λ w. w; succeeds = λ w bs. refl; appends = λ w bs. refl }

module _ (t : PrioritySender) (pvs : List PvDescriptor) where
  -- The blocks of the `n` variables from a position of the list on.
  abbrev pub share_blocks : ℕ → ℕ → List Block
  share_blocks position n = map (block_at t pvs) (list_positions t.number_of_variables position n)

-- Where `SendVariables` starts a body of `n` variables.
abbrev pub first_of : ℕ → ℕ → Sending (List ℕ)
first_of position n = record {
  i = 0;
  var_offset = 0;
  list_index = position;
  cnt_variables = 0;
  condition = ltb 0 n;
  ok = true;
  writer = [];
}

writer_of : Option (Sending (List ℕ)) → List ℕ
writer_of none = []
writer_of (some g) = g.writer

module _ (socket : TcpSocket) (s : StringHelper) (c : Converter) (sender : ℕ → Text)
    (hex : Text → Option ℕ) (t : PrioritySender) (pvs : List PvDescriptor) where
  open socket use {State, pending}

  sent_bytes :
      (n position : ℕ) (g : Sending (List ℕ))
      → ((j : ℕ) → j < t.number_of_variables → FitsBlock t (pv_of t pvs j))
      → position < t.number_of_variables
      → n < u32_mod
      → send_share write_buffer t pvs n n (first_of position n) ≡ some g
      → g.writer ≡ encode_all (share_blocks t pvs position n)
  unfolding writer_of buffer_accepts
  sent_bytes n position g fits inside few sent =
      let (g', e, bytes, cnt, reset, fine) =
        send_share_whole write_buffer buffer_accepts t pvs n n (first_of position n) fits inside few
          refl (omega arith) refl refl refl in
      ap writer_of (sym sent ∙ e) ∙ bytes

  -- What `SendVariables` of the sender writes for its share of the variables, as the body of one
  -- request, makes the receiver the one that these variables' blocks make, one after the other: the
  -- loop of `ClientService` ends without an error within its fuel, nothing of the payload is left,
  -- and the socket stands behind the body, in whatever pieces it gave the bytes. The share has
  -- fewer than 2^32 variables and starts inside the list, every listed variable has a value that is
  -- not empty and at most `maxVarSize` long, the writes of the buffer are done, the receiver is a
  -- started one, its body has the length of what was written, and every block is within its limits,
  -- under the sender's name for the index and inside every variable of that name.
  pub serve_body-send_share :
      (n position fuel thread : ℕ) (r : Receiver) (st : State) (more : List ℕ)
      (g : Sending (List ℕ))
      → ((j : ℕ) → j < t.number_of_variables → FitsBlock t (pv_of t pvs j))
      → position < t.number_of_variables
      → n < u32_mod
      → IsStarted s sender r
      → AllDue s c sender r (share_blocks t pvs position n)
      → send_share write_buffer t pvs n n (first_of position n) ≡ some g
      → pending st ≡ g.writer ++ more
      → length g.writer < fuel
      → (w : Service socket) × (serve_body socket s c hex false thread fuel r st (length g.writer)
          ≡ some w)
        × Served socket s c sender hex thread r (share_blocks t pvs position n) more w
  serve_body-send_share n position fuel thread r st more g fits inside few v due sent come enough =
      let bytes = sent_bytes n position g fits inside few sent in
      let (w, served, end) =
        serve_body-encode_all socket s c sender hex thread fuel r st (share_blocks t pvs position n)
          more v due (come ∙ ap (λ l. l ++ more) bytes) (omega (arith, ap length bytes, enough)) in
      (w, ap (serve_body socket s c hex false thread fuel r st) (ap length bytes) ∙ served, end)
