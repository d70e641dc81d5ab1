-- ===== src/RoundTrip/Body.antt =====
-- The messages of many blocks as the body of a request, in the pieces in which the socket gives it.
use marte2hieratika.Base.{
  Option, ℕ, zero, suc, ◌-◌, ◌≤◌, ◌<◌, ◌≡◌, refl, sym, ap, ◌∙◌, true, false, List, [], ◌∷◌, ◌++◌,
  append_assoc, append-nil, length, length-append, length-take, length-drop, take, drop,
  take-append-drop, arith, some, ltb, if◌then◌else◌,
}
use marte2hieratika.Marte.{Text, StringHelper}
use marte2hieratika.Marte.Socket.{TcpSocket}
use marte2hieratika.Receiver.{Receiver}
use marte2hieratika.Receiver.Store.{Converter}
use marte2hieratika.Receiver.Store.Layout.{IsStarted}
use marte2hieratika.Receiver.Service.{Service, service_loop, serve_body}
use marte2hieratika.Receiver.Service.Round.{
  round_end, round_chunk, loop_end, loop_next, serve_body_lem,
}
use marte2hieratika.Sender.Message.{Block, encode}
use marte2hieratika.RoundTrip.Parse.{length-encode}
use marte2hieratika.RoundTrip.Sequence.{encode_all}
use marte2hieratika.RoundTrip.Pieces.{apply_blocks, AllDue, settle}

module _ (socket : TcpSocket) (s : StringHelper) (c : Converter) (sender : ℕ → Text)
    (hex : Text → Option ℕ) (thread : ℕ) where
  open socket use {State, pending}

  -- The end of the loop: no error, the receiver that the blocks make, nothing left of the payload,
  -- and the socket behind the body.
  pub record Served (r : Receiver) (bs : List Block) (more : List ℕ) (w : Service socket)
      : Type 0 where
    pub ok : w.ok ≡ true
    pub receiver : w.receiver ≡ apply_blocks s c sender r bs thread
    pub payload : w.payload ≡ []
    pub behind : pending w.state ≡ more

  -- Before a round: the rest of the body is still to come, and completes the messages of `bs`.
  record Waits (v : Service socket) (body more : List ℕ) (bs : List Block) : Type 0 where
    chunked : 0 < v.chunk_size
    to_come : pending v.state ≡ body ++ more
    counted : length body ≡ v.content_length
    completes : v.payload ++ body ≡ encode_all bs
    ended : body ≡ [] → bs ≡ []
    started : IsStarted s sender v.receiver
    due : AllDue s c sender v.receiver bs

  abbrev loop : ℕ → Service socket → Option (Service socket)
  loop = service_loop socket s c hex false thread

  loop_lem :
      (fuel : ℕ) (v : Service socket) (body more : List ℕ) (bs : List Block)
      → Waits v body more bs
      → v.content_length < fuel
      → (w : Service socket) × (loop fuel v ≡ some w) × Served v.receiver bs more w
  unfolding encode_all
  loop_lem zero v body more bs h lt = absurd (omega arith)
  loop_lem (suc fuel) v [] more bs h lt =
      let none_due = h.ended refl in
      let none_left : v.content_length ≡ 0 = sym h.counted in
      (
        record v { ok = true; chunk_size = 0; content_length = v.content_length - 0 },
        loop_end socket s c hex thread fuel v _
            (round_end socket s c hex thread v none_left h.chunked) refl,
        record {
          ok = refl;
          receiver = ap (λ l. apply_blocks s c sender v.receiver l thread) (sym none_due);
          payload = sym (append-nil v.payload) ∙ h.completes ∙ ap encode_all none_due;
          behind = h.to_come;
        },
      )
  loop_lem (suc fuel) v (x ∷ xs) more bs h lt =
      let body = x ∷ xs in
      let size : ℕ = if ltb v.content_length v.chunk_size then v.content_length else v.chunk_size in
      let whole : size ≤ length body = ground (arith, h.counted) in
      let some_bytes : 0 < size = ground (arith, h.counted, h.chunked) in
      let piece = take size body in
      let tail = drop size body in
      let taken : size ≡ length piece = omega (arith, whole, length-take size body) in
      let split = take-append-drop size body in
      let complete =
        append_assoc v.payload piece tail ∙ ap (λ l. v.payload ++ l) split ∙ h.completes in
      let settled =
        settle s c sender bs v.receiver (v.payload ++ piece) tail
          (suc (length (v.payload ++ piece))) thread h.started h.due complete (omega arith) in
      let (t, here, after) =
        round_chunk socket s c hex thread v piece (tail ++ more) settled.left settled.receiver taken
          (omega (arith, taken, some_bytes))
          (h.to_come ∙ ap (λ l. l ++ more) (sym split) ∙ append_assoc piece tail more)
          settled.consumed in
      let (w, rest, served) =
        loop_lem fuel _ tail more settled.blocks
          (record {
            chunked = omega (arith, taken, some_bytes);
            to_come = after;
            counted = omega (arith, taken, h.counted, length-drop size body);
            completes = settled.rest;
            ended = settled.ended;
            started = settled.started;
            due = settled.due;
          })
          (omega (arith, taken, some_bytes, h.counted)) in
      (
        w,
        loop_next socket s c hex thread fuel v _ here refl (omega (arith, taken, some_bytes))
            ∙ rest,
        record {
          ok = served.ok;
          receiver = served.receiver ∙ settled.same_end;
          payload = served.payload;
          behind = served.behind;
        },
      )

  none_encoded :
      (r : Receiver) (bs : List Block) → AllDue s c sender r bs → encode_all bs ≡ [] → bs ≡ []
  unfolding encode_all
  none_encoded r [] due e = refl
  none_encoded r (b ∷ bs) due e = absurd (
      omega (
        arith,
        ap length e,
        length-append (encode b) (encode_all bs),
        length-encode r b due.0.sendable,
      ))

  -- `ClientService` on a body with a length, which holds the messages of any blocks and nothing
  -- else, ends without an error with the receiver that the blocks make one after the other, with
  -- nothing left of the payload and with the socket behind the body, however the socket and the
  -- rounds of 32 bytes cut the messages. The receiver is a started one, every block is within its
  -- limits, under the sender's name for the index and inside every variable of that name, and the
  -- fuel is more than the bytes of the body.
  pub serve_body-encode_all :
      (fuel : ℕ) (r : Receiver) (t : State) (bs : List Block) (more : List ℕ)
      → IsStarted s sender r
      → AllDue s c sender r bs
      → pending t ≡ encode_all bs ++ more
      → length (encode_all bs) < fuel
      → (w : Service socket) × (serve_body socket s c hex false thread fuel r t
            (length (encode_all bs))
          ≡ some w)
        × Served r bs more w
  serve_body-encode_all fuel r t bs more v due e lt =
      let (w, ended, served) =
        loop_lem fuel _ (encode_all bs) more bs
          (record {
            chunked = omega arith;
            to_come = e;
            counted = refl;
            completes = refl;
            ended = none_encoded r bs due;
            started = v;
            due = due;
          })
          lt in
      (w, serve_body_lem socket s c hex thread fuel r t _ w ended served.ok, served)
