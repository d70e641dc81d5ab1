-- ===== src/Receiver/Service/Round.antt =====
-- The loop of `ClientService` on a body that has a length: what a round reads, and its end.
use marte2hieratika.Base.{
  ℕ, zero, suc, ◌-◌, ◌≤◌, ◌<◌, ◌≡◌, refl, sym, ap, ◌∙◌, true, false, List, [], ◌∷◌, ◌++◌,
  append_assoc, append-nil, Option, some, ltb, ◌==◌, if◌then◌else◌, length, length-append, drop,
  split_prefix, arith,
}
use marte2hieratika.Marte.{Text, StringHelper}
use marte2hieratika.Marte.Socket.{TcpSocket}
use marte2hieratika.Receiver.{Receiver}
use marte2hieratika.Receiver.Store.{Converter, consume}
use marte2hieratika.Receiver.Service.{
  read_pieces, chunk_sizes, fill_chunk, read_new_chunk, read_line_end, Service, take_chunk,
  service_round, service_loop, serve_body,
}

module _ (socket : TcpSocket) where
  open socket use {State, read, pending, read_next, read_succeeds}

  -- How much one read asks for.
  abbrev asked : ℕ → ℕ
  asked left = if ltb 1023 left then 1023 else left

  read_pieces_done :
      (fuel : ℕ) (t : State) (payload : List ℕ)
      → read_pieces socket (suc fuel) t 0 payload ≡ some (true, payload, t)
  unfolding read_pieces
  read_pieces_done fuel t payload = ground arith

  read_pieces_more :
      (fuel : ℕ) (t : State) (left : ℕ) (payload bs : List ℕ)
      → 0 < left
      → (read t (asked left)).0 ≡ some bs
      → read_pieces socket (suc fuel) t left payload
        ≡ read_pieces socket fuel (read t (asked left)).1 (left - length bs) (payload ++ bs)
  unfolding read_pieces
  read_pieces_more fuel t left payload bs pos got =
      let here : (left == 0) ≡ false = ground arith in rw (here, got) refl

  -- The reads of `ReadNewChunk` end within as much fuel as the chunk has bytes and one more, and
  -- put exactly the next bytes of the socket behind the payload, as many as the chunk has, in
  -- whatever pieces the socket gives them, where it has that many.
  pub read_pieces_lem :
      (fuel : ℕ) (t : State) (body more payload : List ℕ)
      → length body < fuel
      → pending t ≡ body ++ more
      → (t' : State) × (read_pieces socket fuel t (length body) payload
          ≡ some (true, payload ++ body, t'))
        × (pending t' ≡ more)
  read_pieces_lem zero t body more payload lt e = absurd (omega arith)
  read_pieces_lem (suc fuel) t [] more payload lt e =
      (t, read_pieces_done fuel t payload ∙ rw (append-nil payload) refl, e)
  read_pieces_lem (suc fuel) t (x ∷ xs) more payload lt e =
      let left = length (x ∷ xs) in
      let pos : 0 < asked left = ground arith in
      let within : asked left ≤ left = ground arith in
      let (bs, got) = read_succeeds t (asked left) pos (omega (arith, ap length e)) in
      let (some_read, few, next) = read_next t (asked left) bs pos got in
      let t' = (read t (asked left)).1 in
      let split = split_prefix (x ∷ xs) more bs (pending t') (sym e ∙ next) (omega arith) in
      let tail = drop (length bs) (x ∷ xs) in
      let sizes : left - length bs ≡ length tail =
        omega (arith, ap length split.0, length-append bs tail) in
      let (end, rest, after) =
        read_pieces_lem fuel t' tail more (payload ++ bs) (omega (arith, sizes)) (sym split.1) in
      (
        end,
        read_pieces_more fuel t left payload bs (omega arith) got
            ∙ ap (λ k. read_pieces socket fuel t' k (payload ++ bs)) sizes
            ∙ rest
            ∙ ap (λ l. some (true, l, end))
                (append_assoc payload bs tail ∙ ap (λ l. payload ++ l) (sym split.0)),
        after,
      )

  sized_chunk :
      (hex : Text → Option ℕ) (t : State) (chunk_size content_length size : ℕ)
      → (if ltb content_length chunk_size then content_length else chunk_size) ≡ size
      → chunk_sizes socket hex t false chunk_size content_length
        ≡ (true, size, content_length - size, t)
  unfolding chunk_sizes
  sized_chunk hex t chunk_size content_length size e = rw e refl

  -- `ReadNewChunk` of a body with a length, and what it reads.
  read_sized_chunk :
      (hex : Text → Option ℕ) (t t' : State) (payload payload' : List ℕ)
      (chunk_size content_length size : ℕ)
      → (if ltb content_length chunk_size then content_length else chunk_size) ≡ size
      → read_pieces socket (suc size) t size payload ≡ some (true, payload', t')
      → read_new_chunk socket hex t payload false chunk_size content_length
        ≡ some (record {
          ok = true;
          payload = payload';
          chunk_size = size;
          content_length = content_length - size;
          state = t';
        })
  unfolding read_new_chunk fill_chunk
  read_sized_chunk hex t t' payload payload' chunk_size content_length size e got =
      ap (fill_chunk socket payload) (sized_chunk hex t chunk_size content_length size e)
      ∙ rw (got, fill_chunk) refl

  module _ (s : StringHelper) (c : Converter) (hex : Text → Option ℕ) (thread : ℕ) where
    pub round : Service socket → Option (Service socket)
    round = service_round socket s c hex false thread

    -- The round that finds nothing left.
    pub round_end :
        (v : Service socket)
        → v.content_length ≡ 0
        → 0 < v.chunk_size
        → round v
          ≡ some (record v { ok = true; chunk_size = 0; content_length = v.content_length - 0 })
    unfolding round service_round
    round_end v none_left pos =
        let size : (if ltb v.content_length v.chunk_size then v.content_length else v.chunk_size)
            ≡ 0 =
          ground arith in
        let e =
          read_sized_chunk hex v.state v.state v.payload v.payload v.chunk_size v.content_length 0
            size (read_pieces_done 0 v.state v.payload) in
        rw (e, service_round) refl

    -- A round that reads `body`.
    pub round_chunk :
        (v : Service socket) (body more left : List ℕ) (r : Receiver)
        → (if ltb v.content_length v.chunk_size then v.content_length else v.chunk_size)
          ≡ length body
        → 0 < length body
        → pending v.state ≡ body ++ more
        → consume s c (suc (length (v.payload ++ body))) v.receiver (v.payload ++ body) thread
          ≡ some (r, left)
        → (t : State) × (round v
            ≡ some (record {
              ok = true;
              receiver = r;
              payload = left;
              chunk_size = length body;
              content_length = v.content_length - length body;
              state = t;
            }))
          × (pending t ≡ more)
    unfolding round service_round take_chunk read_line_end
    round_chunk v body more left r size pos e taken =
        let (t, got, after) =
          read_pieces_lem (suc (length body)) v.state body more v.payload (omega arith) e in
        let chunk =
          read_sized_chunk hex v.state t v.payload (v.payload ++ body) v.chunk_size v.content_length
            (length body) size got in
        let some_bytes : ltb 0 (length body) ≡ true = ground arith in
        (t, rw (chunk, service_round, some_bytes, taken) refl, after)

    -- The loop on fuel, by its first round.
    pub loop_end :
        (fuel : ℕ) (v w : Service socket)
        → round v ≡ some w
        → w.chunk_size ≡ 0
        → service_loop socket s c hex false thread (suc fuel) v ≡ some w
    unfolding round service_loop
    loop_end fuel v w e zero_size = rw (e, zero_size, service_loop) refl

    pub loop_next :
        (fuel : ℕ) (v w : Service socket)
        → round v ≡ some w
        → w.ok ≡ true
        → 0 < w.chunk_size
        → service_loop socket s c hex false thread (suc fuel) v
          ≡ service_loop socket s c hex false thread fuel w
    unfolding round service_loop
    loop_next fuel v w e ok pos =
        let goes : ltb 0 w.chunk_size ≡ true = ground arith in rw (e, ok, goes, service_loop) refl

    -- The reply to a body that the loop ended without an error.
    pub serve_body_lem :
        (fuel : ℕ) (r : Receiver) (t : State) (n : ℕ) (w : Service socket)
        → service_loop socket s c hex false thread fuel (record {
          ok = true;
          receiver = r;
          payload = [];
          chunk_size = 32;
          content_length = n;
          state = t;
        })
          ≡ some w
        → w.ok ≡ true
        → serve_body socket s c hex false thread fuel r t n ≡ some w
    unfolding serve_body read_line_end
    serve_body_lem fuel r t n w e ok = rw (e, ok, serve_body) refl
