-- ===== src/Receiver/Service.antt =====
-- `ReadNewChunk` and `ClientService` in DiodeReceiver.cpp: a request, from its body on the socket
-- to the reply. A body has a length or comes in chunks.
pub mod Round
use marte2hieratika.Base.{
  not, ℕ, zero, suc, ◌+◌, ◌-◌, Bool, true, false, ◌&&◌, ◌||◌, List, [], ◌∷◌, ◌++◌, Option, none,
  some, ltb, ◌==◌, if◌then◌else◌, length, sub32,
}
use marte2hieratika.Marte.{Text, StringHelper}
use marte2hieratika.Marte.Socket.{TcpSocket}
use marte2hieratika.Receiver.{Receiver}
use marte2hieratika.Receiver.Store.{Converter, consume}

-- `while ((lastChar == '\r') || (lastChar == '\n'))`: the line without the line ends behind it. The
-- subscript of an empty line counts as no line end.
pub trim_line : Text → Text
trim_line [] = []
trim_line (ch ∷ cs) =
    let rest = trim_line cs in
    if (length rest == 0) && ((ch == 13) || (ch == 10)) then [] else ch ∷ rest

module _ (socket : TcpSocket) where
  open socket use {State, read, get_line}

  -- `while ((sizeRead < chunkSize) && (err.ErrorsCleared()))`, on fuel: whether there was no error,
  -- the payload and the socket; `left` is `chunkSize - sizeRead`.
  pub read_pieces : ℕ → State → ℕ → List ℕ → Option (Bool × List ℕ × State)
  read_pieces zero t left payload = none
  read_pieces (suc fuel) t left payload =
      let (got, t') = read t (if ltb 1023 left then 1023 else left) in
      let rest : Option (Bool × List ℕ × State) = elim got [
        | none ↦ some (false, payload, t')
        | some bs ↦ read_pieces fuel t' (left - length bs) (payload ++ bs)
      ] in
      if left == 0 then some (true, payload, t) else rest

  -- What `ReadNewChunk` leaves in its arguments; `ok` is `err.ErrorsCleared()`.
  pub record Chunk : Type 0 where
    pub ok : Bool
    pub payload : List ℕ
    pub chunk_size : ℕ
    pub content_length : ℕ
    pub state : State

  -- The sizes of a chunk: whether the line with the size was read, `chunkSize`, `contentLength` and
  -- the socket. `hex` is `TypeConvert` of a text of hexadecimal digits to a `uint32`.
  pub chunk_sizes : (Text → Option ℕ) → State → Bool → ℕ → ℕ → Bool × ℕ × ℕ × State
  chunk_sizes hex t true chunk_size zero =
      let (line, t') = get_line t in
      elim line [
        | none ↦ (false, chunk_size, sub32 0 chunk_size, t')
        | some text ↦ elim (hex (trim_line text)) [
          | none ↦ (true, chunk_size, 0, t')
          | some size ↦ (true, size, 0, t')
        ]
      ]
  chunk_sizes hex t true chunk_size (suc n) = (true, suc n, 0, t)
  chunk_sizes hex t false chunk_size content_length =
      let size = (if ltb content_length chunk_size then content_length else chunk_size) in
      (true, size, content_length - size, t)

  -- The reads of a chunk, where its size is known.
  pub fill_chunk : List ℕ → Bool × ℕ × ℕ × State → Option Chunk
  fill_chunk payload (true, size, left, t) = elim (read_pieces (suc size) t size payload) [
    | none ↦ none
    | some (ok, payload', t') ↦ some (record {
      ok = ok;
      payload = payload';
      chunk_size = size;
      content_length = left;
      state = t';
    })
  ]
  fill_chunk payload (false, size, left, t) = some (record {
    ok = false;
    payload = payload;
    chunk_size = size;
    content_length = left;
    state = t;
  })

  -- `ReadNewChunk`.
  pub read_new_chunk : (Text → Option ℕ) → State → List ℕ → Bool → ℕ → ℕ → Option Chunk
  read_new_chunk hex t payload is_chunked chunk_size content_length =
      fill_chunk payload (chunk_sizes hex t is_chunked chunk_size content_length)

  -- The line end behind a chunk.
  pub read_line_end : State → Bool → Bool × State
  read_line_end t false = (true, t)
  read_line_end t true =
      let (line, t') = get_line t in elim line [ none ↦ (false, t') | some text ↦ (true, t') ]

  -- The state of the loop: whether `err` is clear, the receiver, the payload and the socket.
  pub record Service : Type 0 where
    pub ok : Bool
    pub receiver : Receiver
    pub payload : List ℕ
    pub chunk_size : ℕ
    pub content_length : ℕ
    pub state : State

  module _ (s : StringHelper) (c : Converter) (hex : Text → Option ℕ) (is_chunked : Bool)
      (thread : ℕ) where
    -- The body of the loop for a chunk that is not empty: the line end behind it, and the messages
    -- that are complete.
    pub take_chunk : Service → Option Service
    take_chunk v =
        let (ended, t) = read_line_end v.state is_chunked in
        let consumed = consume s c (suc (length v.payload)) v.receiver v.payload thread in
        if ended
        then elim consumed [
          | none ↦ none
          | some (r, left) ↦ some (record v { receiver = r; payload = left; state = t })
        ]
        else some (record v { ok = false; state = t })

    -- One round of `do ... while ((chunkSize > 0u) && (err.ErrorsCleared()))`.
    pub service_round : Service → Option Service
    unfolding take_chunk
    service_round v =
        elim (read_new_chunk hex v.state v.payload is_chunked v.chunk_size v.content_length) [
          | none ↦ none
          | some chunk ↦
              let read : Service = record {
                ok = chunk.ok;
                receiver = v.receiver;
                payload = chunk.payload;
                chunk_size = chunk.chunk_size;
                content_length = chunk.content_length;
                state = chunk.state;
              } in
              if chunk.ok && ltb 0 chunk.chunk_size then take_chunk read else some read
        ]

    -- The loop, on fuel.
    pub service_loop : ℕ → Service → Option Service
    service_loop zero v = none
    service_loop (suc fuel) v = elim (service_round v) [
      | none ↦ none
      | some v' ↦
          let rest = service_loop fuel v' in if ltb 0 v'.chunk_size && v'.ok then rest else some v'
    ]

    -- The part of `ClientService` from the loop to the reply; the last line end is read in a body
    -- of chunks. `ok` is then whether the reply is `SendOkReplyMessage`.
    pub serve_body : ℕ → Receiver → State → ℕ → Option Service
    serve_body fuel r t content_length =
        elim (service_loop fuel (record {
          ok = true;
          receiver = r;
          payload = [];
          chunk_size = if is_chunked then 0 else 32;
          content_length = content_length;
          state = t;
        })) [
          | none ↦ none
          | some v ↦
              let (ended, t') = read_line_end v.state is_chunked in
              if v.ok then some (record v { ok = ended; state = t' }) else some v
        ]

  -- `ClientService`, where `quit` is 0: `header` is `ReadHeader`, `keep_alive` the flag that it sets,
  -- and `content_length` what `Read` gives for `Content-Length`: without it the body comes in chunks,
  -- and a length of 0 clears the flag. The result is what is left, with `ok` where the reply is
  -- `SendOkReplyMessage`, and whether the connection stays open.
  pub client_service :
      StringHelper
      → Converter
      → (Text → Option ℕ)
      → ℕ
      → ℕ
      → Receiver
      → State
      → Bool
      → Bool
      → Option ℕ
      → Option (Service × Bool)
  client_service s c hex fuel thread r t false keep_alive content_length = some (
    record {
      ok = false;
      receiver = r;
      payload = [];
      chunk_size = 0;
      content_length = 0;
      state = t;
    },
    false,
  )
  client_service s c hex fuel thread r t true keep_alive none =
      elim (serve_body s c hex true thread fuel r t 0) [
        | none ↦ none
        | some v ↦ some (v, v.ok && keep_alive)
      ]
  client_service s c hex fuel thread r t true keep_alive (some n) =
      elim (serve_body s c hex false thread fuel r t n) [
        | none ↦ none
        | some v ↦ some (v, v.ok && (keep_alive && not (n == 0)))
      ]
