-- ===== src/Sender/Request.antt =====
-- The requests of `PrioritySender::SendVariables` in PrioritySender.cpp: the header, the messages,
-- the end of the body, and the replies that have come.
use marte2hieratika.Base.{
  ℕ, zero, suc, ◌-◌, Bool, true, false, ◌&&◌, List, [], ◌++◌, Option, none, some, length, ltb,
  if◌then◌else◌, add32, sub32,
}
use marte2hieratika.Marte.Stream.{HttpChunkedStream}
use marte2hieratika.Subscriber.{PvDescriptor}
use marte2hieratika.Sender.{PrioritySender}
use marte2hieratika.Sender.Share.{vars_per_thread, take_share}
use marte2hieratika.Sender.Send.{Sending, send_share}

-- `ErrorManagement::ErrorType`, as far as `SendVariables` sets it.
pub data ErrorType : Type 0 where
  no_error : ErrorType
  failed : ErrorType
  completed : ErrorType

abbrev pub errors_cleared : ErrorType → Bool
errors_cleared no_error = true
errors_cleared failed = false
errors_cleared completed = false

-- `err = !(...)`.
abbrev pub err_of : Bool → ErrorType
err_of true = no_error
err_of false = failed

-- The write of a StreamString.
unfoldable pub write_buffer : List ℕ → List ℕ → Bool × List ℕ
write_buffer buffer bs = (true, buffer ++ bs)

module _ (http : HttpChunkedStream) where
  open http use {
    State, write, write_header, flush, final_chunk, peek, read_header, complete_read, keep_alive,
  }

  -- One turn of `while (keepReading)` with a reply there: the error, `packetsNotAck` of the thread,
  -- whether to go on, and the stream.
  pub read_reply : ErrorType → ℕ → State → ErrorType × ℕ × Bool × State
  read_reply no_error not_ack st =
      let (ok, st') = read_header st in
      let read = complete_read st' in
      let acked = sub32 not_ack 1 in
      if ok
      then if keep_alive read
        then (no_error, acked, true, read)
        else (completed, acked, false, read)
      else (failed, not_ack, true, st')
  read_reply failed not_ack st = (failed, not_ack, true, st)
  read_reply completed not_ack st = (completed, not_ack, true, st)

  -- `while (keepReading)`, on fuel.
  pub read_replies : ℕ → ErrorType → ℕ → State → Option (ErrorType × ℕ × State)
  read_replies zero err not_ack st = none
  read_replies (suc fuel) err not_ack st =
      let (there, st') = peek st in
      let (err', not_ack', more, st'') = read_reply err not_ack st' in
      let rest = read_replies fuel err' not_ack' st'' in
      if there then if more then rest else some (err', not_ack', st'') else some (err, not_ack, st')

  -- `if (err.ErrorsCleared())` before an operation of the stream.
  abbrev pub when_ok : Bool → (State → Bool × State) → State → Bool × State
  when_ok true op st = op st
  when_ok false op st = (false, st)

  -- What is left of `SendVariables` after a request.
  pub record Sent : Type 0 where
    pub err : ErrorType
    pub not_ack : ℕ
    pub sending : Sending State

  module _ (t : PrioritySender) (pvs : List PvDescriptor) (n : ℕ) where
    -- A request in chunks, up to the last one.
    pub send_chunked : Sending State → Option (Sending State)
    send_chunked g =
        let (ok, st) = write_header g.writer none in
        let opened = flush st in
        let body : Option (Sending State) =
          elim (send_share write t pvs n (n - g.cnt_variables)
            (record g { i = 0; condition = ltb 0 n; ok = true; writer = opened.1 })) [
              | none ↦ none
              | some g' ↦
                  let (flushed, st') = when_ok g'.ok flush g'.writer in
                  let (ended, st'') = when_ok flushed final_chunk st' in
                  some (record g' { ok = ended; writer = st'' })
            ] in
        if ok then body else some (record g { ok = false; writer = st })

    -- A request with its length.
    pub send_sized : Sending State → Option (Sending State)
    send_sized g =
        elim (send_share write_buffer t pvs n (n - g.cnt_variables) (record {
          i = 0;
          var_offset = g.var_offset;
          list_index = g.list_index;
          cnt_variables = g.cnt_variables;
          condition = ltb 0 n;
          ok = true;
          writer = [];
        })) [
          | none ↦ none
          | some g' ↦
              let (ok, st) = write_header g.writer (some (length g'.writer)) in
              let opened = (if ok then (flush st).1 else st) in
              let body = (write opened g'.writer).1 in
              let (flushed, st') = when_ok ok flush body in
              some (record {
                i = g'.i;
                var_offset = g'.var_offset;
                list_index = g'.list_index;
                cnt_variables = g'.cnt_variables;
                condition = g'.condition;
                ok = flushed;
                writer = st';
              })
        ]

    -- One turn of the outer loop. `replies` bounds the replies that are read.
    pub send_request : ℕ → ℕ → Sending State → Option Sent
    send_request replies not_ack g =
        elim (if ltb 0 t.chunk_size then send_chunked g else send_sized g) [
          | none ↦ none
          | some g' ↦
              let replied : Option Sent =
                elim (read_replies replies no_error (add32 not_ack 1) g'.writer) [
                  | none ↦ none
                  | some (err, acked, st) ↦
                      some
                        (record { err = err; not_ack = acked; sending = record g' { writer = st } })
                ] in
              if g'.ok
              then replied
              else some (record { err = failed; not_ack = not_ack; sending = g' })
        ]

    -- `while ((cntVariables < nVarsPerThread) && (err.ErrorsCleared()))`, on fuel. A connection that
    -- was closed gets the last message, `close`.
    pub send_requests : (State → State) → ℕ → ℕ → ErrorType → ℕ → Sending State → Option Sent
    send_requests close replies zero err not_ack g = none
    send_requests close replies (suc fuel) err not_ack g =
        let turn : Option Sent = elim (send_request replies not_ack g) [
          | none ↦ none
          | some sent ↦
              let again = send_requests close replies fuel sent.err sent.not_ack sent.sending in
              elim sent.err [
                | no_error ↦ again
                | failed ↦ some sent
                | completed ↦ some (record sent {
                  sending = record sent.sending { writer = close sent.sending.writer };
                })
              ]
        ] in
        if ltb g.cnt_variables n && errors_cleared err
        then turn
        else some (record { err = err; not_ack = not_ack; sending = g })

  -- `SendVariables`: the sender with the share taken, and what the thread leaves.
  pub send_variables :
      (State → State)
      → ℕ
      → ℕ
      → PrioritySender
      → List PvDescriptor
      → ℕ
      → ℕ
      → State
      → Option (PrioritySender × Sent)
  send_variables close replies fuel t pvs thread_id not_ack st =
      let n = vars_per_thread t thread_id in
      let (t', list_index) = take_share t thread_id in
      elim (send_requests t pvs n close replies fuel no_error not_ack (record {
        i = 0;
        var_offset = 0;
        list_index = list_index;
        cnt_variables = 0;
        condition = true;
        ok = true;
        writer = st;
      })) [ none ↦ none | some sent ↦ some (t', sent) ]
