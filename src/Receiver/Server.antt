-- ===== src/Receiver/Server.antt =====
-- `ServerCycle` in DiodeReceiver.cpp: what a thread of the server does in the stages in which
-- MultiClientService calls it, and the sockets that it makes and deletes. The outcomes of the socket
-- and of the requests are inputs.
pub mod Owner
use marte2hieratika.Base.{
  ℕ, ◌+◌, Bool, true, false, not, List, [], ◌∷◌, Option, none, some, add32, ◌==◌, if◌then◌else◌,
}

-- `ErrorManagement::ErrorType`, as far as `ServerCycle` sets it.
pub data ErrorType : Type 0 where
  no_error : ErrorType
  failed : ErrorType
  timeout : ErrorType
  completed : ErrorType

abbrev pub errors_cleared : ErrorType → Bool
errors_cleared no_error = true
errors_cleared failed = false
errors_cleared timeout = false
errors_cleared completed = false

-- `GetStage` of the execution and, in the main stage, `GetStageSpecific`.
pub data Stage : Type 0 where
  startup : Stage
  wait_request : Stage
  service_request : Stage
  other_request : Stage
  termination : Stage

-- A thread: its number, the socket in its context, the sockets that it has made and not deleted, and
-- the name of the next one.
pub record Thread : Type 0 where
  pub thread_number : ℕ
  pub context : Option ℕ
  pub sockets : List ℕ
  pub next_socket : ℕ

-- What a call finds: `quit`, `Threads::Id`, `threadIndex`, whether a connection came, whether the
-- request was served (`quit` may rise before it is), whether the connection is to stay, and whether
-- it could be closed.
pub record Call : Type 0 where
  pub quit : ℕ
  pub id : ℕ
  pub thread_index : ℕ
  pub connected : Bool
  pub started : Bool
  pub served : Bool
  pub keep_alive : Bool
  pub closes : Bool

pub delete : ℕ → List ℕ → List ℕ
delete k [] = []
delete k (x ∷ xs) = let rest = delete k xs in if x == k then rest else x ∷ rest

-- `SendOkReplyMessage`: the error, and the sockets; a connection that is not to stay is closed and
-- its socket deleted.
pub send_ok_reply_message : Bool → Bool → ℕ → List ℕ → ErrorType × List ℕ
send_ok_reply_message true closes k sockets = (no_error, sockets)
send_ok_reply_message false true k sockets = (completed, delete k sockets)
send_ok_reply_message false false k sockets = (failed, delete k sockets)

-- The reply of `ClientService`; `SendErrorReplyMessage` deletes the socket.
pub reply : Call → ℕ → List ℕ → ErrorType × List ℕ
reply x k sockets =
    let ok = send_ok_reply_message x.keep_alive x.closes k sockets in
    if x.started then (if x.served then ok else (failed, delete k sockets)) else (no_error, sockets)

-- The end of a connection, where there is one.
pub close_connection : Call → Thread → Thread
close_connection x t = elim (t.context) [
  | none ↦ t
  | some k ↦ record t {
    context = none;
    sockets = (send_ok_reply_message false x.closes k t.sockets).1;
  }
]

pub wait_connection : Call → Thread → ErrorType × Thread
wait_connection x t =
    let client = t.next_socket in
    if x.connected
    then (
      no_error,
      record t { context = some client; sockets = client ∷ t.sockets; next_socket = client + 1 },
    )
    else (timeout, record t { next_socket = client + 1 })

-- `none` in the context is a null pointer, which `ClientService` would use.
pub serve : Call → Thread → ErrorType × Thread
serve x t = elim (t.context) [
  | none ↦ (failed, t)
  | some k ↦
      let (err, sockets) = reply x k t.sockets in
      (err, record t { context = if errors_cleared err then some k else none; sockets = sockets })
]

-- The number of a thread is set once, from `threadIndex`.
pub number_thread : Call → Thread → Thread
number_thread x t =
    if t.thread_number == x.id then record t { thread_number = x.thread_index } else t

pub server_cycle : Stage → Call → Thread → ErrorType × Thread
server_cycle startup x t = (no_error, number_thread x t)
server_cycle wait_request x t =
    if x.quit == 0 then wait_connection x t else (completed, close_connection x t)
server_cycle service_request x t =
    if x.quit == 0 then serve x t else (completed, close_connection x t)
server_cycle other_request x t =
    if x.quit == 0 then (no_error, t) else (completed, close_connection x t)
server_cycle termination x t = (completed, close_connection x t)
