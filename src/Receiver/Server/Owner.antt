-- ===== src/Receiver/Server/Owner.antt =====
-- The socket of a thread through the stages of `ServerCycle`.
use marte2hieratika.Base.{
  ℕ, ◌≡◌, refl, sym, ap, ◌∙◌, false, List, [], ◌∷◌, Option, none, some, ◌==◌, if◌then◌else◌,
  Bool-cases, inl, inr, ==_iff,
}
use marte2hieratika.Receiver.Server.{
  ErrorType, no_error, failed, timeout, completed, errors_cleared, Stage, startup, wait_request,
  service_request, other_request, termination, Thread, Call, delete, send_ok_reply_message, reply,
  close_connection, wait_connection, serve, number_thread, server_cycle,
}

-- The sockets of a context.
abbrev pub held : Option ℕ → List ℕ
held none = []
held (some k) = k ∷ []

-- A thread has the socket of its context and no other.
abbrev pub IsOwner : Thread → Type 0
IsOwner t = t.sockets ≡ held t.context

-- MultiClientService asks a thread to wait where it has no connection, and to serve where it has one.
abbrev pub Admits : Stage → Option ℕ → Type 0
Admits wait_request none = Unit {0}
Admits wait_request (some k) = ⊥
Admits service_request none = ⊥
Admits service_request (some k) = Unit {0}
Admits startup c = Unit {0}
Admits other_request c = Unit {0}
Admits termination c = Unit {0}

-- What a call leaves: still the owner, and no connection where it reports an error.
abbrev Leaves : ErrorType × Thread → Type 0
Leaves (err, t) = IsOwner t × (errors_cleared err ≡ false → t.context ≡ none)

delete_only : (k : ℕ) → delete k (k ∷ []) ≡ []
unfolding delete
delete_only k = rw ((==_iff k k).1 refl) refl

-- Any number of calls, each in a stage that the thread admits.
pub data Run : Thread → Thread → Type 0 where
  idle : {t : Thread} → Run t t
  call :
      {t t' : Thread} (stage : Stage) (x : Call)
      → Run t t'
      → Admits stage t'.context
      → Run t (server_cycle stage x t').1

abbrev thread_of : ℕ → Option ℕ → List ℕ → ℕ → Thread
thread_of number c sockets next = record {
  thread_number = number;
  context = c;
  sockets = sockets;
  next_socket = next;
}

module _ (x : Call) where
  deleted : (k : ℕ) (sockets : List ℕ) → sockets ≡ k ∷ [] → delete k sockets ≡ []
  deleted k sockets e = ap (delete k) e ∙ delete_only k

  ok_closed :
      (k : ℕ) (sockets : List ℕ)
      → sockets ≡ k ∷ []
      → (send_ok_reply_message false x.closes k sockets).1 ≡ []
  unfolding send_ok_reply_message
  ok_closed k sockets e = elim (Bool-cases x.closes) [
    | inl b ↦ rw b (deleted k sockets e)
    | inr b ↦ rw b (deleted k sockets e)
  ]

  closed :
      (number next : ℕ) (c : Option ℕ) (sockets : List ℕ)
      → sockets ≡ held c
      → let t = close_connection x (thread_of number c sockets next) in
        (t.sockets ≡ []) × (t.context ≡ none)
  unfolding close_connection
  closed number next none sockets e = (e, refl)
  closed number next (some k) sockets e = (ok_closed k sockets e, refl)

  close-Leaves : (t : Thread) → IsOwner t → Leaves (completed, close_connection x t)
  close-Leaves t v =
      let (sockets, context) = closed t.thread_number t.next_socket t.context t.sockets v in
      (sockets ∙ sym (ap held context), λ e. context)

  -- The reply keeps the socket or reports an error.
  replied :
      (k : ℕ) (sockets : List ℕ)
      → sockets ≡ k ∷ []
      → let (err, left) = reply x k sockets in left ≡ (if errors_cleared err then k ∷ [] else [])
  unfolding reply send_ok_reply_message
  replied k sockets e = elim (Bool-cases x.started) [
    | inr b ↦ rw b e
    | inl b ↦ elim (Bool-cases x.served) [
      | inr d ↦ rw (b, d) (deleted k sockets e)
      | inl d ↦ elim (Bool-cases x.keep_alive) [
        | inl f ↦ rw (b, d, f) e
        | inr f ↦ elim (Bool-cases x.closes) [
          | inl g ↦ rw (b, d, f, g) (deleted k sockets e)
          | inr g ↦ rw (b, d, f, g) (deleted k sockets e)
        ]
      ]
    ]
  ]

  kept_or_none :
      (k : ℕ) (err : ErrorType) (left : List ℕ)
      → left ≡ (if errors_cleared err then k ∷ [] else [])
      → (left ≡ held (if errors_cleared err then some k else none))
        × (errors_cleared err ≡ false → (if errors_cleared err then some k else none) ≡ none)
  kept_or_none k no_error left e = (e, λ b. cc)
  kept_or_none k failed left e = (e, λ b. refl)
  kept_or_none k timeout left e = (e, λ b. refl)
  kept_or_none k completed left e = (e, λ b. refl)

  served :
      (number next : ℕ) (c : Option ℕ) (sockets : List ℕ)
      → sockets ≡ held c
      → Admits service_request c
      → Leaves (serve x (thread_of number c sockets next))
  unfolding serve
  served number next none sockets e a = absurd a
  served number next (some k) sockets e a =
      kept_or_none k (reply x k sockets).0 (reply x k sockets).1 (replied k sockets e)

  waited :
      (number next : ℕ) (c : Option ℕ) (sockets : List ℕ)
      → sockets ≡ held c
      → Admits wait_request c
      → Leaves (wait_connection x (thread_of number c sockets next))
  unfolding wait_connection
  waited number next (some k) sockets e a = absurd a
  waited number next none sockets e a = elim (Bool-cases x.connected) [
    | inl b ↦ rw b (ap (◌∷◌ next) e, λ d. cc)
    | inr b ↦ rw b (e, λ d. refl)
  ]

  number_thread-Leaves : (t : Thread) → IsOwner t → Leaves (no_error, number_thread x t)
  unfolding number_thread
  number_thread-Leaves t v = elim (Bool-cases (t.thread_number == x.id)) [
    | inl b ↦ rw b (v, λ d. cc)
    | inr b ↦ rw b (v, λ d. cc)
  ]

  -- In each stage that the context of the thread admits, and whatever the connection and the
  -- request give, a call of `ServerCycle` on a thread that holds the socket of its context and no
  -- other leaves such a thread; and where it reports an error the context is null.
  pub server_cycle-IsOwner :
      (stage : Stage) (t : Thread)
      → IsOwner t
      → Admits stage t.context
      → let (err, t') = server_cycle stage x t in
        IsOwner t' × (errors_cleared err ≡ false → t'.context ≡ none)
  unfolding server_cycle
  server_cycle-IsOwner startup t v a = number_thread-Leaves t v
  server_cycle-IsOwner termination t v a = close-Leaves t v
  server_cycle-IsOwner wait_request t v a = elim (Bool-cases (x.quit == 0)) [
    | inl b ↦ rw b (waited t.thread_number t.next_socket t.context t.sockets v a)
    | inr b ↦ rw b (close-Leaves t v)
  ]
  server_cycle-IsOwner service_request t v a = elim (Bool-cases (x.quit == 0)) [
    | inl b ↦ rw b (served t.thread_number t.next_socket t.context t.sockets v a)
    | inr b ↦ rw b (close-Leaves t v)
  ]
  server_cycle-IsOwner other_request t v a = elim (Bool-cases (x.quit == 0)) [
    | inl b ↦ rw b (v, λ d. cc)
    | inr b ↦ rw b (close-Leaves t v)
  ]

Run-IsOwner : {t t' : Thread} → Run t t' → IsOwner t → IsOwner t'
Run-IsOwner idle v = v
Run-IsOwner (call stage x run a) v = (server_cycle-IsOwner x stage _ (Run-IsOwner run v) a).0

-- After any run of calls of `ServerCycle`, each in a stage that the context of the thread admits (a
-- wait without a connection, a service with one), a thread that held the socket of its context and
-- no other at first still does, and the call of the last stage then leaves it without a socket.
pub server_cycle-Run :
    (t t' : Thread) (x : Call)
    → IsOwner t
    → Run t t'
    → IsOwner t' × ((server_cycle termination x t').1.sockets ≡ [])
unfolding server_cycle
server_cycle-Run t t' x v run =
    let owner = Run-IsOwner run v in
    (owner, (closed x t'.thread_number t'.next_socket t'.context t'.sockets owner).0)
