-- ===== src/Marte/Stream.antt =====
-- The HttpChunkedStream and HttpProtocol of the framework, as far as the sender uses them.
use marte2hieratika.Base.{ℕ, Bool, true, ◌≡◌, List, ◌++◌, Option}

pub record HttpChunkedStream : Type 1 where
  pub State : Type 0
  -- `Write` of some bytes, and whether it succeeded.
  pub write : State → List ℕ → Bool × State
  -- `WriteHeader` of a PUT request, with its `Content-Length` if it has one.
  pub write_header : State → Option ℕ → Bool × State
  pub flush : State → Bool × State
  pub final_chunk : State → Bool × State
  -- `Peek`, not blocking: whether a reply is there.
  pub peek : State → Bool × State
  pub read_header : State → Bool × State
  pub complete_read : State → State
  pub keep_alive : State → Bool
  -- The bytes that were written and accepted, in order.
  pub written : State → List ℕ
  pub write_appends :
      (t : State) (bs : List ℕ) → (write t bs).0 ≡ true → written (write t bs).1 ≡ written t ++ bs
