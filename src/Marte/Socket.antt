-- ===== src/Marte/Socket.antt =====
-- The TCPSocket of the framework, as far as the receiver reads from it.
use marte2hieratika.Base.{ℕ, ◌≤◌, ◌<◌, ◌≡◌, List, ◌++◌, Option, some, length}
use marte2hieratika.Marte.{Text}

pub record TcpSocket : Type 1 where
  pub State : Type 0
  -- `Read(buffer, size)`: the bytes that were read, whose number `size` becomes, and the socket; or
  -- a failure.
  pub read : State → ℕ → Option (List ℕ) × State
  -- `GetLine(line, false)`.
  pub get_line : State → Option Text × State
  -- The bytes that come before the connection fails or a timeout passes.
  pub pending : State → List ℕ
  -- A read of some bytes gives the next ones, at least one and at most as many as asked for.
  pub read_next :
      (t : State) (n : ℕ) (bs : List ℕ)
      → 0 < n
      → (read t n).0 ≡ some bs
      → (0 < length bs) × (length bs ≤ n) × (pending t ≡ bs ++ pending (read t n).1)
  -- It succeeds if there are any.
  pub read_succeeds :
      (t : State) (n : ℕ)
      → 0 < n
      → 0 < length (pending t)
      → (bs : List ℕ) × ((read t n).0 ≡ some bs)
