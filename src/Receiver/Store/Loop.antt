-- ===== src/Receiver/Store/Loop.antt =====
-- The loop of `ClientService` over the messages of a payload: its end.
use marte2hieratika.Receiver.Store.Step.{after_message}
use marte2hieratika.Receiver.Store.{
  control_ok, Converter, message_size, find_index, resolve_index, store_value, mark_changed,
  get_local_index, read_var_value_and_skip, take_message, consume_step, consume,
}
use marte2hieratika.Base.{
  ◌∙◌, ℕ, zero, suc, ◌+◌, ◌≤◌, ◌<◌, ◌≡◌, refl, true, false, Bool, List, Option, some, none, length,
  length-drop, drop, arith, mul32, u32_mod, if◌then◌else◌, Bool-cases, inl, inr, ltb, leb,
}
use marte2hieratika.Marte.{StringHelper}
use marte2hieratika.Receiver.{Receiver}
use marte2hieratika.Receiver.Message.{Header, read_var_name_and_index}
use marte2hieratika.Receiver.Message.Size.{Sized, read-Sized}

-- The limits of a receiver that a message does not change.
abbrev pub SameLimits : Receiver → Receiver → Type 0
SameLimits r r' =
    (r'.number_of_variables ≡ r.number_of_variables) × (r'.max_array_size ≡ r.max_array_size)

module _ (s : StringHelper) (c : Converter) where
  find_index_limits : (r : Receiver) (h : Header) → SameLimits r (find_index s r h).0
  unfolding find_index resolve_index
  find_index_limits r h = ground arith

  store_value_limits :
      (r : Receiver) (i : ℕ) (h : Header) (control : Bool) (bytes : List ℕ) (thread : ℕ)
      → SameLimits r (store_value c r i h control bytes thread)
  unfolding store_value mark_changed
  store_value_limits r i h control bytes thread = ground arith

  -- A round that goes on has made the payload shorter and kept the limits.
  abbrev Progress : Receiver → List ℕ → Bool × Receiver × List ℕ → Type 0
  Progress r payload (true, r', left) = (length left < length payload) × SameLimits r r'
  Progress r payload (false, r', left) = Unit {0}

  taken-Progress :
      (r : Receiver) (payload left : List ℕ) (header : Option Header) (thread : ℕ)
      → mul32 8 r.max_array_size + 91 ≤ u32_mod
      → Sized s r (length payload) (left, header)
      → Progress r payload (take_message s c r left header thread)
  unfolding take_message get_local_index read_var_value_and_skip
  taken-Progress r payload left none thread small z = tt
  taken-Progress r payload left (some h) thread small z =
      let q = find_index s r h in
      elim (Bool-cases (leb (message_size h) (length left))) [
        | inr e ↦ rw e tt
        | inl e ↦ elim (Bool-cases (ltb q.1 q.0.number_of_variables)) [
          | inl k ↦ rw (e, k) (smaller (ground arith), stored_limits)
          | inr k ↦ rw (e, k) (smaller (ground arith), find_index_limits r h)
        ]
      ]
    where
      stored_limits :
          let q = find_index s r h in
          SameLimits r
            (store_value c q.0 q.1 h (control_ok r h q.1) (drop (h.data_pos + 4) left) thread)
      stored_limits =
          let (q, i) = find_index s r h in
          let kept =
            store_value_limits q i h (control_ok r h i) (drop (h.data_pos + 4) left) thread in
          (kept.0 ∙ (find_index_limits r h).0, kept.1 ∙ (find_index_limits r h).1)

      smaller :
          message_size h ≤ length left
          → length (
              drop
                (if ltb (length left) (message_size h) then length left else message_size h)
                left)
            < length payload
      smaller e = ground (arith, length-drop (message_size h) left, length-drop (length left) left)

  step-Progress :
      (r : Receiver) (payload : List ℕ) (thread : ℕ)
      → mul32 8 r.max_array_size + 91 ≤ u32_mod
      → Progress r payload (consume_step s c r payload thread)
  unfolding consume_step
  step-Progress r payload thread small =
      let (left, header) = read_var_name_and_index s r payload in
      taken-Progress r payload left header thread small (read-Sized s r payload)

  -- The limits survive a whole message.
  pub after_message_limits :
      (r : Receiver) (h : Header) (bytes : List ℕ) (thread : ℕ)
      → SameLimits r (after_message s c r h bytes thread)
  unfolding after_message
  after_message_limits r h bytes thread =
      let (q, i) = find_index s r h in
      let kept = store_value_limits q i h (control_ok r h i) bytes thread in
      elim (Bool-cases (ltb i q.number_of_variables)) [
        | inl k ↦ rw k (kept.0 ∙ (find_index_limits r h).0, kept.1 ∙ (find_index_limits r h).1)
        | inr k ↦ rw k (find_index_limits r h)
      ]

  -- A round that goes on is followed by the rest of the loop.
  pub consume-suc :
      (fuel : ℕ) (r q : Receiver) (payload rest : List ℕ) (thread : ℕ)
      → consume_step s c r payload thread ≡ (true, q, rest)
      → consume s c (suc fuel) r payload thread ≡ consume s c fuel q rest thread
  unfolding consume
  consume-suc fuel r q payload rest thread e = rw (e, consume)

  pub consume_stop :
      (fuel : ℕ) (r q : Receiver) (payload rest : List ℕ) (thread : ℕ)
      → consume_step s c r payload thread ≡ (false, q, rest)
      → consume s c (suc fuel) r payload thread ≡ some (q, rest)
  unfolding consume
  consume_stop fuel r q payload rest thread e = rw (e, consume)

  -- The loop of `ClientService` ends on any payload within as many rounds as the payload has bytes,
  -- and one more, when 8 * `maxArraySize` and the 91 bytes around the largest value stay within a
  -- `uint32`.
  pub consume_total :
      (fuel : ℕ) (r : Receiver) (payload : List ℕ) (thread : ℕ)
      → length payload < fuel
      → mul32 8 r.max_array_size + 91 ≤ u32_mod
      → (r' : Receiver) × (left : List ℕ) × (consume s c fuel r payload thread ≡ some (r', left))
  unfolding consume
  consume_total zero r payload thread h small = elim h [ ]
  consume_total (suc fuel) r payload thread h small =
      consume_next (consume_step s c r payload thread) (step-Progress r payload thread small)
        (consume_total fuel)
    where
      consume_next :
          (out : Bool × Receiver × List ℕ)
          → Progress r payload out
          → ((q : Receiver) (rest : List ℕ) (t : ℕ)
              → length rest < fuel
              → mul32 8 q.max_array_size + 91 ≤ u32_mod
              → (r' : Receiver) × (left : List ℕ) × (consume s c fuel q rest t ≡ some (r', left)))
          → (r' : Receiver) × (left : List ℕ) × ((if out.0
                then consume s c fuel out.1 out.2 thread
                else some (out.1, out.2))
              ≡ some (r', left))
      consume_next (true, q, rest) (shorter, limits) ih =
          ih q rest thread (omega arith) (rw (limits.1) small)
      consume_next (false, q, rest) p ih = (q, rest, refl)
