-- ===== src/Receiver/Message/Size.antt =====
-- `ReadVarNameAndIndex` on any payload: the sizes of what it leaves and returns.
use marte2hieratika.Base.{
  ℕ, ◌+◌, ◌-◌, ◌≤◌, ◌<◌, ◌≡◌, ap, sym, slice, length-take, true, false, Bool, List, [], ◌∷◌, Option,
  some, none, length, length-drop, drop, arith, mul32, leb, ltb, if◌then◌else◌, Bool-cases, inl,
  inr, ◌&&◌,
}
use marte2hieratika.Marte.{Text, StringHelper}
use marte2hieratika.Receiver.{Receiver, pv_name_max_size_rec}
use marte2hieratika.Receiver.Message.{
  Header, base_name, c_string, pattern_size, resync_loop, resync, locate_loop, read_fields,
  read_name, read_var_name_and_index,
}

-- What a result says about sizes: of the payload, and of the header if there is one. Its name is
-- what stands in the payload between the opening quote and the pattern, up to a terminator and a
-- dot.
abbrev pub Sized : StringHelper → Receiver → ℕ → List ℕ × Option Header → Type 0
Sized s r n (left, none) = length left ≤ n
Sized s r n (left, some h) =
    (length left ≤ n)
    × (3 ≤ h.processed_size)
    × (h.processed_size ≤ 67)
    × (h.received_index < r.number_of_variables)
    × (h.received_size < mul32 8 r.max_array_size)
    × (h.var_name ≡ base_name s (c_string (slice left 1 (h.processed_size - pattern_size))))
    × (length h.var_name ≤ pv_name_max_size_rec)

length-c_string : (bytes : List ℕ) → length (c_string bytes) ≤ length bytes
length-c_string [] = omega arith
length-c_string (b ∷ bs) = ground (arith, length-c_string bs)

module _ (s : StringHelper) where
  Sized-mono :
      (r : Receiver) (m n : ℕ) (res : List ℕ × Option Header)
      → m ≤ n
      → Sized s r m res
      → Sized s r n res
  Sized-mono r m n (left, none) h v = omega arith
  Sized-mono r m n (left, some x) h v = (omega arith, v.1, v.2, v.3, v.4, v.5, v.6)

  length-base_name : (name : Text) → length (base_name s name) ≤ length name
  unfolding base_name
  length-base_name name = ground (arith, s.length-get_token name b'.')

  -- The name is no longer than what it is cut from.
  name_short : (payload : List ℕ) (n : ℕ) → length (base_name s (c_string (slice payload 1 n))) ≤ n
  name_short payload n = omega (
    arith,
    length-base_name (c_string (slice payload 1 n)),
    length-c_string (slice payload 1 n),
    length-take n (drop 1 payload),
  )

  length-resync_loop :
      (payload rest : List ℕ)
      → length rest ≤ length payload
      → length (resync_loop s payload rest).payload ≤ length payload
  unfolding resync_loop
  length-resync_loop payload [] h = omega arith
  length-resync_loop payload (c ∷ rest) h = ground (
    arith,
    length-resync_loop payload rest (omega arith),
    length-resync_loop (c ∷ rest) rest (omega arith),
  )

  length-resync : (payload : List ℕ) → length (resync s payload).0 ≤ length payload
  unfolding resync
  length-resync [] = omega arith
  length-resync (c ∷ cs) = ground (arith, length-resync_loop (c ∷ cs) (c ∷ cs) (omega arith))

  length-locate_loop :
      (payload : List ℕ) (i : ℕ) (rest : List ℕ)
      → length rest ≤ length payload
      → length (locate_loop s payload i rest).payload ≤ length payload
  unfolding locate_loop
  length-locate_loop payload i [] h = omega arith
  length-locate_loop payload i (c ∷ rest) h = ground (
    arith,
    length-locate_loop payload (i + 1) rest (omega arith),
    length-locate_loop (c ∷ rest) 1 rest (omega arith),
  )

  read_fields-Sized :
      (r : Receiver) (payload : List ℕ) (at : ℕ)
      → at - 1 ≤ 64
      → Sized s r (length payload) (read_fields s r payload at)
  unfolding read_fields
  read_fields-Sized r payload at h =
      let cut : at - 1 + pattern_size - pattern_size ≡ at - 1 = omega arith in
      let same : base_name s (c_string (slice payload 1 (at - 1)))
          ≡ base_name s (c_string (slice payload 1 (at - 1 + pattern_size - pattern_size))) =
        ap (λ n. base_name s (c_string (slice payload 1 n))) (sym cut) in
      ground (arith, same, name_short payload (at - 1))

  read_name-Sized :
      (r : Receiver) (payload : List ℕ) (at n : ℕ)
      → length payload ≤ n
      → Sized s r n (read_name s r payload at)
  unfolding read_name
  read_name-Sized r payload at n h = elim (Bool-cases (leb (at - 1) pv_name_max_size_rec)) [
    | inl e ↦ rw e (
        Sized-mono r (length payload) n (read_fields s r payload at) h
          (read_fields-Sized r payload at (ground arith)))
    | inr e ↦ rw e (
        omega (
          arith,
          length-drop (if ltb (length payload) (at - 1) then length payload else at - 1) payload,
        ))
  ]

  located_size :
      (synced : List ℕ) → length (locate_loop s synced 1 (drop 1 synced)).payload ≤ length synced
  located_size synced =
      length-locate_loop synced 1 (drop 1 synced) (omega (arith, length-drop 1 synced))

  read_synced :
      (r : Receiver) (synced : List ℕ) (ok : Bool) (n : ℕ)
      → length synced ≤ n
      → Sized s r n (
          let located = locate_loop s synced 1 (drop 1 synced) in
          if ok
          then if located.found && located.ok
            then read_name s r located.payload located.at
            else (located.payload, none)
          else (synced, none))
  read_synced r synced false n h = h
  read_synced r synced true n h =
      let located = locate_loop s synced 1 (drop 1 synced) in
      elim (Bool-cases (located.found && located.ok)) [
        | inl e ↦
            rw e
              (read_name-Sized r located.payload located.at n (omega (arith, located_size synced)))
        | inr e ↦ rw e (omega (arith, located_size synced))
      ]

  -- `ReadVarNameAndIndex` never makes a payload longer, whatever its bytes are. A header that it
  -- returns has a known index, a size below the limit and a processed size of 3 to 67, which counts
  -- the pattern; and its name has at most 64 characters and is what stands in the payload that is
  -- left from the second byte on, as many bytes as the processed size has without the pattern, up
  -- to a terminator and, by `GetToken`, a dot.
  pub read-Sized :
      (r : Receiver) (payload : List ℕ)
      → Sized s r (length payload) (read_var_name_and_index s r payload)
  unfolding read_var_name_and_index
  read-Sized r payload =
      let (synced, ok) = resync s payload in
      read_synced r synced ok (length payload) (length-resync payload)
