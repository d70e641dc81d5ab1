-- ===== src/RoundTrip/Partial.antt =====
-- The receiver's loop on the part of a message that has come so far.
use marte2hieratika.Base.{
  take-append_short, ◌*◌, ℕ, zero, suc, ◌+◌, ◌-◌, ◌≤◌, ◌<◌, ◌≡◌, refl, sym, ap, ◌∙◌, ◌⊎◌, inl, inr,
  false, List, [], ◌∷◌, ◌++◌, length, length-take, take, drop, of_bytes, arith, append-nil, dec_lt,
  dec_le,
}
use marte2hieratika.Marte.{Text, Lacks, StringHelper}
use marte2hieratika.Receiver.{Receiver}
use marte2hieratika.Receiver.Message.{quote}
use marte2hieratika.Receiver.Message.Scan.{
  quoted, behind_name, header_of, read_quoted, length-quoted,
}
use marte2hieratika.Receiver.Store.{Converter, consume_step, find_index}
use marte2hieratika.Receiver.Store.Cached.{find_index_same}
use marte2hieratika.Receiver.Message.Partial.{
  read_nil, read_in_name, read_in_pattern, read_in_fields,
}
use marte2hieratika.Receiver.Store.Step.{step_waits, step_stops}
use marte2hieratika.Sender.Message.{Block, encode}
use marte2hieratika.RoundTrip.{IsSendable}
use marte2hieratika.RoundTrip.Parse.{
  size_read, length-fields_of, index_read, fields_of, block_header, encode-quoted, length-encode,
}

take-append_long {ℓ} :
    {A : Type ℓ} (xs ys : List A) (n : ℕ) → take (length xs + n) (xs ++ ys) ≡ xs ++ take n ys
take-append_long [] ys n = ap (λ k. take k ys) (omega arith)
take-append_long (x ∷ xs) ys n =
    let e : suc (length xs) + n ≡ suc (length xs + n) = omega arith in
    rw e (ap (◌∷◌ x) (take-append_long xs ys n))

take-nil {ℓ} : {A : Type ℓ} (n : ℕ) → take {A = A} n [] ≡ []
take-nil zero = refl
take-nil (suc n) = refl

drop-take {ℓ} : {A : Type ℓ} (m n : ℕ) (xs : List A) → drop m (take (m + n) xs) ≡ take n (drop m xs)
drop-take zero n xs = ap (λ k. take k xs) (omega arith)
drop-take (suc m) n [] = let e : suc m + n ≡ suc (m + n) = omega arith in rw e (sym (take-nil n))
drop-take (suc m) n (x ∷ xs) =
    let e : suc m + n ≡ suc (m + n) = omega arith in rw e (drop-take m n xs)

of_bytes-take : (k n : ℕ) (xs : List ℕ) → k ≤ n → of_bytes k (take n xs) ≡ of_bytes k xs
unfolding of_bytes
of_bytes-take zero n xs h = refl
of_bytes-take (suc k) zero xs h = absurd (omega arith)
of_bytes-take (suc k) (suc n) [] h = refl
of_bytes-take (suc k) (suc n) (x ∷ xs) h =
    ap (λ v. x + 256 * v) (of_bytes-take k n xs (omega arith))

Lacks-take : (c n : ℕ) (xs : Text) → Lacks c xs → Lacks c (take n xs)
Lacks-take c zero xs l = tt
Lacks-take c (suc n) [] l = tt
Lacks-take c (suc n) (x ∷ xs) l = (l.0, Lacks-take c n xs l.1)

module _ (s : StringHelper) (c : Converter) (r : Receiver) (b : Block) (w : IsSendable r b)
    (thread : ℕ) where
  fields : List ℕ
  fields = fields_of b []

  -- The fields are there, the message is not complete.
  step_in_value :
      (n : ℕ)
      → 12 ≤ n
      → n < length fields
      → consume_step s c r (quoted b.name (take n fields)) thread
        ≡ (false, (find_index s r (block_header s b)).0, quoted b.name (take n fields))
  unfolding fields
  step_in_value n h lt =
      let taken = length-take n fields in
      let split : n ≡ 5 + (n - 5) = omega arith in
      let index : of_bytes 4 (take n fields) ≡ b.index =
        of_bytes-take 4 n fields (omega arith) ∙ index_read r b [] w in
      let size : of_bytes 4 (drop 5 (take n fields)) ≡ b.size =
        ap (λ k. of_bytes 4 (drop 5 (take k fields))) split
        ∙ ap (of_bytes 4) (drop-take 5 (n - 5) fields)
        ∙ of_bytes-take 4 (n - 5) (drop 5 fields) (omega arith)
        ∙ size_read r b [] w in
      let sized = length-encode r b w in
      step_waits s c r (quoted b.name (take n fields)) thread (header_of s b.name (take n fields))
        (read_quoted s r b.name (take n fields) w.unterminated w.unquoted w.name_fits
          (omega (arith, taken)) (rw index w.index_known) (rw size w.size_small))
        (omega (
          arith,
          size,
          taken,
          length-quoted b.name (take n fields),
          length-fields_of b [],
          w.value_size,
          w.timestamp_size,
          w.name_fits,
          w.message_fits,
        ))
      ∙ ap (λ q. (false, q.0, quoted b.name (take n fields)))
          (find_index_same s r (header_of s b.name (take n fields)) (block_header s b) refl index)

  abbrev pub Stops : List ℕ → Type 0
  Stops p =
      (q : Receiver) × (consume_step s c r p thread ≡ (false, q, p))
      × ((q ≡ r) ⊎ (q ≡ (find_index s r (block_header s b)).0))

  encode_here : encode b ≡ quoted b.name fields
  unfolding fields
  encode_here = sym (append-nil (encode b)) ∙ encode-quoted b []

  -- The first bytes of a message, by where they end.
  take-encode_name : (n : ℕ) → n ≤ length b.name → take (suc n) (encode b) ≡ 34 ∷ take n b.name
  take-encode_name n h =
      rw encode_here (ap (◌∷◌ 34) (take-append_short b.name (behind_name fields) n h))

  take-encode_behind :
      (n : ℕ)
      → take (suc (length b.name + n)) (encode b) ≡ 34 ∷ (b.name ++ take n (behind_name fields))
  take-encode_behind n =
      rw encode_here (ap (◌∷◌ 34) (take-append_long b.name (behind_name fields) n))

  Stops-pattern :
      (n : ℕ) → n < length fields + 3 → Stops (34 ∷ (b.name ++ take n (behind_name fields)))
  Stops-pattern zero lt =
      rw (append-nil b.name)
        (r, step_stops s c r _ _ thread (read_in_name s r b.name w.unquoted), inl refl)
  Stops-pattern (suc zero) lt = (
    r,
    step_stops s c r _ _ thread (read_in_pattern s r b.name [] w.unquoted (omega arith)),
    inl refl,
  )
  Stops-pattern (suc (suc zero)) lt = (
    r,
    step_stops s c r _ _ thread (read_in_pattern s r b.name (58 ∷ []) w.unquoted (omega arith)),
    inl refl,
  )
  Stops-pattern (suc (suc (suc n))) lt = elim (dec_lt n 12) [
    | yes in_header ↦ (
      r,
      step_stops s c r _ _ thread (
          read_in_fields s r b.name (take n fields) w.unquoted w.name_fits
            (omega (arith, length-take n fields))),
      inl refl,
    )
    | no in_value ↦ (_, step_in_value n (omega arith) (omega arith), inr refl)
  ]

  -- On a proper part, from its start, of the message of a block that is within the limits of the
  -- receiver, a round of the loop of `ClientService` stops, keeps the payload, and changes nothing
  -- but, at most, the cache of indices.
  pub step_partial : (n : ℕ) → n < length (encode b) → Stops (take n (encode b))
  unfolding fields
  step_partial zero lt = (r, step_stops s c r [] [] thread (read_nil s r), inl refl)
  step_partial (suc n) lt = elim (dec_le n (length b.name)) [
    | yes in_name ↦ rw (take-encode_name n in_name) (
      r,
      step_stops s c r _ _ thread
          (read_in_name s r (take n b.name) (Lacks-take quote n b.name w.unquoted)),
      inl refl,
    )
    | no behind ↦
        let more = n - length b.name in
        let e : length b.name + more ≡ n = omega arith in
        rw (← e, take-encode_behind more)
          (Stops-pattern more (
            omega
              (arith, length-encode r b w, length-fields_of b [], w.value_size, w.timestamp_size)))
  ]
