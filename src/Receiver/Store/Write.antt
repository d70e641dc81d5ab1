-- ===== src/Receiver/Store/Write.antt =====
-- What `ReadVarValueAndSkip` writes in the buffer of values.
use marte2hieratika.Base.{
  ℕ, ◌+◌, ◌≤◌, ◌<◌, ◌≡◌, refl, ◌≢◌, ◌⊎◌, inl, inr, true, false, List, length, take, drop, slice,
  copy_into, length-copy_into, slice-copy_into_self, slice-copy_into_apart, length-take,
  length-drop, arith, ltb, ◌==◌, ◌&&◌, dec_lt, Bool, Bool-cases, ◌∙◌,
}
use marte2hieratika.Receiver.{Receiver, number_of_types}
use marte2hieratika.Receiver.Message.{Header}
use marte2hieratika.Receiver.Store.{Converter, write_value}
use marte2hieratika.Receiver.Store.Layout.{IsLaid, pv_at, region_end}

-- Two regions of a laid receiver do not meet.
pub regions_apart :
    {r : Receiver} (i j : ℕ)
    → IsLaid r
    → i ≢ j
    → i < r.number_of_variables
    → j < r.number_of_variables
    → (region_end (pv_at r j) ≤ (pv_at r i).offset) ⊎ (region_end (pv_at r i) ≤ (pv_at r j).offset)
regions_apart i j v ne a b = elim (dec_lt i j) [
  | yes p ↦ inr (v.apart i j p b)
  | no p ↦ inl (v.apart j i (omega arith) a)
]

module _ {ℓ} {A : Type ℓ} where
  pub length-slice : (xs : List A) (p n : ℕ) → p + n ≤ length xs → length (slice xs p n) ≡ n
  length-slice xs p n h = omega (arith, length-take n (drop p xs), length-drop p xs)

  length-slice-le : (xs : List A) (p n : ℕ) → length (slice xs p n) ≤ n
  length-slice-le xs p n = omega (arith, length-take n (drop p xs))

  -- A copy seen through the size that is meant rather than the list's own.
  copied_at :
      (xs bs : List A) (o n : ℕ)
      → length bs ≡ n
      → o + n ≤ length xs
      → slice (copy_into xs o bs) o n ≡ bs
  copied_at xs bs o n e h = rw (← e) (slice-copy_into_self xs o bs (omega arith))

module _ (c : Converter) where
  open c use {convert, length-convert}

  pub length-write_value :
      (r : Receiver) (i : ℕ) (h : Header) (control : Bool) (bytes : List ℕ)
      → length (write_value c r i h control bytes) ≡ length r.memory
  unfolding write_value
  length-write_value r i h true bytes =
      length-copy_into
        (copy_into r.memory ((pv_at r i).offset + h.received_offset) (take h.received_size bytes)) _
        _
      ∙ length-copy_into r.memory _ _
  length-write_value r i h false bytes =
      elim (Bool-cases (h.received_offset == 0 && ltb h.received_type_id number_of_types)) [
        | inl e ↦ rw e (length-copy_into r.memory _ _)
        | inr e ↦ rw e refl
      ]

  module _ (r : Receiver) (i : ℕ) (h : Header) (bytes : List ℕ) (v : IsLaid r)
      (known : i < r.number_of_variables)
      (fits : h.received_size + h.received_offset ≤ (pv_at r i).total_size)
      (there : h.received_size + 8 ≤ length bytes) where
    pv_end : region_end (pv_at r i) ≤ length r.memory
    pv_end = v.inside i known

    block_size : length (take h.received_size bytes) ≡ h.received_size
    block_size = omega (arith, length-take h.received_size bytes)

    stamp_size : length (slice bytes h.received_size 8) ≡ 8
    stamp_size = length-slice bytes h.received_size 8 there

    -- The block of the message is in its place in the variable.
    pub block_written :
        slice
          (write_value c r i h true bytes)
          ((pv_at r i).offset + h.received_offset)
          h.received_size
        ≡ take h.received_size bytes
    unfolding write_value
    block_written =
        slice-copy_into_apart _ ((pv_at r i).offset + (pv_at r i).total_size)
          (slice bytes h.received_size 8) _ _ (inl (omega arith))
        ∙ copied_at r.memory (take h.received_size bytes) _ _ block_size (omega (arith, pv_end))

    -- Its timestamp stands behind the variable's value.
    pub stamp_written :
        slice (write_value c r i h true bytes) ((pv_at r i).offset + (pv_at r i).total_size) 8
        ≡ slice bytes h.received_size 8
    unfolding write_value
    stamp_written = copied_at _ (slice bytes h.received_size 8) _ _ stamp_size (
        omega (
          arith,
          pv_end,
          length-copy_into r.memory ((pv_at r i).offset + h.received_offset)
              (take h.received_size bytes),
        ))

    -- Every other byte of the buffer stays.
    pub others_kept :
        (p n : ℕ)
        → (p + n ≤ (pv_at r i).offset + h.received_offset)
          ⊎ ((pv_at r i).offset + h.received_offset + h.received_size ≤ p)
        → (p + n ≤ (pv_at r i).offset + (pv_at r i).total_size) ⊎ (region_end (pv_at r i) ≤ p)
        → slice (write_value c r i h true bytes) p n ≡ slice r.memory p n
    unfolding write_value
    others_kept p n first second =
        slice-copy_into_apart _ ((pv_at r i).offset + (pv_at r i).total_size)
          (slice bytes h.received_size 8) p n (rw stamp_size second)
        ∙ slice-copy_into_apart r.memory ((pv_at r i).offset + h.received_offset)
            (take h.received_size bytes) p n (rw block_size first)

  -- A converted value is written over the variable's value only.
  pub conversion_kept :
      (r : Receiver) (i : ℕ) (h : Header) (bytes : List ℕ) (p n : ℕ)
      → (p + n ≤ (pv_at r i).offset) ⊎ ((pv_at r i).offset + (pv_at r i).total_size ≤ p)
      → slice (write_value c r i h false bytes) p n ≡ slice r.memory p n
  unfolding write_value
  conversion_kept r i h bytes p n out =
      elim (Bool-cases (h.received_offset == 0 && ltb h.received_type_id number_of_types)) [
        | inl e ↦ rw e (slice-copy_into_apart r.memory (pv_at r i).offset new p n (clear out))
        | inr e ↦ rw e refl
      ]
    where
      old : List ℕ
      old = slice r.memory (pv_at r i).offset (pv_at r i).total_size

      new : List ℕ
      new = convert (pv_at r i) h.received_type_id bytes old

      new_size : length new ≤ (pv_at r i).total_size
      new_size = omega (
        arith,
        length-convert (pv_at r i) h.received_type_id bytes old,
        length-slice-le r.memory (pv_at r i).offset (pv_at r i).total_size,
      )

      clear :
          (p + n ≤ (pv_at r i).offset) ⊎ ((pv_at r i).offset + (pv_at r i).total_size ≤ p)
          → (p + n ≤ (pv_at r i).offset) ⊎ ((pv_at r i).offset + length new ≤ p)
      clear (inl a) = inl a
      clear (inr a) = inr (omega (arith, new_size))

  -- Whatever a message does to its variable, copy a block or convert a value, the region of another
  -- variable keeps its bytes. The buffer is laid out, both variables are known, a block that is
  -- copied lies inside its variable, and the payload holds it with its timestamp.
  pub region_kept :
      (r : Receiver) (i j : ℕ) (h : Header) (control : Bool) (bytes : List ℕ)
      → IsLaid r
      → i < r.number_of_variables
      → j < r.number_of_variables
      → i ≢ j
      → (control ≡ true → h.received_size + h.received_offset ≤ (pv_at r i).total_size)
      → h.received_size + 8 ≤ length bytes
      → slice (write_value c r i h control bytes) (pv_at r j).offset ((pv_at r j).total_size + 8)
        ≡ slice r.memory (pv_at r j).offset ((pv_at r j).total_size + 8)
  region_kept r i j h true bytes v a b ne fits there = elim (regions_apart i j v ne a b) [
    | inl o ↦
        others_kept r i h bytes v a (fits refl) there _ _ (inl (omega arith)) (inl (omega arith))
    | inr o ↦
        others_kept r i h bytes v a (fits refl) there _ _ (inr (omega (arith, fits refl)))
          (inr (omega arith))
  ]
  region_kept r i j h false bytes v a b ne fits there = elim (regions_apart i j v ne a b) [
    | inl o ↦ conversion_kept r i h bytes _ _ (inl (omega arith))
    | inr o ↦ conversion_kept r i h bytes _ _ (inr (omega arith))
  ]
