-- ===== src/Receiver/Store/Change.antt =====
-- Change detection in `ReadVarValueAndSkip`.
use marte2hieratika.Base.{
  ℕ, ◌+◌, ◌≤◌, ◌<◌, ◌≡◌, refl, sym, ◌∙◌, ◌≢◌, ◌⊎◌, inl, inr, false, List, length, get_or, slice,
  get_or-set_self, get_or-set_ne, length-set, copy_into, length-copy_into, same_bytes,
  same_bytes_iff, slice-copy_into_self, arith, Bool-cases,
}
use marte2hieratika.Marte.{Text, StringHelper}
use marte2hieratika.Receiver.{Receiver}
use marte2hieratika.Receiver.Store.{mark_changed}
use marte2hieratika.Receiver.Store.Layout.{IsStarted, pv_at}
use marte2hieratika.Receiver.Store.Write.{length-slice}

-- The value of a variable in a buffer.
abbrev pub value_in : List ℕ → Receiver → ℕ → List ℕ
value_in mem r i = slice mem (pv_at r i).offset (pv_at r i).total_size

module _ (s : StringHelper) (sender : ℕ → Text) (r : Receiver) (i : ℕ) (v : IsStarted s sender r)
    (known : i < r.number_of_variables) where
  pub mark_changed-IsStarted : IsStarted s sender (mark_changed r i)
  unfolding mark_changed
  mark_changed-IsStarted =
      elim (Bool-cases (same_bytes (value_in r.memory r i) (value_in r.memory_prec r i))) [
        | inl e ↦ rw e v
        | inr e ↦ rw e (record {
          laid = record {
            count = v.laid.count;
            few = v.laid.few;
            inside = v.laid.inside;
            apart = v.laid.apart;
            prec_size = length-copy_into r.memory_prec _ _ ∙ v.laid.prec_size;
            flags_size = length-set r.change_flag i 1 ∙ v.laid.flags_size;
            mapping_size = v.laid.mapping_size;
          };
          sorted = v.sorted;
          mapped = v.mapped;
        })
      ]

  -- After the test the last value handed over is the present one, and the flag is set unless the
  -- two were the same before.
  pub mark_changed_lem :
      let r' = mark_changed r i in
      (value_in r'.memory_prec r i ≡ value_in r.memory r i)
      × (r'.memory ≡ r.memory)
      × ((r'.change_flag ≡ r.change_flag) × (value_in r.memory r i ≡ value_in r.memory_prec r i)
          ⊎ (get_or r'.change_flag i 0 ≡ 1) × (value_in r.memory r i ≢ value_in r.memory_prec r i))
      × ((j : ℕ) → i ≢ j → get_or r'.change_flag j 0 ≡ get_or r.change_flag j 0)
  unfolding mark_changed
  mark_changed_lem =
      elim (Bool-cases (same_bytes (value_in r.memory r i) (value_in r.memory_prec r i))) [
        | inl e ↦
            let same = (same_bytes_iff (value_in r.memory r i) (value_in r.memory_prec r i)).0 e in
            rw e (sym same, refl, inl (refl, same), λ j ne. refl)
        | inr e ↦ rw e (
          copied,
          refl,
          inr (get_or-set_self r.change_flag i 1 0 (rw v.laid.flags_size known), differs e),
          λ j ne. get_or-set_ne r.change_flag 1 0 ne,
        )
      ]
    where
      now : List ℕ
      now = value_in r.memory r i

      fits : (pv_at r i).offset + (pv_at r i).total_size ≤ length r.memory
      fits = omega (arith, v.laid.inside i known)

      copied : value_in (copy_into r.memory_prec (pv_at r i).offset now) r i ≡ now
      copied =
          let size = length-slice r.memory (pv_at r i).offset (pv_at r i).total_size fits in
          rw size at (
            slice-copy_into_self r.memory_prec (pv_at r i).offset now
              (omega (arith, size, v.laid.prec_size)))

      differs :
          same_bytes now (value_in r.memory_prec r i) ≡ false → now ≢ value_in r.memory_prec r i
      differs e same = cc (e, (same_bytes_iff now (value_in r.memory_prec r i)).1 same)
