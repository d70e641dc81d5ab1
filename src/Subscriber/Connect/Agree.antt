-- ===== src/Subscriber/Connect/Agree.antt =====
-- The two tables of types, of the receiver and of the data source.
use marte2hieratika.Base.{
  u32_mod, ◌%◌, Bool, false, sym, ap, ◌∙◌, mul32, ℕ, ◌≡◌, ◌⊎◌, inl, inr, true, refl, ltb, ◌==◌,
  if◌then◌else◌, Bool-cases, arith,
}
use native.Mathlib.Nat.{mul_comm}
use marte2hieratika.Marte.{StringHelper}
use marte2hieratika.Channels.{is_named, ChannelAccess, Channel}
use marte2hieratika.Receiver.{PvRecDescriptor}
use marte2hieratika.Receiver.Connect.{connect, void_any_type}
use marte2hieratika.Subscriber.{PvDescriptor, value_size}
use marte2hieratika.Subscriber.Memory.{discard_large}
use marte2hieratika.Subscriber.Connect.{cainfo, set_type, typed}
use marte2hieratika.Receiver

-- A descriptor of each side for the same kind of value.
abbrev pub Agree : PvRecDescriptor → PvDescriptor → Type 0
Agree p q =
    (p.number_of_elements ≡ q.number_of_elements)
    × (p.total_size ≡ value_size q)
    × ((q.number_of_elements ≡ 0) ⊎ ((p.at ≡ q.type_id) × (p.pv_type ≡ q.pv_type)))

module _ (s : StringHelper) (ca : ChannelAccess) where
  -- The same table entry on both sides.
  record SameEntry (n : ℕ) (p : PvRecDescriptor) (q : PvDescriptor) : Type 0 where
    elements : p.number_of_elements ≡ n
    elements' : q.number_of_elements ≡ n
    size : p.total_size ≡ mul32 q.memory_size q.number_of_elements
    id : p.at ≡ q.type_id
    kind : p.pv_type ≡ q.pv_type

  if-SameEntry :
      (b : Bool) (n : ℕ) (p p' : PvRecDescriptor) (q q' : PvDescriptor)
      → SameEntry n p q
      → SameEntry n p' q'
      → SameEntry n (if b then p else p') (if b then q else q')
  if-SameEntry true n p p' q q' h k = h
  if-SameEntry false n p p' q q' h k = k

  set_type-SameEntry :
      (n : ℕ) (p : PvRecDescriptor) (q : PvDescriptor)
      → p.number_of_elements ≡ n
      → q.number_of_elements ≡ n
      → p.pv_type ≡ q.pv_type
      → SameEntry n (Receiver.Connect.set_type s ca p) (set_type s ca q p.pv_type)
  unfolding Receiver.Connect.set_type set_type
  set_type-SameEntry n p q e e' t =
      let entry : (size id : ℕ)
          → SameEntry n (Receiver.Connect.typed s ca p size id) (typed s ca q size id) =
        λ size id. record {
          elements = e;
          elements' = e';
          size = ap (mul32 size) (e ∙ sym e');
          id = refl;
          kind = t;
        } in
      let last : SameEntry n
          (record p { total_size = mul32 8 p.number_of_elements; at = 9; pv_type = ca.dbf_double })
          (record q { memory_size = 8; type_id = 9; pv_type = ca.dbf_double }) =
        record {
          elements = e;
          elements' = e';
          size = ap (mul32 8) (e ∙ sym e');
          id = refl;
          kind = refl;
        } in
      if-SameEntry (is_named s ca p.pv_type "DBF_DOUBLE") n _ _ _ _ (entry 8 9) (
        if-SameEntry (is_named s ca p.pv_type "DBF_FLOAT") n _ _ _ _ (entry 4 8) (
          if-SameEntry (is_named s ca p.pv_type "DBF_LONG") n _ _ _ _ (entry 4 4) (
            if-SameEntry (is_named s ca p.pv_type "DBF_ULONG") n _ _ _ _ (entry 4 5) (
              if-SameEntry (is_named s ca p.pv_type "DBF_SHORT") n _ _ _ _ (entry 2 2) (
                if-SameEntry (is_named s ca p.pv_type "DBF_USHORT") n _ _ _ _ (entry 2 3) (
                  if-SameEntry (is_named s ca p.pv_type "DBF_CHAR") n _ _ _ _ (entry 1 0) (
                    if-SameEntry (is_named s ca p.pv_type "DBF_UCHAR") n _ _ _ _ (entry 1 1) (
                      if-SameEntry (is_named s ca p.pv_type "DBF_STRING") n _ _ _ _
                        (entry ca.max_string_size 10) last))))))))

  -- What a channel says of the number of elements.
  abbrev count_of : Channel → ℕ
  count_of ch = if ch.state == 2 then ch.element_count else 0

  -- The receiver's descriptor before its type is set.
  abbrev known : PvRecDescriptor → Channel → PvRecDescriptor
  known p ch = record p {
    pv_type = ch.field_type;
    number_of_elements = count_of ch;
    total_size = 0;
    at = void_any_type;
  }

  entry_of :
      (p : PvRecDescriptor) (q : PvDescriptor) (ch : Channel)
      → SameEntry (count_of ch) (Receiver.Connect.set_type s ca (known p ch)) (cainfo s ca q ch)
  unfolding cainfo
  entry_of p q ch = set_type-SameEntry (count_of ch) (known p ch) _ refl refl refl

  -- Both limits on the number of elements.
  limited-Agree :
      (limit : ℕ) (kept : PvRecDescriptor) (q : PvDescriptor)
      → kept.total_size ≡ 0
      → SameEntry kept.number_of_elements (Receiver.Connect.set_type s ca kept) q
      → Agree
          (let few =
              (if ltb limit kept.number_of_elements
                then record kept { number_of_elements = 0 }
                else kept) in
            if ltb 0 few.number_of_elements then Receiver.Connect.set_type s ca few else few)
          (discard_large limit q)
  unfolding discard_large
  limited-Agree limit kept q z m =
      let none_size : mul32 0 q.memory_size ≡ 0 = omega arith in
      elim (Bool-cases (ltb limit kept.number_of_elements)) [
        | inl big ↦ rw (m.elements', big) (refl, omega (arith, z), inl refl)
        | inr fits ↦
            rw (m.elements', fits)
              (elim (Bool-cases (ltb 0 kept.number_of_elements)) [
                | inl more ↦ rw more (
                  m.elements,
                  m.size
                      ∙ ap (mul32 q.memory_size) m.elements'
                      ∙ ap (λ k. k % u32_mod) (mul_comm q.memory_size kept.number_of_elements),
                  inr (m.id, m.kind),
                )
                | inr empty ↦
                    let zero_n : kept.number_of_elements ≡ 0 = ground arith in
                    rw empty (
                      refl,
                      z ∙ sym (ap (λ k. mul32 k q.memory_size) zero_n ∙ none_size),
                      inl zero_n,
                    )
              ])
      ]

  -- From the same answers of channel access, for a channel that could be created, DiodeReceiver and
  -- EpicsParserAndSubscriber come to the same kind of variable: the same number of elements, none
  -- where there are more than `maxArraySize`, the same size of the value, and, where there are
  -- elements, the same type id and EPICS type.
  pub connect-Agree :
      (limit : ℕ) (p : PvRecDescriptor) (q : PvDescriptor) (ch : Channel)
      → ch.created ≡ true
      → Agree (connect s ca limit p ch) (discard_large limit (cainfo s ca q ch))
  unfolding connect cainfo
  connect-Agree limit p q ch e =
      rw e (limited-Agree limit (known p ch) (cainfo s ca q ch) refl (entry_of p q ch))
