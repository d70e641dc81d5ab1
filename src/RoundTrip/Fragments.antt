-- ===== src/RoundTrip/Fragments.antt =====
-- A variable that comes in several blocks, one behind another.
use marte2hieratika.Base.{
  append_assoc, ap₂, ℕ_discrete, ℕ, suc, ◌+◌, ◌≤◌, ◌<◌, ◌≡◌, ◌≢◌, inl, refl, ap, sym, subst, ◌∙◌,
  Bool, List, [], ◌∷◌, ◌++◌, length, get_or, slice, slice-add, arith,
}
use marte2hieratika.Marte.{Text, StringHelper}
use marte2hieratika.Receiver.{Receiver, no_pv}
use marte2hieratika.Receiver.Message.{base_name}
use marte2hieratika.Receiver.Store.{Converter, consume}
use marte2hieratika.Receiver.Store.Layout.{IsStarted, names_of, pv_at}
use marte2hieratika.Receiver.Store.Whole.{SameShape, SameShape-trans}
use marte2hieratika.Receiver.Store.Loop.{consume-suc}
use marte2hieratika.Sender.Message.{Block, encode}
use marte2hieratika.RoundTrip.Sequence.{encode_all}
use marte2hieratika.RoundTrip.Deliver.{Holds, Fits, deliver}
use marte2hieratika.RoundTrip.Pieces.{
  apply_block, apply_blocks, IsDue, AllDue, AllDue-shape, step_block, whole_block,
}

-- The values of the blocks, and their size.
abbrev pub joined : List Block → List ℕ
joined [] = []
joined (b ∷ bs) = b.value ++ joined bs

abbrev pub joined_size : List Block → ℕ
joined_size [] = 0
joined_size (b ∷ bs) = b.size + joined_size bs

-- Blocks of one variable with one timestamp, each from where the one before ends.
abbrev pub Chain : Text → List ℕ → ℕ → List Block → Type 0
Chain name stamp start [] = Unit {0}
Chain name stamp start (b ∷ bs) =
    (b.name ≡ name)
    × (b.offset ≡ start)
    × (b.timestamp ≡ stamp)
    × Chain name stamp (start + b.size) bs

module _ (s : StringHelper) (c : Converter) (sender : ℕ → Text) where
  -- The only variable of a name.
  pub record IsOnly (name : Text) (i : ℕ) (r : Receiver) : Type 0 where
    pub known : i < r.number_of_variables
    pub named : get_or (names_of r) i [] ≡ base_name s name
    pub only :
        (j : ℕ) → j < r.number_of_variables → get_or (names_of r) j [] ≡ base_name s name → j ≡ i

  IsOnly-shape :
      (name : Text) (i : ℕ) (r q : Receiver) → SameShape r q → IsOnly name i r → IsOnly name i q
  IsOnly-shape name i r q same v = record {
    known = omega (arith, same.variables, v.known);
    named = rw (same.pvs) v.named;
    only = rw (same.pvs, same.variables) v.only;
  }

  applied_Holds :
      (r : Receiver) (b : Block) (i thread : ℕ)
      → IsStarted s sender r
      → IsDue s c sender r b
      → IsOnly b.name i r
      → Holds s c sender r b (apply_block s c sender r b thread)
  applied_Holds r b i thread v due one =
      let fits : Fits s c sender r b = record {
        place = i;
        place_known = one.known;
        place_named = one.named;
        roomy = due.roomy;
      } in
      let (ok, left, started, holds) =
        deliver s c sender r b [] thread v due.sendable due.indexed fits in
      subst (λ (z : Bool × Receiver × List ℕ). Holds s c sender r b z.1)
        (step_block s c sender r b [] thread v due) holds

  -- The loop of `ClientService` over the messages of the blocks.
  pub consume_blocks :
      (bs : List Block) (r : Receiver) (rest : List ℕ) (thread fuel : ℕ)
      → IsStarted s sender r
      → AllDue s c sender r bs
      → consume s c (length bs + fuel) r (encode_all bs ++ rest) thread
        ≡ consume s c fuel (apply_blocks s c sender r bs thread) rest thread
  unfolding encode_all
  consume_blocks [] r rest thread fuel v due = ap (λ n. consume s c n r rest thread) (omega arith)
  consume_blocks (b ∷ bs) r rest thread fuel v due =
      let r1 = apply_block s c sender r b thread in
      let whole = whole_block s c sender r b (b.value ++ b.timestamp) thread v due.0 in
      let e : length (b ∷ bs) + fuel ≡ suc (length bs + fuel) = omega arith in
      rw (e, append_assoc (encode b) (encode_all bs) rest)
        (consume-suc s c (length bs + fuel) r r1 _ _ thread
            (step_block s c sender r b (encode_all bs ++ rest) thread v due.0)
          ∙ consume_blocks bs r1 rest thread fuel whole.started
              (AllDue-shape s c sender r r1 bs whole.shape due.1))

  module _ (name : Text) (stamp : List ℕ) (i thread : ℕ) where
    abbrev place : Receiver → ℕ
    place r = (pv_at r i).offset

    abbrev size : Receiver → ℕ
    size r = (pv_at r i).total_size

    -- What the blocks leave of the receiver `r`: the variable has their values from `start` on, keeps
    -- what is before, and has the timestamp, and the other variables stay.
    pub record Assembled (r : Receiver) (start : ℕ) (bs : List Block) (r' : Receiver) : Type 0 where
      pub started : IsStarted s sender r'
      pub shape : SameShape r r'
      pub value : slice r'.memory (place r + start) (joined_size bs) ≡ joined bs
      pub before :
          (p n : ℕ)
          → p + n ≤ start
          → slice r'.memory (place r + p) n ≡ slice r.memory (place r + p) n
      pub timestamp : 0 < length bs → slice r'.memory (place r + size r) 8 ≡ stamp
      pub others :
          (j : ℕ)
          → j < r.number_of_variables
          → i ≢ j
          → slice r'.memory (pv_at r j).offset ((pv_at r j).total_size + 8)
            ≡ slice r.memory (pv_at r j).offset ((pv_at r j).total_size + 8)

    one_block_more :
        (r : Receiver) (b : Block) (bs : List Block) (start : ℕ) (r1 r' : Receiver)
        → IsOnly name i r
        → Chain name stamp start (b ∷ bs)
        → IsDue s c sender r b
        → Holds s c sender r b r1
        → SameShape r r1
        → (length bs ≡ 0 → r' ≡ r1)
        → Assembled r1 (start + b.size) bs r'
        → Assembled r start (b ∷ bs) r'
    one_block_more r b bs start r1 r' one (called, from, stamped, chain) due h same end a =
        let here : h.index ≡ i = one.only h.index h.known (h.named ∙ ap (base_name s) called) in
        let moved : (x : ℕ) → pv_at r1 x ≡ pv_at r x = λ x. ap (λ l. get_or l x no_pv) same.pvs in
        let kept : (p n : ℕ)
            → p + n ≤ start + b.size
            → slice r'.memory (place r + p) n ≡ slice r1.memory (place r + p) n =
          λ p n le.
            subst (λ pv. slice r'.memory (pv.offset + p) n ≡ slice r1.memory (pv.offset + p) n)
              (moved i) (a.before p n le) in
        let inside : start ≤ size r = omega (arith, (due.roomy i one.known named).1, from) in
        let block : slice r1.memory (place r + start) b.size ≡ b.value =
          subst (λ k. slice r1.memory ((pv_at r k).offset + start) b.size ≡ b.value) here
            (subst (λ o. slice r1.memory ((pv_at r h.index).offset + o) b.size ≡ b.value) from
              h.value) in
        let later : slice r'.memory (place r + start + b.size) (joined_size bs) ≡ joined bs =
          let at : place r1 + (start + b.size) ≡ place r + start + b.size =
            omega (arith, ap (λ pv. pv.offset) (moved i)) in
          subst (λ o. slice r'.memory o (joined_size bs) ≡ joined bs) at a.value in
        record {
          started = a.started;
          shape = SameShape-trans s c sender r r1 r' same a.shape;
          value =
              slice-add r'.memory (place r + start) b.size (joined_size bs)
              ∙ ap₂ ◌++◌ (kept start b.size (omega arith) ∙ block) later;
          before = λ p n le.
              kept p n (omega arith)
              ∙ subst
                  (λ k.
                    slice r1.memory ((pv_at r k).offset + p) n
                    ≡ slice r.memory ((pv_at r k).offset + p) n)
                  here
                  (h.outside p n (inl (omega (arith, from))) (
                    subst (λ k. p + n ≤ (pv_at r k).total_size) (sym here)
                      (omega (arith, inside))));
          timestamp = λ some_block. elim (ℕ_discrete (length bs) 0) [
            | yes nil ↦
                ap (λ x. slice x.memory (place r + size r) 8) (end nil)
                ∙ subst
                    (λ k.
                      slice r1.memory ((pv_at r k).offset + (pv_at r k).total_size) 8 ≡ b.timestamp)
                    here h.timestamp
                ∙ stamped
            | no more ↦
                subst (λ pv. slice r'.memory (pv.offset + pv.total_size) 8 ≡ stamp) (moved i)
                  (a.timestamp (omega arith))
          ];
          others = λ j lt ne.
              subst
                (λ pv.
                  slice r'.memory pv.offset (pv.total_size + 8)
                  ≡ slice r1.memory pv.offset (pv.total_size + 8))
                (moved j) (a.others j (omega (arith, same.variables, lt)) ne)
              ∙ h.others j lt (λ e. ne (sym here ∙ e));
        }
      where
        named : get_or (names_of r) i [] ≡ base_name s b.name
        named = one.named ∙ sym (ap (base_name s) called)

    -- Blocks.
    pub apply_blocks-Assembled :
        (bs : List Block) (r : Receiver) (start : ℕ)
        → IsStarted s sender r
        → AllDue s c sender r bs
        → IsOnly name i r
        → Chain name stamp start bs
        → Assembled r start bs (apply_blocks s c sender r bs thread)
    apply_blocks-Assembled [] r start v due one chain = record {
      started = v;
      shape = record { pvs = refl; variables = refl; array_size = refl };
      value = refl;
      before = λ p n le. refl;
      timestamp = λ h. absurd (omega arith);
      others = λ j lt ne. refl;
    }
    apply_blocks-Assembled (b ∷ bs) r start v due one chain =
        let whole = whole_block s c sender r b (b.value ++ b.timestamp) thread v due.0 in
        let r1 = apply_block s c sender r b thread in
        let called = subst (λ t. IsOnly t i r) (sym chain.0) one in
        one_block_more r b bs start r1 (apply_blocks s c sender r1 bs thread) one chain due.0
          (applied_Holds r b i thread v due.0 called) whole.shape (λ nil. no_more r1 bs nil)
          (apply_blocks-Assembled bs r1 (start + b.size) whole.started
            (AllDue-shape s c sender r r1 bs whole.shape due.1)
            (IsOnly-shape name i r r1 whole.shape one) chain.3)
      where
        no_more :
            (q : Receiver) (l : List Block) → length l ≡ 0 → apply_blocks s c sender q l thread ≡ q
        no_more q [] e = refl
        no_more q (x ∷ l) e = absurd (omega arith)
