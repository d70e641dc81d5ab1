-- ===== src/Sender/Send/Cut.antt =====
-- A variable that is sent in several blocks.
use marte2hieratika.Base.{
  Bool-cases, inl, inr, ℕ, zero, suc, ◌+◌, ◌-◌, ◌%◌, ◌≤◌, ◌<◌, ◌≡◌, refl, sym, ap, ◌∙◌, Bool, true,
  false, ◌&&◌, List, [], ◌∷◌, ◌++◌, some, ltb, leb, lt→ltb, ltb→lt, if◌then◌else◌, add32, u32_mod,
  arith, append_assoc, append-nil, length,
}
use native.Mathlib.Nat.{mod-eq_of_lt}
use marte2hieratika.Subscriber.{PvDescriptor}
use marte2hieratika.Sender.{PrioritySender}
use marte2hieratika.RoundTrip.Sequence.{encode_all}
use marte2hieratika.Sender.Message.{Block, encode}
use marte2hieratika.Sender.Send.{
  total_size, fragment, pieces, Sending, write_all, actual_size, send_fragment, next_variable,
  reset_offset, send_variable,
}
use marte2hieratika.Sender.Send.Whole.{
  Accepts, write_all_lem, concat-pieces, fragments, fragments_go, fragments_stop, signal_at, pv_of,
}

module _ (t : PrioritySender) (pv : PvDescriptor) (signal_index : ℕ) where
  -- The size of the block from `start` on.
  abbrev pub block_size : ℕ → ℕ
  block_size start =
      if ltb (total_size pv - start) t.max_var_size then total_size pv - start else t.max_var_size

  -- The blocks of a variable from `start` on, with as many as `k` at most.
  abbrev pub cut : ℕ → ℕ → List Block
  cut zero start = []
  cut (suc k) start =
      let rest = cut k (start + block_size start) in
      if ltb start (total_size pv)
      then fragment t pv signal_index start (block_size start) ∷ rest
      else []

  pub block_inside :
      (start : ℕ)
      → 0 < t.max_var_size
      → start < total_size pv
      → (0 < block_size start) × (start + block_size start ≤ total_size pv)
  block_inside start some_bytes lt = ground arith

  pub cut_nil : (k start : ℕ) → cut k start ≡ [] → total_size pv ≤ start + k → total_size pv ≤ start
  cut_nil zero start e all = omega arith
  cut_nil (suc k) start e all = elim (Bool-cases (ltb start (total_size pv))) [
    | inl b ↦
        let bad : (fragment t pv signal_index start (block_size start)
              ∷ cut k (start + block_size start))
            ≡ [] =
          rw b at e in
        cc
    | inr b ↦ ground arith
  ]

  pub cut_cons :
      (k start : ℕ) (b : Block) (bs : List Block)
      → cut k start ≡ b ∷ bs
      → (k' : ℕ) × (k ≡ suc k')
        × (start < total_size pv)
        × (b ≡ fragment t pv signal_index start (block_size start))
        × (cut k' (start + block_size start) ≡ bs)
  cut_cons zero start b bs e = cc
  cut_cons (suc k) start b bs e = elim (Bool-cases (ltb start (total_size pv))) [
    | inl more ↦
        let same : (fragment t pv signal_index start (block_size start)
              ∷ cut k (start + block_size start))
            ≡ b ∷ bs =
          rw more at e in
        (k, refl, ltb→lt start (total_size pv) more, cc, cc)
    | inr none_left ↦ let bad : [] ≡ b ∷ bs = rw none_left at e in cc
  ]

module _ {W : Type 0} (write : W → List ℕ → Bool × W) (a : Accepts write) (t : PrioritySender)
    (pvs : List PvDescriptor) (n : ℕ) (pv : PvDescriptor) (signal_index : ℕ)
    (some_bytes : 0 < t.max_var_size) (few : n < u32_mod) where
  abbrev writes : Sending W → Bool × W
  writes g =
      write_all write g.writer (
        pieces
          (fragment t pv signal_index g.var_offset (block_size t pv signal_index g.var_offset)))

  -- The state behind a block after which more may follow.
  abbrev behind : Sending W → Sending W
  behind g = record {
    i = g.i + 1;
    var_offset = g.var_offset + block_size t pv signal_index g.var_offset;
    list_index = g.list_index;
    cnt_variables = g.cnt_variables;
    condition = true;
    ok = true;
    writer = (writes g).1;
  }

  small_total : total_size pv < u32_mod
  unfolding total_size
  small_total = omega arith

  send_fragment_more :
      (g : Sending W)
      → g.i + 1 < n
      → g.var_offset < total_size pv
      → send_fragment write t pvs n pv signal_index g ≡ behind g
  unfolding send_fragment actual_size
  send_fragment_more g lt inside =
      let next : add32 g.i 1 ≡ g.i + 1 = mod-eq_of_lt (omega arith) in
      let size = block_size t pv signal_index g.var_offset in
      let sum : add32 g.var_offset size ≡ g.var_offset + size = mod-eq_of_lt (
        omega
          (arith, small_total, block_inside t pv signal_index g.var_offset some_bytes inside)) in
      let ok =
        (write_all_lem write a g.writer
          (pieces (fragment t pv signal_index g.var_offset size))).0 in
      rw (next, ok, lt→ltb (g.i + 1) n lt, sum) refl

  -- The loop over the fragments.
  fragments-cut :
      (bs : List Block) (k fuel : ℕ) (g : Sending W)
      → cut t pv signal_index k g.var_offset ≡ bs
      → total_size pv ≤ g.var_offset + k
      → g.var_offset ≤ total_size pv
      → length bs < fuel
      → g.i + length bs < n
      → g.condition ≡ true
      → g.ok ≡ true
      → (w : W) × (fragments write a t pvs n pv signal_index fuel g
          ≡ some (record g { i = g.i + length bs; var_offset = total_size pv; writer = w }))
        × (a.written w ≡ a.written g.writer ++ encode_all bs)
  unfolding encode_all
  fragments-cut bs k zero g e all inside enough room cond ok = absurd (omega arith)
  fragments-cut [] k (suc fuel) g e all inside enough room cond ok =
      let past = cut_nil t pv signal_index k g.var_offset e all in
      let at : total_size pv ≡ g.var_offset = omega (arith, past) in
      let same : g.i + 0 ≡ g.i = omega arith in
      let stop : (ltb g.var_offset (total_size pv) && g.condition) ≡ false = ground arith in
      (
        g.writer,
        fragments_stop write a t pvs n pv signal_index fuel g stop ∙ ap some (rw (same, at) refl),
        sym (append-nil (a.written g.writer)),
      )
  fragments-cut (b ∷ bs) k (suc fuel) g e all inside enough room cond ok =
      let (k', one_more, lt, first, rest) = cut_cons t pv signal_index k g.var_offset b bs e in
      let next = behind g in
      let grown = block_inside t pv signal_index g.var_offset some_bytes lt in
      let go : (ltb g.var_offset (total_size pv) && g.condition) ≡ true = ground (arith, lt) in
      let (w, sent, bytes) =
        fragments-cut bs k' fuel next rest (omega (arith, all, one_more, grown)) grown.1
          (omega arith) (omega arith) refl refl in
      let step =
        fragments_go write a t pvs n pv signal_index fuel g go
        ∙ ap (fragments write a t pvs n pv signal_index fuel)
            (send_fragment_more g (omega arith) lt) in
      let one =
        fragment t pv signal_index g.var_offset (block_size t pv signal_index g.var_offset) in
      let taken = (write_all_lem write a g.writer (pieces one)).1 in
      let count : g.i + 1 + length bs ≡ g.i + length (b ∷ bs) = omega arith in
      (
        w,
        step ∙ sent ∙ ap some (rw (count, cond, ok) refl),
        bytes
            ∙ ap (λ l. l ++ encode_all bs)
                (taken
                  ∙ ap (λ l. a.written g.writer ++ l)
                      (concat-pieces write a one ∙ ap encode (sym first)))
            ∙ append_assoc (a.written g.writer) (encode b) (encode_all bs),
      )

-- The blocks of the variable at a position of the list.
abbrev pub blocks_at : PrioritySender → List PvDescriptor → ℕ → List Block
blocks_at t pvs position =
    let pv = pv_of t pvs position in cut t pv (signal_at t pvs position) (total_size pv) 0

module _ {W : Type 0} (write : W → List ℕ → Bool × W) (a : Accepts write) (t : PrioritySender)
    (pvs : List PvDescriptor) (n : ℕ) (some_bytes : 0 < t.max_var_size) (few : n < u32_mod) where
  -- One round of the loop over the variables, where the request has room for one block more than
  -- the variable has: it writes its blocks and goes on to the next variable.
  pub send_variable_cut :
      (g : Sending W)
      → 0 < (pv_of t pvs g.list_index).number_of_elements
      → 0 < (pv_of t pvs g.list_index).memory_size
      → g.i + length (blocks_at t pvs g.list_index) < n
      → g.cnt_variables < n
      → g.var_offset ≡ 0
      → g.condition ≡ true
      → g.ok ≡ true
      → (w : W) × (send_variable write t pvs n g
          ≡ some (record {
            i = g.i + length (blocks_at t pvs g.list_index);
            var_offset = 0;
            list_index = add32 g.list_index 1 % t.number_of_variables;
            cnt_variables = g.cnt_variables + 1;
            condition = true;
            ok = true;
            writer = w;
          }))
        × (a.written w ≡ a.written g.writer ++ encode_all (blocks_at t pvs g.list_index))
  unfolding send_variable next_variable reset_offset
  send_variable_cut g elements size room count offset cond ok =
      let next : add32 g.cnt_variables 1 ≡ g.cnt_variables + 1 = mod-eq_of_lt (omega arith) in
      let pv = pv_of t pvs g.list_index in
      let blocks = blocks_at t pvs g.list_index in
      let filled : (ltb 0 pv.number_of_elements && ltb 0 pv.memory_size) ≡ true =
        ground (arith, elements, size) in
      let here : cut t pv (signal_at t pvs g.list_index) (total_size pv) g.var_offset ≡ blocks =
        ap (cut t pv (signal_at t pvs g.list_index) (total_size pv)) offset in
      let (w, sent, bytes) =
        fragments-cut write a t pvs n pv (signal_at t pvs g.list_index) some_bytes few blocks
          (total_size pv) (suc (n - g.i)) g here (omega arith) (omega arith) (omega arith) room cond
          ok in
      let reset : (if leb (total_size pv) (total_size pv) then 0 else total_size pv) ≡ 0 =
        ground arith in
      (w, rw (filled, sent, next, reset, send_variable) (rw (cond, ok) refl), bytes)
