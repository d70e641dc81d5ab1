-- ===== src/Sender/Send/Whole.antt =====
-- A variable that is sent in one block.
use marte2hieratika.Base.{
  lt→ltb, map, Bool-cases, inl, inr, ℕ, zero, suc, ◌+◌, ◌-◌, ◌%◌, ◌≤◌, ◌<◌, ◌≡◌, refl, sym, ap, ◌∙◌,
  Bool, true, false, ◌&&◌, List, [], ◌∷◌, ◌++◌, Option, some, get_or, ltb, leb, if◌then◌else◌,
  add32, u32_mod, arith, append_assoc, append-nil,
}
use native.Mathlib.Nat.{mod-lt, mod-eq_of_lt}
use marte2hieratika.Subscriber.{PvDescriptor, no_pv}
use marte2hieratika.Sender.{PrioritySender}
use marte2hieratika.Sender.Share.{list_positions}
use marte2hieratika.RoundTrip.Sequence.{encode_all}
use marte2hieratika.Sender.Message.{Block, encode}
use marte2hieratika.Sender.Send.{
  total_size, fragment, pieces, Sending, write_all, actual_size, send_fragment, send_fragments,
  next_variable, reset_offset, send_variable, send_share,
}

-- A writer that takes everything, and what it has taken.
pub record Accepts {W : Type 0} (write : W → List ℕ → Bool × W) : Type 0 where
  pub written : W → List ℕ
  pub succeeds : (w : W) (bs : List ℕ) → (write w bs).0 ≡ true
  pub appends : (w : W) (bs : List ℕ) → written (write w bs).1 ≡ written w ++ bs

-- A variable whose value fits in one block.
pub record FitsBlock (t : PrioritySender) (pv : PvDescriptor) : Type 0 where
  pub elements : 0 < pv.number_of_elements
  pub element_size : 0 < pv.memory_size
  pub some_bytes : 0 < total_size pv
  pub one_block : total_size pv ≤ t.max_var_size

module _ (t : PrioritySender) (pvs : List PvDescriptor) where
  abbrev pub signal_at : ℕ → ℕ
  signal_at position = get_or t.index_list_threads position 0

  abbrev pub pv_of : ℕ → PvDescriptor
  pv_of position = get_or pvs (signal_at position) no_pv

  -- The only block of the variable at a position of the list.
  abbrev pub block_at : ℕ → Block
  block_at position =
      fragment t (pv_of position) (signal_at position) 0 (total_size (pv_of position))

module _ {W : Type 0} (write : W → List ℕ → Bool × W) (a : Accepts write) where
  abbrev pub concat : List (List ℕ) → List ℕ
  concat [] = []
  concat (bs ∷ rest) = bs ++ concat rest

  pub write_all_lem :
      (w : W) (ps : List (List ℕ))
      → ((write_all write w ps).0 ≡ true)
        × (a.written (write_all write w ps).1 ≡ a.written w ++ concat ps)
  unfolding write_all
  write_all_lem w [] = (refl, sym (append-nil (a.written w)))
  write_all_lem w (bs ∷ rest) =
      let (ok, all) = write_all_lem (write w bs).1 rest in
      rw (a.succeeds w bs)
        (ok, all ∙ ap (λ l. l ++ concat rest) (a.appends w bs) ∙ append_assoc _ bs (concat rest))

  pub concat-pieces : (b : Block) → concat (pieces b) ≡ encode b
  unfolding pieces encode
  concat-pieces b = simp append_assoc

  module _ (t : PrioritySender) (pvs : List PvDescriptor) (n : ℕ) where
    module _ (pv : PvDescriptor) (signal_index : ℕ) where
      abbrev pub fragments : ℕ → Sending W → Option (Sending W)
      fragments fuel g = send_fragments write t pvs n fuel pv signal_index g

      pub fragments_stop :
          (fuel : ℕ) (g : Sending W)
          → (ltb g.var_offset (total_size pv) && g.condition) ≡ false
          → fragments (suc fuel) g ≡ some g
      unfolding send_fragments
      fragments_stop fuel g e = rw (e, send_fragments) refl

      pub fragments_go :
          (fuel : ℕ) (g : Sending W)
          → (ltb g.var_offset (total_size pv) && g.condition) ≡ true
          → fragments (suc fuel) g ≡ fragments fuel (send_fragment write t pvs n pv signal_index g)
      unfolding send_fragments
      fragments_go fuel g e = rw (e, send_fragments) refl

      -- The state behind the only fragment.
      abbrev behind : Sending W → W → Sending W
      behind g w = record {
        i = g.i + 1;
        var_offset = if ltb (g.i + 1) n then total_size pv else 0;
        list_index = g.list_index;
        cnt_variables = g.cnt_variables;
        condition = ltb (g.i + 1) n;
        ok = true;
        writer = w;
      }

      abbrev whole_block : Block
      whole_block = fragment t pv signal_index 0 (total_size pv)

      abbrev whole_writes : Sending W → Bool × W
      whole_writes g = write_all write g.writer (pieces whole_block)

      small_total : total_size pv < u32_mod
      unfolding total_size
      small_total = omega arith

      send_fragment_whole :
          (g : Sending W)
          → FitsBlock t pv
          → g.i < n
          → n < u32_mod
          → g.var_offset ≡ 0
          → send_fragment write t pvs n pv signal_index g ≡ behind g (whole_writes g).1
      unfolding send_fragment actual_size
      send_fragment_whole g fits lt few offset =
          let next : add32 g.i 1 ≡ g.i + 1 = mod-eq_of_lt (omega arith) in
          let actual : (if ltb (total_size pv - 0) t.max_var_size
                then total_size pv - 0
                else t.max_var_size)
              ≡ total_size pv =
            ground (arith, fits.one_block) in
          let sum : add32 0 (total_size pv) ≡ total_size pv = omega (arith, small_total) in
          let ok =
            (write_all_lem g.writer (pieces (fragment t pv signal_index 0 (total_size pv)))).0 in
          elim (Bool-cases (ltb (g.i + 1) n)) [
            | inl e ↦ rw (offset, actual, next, ok, e, sum) refl
            | inr e ↦ rw (offset, actual, next, ok, e) refl
          ]

      fragments_whole :
          (g : Sending W)
          → FitsBlock t pv
          → g.i < n
          → n < u32_mod
          → g.var_offset ≡ 0
          → g.condition ≡ true
          → fragments (suc (n - g.i)) g ≡ some (behind g (whole_writes g).1)
      fragments_whole g fits lt few offset cond =
          let more : n - g.i ≡ suc (n - g.i - 1) = omega arith in
          let enter : (ltb g.var_offset (total_size pv) && g.condition) ≡ true =
            ground (arith, fits.some_bytes) in
          let leave : (ltb (if ltb (g.i + 1) n then total_size pv else 0) (total_size pv)
                && ltb (g.i + 1) n)
              ≡ false =
            ground arith in
          fragments_go (n - g.i) g enter
          ∙ ap (fragments (n - g.i)) (send_fragment_whole g fits lt few offset)
          ∙ ap (λ k. fragments k (behind g (whole_writes g).1)) more
          ∙ fragments_stop (n - g.i - 1) (behind g (whole_writes g).1) leave

    send_variable_by :
        (g : Sending W)
        → FitsBlock t (pv_of t pvs g.list_index)
        → g.i < n
        → n < u32_mod
        → g.cnt_variables < n
        → g.var_offset ≡ 0
        → g.condition ≡ true
        → send_variable write t pvs n g
          ≡ some (record {
            i = g.i + 1;
            var_offset = 0;
            list_index = add32 g.list_index 1 % t.number_of_variables;
            cnt_variables = g.cnt_variables + 1;
            condition = ltb (g.i + 1) n;
            ok = true;
            writer = (whole_writes (pv_of t pvs g.list_index) (signal_at t pvs g.list_index) g).1;
          })
    unfolding send_variable next_variable reset_offset
    send_variable_by g fits lt few cnt offset cond =
        let pv = pv_of t pvs g.list_index in
        let sent = fragments_whole pv (signal_at t pvs g.list_index) g fits lt few offset cond in
        let filled : (ltb 0 pv.number_of_elements && ltb 0 pv.memory_size) ≡ true =
          ground (arith, fits.elements, fits.element_size) in
        let next : add32 g.cnt_variables 1 ≡ g.cnt_variables + 1 = mod-eq_of_lt (omega arith) in
        let reset : (if leb (total_size pv) (if ltb (g.i + 1) n then total_size pv else 0)
              then 0
              else (if ltb (g.i + 1) n then total_size pv else 0))
            ≡ 0 =
          ground (arith, fits.some_bytes) in
        rw (filled, sent, next, reset, send_variable) refl

    send_variable_whole :
        (g : Sending W)
        → FitsBlock t (pv_of t pvs g.list_index)
        → g.i < n
        → n < u32_mod
        → g.cnt_variables < n
        → g.var_offset ≡ 0
        → g.condition ≡ true
        → (w : W) × (send_variable write t pvs n g
            ≡ some (record {
              i = g.i + 1;
              var_offset = 0;
              list_index = add32 g.list_index 1 % t.number_of_variables;
              cnt_variables = g.cnt_variables + 1;
              condition = ltb (g.i + 1) n;
              ok = true;
              writer = w;
            }))
          × (a.written w ≡ a.written g.writer ++ encode (block_at t pvs g.list_index))
    send_variable_whole g fits lt few cnt offset cond =
        let pv = pv_of t pvs g.list_index in
        let w = (whole_writes pv (signal_at t pvs g.list_index) g).1 in
        let all = write_all_lem g.writer (pieces (block_at t pvs g.list_index)) in
        (
          w,
          send_variable_by g fits lt few cnt offset cond,
          all.1 ∙ ap (λ l. a.written g.writer ++ l) (concat-pieces (block_at t pvs g.list_index)),
        )

    share_go :
        (k : ℕ) (g next : Sending W)
        → g.condition ≡ true
        → send_variable write t pvs n g ≡ some next
        → send_share write t pvs n (suc k) g ≡ send_share write t pvs n k next
    unfolding send_share
    share_go k g next goes sent = rw (sent, goes, send_share) refl

    -- The loop of `SendVariables` over the variables of a share ends, with any writer that takes
    -- what it is given: it writes the message of each variable of the share once, as one block with
    -- the whole value, in the order of the list and around it, and nothing else; it counts them
    -- all, and `varOffset` is 0 and no error set at its end. So far `i` is `cntVariables`,
    -- `varOffset` is 0 and no error is set, the share has fewer than 2^32 variables, its first
    -- position is inside the list, and every listed variable has a value that is not empty and at
    -- most `maxVarSize` long.
    pub send_share_whole :
        (k : ℕ) (g : Sending W)
        → ((j : ℕ) → j < t.number_of_variables → FitsBlock t (pv_of t pvs j))
        → g.list_index < t.number_of_variables
        → n < u32_mod
        → g.i ≡ g.cnt_variables
        → g.cnt_variables + k ≡ n
        → g.var_offset ≡ 0
        → g.ok ≡ true
        → g.condition ≡ ltb g.i n
        → (g' : Sending W) × (send_share write t pvs n k g ≡ some g')
          × (a.written g'.writer
              ≡ a.written g.writer
                ++ encode_all
                    (map (block_at t pvs) (list_positions t.number_of_variables g.list_index k)))
          × (g'.cnt_variables ≡ n)
          × (g'.var_offset ≡ 0)
          × (g'.ok ≡ true)
    unfolding send_share encode_all list_positions
    send_share_whole zero g fits inside few same count offset ok cond =
        (g, refl, sym (append-nil (a.written g.writer)), omega arith, offset, ok)
    send_share_whole (suc k) g fits inside few same count offset ok cond =
        let more : g.i < n = omega arith in
        let goes : g.condition ≡ true = cond ∙ lt→ltb g.i n more in
        let (w, sent, all) =
          send_variable_whole g (fits g.list_index inside) more few (omega arith) offset goes in
        let next : Sending W = record {
          i = g.i + 1;
          var_offset = 0;
          list_index = add32 g.list_index 1 % t.number_of_variables;
          cnt_variables = g.cnt_variables + 1;
          condition = ltb (g.i + 1) n;
          ok = true;
          writer = w;
        } in
        let (g', rest, bytes, cnt, reset, fine) =
          send_share_whole k next fits (mod-lt (add32 g.list_index 1) (omega (arith, inside))) few
            (omega arith) (omega arith) refl refl refl in
        let tail =
          encode_all
            (map (block_at t pvs) (list_positions t.number_of_variables next.list_index k)) in
        (
          g',
          share_go k g next goes sent ∙ rest,
          bytes
              ∙ ap (λ l. l ++ tail) all
              ∙ append_assoc (a.written g.writer) (encode (block_at t pvs g.list_index)) tail,
          cnt,
          reset,
          fine,
        )
