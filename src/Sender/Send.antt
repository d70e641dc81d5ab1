-- ===== src/Sender/Send.antt =====
-- `PrioritySender::SendVariables` in PrioritySender.cpp, from its share on: the loop over the
-- variables and their fragments, and a request with its replies. The messages go to the stream, or
-- to a buffer first where `chunkSize` is 0: to a writer, of which each write may fail.
pub mod Whole
pub mod Cut
use marte2hieratika.Base.{
  ℕ, zero, suc, ◌+◌, ◌-◌, ◌%◌, Bool, true, false, ◌&&◌, List, [], ◌∷◌, ◌++◌, Option, none, some,
  get_or, slice, to_bytes, ltb, leb, if◌then◌else◌, add32, mul32,
}
use marte2hieratika.Subscriber.{PvDescriptor, no_pv}
use marte2hieratika.Sender.{PrioritySender}
use marte2hieratika.Sender.Message.{Block}

-- `totalSize`.
unfoldable pub total_size : PvDescriptor → ℕ
total_size pv = mul32 pv.memory_size pv.number_of_elements

-- What the writes of a message take from the sender, for the fragment at `varOffset`.
unfoldable pub fragment : PrioritySender → PvDescriptor → ℕ → ℕ → ℕ → Block
fragment t pv signal_index var_offset actual_size = record {
  name = pv.pv_name;
  index = signal_index;
  type_id = pv.type_id;
  size = actual_size;
  offset = var_offset;
  value = slice t.memory_threads (pv.offset + var_offset) actual_size;
  timestamp = slice t.memory_threads (pv.offset + mul32 pv.number_of_elements pv.memory_size) 8;
}

-- The writes of a message, one by one.
unfoldable pub pieces : Block → List (List ℕ)
pieces b =
    (34 ∷ (b.name ++ (34 ∷ 58 ∷ 32 ∷ [])))
    ∷ to_bytes 4 b.index
    ∷ to_bytes 1 b.type_id
    ∷ to_bytes 4 b.size
    ∷ to_bytes 4 b.offset
    ∷ b.value
    ∷ b.timestamp
    ∷ (10 ∷ 13 ∷ [])
    ∷ []

-- Where the loops are: `i`, `varOffset`, `listIndex`, `cntVariables`, the flags `condition` and
-- `err.ErrorsCleared()`, and the writer.
pub record Sending (W : Type 0) : Type 0 where
  pub i : ℕ
  pub var_offset : ℕ
  pub list_index : ℕ
  pub cnt_variables : ℕ
  pub condition : Bool
  pub ok : Bool
  pub writer : W

module _ {W : Type 0} (write : W → List ℕ → Bool × W) where
  -- Each write is skipped once one has failed.
  unfoldable pub write_all : W → List (List ℕ) → Bool × W
  write_all w [] = (true, w)
  write_all w (bs ∷ rest) =
      let (ok, w') = write w bs in
      let after = write_all w' rest in if ok then after else (false, w')

  module _ (t : PrioritySender) (pvs : List PvDescriptor) (n_vars_per_thread : ℕ) where
    -- `actualSize`.
    unfoldable pub actual_size : ℕ → ℕ → ℕ
    actual_size total var_offset =
        if ltb (total - var_offset) t.max_var_size then total - var_offset else t.max_var_size

    -- The body of the loop over the fragments.
    unfoldable pub send_fragment : PvDescriptor → ℕ → Sending W → Sending W
    send_fragment pv signal_index g =
        let actual = actual_size (total_size pv) g.var_offset in
        let (ok, w) =
          write_all g.writer (pieces (fragment t pv signal_index g.var_offset actual)) in
        let i = add32 g.i 1 in
        let condition = ltb i n_vars_per_thread && ok in
        record g {
          i = i;
          var_offset = if condition then add32 g.var_offset actual else g.var_offset;
          condition = condition;
          ok = ok;
          writer = w;
        }

    -- `while ((varOffset < totalSize) && (condition))`, on fuel.
    unfoldable pub send_fragments : ℕ → PvDescriptor → ℕ → Sending W → Option (Sending W)
    send_fragments zero pv signal_index g = none
    send_fragments (suc fuel) pv signal_index g =
        let rest = send_fragments fuel pv signal_index (send_fragment pv signal_index g) in
        if ltb g.var_offset (total_size pv) && g.condition then rest else some g

    unfoldable pub next_variable : Sending W → Sending W
    next_variable g = record g {
      list_index = add32 g.list_index 1 % t.number_of_variables;
      cnt_variables = add32 g.cnt_variables 1;
    }

    -- `varOffset` falls back to 0 behind the last fragment.
    unfoldable pub reset_offset : PvDescriptor → Sending W → Sending W
    reset_offset pv g = record g {
      var_offset = if leb (total_size pv) g.var_offset then 0 else g.var_offset;
    }

    -- The body of the loop over the variables.
    unfoldable pub send_variable : Sending W → Option (Sending W)
    send_variable g =
        let signal_index = get_or t.index_list_threads g.list_index 0 in
        let pv = get_or pvs signal_index no_pv in
        let skipped : Sending W = record g {
          i = add32 g.i 1;
          condition = ltb (add32 g.i 1) n_vars_per_thread;
        } in
        let sent : Option (Sending W) =
          elim (send_fragments (suc (n_vars_per_thread - g.i)) pv signal_index g) [
            | none ↦ none
            | some g' ↦ some (next_variable (reset_offset pv g'))
          ] in
        if ltb 0 pv.number_of_elements && ltb 0 pv.memory_size
        then sent
        else some (next_variable skipped)

    -- `while (condition && (cntVariables < nVarsPerThread))`, with `k` variables left.
    unfoldable pub send_share : ℕ → Sending W → Option (Sending W)
    send_share zero g = some g
    send_share (suc k) g =
        let rest : Option (Sending W) = elim (send_variable g) [
          | none ↦ none
          | some g' ↦ send_share k g'
        ] in
        if g.condition then rest else some g
