-- ===== src/Receiver/Message.antt =====
-- The parser of the received payload in DiodeReceiver.cpp, `ReadVarNameAndIndex`. The payload is
-- its bytes; its read position and the terminator that `payload += ""` writes are left out. A scan recurs on
-- the part of the payload from its index on.
pub mod Scan
pub mod Size
pub mod Partial
use marte2hieratika.Base.{
  ℕ, ◌+◌, ◌-◌, Bool, true, false, not, ◌&&◌, ◌||◌, List, [], ◌∷◌, Option, none, some, ltb, leb,
  ◌==◌, if◌then◌else◌, length, take, drop, mul32, of_bytes,
}
use marte2hieratika.Marte.{Text, StringHelper}
use marte2hieratika.Receiver.{Receiver, pv_name_max_size_rec}

abbrev pub quote : ℕ
quote = 34

-- `const char8 *pattern = "\": "` and its length.
abbrev pub pattern_text : Text
pattern_text = 34 ∷ 58 ∷ 32 ∷ []

abbrev pub pattern_size : ℕ
pattern_size = 3

-- `StringHelper::Copy` and the construction of a StreamString from a buffer stop at the terminator.
abbrev pub c_string : List ℕ → Text
c_string [] = []
c_string (c ∷ cs) = let rest = c_string cs in if c == 0 then [] else c ∷ rest

-- What the first scan of `ReadVarNameAndIndex` leaves: the payload and its two flags.
pub record Resync : Type 0 where
  pub payload : List ℕ
  pub found : Bool
  pub ok : Bool

-- What the second scan leaves; `at` is `dataPtr - payload.Buffer()`.
pub record Located : Type 0 where
  pub payload : List ℕ
  pub found : Bool
  pub ok : Bool
  pub at : ℕ

-- The reference arguments that `ReadVarNameAndIndex` sets when it returns true; `data_pos` is
-- `dataPtr - payload.Buffer()`.
pub record Header : Type 0 where
  pub var_name : Text
  pub received_index : ℕ
  pub received_type_id : ℕ
  pub received_size : ℕ
  pub received_offset : ℕ
  pub processed_size : ℕ
  pub data_pos : ℕ

module _ (s : StringHelper) where
  open s use {compare_n, get_token}

  -- `while ((i < payload.Size()) && (!found))` of the resynchronisation.
  pub resync_loop : List ℕ → List ℕ → Resync
  resync_loop payload [] = record { payload = payload; found = false; ok = true }
  resync_loop payload (c ∷ rest) =
      let skip = resync_loop payload rest in
      let again = resync_loop (c ∷ rest) rest in
      if c == quote
      then if leb pattern_size (length (c ∷ rest))
        then if compare_n (c ∷ rest) pattern_text pattern_size == 0
          then again
          else record { payload = c ∷ rest; found = true; ok = true }
        else record { payload = c ∷ rest; found = true; ok = false }
      else skip

  -- The first block: drop what stands before an opening quote. The result is the payload and `ok`.
  pub resync : List ℕ → List ℕ × Bool
  resync [] = ([], false)
  resync (c ∷ cs) =
      let r = resync_loop (c ∷ cs) (c ∷ cs) in
      if c == quote
      then (c ∷ cs, true)
      else if r.ok && not r.found
      then ([], false)
      else (r.payload, r.ok)

  -- `while ((i < payload.Size()) && (!found))` of the search for the pattern.
  pub locate_loop : List ℕ → ℕ → List ℕ → Located
  locate_loop payload i [] = record { payload = payload; found = false; ok = true; at = 0 }
  locate_loop payload i (c ∷ rest) =
      let skip = locate_loop payload (i + 1) rest in
      let again = locate_loop (c ∷ rest) 1 rest in
      if c == quote
      then if leb pattern_size (length (c ∷ rest))
        then if compare_n (c ∷ rest) pattern_text pattern_size == 0
          then record { payload = payload; found = true; ok = true; at = i }
          else again
        else record { payload = payload; found = true; ok = false; at = 0 }
      else skip

  -- The part of the name before its first dot, if it has one.
  unfoldable pub base_name : Text → Text
  base_name name = let (token, term) = get_token name b'.' in if term == b'.' then token else name

  -- The header fields at `dataPtr`, and the checks on them.
  pub read_fields : Receiver → List ℕ → ℕ → List ℕ × Option Header
  read_fields r payload at =
      let name_size = at - 1 in
      let processed = name_size + pattern_size in
      let fields = drop (at + pattern_size) payload in
      let index = of_bytes 4 fields in
      let type_id = of_bytes 1 (drop 4 fields) in
      let size = of_bytes 4 (drop 5 fields) in
      let offset = of_bytes 4 (drop 9 fields) in
      if leb 13 (length payload - processed)
      then if leb r.number_of_variables index || leb (mul32 8 r.max_array_size) size
        then ([], none)
        else (
          payload,
          some (record {
            var_name = base_name (c_string (take name_size (drop 1 payload)));
            received_index = index;
            received_type_id = type_id;
            received_size = size;
            received_offset = offset;
            processed_size = processed;
            data_pos = at + pattern_size + 9;
          }),
        )
      else (payload, none)

  -- `nameSize` is checked before the fields are read; a name that is too long is dropped.
  pub read_name : Receiver → List ℕ → ℕ → List ℕ × Option Header
  read_name r payload at =
      let name_size = at - 1 in
      let skipped = (if ltb (length payload) name_size then length payload else name_size) in
      if leb name_size pv_name_max_size_rec
      then read_fields r payload at
      else (drop skipped payload, none)

  -- `ReadVarNameAndIndex`: the payload that it leaves, and what it read where it returns true.
  pub read_var_name_and_index : Receiver → List ℕ → List ℕ × Option Header
  unfolding resync
  read_var_name_and_index r payload =
      let (synced, ok) = resync payload in
      let located = locate_loop synced 1 (drop 1 synced) in
      if ok
      then if located.found && located.ok
        then read_name r located.payload located.at
        else (located.payload, none)
      else (synced, none)
