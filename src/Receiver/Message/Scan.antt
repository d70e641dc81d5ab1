-- ===== src/Receiver/Message/Scan.antt =====
-- `ReadVarNameAndIndex` on a payload that starts with a quoted name, the pattern and the fields.
use marte2hieratika.Base.{
  ℕ, suc, ◌+◌, ◌-◌, ◌≤◌, ◌<◌, ◌≡◌, refl, true, List, [], ◌∷◌, ◌++◌, some, length, length-append,
  take, drop, take-append_length, drop-append_length, drop-add, of_bytes, arith, mul32,
}
use marte2hieratika.Marte.{Text, Lacks, StringHelper}
use marte2hieratika.Receiver.{Receiver, pv_name_max_size_rec}
use marte2hieratika.Receiver.Message.{
  Header, quote, pattern_text, c_string, locate_loop, base_name, read_fields, read_name,
  read_var_name_and_index,
}

pub c_string_lem : (name : Text) → Lacks 0 name → c_string name ≡ name
c_string_lem [] l = refl
c_string_lem (c ∷ cs) l = ground (arith, c_string_lem cs l.1, l.0)

-- A quoted name, the pattern, and what follows.
abbrev pub quoted : Text → List ℕ → List ℕ
quoted name fields = 34 ∷ (name ++ (34 ∷ 58 ∷ 32 ∷ fields))

abbrev pub behind_name : List ℕ → List ℕ
behind_name fields = 34 ∷ 58 ∷ 32 ∷ fields

pub length-quoted :
    (name : Text) (fields : List ℕ) → length (quoted name fields) ≡ length name + 4 + length fields
length-quoted name fields = omega (arith, length-append name (behind_name fields))

module _ (s : StringHelper) where
  open s use {compare_n, compare_n_eq}

  pattern_matches : (rest : List ℕ) → compare_n (behind_name rest) pattern_text 3 ≡ 0
  pattern_matches rest = (compare_n_eq (behind_name rest) pattern_text 3).1 refl

  -- The scan goes over a name without quotes and stops at the pattern.
  pub locate_name :
      (payload name rest : List ℕ) (i : ℕ)
      → Lacks quote name
      → locate_loop s payload i (name ++ behind_name rest)
        ≡ record { payload = payload; found = true; ok = true; at = i + length name }
  unfolding locate_loop
  locate_name payload [] rest i l = ground (arith, pattern_matches rest)
  locate_name payload (c ∷ cs) rest i l =
      ground (arith, locate_name payload cs rest (i + 1) l.1, l.0)

  -- The header that the fields at `dataPtr` make for a name.
  abbrev pub header_of : Text → List ℕ → Header
  header_of name fields = record {
    var_name = base_name s name;
    received_index = of_bytes 4 fields;
    received_type_id = of_bytes 1 (drop 4 fields);
    received_size = of_bytes 4 (drop 5 fields);
    received_offset = of_bytes 4 (drop 9 fields);
    processed_size = length name + 3;
    data_pos = length name + 13;
  }

  fields_at :
      (name : Text) (fields : List ℕ) → drop (suc (length name) + 3) (quoted name fields) ≡ fields
  fields_at name fields =
      let e : suc (length name) + 3 ≡ suc (length name + 3) = omega arith in
      rw (
        e,
        drop-add (length name) 3 (name ++ behind_name fields),
        drop-append_length name (behind_name fields),
      )

  name_at : (name : Text) (fields : List ℕ) → take (length name) (name ++ behind_name fields) ≡ name
  name_at name fields = take-append_length name (behind_name fields)

  -- The fields are taken if the payload is long enough, the index is one of the receiver's and the
  -- size is below its limit.
  read_fields_lem :
      (r : Receiver) (name : Text) (fields : List ℕ)
      → Lacks 0 name
      → 12 ≤ length fields
      → of_bytes 4 fields < r.number_of_variables
      → of_bytes 4 (drop 5 fields) < mul32 8 r.max_array_size
      → read_fields s r (quoted name fields) (suc (length name))
        ≡ (quoted name fields, some (header_of name fields))
  unfolding read_fields
  read_fields_lem r name fields z long known small =
      let before : suc (length name) - 1 ≡ length name = omega arith in
      let behind : suc (length name) + 3 + 9 ≡ length name + 13 = omega arith in
      rw (before, fields_at name fields, name_at name fields, c_string_lem name z, behind)
        (ground (arith, length-append name (behind_name fields)))

  pub read_quoted :
      (r : Receiver) (name : Text) (fields : List ℕ)
      → Lacks 0 name
      → Lacks quote name
      → length name ≤ pv_name_max_size_rec
      → 12 ≤ length fields
      → of_bytes 4 fields < r.number_of_variables
      → of_bytes 4 (drop 5 fields) < mul32 8 r.max_array_size
      → read_var_name_and_index s r (quoted name fields)
        ≡ (quoted name fields, some (header_of name fields))
  unfolding read_var_name_and_index read_name
  read_quoted r name fields z q fits long known small =
      let start : 1 + length name ≡ suc (length name) = omega arith in
      rw (locate_name (quoted name fields) name fields 1 q, start)
        (ground (arith, read_fields_lem r name fields z long known small))
