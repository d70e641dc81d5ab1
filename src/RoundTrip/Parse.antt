-- ===== src/RoundTrip/Parse.antt =====
-- The header that `ReadVarNameAndIndex` reads from a message of the sender.
use marte2hieratika.Base.{
  ℕ, suc, ◌+◌, ◌≡◌, refl, List, [], ◌∷◌, ◌++◌, append_assoc, append-nil, ap, some, length,
  length-append, drop, drop-append_length, drop-add, to_bytes, of_bytes, of_bytes-to_bytes, arith,
}
use marte2hieratika.Marte.{StringHelper}
use marte2hieratika.Receiver.{Receiver}
use marte2hieratika.Receiver.Message.{Header, base_name, read_var_name_and_index}
use marte2hieratika.Receiver.Message.Scan.{
  quoted, length-quoted, behind_name, header_of, read_quoted,
}
use marte2hieratika.Sender.Message.{Block, encode}
use marte2hieratika.RoundTrip.{IsSendable}

-- The bytes behind the pattern, with those that follow the message.
abbrev pub fields_of : Block → List ℕ → List ℕ
fields_of b rest =
    to_bytes 4 b.index
    ++ (to_bytes 1 b.type_id
        ++ (to_bytes 4 b.size
            ++ (to_bytes 4 b.offset ++ (b.value ++ (b.timestamp ++ (10 ∷ 13 ∷ rest))))))

pub encode-quoted :
    (b : Block) (rest : List ℕ) → encode b ++ rest ≡ quoted b.name (fields_of b rest)
unfolding encode
encode-quoted b rest = simp append_assoc

-- The bytes that follow the four fields.
abbrev pub body_of : Block → List ℕ → List ℕ
body_of b rest = b.value ++ (b.timestamp ++ (10 ∷ 13 ∷ rest))

fields_words :
    (b : Block) (rest : List ℕ)
    → (drop 4 (fields_of b rest)
        ≡ to_bytes 1 b.type_id ++ (to_bytes 4 b.size ++ (to_bytes 4 b.offset ++ body_of b rest)))
      × (drop 5 (fields_of b rest) ≡ to_bytes 4 b.size ++ (to_bytes 4 b.offset ++ body_of b rest))
      × (drop 9 (fields_of b rest) ≡ to_bytes 4 b.offset ++ body_of b rest)
      × (drop 13 (fields_of b rest) ≡ body_of b rest)
unfolding to_bytes
fields_words b rest = (refl, refl, refl, refl)

pub length-fields_of :
    (b : Block) (rest : List ℕ)
    → length (fields_of b rest) ≡ 15 + length b.value + length b.timestamp + length rest
unfolding to_bytes
length-fields_of b rest = omega (
  arith,
  length-append b.value (b.timestamp ++ (10 ∷ 13 ∷ rest)),
  length-append b.timestamp (10 ∷ 13 ∷ rest),
)

-- The header of a block, as the receiver reads it.
abbrev pub block_header : StringHelper → Block → Header
block_header s b = record {
  var_name = base_name s b.name;
  received_index = b.index;
  received_type_id = b.type_id;
  received_size = b.size;
  received_offset = b.offset;
  processed_size = length b.name + 3;
  data_pos = length b.name + 13;
}

module _ (r : Receiver) (b : Block) (rest : List ℕ) (v : IsSendable r b) where
  pub index_read : of_bytes 4 (fields_of b rest) ≡ b.index
  index_read = of_bytes-to_bytes 4 b.index _ (omega arith)

  type_read : of_bytes 1 (drop 4 (fields_of b rest)) ≡ b.type_id
  type_read = rw (fields_words b rest).0 (of_bytes-to_bytes 1 b.type_id _ (omega arith))

  pub size_read : of_bytes 4 (drop 5 (fields_of b rest)) ≡ b.size
  size_read = rw (fields_words b rest).1 (of_bytes-to_bytes 4 b.size _ (omega arith))

  offset_read : of_bytes 4 (drop 9 (fields_of b rest)) ≡ b.offset
  offset_read = rw (fields_words b rest).2 (of_bytes-to_bytes 4 b.offset _ (omega arith))

  header_read : (s : StringHelper) → header_of s b.name (fields_of b rest) ≡ block_header s b
  header_read s = rw (index_read, type_read, size_read, offset_read)

-- `ReadVarNameAndIndex` on a payload that starts with the message of a sendable block returns the
-- fields of the block and keeps the payload, whatever bytes follow the message.
pub read-encode :
    (s : StringHelper) (r : Receiver) (b : Block) (rest : List ℕ)
    → IsSendable r b
    → read_var_name_and_index s r (encode b ++ rest) ≡ (encode b ++ rest, some (block_header s b))
read-encode s r b rest v =
    rw (encode-quoted b rest, ← header_read r b rest v s)
      (read_quoted s r b.name (fields_of b rest) v.unterminated v.unquoted v.name_fits
        (omega (arith, length-fields_of b rest)) (rw (index_read r b rest v) v.index_known)
        (rw (size_read r b rest v) v.size_small))

-- The bytes of the value and of the timestamp stand where `ReadVarValueAndSkip` looks for them.
pub body-encode :
    (b : Block) (rest : List ℕ) → drop (length b.name + 13 + 4) (encode b ++ rest) ≡ body_of b rest
body-encode b rest =
    let e : length b.name + 13 + 4 ≡ suc (length b.name + 16) = omega arith in
    rw
      (
        encode-quoted b rest,
        e,
        drop-add (length b.name) 16 (b.name ++ behind_name (fields_of b rest)),
        drop-append_length b.name (behind_name (fields_of b rest)),
      )
      (fields_words b rest).3

pub length-encode :
    (r : Receiver) (b : Block) → IsSendable r b → length (encode b) ≡ length b.name + b.size + 27
length-encode r b v = omega (
  arith,
  ap length (append-nil (encode b)),
  ap length (encode-quoted b []),
  length-quoted b.name (fields_of b []),
  length-fields_of b [],
  v.value_size,
  v.timestamp_size,
)
