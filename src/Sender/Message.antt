-- ===== src/Sender/Message.antt =====
-- The message of one block of a variable, as `SendVariables` in PrioritySender.cpp writes it.
use marte2hieratika.Base.{ℕ, List, [], ◌∷◌, ◌++◌, to_bytes}
use marte2hieratika.Marte.{Text}

-- The values that go into a message: `pvName`, `signalIndex`, `typeId`, `varOffset`, the
-- `actualSize` bytes of the value from there on, and the bytes of the timestamp.
pub record Block : Type 0 where
  pub name : Text
  pub index : ℕ
  pub type_id : ℕ
  pub size : ℕ
  pub offset : ℕ
  pub value : List ℕ
  pub timestamp : List ℕ

-- The writes to `bufferT`, in order.
unfoldable pub encode : Block → List ℕ
encode b =
    34
    ∷ (b.name
        ++ (34
            ∷ 58
            ∷ 32
            ∷ (to_bytes 4 b.index
                ++ (to_bytes 1 b.type_id
                    ++ (to_bytes 4 b.size
                        ++ (to_bytes 4 b.offset
                            ++ (b.value ++ (b.timestamp ++ (10 ∷ 13 ∷ [])))))))))
