-- ===== src/RoundTrip.antt =====
-- The sender's messages against the receiver's parser.
pub mod Parse
pub mod Deliver
pub mod Sequence
pub mod Partial
pub mod Pieces
pub mod Fragments
pub mod Assemble
pub mod Body
pub mod Transfer
pub mod Samples
pub mod Tests
pub mod BodyTests
pub mod AssembleTests
use marte2hieratika.Base.{◌+◌, ℕ, ◌≤◌, ◌<◌, ◌≡◌, ◌*◌, ◌^◌, length, mul32, u32_mod}
use marte2hieratika.Marte.{Lacks, StringHelper}
use marte2hieratika.Receiver.{Receiver, pv_name_max_size_rec}
use marte2hieratika.Receiver.Message.{quote}
use marte2hieratika.Sender.Message.{Block}

-- What a block must satisfy to be taken by the receiver `r`: a name that fits and has no quote and
-- no terminator, fields in the range of their words, a known index and a size below the limit.
pub record IsSendable (r : Receiver) (b : Block) : Type 0 where
  pub name_fits : length b.name ≤ pv_name_max_size_rec
  pub unquoted : Lacks quote b.name
  pub unterminated : Lacks 0 b.name
  pub index_known : b.index < r.number_of_variables
  pub variables_fit : r.number_of_variables ≤ u32_mod
  pub type_fits : b.type_id < 256
  pub size_small : b.size < mul32 8 r.max_array_size
  pub offset_fits : b.offset < u32_mod
  pub value_size : length b.value ≡ b.size
  pub timestamp_size : length b.timestamp ≡ 8
  pub message_fits : b.size + 91 < u32_mod
