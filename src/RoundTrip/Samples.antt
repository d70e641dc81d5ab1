-- ===== src/RoundTrip/Samples.antt =====
-- A block for the small receiver of the tests.
use marte2hieratika.Base.{get_or, ℕ, zero, suc, ◌+◌, ◌≤◌, ◌<◌, ◌≡◌, refl, [], ◌∷◌, arith, replicate}
use marte2hieratika.Marte.Plain.{plain}
use marte2hieratika.Receiver.Message.{base_name}
use marte2hieratika.Receiver.Store.Layout.{names_of, pv_at}
use marte2hieratika.Receiver.Samples.{two_variables}
use marte2hieratika.Sender.Message.{Block}
use marte2hieratika.RoundTrip.{IsSendable}

-- Two bytes of the sender's variable `B.V`, its third and its fourth.
abbrev pub block_b : Block
block_b = record {
  name = 66 ∷ b'.' ∷ 86 ∷ [];
  index = 0;
  type_id = 3;
  size = 2;
  offset = 2;
  value = 34 ∷ 58 ∷ [];
  timestamp = replicate 8 7;
}

pub block_b-IsSendable : IsSendable two_variables block_b
block_b-IsSendable = record {
  name_fits = omega arith;
  unquoted = (λ e. omega arith, (λ e. omega arith, (λ e. omega arith, tt)));
  unterminated = (λ e. omega arith, (λ e. omega arith, (λ e. omega arith, tt)));
  index_known = omega arith;
  variables_fit = omega arith;
  type_fits = omega arith;
  size_small = omega arith;
  offset_fits = omega arith;
  value_size = refl;
  timestamp_size = refl;
  message_fits = omega arith;
}

pub block_b-roomy :
    (j : ℕ)
    → j < 2
    → get_or (names_of two_variables) j [] ≡ base_name plain block_b.name
    → (0 < (pv_at two_variables j).total_size)
      × (block_b.size + block_b.offset ≤ (pv_at two_variables j).total_size)
block_b-roomy zero h e = (omega arith, omega arith)
block_b-roomy (suc zero) h e = (omega arith, omega arith)
block_b-roomy (suc (suc j)) h e = absurd (omega arith)
