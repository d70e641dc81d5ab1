-- ===== src/RoundTrip/Tests.antt =====
-- The theorems about messages at concrete blocks.
use marte2hieratika.Base.{
  inl, sym, ap, get_or, ◌∙◌, ℕ, zero, suc, ◌<◌, ◌≡◌, ◌≢◌, refl, true, List, [], ◌∷◌, ◌++◌, some,
  arith, replicate,
}
use marte2hieratika.Marte.Plain.{plain}
use marte2hieratika.Receiver.Message.{read_var_name_and_index, base_name}
use marte2hieratika.Receiver.Store.{consume, consume_step}
use marte2hieratika.Receiver.Store.Layout.{IsStarted, names_of}
use marte2hieratika.Receiver.Store.Resolve.{SameStore}
use marte2hieratika.Receiver.Samples.{
  two_unmapped, two_names-Ascending, two_variables-IsLaid, base_name_dot, base_name-plain,
  two_variables, two_variables-IsStarted, sender_names, no_conversion,
}
use marte2hieratika.RoundTrip.Samples.{block_b, block_b-IsSendable, block_b-roomy}
use marte2hieratika.Sender.Message.{Block, encode}
use marte2hieratika.RoundTrip.{IsSendable}
use marte2hieratika.RoundTrip.Parse.{block_header, read-encode}
use marte2hieratika.RoundTrip.Deliver.{Fits, Holds, deliver, ignore}
use marte2hieratika.RoundTrip.Sequence.{encode_all, after_blocks, consume-encode_all}

-- A variable that the receiver does not have.
abbrev block_c : Block
block_c = record {
  name = 67 ∷ [];
  index = 1;
  type_id = 3;
  size = 1;
  offset = 0;
  value = 1 ∷ [];
  timestamp = replicate 8 7;
}

abbrev other_names : ℕ → List ℕ
other_names k = 67 ∷ []

block_c-IsSendable : IsSendable two_variables block_c
block_c-IsSendable = record {
  name_fits = omega arith;
  unquoted = (λ e. omega arith, tt);
  unterminated = (λ e. omega arith, tt);
  index_known = omega arith;
  variables_fit = omega arith;
  type_fits = omega arith;
  size_small = omega arith;
  offset_fits = omega arith;
  value_size = refl;
  timestamp_size = refl;
  message_fits = omega arith;
}

block_b-Fits : Fits plain no_conversion sender_names two_variables block_b
block_b-Fits = record {
  place = 1;
  place_known = omega arith;
  place_named = sym base_name_dot;
  roomy = block_b-roomy;
}

deliver_example :
    let (ok, r', left) =
      consume_step plain no_conversion two_variables (encode block_b ++ (1 ∷ 2 ∷ [])) 0 in
    (ok ≡ true)
    × (left ≡ 1 ∷ 2 ∷ [])
    × IsStarted plain sender_names r'
    × Holds plain no_conversion sender_names two_variables block_b r'
deliver_example =
    deliver plain no_conversion sender_names two_variables block_b (1 ∷ 2 ∷ []) 0
      two_variables-IsStarted block_b-IsSendable refl block_b-Fits

read-encode_example :
    read_var_name_and_index plain two_variables (encode block_b ++ (1 ∷ 2 ∷ []))
    ≡ (encode block_b ++ (1 ∷ 2 ∷ []), some (block_header plain block_b))
read-encode_example = read-encode plain two_variables block_b (1 ∷ 2 ∷ []) block_b-IsSendable

consume-encode_all_example :
    consume plain no_conversion 5 two_variables (encode_all (block_b ∷ block_c ∷ []) ++ (1 ∷ [])) 0
    ≡ consume plain no_conversion 3
        (after_blocks plain no_conversion two_variables (block_b ∷ block_c ∷ []) (1 ∷ []) 0)
        (1 ∷ [])
        0
consume-encode_all_example =
    consume-encode_all plain no_conversion (block_b ∷ block_c ∷ []) two_variables (1 ∷ []) 0 3
      (block_b-IsSendable, (block_c-IsSendable, tt))

no_c : (k : ℕ) → k < 2 → get_or (names_of two_variables) k [] ≢ base_name plain block_c.name
no_c zero h = λ e. omega (arith, ap (λ n. get_or n 0 0) (e ∙ base_name-plain))
no_c (suc zero) h = λ e. omega (arith, ap (λ n. get_or n 0 0) (e ∙ base_name-plain))
no_c (suc (suc k)) h = absurd (omega arith)

other-IsStarted : IsStarted plain other_names two_variables
other-IsStarted = record {
  laid = two_variables-IsLaid;
  sorted = two_names-Ascending;
  mapped = λ k. inl (two_unmapped k);
}

ignore_example :
    let (ok, r', left) =
      consume_step plain no_conversion two_variables (encode block_c ++ (1 ∷ [])) 0 in
    (ok ≡ true)
    × (left ≡ 1 ∷ [])
    × IsStarted plain other_names r'
    × SameStore plain other_names two_variables r'
ignore_example =
    ignore plain no_conversion other_names two_variables block_c (1 ∷ []) 0 other-IsStarted
      block_c-IsSendable refl no_c
