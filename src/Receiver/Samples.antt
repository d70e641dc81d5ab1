-- ===== src/Receiver/Samples.antt =====
-- A small started DiodeReceiver for the tests: two variables of four bytes, `A` and `B`.
use marte2hieratika.Base.{
  ℕ, zero, suc, ◌≤◌, ◌<◌, ◌≡◌, refl, inl, List, [], ◌∷◌, arith, if◌then◌else◌, ◌==◌, get_or,
  replicate,
}
use marte2hieratika.Marte.{Text}
use marte2hieratika.Marte.Plain.{plain, compare_text, split_token}
use marte2hieratika.Receiver.Message.{base_name}
use marte2hieratika.Receiver.{PvRecDescriptor, Receiver, index_init_id}
use marte2hieratika.Receiver.Directory.Search.{Ascending}
use marte2hieratika.Receiver.Store.{Converter}
use marte2hieratika.Receiver.Store.Layout.{IsLaid, IsStarted, pv_at, region_end, names_of}

abbrev pub name_a : Text
name_a = 65 ∷ []

abbrev pub name_b : Text
name_b = 66 ∷ []

abbrev pub two_pvs : List PvRecDescriptor
two_pvs =
    record {
      pv_type = 5;
      number_of_elements = 1;
      pv_name = name_a;
      at = 3;
      total_size = 4;
      offset = 0;
    }
    ∷ record {
      pv_type = 5;
      number_of_elements = 1;
      pv_name = name_b;
      at = 3;
      total_size = 4;
      offset = 12;
    }
    ∷ []

abbrev pub two_variables : Receiver
two_variables = record {
  pvs = two_pvs;
  number_of_variables = 2;
  max_array_size = 100;
  max_number_of_threads = 1;
  number_of_init_threads = 1;
  total_memory_size = 24;
  debug = 0;
  memory = replicate 24 0;
  memory_2 = replicate 24 0;
  memory_prec = replicate 24 0;
  change_flag = replicate 2 0;
  change_flag_2 = replicate 2 0;
  pv_mapping = replicate 2 index_init_id;
  number_of_received_pvs = 0 ∷ [];
}

-- The sender lists them the other way round, `B` with a field name.
abbrev pub sender_names : ℕ → Text
sender_names k = if k == 0 then 66 ∷ b'.' ∷ 86 ∷ [] else name_a

-- A conversion that leaves the variable as it is.
abbrev pub no_conversion : Converter
no_conversion = record { convert = λ pv id src old. old; length-convert = λ pv id src old. refl }

two_inside : (i : ℕ) → i < 2 → region_end (pv_at two_variables i) ≤ 24
two_inside zero h = omega arith
two_inside (suc zero) h = omega arith
two_inside (suc (suc i)) h = absurd (omega arith)

two_apart :
    (i j : ℕ) → i < j → j < 2 → region_end (pv_at two_variables i) ≤ (pv_at two_variables j).offset
two_apart zero zero h k = absurd (omega arith)
two_apart zero (suc zero) h k = omega arith
two_apart (suc i) zero h k = absurd (omega arith)
two_apart (suc i) (suc zero) h k = absurd (omega arith)
two_apart i (suc (suc j)) h k = absurd (omega arith)

pub two_variables-IsLaid : IsLaid two_variables
two_variables-IsLaid = record {
  count = refl;
  few = omega arith;
  inside = two_inside;
  apart = two_apart;
  prec_size = refl;
  flags_size = refl;
  mapping_size = omega arith;
}

pub two_names-Ascending : Ascending plain (names_of two_variables) 2
unfolding compare_text
two_names-Ascending zero (suc zero) h k = λ e. omega arith
two_names-Ascending zero zero h k = absurd (omega arith)
two_names-Ascending (suc i) zero h k = absurd (omega arith)
two_names-Ascending (suc i) (suc zero) h k = absurd (omega arith)
two_names-Ascending i (suc (suc j)) h k = absurd (omega arith)

pub two_unmapped : (k : ℕ) → get_or (replicate 2 index_init_id) k index_init_id ≡ index_init_id
two_unmapped zero = refl
two_unmapped (suc zero) = refl
two_unmapped (suc (suc k)) = refl

pub two_variables-IsStarted : IsStarted plain sender_names two_variables
two_variables-IsStarted = record {
  laid = two_variables-IsLaid;
  sorted = two_names-Ascending;
  mapped = λ k. inl (two_unmapped k);
}

pub base_name_dot : base_name plain (sender_names 0) ≡ name_b
unfolding base_name split_token
base_name_dot = refl

pub base_name-plain : base_name plain (67 ∷ []) ≡ 67 ∷ []
unfolding base_name split_token
base_name-plain = refl
