-- ===== src/Receiver/Store/Layout.antt =====
-- The shape of a started DiodeReceiver: where each variable lies in the buffers.
use marte2hieratika.Base.{map, ℕ, ◌+◌, ◌≤◌, ◌<◌, ◌≡◌, ◌⊎◌, List, [], length, get_or}
use marte2hieratika.Marte.{Text, StringHelper}
use marte2hieratika.Receiver.Directory.Search.{Ascending}
use marte2hieratika.Receiver.Message.{base_name}
use marte2hieratika.Receiver.{PvRecDescriptor, Receiver, no_pv, index_init_id, index_not_found_id}

abbrev pub pv_at : Receiver → ℕ → PvRecDescriptor
pv_at r i = get_or r.pvs i no_pv

-- The end of the region of a variable: its value and the eight bytes of its timestamp.
abbrev pub region_end : PvRecDescriptor → ℕ
region_end pv = pv.offset + pv.total_size + 8

pub record IsLaid (r : Receiver) : Type 0 where
  pub count : length r.pvs ≡ r.number_of_variables
  pub few : r.number_of_variables < index_not_found_id
  pub inside : (i : ℕ) → i < r.number_of_variables → region_end (pv_at r i) ≤ length r.memory
  pub apart :
      (i j : ℕ) → i < j → j < r.number_of_variables → region_end (pv_at r i) ≤ (pv_at r j).offset
  pub prec_size : length r.memory_prec ≡ length r.memory
  pub flags_size : length r.change_flag ≡ r.number_of_variables
  pub mapping_size : r.number_of_variables ≤ length r.pv_mapping

-- The names of the variables, in their order, and one of them.
abbrev pub names_of : Receiver → List Text
names_of r = map (λ pv. pv.pv_name) r.pvs

-- A receiver that `Start` has set up, for the variables of a sender by their index there.
pub record IsStarted (s : StringHelper) (sender : ℕ → Text) (r : Receiver) : Type 0 where
  pub laid : IsLaid r
  pub sorted : Ascending s (names_of r) r.number_of_variables
  pub mapped :
      (k : ℕ)
      → let entry = get_or r.pv_mapping k index_init_id in
        (entry ≡ index_init_id)
        ⊎ ((entry < r.number_of_variables)
            × (get_or (names_of r) entry [] ≡ base_name s (sender k)))
