-- ===== src/Receiver/Connect.antt =====
-- The first part of `DiodeReceiverCycleLoop` in DiodeReceiver.cpp: each thread asks channel access
-- for the type and the size of its variables.
use marte2hieratika.Base.{ℕ, ◌==◌, ltb, if◌then◌else◌, mul32}
use marte2hieratika.Marte.{StringHelper}
use marte2hieratika.Channels.{is_named, ChannelAccess, Channel}
use marte2hieratika.Receiver.{PvRecDescriptor}

-- The id of `voidAnyType`, which is not in the table `descriptors`.
abbrev pub void_any_type : ℕ
void_any_type = 11

module _ (s : StringHelper) (ca : ChannelAccess) where
  open ca use {dbf_double, max_string_size}

  abbrev pub typed : PvRecDescriptor → ℕ → ℕ → PvRecDescriptor
  typed pv size at = record pv { total_size = mul32 size pv.number_of_elements; at = at }

  -- The chain of comparisons with the text of the field type.
  unfoldable pub set_type : PvRecDescriptor → PvRecDescriptor
  set_type pv =
      let named = is_named s ca pv.pv_type in
      if named "DBF_DOUBLE"
      then typed pv 8 9
      else if named "DBF_FLOAT"
      then typed pv 4 8
      else if named "DBF_LONG"
      then typed pv 4 4
      else if named "DBF_ULONG"
      then typed pv 4 5
      else if named "DBF_SHORT"
      then typed pv 2 2
      else if named "DBF_USHORT"
      then typed pv 2 3
      else if named "DBF_CHAR"
      then typed pv 1 0
      else if named "DBF_UCHAR"
      then typed pv 1 1
      else if named "DBF_STRING"
      then typed pv max_string_size 10
      else record (typed pv 8 9) { pv_type = dbf_double }

  -- `cainfo`: a channel that is not connected has no elements.
  unfoldable pub cainfo : PvRecDescriptor → Channel → PvRecDescriptor
  cainfo pv ch = record pv {
    pv_type = ch.field_type;
    number_of_elements = if ch.state == 2 then ch.element_count else 0;
  }

  -- One round of the loop over the variables of the thread.
  unfoldable pub connect : ℕ → PvRecDescriptor → Channel → PvRecDescriptor
  unfolding cainfo
  connect max_array_size pv ch =
      let known = record (cainfo pv ch) { total_size = 0; at = void_any_type } in
      let kept =
        (if ltb max_array_size known.number_of_elements
          then record known { number_of_elements = 0 }
          else known) in
      if ch.created then (if ltb 0 kept.number_of_elements then set_type kept else kept) else pv
