-- ===== src/Subscriber/Connect.antt =====
-- `cainfo` in EpicsParserAndSubscriber.cpp: what channel access tells of a variable.
pub mod Agree
use marte2hieratika.Base.{ℕ, ◌==◌, if◌then◌else◌, codes}
use marte2hieratika.Marte.{StringHelper}
use marte2hieratika.Channels.{is_named, ChannelAccess, Channel}
use marte2hieratika.Subscriber.{PvDescriptor}

module _ (s : StringHelper) (ca : ChannelAccess) where
  open ca use {dbf_double, max_string_size}

  abbrev pub typed : PvDescriptor → ℕ → ℕ → PvDescriptor
  typed pv size id = record pv { memory_size = size; type_id = id }

  -- The chain of comparisons with the text of the field type.
  unfoldable pub set_type : PvDescriptor → ℕ → PvDescriptor
  set_type pv dbf_type =
      let named = is_named s ca dbf_type in
      if named "DBF_DOUBLE"
      then typed pv 8 9
      else if named "DBF_FLOAT"
      then typed pv 4 8
      else if named "DBF_LONG"
      then typed pv 4 4
      else if named "DBF_ULONG"
      then typed pv 4 5
      else if named "DBF_SHORT"
      then typed pv 2 2
      else if named "DBF_USHORT"
      then typed pv 2 3
      else if named "DBF_CHAR"
      then typed pv 1 0
      else if named "DBF_UCHAR"
      then typed pv 1 1
      else if named "DBF_STRING"
      then typed pv max_string_size 10
      else record (typed pv 8 9) { pv_type = dbf_double }

  unfoldable pub cainfo : PvDescriptor → Channel → PvDescriptor
  cainfo pv ch =
      set_type
        (record pv {
          number_of_elements = if ch.state == 2 then ch.element_count else 0;
          pv_type = ch.field_type;
        })
        ch.field_type
