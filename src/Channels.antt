-- ===== src/Channels.antt =====
-- What the modelled code takes from EPICS channel access, which is not in the repository: the text
-- of a field type, two constants of its headers, and what it answers for a channel.
use Prim.Native.String.{String}
use marte2hieratika.Base.{ℕ, Bool, codes, ◌==◌}
use marte2hieratika.Marte.{Text, StringHelper}

pub record ChannelAccess : Type 0 where
  -- `dbf_type_to_text`.
  pub type_to_text : ℕ → Text
  -- `DBF_DOUBLE` and `MAX_STRING_SIZE`.
  pub dbf_double : ℕ
  pub max_string_size : ℕ

-- The answers for one channel: whether `ca_create_channel` returns `ECA_NORMAL`, and what
-- `ca_state`, `ca_element_count` and `ca_field_type` return.
pub record Channel : Type 0 where
  pub created : Bool
  pub state : ℕ
  pub element_count : ℕ
  pub field_type : ℕ

-- `StringHelper::Compare(dbf_type_to_text(type), name) == 0`.
unfoldable pub is_named : StringHelper → ChannelAccess → ℕ → String → Bool
is_named s ca field_type name = s.compare (ca.type_to_text field_type) (codes name) == 0
