-- ===== src/Network/ResourceId.antt =====
-- src/network/resource_id.rs, and the conversions between ids and poll tokens of
-- src/network/poll.rs. `usize` is 64 bits wide, as the masks of the source suppose.
pub mod Fields
pub mod Generator
use message_io.Prelude.{
  ℕ, zero, suc, ◌+◌, ◌-◌, ◌*◌, ◌/◌, ◌%◌, ◌^◌, bit_and, bit_or, Bool, true, false, not, List, [],
  ◌∷◌, ◌==◌, if◌then◌else◌,
}

pub data ResourceType : Type 0 where
  local remote : ResourceType

abbrev pub reserved_bytes_pos : ℕ
reserved_bytes_pos = 56

abbrev pub reserved_bytes_mask : ℕ
reserved_bytes_mask = 0xFF00_0000_0000_0000

abbrev pub resource_type_pos : ℕ
resource_type_pos = 55

abbrev pub adapter_id_pos : ℕ
adapter_id_pos = 48

abbrev pub base_value_pos : ℕ
base_value_pos = 0

abbrev pub adapter_id_mask : ℕ
adapter_id_mask = 0x007F_0000_0000_0000

abbrev pub base_value_mask : ℕ
base_value_mask = 0x0000_FFFF_FFFF_FFFF

-- The three bounds that the source derives from the masks.
abbrev pub max_base_value : ℕ
max_base_value = base_value_mask / 2 ^ base_value_pos

abbrev pub max_adapter_id : ℕ
max_adapter_id = adapter_id_mask / 2 ^ adapter_id_pos % 2 ^ 8

abbrev pub max_adapters : ℕ
max_adapters = max_adapter_id + 1

pub record ResourceId : Type 0 where
  pub id : ℕ

-- `1 << RESOURCE_TYPE_POS` for a local resource.
abbrev pub type_bit : ResourceType → ℕ
type_bit local = 2 ^ resource_type_pos
type_bit remote = 0

-- `ResourceId::new`. Its two debug assertions are hypotheses of the theorems: a release build
-- computes the same value without them.
unfoldable pub new : ℕ → ResourceType → ℕ → ResourceId
new adapter_id resource_type base_value = record {
  id =
      bit_or (bit_or (type_bit resource_type) (adapter_id * 2 ^ adapter_id_pos % 2 ^ 64))
        (base_value * 2 ^ base_value_pos % 2 ^ 64);
}

unfoldable pub raw : ResourceId → ℕ
raw r = r.id

unfoldable pub resource_type : ResourceId → ResourceType
resource_type r = if not (bit_and r.id (2 ^ resource_type_pos) == 0) then local else remote

abbrev same_type : ResourceType → ResourceType → Bool
same_type local local = true
same_type remote remote = true
same_type _ _ = false

pub is_local : ResourceId → Bool
unfolding resource_type
is_local r = same_type (resource_type r) local

pub is_remote : ResourceId → Bool
unfolding resource_type
is_remote r = same_type (resource_type r) remote

unfoldable pub adapter_id : ResourceId → ℕ
adapter_id r = bit_and r.id adapter_id_mask / 2 ^ adapter_id_pos % 2 ^ 8

pub base_value : ResourceId → ℕ
base_value r = bit_and r.id base_value_mask / 2 ^ base_value_pos

-- `!RESERVED_BYTES_MASK` on 64 bits.
abbrev pub not_reserved : ℕ
not_reserved = 2 ^ 64 - 1 - reserved_bytes_mask

-- `From<Token> for ResourceId` and `From<ResourceId> for Token`; a token is its number.
pub from_token : ℕ → ResourceId
from_token token = record { id = bit_and token not_reserved }

pub to_token : ResourceId → ℕ
to_token r = bit_or (bit_and r.id not_reserved) (0x55 * 2 ^ reserved_bytes_pos % 2 ^ 64)

-- `ResourceIdGenerator`; `last` is the atomic counter, and `fetch_add` wraps.
pub record ResourceIdGenerator : Type 0 where
  pub last : ℕ
  pub kind : ResourceType

unfoldable pub new_generator : ResourceType → ResourceIdGenerator
new_generator k = record { last = 1; kind = k }

unfoldable pub generate : ResourceIdGenerator → ℕ → ResourceIdGenerator × ResourceId
generate g adapter = (record g { last = (g.last + 1) % 2 ^ 64 }, new adapter g.kind g.last)

-- A run of calls, in the order in which the atomic additions happen.
unfoldable pub generate_all : ResourceIdGenerator → List ℕ → List ResourceId
unfolding generate
generate_all g [] = []
generate_all g (a ∷ as') = (generate g a).1 ∷ generate_all (generate g a).0 as'
