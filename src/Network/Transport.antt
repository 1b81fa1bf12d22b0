-- ===== src/Network/Transport.antt =====
-- src/network/transport.rs with the features `tcp`, `ssl` and `websocket` on. A panic is `none`.
use message_io.Prelude.{
  ℕ, ◌*◌, ◌-◌, ◌^◌, ◌≤◌, ◌≡◌, ◌≢◌, ◌↔◌, refl, arith, Bool, true, false, Option, none, some, ◌==◌,
  if◌then◌else◌,
}
use message_io.Network.ResourceId.{max_adapter_id}

pub data Transport : Type 0 where
  tcp ssl ws : Transport

-- `ws_adapter::MAX_PAYLOAD_LEN`, 32 << 20.
abbrev pub max_payload_len : ℕ
max_payload_len = 32 * 2 ^ 20

pub max_message_size : Transport → ℕ
max_message_size tcp = 2 ^ 64 - 1
max_message_size ssl = 2 ^ 64 - 1
max_message_size ws = max_payload_len

pub is_connection_oriented : Transport → Bool
is_connection_oriented tcp = true
is_connection_oriented ssl = true
is_connection_oriented ws = true

pub is_packet_based : Transport → Bool
is_packet_based tcp = false
is_packet_based ssl = true
is_packet_based ws = true

unfoldable pub id : Transport → ℕ
id tcp = 0
id ssl = 2
id ws = 3

-- `From<u8> for Transport`: the arm of `Ws` is commented out.
pub from_u8 : ℕ → Option Transport
from_u8 n = if n == 0 then some tcp else if n == 2 then some ssl else none

-- Reading back the id of a transport succeeds, with that transport, exactly when it is not `Ws`;
-- the id of `Ws` panics. Every id is a valid adapter id.
pub from_u8-id :
    (t : Transport)
    → ((from_u8 (id t) ≡ some t) ↔ (t ≢ ws)) × (from_u8 (id ws) ≡ none) × (id t ≤ max_adapter_id)
unfolding from_u8 id
from_u8-id tcp = ((λ _ e. cc, λ _. refl), refl, omega arith)
from_u8-id ssl = ((λ _ e. cc, λ _. refl), refl, omega arith)
from_u8-id ws = ((λ e _. cc, λ h. absurd (h refl)), refl, omega arith)
