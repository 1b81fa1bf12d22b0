-- ===== src/Network/Messages.antt =====
-- The values that the parts of the engine exchange: src/network/endpoint.rs, net_event.rs, driver.rs,
-- remote_addr.rs, waker_command.rs, and the statuses of adapter.rs. A packet of `net_packet` is the
-- list of its readable bytes, a stream of mio the number of its descriptor, a callback a number
-- that names it, and a string the list of its bytes. `K` is `TcpKeepalive` of socket2.
use message_io.Prelude.{ℕ, Bool, true, false, Option, none, some, List}
use message_io.Network.ResourceId.{ResourceId}

-- `std::net::SocketAddr`: the address and the port.
pub data SocketAddr : Type 0 where
  v4 v6 : ℕ → ℕ → SocketAddr

pub record Endpoint : Type 0 where
  pub resource_id : ResourceId
  pub addr : SocketAddr

pub data NetEvent : Type 0 where
  connected : Endpoint → Bool → NetEvent
  accepted : Endpoint → ResourceId → NetEvent
  message : Endpoint → List ℕ → NetEvent
  disconnected : Endpoint → NetEvent

pub data SendStatus : Type 0 where
  sent max_packet_size_exceeded resource_not_found resource_not_available send_abort : SendStatus

pub data ReadStatus : Type 0 where
  disconnected wait_next_event : ReadStatus

pub data PendingStatus : Type 0 where
  ready incomplete disconnected : PendingStatus

-- `io::ErrorKind`: the kinds that the adapters tell apart, and the others by a number.
pub data ErrorKind : Type 0 where
  would_block interrupted connection_reset not_connected invalid_input : ErrorKind
  other_kind : ℕ → ErrorKind

pub data IoResult {ℓ} (A : Type ℓ) : Type ℓ where
  ok : A → IoResult A
  err : ErrorKind → IoResult A

-- `ready` is the atomic flag.
pub record RemoteProperties : Type 0 where
  pub peer_addr : SocketAddr
  pub local : Option ResourceId
  pub ready : Bool

unfoldable pub new_properties : SocketAddr → Option ResourceId → RemoteProperties
new_properties peer local_id = record { peer_addr = peer; local = local_id; ready = false }

unfoldable pub mark_as_ready : RemoteProperties → RemoteProperties
mark_as_ready p = record p { ready = true }

pub record LocalProperties : Type 0 where

-- `RemoteAddr::socket_addr` panics, `none` here, on a string.
pub data RemoteAddr : Type 0 where
  socket : SocketAddr → RemoteAddr
  str : List ℕ → RemoteAddr

unfoldable pub socket_addr : RemoteAddr → Option SocketAddr
socket_addr (socket addr) = some addr
socket_addr (str _) = none

unfoldable pub is_socket_addr : RemoteAddr → Bool
is_socket_addr (socket _) = true
is_socket_addr (str _) = false

-- The source matches the other constructor here.
unfoldable pub is_string : RemoteAddr → Bool
is_string (socket _) = true
is_string (str _) = false

pub record ConnectConfig (K : Type 0) : Type 0 where
  pub bind_device_opt : Option (List ℕ)
  pub source_address_opt : Option SocketAddr
  pub keepalive_opt : Option K

pub record ListenConfig (K : Type 0) : Type 0 where
  pub bind_device_opt : Option (List ℕ)
  pub keepalive_opt : Option K
  pub cert_path : List ℕ
  pub pri_key_path : List ℕ

-- `A` is the payload of the adapter for an accepted connection, `C` that for one that was asked for.
-- The source erases their types.
pub data WakerCommand (K A C : Type 0) : Type 0 where
  greet : List ℕ → WakerCommand K A C
  accept_register_remote :
      ResourceId × SocketAddr → ResourceId × SocketAddr → ℕ → A → WakerCommand K A C
  connect_register_remote : SocketAddr → ResourceId × SocketAddr → ℕ → C → ℕ → WakerCommand K A C
  listen : ListenConfig K → ResourceId → SocketAddr → ℕ → WakerCommand K A C
  connect : ConnectConfig K → ResourceId → RemoteAddr → ℕ → WakerCommand K A C
  send : Endpoint → List ℕ → WakerCommand K A C
  send_sync : Endpoint → List ℕ → ℕ → WakerCommand K A C
  close : ResourceId → WakerCommand K A C
  is_ready : ResourceId → ℕ → WakerCommand K A C
  stop : WakerCommand K A C

-- A call of a callback with its answer.
pub data Call : Type 0 where
  endpoint_answer : ℕ → IoResult (Endpoint × SocketAddr) → Call
  listener_answer : ℕ → IoResult (ResourceId × SocketAddr) → Call
  ready_answer : ℕ → Option Bool → Call
  sent_answer : ℕ → Call
