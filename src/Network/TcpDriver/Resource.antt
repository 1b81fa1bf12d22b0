-- ===== src/Network/TcpDriver/Resource.antt =====
-- What the TCP adapter of src/adapters/tcp puts for the parameters of the driver, and the handler of
-- `Connect`, which is its own.
use message_io.Prelude.{ℕ, Option, none, some, List, []}
use message_io.Network.ResourceId.{ResourceId}
use message_io.Network.Messages.{
  SocketAddr, IoResult, ok, err, RemoteAddr, socket_addr, ConnectConfig, Call,
}
use message_io.Network.Adapter.{ConnectionInfo}
use message_io.Network.TcpDriver.{TcpDriver}
use message_io.Network.TcpDriver.Handlers.{post_connect_register}

-- The payloads are keepalives.
pub record RemoteResource (K : Type 0) : Type 0 where
  pub stream : ℕ
  pub keepalive_opt : Option K

pub record LocalResource (K : Type 0) : Type 0 where
  pub listener : ℕ
  pub keepalive_opt : Option K

module _ {K : Type 0} where
  -- `Resource::source`.
  abbrev pub remote_source : RemoteResource K → ℕ
  remote_source r = r.stream

  abbrev pub local_source : LocalResource K → ℕ
  local_source l = l.listener

  abbrev pub tcp_resource : {W : Type 0} → W → ℕ → Option K → W × RemoteResource K
  tcp_resource w stream keepalive_opt =
      (w, record { stream = stream; keepalive_opt = keepalive_opt })

  -- `none` where `socket_addr` panics. The callback goes with the command that is posted; after an
  -- error there is none.
  unfoldable pub process_connect :
      {W R L A : Type 0}
      → (W → ConnectConfig K → SocketAddr → W × IoResult (ConnectionInfo K))
      → W
      → TcpDriver R L K A (Option K)
      → ConnectConfig K
      → ResourceId
      → RemoteAddr
      → ℕ
      → Option (W × TcpDriver R L K A (Option K) × List Call)
  process_connect connect_with w d config remote_id raddr callback = elim (socket_addr raddr) [
    | none ↦ none
    | some peer_addr ↦
        let (w', answer) = connect_with w config peer_addr in
        elim answer [
          | ok info ↦ some (
            w',
            post_connect_register d remote_id info.local_addr info.peer_addr info.stream
                info.keepalive_opt callback,
            [],
          )
          | err kind ↦ some (w', d, [])
        ]
  ]
