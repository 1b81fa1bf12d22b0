-- ===== src/Ssl/Driver/Handlers.antt =====
-- src/adapters/ssl/ssl_driver.rs: the handlers of src/adapters/tcp/tcp_driver.rs with the resources
-- of the TLS adapter, and those of `ConnectRegisterRemote` and `Connect`, which are its own. A panic
-- is `none`, or the flag of the world where the handler is shared.
use message_io.Prelude.{ℕ, Bool, true, false, Option, none, some, List, []}
use message_io.Network.ResourceId.{ResourceId}
use message_io.Network.Messages.{
  SocketAddr, Endpoint, NetEvent, SendStatus, ok, err, RemoteAddr, socket, str, is_string,
  socket_addr, ConnectConfig, ListenConfig, Call,
}
use message_io.Network.TcpDriver as Tcp
use message_io.Network.TcpDriver.{TcpDriver, RemoteRegister}
use message_io.Network.TcpDriver.Handlers as Handlers
use message_io.Network.TcpDriver.Handlers.{post_connect_register}
use message_io.Ssl.Adapter.{RemoteResource, SslSystem, SslWorld, set_system, ssl_remote}
use message_io.Ssl.Driver.{
  LocalResource, SslAcceptPayload, SslConnectPayload, Sockets, Names, SslDriver, ssl_local,
  ssl_remote_connect_with, wrap_client, accepted_resource, connected_resource,
}

module _ {S Q G E K : Type 0} (bound : ℕ) (sys : SslSystem S Q G E K)
    (sockets : Sockets S G K) where
  unfoldable pub resolve_pending_remote :
      SslWorld S Q G
      → SslDriver G K
      → RemoteRegister (RemoteResource K)
      → Endpoint
      → SslWorld S Q G × SslDriver G K × RemoteRegister (RemoteResource K) × List NetEvent
  resolve_pending_remote = Tcp.resolve_pending_remote (ssl_remote bound sys) (ssl_local sockets)

  unfoldable pub write_to_remote :
      SslWorld S Q G
      → SslDriver G K
      → RemoteRegister (RemoteResource K)
      → Endpoint
      → SslWorld S Q G × SslDriver G K × List NetEvent
  write_to_remote = Tcp.write_to_remote (ssl_remote bound sys) (ssl_local sockets)

  unfoldable pub read_from_remote :
      SslWorld S Q G
      → SslDriver G K
      → RemoteRegister (RemoteResource K)
      → Endpoint
      → SslWorld S Q G × SslDriver G K × List NetEvent
  read_from_remote = Tcp.read_from_remote (ssl_remote bound sys) (ssl_local sockets)

  unfoldable pub read_from_local :
      SslWorld S Q G
      → SslDriver G K
      → LocalResource G K
      → ResourceId
      → SslWorld S Q G × SslDriver G K × List NetEvent
  read_from_local = Tcp.read_from_local (ssl_remote bound sys) (ssl_local sockets)

  unfoldable pub process_read :
      SslWorld S Q G → SslDriver G K → ResourceId → SslWorld S Q G × SslDriver G K × List NetEvent
  process_read = Tcp.process_read (ssl_remote bound sys) (ssl_local sockets)

  unfoldable pub process_write :
      SslWorld S Q G → SslDriver G K → ResourceId → SslWorld S Q G × SslDriver G K × List NetEvent
  process_write = Tcp.process_write (ssl_remote bound sys) (ssl_local sockets)

  unfoldable pub process_accept_register_remote :
      SslWorld S Q G
      → SslDriver G K
      → ResourceId × SocketAddr
      → ResourceId × SocketAddr
      → ℕ
      → SslAcceptPayload G K
      → ℕ
      → SslWorld S Q G × SslDriver G K × List Call
  process_accept_register_remote =
      Handlers.process_accept_register_remote (ssl_remote bound sys) (ssl_local sockets)
        (accepted_resource sys)

  -- `none` where the domain is missing, or its stream cannot be wrapped.
  unfoldable pub process_connect_register_remote :
      {N U : Type 0}
      → Names S N U
      → SslWorld S Q G
      → SslDriver G K
      → SocketAddr
      → ResourceId × SocketAddr
      → ℕ
      → SslConnectPayload K
      → ℕ
      → Option (SslWorld S Q G × SslDriver G K × List Call)
  process_connect_register_remote names w d local_addr remote_pair stream payload callback =
      elim payload.domain_opt [
        | none ↦ none
        | some domain ↦
            let (s, wrapped_stream) = wrap_client names w.system stream domain in
            elim wrapped_stream [
              | none ↦ none
              | some wrapped ↦ some (
                  Handlers.process_connect_register_remote (ssl_remote bound sys)
                    (ssl_local sockets) (connected_resource wrapped) (set_system w s) d local_addr
                    remote_pair stream payload callback)
            ]
      ]

  unfoldable pub process_listen :
      SslWorld S Q G
      → SslDriver G K
      → ListenConfig K
      → ResourceId
      → SocketAddr
      → ℕ
      → SslWorld S Q G × SslDriver G K × List Call
  process_listen = Handlers.process_listen (ssl_remote bound sys) (ssl_local sockets)

  unfoldable pub process_send :
      SslWorld S Q G → SslDriver G K → Endpoint → List ℕ → Option (SslWorld S Q G × SendStatus)
  process_send = Handlers.process_send (ssl_remote bound sys) (ssl_local sockets)

  unfoldable pub process_close : SslDriver G K → ResourceId → SslDriver G K × Bool
  process_close = Handlers.process_close (ssl_remote bound sys) (ssl_local sockets)

  unfoldable pub process_is_ready : SslDriver G K → ResourceId → Option Bool
  process_is_ready = Handlers.process_is_ready (ssl_remote bound sys) (ssl_local sockets)

-- `Display for RemoteAddr`.
unfoldable pub show_remote_addr : {S N U : Type 0} → Names S N U → RemoteAddr → List ℕ
show_remote_addr names (socket addr) = names.show_addr addr
show_remote_addr names (str text) = text

-- The assertion, the parse and `socket_addr` of `process_connect`; `none` where one panics.
unfoldable pub target : {S N U : Type 0} → Names S N U → RemoteAddr → Option (U × SocketAddr)
target names raddr = elim (is_string raddr) [
  | false ↦ none
  | true ↦ elim (names.parse_uri (show_remote_addr names raddr)) [
    | none ↦ none
    | some uri ↦ elim (socket_addr raddr) [ none ↦ none | some peer_addr ↦ some (uri, peer_addr) ]
  ]
]

module _ {S Q G K N U : Type 0} (sockets : Sockets S G K) (names : Names S N U) where
  -- After an error the callback is dropped.
  unfoldable pub process_connect :
      SslWorld S Q G
      → SslDriver G K
      → ConnectConfig K
      → ResourceId
      → RemoteAddr
      → ℕ
      → Option (SslWorld S Q G × SslDriver G K × List Call)
  process_connect w d config remote_id raddr callback = elim (target names raddr) [
    | none ↦ none
    | some (uri, peer_addr) ↦
        let (s, answer) = ssl_remote_connect_with sockets names w.system config peer_addr uri in
        elim answer [
          | ok (info, domain_opt) ↦ some (
            set_system w s,
            post_connect_register d remote_id info.local_addr info.peer_addr info.stream
                (record { keepalive_opt = info.keepalive_opt; domain_opt = domain_opt }) callback,
            [],
          )
          | err kind ↦ some (set_system w s, d, [])
        ]
  ]
