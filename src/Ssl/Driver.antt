-- ===== src/Ssl/Driver.antt =====
-- The driver of src/adapters/ssl/ssl_driver.rs, with what it takes of the TLS adapter: resources,
-- payloads and listeners, and what it makes of new connections.
pub mod Handlers
pub mod Early
use message_io.Prelude.{ℕ, Bool, true, false, Option, none, some, List, []}
use message_io.Network.ResourceId.{ResourceId, ResourceIdGenerator}
use message_io.Network.Messages.{
  SocketAddr, Endpoint, NetEvent, SendStatus, ErrorKind, other_kind, IoResult, ok, err, RemoteAddr,
  socket, str, is_string, socket_addr, ConnectConfig, ListenConfig, Call,
}
use message_io.Network.Adapter.{Local, ConnectionInfo, accept_loop}
use message_io.Network.TcpDriver as Tcp
use message_io.Network.TcpDriver.{TcpDriver, RemoteRegister}
use message_io.Network.TcpDriver.Handlers.{post_connect_register}
use message_io.Ssl.Adapter.{
  SslStream, stream_acceptor, client_connection, RemoteResource, SslSystem, SslWorld, set_stream,
  set_system, ssl_remote,
}

pub record LocalResource (G K : Type 0) : Type 0 where
  pub listener : ℕ
  pub keepalive_opt : Option K
  pub server_config : G

pub record SslAcceptPayload (G K : Type 0) : Type 0 where
  pub keepalive_opt : Option K
  pub server_config : G

pub record SslConnectPayload (K : Type 0) : Type 0 where
  pub keepalive_opt : Option K
  pub domain_opt : Option (List ℕ)

-- Sockets and the certificate files. `create_server_config` is `none` where it panics.
pub record Sockets (S G K : Type 0) : Type 0 where
  pub bind_listener : S → ListenConfig K → SocketAddr → S × IoResult (ℕ × SocketAddr)
  pub connect_socket : S → ConnectConfig K → SocketAddr → S × IoResult (ConnectionInfo K)
  pub accepts : S → ℕ → S × List (IoResult (ℕ × SocketAddr))
  pub local_addr : ℕ → SocketAddr
  pub create_server_config : List ℕ → List ℕ → Option G

-- `ServerName` and `ClientConnection` of rustls, and `Uri` of the crate `http` with the text of an
-- address. `new_client` says whether a client connection could be made on the socket.
pub record Names (S N U : Type 0) : Type 0 where
  pub server_name : List ℕ → Option N
  pub new_client : S → N → ℕ → S × Bool
  pub parse_uri : List ℕ → Option U
  pub host : U → Option (List ℕ)
  pub show_addr : SocketAddr → List ℕ

-- `io::ErrorKind::NotFound`.
abbrev pub not_found : ErrorKind
not_found = other_kind 1

abbrev pub SslDriver : Type 0 → Type 0 → Type 0
SslDriver G K =
    TcpDriver (RemoteResource K) (LocalResource G K) K (SslAcceptPayload G K) (SslConnectPayload K)

module _ {S Q G K : Type 0} (sockets : Sockets S G K) where
  -- The listener is bound before the files are read, whose faults panic.
  unfoldable pub ssl_listen :
      SslWorld S Q G
      → ListenConfig K
      → SocketAddr
      → SslWorld S Q G × IoResult (LocalResource G K × SocketAddr)
  ssl_listen w config addr =
      let (s, answer) = sockets.bind_listener w.system config addr in
      let w' = set_system w s in
      elim answer [
        | ok (listener, local_addr) ↦
            elim (sockets.create_server_config config.cert_path config.pri_key_path) [
              | none ↦ (record w' { panicked = true }, err not_found)
              | some server_config ↦
                  let l : LocalResource G K = record {
                    listener = listener;
                    keepalive_opt = config.keepalive_opt;
                    server_config = server_config;
                  } in
                  (w', ok (l, local_addr))
            ]
        | err kind ↦ (w', err kind)
      ]

  -- `impl Local for LocalResource`; `send_to` is the trait's, which panics.
  abbrev pub ssl_local : Local (SslWorld S Q G) (LocalResource G K) K (SslAcceptPayload G K)
  ssl_local = record {
    source = λ l. l.listener;
    listen_with = ssl_listen;
    accept = λ w l.
        let (s, answers) = sockets.accepts w.system l.listener in
        (
          set_system w s,
          accept_loop (record { keepalive_opt = l.keepalive_opt; server_config = l.server_config })
              answers,
        );
    send_to = λ w l addr bytes. none;
    local_addr = λ l. sockets.local_addr l.listener;
  }

-- `ssl_remote_connect_with`: the connection with the host of the uri.
unfoldable pub ssl_remote_connect_with :
    {S G K N U : Type 0}
    → Sockets S G K
    → Names S N U
    → S
    → ConnectConfig K
    → SocketAddr
    → U
    → S × IoResult (ConnectionInfo K × Option (List ℕ))
ssl_remote_connect_with sockets names s config peer_addr uri =
    let (s', answer) = sockets.connect_socket s config peer_addr in
    elim answer [
      | err kind ↦ (s', err kind)
      | ok info ↦ elim (names.host uri) [
        | none ↦ (s', err not_found)
        | some domain ↦ (s', ok (info, some domain))
      ]
    ]

-- `wrap_stream` of ssl_connector.rs, without a connector; `none` is its error.
unfoldable pub wrap_client :
    {S N U Q G : Type 0} → Names S N U → S → ℕ → List ℕ → S × Option (SslStream Q G)
wrap_client names s stream domain = elim (names.server_name domain) [
  | none ↦ (s, none)
  | some name ↦
      let (s', fine) = names.new_client s name stream in
      (s', elim fine [ true ↦ some (client_connection stream) | false ↦ none ])
]

module _ {S Q G E K : Type 0} (sys : SslSystem S Q G E K) where
  unfoldable pub accepted_resource :
      SslWorld S Q G → ℕ → SslAcceptPayload G K → SslWorld S Q G × RemoteResource K
  accepted_resource w stream payload = (
    set_stream w stream
        (stream_acceptor (some stream) (some sys.new_acceptor) payload.server_config),
    record { stream = stream; keepalive_opt = payload.keepalive_opt },
  )

-- The resource of a wrapped stream.
unfoldable pub connected_resource :
    {S Q G K : Type 0}
    → SslStream Q G
    → SslWorld S Q G
    → ℕ
    → SslConnectPayload K
    → SslWorld S Q G × RemoteResource K
connected_resource wrapped w stream payload =
    (set_stream w stream wrapped, record { stream = stream; keepalive_opt = payload.keepalive_opt })

unfoldable pub new_driver : {G K : Type 0} → ResourceIdGenerator → SslDriver G K
new_driver rgen = Tcp.new_driver rgen
