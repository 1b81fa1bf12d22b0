-- ===== src/Ws/Driver.antt =====
-- src/adapters/ws/ws_driver.rs: the handlers of src/adapters/tcp/tcp_driver.rs with the resources of the
-- WebSocket adapter, and `process_connect`, which is its own. Listeners and the crate `url` are
-- parameters.
pub mod Safe
mod Tests
use message_io.Prelude.{ℕ, Bool, Option, none, some, List, [], ◌∷◌, ◌++◌}
use message_io.Network.ResourceId.{ResourceId, ResourceIdGenerator}
use message_io.Network.Messages.{
  SocketAddr, Endpoint, NetEvent, SendStatus, IoResult, ok, err, RemoteAddr, socket, str,
  ConnectConfig, ListenConfig, Call,
}
use message_io.Network.Adapter.{Local, ConnectionInfo, accept_loop}
use message_io.Network.TcpDriver as Tcp
use message_io.Network.TcpDriver.{TcpDriver, RemoteRegister}
use message_io.Network.TcpDriver.Handlers as Handlers
use message_io.Network.TcpDriver.Handlers.{post_connect_register}
use message_io.Ws.Adapter.{
  RemoteResource, WsSystem, WsWorld, set_state, handshake, connect, accept, ws_remote,
}

pub record LocalResource (K : Type 0) : Type 0 where
  pub listener : ℕ
  pub keepalive_opt : Option K

pub record WsAcceptPayload (K : Type 0) : Type 0 where
  pub keepalive_opt : Option K

pub record WsConnectPayload (U K : Type 0) : Type 0 where
  pub url : U
  pub keepalive_opt : Option K

-- Sockets: making a listener or a connection, what a listener answers, and its address.
pub record Sockets (S K : Type 0) : Type 0 where
  pub bind_listener : S → ListenConfig K → SocketAddr → S × IoResult (ℕ × SocketAddr)
  pub connect_with : S → ConnectConfig K → SocketAddr → S × IoResult (ConnectionInfo K)
  pub accepts : S → ℕ → S × List (IoResult (ℕ × SocketAddr))
  pub local_addr : ℕ → SocketAddr

abbrev pub WsDriver : Type 0 → Type 0 → Type 0
WsDriver U K =
    TcpDriver (RemoteResource K) (LocalResource K) K (WsAcceptPayload K) (WsConnectPayload U K)

pub data Scheme : Type 0 where
  ws wss other : Scheme

-- The crate `url`, and the text of an address. `socket_addrs` takes the default port.
pub record UrlCrate (U : Type 0) : Type 0 where
  pub parse : List ℕ → Option U
  pub scheme : U → Scheme
  pub socket_addrs : U → Option ℕ → Option (List SocketAddr)
  pub show_addr : SocketAddr → List ℕ

unfoldable pub default_port : Scheme → Option ℕ
default_port ws = some 80
default_port wss = some 443
default_port other = none

abbrev pub url_prefix : List ℕ
url_prefix = 119 ∷ 115 ∷ 58 ∷ 47 ∷ 47 ∷ []  -- "ws://"

abbrev pub default_path : List ℕ  -- "/message-io-default"
default_path =
    47 ∷ 109 ∷ 101 ∷ 115 ∷ 115 ∷ 97 ∷ 103 ∷ 101 ∷ 45 ∷ 105 ∷ 111 ∷ 45 ∷ 100 ∷ 101 ∷ 102 ∷ 97 ∷ 117
    ∷ 108 ∷ 116 ∷ []

module _ {U : Type 0} (urls : UrlCrate U) where
  -- The address and the url of `process_connect`; `none` where `unwrap`, `expect` or the index panic.
  unfoldable pub target : RemoteAddr → Option (SocketAddr × U)
  target (socket addr) = elim (urls.parse (url_prefix ++ urls.show_addr addr ++ default_path)) [
    | none ↦ none
    | some url ↦ some (addr, url)
  ]
  target (str path) = elim (urls.parse path) [
    | none ↦ none
    | some url ↦ elim (urls.socket_addrs url (default_port (urls.scheme url))) [
      | none ↦ none
      | some addrs ↦ elim addrs [ [] ↦ none | addr ∷ _ ↦ some (addr, url) ]
    ]
  ]

module _ {S U K : Type 0} (sockets : Sockets S K) where
  -- `impl Local for LocalResource`; `send_to` is the trait's, which panics.
  abbrev pub ws_local : Local (WsWorld S U) (LocalResource K) K (WsAcceptPayload K)
  ws_local = record {
    source = λ l. l.listener;
    listen_with = λ w config addr.
        let (s, answer) = sockets.bind_listener w.system config addr in
        (
          record w { system = s },
          elim answer as (λ _. IoResult (LocalResource K × SocketAddr)) [
            | ok (listener, local_addr) ↦
                ok
                  (record { listener = listener; keepalive_opt = config.keepalive_opt }, local_addr)
            | err kind ↦ err kind
          ],
        );
    accept = λ w l.
        let (s, answers) = sockets.accepts w.system l.listener in
        (record w { system = s }, accept_loop (record { keepalive_opt = l.keepalive_opt }) answers);
    send_to = λ w l addr bytes. none;
    local_addr = λ l. sockets.local_addr l.listener;
  }

module _ {S U K : Type 0} where
  -- The resources of accepted connections and of those that were asked for.
  unfoldable pub accepted_resource :
      WsWorld S U → ℕ → WsAcceptPayload K → WsWorld S U × RemoteResource K
  accepted_resource w stream payload = (
    set_state w stream (handshake (some (accept stream))),
    record { state = stream; keepalive_opt = payload.keepalive_opt },
  )

  unfoldable pub connected_resource :
      WsWorld S U → ℕ → WsConnectPayload U K → WsWorld S U × RemoteResource K
  connected_resource w stream payload = (
    set_state w stream (handshake (some (connect payload.url stream))),
    record { state = stream; keepalive_opt = payload.keepalive_opt },
  )

module _ {S U K : Type 0} (bound : ℕ) (sys : WsSystem S U) (sockets : Sockets S K) where
  unfoldable pub resolve_pending_remote :
      WsWorld S U
      → WsDriver U K
      → RemoteRegister (RemoteResource K)
      → Endpoint
      → WsWorld S U × WsDriver U K × RemoteRegister (RemoteResource K) × List NetEvent
  resolve_pending_remote = Tcp.resolve_pending_remote (ws_remote bound sys) (ws_local sockets)

  unfoldable pub write_to_remote :
      WsWorld S U
      → WsDriver U K
      → RemoteRegister (RemoteResource K)
      → Endpoint
      → WsWorld S U × WsDriver U K × List NetEvent
  write_to_remote = Tcp.write_to_remote (ws_remote bound sys) (ws_local sockets)

  unfoldable pub read_from_remote :
      WsWorld S U
      → WsDriver U K
      → RemoteRegister (RemoteResource K)
      → Endpoint
      → WsWorld S U × WsDriver U K × List NetEvent
  read_from_remote = Tcp.read_from_remote (ws_remote bound sys) (ws_local sockets)

  unfoldable pub read_from_local :
      WsWorld S U
      → WsDriver U K
      → LocalResource K
      → ResourceId
      → WsWorld S U × WsDriver U K × List NetEvent
  read_from_local = Tcp.read_from_local (ws_remote bound sys) (ws_local sockets)

  unfoldable pub process_read :
      WsWorld S U → WsDriver U K → ResourceId → WsWorld S U × WsDriver U K × List NetEvent
  process_read = Tcp.process_read (ws_remote bound sys) (ws_local sockets)

  unfoldable pub process_write :
      WsWorld S U → WsDriver U K → ResourceId → WsWorld S U × WsDriver U K × List NetEvent
  process_write = Tcp.process_write (ws_remote bound sys) (ws_local sockets)

  unfoldable pub process_accept_register_remote :
      WsWorld S U
      → WsDriver U K
      → ResourceId × SocketAddr
      → ResourceId × SocketAddr
      → ℕ
      → WsAcceptPayload K
      → ℕ
      → WsWorld S U × WsDriver U K × List Call
  process_accept_register_remote =
      Handlers.process_accept_register_remote (ws_remote bound sys) (ws_local sockets)
        accepted_resource

  unfoldable pub process_connect_register_remote :
      WsWorld S U
      → WsDriver U K
      → SocketAddr
      → ResourceId × SocketAddr
      → ℕ
      → WsConnectPayload U K
      → ℕ
      → WsWorld S U × WsDriver U K × List Call
  process_connect_register_remote =
      Handlers.process_connect_register_remote (ws_remote bound sys) (ws_local sockets)
        connected_resource

  unfoldable pub process_listen :
      WsWorld S U
      → WsDriver U K
      → ListenConfig K
      → ResourceId
      → SocketAddr
      → ℕ
      → WsWorld S U × WsDriver U K × List Call
  process_listen = Handlers.process_listen (ws_remote bound sys) (ws_local sockets)

  -- After an error the callback is dropped.
  unfoldable pub process_connect :
      UrlCrate U
      → WsWorld S U
      → WsDriver U K
      → ConnectConfig K
      → ResourceId
      → RemoteAddr
      → ℕ
      → Option (WsWorld S U × WsDriver U K × List Call)
  process_connect urls w d config remote_id raddr callback = elim (target urls raddr) [
    | none ↦ none
    | some (peer_addr, url) ↦
        let (s, answer) = sockets.connect_with w.system config peer_addr in
        elim answer [
          | ok info ↦ some (
            record w { system = s },
            post_connect_register d remote_id info.local_addr info.peer_addr info.stream
                (record { url = url; keepalive_opt = info.keepalive_opt }) callback,
            [],
          )
          | err kind ↦ some (record w { system = s }, d, [])
        ]
  ]

  unfoldable pub process_send :
      WsWorld S U → WsDriver U K → Endpoint → List ℕ → Option (WsWorld S U × SendStatus)
  process_send = Handlers.process_send (ws_remote bound sys) (ws_local sockets)

  unfoldable pub process_close : WsDriver U K → ResourceId → WsDriver U K × Bool
  process_close = Handlers.process_close (ws_remote bound sys) (ws_local sockets)

  unfoldable pub process_is_ready : WsDriver U K → ResourceId → Option Bool
  process_is_ready = Handlers.process_is_ready (ws_remote bound sys) (ws_local sockets)

unfoldable pub new_driver : {U K : Type 0} → ResourceIdGenerator → WsDriver U K
new_driver rgen = Tcp.new_driver rgen
