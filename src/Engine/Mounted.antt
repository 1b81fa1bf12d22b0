-- ===== src/Engine/Mounted.antt =====
-- The threads of a node with the TCP, TLS and WebSocket drivers (`create_multiplexor_worker` of
-- src/network.rs): the processors that its list of drivers is called through. `S` is the state of the
-- system, in which each adapter has its part.
use message_io.Prelude.{ℕ, Bool, true, false, Option, none, some, List}
use message_io.Network.Messages.{SocketAddr, IoResult, ConnectConfig}
use message_io.Network.Adapter.{Remote, Local, ConnectionInfo}
use message_io.Network.Worker.{EventProcessor, bind}
use message_io.Network.Loader.{Slot, slot_processor}
use message_io.Network.TcpDriver.{TcpDriver}
use message_io.Network.TcpDriver.Handlers.{process_connect_register_remote}
use message_io.Network.TcpDriver.Processor.{driver_processor}
use message_io.Network.TcpDriver.Resource.{
  RemoteResource, LocalResource, tcp_resource, process_connect,
}
use message_io.Ssl.Adapter.{SslSystem, SslWorld, ssl_remote}
use message_io.Ssl.Driver as Ssl
use message_io.Ssl.Driver.{SslDriver, SslAcceptPayload, SslConnectPayload, Names, ssl_local}
use message_io.Ssl.Driver.Handlers as SslHandlers
use message_io.Ws.Adapter.{WsSystem, WsWorld, ws_remote}
use message_io.Ws.Driver as Ws
use message_io.Ws.Driver.{WsDriver, WsAcceptPayload, WsConnectPayload, UrlCrate, ws_local}
use message_io.Engine.{Shared, Part, share}
use message_io.Engine.Drivers.{AnyOf, tcp_boxed, ssl_boxed, ws_boxed, any_processor}

module _ {W P : Type 0} (panicked : W → Bool) where
  -- A call that leaves the flag of a panic is a panic.
  unfoldable pub unless_panicked : {O : Type 0} → W × P × List O → Option (W × P × List O)
  unless_panicked (w, p, os) = elim (panicked w) [ true ↦ none | false ↦ some (w, p, os) ]

  unfoldable pub checked : {K A C : Type 0} → EventProcessor W P K A C → EventProcessor W P K A C
  checked p = record {
    process_read = λ w d i. bind (p.process_read w d i) unless_panicked;
    process_write = λ w d i. bind (p.process_write w d i) unless_panicked;
    process_accept_register_remote = λ w d l r stream payload.
        bind (p.process_accept_register_remote w d l r stream payload) unless_panicked;
    process_connect_register_remote = λ w d l r stream payload cb.
        bind (p.process_connect_register_remote w d l r stream payload cb) unless_panicked;
    process_listen =
        λ w d config i addr cb. bind (p.process_listen w d config i addr cb) unless_panicked;
    process_connect =
        λ w d config i raddr cb. bind (p.process_connect w d config i raddr cb) unless_panicked;
    process_send = λ w d endpoint bytes. bind (p.process_send w d endpoint bytes) unless_panicked;
    process_close = λ w d i. bind (p.process_close w d i) unless_panicked;
    process_is_ready = λ w d i cb. bind (p.process_is_ready w d i cb) unless_panicked;
  }

abbrev pub TcpDriverOf : Type 0 → Type 0
TcpDriverOf K = TcpDriver (RemoteResource K) (LocalResource K) K (Option K) (Option K)

unfoldable pub tcp_processor :
    {W K : Type 0}
    → Remote W (RemoteResource K)
    → Local W (LocalResource K) K (Option K)
    → (W → ConnectConfig K → SocketAddr → W × IoResult (ConnectionInfo K))
    → EventProcessor W (TcpDriverOf K) K (Option K) (Option K)
tcp_processor os net connect_with =
    driver_processor os net tcp_resource
      (λ w d local_addr remote_pair stream payload cb. some (
        process_connect_register_remote os net tcp_resource w d local_addr remote_pair stream
          payload cb))
      (process_connect connect_with)

unfoldable pub ssl_processor :
    {S Q G E K N U : Type 0}
    → ℕ
    → SslSystem S Q G E K
    → Ssl.Sockets S G K
    → Names S N U
    → EventProcessor (SslWorld S Q G) (SslDriver G K) K (SslAcceptPayload G K) (SslConnectPayload K)
ssl_processor bound sys sockets names =
    checked (λ w. w.panicked)
      (driver_processor (ssl_remote bound sys) (ssl_local sockets) (Ssl.accepted_resource sys)
        (SslHandlers.process_connect_register_remote bound sys sockets names)
        (SslHandlers.process_connect sockets names))

unfoldable pub ws_processor :
    {S U K : Type 0}
    → ℕ
    → WsSystem S U
    → Ws.Sockets S K
    → UrlCrate U
    → EventProcessor (WsWorld S U) (WsDriver U K) K (WsAcceptPayload K) (WsConnectPayload U K)
ws_processor bound sys sockets urls =
    checked (λ w. w.panicked)
      (driver_processor (ws_remote bound sys) (ws_local sockets) Ws.accepted_resource
        (λ w d local_addr remote_pair stream payload cb. some (
          Ws.process_connect_register_remote bound sys sockets w d local_addr remote_pair stream
            payload cb))
        (Ws.process_connect bound sys sockets urls))

-- The processor of every slot of a thread.
unfoldable pub node_processor :
    {S W1 W2 W3 R1 L1 X1 Y1 R2 L2 X2 Y2 R3 L3 X3 Y3 K : Type 0}
    → Part S W1
    → Part S W2
    → Part S W3
    → EventProcessor W1 (TcpDriver R1 L1 K X1 Y1) K X1 Y1
    → EventProcessor W2 (TcpDriver R2 L2 K X2 Y2) K X2 Y2
    → EventProcessor W3 (TcpDriver R3 L3 K X3 Y3) K X3 Y3
    → EventProcessor
        (Shared S K (AnyOf X1 X2 X3) (AnyOf Y1 Y2 Y3))
        (Slot (AnyOf (TcpDriver R1 L1 K X1 Y1) (TcpDriver R2 L2 K X2 Y2) (TcpDriver R3 L3 K X3 Y3)))
        K
        (AnyOf X1 X2 X3)
        (AnyOf Y1 Y2 Y3)
node_processor tcp_part ssl_part ws_part p q r = slot_processor (
    any_processor (share tcp_part tcp_boxed tcp_boxed p) (share ssl_part ssl_boxed ssl_boxed q)
      (share ws_part ws_boxed ws_boxed r))
