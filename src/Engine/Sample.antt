-- ===== src/Engine/Sample.antt =====
-- A node for tests: it listens with the TCP driver, accepts a connection whose registration a worker
-- takes, and asks for a connection of its own.
use message_io.Prelude.{ℕ, suc, ◌^◌, ◌+◌, true, false, Option, none, some, List, [], ◌∷◌}
use message_io.Network.ResourceId.{ResourceId, remote, ResourceIdGenerator}
use message_io.Network.Transport.{tcp}
use message_io.Network.Messages.{
  SocketAddr, v4, sent, ReadStatus, PendingStatus, IoResult, ok, err, would_block, ConnectConfig,
  ListenConfig, socket, greet,
}
use message_io.Network.Adapter.{Remote, Local, AcceptedType, ConnectionInfo}
use message_io.Network.Worker.{Output}
use message_io.Network.TcpDriver.Resource.{
  RemoteResource, LocalResource, remote_source, local_source,
}
use message_io.Ssl.Adapter as SslAdapter
use message_io.Ssl.Adapter.{SslSystem, SslWorld}
use message_io.Ssl.Driver as Ssl
use message_io.Ws.Adapter as WsAdapter
use message_io.Ws.Adapter.{WsSystem, WsWorld}
use message_io.Ws.Data as WsData
use message_io.Ws.Driver as Ws
use message_io.Engine.{Part}
use message_io.Engine.Threads.{
  Engine, master, worker, Action, call_listen, call_connect, call_post, take_command, readable,
}
use message_io.Engine.Mounted.{TcpDriverOf, tcp_processor, ssl_processor, ws_processor}
use message_io.Engine.Drivers.{AnyOf}
use message_io.Network.Loader.{Slot}
use message_io.Engine.Whole.{run_node}

-- Each listener has one connection waiting on stream 11, and a connection is ready at once.
abbrev pub os : Remote ℕ (RemoteResource ℕ)
os = record {
  source = remote_source;
  receive = λ w r. (suc w, (1 ∷ 2 ∷ []) ∷ [], ReadStatus.wait_next_event);
  send = λ w r bytes. (suc w, sent);
  pending = λ w r. (w, PendingStatus.ready);
  ready_to_write = λ w r. (w, true);
}

abbrev pub net : Local ℕ (LocalResource ℕ) ℕ (Option ℕ)
net = record {
  source = local_source;
  listen_with = λ w config addr. (w, ok (record { listener = 10; keepalive_opt = none }, v4 0 80));
  accept = λ w l. (w, AcceptedType.remote (v4 1 9000) 11 none ∷ []);
  send_to = λ w l addr bytes. none;
  local_addr = λ l. v4 0 80;
}

abbrev pub connect_with : ℕ → ConnectConfig ℕ → SocketAddr → ℕ × IoResult (ConnectionInfo ℕ)
connect_with w config peer =
    (w, ok (record { stream = 12; local_addr = v4 0 81; peer_addr = peer; keepalive_opt = none }))

-- The other two adapters have nothing to do.
abbrev pub ssl_system : SslSystem ℕ ℕ ℕ ℕ ℕ
ssl_system = record {
  take_error = λ s fd. ok none;
  peer_addr = λ s fd. ok (v4 1 80);
  set_tcp_keepalive = λ s fd k. s;
  new_acceptor = 0;
  read_tls = λ s q fd. (s, q, ok 0);
  accept = λ q. (q, SslAdapter.incomplete);
  into_connection = λ s it config fd. (s, true);
  read = λ s fd. (s, err would_block);
  write = λ s fd bytes. (s, ok 0);
}

abbrev pub ssl_sockets : Ssl.Sockets ℕ ℕ ℕ
ssl_sockets = record {
  bind_listener = λ s config addr. (s, err would_block);
  connect_socket = λ s config addr. (s, err would_block);
  accepts = λ s l. (s, []);
  local_addr = λ l. v4 0 80;
  create_server_config = λ cert key. some 1;
}

abbrev pub names : Ssl.Names ℕ ℕ ℕ
names = record {
  server_name = λ text. none;
  new_client = λ s name fd. (s, true);
  parse_uri = λ text. none;
  host = λ uri. none;
  show_addr = λ addr. [];
}

abbrev pub ws_system : WsSystem ℕ ℕ
ws_system = record {
  take_error = λ s fd. ok none;
  peer_addr = λ s fd. ok (v4 1 80);
  ws_connect = λ s url fd. (s, WsAdapter.done);
  ws_accept = λ s fd. (s, WsAdapter.done);
  client_handshake = λ s fd. (s, WsAdapter.done);
  server_handshake = λ s fd. (s, WsAdapter.done);
  read = λ s fd. (s, WsAdapter.ok (WsData.ping []));
  peek = λ s fd. (s, none);
  send = λ s fd m. (s, WsAdapter.ok tt);
  flush = λ s fd. (s, WsAdapter.ok tt);
}

abbrev pub ws_sockets : Ws.Sockets ℕ ℕ
ws_sockets = record {
  bind_listener = λ s config addr. (s, err would_block);
  connect_with = λ s config addr. (s, err would_block);
  accepts = λ s l. (s, []);
  local_addr = λ l. v4 0 80;
}

abbrev pub urls : Ws.UrlCrate ℕ
urls = record {
  parse = λ text. none;
  scheme = λ url. Ws.Scheme.other;
  socket_addrs = λ url port. none;
  show_addr = λ addr. [];
}

-- The system has a part for each adapter.
abbrev pub System : Type 0
System = ℕ × SslWorld ℕ ℕ ℕ × WsWorld ℕ ℕ

abbrev pub tcp_part : Part System ℕ
tcp_part = record { view = λ s. s.0; put = λ (_, b, c) a. (a, b, c) }

abbrev pub ssl_part : Part System (SslWorld ℕ ℕ ℕ)
ssl_part = record { view = λ s. s.1; put = λ (a, _, c) b. (a, b, c) }

abbrev pub ws_part : Part System (WsWorld ℕ ℕ)
ws_part = record { view = λ s. s.2; put = λ (a, b, _) c. (a, b, c) }

abbrev pub system : System
system = (
  0,
  record {
    system = 0;
    streams = λ k. SslAdapter.client_connection k;
    panicked = false;
    waiting = false;
  },
  record { system = 0; states = λ k. WsAdapter.error k; panicked = false; waiting = false },
)

abbrev pub rgen : ResourceIdGenerator
rgen = record { last = 1; kind = remote }

abbrev pub listener_id : ResourceId
listener_id = record { id = 2 ^ 55 + 1 }

abbrev pub one : ResourceId
one = record { id = 1 }

abbrev pub listen_config : ListenConfig ℕ
listen_config = record {
  bind_device_opt = none;
  keepalive_opt = none;
  cert_path = [];
  pri_key_path = [];
}

abbrev pub connect_config : ConnectConfig ℕ
connect_config = record { bind_device_opt = none; source_address_opt = none; keepalive_opt = none }

abbrev pub A : Type 0
A = AnyOf (Option ℕ) (Ssl.SslAcceptPayload ℕ ℕ) (Ws.WsAcceptPayload ℕ)

abbrev pub C : Type 0
C = AnyOf (Option ℕ) (Ssl.SslConnectPayload ℕ) (Ws.WsConnectPayload ℕ ℕ)

-- The second connection waits for its registration at the end.
abbrev pub actions : List (Action ℕ A C)
actions =
    call_listen listen_config tcp (v4 0 80) 7
    ∷ take_command master
    ∷ readable master listener_id
    ∷ take_command (worker 1)
    ∷ readable (worker 1) one
    ∷ call_connect connect_config tcp (socket (v4 2 90)) 8
    ∷ take_command master
    ∷ call_post one (greet (1 ∷ []))
    ∷ []

abbrev pub Driver : Type 0
Driver = AnyOf (TcpDriverOf ℕ) (Ssl.SslDriver ℕ ℕ) (Ws.WsDriver ℕ ℕ)

abbrev pub Node : Type 0
Node = Engine System (Slot Driver) ℕ A C

abbrev pub outcome : Option (Node × List (Output ℕ A C))
outcome =
    run_node tcp_part ssl_part ws_part (tcp_processor os net connect_with)
      (ssl_processor 10 ssl_system ssl_sockets names) (ws_processor 10 ws_system ws_sockets urls)
      rgen system 2 actions
