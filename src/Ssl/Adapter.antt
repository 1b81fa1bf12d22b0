-- ===== src/Ssl/Adapter.antt =====
-- src/adapters/ssl/ssl_adapter.rs, ssl_stream.rs and `wrap_stream` of ssl_acceptor.rs, over the crate
-- `rustls` and the system, whose calls are parameters. A resource names its `Mutex<SslStream>` by the
-- descriptor of its socket; the streams stand in the world. `Q` is `Acceptor`, `G` `ServerConfig` and
-- `K` a keepalive.
pub mod Receive
pub mod Accepting
use message_io.Prelude.{
  ℕ, zero, suc, ◌+◌, Bool, true, false, Option, none, some, List, [], ◌∷◌, length, drop, ltb, ◌==◌,
  if◌then◌else◌,
}
use message_io.Network.Messages.{
  SocketAddr, SendStatus, sent, resource_not_found, ReadStatus, PendingStatus, ErrorKind,
  would_block, other_kind, IoResult, ok, err,
}
use message_io.Network.Adapter.{Remote}
use message_io.Network.TcpRemote.{
  check_tcp_stream_ready, Reaction, give, again, end, reaction, Taking, took, refused, lost, taking,
}

-- The constructors `RustlsStreamAcceptor`, `RustlsClientConnection` and `RustlsServerConnection`.
pub data SslStream (Q G : Type 0) : Type 0 where
  stream_acceptor : Option ℕ → Option Q → G → SslStream Q G
  client_connection server_connection : ℕ → SslStream Q G

pub record RemoteResource (K : Type 0) : Type 0 where
  pub stream : ℕ
  pub keepalive_opt : Option K

-- `Acceptor::accept`: a whole client hello, `None`, or an error.
pub data Hello (E : Type 0) : Type 0 where
  accepted : E → Hello E
  incomplete failed : Hello E

-- `read` has the bytes that it read, and `E` is `Accepted`. `into_connection` says whether a server
-- connection could be made on the socket.
pub record SslSystem (S Q G E K : Type 0) : Type 0 where
  pub take_error : S → ℕ → IoResult (Option ErrorKind)
  pub peer_addr : S → ℕ → IoResult SocketAddr
  pub set_tcp_keepalive : S → ℕ → K → S
  pub new_acceptor : Q
  pub read_tls : S → Q → ℕ → S × Q × IoResult ℕ
  pub accept : Q → Q × Hello E
  pub into_connection : S → E → G → ℕ → S × Bool
  pub read : S → ℕ → S × IoResult (List ℕ)
  pub write : S → ℕ → List ℕ → S × IoResult ℕ

-- `io::ErrorKind::Other`.
abbrev pub other_error : ErrorKind
other_error = other_kind 0

-- `panicked` is set by a call that panics, and `waiting` by a loop that goes on for more rounds than
-- the bound; what is answered then is not the code's.
pub record SslWorld (S Q G : Type 0) : Type 0 where
  pub system : S
  pub streams : ℕ → SslStream Q G
  pub panicked : Bool
  pub waiting : Bool

module _ {S Q G : Type 0} where
  unfoldable pub set_stream : SslWorld S Q G → ℕ → SslStream Q G → SslWorld S Q G
  set_stream w cell stream = record w { streams = λ k. if k == cell then stream else w.streams k }

  abbrev pub set_system : SslWorld S Q G → S → SslWorld S Q G
  set_system w s = record w { system = s }

  abbrev pub panic : SslWorld S Q G → SslWorld S Q G
  panic w = record w { panicked = true }

  abbrev pub wait : SslWorld S Q G → SslWorld S Q G
  wait w = record w { waiting = true }

-- The socket of a stream; the `unwrap` of one that was taken out panics, `none` here.
unfoldable pub stream_to_socket : {Q G : Type 0} → SslStream Q G → Option ℕ
stream_to_socket (stream_acceptor raw_opt _ _) = raw_opt
stream_to_socket (client_connection socket) = some socket
stream_to_socket (server_connection socket) = some socket

-- What `wrap_stream` returns: the stream of a server connection, or the error with what it was given.
pub data Wrapped (Q G : Type 0) : Type 0 where
  wrapped : ℕ → Wrapped Q G
  unwrapped : ErrorKind → ℕ → Q → G → Wrapped Q G

unfoldable pub is_would_block : ErrorKind → Bool
is_would_block would_block = true
is_would_block _ = false

module _ {S Q G E K : Type 0} (sys : SslSystem S Q G E K) where
  -- The loop of the source never comes round: each of its arms breaks or returns.
  unfoldable pub wrap_stream : S → ℕ → Q → G → S × Wrapped Q G
  wrap_stream s socket acceptor config =
      let (s', acceptor', got) = sys.read_tls s acceptor socket in
      elim got [
        | err kind ↦ (s', unwrapped kind socket acceptor' config)
        | ok _ ↦
            let (acceptor'', hello) = sys.accept acceptor' in
            elim hello [
              | incomplete ↦ (s', unwrapped other_error socket acceptor'' config)
              | failed ↦ (s', unwrapped other_error socket acceptor'' config)
              | accepted it ↦
                  let (s'', fine) = sys.into_connection s' it config socket in
                  elim fine [
                    | true ↦ (s'', wrapped socket)
                    | false ↦ (s'', unwrapped other_error socket acceptor'' config)
                  ]
            ]
      ]

  -- One round of the loop of `receive`: the world behind it, and what comes next.
  unfoldable pub read_round : SslWorld S Q G → ℕ → SslWorld S Q G × Reaction
  read_round w socket =
      let (s, answer) = sys.read w.system socket in (set_system w s, reaction answer)

  unfoldable pub wrap_round : SslWorld S Q G → ℕ → S × Wrapped Q G → SslWorld S Q G × Reaction
  wrap_round w cell (s, wrapped socket) =
      (set_stream (set_system w s) cell (server_connection socket), again)
  wrap_round w cell (s, unwrapped kind socket acceptor config) = (
    set_stream (set_system w s) cell (stream_acceptor (some socket) (some acceptor) config),
    elim (is_would_block kind) [ true ↦ again | false ↦ end ReadStatus.disconnected ],
  )

  -- An acceptor and its socket are taken out, and `unwrap` panics if one was out.
  unfoldable pub receive_round : SslWorld S Q G → ℕ → SslWorld S Q G × Reaction
  receive_round w cell = elim (w.streams cell) [
    | stream_acceptor raw_opt acceptor_opt config ↦ elim raw_opt [
      | none ↦ (panic w, end ReadStatus.disconnected)
      | some raw ↦ elim acceptor_opt [
        | none ↦ (panic w, end ReadStatus.disconnected)
        | some acceptor ↦ wrap_round w cell (wrap_stream w.system raw acceptor config)
      ]
    ]
    | client_connection socket ↦ read_round w socket
    | server_connection socket ↦ read_round w socket
  ]

  unfoldable pub receive_loop : ℕ → SslWorld S Q G → ℕ → SslWorld S Q G × List (List ℕ) × ReadStatus
  receive_loop zero w cell = (wait w, [], ReadStatus.wait_next_event)
  receive_loop (suc rounds) w cell =
      let (w', next) = receive_round w cell in
      let later = receive_loop rounds w' cell in
      elim next [
        | give packet ↦ (later.0, packet ∷ later.1, later.2)
        | again ↦ later
        | end status ↦ (w', [], status)
      ]

  -- The loop of `send` with the bytes that were sent so far. A slice that starts behind the end
  -- panics.
  unfoldable pub send_loop : ℕ → SslWorld S Q G → ℕ → List ℕ → ℕ → SslWorld S Q G × SendStatus
  send_loop zero w socket data' total = (wait w, sent)
  send_loop (suc rounds) w socket data' total = elim (ltb (length data') total) [
    | true ↦ (panic w, sent)
    | false ↦
        let (s, answer) = sys.write w.system socket (drop total data') in
        let w' = set_system w s in
        elim (taking answer) [
          | took n ↦ elim (total + n == length data') [
            | true ↦ (w', sent)
            | false ↦ send_loop rounds w' socket data' (total + n)
          ]
          | refused ↦ send_loop rounds w' socket data' total
          | lost ↦ (w', resource_not_found)
        ]
  ]

  unfoldable pub check_stream_ready : S → ℕ → PendingStatus
  check_stream_ready s socket =
      check_tcp_stream_ready (sys.take_error s socket) (sys.peer_addr s socket)

  unfoldable pub pending : SslWorld S Q G → RemoteResource K → SslWorld S Q G × PendingStatus
  pending w r = elim (stream_to_socket (w.streams r.stream)) [
    | none ↦ (panic w, PendingStatus.disconnected)
    | some socket ↦ elim (check_stream_ready w.system socket) [
      | PendingStatus.ready ↦ elim r.keepalive_opt [
        | none ↦ (w, PendingStatus.ready)
        | some keepalive ↦
            (set_system w (sys.set_tcp_keepalive w.system socket keepalive), PendingStatus.ready)
      ]
      | PendingStatus.incomplete ↦ (w, PendingStatus.incomplete)
      | PendingStatus.disconnected ↦ (w, PendingStatus.disconnected)
    ]
  ]

module _ {S Q G E K : Type 0} (bound : ℕ) (sys : SslSystem S Q G E K) where
  unfoldable pub receive :
      SslWorld S Q G → RemoteResource K → SslWorld S Q G × List (List ℕ) × ReadStatus
  receive w r = receive_loop sys bound w r.stream

  unfoldable pub send : SslWorld S Q G → RemoteResource K → List ℕ → SslWorld S Q G × SendStatus
  send w r data' = elim (w.streams r.stream) [
    | stream_acceptor _ _ _ ↦ (panic w, sent)
    | client_connection socket ↦ send_loop sys bound w socket data' 0
    | server_connection socket ↦ send_loop sys bound w socket data' 0
  ]

  -- `impl Remote for RemoteResource`; `ready_to_write` is the trait's own.
  abbrev pub ssl_remote : Remote (SslWorld S Q G) (RemoteResource K)
  ssl_remote = record {
    source = λ r. r.stream;
    receive = receive;
    send = send;
    pending = pending sys;
    ready_to_write = λ w r. (w, true);
  }
