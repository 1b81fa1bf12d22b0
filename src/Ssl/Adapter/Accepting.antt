-- ===== src/Ssl/Adapter/Accepting.antt =====
-- What `receive` of src/adapters/ssl/ssl_adapter.rs makes of the client hello of an accepted
-- connection.
use message_io.Prelude.{ℕ, zero, suc, ◌<◌, ◌≡◌, refl, ap, ◌∙◌, arith, true, some, List, [], length}
use message_io.Network.Messages.{ReadStatus, would_block, IoResult, ok, err}
use message_io.Network.TcpRemote.{end, reaction}
use message_io.Network.TcpRemote.Receive.{packets_of}
use message_io.Ssl.Adapter.{
  SslStream, stream_acceptor, server_connection, RemoteResource, accepted, incomplete, SslSystem,
  SslWorld, set_stream, set_system, wrapped, unwrapped, is_would_block, other_error, wrap_stream,
  wrap_round, receive_round, receive_loop, receive,
}
use message_io.Ssl.Adapter.Receive.{Reads, IsReading, loop_end, loop_again, loop-Reads}

module _ {S Q G E K : Type 0} (sys : SslSystem S Q G E K) where
  set-at :
      (w : SslWorld S Q G) (cell : ℕ) (stream : SslStream Q G)
      → (set_stream w cell stream).streams cell ≡ stream
  unfolding set_stream
  set-at w cell stream = ground arith

  -- A round with an acceptor that is there.
  round_wraps :
      (w : SslWorld S Q G) (cell socket : ℕ) (q : Q) (config : G)
      → w.streams cell ≡ stream_acceptor (some socket) (some q) config
      → receive_round sys w cell ≡ wrap_round sys w cell (wrap_stream sys w.system socket q config)
  unfolding receive_round
  round_wraps w cell socket q config e = rw (e, receive_round) refl

  wrap_accepted :
      (s : S) (socket : ℕ) (q : Q) (config : G) (n : ℕ) (it : E)
      → (sys.read_tls s q socket).2 ≡ ok n
      → (sys.accept (sys.read_tls s q socket).1).1 ≡ accepted it
      → (sys.into_connection (sys.read_tls s q socket).0 it config socket).1 ≡ true
      → wrap_stream sys s socket q config
        ≡ ((sys.into_connection (sys.read_tls s q socket).0 it config socket).0, wrapped socket)
  unfolding wrap_stream
  wrap_accepted s socket q config n it read hello fine =
      rw (read, wrap_stream) (rw (hello, wrap_stream) (rw (fine, wrap_stream) refl))

  wrap_incomplete :
      (s : S) (socket : ℕ) (q : Q) (config : G) (n : ℕ)
      → (sys.read_tls s q socket).2 ≡ ok n
      → (sys.accept (sys.read_tls s q socket).1).1 ≡ incomplete
      → wrap_stream sys s socket q config ≡ (
        (sys.read_tls s q socket).0,
        unwrapped other_error socket (sys.accept (sys.read_tls s q socket).1).0 config,
      )
  unfolding wrap_stream
  wrap_incomplete s socket q config n read hello =
      rw (read, wrap_stream) (rw (hello, wrap_stream) refl)

  wrap_blocked :
      (s : S) (socket : ℕ) (q : Q) (config : G)
      → (sys.read_tls s q socket).2 ≡ err would_block
      → wrap_stream sys s socket q config ≡ (
        (sys.read_tls s q socket).0,
        unwrapped would_block socket (sys.read_tls s q socket).1 config,
      )
  unfolding wrap_stream
  wrap_blocked s socket q config read = rw (read, wrap_stream) refl

  loop-busy :
      (rounds : ℕ) (w : SslWorld S Q G) (cell socket : ℕ) (q : Q) (config : G)
      → w.streams cell ≡ stream_acceptor (some socket) (some q) config
      → ((s : S) (p : Q) → (sys.read_tls s p socket).2 ≡ err would_block)
      → (receive_loop sys rounds w cell).0.waiting ≡ true
  unfolding receive_loop wrap_round is_would_block
  loop-busy zero w cell socket q config at blocked = refl
  loop-busy (suc rounds) w cell socket q config at blocked =
      let (s, q', _) = sys.read_tls w.system q socket in
      let kept : SslStream Q G = stream_acceptor (some socket) (some q') config in
      let w' = set_stream (set_system w s) cell kept in
      ap (λ x. x.0.waiting)
        (loop_again sys socket rounds w w' cell (
          round_wraps w cell socket q config at
          ∙ ap (λ x. wrap_round sys w cell x)
              (wrap_blocked w.system socket q config (blocked w.system q))))
      ∙ loop-busy rounds w' cell socket q' config (set-at (set_system w s) cell kept) blocked

module _ {S Q G E K : Type 0} (rounds : ℕ) (sys : SslSystem S Q G E K) where
  -- An accepted connection whose client hello is read whole becomes a server connection, and gives at
  -- once the packets that it reads, in order, up to the answer that ends the loop, with its status.
  -- The bound has a round for the hello, for each of these reads and for the end.
  pub receive-accepts :
      (w : SslWorld S Q G) (r : RemoteResource K) (socket : ℕ) (q : Q) (config : G) (n : ℕ) (it : E)
      (answers : List (IoResult (List ℕ))) (s' : S) (status : ReadStatus)
      → w.streams r.stream ≡ stream_acceptor (some socket) (some q) config
      → (sys.read_tls w.system q socket).2 ≡ ok n
      → (sys.accept (sys.read_tls w.system q socket).1).1 ≡ accepted it
      → (sys.into_connection (sys.read_tls w.system q socket).0 it config socket).1 ≡ true
      → Reads sys socket
          (sys.into_connection (sys.read_tls w.system q socket).0 it config socket).0
          answers
          s'
      → reaction (sys.read s' socket).1 ≡ end status
      → length answers < rounds
      → receive (suc rounds) sys w r ≡ (
        set_stream (set_system w (sys.read s' socket).0) r.stream (server_connection socket),
        packets_of answers,
        status,
      )
  unfolding receive wrap_round set_stream
  receive-accepts w r socket q config n it answers s' status at read hello fine reads last few =
      let s = (sys.into_connection (sys.read_tls w.system q socket).0 it config socket).0 in
      let w' = set_stream (set_system w s) r.stream (server_connection socket) in
      loop_again sys socket rounds w w' r.stream (
        round_wraps sys w r.stream socket q config at
        ∙ ap (λ x. wrap_round sys w r.stream x)
            (wrap_accepted sys w.system socket q config n it read hello fine))
      ∙ loop-Reads sys socket rounds w' r.stream (server_connection socket) answers s' status
          (set-at sys (set_system w s) r.stream (server_connection socket)) IsReading.by_server
          reads last few

  -- A client hello of which only a part has arrived disconnects: `receive` gives no packet and ends
  -- with `Disconnected`, although the connection is as good as before and its acceptor waits for the
  -- rest. The bound has a round at least.
  pub receive-incomplete :
      (w : SslWorld S Q G) (r : RemoteResource K) (socket : ℕ) (q : Q) (config : G) (n : ℕ)
      → w.streams r.stream ≡ stream_acceptor (some socket) (some q) config
      → (sys.read_tls w.system q socket).2 ≡ ok n
      → (sys.accept (sys.read_tls w.system q socket).1).1 ≡ incomplete
      → let (w', packets, status) = receive (suc rounds) sys w r in
        (packets ≡ [])
        × (status ≡ ReadStatus.disconnected)
        × (w'.panicked ≡ w.panicked)
        × (w'.streams r.stream
            ≡ stream_acceptor
                (some socket)
                (some (sys.accept (sys.read_tls w.system q socket).1).0)
                config)
  unfolding receive wrap_round is_would_block set_stream
  receive-incomplete w r socket q config n at read hello =
      let s' = (sys.read_tls w.system q socket).0 in
      let q' = (sys.accept (sys.read_tls w.system q socket).1).0 in
      let kept : SslStream Q G = stream_acceptor (some socket) (some q') config in
      let w' = set_stream (set_system w s') r.stream kept in
      rw
        (loop_end sys socket rounds w w' r.stream ReadStatus.disconnected (
          round_wraps sys w r.stream socket q config at
          ∙ ap (λ x. wrap_round sys w r.stream x)
              (wrap_incomplete sys w.system socket q config n read hello)))
        (refl, refl, refl, set-at sys (set_system w s') r.stream kept)

  -- A connection of which nothing has arrived yet is asked again and again: as long as the read would
  -- block, `receive` is still waiting at whatever bound.
  pub receive-busy :
      (w : SslWorld S Q G) (r : RemoteResource K) (socket : ℕ) (q : Q) (config : G)
      → w.streams r.stream ≡ stream_acceptor (some socket) (some q) config
      → ((s : S) (p : Q) → (sys.read_tls s p socket).2 ≡ err would_block)
      → (receive (suc rounds) sys w r).0.waiting ≡ true
  unfolding receive
  receive-busy w r socket q config at blocked =
      loop-busy sys (suc rounds) w r.stream socket q config at blocked
