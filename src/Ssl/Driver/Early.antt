-- ===== src/Ssl/Driver/Early.antt =====
-- A send on an accepted TLS connection before its first read.
use message_io.Prelude.{
  ℕ, ◌≡◌, refl, ap, ◌∙◌, arith, true, Option, some, List, [], ◌∷◌, Option-cases, inl, inr,
}
use message_io.Network.ResourceId.{ResourceId, remote, resource_type}
use message_io.Network.Messages.{
  SocketAddr, Endpoint, NetEvent, accepted, SendStatus, PendingStatus, Call,
}
use message_io.Network.TcpDriver.First.{process_write-first}
use message_io.Network.TcpDriver.Handlers as Handlers
use message_io.Ssl.Adapter.{
  stream_acceptor, RemoteResource, SslSystem, SslWorld, set_stream, check_stream_ready,
  stream_to_socket, pending, send, ssl_remote,
}
use message_io.Ssl.Driver.{SslAcceptPayload, SslDriver, Sockets, ssl_local, accepted_resource}
use message_io.Ssl.Driver.Handlers.{process_write, process_accept_register_remote, process_send}

module _ {S Q G E K : Type 0} (sys : SslSystem S Q G E K) where
  -- An accepted connection has its acceptor.
  acceptor_at :
      (w : SslWorld S Q G) (stream : ℕ) (payload : SslAcceptPayload G K)
      → (accepted_resource sys w stream payload).0.streams stream
        ≡ stream_acceptor (some stream) (some sys.new_acceptor) payload.server_config
  unfolding accepted_resource set_stream
  acceptor_at w stream payload = ground arith

  pending-streams :
      (w : SslWorld S Q G) (r : RemoteResource K) (socket : ℕ)
      → stream_to_socket (w.streams r.stream) ≡ some socket
      → check_stream_ready sys w.system socket ≡ PendingStatus.ready
      → ((pending sys w r).1 ≡ PendingStatus.ready) × ((pending sys w r).0.streams ≡ w.streams)
  unfolding pending
  pending-streams w r socket there ready = elim (Option-cases r.keepalive_opt) [
    | inl e ↦ rw (there, ready, e, pending) (refl, refl)
    | inr (keepalive, e) ↦ rw (there, ready, e, pending) (refl, refl)
  ]

module _ {S Q G E K : Type 0} (bound : ℕ) (sys : SslSystem S Q G E K) where
  send_early :
      (w : SslWorld S Q G) (r : RemoteResource K) (bytes : List ℕ) (raw : Option ℕ)
      (acceptor : Option Q) (config : G)
      → w.streams r.stream ≡ stream_acceptor raw acceptor config
      → (send bound sys w r bytes).0.panicked ≡ true
  unfolding send
  send_early w r bytes raw acceptor config e = rw (e, send) refl

  -- A TLS connection that a listener accepted, and that is connected, reports `Accepted` at its first
  -- writable event; a send that answers this event, before any read of the connection, panics: its
  -- stream is still the acceptor, which `send` takes for unreachable. The id is a remote one.
  pub process_send-early :
      (sockets : Sockets S G K) (w : SslWorld S Q G) (d : SslDriver G K) (l id : ResourceId)
      (local_addr addr : SocketAddr) (stream : ℕ) (payload : SslAcceptPayload G K) (callback : ℕ)
      (bytes : List ℕ)
      → resource_type id ≡ remote
      → check_stream_ready sys w.system stream ≡ PendingStatus.ready
      → let q : SslWorld S Q G × SslDriver G K × List Call =
          process_accept_register_remote bound sys sockets w d
            (l, local_addr)
            (id, addr)
            stream
            payload
            callback in
        let p : SslWorld S Q G × SslDriver G K × List NetEvent =
          process_write bound sys sockets q.0 q.1 id in
        let endpoint : Endpoint = record { resource_id = id; addr = addr } in
        (p.2 ≡ accepted endpoint l ∷ [])
        × ((o : SslWorld S Q G × SendStatus) × (process_send bound sys sockets p.0 p.1 endpoint
                bytes
              ≡ some o)
            × (o.0.panicked ≡ true))
  unfolding process_accept_register_remote process_write process_send
      Handlers.process_accept_register_remote accepted_resource stream_to_socket set_stream
      check_stream_ready
  process_send-early sockets w d l id local_addr addr stream payload callback bytes is_remote
        ready =
      let os = ssl_remote bound sys in
      let net = ssl_local sockets in
      let (w1, r) = accepted_resource sys w stream payload in
      let there = acceptor_at sys w stream payload in
      let (answer, streams) =
        pending-streams sys w1 r stream (ap (λ x. stream_to_socket x) there) ready in
      let (events, after, sends) =
        process_write-first os net w1 d id l addr r is_remote (λ v _. refl) answer in
      let p : SslWorld S Q G × SslDriver G K × List NetEvent =
        process_write bound sys sockets w1
          (process_accept_register_remote bound sys sockets w d (l, local_addr) (id, addr) stream
            payload callback).1
          id in
      let here : p.0.streams stream
          ≡ stream_acceptor (some stream) (some sys.new_acceptor) payload.server_config =
        ap (λ x. x.streams stream) after ∙ ap (λ f. f stream) streams ∙ there in
      (
        events,
        (
          send bound sys p.0 r bytes,
          sends p.0 bytes,
          send_early p.0 r bytes (some stream) (some sys.new_acceptor) payload.server_config here,
        ),
      )
