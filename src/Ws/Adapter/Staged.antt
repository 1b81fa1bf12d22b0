-- ===== src/Ws/Adapter/Staged.antt =====
-- The stages of a WebSocket connection, and that the adapter keeps them.
use message_io.Prelude.{ℕ, ◌≡◌, ◌≢◌, refl, ap, ◌∙◌, inl, inr, Option, none, some, List, arith}
use message_io.Network.Messages.{PendingStatus, ReadStatus, SendStatus}
use message_io.Network.TcpRemote.{check_tcp_stream_ready}
use message_io.Network.TcpDriver.Reads.{PendingStatus-cases}
use message_io.Network.TcpDriver.Stages.{
  Stage, establishing, established, unusable, Stages, IsStaged, SendsStaged,
}
use message_io.Ws.Data.{binary}
use message_io.Ws.Adapter.{
  PendingHandshake, connect, accept, client, server, RemoteState, web_socket, handshake, error,
  RemoteResource, HandshakeResult, done, interrupted, failure, WsSystem, WsWorld, set_state,
  set_system, received, settled, receive_loop, receive, send_loop, send, settle, resume, pending,
  ws_remote,
}

abbrev pub state_stage : {U : Type 0} → RemoteState U → Stage
state_stage (web_socket _) = established
state_stage (handshake (some _)) = establishing
state_stage (handshake none) = unusable
state_stage (error _) = unusable

abbrev pub ws_stages : {S U : Type 0} → Stages (WsWorld S U)
ws_stages = record { panicked = λ w. w.panicked; stage = λ w cell. state_stage (w.states cell) }

-- An established connection is a web socket, and one that is being established has its handshake.
established_is :
    {U : Type 0} (s : RemoteState U)
    → state_stage s ≡ established
    → (stream : ℕ) × (s ≡ web_socket stream)
established_is (web_socket stream) h = (stream, refl)
established_is (handshake (some _)) h = cc
established_is (handshake none) h = cc
established_is (error _) h = cc

establishing_is :
    {U : Type 0} (s : RemoteState U)
    → state_stage s ≡ establishing
    → (h : PendingHandshake U) × (s ≡ handshake (some h))
establishing_is (web_socket stream) h = cc
establishing_is (handshake (some p)) h = (p, refl)
establishing_is (handshake none) h = cc
establishing_is (error _) h = cc

module _ {S U : Type 0} where
  pub set-same :
      (w : WsWorld S U) (cell : ℕ) (s : RemoteState U) → (set_state w cell s).states cell ≡ s
  unfolding set_state
  set-same w cell s = ground arith

  pub set-other :
      (w : WsWorld S U) (cell : ℕ) (s : RemoteState U) (k : ℕ)
      → k ≢ cell
      → (set_state w cell s).states k ≡ w.states k
  unfolding set_state
  set-other w cell s k other = ground arith

  -- The outcome of a call: no panic, other cells as they were, and the cell in the stage of the status.
  record Outcome (w : WsWorld S U) (cell : ℕ) (q : WsWorld S U × PendingStatus) : Type 0 where
    calm : q.0.panicked ≡ w.panicked
    apart : (k : ℕ) → k ≢ cell → q.0.states k ≡ w.states k
    at_ready : q.1 ≡ PendingStatus.ready → state_stage (q.0.states cell) ≡ established
    at_incomplete : q.1 ≡ PendingStatus.incomplete → state_stage (q.0.states cell) ≡ establishing

module _ {S U : Type 0} (sys : WsSystem S U) where
  settle-Outcome :
      (w : WsWorld S U) (cell stream : ℕ) (mid : PendingHandshake U) (r : S × HandshakeResult)
      → Outcome w cell (settle sys w cell stream mid r)
  unfolding settle set_state
  settle-Outcome w cell stream mid (s, done) = record {
    calm = refl;
    apart = λ k other. set-other (set_system w s) cell (web_socket stream) k other;
    at_ready = λ _. ap (λ x. state_stage x) (set-same (set_system w s) cell (web_socket stream));
    at_incomplete = λ e. cc;
  }
  settle-Outcome w cell stream mid (s, interrupted) = record {
    calm = refl;
    apart = λ k other. set-other (set_system w s) cell (handshake (some mid)) k other;
    at_ready = λ e. cc;
    at_incomplete =
        λ _. ap (λ x. state_stage x) (set-same (set_system w s) cell (handshake (some mid)));
  }
  settle-Outcome w cell stream mid (s, failure e) = record {
    calm = refl;
    apart = λ k other. set-other (set_system w s) cell (error stream) k other;
    at_ready = λ e. cc;
    at_incomplete = λ e. cc;
  }

  resume-Outcome :
      (w : WsWorld S U) (cell : ℕ) (h : PendingHandshake U) → Outcome w cell (resume sys w cell h)
  unfolding resume set_state
  resume-Outcome w cell (connect url stream) =
      let again : RemoteState U = handshake (some (connect url stream)) in
      elim (PendingStatus-cases
        (check_tcp_stream_ready (sys.take_error w.system stream) (sys.peer_addr w.system stream))) [
          | inl e ↦
              rw (e, resume)
                (settle-Outcome w cell stream (client stream) (sys.ws_connect w.system url stream))
          | inr (inl e) ↦
              rw (e, resume)
                record {
                  calm = refl;
                  apart = λ k other. set-other w cell again k other;
                  at_ready = λ e. cc;
                  at_incomplete = λ _. ap (λ x. state_stage x) (set-same w cell again);
                }
          | inr (inr e) ↦
              rw (e, resume)
                record {
                  calm = refl;
                  apart = λ k other. set-other w cell again k other;
                  at_ready = λ e. cc;
                  at_incomplete = λ e. cc;
                }
        ]
  resume-Outcome w cell (accept stream) =
      settle-Outcome w cell stream (server stream) (sys.ws_accept w.system stream)
  resume-Outcome w cell (client stream) =
      settle-Outcome w cell stream (client stream) (sys.client_handshake w.system stream)
  resume-Outcome w cell (server stream) =
      settle-Outcome w cell stream (server stream) (sys.server_handshake w.system stream)

  pending_is :
      {K : Type 0} (w : WsWorld S U) (r : RemoteResource K) (h : PendingHandshake U)
      → w.states r.state ≡ handshake (some h)
      → pending sys w r ≡ resume sys (set_state w r.state (handshake none)) r.state h
  unfolding pending
  pending_is w r h e = rw (e, pending) refl

  -- The handshake that is taken out is put back, or its outcome, so that what is between them is not
  -- seen.
  pending-Outcome :
      {K : Type 0} (w : WsWorld S U) (r : RemoteResource K)
      → state_stage (w.states r.state) ≡ establishing
      → Outcome w r.state (pending sys w r)
  unfolding set_state
  pending-Outcome w r before =
      let (h, e) = establishing_is (w.states r.state) before in
      let taken = set_state w r.state (handshake none) in
      let o = resume-Outcome taken r.state h in
      rw (pending_is w r h e) record {
        calm = o.calm ∙ refl;
        apart = λ k other. o.apart k other ∙ set-other w r.state (handshake none) k other;
        at_ready = o.at_ready;
        at_incomplete = o.at_incomplete;
      }

-- Receiving and sending on a web socket move the system alone.
received_keeps :
    {S U : Type 0} (w : WsWorld S U) (q : S × List (List ℕ) × Option ReadStatus)
    → ((received w q).0.panicked ≡ w.panicked) × ((received w q).0.states ≡ w.states)
unfolding received
received_keeps w (s, packets, none) = (refl, refl)
received_keeps w (s, packets, some status) = (refl, refl)

settled_keeps :
    {S U : Type 0} (w : WsWorld S U) (q : S × Option SendStatus)
    → ((settled w q).0.panicked ≡ w.panicked) × ((settled w q).0.states ≡ w.states)
unfolding settled
settled_keeps w (s, none) = (refl, refl)
settled_keeps w (s, some status) = (refl, refl)

module _ {S U : Type 0} (bound : ℕ) (sys : WsSystem S U) where
  receive_keeps :
      {K : Type 0} (w : WsWorld S U) (r : RemoteResource K)
      → state_stage (w.states r.state) ≡ established
      → ((receive bound sys w r).0.panicked ≡ w.panicked)
        × ((receive bound sys w r).0.states ≡ w.states)
  unfolding receive
  receive_keeps w r now =
      let (stream, e) = established_is (w.states r.state) now in
      rw (e, receive) (received_keeps w (receive_loop sys bound w.system stream))

  send_keeps :
      {K : Type 0} (w : WsWorld S U) (r : RemoteResource K) (bytes : List ℕ)
      → state_stage (w.states r.state) ≡ established
      → ((send bound sys w r bytes).0.panicked ≡ w.panicked)
        × ((send bound sys w r bytes).0.states ≡ w.states)
  unfolding send
  send_keeps w r bytes now =
      let (stream, e) = established_is (w.states r.state) now in
      let (s, result) = sys.send w.system stream (binary bytes) in
      rw (e, send) (settled_keeps w (send_loop sys bound s stream result))

  -- A WebSocket connection is asked for its readiness only while its handshake is there, and is read
  -- and written only when it is a web socket, if the driver keeps to the stages: these calls do not
  -- panic, touch no other connection, and leave the stage that their status says.
  pub ws_remote-IsStaged : {K : Type 0} → IsStaged (ws_remote bound sys {K = K}) ws_stages
  ws_remote-IsStaged {K} = record {
    pending_calm = λ w r healthy before.
        let o = pending-Outcome sys w r before in
        record {
          healthy = o.calm ∙ healthy;
          apart = λ k other. ap (λ x. state_stage x) (o.apart k other);
        };
    pending_ready = λ w r before e. (pending-Outcome sys w r before).at_ready e;
    pending_incomplete = λ w r before e. (pending-Outcome sys w r before).at_incomplete e;
    receive_calm = λ w r healthy now.
        let (same, states) = receive_keeps w r now in
        record { healthy = same ∙ healthy; apart = λ k _. ap (λ f. state_stage (f k)) states };
    receive_stage = λ w r now. ap (λ f. state_stage (f r.state)) (receive_keeps w r now).1 ∙ now;
    write_calm = λ w r healthy now. record { healthy = healthy; apart = λ k _. refl };
    write_stage = λ w r now. now;
  }

  pub ws_remote-SendsStaged : {K : Type 0} → SendsStaged (ws_remote bound sys {K = K}) ws_stages
  ws_remote-SendsStaged {K} = record {
    send_calm = λ w r bytes healthy now.
        let (same, states) = send_keeps w r bytes now in
        record { healthy = same ∙ healthy; apart = λ k _. ap (λ f. state_stage (f k)) states };
    send_stage =
        λ w r bytes now. ap (λ f. state_stage (f r.state)) (send_keeps w r bytes now).1 ∙ now;
  }
