-- ===== src/Ws/Adapter.antt =====
-- src/adapters/ws/ws_adapter.rs over the protocol of src/adapters/ws, whose calls are parameters. A
-- resource names its `Mutex<RemoteState>` by the descriptor of its stream, which never changes; the
-- states stand in the world. A packet is the list of its bytes.
pub mod Receive
pub mod Send
pub mod Staged
use message_io.Prelude.{
  ℕ, zero, suc, Bool, true, false, Option, none, some, List, [], ◌∷◌, ◌==◌, if◌then◌else◌,
}
use message_io.Network.Messages.{
  SocketAddr, SendStatus, sent, max_packet_size_exceeded, resource_not_found, ReadStatus,
  PendingStatus, ErrorKind, IoResult,
}
use message_io.Network.Adapter.{Remote}
use message_io.Network.TcpRemote.{check_tcp_stream_ready}
use message_io.Ws.Data.{
  Message, text, binary, ping, pong, close, raw_frame, IoErrorKind, would_block, connection_reset,
  unexpected_eof, other_kind, Error, io, capacity,
}

-- `U` is `Url`. The three variants with a stream behind the first carry a handshake on it.
pub data PendingHandshake (U : Type 0) : Type 0 where
  connect : U → ℕ → PendingHandshake U
  accept client server : ℕ → PendingHandshake U

pub data RemoteState (U : Type 0) : Type 0 where
  web_socket : ℕ → RemoteState U
  handshake : Option (PendingHandshake U) → RemoteState U
  error : ℕ → RemoteState U

pub record RemoteResource (K : Type 0) : Type 0 where
  pub state : ℕ
  pub keepalive_opt : Option K

-- `Result` of the protocol.
pub data Answer (A : Type 0) : Type 0 where
  ok : A → Answer A
  err : Error (List ℕ) → Answer A

-- What a handshake on a stream comes to: a web socket on it, a wait, or an error.
pub data HandshakeResult : Type 0 where
  done interrupted : HandshakeResult
  failure : Error (List ℕ) → HandshakeResult

-- The protocol and the system under it, on the streams of `S`.
pub record WsSystem (S U : Type 0) : Type 0 where
  pub take_error : S → ℕ → IoResult (Option ErrorKind)
  pub peer_addr : S → ℕ → IoResult SocketAddr
  pub ws_connect : S → U → ℕ → S × HandshakeResult
  pub ws_accept : S → ℕ → S × HandshakeResult
  pub client_handshake : S → ℕ → S × HandshakeResult
  pub server_handshake : S → ℕ → S × HandshakeResult
  pub read : S → ℕ → S × Answer (Message (List ℕ))
  pub peek : S → ℕ → S × Option IoErrorKind
  pub send : S → ℕ → Message (List ℕ) → S × Answer Unit
  pub flush : S → ℕ → S × Answer Unit

-- `panicked` is set by a call that panics, and `waiting` by a loop that goes on for more rounds than
-- the bound; what is answered then is not the code's.
pub record WsWorld (S U : Type 0) : Type 0 where
  pub system : S
  pub states : ℕ → RemoteState U
  pub panicked : Bool
  pub waiting : Bool

module _ {S U : Type 0} where
  unfoldable pub set_state : WsWorld S U → ℕ → RemoteState U → WsWorld S U
  set_state w cell state = record w { states = λ k. if k == cell then state else w.states k }

  abbrev pub set_system : WsWorld S U → S → WsWorld S U
  set_system w s = record w { system = s }

  abbrev pub panic : WsWorld S U → WsWorld S U
  panic w = record w { panicked = true }

  abbrev pub wait : WsWorld S U → S → WsWorld S U
  wait w s = record w { system = s; waiting = true }

-- The world after a loop: it ended with a status, or is waiting at the bound.
unfoldable pub received :
    {S U : Type 0}
    → WsWorld S U
    → S × List (List ℕ) × Option ReadStatus
    → WsWorld S U × List (List ℕ) × ReadStatus
received w (s, packets, none) = (wait w s, packets, ReadStatus.wait_next_event)
received w (s, packets, some status) = (set_system w s, packets, status)

unfoldable pub settled :
    {S U : Type 0} → WsWorld S U → S × Option SendStatus → WsWorld S U × SendStatus
settled w (s, none) = (wait w s, sent)
settled w (s, some status) = (set_system w s, status)

unfoldable pub io_error_to_read_status : IoErrorKind → ReadStatus
io_error_to_read_status would_block = ReadStatus.wait_next_event
io_error_to_read_status connection_reset = ReadStatus.disconnected
io_error_to_read_status IoErrorKind.interrupted = ReadStatus.disconnected
io_error_to_read_status unexpected_eof = ReadStatus.disconnected
io_error_to_read_status (other_kind _) = ReadStatus.disconnected

-- What a message or an error does to the loop of `receive`.
pub data Reaction : Type 0 where
  give : List ℕ → Reaction
  again : Reaction
  end : ReadStatus → Reaction

unfoldable pub message_reaction : Message (List ℕ) → Reaction
message_reaction (binary data') = give data'
message_reaction (close _) = end ReadStatus.disconnected
message_reaction _ = again

unfoldable pub reaction : Answer (Message (List ℕ)) → Reaction
reaction (ok m) = message_reaction m
reaction (err (io e)) = end (io_error_to_read_status e)
reaction (err _) = end ReadStatus.disconnected

-- The match of `send`.
pub data Sending : Type 0 where
  flush_again : Sending
  finished : SendStatus → Sending

unfoldable pub sending : Answer Unit → Sending
sending (ok _) = finished sent
sending (err (io would_block)) = flush_again
sending (err (capacity _)) = finished max_packet_size_exceeded
sending (err _) = finished resource_not_found

module _ {S U : Type 0} (sys : WsSystem S U) where
  -- The loop of `receive` on a web socket, for a number of rounds; the status is `none` if it goes
  -- on. A packet is given after a look at whether there is more to read.
  unfoldable pub receive_loop : ℕ → S → ℕ → S × List (List ℕ) × Option ReadStatus
  receive_loop zero s stream = (s, [], none)
  receive_loop (suc rounds) s stream =
      let (s', answer) = sys.read s stream in
      elim (reaction answer) [
        | give packet ↦
            let (s'', peeked) = sys.peek s' stream in
            elim peeked [
              | none ↦
                  let (s3, packets, status) = receive_loop rounds s'' stream in
                  (s3, packet ∷ packets, status)
              | some e ↦ (s'', packet ∷ [], some (io_error_to_read_status e))
            ]
        | again ↦ receive_loop rounds s' stream
        | end status ↦ (s', [], some status)
      ]

  -- The loop of `send` on the result of the last call.
  unfoldable pub send_loop : ℕ → S → ℕ → Answer Unit → S × Option SendStatus
  send_loop zero s stream result = (s, none)
  send_loop (suc rounds) s stream result = elim (sending result) [
    | flush_again ↦ let (s', result') = sys.flush s stream in send_loop rounds s' stream result'
    | finished status ↦ (s, some status)
  ]

module _ {S U : Type 0} (bound : ℕ) (sys : WsSystem S U) where
  unfoldable pub receive :
      {K : Type 0} → WsWorld S U → RemoteResource K → WsWorld S U × List (List ℕ) × ReadStatus
  receive w r = elim (w.states r.state) [
    | web_socket stream ↦ received w (receive_loop sys bound w.system stream)
    | handshake _ ↦ (panic w, [], ReadStatus.disconnected)
    | error _ ↦ (panic w, [], ReadStatus.disconnected)
  ]

  unfoldable pub send :
      {K : Type 0} → WsWorld S U → RemoteResource K → List ℕ → WsWorld S U × SendStatus
  send w r data' = elim (w.states r.state) [
    | web_socket stream ↦
        let (s, result) = sys.send w.system stream (binary data') in
        settled w (send_loop sys bound s stream result)
    | handshake _ ↦ (panic w, sent)
    | error _ ↦ (panic w, sent)
  ]

module _ {S U : Type 0} (sys : WsSystem S U) where
  -- The match on the result of a handshake, the same in the four arms of `pending`; `mid` is the
  -- handshake that goes on.
  unfoldable pub settle :
      WsWorld S U → ℕ → ℕ → PendingHandshake U → S × HandshakeResult → WsWorld S U × PendingStatus
  settle w cell stream mid (s, done) =
      (set_state (set_system w s) cell (web_socket stream), PendingStatus.ready)
  settle w cell stream mid (s, interrupted) =
      (set_state (set_system w s) cell (handshake (some mid)), PendingStatus.incomplete)
  settle w cell stream mid (s, failure _) =
      (set_state (set_system w s) cell (error stream), PendingStatus.disconnected)

  unfoldable pub resume : WsWorld S U → ℕ → PendingHandshake U → WsWorld S U × PendingStatus
  resume w cell (connect url stream) =
      let status =
        check_tcp_stream_ready (sys.take_error w.system stream) (sys.peer_addr w.system stream) in
      elim status [
        | PendingStatus.ready ↦
            settle w cell stream (client stream) (sys.ws_connect w.system url stream)
        | PendingStatus.incomplete ↦
            (set_state w cell (handshake (some (connect url stream))), PendingStatus.incomplete)
        | PendingStatus.disconnected ↦
            (set_state w cell (handshake (some (connect url stream))), PendingStatus.disconnected)
      ]
  resume w cell (accept stream) =
      settle w cell stream (server stream) (sys.ws_accept w.system stream)
  resume w cell (client stream) =
      settle w cell stream (client stream) (sys.client_handshake w.system stream)
  resume w cell (server stream) =
      settle w cell stream (server stream) (sys.server_handshake w.system stream)

  -- The handshake is taken out of its state before the match, and `unwrap` panics if it was out.
  unfoldable pub pending :
      {K : Type 0} → WsWorld S U → RemoteResource K → WsWorld S U × PendingStatus
  pending w r = elim (w.states r.state) [
    | web_socket _ ↦ (w, PendingStatus.ready)
    | handshake taken ↦ elim taken [
      | none ↦ (panic w, PendingStatus.disconnected)
      | some h ↦ resume (set_state w r.state (handshake none)) r.state h
    ]
    | error _ ↦ (panic w, PendingStatus.disconnected)
  ]

module _ {S U : Type 0} (bound : ℕ) (sys : WsSystem S U) where
  -- `impl Remote for RemoteResource`; `ready_to_write` is the trait's own.
  abbrev pub ws_remote : {K : Type 0} → Remote (WsWorld S U) (RemoteResource K)
  ws_remote = record {
    source = λ r. r.state;
    receive = receive bound sys;
    send = send bound sys;
    pending = pending sys;
    ready_to_write = λ w r. (w, true);
  }
