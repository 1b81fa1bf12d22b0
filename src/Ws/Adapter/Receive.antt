-- ===== src/Ws/Adapter/Receive.antt =====
-- What `receive` of src/adapters/ws/ws_adapter.rs gives to the user of what the peer sent.
use message_io.Prelude.{
  ℕ, zero, suc, ◌<◌, ◌≡◌, refl, ap, arith, Option, none, some, List, [], ◌∷◌, length,
}
use message_io.Network.Messages.{ReadStatus}
use message_io.Ws.Data.{
  Message, text, binary, ping, pong, close, raw_frame, IoErrorKind, would_block, Error, io,
}
use message_io.Ws.Adapter.{
  web_socket, RemoteResource, Answer, ok, err, WsSystem, WsWorld, set_system, received, again, end,
  io_error_to_read_status, message_reaction, reaction, receive_loop, receive,
}

-- The binary messages of a list, in order.
abbrev pub binaries : List (Message (List ℕ)) → List (List ℕ)
binaries [] = []
binaries (binary data' ∷ ms) = data' ∷ binaries ms
binaries (_ ∷ ms) = binaries ms

-- A message that is neither data for the user nor the end of the connection.
abbrev pub IsPassedOver : Message (List ℕ) → Type 0
IsPassedOver (binary _) = ⊥
IsPassedOver (close _) = ⊥
IsPassedOver _ = Unit

-- How a read ends: a wait when the stream has no more for now, else a disconnection.
abbrev pub io_ending : IoErrorKind → ReadStatus
io_ending would_block = ReadStatus.wait_next_event
io_ending _ = ReadStatus.disconnected

abbrev pub ending : Answer (Message (List ℕ)) → Option ReadStatus
ending (ok (close _)) = some ReadStatus.disconnected
ending (ok _) = none
ending (err (io e)) = some (io_ending e)
ending (err _) = some ReadStatus.disconnected

io_ending_same : (e : IoErrorKind) → io_error_to_read_status e ≡ io_ending e
unfolding io_error_to_read_status
io_ending_same would_block = refl
io_ending_same IoErrorKind.connection_reset = refl
io_ending_same IoErrorKind.interrupted = refl
io_ending_same IoErrorKind.unexpected_eof = refl
io_ending_same (IoErrorKind.other_kind _) = refl

passed_over : (m : Message (List ℕ)) → IsPassedOver m → message_reaction m ≡ again
unfolding message_reaction
passed_over (text _) h = refl
passed_over (binary _) h = elim h [ ]
passed_over (ping _) h = refl
passed_over (pong _) h = refl
passed_over (close _) h = elim h [ ]
passed_over (raw_frame _) h = refl

passed_over_binaries :
    (m : Message (List ℕ)) (ms : List (Message (List ℕ)))
    → IsPassedOver m
    → binaries (m ∷ ms) ≡ binaries ms
passed_over_binaries (text _) ms h = refl
passed_over_binaries (binary _) ms h = elim h [ ]
passed_over_binaries (ping _) ms h = refl
passed_over_binaries (pong _) ms h = refl
passed_over_binaries (close _) ms h = elim h [ ]
passed_over_binaries (raw_frame _) ms h = refl

reaction-ending :
    (a : Answer (Message (List ℕ))) (status : ReadStatus)
    → ending a ≡ some status
    → reaction a ≡ end status
unfolding reaction message_reaction
reaction-ending (ok (text _)) status e = absurd cc
reaction-ending (ok (binary _)) status e = absurd cc
reaction-ending (ok (ping _)) status e = absurd cc
reaction-ending (ok (pong _)) status e = absurd cc
reaction-ending (ok (close _)) status e = cc
reaction-ending (ok (raw_frame _)) status e = absurd cc
reaction-ending (err (io x)) status e = rw (io_ending_same x) cc
reaction-ending (err Error.connection_closed) status e = cc
reaction-ending (err Error.already_closed) status e = cc
reaction-ending (err (Error.capacity _)) status e = cc
reaction-ending (err (Error.protocol_error _)) status e = cc
reaction-ending (err (Error.write_buffer_full _)) status e = cc
reaction-ending (err Error.utf8) status e = cc
reaction-ending (err Error.attack_attempt) status e = cc

module _ {S U : Type 0} (sys : WsSystem S U) (stream : ℕ) where
  -- What a stream does from one state to another: it offers messages, one for a read, until a read or
  -- a look behind a binary message ends the call with a status.
  pub data Offers : S → List (Message (List ℕ)) → S → ReadStatus → Type 0 where
    last_read :
        (s s' : S) (status : ReadStatus)
        → ending (sys.read s stream).1 ≡ some status
        → s' ≡ (sys.read s stream).0
        → Offers s [] s' status
    last_packet :
        (s s' : S) (data' : List ℕ) (e : IoErrorKind) (status : ReadStatus)
        → (sys.read s stream).1 ≡ ok (binary data')
        → (sys.peek (sys.read s stream).0 stream).1 ≡ some e
        → s' ≡ (sys.peek (sys.read s stream).0 stream).0
        → status ≡ io_ending e
        → Offers s (binary data' ∷ []) s' status
    packet :
        (s s' : S) (data' : List ℕ) (ms : List (Message (List ℕ))) (status : ReadStatus)
        → (sys.read s stream).1 ≡ ok (binary data')
        → (sys.peek (sys.read s stream).0 stream).1 ≡ none
        → Offers (sys.peek (sys.read s stream).0 stream).0 ms s' status
        → Offers s (binary data' ∷ ms) s' status
    control :
        (s s' : S) (m : Message (List ℕ)) (ms : List (Message (List ℕ))) (status : ReadStatus)
        → (sys.read s stream).1 ≡ ok m
        → IsPassedOver m
        → Offers (sys.read s stream).0 ms s' status
        → Offers s (m ∷ ms) s' status

  loop-binaries :
      (rounds : ℕ) (s : S) (ms : List (Message (List ℕ))) (s' : S) (status : ReadStatus)
      → Offers s ms s' status
      → length ms < rounds
      → receive_loop sys rounds s stream ≡ (s', binaries ms, some status)
  unfolding receive_loop reaction message_reaction
  loop-binaries zero s ms s' status offers few = absurd (omega (arith, few))
  loop-binaries (suc rounds) s _ s' status (Offers.last_read _ _ _ last left) few =
      rw (reaction-ending (sys.read s stream).1 status last, left, receive_loop) refl
  loop-binaries (suc rounds) s _ s' status (Offers.last_packet _ _ data' e _ read peek left same)
        few =
      rw (read, message_reaction, peek, left, same, io_ending_same e, receive_loop) refl
  loop-binaries (suc rounds) s _ s' status (Offers.packet _ _ data' ms _ read peek rest) few =
      let after = (sys.peek (sys.read s stream).0 stream).0 in
      let later = loop-binaries rounds after ms s' status rest (omega (arith, few)) in
      rw (read, message_reaction, peek, later, receive_loop) refl
  loop-binaries (suc rounds) s _ s' status (Offers.control _ _ m ms _ read passed rest) few =
      let later =
        loop-binaries rounds (sys.read s stream).0 ms s' status rest (omega (arith, few)) in
      rw (read, passed_over m passed, later, passed_over_binaries m ms passed, receive_loop) refl

module _ {S U K : Type 0} (bound : ℕ) (sys : WsSystem S U) where
  -- A web socket gives the user exactly the binary messages among those that its stream offers, in
  -- order: a text, a ping, a pong or a raw frame is passed over. The call ends at the first close, the
  -- first error of a read or of the look for more behind a binary message, with its status: a wait if
  -- the stream has no more for now, else a disconnection; nothing is read behind it. The bound on
  -- the rounds is above the number of messages.
  pub receive-binaries :
      (w : WsWorld S U) (r : RemoteResource K) (stream : ℕ) (ms : List (Message (List ℕ))) (s : S)
      (status : ReadStatus)
      → w.states r.state ≡ web_socket stream
      → Offers sys stream w.system ms s status
      → length ms < bound
      → receive bound sys w r ≡ (set_system w s, binaries ms, status)
  unfolding receive received
  receive-binaries w r stream ms s status ready offers few =
      rw (ready, receive)
        (ap (λ q. received w q) (loop-binaries sys stream bound w.system ms s status offers few))
