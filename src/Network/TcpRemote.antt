-- ===== src/Network/TcpRemote.antt =====
-- The connection of the TCP adapter, `impl Remote for RemoteResource` of
-- src/adapters/tcp/tcp_adapter.rs. What the system answers to a read is a list of results in their
-- order, and its write is a parameter.
pub mod Receive
pub mod Send
use message_io.Prelude.{
  ℕ, zero, suc, ◌+◌, Bool, true, false, Option, none, some, List, [], ◌∷◌, ◌++◌, length, take, drop,
  ltb, ◌==◌,
}
use message_io.Network.Messages.{
  SocketAddr, SendStatus, sent, resource_not_found, send_abort, ReadStatus, PendingStatus,
  ErrorKind, would_block, interrupted, not_connected, invalid_input, IoResult, ok, err,
}

-- What a read does to the loop of `receive`: it gives a packet, it is tried again, or it ends it.
pub data Reaction : Type 0 where
  give : List ℕ → Reaction
  again : Reaction
  end : ReadStatus → Reaction

-- The match of `receive`; a read of n bytes is the list of them, and of none `Ok(0)`.
unfoldable pub reaction : IoResult (List ℕ) → Reaction
reaction (ok []) = end ReadStatus.disconnected
reaction (ok (b ∷ bytes)) = give (b ∷ bytes)
reaction (err interrupted) = again
reaction (err would_block) = end ReadStatus.wait_next_event
reaction (err _) = end ReadStatus.disconnected

-- The packets for `process_data`, the status, and the results that the system still has; `none`
-- while the loop has not ended.
unfoldable pub receive :
    List (IoResult (List ℕ)) → Option (List (List ℕ) × ReadStatus × List (IoResult (List ℕ)))
receive [] = none
receive (r ∷ reads) =
    let later = receive reads in
    elim (reaction r) [
      | give packet ↦ elim later [
        | none ↦ none
        | some (packets, status, rest) ↦ some (packet ∷ packets, status, rest)
      ]
      | again ↦ later
      | end status ↦ some ([], status, reads)
    ]

abbrev pub max_send_tries : ℕ
max_send_tries = 1000

-- The match of `send`: bytes were taken, it is tried again, or the connection is lost.
pub data Taking : Type 0 where
  took : ℕ → Taking
  refused lost : Taking

unfoldable pub taking : IoResult ℕ → Taking
taking (ok n) = took n
taking (err would_block) = refused
taking (err _) = lost

module _ {W : Type 0} (write : W → List ℕ → W × IoResult ℕ) where
  -- The loop of `send` with the number of tries that are left; `out` is what the system took so
  -- far. `none` is the panic of a slice that starts behind the end.
  unfoldable pub send_loop : ℕ → W → List ℕ → ℕ → List ℕ → Option (W × List ℕ × SendStatus)
  send_loop zero w bytes total out = some (w, out, send_abort)
  send_loop (suc tries) w bytes total out = elim (ltb (length bytes) total) [
    | true ↦ none
    | false ↦
        let (w', answer) = write w (drop total bytes) in
        elim (taking answer) [
          | took n ↦ elim (total + n == length bytes) [
            | true ↦ some (w', out ++ take n (drop total bytes), sent)
            | false ↦ send_loop tries w' bytes (total + n) (out ++ take n (drop total bytes))
          ]
          | refused ↦ send_loop tries w' bytes total out
          | lost ↦ some (w', out, resource_not_found)
        ]
  ]

  unfoldable pub send : W → List ℕ → Option (W × List ℕ × SendStatus)
  send w bytes = send_loop max_send_tries w bytes 0 []

-- `check_tcp_stream_ready`, on what the stream answers to `take_error` and `peer_addr`.
unfoldable pub check_tcp_stream_ready :
    IoResult (Option ErrorKind) → IoResult SocketAddr → PendingStatus
check_tcp_stream_ready (ok (some _)) _ = PendingStatus.disconnected
check_tcp_stream_ready _ (ok _) = PendingStatus.ready
check_tcp_stream_ready _ (err not_connected) = PendingStatus.incomplete
check_tcp_stream_ready _ (err invalid_input) = PendingStatus.incomplete
check_tcp_stream_ready _ (err _) = PendingStatus.disconnected

module _ {W K : Type 0} (set_tcp_keepalive : W → K → W × IoResult (Option ErrorKind)) where
  -- `pending`: the keepalive is set once the connection is ready, and a failure only logged.
  unfoldable pub pending :
      W → IoResult (Option ErrorKind) → IoResult SocketAddr → Option K → W × PendingStatus
  pending w take_error peer_addr keepalive_opt =
      elim (check_tcp_stream_ready take_error peer_addr) [
        | PendingStatus.ready ↦ elim keepalive_opt [
          | none ↦ (w, PendingStatus.ready)
          | some keepalive ↦ ((set_tcp_keepalive w keepalive).0, PendingStatus.ready)
        ]
        | status ↦ (w, status)
      ]
