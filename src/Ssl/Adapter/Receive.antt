-- ===== src/Ssl/Adapter/Receive.antt =====
-- What `receive` of src/adapters/ssl/ssl_adapter.rs makes of a TLS connection: of the client hello, and
-- of the reads behind it.
use message_io.Prelude.{ℕ, zero, suc, ◌<◌, ◌≡◌, refl, ap, ◌∙◌, arith, List, [], ◌∷◌, length}
use message_io.Network.Messages.{ReadStatus, interrupted, IoResult, ok, err}
use message_io.Network.TcpRemote.{Reaction, give, again, end, reaction}
use message_io.Network.TcpRemote.Receive.{IsRunning, packets_of}
use message_io.Ssl.Adapter.{
  SslStream, client_connection, server_connection, SslSystem, SslWorld, set_system, read_round,
  receive_round, receive_loop,
}

module _ {S Q G E K : Type 0} (sys : SslSystem S Q G E K) (socket : ℕ) where
  -- The answers of the reads of an established connection after which the loop goes on.
  pub data Reads : S → List (IoResult (List ℕ)) → S → Type 0 where
    nothing : (s : S) → Reads s [] s
    next :
        (s s' : S) (answer : IoResult (List ℕ)) (rest : List (IoResult (List ℕ)))
        → (sys.read s socket).1 ≡ answer
        → IsRunning answer
        → Reads (sys.read s socket).0 rest s'
        → Reads s (answer ∷ rest) s'

  -- A stream that is read from, by its client or its server connection.
  pub data IsReading : SslStream Q G → Type 0 where
    by_client : IsReading (client_connection socket)
    by_server : IsReading (server_connection socket)

  round_reads :
      (w : SslWorld S Q G) (cell : ℕ) (stream : SslStream Q G)
      → w.streams cell ≡ stream
      → IsReading stream
      → receive_round sys w cell ≡ read_round sys w socket
  unfolding receive_round
  round_reads w cell _ e IsReading.by_client = rw (e, receive_round) refl
  round_reads w cell _ e IsReading.by_server = rw (e, receive_round) refl

  -- What the loop makes of a round.
  abbrev turn : ℕ → ℕ → SslWorld S Q G × Reaction → SslWorld S Q G × List (List ℕ) × ReadStatus
  turn rounds cell q =
      let later = receive_loop sys rounds q.0 cell in
      elim q.1 [
        | give packet ↦ (later.0, packet ∷ later.1, later.2)
        | again ↦ later
        | end status ↦ (q.0, [], status)
      ]

  pub loop_end :
      (rounds : ℕ) (w w' : SslWorld S Q G) (cell : ℕ) (status : ReadStatus)
      → receive_round sys w cell ≡ (w', end status)
      → receive_loop sys (suc rounds) w cell ≡ (w', [], status)
  unfolding receive_loop
  loop_end rounds w w' cell status e = ap (λ q. turn rounds cell q) e

  pub loop_again :
      (rounds : ℕ) (w w' : SslWorld S Q G) (cell : ℕ)
      → receive_round sys w cell ≡ (w', again)
      → receive_loop sys (suc rounds) w cell ≡ receive_loop sys rounds w' cell
  unfolding receive_loop
  loop_again rounds w w' cell e = ap (λ q. turn rounds cell q) e

  loop_give :
      (rounds : ℕ) (w w' : SslWorld S Q G) (cell : ℕ) (packet : List ℕ)
      → receive_round sys w cell ≡ (w', give packet)
      → let later = receive_loop sys rounds w' cell in
        receive_loop sys (suc rounds) w cell ≡ (later.0, packet ∷ later.1, later.2)
  unfolding receive_loop
  loop_give rounds w w' cell packet e = ap (λ q. turn rounds cell q) e

  read_is :
      (w : SslWorld S Q G) (answer : IoResult (List ℕ))
      → (sys.read w.system socket).1 ≡ answer
      → read_round sys w socket ≡ (set_system w (sys.read w.system socket).0, reaction answer)
  unfolding read_round
  read_is w answer e = ap (λ x. (set_system w (sys.read w.system socket).0, reaction x)) e

  -- An established connection gives what it reads, until the answer that ends it.
  pub loop-Reads :
      (rounds : ℕ) (w : SslWorld S Q G) (cell : ℕ) (stream : SslStream Q G)
      (answers : List (IoResult (List ℕ))) (s' : S) (status : ReadStatus)
      → w.streams cell ≡ stream
      → IsReading stream
      → Reads w.system answers s'
      → reaction (sys.read s' socket).1 ≡ end status
      → length answers < rounds
      → receive_loop sys rounds w cell
        ≡ (set_system w (sys.read s' socket).0, packets_of answers, status)
  unfolding reaction
  loop-Reads zero w cell stream answers s' status at reading reads last few =
      absurd (omega (arith, few))
  loop-Reads (suc rounds) w cell stream _ _ status at reading (Reads.nothing s) last few =
      loop_end rounds w (set_system w (sys.read s socket).0) cell status (
        round_reads w cell stream at reading
        ∙ read_is w (sys.read s socket).1 refl
        ∙ ap (λ x. (set_system w (sys.read s socket).0, x)) last)
  loop-Reads (suc rounds) w cell stream _ s' status at reading
        (Reads.next s _ _ rest read (IsRunning.got b bytes) more) last few =
      let w' = set_system w (sys.read s socket).0 in
      let later =
        loop-Reads rounds w' cell stream rest s' status at reading more last (omega (arith, few)) in
      loop_give rounds w w' cell (b ∷ bytes)
        (round_reads w cell stream at reading ∙ read_is w (ok (b ∷ bytes)) read)
      ∙ ap (λ q. (q.0, (b ∷ bytes) ∷ q.1, q.2)) later
  loop-Reads (suc rounds) w cell stream _ s' status at reading
        (Reads.next s _ _ rest read IsRunning.retried more) last few =
      let w' = set_system w (sys.read s socket).0 in
      loop_again rounds w w' cell
        (round_reads w cell stream at reading ∙ read_is w (err interrupted) read)
      ∙ loop-Reads rounds w' cell stream rest s' status at reading more last (omega (arith, few))
