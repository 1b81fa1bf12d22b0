-- ===== src/Node/ConnectSync.antt =====
-- What a blocking connect returns.
use message_io.Prelude.{
  ℕ, zero, suc, ◌+◌, ◌-◌, ◌≤◌, ◌<◌, ◌≡◌, ◌≢◌, refl, ap, ◌∙◌, arith, Bool, true, false, Option, none,
  some,
}
use message_io.Network.Messages.{SocketAddr, Endpoint, ok}
use message_io.Node.{
  ConnectOutcome, established, failed, connection_refused, connection_aborted, wait_ready,
  connect_sync_with, max_ready_tries,
}

module _ (is_ready_sync : ℕ → Option Bool) (endpoint : Endpoint) (addr : SocketAddr) where
  -- The loop answers by the first try at which the connection is not pending.
  first_answer :
      (before left i : ℕ)
      → ((j : ℕ) → i ≤ j → j < i + before → is_ready_sync j ≡ some false)
      → wait_ready is_ready_sync endpoint addr (before + left) i
        ≡ wait_ready is_ready_sync endpoint addr left (i + before)
  unfolding wait_ready
  first_answer zero left i pending =
      let e : 0 + left ≡ left = omega arith in
      let e' : i ≡ i + 0 = omega arith in
      ap (λ n. wait_ready is_ready_sync endpoint addr n i) e
      ∙ ap (λ k. wait_ready is_ready_sync endpoint addr left k) e'
  first_answer (suc before) left i pending =
      let e : suc before + left ≡ suc (before + left) = omega arith in
      let e' : suc i + before ≡ i + suc before = omega arith in
      let now = pending i (omega arith) (omega arith) in
      let later =
        first_answer before left (suc i) (λ j ge lt. pending j (omega arith) (omega arith)) in
      ap (λ n. wait_ready is_ready_sync endpoint addr n i) e
      ∙ (rw (now, wait_ready) later)
      ∙ ap (λ k. wait_ready is_ready_sync endpoint addr left k) e'

  -- What the connect returns for the first answer that is not `some false`.
  pub outcome : Option Bool → ConnectOutcome
  outcome none = failed connection_refused
  outcome (some _) = established endpoint addr

  answered :
      (left i : ℕ) (o : Option Bool)
      → is_ready_sync i ≡ o
      → o ≢ some false
      → wait_ready is_ready_sync endpoint addr (suc left) i ≡ outcome o
  unfolding wait_ready outcome
  answered left i none e n = rw (e, wait_ready) refl
  answered left i (some true) e n = rw (e, wait_ready) refl
  answered left i (some false) e n = absurd (n refl)

  -- A blocking connect whose socket was made asks whether it is ready up to a thousand times. It
  -- returns by the first answer that is not `some false`: the endpoint for `some true`, and a
  -- refusal if the id is gone.
  pub connect_sync_with-answer :
      (n : ℕ) (o : Option Bool)
      → n < max_ready_tries
      → ((j : ℕ) → j < n → is_ready_sync j ≡ some false)
      → is_ready_sync n ≡ o
      → o ≢ some false
      → connect_sync_with is_ready_sync (ok (endpoint, addr)) ≡ outcome o
  unfolding connect_sync_with
  connect_sync_with-answer n o in_time pending here not_pending =
      let left : ℕ = max_ready_tries - suc n in
      let split : max_ready_tries ≡ n + suc left = omega arith in
      let start : 0 + n ≡ n = omega arith in
      ap (λ k. wait_ready is_ready_sync endpoint addr k 0) split
      ∙ first_answer n (suc left) 0 (λ j _ lt. pending j (omega arith))
      ∙ ap (λ k. wait_ready is_ready_sync endpoint addr (suc left) k) start
      ∙ answered left n o here not_pending

  -- If the connection is still pending at each of the thousand tries, the connect is aborted.
  pub connect_sync_with-aborts :
      ((j : ℕ) → j < max_ready_tries → is_ready_sync j ≡ some false)
      → connect_sync_with is_ready_sync (ok (endpoint, addr)) ≡ failed connection_aborted
  unfolding connect_sync_with wait_ready
  connect_sync_with-aborts pending =
      let split : max_ready_tries ≡ max_ready_tries + 0 = omega arith in
      ap (λ k. wait_ready is_ready_sync endpoint addr k 0) split
      ∙ first_answer max_ready_tries 0 0 (λ j _ lt. pending j (omega arith))
