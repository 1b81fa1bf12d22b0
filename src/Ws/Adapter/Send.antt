-- ===== src/Ws/Adapter/Send.antt =====
-- How `send` of src/adapters/ws/ws_adapter.rs waits for a full socket.
use message_io.Prelude.{ℕ, zero, suc, ◌<◌, ◌≡◌, refl, ap, arith, true, Option, none, some, List}
use message_io.Network.Messages.{SendStatus}
use message_io.Ws.Data.{binary}
use message_io.Ws.Adapter.{
  web_socket, RemoteResource, Answer, WsSystem, WsWorld, set_system, settled, flush_again, finished,
  sending, send_loop, send,
}

module _ {S U : Type 0} (sys : WsSystem S U) (stream : ℕ) where
  -- The answer of a call would block, and so do those of the flushes behind it, until one finishes.
  pub data Settles : ℕ → S → Answer Unit → S → SendStatus → Type 0 where
    now :
        (s : S) (a : Answer Unit) (status : SendStatus)
        → sending a ≡ finished status
        → Settles zero s a s status
    later :
        (n : ℕ) (s s' : S) (a : Answer Unit) (status : SendStatus)
        → sending a ≡ flush_again
        → Settles n (sys.flush s stream).0 (sys.flush s stream).1 s' status
        → Settles (suc n) s a s' status

  pub loop-Settles :
      (n rounds : ℕ) (s s' : S) (a : Answer Unit) (status : SendStatus)
      → Settles n s a s' status
      → n < rounds
      → send_loop sys rounds s stream a ≡ (s', some status)
  unfolding send_loop
  loop-Settles n zero s s' a status settles few = absurd (omega (arith, few))
  loop-Settles _ (suc rounds) s _ a status (Settles.now _ _ _ e) few = rw (e, send_loop) refl
  loop-Settles _ (suc rounds) s s' a status (Settles.later n _ _ _ _ e rest) few =
      rw (e, send_loop)
        (loop-Settles n rounds (sys.flush s stream).0 s' (sys.flush s stream).1 status rest
          (omega (arith, few)))

  loop-endless :
      (rounds : ℕ) (s : S) (a : Answer Unit)
      → ((t : S) → sending (sys.flush t stream).1 ≡ flush_again)
      → sending a ≡ flush_again
      → (send_loop sys rounds s stream a).1 ≡ none
  unfolding send_loop
  loop-endless zero s a full e = refl
  loop-endless (suc rounds) s a full e =
      rw (e, send_loop)
        (loop-endless rounds (sys.flush s stream).0 (sys.flush s stream).1 full (full s))

settled-waiting :
    {S U : Type 0} (w : WsWorld S U) (q : S × Option SendStatus)
    → q.1 ≡ none
    → (settled w q).0.waiting ≡ true
unfolding settled
settled-waiting w (s, none) e = refl
settled-waiting w (s, some status) e = cc

module _ {S U K : Type 0} (bound : ℕ) (sys : WsSystem S U) where
  -- A send on a web socket whose flushes finish after fewer rounds than the bound has the status of
  -- the last.
  pub send-Settles :
      (w : WsWorld S U) (r : RemoteResource K) (stream : ℕ) (bytes : List ℕ) (n : ℕ) (s' : S)
      (status : SendStatus)
      → w.states r.state ≡ web_socket stream
      → Settles sys stream n
          (sys.send w.system stream (binary bytes)).0
          (sys.send w.system stream (binary bytes)).1
          s'
          status
      → n < bound
      → send bound sys w r bytes ≡ (set_system w s', status)
  unfolding send settled
  send-Settles w r stream bytes n s' status ready settles few =
      let (s, a) = sys.send w.system stream (binary bytes) in
      rw (ready, send)
        (ap (λ q. settled w q) (loop-Settles sys stream n bound s s' a status settles few))

  -- There is no limit on the rounds: against a peer that takes nothing, where every flush would
  -- block, a send is still waiting at whatever bound.
  pub send-waiting :
      (w : WsWorld S U) (r : RemoteResource K) (stream : ℕ) (bytes : List ℕ)
      → w.states r.state ≡ web_socket stream
      → sending (sys.send w.system stream (binary bytes)).1 ≡ flush_again
      → ((t : S) → sending (sys.flush t stream).1 ≡ flush_again)
      → (send bound sys w r bytes).0.waiting ≡ true
  unfolding send settled
  send-waiting w r stream bytes ready first full =
      let (s, a) = sys.send w.system stream (binary bytes) in
      rw (ready, send)
        (settled-waiting w (send_loop sys bound s stream a)
          (loop-endless sys stream bound s a full first))
