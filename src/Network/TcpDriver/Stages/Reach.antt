-- ===== src/Network/TcpDriver/Stages/Reach.antt =====
-- The driver as a state machine: its handlers, and what the system does between them, are steps.
use message_io.Prelude.{ℕ, ◌≡◌, none, some, List}
use mathlib.Core.Path.{subst}
use message_io.Network.ResourceId.{ResourceId}
use message_io.Network.Messages.{SocketAddr, Endpoint, SendStatus, ListenConfig}
use message_io.Network.Adapter.{Remote, Local}
use message_io.Network.TcpDriver.{TcpDriver, process_read, process_write}
use message_io.Network.TcpDriver.Handlers.{
  process_accept_register_remote, process_connect_register_remote, process_listen, process_send,
  process_close,
}
use message_io.Network.TcpDriver.Reads.{entry}
use message_io.Network.TcpDriver.Stages.{
  Stages, Unmoved, IsStaged, SendsStaged, LeavesStages, OpensStage, IsSafe,
}
use message_io.Network.TcpDriver.Stages.Keeps.{still-IsSafe, registry-IsSafe}
use message_io.Network.TcpDriver.Stages.Polls.{process_read-IsSafe, process_write-IsSafe}
use message_io.Network.TcpDriver.Stages.Steps.{
  SafeAfter, send-SafeAfter, close-IsSafe, listen-IsSafe, new-IsSafe,
}

module _ {W R L K A C : Type 0} (os : Remote W R) (net : Local W L K A) (st : Stages W)
    (new_accepted : W → ℕ → A → W × R) (new_connected : W → ℕ → C → W × R) where
  -- A handler of the driver, at any input; a registration is of an id that is not used on a stream
  -- that is not watched. Between the handlers the system may do what touches no connection, and so
  -- does the handler of `Connect`, which only posts.
  pub data Step : W → TcpDriver R L K A C → W → TcpDriver R L K A C → Type 0 where
    read :
        (w : W) (d : TcpDriver R L K A C) (id : ResourceId)
        → Step w d (process_read os net w d id).0 (process_read os net w d id).1
    write :
        (w : W) (d : TcpDriver R L K A C) (id : ResourceId)
        → Step w d (process_write os net w d id).0 (process_write os net w d id).1
    send :
        (w : W) (d : TcpDriver R L K A C) (endpoint : Endpoint) (bytes : List ℕ) (w' : W)
        (status : SendStatus)
        → process_send os net w d endpoint bytes ≡ some (w', status)
        → Step w d w' d
    close :
        (w : W) (d : TcpDriver R L K A C) (id : ResourceId)
        → Step w d w (process_close os net d id).0
    listen :
        (w : W) (d : TcpDriver R L K A C) (config : ListenConfig K) (id : ResourceId)
        (addr : SocketAddr) (callback : ℕ)
        → Step w d
            (process_listen os net w d config id addr callback).0
            (process_listen os net w d config id addr callback).1
    accept_register :
        (w : W) (d : TcpDriver R L K A C) (listener : ResourceId) (local_addr : SocketAddr)
        (id : ResourceId) (addr : SocketAddr) (stream : ℕ) (payload : A) (callback : ℕ)
        → entry d id ≡ none
        → d.remote_registry.polled stream ≡ none
        → Step w d
            (process_accept_register_remote os net new_accepted w d
              (listener, local_addr)
              (id, addr)
              stream
              payload
              callback).0
            (process_accept_register_remote os net new_accepted w d
              (listener, local_addr)
              (id, addr)
              stream
              payload
              callback).1
    connect_register :
        (w : W) (d : TcpDriver R L K A C) (local_addr : SocketAddr) (id : ResourceId)
        (addr : SocketAddr) (stream : ℕ) (payload : C) (callback : ℕ)
        → entry d id ≡ none
        → d.remote_registry.polled stream ≡ none
        → Step w d
            (process_connect_register_remote os net new_connected w d local_addr
              (id, addr)
              stream
              payload
              callback).0
            (process_connect_register_remote os net new_connected w d local_addr
              (id, addr)
              stream
              payload
              callback).1
    outside :
        (w w' : W) (d d' : TcpDriver R L K A C)
        → Unmoved st w w'
        → d'.remote_registry ≡ d.remote_registry
        → Step w d w' d'

  pub data Reaches (w : W) (d : TcpDriver R L K A C) : W → TcpDriver R L K A C → Type 0 where
    here : Reaches w d w d
    after :
        (w1 : W) (d1 : TcpDriver R L K A C) (w2 : W) (d2 : TcpDriver R L K A C)
        → Reaches w d w1 d1
        → Step w1 d1 w2 d2
        → Reaches w d w2 d2

  -- What an adapter owes to the driver.
  pub record IsDriven : Type 0 where
    pub staged : IsStaged os st
    pub sends : SendsStaged os st
    pub still : LeavesStages net st
    pub accepts : OpensStage os st new_accepted
    pub connects : OpensStage os st new_connected

  step-IsSafe :
      (w : W) (d : TcpDriver R L K A C) (w' : W) (d' : TcpDriver R L K A C)
      → IsDriven
      → IsSafe os.source st w d
      → Step w d w' d'
      → IsSafe os.source st w' d'
  unfolding process_accept_register_remote process_connect_register_remote
  step-IsSafe _ _ _ _ a safe (Step.read w d id) =
      process_read-IsSafe os net st w d id a.staged a.still safe
  step-IsSafe _ _ _ _ a safe (Step.write w d id) =
      process_write-IsSafe os net st w d id a.staged safe
  step-IsSafe _ _ _ _ a safe (Step.send w d endpoint bytes w' status e) =
      subst (λ o. SafeAfter os net st d o) e
        (send-SafeAfter os net st w d endpoint bytes a.sends a.still safe)
  step-IsSafe _ _ _ _ a safe (Step.close w d id) = close-IsSafe os net st w d id safe
  step-IsSafe _ _ _ _ a safe (Step.listen w d config id addr callback) =
      listen-IsSafe os net st w d config id addr callback a.still safe
  step-IsSafe _ _ _ _ a safe
        (Step.accept_register w d listener local_addr id addr stream p cb unused fresh) =
      new-IsSafe os net st new_accepted w d id addr (some listener) stream p a.accepts safe unused
        fresh
  step-IsSafe _ _ _ _ a safe
        (Step.connect_register w d local_addr id addr stream p cb unused fresh) =
      new-IsSafe os net st new_connected w d id addr none stream p a.connects safe unused fresh
  step-IsSafe _ _ _ _ a safe (Step.outside w w' d d' still same) =
      registry-IsSafe os.source st w' d d' (still-IsSafe os.source st w w' d safe still) same

  -- Whatever its handlers are given and in whatever order, the driver calls an adapter only in the
  -- stages in which the adapter can be called: from a safe state every state that steps lead to is
  -- safe, so that no call has panicked, the registry agrees with the poll, and the `ready` flag of
  -- each registered connection shows its stage. The adapter keeps its stages (`IsDriven`), new
  -- connections have an unused id and a stream that is not watched, and what the system does by
  -- itself touches no connection.
  pub reaches-IsSafe :
      (w : W) (d : TcpDriver R L K A C) (w' : W) (d' : TcpDriver R L K A C)
      → IsDriven
      → IsSafe os.source st w d
      → Reaches w d w' d'
      → IsSafe os.source st w' d'
  reaches-IsSafe w d _ _ a safe Reaches.here = safe
  reaches-IsSafe w d _ _ a safe (Reaches.after w1 d1 w2 d2 before step) =
      step-IsSafe w1 d1 w2 d2 a (reaches-IsSafe w d w1 d1 a safe before) step
