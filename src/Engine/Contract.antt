-- ===== src/Engine/Contract.antt =====
-- The contract of a driver with its node, and the drivers of src/adapters that keep it.
use mathlib.Core.Path.{subst}
use message_io.Prelude.{
  ℕ, ◌≡◌, ap, inl, inr, Bool, Option, none, some, List, [], ◌∷◌, Option-cases, Bool-cases,
}
use message_io.Network.ResourceId.{ResourceId, adapter_id}
use message_io.Network.Messages.{
  SocketAddr, Endpoint, RemoteAddr, ConnectConfig, ListenConfig, Call,
}
use message_io.Network.Adapter.{Remote, Local}
use message_io.Network.Worker.{EventProcessor, bind}
use message_io.Network.TcpDriver.{TcpDriver}
use message_io.Network.TcpDriver.Handlers.{
  process_accept_register_remote, process_connect_register_remote, process_send,
}
use message_io.Network.TcpDriver.Processor.{driver_processor}
use message_io.Engine.Mounted.{checked, unless_panicked}
use message_io.Engine.Quiet.{
  Quiet-refl, process_write-Quiet, register_remote-Quiet, process_listen-Quiet, process_close-Quiet,
}
use message_io.Engine.Handled.{Handled, Quiet-Handled, process_read-Handled}

-- If the call returns, then what it leaves of the driver is so.
abbrev pub Gives : {W P O : Type 0} → Option (W × P × List O) → (P → Type 0) → Type 0
Gives {W} {P} {O} r Q = (w : W) (p : P) (os : List O) → r ≡ some (w, p, os) → Q p

pub record IsHandling {W R L K X Y : Type 0} (p : EventProcessor W (TcpDriver R L K X Y) K X Y)
    : Type 1 where
  pub reads :
      (I J : ℕ → Type 0) (w : W) (d : TcpDriver R L K X Y) (id : ResourceId)
      → Gives (p.process_read w d id) (Handled [] (adapter_id id) I J d)
  pub writes :
      (I J : ℕ → Type 0) (w : W) (d : TcpDriver R L K X Y) (id : ResourceId)
      → Gives (p.process_write w d id) (Handled [] (adapter_id id) I J d)
  pub accepts :
      (I J : ℕ → Type 0) (w : W) (d : TcpDriver R L K X Y) (l r : ResourceId × SocketAddr)
      (stream : ℕ) (payload : X)
      → I r.0.id
      → Gives
          (p.process_accept_register_remote w d l r stream payload)
          (Handled [] (adapter_id r.0) I J d)
  pub connect_registers :
      (I J : ℕ → Type 0) (w : W) (d : TcpDriver R L K X Y) (l : SocketAddr)
      (r : ResourceId × SocketAddr) (stream : ℕ) (payload : Y) (cb : ℕ)
      → I r.0.id
      → Gives
          (p.process_connect_register_remote w d l r stream payload cb)
          (Handled [] (adapter_id r.0) I J d)
  pub listens :
      (I J : ℕ → Type 0) (w : W) (d : TcpDriver R L K X Y) (config : ListenConfig K)
      (id : ResourceId) (addr : SocketAddr) (cb : ℕ)
      → J id.id
      → Gives (p.process_listen w d config id addr cb) (Handled [] (adapter_id id) I J d)
  pub connects :
      (I J : ℕ → Type 0) (w : W) (d : TcpDriver R L K X Y) (config : ConnectConfig K)
      (id : ResourceId) (raddr : RemoteAddr) (cb : ℕ)
      → Gives (p.process_connect w d config id raddr cb) (Handled (id ∷ []) (adapter_id id) I J d)
  pub sends :
      (I J : ℕ → Type 0) (w : W) (d : TcpDriver R L K X Y) (endpoint : Endpoint) (bytes : List ℕ)
      → Gives
          (p.process_send w d endpoint bytes)
          (Handled [] (adapter_id endpoint.resource_id) I J d)
  pub closes :
      (I J : ℕ → Type 0) (w : W) (d : TcpDriver R L K X Y) (id : ResourceId)
      → Gives (p.process_close w d id) (Handled [] (adapter_id id) I J d)
  pub is_readies :
      (I J : ℕ → Type 0) (w : W) (d : TcpDriver R L K X Y) (id : ResourceId) (cb : ℕ)
      → Gives (p.process_is_ready w d id cb) (Handled [] (adapter_id id) I J d)

module _ {W P O : Type 0} where
  left : P → Option (W × P × List O) → P
  left p none = p
  left p (some (_, p', _)) = p'

  pub returned-Gives :
      (Q : P → Type 0) (w : W) (p : P) (os : List O)
      → Q p
      → Gives {W = W} {P = P} {O = O} (some (w, p, os)) Q
  unfolding left
  returned-Gives Q w p os q w' p' os' e = subst Q (ap (left p) e) q

  pub panic-Gives : (Q : P → Type 0) → Gives {W = W} {P = P} {O = O} none Q
  panic-Gives Q w p os e = absurd cc

  unless_panicked-Gives :
      (panicked : W → Bool) (Q : P → Type 0) (r : Option (W × P × List O))
      → Gives r Q
      → Gives (bind r (unless_panicked panicked)) Q
  unfolding unless_panicked
  unless_panicked-Gives panicked Q none g = panic-Gives Q
  unless_panicked-Gives panicked Q (some (w, p, os)) g = elim (Bool-cases (panicked w)) [
    | inl e ↦ rw (e, unless_panicked) (panic-Gives Q)
    | inr e ↦ rw (e, unless_panicked) g
  ]

module _ {W R L K X Y : Type 0} where
  pub checked-IsHandling :
      (panicked : W → Bool) (p : EventProcessor W (TcpDriver R L K X Y) K X Y)
      → IsHandling p
      → IsHandling (checked panicked p)
  unfolding checked
  checked-IsHandling panicked p h = record {
    reads = λ I J w d id. unless_panicked-Gives panicked _ _ (h.reads I J w d id);
    writes = λ I J w d id. unless_panicked-Gives panicked _ _ (h.writes I J w d id);
    accepts = λ I J w d l r stream payload inside.
        unless_panicked-Gives panicked _ _ (h.accepts I J w d l r stream payload inside);
    connect_registers = λ I J w d l r stream payload cb inside.
        unless_panicked-Gives panicked _ _
          (h.connect_registers I J w d l r stream payload cb inside);
    listens = λ I J w d config id addr cb inside.
        unless_panicked-Gives panicked _ _ (h.listens I J w d config id addr cb inside);
    connects = λ I J w d config id raddr cb.
        unless_panicked-Gives panicked _ _ (h.connects I J w d config id raddr cb);
    sends = λ I J w d endpoint bytes.
        unless_panicked-Gives panicked _ _ (h.sends I J w d endpoint bytes);
    closes = λ I J w d id. unless_panicked-Gives panicked _ _ (h.closes I J w d id);
    is_readies = λ I J w d id cb. unless_panicked-Gives panicked _ _ (h.is_readies I J w d id cb);
  }

module _ {W R L K X Y : Type 0} (os : Remote W R) (net : Local W L K X) where
  send-Gives :
      (I J : ℕ → Type 0) (w : W) (d : TcpDriver R L K X Y) (endpoint : Endpoint) (bytes : List ℕ)
      → Gives {O = Call}
          (elim (process_send os net w d endpoint bytes) [
            | none ↦ none
            | some (w', _) ↦ some (w', d, [])
          ])
          (Handled [] (adapter_id endpoint.resource_id) I J d)
  send-Gives I J w d endpoint bytes =
      let a = adapter_id endpoint.resource_id in
      elim (Option-cases (process_send os net w d endpoint bytes)) [
        | inl e ↦ rw e (panic-Gives _)
        | inr ((w', status), e) ↦
            rw e (returned-Gives _ w' d [] (Quiet-Handled [] a I J d d (Quiet-refl I J d)))
      ]

  pub driver_processor-IsHandling :
      (new : W → ℕ → X → W × R)
      (register : W
        → TcpDriver R L K X Y
        → SocketAddr
        → ResourceId × SocketAddr
        → ℕ
        → Y
        → ℕ
        → Option (W × TcpDriver R L K X Y × List Call))
      (connect : W
        → TcpDriver R L K X Y
        → ConnectConfig K
        → ResourceId
        → RemoteAddr
        → ℕ
        → Option (W × TcpDriver R L K X Y × List Call))
      → ((I J : ℕ → Type 0) (w : W) (d : TcpDriver R L K X Y) (l : SocketAddr)
            (r : ResourceId × SocketAddr) (stream : ℕ) (payload : Y) (cb : ℕ)
          → I r.0.id
          → Gives (register w d l r stream payload cb) (Handled [] (adapter_id r.0) I J d))
      → ((I J : ℕ → Type 0) (w : W) (d : TcpDriver R L K X Y) (config : ConnectConfig K)
            (id : ResourceId) (raddr : RemoteAddr) (cb : ℕ)
          → Gives (connect w d config id raddr cb) (Handled (id ∷ []) (adapter_id id) I J d))
      → IsHandling (driver_processor os net new register connect)
  unfolding driver_processor process_accept_register_remote
  driver_processor-IsHandling new register connect registers connects = record {
    reads = λ I J w d id. returned-Gives _ _ _ _ (process_read-Handled os net I J w d id);
    writes = λ I J w d id.
        returned-Gives _ _ _ _
          (Quiet-Handled [] (adapter_id id) I J d _ (process_write-Quiet os net I J w d id));
    accepts = λ I J w d l r stream payload inside. returned-Gives _ _ _ _ (
        Quiet-Handled [] (adapter_id r.0) I J d _
          (register_remote-Quiet os net I J d r.0 r.1 (some l.0) (new w stream payload).1 inside));
    connect_registers = registers;
    listens = λ I J w d config id addr cb inside. returned-Gives _ _ _ _ (
        Quiet-Handled [] (adapter_id id) I J d _
          (process_listen-Quiet os net I J w d config id addr cb inside));
    connects = connects;
    sends = send-Gives;
    closes = λ I J w d id.
        returned-Gives _ _ _ _
          (Quiet-Handled [] (adapter_id id) I J d _ (process_close-Quiet os net I J d id));
    is_readies = λ I J w d id cb.
        returned-Gives _ _ _ _ (Quiet-Handled [] (adapter_id id) I J d d (Quiet-refl I J d));
  }

  -- The registration that the TCP and the WebSocket driver have.
  pub connect_register-Gives :
      (new : W → ℕ → Y → W × R) (I J : ℕ → Type 0) (w : W) (d : TcpDriver R L K X Y)
      (l : SocketAddr) (r : ResourceId × SocketAddr) (stream : ℕ) (payload : Y) (cb : ℕ)
      → I r.0.id
      → Gives
          (some (process_connect_register_remote os net new w d l r stream payload cb))
          (Handled [] (adapter_id r.0) I J d)
  unfolding process_connect_register_remote
  connect_register-Gives new I J w d l r stream payload cb inside = returned-Gives _ _ _ _ (
      Quiet-Handled [] (adapter_id r.0) I J d _
        (register_remote-Quiet os net I J d r.0 r.1 none (new w stream payload).1 inside))
