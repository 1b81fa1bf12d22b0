-- ===== src/Network/Worker.antt =====
-- The worker of src/network.rs: `process_poll_event`, with `process_event` of src/network/poll.rs,
-- the queue of src/events.rs and the list of drivers of src/network/loader.rs. A panic is `none`.
-- `W` is the state of the system, `P` that of a driver. The queue is a list with its next command
-- first; commands that are posted while a run of the worker lasts stand in it from the start.
pub mod Commands
pub mod Range
use message_io.Prelude.{
  ℕ, zero, suc, Bool, true, false, Option, none, some, List, [], ◌∷◌, ◌++◌, map, get_elem?, set,
  ◌==◌,
}
use message_io.Network.ResourceId.{ResourceId, adapter_id, from_token}
use message_io.Network.Messages.{
  SocketAddr, Endpoint, NetEvent, RemoteAddr, ConnectConfig, ListenConfig, WakerCommand, greet,
  accept_register_remote, connect_register_remote, listen, connect, send, send_sync, close,
  is_ready, stop, Call, sent_answer,
}

pub data PollEvent : Type 0 where
  network_read network_write : ResourceId → PollEvent
  waker : PollEvent

pub data NodeEvent (K A C : Type 0) : Type 0 where
  network : NetEvent → NodeEvent K A C
  woken : WakerCommand K A C → NodeEvent K A C

-- What the outside sees, in order: an event that is emitted or a callback that is called.
pub data Output (K A C : Type 0) : Type 0 where
  emitted : NodeEvent K A C → Output K A C
  called : Call → Output K A C

-- The trait `EventProcessor` of src/network/driver.rs.
pub record EventProcessor (W P K A C : Type 0) : Type 0 where
  pub process_read : W → P → ResourceId → Option (W × P × List NetEvent)
  pub process_write : W → P → ResourceId → Option (W × P × List NetEvent)
  pub process_accept_register_remote :
      W → P → ResourceId × SocketAddr → ResourceId × SocketAddr → ℕ → A → Option (W × P × List Call)
  pub process_connect_register_remote :
      W → P → SocketAddr → ResourceId × SocketAddr → ℕ → C → ℕ → Option (W × P × List Call)
  pub process_listen :
      W → P → ListenConfig K → ResourceId → SocketAddr → ℕ → Option (W × P × List Call)
  pub process_connect :
      W → P → ConnectConfig K → ResourceId → RemoteAddr → ℕ → Option (W × P × List Call)
  pub process_send : W → P → Endpoint → List ℕ → Option (W × P × List Call)
  pub process_close : W → P → ResourceId → Option (W × P × List Call)
  pub process_is_ready : W → P → ResourceId → ℕ → Option (W × P × List Call)

abbrev pub max_commands : ℕ
max_commands = 1024

abbrev pub waker_token : ℕ
waker_token = 0

abbrev pub bind {ℓ κ} : {A : Type ℓ} {B : Type κ} → Option A → (A → Option B) → Option B
bind none f = none
bind (some a) f = f a

-- An event of mio: its token, and whether it is readable and writable.
pub record MioEvent : Type 0 where
  pub token : ℕ
  pub readable : Bool
  pub writable : Bool

unfoldable pub poll_events : MioEvent → List PollEvent
poll_events e =
    let id = from_token e.token in
    elim (e.token == waker_token) [
      | true ↦ waker ∷ []
      | false ↦
          (elim e.readable [ true ↦ network_read id ∷ [] | false ↦ [] ])
          ++ elim e.writable [ true ↦ network_write id ∷ [] | false ↦ [] ]
    ]

module _ {W P K A C : Type 0} (drivers : EventProcessor W P K A C) where
  -- `get_processor`, a call of the driver, and its outputs; out of range it panics.
  unfoldable pub with_processor :
      {O : Type 0}
      → (O → Output K A C)
      → List P
      → ℕ
      → (P → Option (W × P × List O))
      → Option (W × List P × List (Output K A C))
  with_processor output processors adapter f = elim (get_elem? processors adapter) [
    | none ↦ none
    | some p ↦ bind (f p) (λ (w, p', os). some (w, set processors adapter p', map output os))
  ]

  -- One arm of the match on a command.
  unfoldable pub handle_command :
      W → List P → WakerCommand K A C → Option (W × List P × List (Output K A C))
  handle_command w ps (greet text) = some (w, ps, emitted (woken (greet text)) ∷ [])
  handle_command w ps (accept_register_remote local_pair remote_pair stream payload) =
      with_processor called ps (adapter_id remote_pair.0) (λ p.
        bind (drivers.process_accept_register_remote w p local_pair remote_pair stream payload)
          (λ (w', p', _). some (w', p', [])))
  handle_command w ps (connect_register_remote local_addr remote_pair stream payload cb) =
      with_processor called ps (adapter_id remote_pair.0)
        (λ p. drivers.process_connect_register_remote w p local_addr remote_pair stream payload cb)
  handle_command w ps (listen config local_id addr cb) =
      with_processor called ps (adapter_id local_id)
        (λ p. drivers.process_listen w p config local_id addr cb)
  handle_command w ps (connect config remote_id raddr cb) =
      with_processor called ps (adapter_id remote_id)
        (λ p. drivers.process_connect w p config remote_id raddr cb)
  handle_command w ps (send endpoint bytes) =
      with_processor called ps (adapter_id endpoint.resource_id)
        (λ p. drivers.process_send w p endpoint bytes)
  handle_command w ps (send_sync endpoint bytes cb) =
      with_processor called ps (adapter_id endpoint.resource_id) (λ p.
        bind (drivers.process_send w p endpoint bytes)
          (λ (w', p', calls). some (w', p', calls ++ sent_answer cb ∷ [])))
  handle_command w ps (close id) =
      with_processor called ps (adapter_id id) (λ p. drivers.process_close w p id)
  handle_command w ps (is_ready id cb) =
      with_processor called ps (adapter_id id) (λ p. drivers.process_is_ready w p id cb)
  handle_command w ps stop = some (w, ps, emitted (woken stop) ∷ [])

  -- The loop of a waker event, with the number of commands that it still takes.
  unfoldable pub take_commands :
      ℕ
      → W
      → List P
      → List (WakerCommand K A C)
      → Option (W × List P × List (WakerCommand K A C) × List (Output K A C))
  take_commands zero w ps queue = some (w, ps, queue, [])
  take_commands (suc n) w ps [] = some (w, ps, [], [])
  take_commands (suc n) w ps (c ∷ queue) = bind (handle_command w ps c) (λ (w1, ps1, first).
      bind (take_commands n w1 ps1 queue)
        (λ (w2, ps2, rest, later). some (w2, ps2, rest, first ++ later)))

  -- The closure that `process_poll_event` gives to the poll.
  unfoldable pub handle_poll_event :
      W
      → List P
      → List (WakerCommand K A C)
      → PollEvent
      → Option (W × List P × List (WakerCommand K A C) × List (Output K A C))
  handle_poll_event w ps queue (network_read id) =
      bind
        (with_processor (λ e. emitted (network e)) ps (adapter_id id)
          (λ p. drivers.process_read w p id))
        (λ (w', ps', os). some (w', ps', queue, os))
  handle_poll_event w ps queue (network_write id) =
      bind
        (with_processor (λ e. emitted (network e)) ps (adapter_id id)
          (λ p. drivers.process_write w p id))
        (λ (w', ps', os). some (w', ps', queue, os))
  handle_poll_event w ps queue waker = take_commands max_commands w ps queue

  -- One return of the poll with its events.
  unfoldable pub process_poll_event :
      W
      → List P
      → List (WakerCommand K A C)
      → List PollEvent
      → Option (W × List P × List (WakerCommand K A C) × List (Output K A C))
  process_poll_event w ps queue [] = some (w, ps, queue, [])
  process_poll_event w ps queue (e ∷ events) =
      bind (handle_poll_event w ps queue e) (λ (w1, ps1, queue1, first).
        bind (process_poll_event w1 ps1 queue1 events)
          (λ (w2, ps2, queue2, later). some (w2, ps2, queue2, first ++ later)))
