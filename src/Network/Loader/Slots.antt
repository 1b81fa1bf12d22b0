-- ===== src/Network/Loader/Slots.antt =====
-- Which adapter ids have a driver in the list of a worker.
use message_io.Prelude.{
  ℕ, ◌<◌, ◌≡◌, ◌≢◌, refl, sym, ap, ◌∙◌, arith, none, some, List, length, get_elem?, set, replicate,
  get_elem?-set_self, get_elem?-set_ne, get_elem?-replicate, length-replicate, length-set,
}
use message_io.Network.ResourceId.{adapter_id, max_adapters}
use message_io.Network.ResourceId.Fields.{adapter_id-lt}
use message_io.Network.Messages.{Endpoint, WakerCommand, send, close}
use message_io.Network.Transport.{Transport, tcp, ssl, ws, id}
use message_io.Network.Worker.{
  EventProcessor, with_processor, handle_command, handle_poll_event, network_read, network_write,
}
use message_io.Network.Loader.{
  Slot, unimplemented, driver, call, slot_processor, mount_adapter, mount_all, create_processors,
}

module _ {D : Type 0} (new : Transport → D) where
  empty : List (Slot D)
  empty = replicate max_adapters unimplemented

  with_tcp : List (Slot D)
  unfolding empty
  with_tcp = set empty (id tcp) (driver (new tcp))

  with_ssl : List (Slot D)
  with_ssl = set with_tcp (id ssl) (driver (new ssl))

  created : create_processors new ≡ set with_ssl (id ws) (driver (new ws))
  unfolding create_processors mount_all mount_adapter with_ssl with_tcp empty
  created = refl

  lengths :
      (length with_tcp ≡ max_adapters)
      × (length with_ssl ≡ max_adapters)
      × (length (create_processors new) ≡ max_adapters)
  unfolding with_ssl with_tcp empty
  lengths =
      let first =
        length-set empty (id tcp) (driver (new tcp))
        ∙ length-replicate {A = Slot D} max_adapters unimplemented in
      let second = length-set with_tcp (id ssl) (driver (new ssl)) ∙ first in
      (
        first,
        second,
        ap (λ x. length x) created ∙ length-set with_ssl (id ws) (driver (new ws)) ∙ second,
      )

  none_yet : length empty ≡ max_adapters
  unfolding empty
  none_yet = length-replicate {A = Slot D} max_adapters unimplemented

  at :
      (j : ℕ)
      → get_elem? (create_processors new) j ≡ get_elem? (set with_ssl (id ws) (driver (new ws))) j
  at j = ap (λ ps. get_elem? ps j) created

  mounted : (t : Transport) → get_elem? (create_processors new) (id t) ≡ some (driver (new t))
  unfolding id with_ssl with_tcp
  mounted tcp =
      at 0
      ∙ get_elem?-set_ne with_ssl {i = 3} {j = 0} (driver (new ws)) (omega arith)
      ∙ get_elem?-set_ne with_tcp {i = 2} {j = 0} (driver (new ssl)) (omega arith)
      ∙ get_elem?-set_self empty 0 (driver (new tcp)) (omega (arith, none_yet))
  mounted ssl =
      let (tcp_length, _, _) = lengths in
      at 2
      ∙ get_elem?-set_ne with_ssl {i = 3} {j = 2} (driver (new ws)) (omega arith)
      ∙ get_elem?-set_self with_tcp 2 (driver (new ssl)) (omega (arith, tcp_length))
  mounted ws =
      let (_, ssl_length, _) = lengths in
      at 3 ∙ get_elem?-set_self with_ssl 3 (driver (new ws)) (omega (arith, ssl_length))

  -- The list of a worker has a place for each adapter id; the id of a transport has its driver, and
  -- every other id has the driver that panics.
  pub create_processors-slots :
      (i : ℕ)
      → i < max_adapters
      → ((t : Transport) → get_elem? (create_processors new) (id t) ≡ some (driver (new t)))
        × (((t : Transport) → i ≢ id t) → get_elem? (create_processors new) i ≡ some unimplemented)
        × (length (create_processors new) ≡ max_adapters)
  unfolding with_ssl with_tcp empty
  create_processors-slots i within =
      let (_, _, all) = lengths in
      (
        mounted,
        λ other.
            at i
            ∙ get_elem?-set_ne with_ssl (driver (new ws)) (λ e. other ws (sym e))
            ∙ get_elem?-set_ne with_tcp (driver (new ssl)) (λ e. other ssl (sym e))
            ∙ get_elem?-set_ne empty (driver (new tcp)) (λ e. other tcp (sym e))
            ∙ get_elem?-replicate {A = Slot D} max_adapters unimplemented i within,
        all,
      )

module _ {W D K A C : Type 0} (p : EventProcessor W D K A C) (new : Transport → D) where
  -- An id whose adapter id is no transport's panics the worker: its readiness events, a send to it
  -- and its close.
  pub handle_poll_event-unmounted :
      (w : W) (queue : List (WakerCommand K A C)) (endpoint : Endpoint) (bytes : List ℕ)
      → ((t : Transport) → adapter_id endpoint.resource_id ≢ id t)
      → let ps = create_processors new in
        let i = endpoint.resource_id in
        (handle_poll_event (slot_processor p) w ps queue (network_read i) ≡ none)
        × (handle_poll_event (slot_processor p) w ps queue (network_write i) ≡ none)
        × (handle_command (slot_processor p) w ps (send endpoint bytes) ≡ none)
        × (handle_command (slot_processor p) w ps (close i) ≡ none)
  unfolding handle_poll_event handle_command with_processor call
  handle_poll_event-unmounted w queue endpoint bytes other =
      let i = adapter_id endpoint.resource_id in
      let (_, none_there, _) =
        create_processors-slots new i (omega (arith, adapter_id-lt endpoint.resource_id)) in
      let it = none_there other in
      (
        rw (it, with_processor) refl,
        rw (it, with_processor) refl,
        rw (it, with_processor) refl,
        rw (it, with_processor) refl,
      )
