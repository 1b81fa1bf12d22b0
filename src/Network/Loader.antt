-- ===== src/Network/Loader.antt =====
-- The list of drivers of a worker: `UnimplementedDriver` of src/network/loader.rs, `mount_adapter` of
-- src/network/transport.rs and `create_multiplexor_worker` of src/network.rs. `D` is a driver that is
-- implemented, with its operations as a parameter.
pub mod Slots
use message_io.Prelude.{ℕ, Option, none, some, List, [], ◌∷◌, set, replicate}
use message_io.Network.ResourceId.{max_adapters}
use message_io.Network.Transport.{Transport, tcp, ssl, ws, id}
use message_io.Network.Worker.{EventProcessor}

-- A place in the list.
pub data Slot (D : Type 0) : Type 0 where
  unimplemented : Slot D
  driver : D → Slot D

module _ {W D X : Type 0} where
  -- A call of a slot: that of its driver, or the panic of `UnimplementedDriver`.
  unfoldable pub call : (D → Option (W × D × List X)) → Slot D → Option (W × Slot D × List X)
  call f unimplemented = none
  call f (driver d) = elim (f d) [
    | none ↦ none
    | some (w, d', outputs) ↦ some (w, driver d', outputs)
  ]

abbrev pub slot_processor :
    {W D K A C : Type 0} → EventProcessor W D K A C → EventProcessor W (Slot D) K A C
slot_processor p = record {
  process_read = λ w s i. call (λ d. p.process_read w d i) s;
  process_write = λ w s i. call (λ d. p.process_write w d i) s;
  process_accept_register_remote = λ w s l r stream payload.
      call (λ d. p.process_accept_register_remote w d l r stream payload) s;
  process_connect_register_remote = λ w s l r stream payload cb.
      call (λ d. p.process_connect_register_remote w d l r stream payload cb) s;
  process_listen = λ w s config i addr cb. call (λ d. p.process_listen w d config i addr cb) s;
  process_connect = λ w s config i raddr cb. call (λ d. p.process_connect w d config i raddr cb) s;
  process_send = λ w s endpoint bytes. call (λ d. p.process_send w d endpoint bytes) s;
  process_close = λ w s i. call (λ d. p.process_close w d i) s;
  process_is_ready = λ w s i cb. call (λ d. p.process_is_ready w d i cb) s;
}

-- `TcpDriver::new`, `SslDriver::new` and `WsDriver::new` are the values of `new`.
module _ {D : Type 0} (new : Transport → D) where
  unfoldable pub mount_adapter : Transport → List (Slot D) → List (Slot D)
  mount_adapter t processors = set processors (id t) (driver (new t))

  -- `Transport::iter` goes through the variants in their order.
  unfoldable pub mount_all : List Transport → List (Slot D) → List (Slot D)
  mount_all [] processors = processors
  mount_all (t ∷ ts) processors = mount_all ts (mount_adapter t processors)

  unfoldable pub create_processors : List (Slot D)
  create_processors = mount_all (tcp ∷ ssl ∷ ws ∷ []) (replicate max_adapters unimplemented)
