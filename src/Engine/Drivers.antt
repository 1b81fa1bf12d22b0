-- ===== src/Engine/Drivers.antt =====
-- The drivers of src/adapters in the list of a thread (`mount_adapter` of src/network/transport.rs):
-- a driver is that of one transport, and a boxed payload was made by one.
use message_io.Prelude.{Option, none, some, List}
use message_io.Network.ResourceId.{ResourceIdGenerator}
use message_io.Network.Transport.{Transport, tcp, ssl, ws}
use message_io.Network.Worker.{EventProcessor}
use message_io.Network.TcpDriver as Tcp
use message_io.Network.TcpDriver.{TcpDriver}
use message_io.Engine.{Boxed}

pub data AnyOf (X Y Z : Type 0) : Type 0 where
  of_tcp : X → AnyOf X Y Z
  of_ssl : Y → AnyOf X Y Z
  of_ws : Z → AnyOf X Y Z

module _ {X Y Z : Type 0} where
  abbrev pub transport_of : AnyOf X Y Z → Transport
  transport_of (of_tcp _) = tcp
  transport_of (of_ssl _) = ssl
  transport_of (of_ws _) = ws

  abbrev pub as_tcp : AnyOf X Y Z → Option X
  as_tcp (of_tcp x) = some x
  as_tcp _ = none

  abbrev pub as_ssl : AnyOf X Y Z → Option Y
  as_ssl (of_ssl y) = some y
  as_ssl _ = none

  abbrev pub as_ws : AnyOf X Y Z → Option Z
  as_ws (of_ws z) = some z
  as_ws _ = none

  abbrev pub tcp_boxed : Boxed (AnyOf X Y Z) X
  tcp_boxed = record { wrap = of_tcp; downcast = as_tcp }

  abbrev pub ssl_boxed : Boxed (AnyOf X Y Z) Y
  ssl_boxed = record { wrap = of_ssl; downcast = as_ssl }

  abbrev pub ws_boxed : Boxed (AnyOf X Y Z) Z
  ws_boxed = record { wrap = of_ws; downcast = as_ws }

module _ {S X Y Z : Type 0} where
  -- A call of a boxed driver: that of the driver which it is.
  unfoldable pub any_call :
      {O : Type 0}
      → (X → Option (S × X × List O))
      → (Y → Option (S × Y × List O))
      → (Z → Option (S × Z × List O))
      → AnyOf X Y Z
      → Option (S × AnyOf X Y Z × List O)
  any_call f g h (of_tcp x) = elim (f x) [
    | none ↦ none
    | some (s, x', os) ↦ some (s, of_tcp x', os)
  ]
  any_call f g h (of_ssl y) = elim (g y) [
    | none ↦ none
    | some (s, y', os) ↦ some (s, of_ssl y', os)
  ]
  any_call f g h (of_ws z) = elim (h z) [ none ↦ none | some (s, z', os) ↦ some (s, of_ws z', os) ]

-- `BoxedEventProcessor`.
unfoldable pub any_processor :
    {S X Y Z K A C : Type 0}
    → EventProcessor S X K A C
    → EventProcessor S Y K A C
    → EventProcessor S Z K A C
    → EventProcessor S (AnyOf X Y Z) K A C
any_processor p q r = record {
  process_read = λ s d i.
      any_call (λ e. p.process_read s e i) (λ e. q.process_read s e i) (λ e. r.process_read s e i)
        d;
  process_write = λ s d i.
      any_call (λ e. p.process_write s e i) (λ e. q.process_write s e i)
        (λ e. r.process_write s e i) d;
  process_accept_register_remote = λ s d l i stream payload.
      any_call (λ e. p.process_accept_register_remote s e l i stream payload)
        (λ e. q.process_accept_register_remote s e l i stream payload)
        (λ e. r.process_accept_register_remote s e l i stream payload) d;
  process_connect_register_remote = λ s d l i stream payload cb.
      any_call (λ e. p.process_connect_register_remote s e l i stream payload cb)
        (λ e. q.process_connect_register_remote s e l i stream payload cb)
        (λ e. r.process_connect_register_remote s e l i stream payload cb) d;
  process_listen = λ s d config i addr cb.
      any_call (λ e. p.process_listen s e config i addr cb)
        (λ e. q.process_listen s e config i addr cb) (λ e. r.process_listen s e config i addr cb) d;
  process_connect = λ s d config i raddr cb.
      any_call (λ e. p.process_connect s e config i raddr cb)
        (λ e. q.process_connect s e config i raddr cb)
        (λ e. r.process_connect s e config i raddr cb) d;
  process_send = λ s d endpoint bytes.
      any_call (λ e. p.process_send s e endpoint bytes) (λ e. q.process_send s e endpoint bytes)
        (λ e. r.process_send s e endpoint bytes) d;
  process_close = λ s d i.
      any_call (λ e. p.process_close s e i) (λ e. q.process_close s e i)
        (λ e. r.process_close s e i) d;
  process_is_ready = λ s d i cb.
      any_call (λ e. p.process_is_ready s e i cb) (λ e. q.process_is_ready s e i cb)
        (λ e. r.process_is_ready s e i cb) d;
}

-- The drivers of the three adapters, new ones.
unfoldable pub new_any :
    {R1 L1 K1 A1 C1 R2 L2 K2 A2 C2 R3 L3 K3 A3 C3 : Type 0}
    → ResourceIdGenerator
    → Transport
    → AnyOf (TcpDriver R1 L1 K1 A1 C1) (TcpDriver R2 L2 K2 A2 C2) (TcpDriver R3 L3 K3 A3 C3)
new_any rgen tcp = of_tcp (Tcp.new_driver rgen)
new_any rgen ssl = of_ssl (Tcp.new_driver rgen)
new_any rgen ws = of_ws (Tcp.new_driver rgen)
