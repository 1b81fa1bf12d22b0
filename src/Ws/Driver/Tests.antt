-- ===== src/Ws/Driver/Tests.antt =====
-- The theorems on the WebSocket adapter and its driver at concrete inputs.
use message_io.Prelude.{ℕ, suc, ◌≡◌, refl, arith, false, none, List, [], ◌∷◌, ◌==◌, if◌then◌else◌}
use message_io.Network.ResourceId.{ResourceId, remote}
use message_io.Network.Messages.{SocketAddr, v4, ReadStatus}
use message_io.Network.Messages as Messages
use message_io.Network.TcpDriver as Tcp
use message_io.Network.Registry.{new_registry}
use message_io.Network.TcpDriver.Stages.{IsSafe}
use message_io.Network.TcpDriver.Stages.Reach.{Step, Reaches, reaches-IsSafe}
use message_io.Ws.Data.{binary, ping, io, would_block}
use message_io.Ws.Adapter.{
  web_socket, error, RemoteResource, ok, err, done, WsSystem, WsWorld, set_system, receive,
  ws_remote,
}
use message_io.Ws.Adapter.Receive.{Offers, receive-binaries}
use message_io.Ws.Adapter.Staged.{ws_stages}
use message_io.Ws.Driver.{
  WsAcceptPayload, WsDriver, Sockets, ws_local, accepted_resource, connected_resource, process_read,
  process_accept_register_remote, new_driver,
}
use message_io.Ws.Driver.Safe.{ws-IsDriven, new_driver-IsSafe, ws_driver-IsSafe}

-- A peer that finishes its handshake at once, and sends a ping, a binary message and nothing more.
abbrev sys : WsSystem ℕ ℕ
sys = record {
  take_error = λ s fd. Messages.ok none;
  peer_addr = λ s fd. Messages.ok (v4 1 80);
  ws_connect = λ s url fd. (s, done);
  ws_accept = λ s fd. (s, done);
  client_handshake = λ s fd. (s, done);
  server_handshake = λ s fd. (s, done);
  read = λ s fd. (
    suc s,
    if s == 0 then ok (ping []) else if s == 1 then ok (binary (7 ∷ [])) else err (io would_block),
  );
  peek = λ s fd. (s, none);
  send = λ s fd m. (s, ok tt);
  flush = λ s fd. (s, ok tt);
}

abbrev sockets : Sockets ℕ ℕ
sockets = record {
  bind_listener = λ s config addr. (s, Messages.err Messages.would_block);
  connect_with = λ s config addr. (s, Messages.err Messages.would_block);
  accepts = λ s l. (s, []);
  local_addr = λ l. v4 0 80;
}

abbrev world : WsWorld ℕ ℕ
world = record { system = 0; states = λ k. error k; panicked = false; waiting = false }

abbrev open_world : WsWorld ℕ ℕ
open_world = record { system = 0; states = λ k. web_socket k; panicked = false; waiting = false }

abbrev fresh : WsDriver ℕ ℕ
fresh = new_driver (record { last = 7; kind = remote })

abbrev listener_id : ResourceId
listener_id = record { id = 6 }

abbrev five : ResourceId
five = record { id = 5 }

abbrev payload : WsAcceptPayload ℕ
payload = record { keepalive_opt = none }

abbrev registered : WsWorld ℕ ℕ × WsDriver ℕ ℕ × List Messages.Call
registered =
    process_accept_register_remote 10 sys sockets world fresh (listener_id, v4 0 80) (five, v4 1 80)
      12 payload 0

abbrev read_once : WsWorld ℕ ℕ × WsDriver ℕ ℕ × List Messages.NetEvent
read_once = process_read 10 sys sockets registered.0 registered.1 five

-- A connection is accepted, and then read.
history :
    Reaches
      (ws_remote 10 sys)
      (ws_local sockets)
      ws_stages
      accepted_resource
      connected_resource
      world
      fresh
      read_once.0
      read_once.1
unfolding process_read process_accept_register_remote new_driver Tcp.new_driver new_registry
history =
    Reaches.after registered.0 registered.1 read_once.0 read_once.1
      (Reaches.after world fresh registered.0 registered.1 Reaches.here (
        Step.accept_register world fresh listener_id (v4 0 80) five (v4 1 80) 12 payload 0 refl
          refl))
      (Step.read registered.0 registered.1 five)

ws_driver-IsSafe_example : IsSafe (λ r. r.state) ws_stages read_once.0 read_once.1
ws_driver-IsSafe_example =
    ws_driver-IsSafe 10 sys sockets world (record { last = 7; kind = remote }) read_once.0
      read_once.1 refl history

reaches-IsSafe_example : IsSafe (λ r. r.state) ws_stages read_once.0 read_once.1
reaches-IsSafe_example =
    reaches-IsSafe (ws_remote 10 sys) (ws_local sockets) ws_stages accepted_resource
      connected_resource world fresh read_once.0 read_once.1 (ws-IsDriven 10 sys sockets)
      (new_driver-IsSafe 10 sys sockets world (record { last = 7; kind = remote }) refl) history

abbrev resource : RemoteResource ℕ
resource = record { state = 12; keepalive_opt = none }

two_offered : Offers sys 12 0 (ping [] ∷ binary (7 ∷ []) ∷ []) 3 ReadStatus.wait_next_event
two_offered =
    Offers.control 0 3 (ping []) (binary (7 ∷ []) ∷ []) ReadStatus.wait_next_event refl tt (
      Offers.packet 1 3 (7 ∷ []) [] ReadStatus.wait_next_event refl refl
        (Offers.last_read 2 3 ReadStatus.wait_next_event refl refl))

receive-binaries_example :
    receive 10 sys open_world resource
    ≡ (set_system open_world 3, (7 ∷ []) ∷ [], ReadStatus.wait_next_event)
receive-binaries_example =
    receive-binaries 10 sys open_world resource 12 (ping [] ∷ binary (7 ∷ []) ∷ []) 3
      ReadStatus.wait_next_event refl two_offered (omega arith)
