-- ===== src/Ssl/Tests.antt =====
-- The theorems on the TLS adapter and its driver at concrete inputs.
use message_io.Prelude.{
  ℕ, suc, ◌≡◌, refl, arith, true, false, none, some, List, [], ◌∷◌, ◌==◌, if◌then◌else◌,
}
use message_io.Network.ResourceId.{ResourceId, remote, resource_type}
use message_io.Network.Messages.{
  SocketAddr, v4, NetEvent, accepted, Call, SendStatus, ReadStatus, would_block, ok, err,
  PendingStatus,
}
use message_io.Network.TcpRemote.{Reaction, reaction, check_tcp_stream_ready}
use message_io.Network.TcpRemote.Receive.{IsRunning, packets_of}
use message_io.Ssl.Adapter.{
  SslStream, stream_acceptor, server_connection, RemoteResource, Hello, incomplete, SslSystem,
  SslWorld, set_stream, set_system, check_stream_ready, receive,
}
use message_io.Ssl.Adapter as Adapter
use message_io.Ssl.Adapter.Receive.{Reads}
use message_io.Ssl.Adapter.Accepting.{receive-accepts, receive-incomplete}
use message_io.Ssl.Driver.{SslAcceptPayload, SslDriver, Sockets, new_driver}
use message_io.Ssl.Driver.Handlers.{process_write, process_accept_register_remote, process_send}
use message_io.Ssl.Driver.Early.{process_send-early}

-- A client whose hello is whole, and that sends a packet after it. The acceptor counts its reads.
abbrev sys : SslSystem ℕ ℕ ℕ ℕ ℕ
sys = record {
  take_error = λ s fd. ok none;
  peer_addr = λ s fd. ok (v4 1 80);
  set_tcp_keepalive = λ s fd k. s;
  new_acceptor = 0;
  read_tls = λ s q fd. (suc s, suc q, ok 5);
  accept = λ q. (q, Adapter.accepted 3);
  into_connection = λ s it config fd. (s, true);
  read = λ s fd. (suc s, if s == 1 then ok (7 ∷ []) else err would_block);
  write = λ s fd bytes. (s, ok 0);
}

-- A client of whose hello a part has arrived.
abbrev slow : SslSystem ℕ ℕ ℕ ℕ ℕ
slow = record sys { accept = λ q. (q, incomplete) }

abbrev sockets : Sockets ℕ ℕ ℕ
sockets = record {
  bind_listener = λ s config addr. (s, err would_block);
  connect_socket = λ s config addr. (s, err would_block);
  accepts = λ s l. (s, []);
  local_addr = λ l. v4 0 80;
  create_server_config = λ cert key. some 1;
}

abbrev world : SslWorld ℕ ℕ ℕ
world = record {
  system = 0;
  streams = λ k. stream_acceptor (some k) (some 0) 1;
  panicked = false;
  waiting = false;
}

abbrev fresh : SslDriver ℕ ℕ
fresh = new_driver (record { last = 7; kind = remote })

abbrev listener_id : ResourceId
listener_id = record { id = 6 }

abbrev five : ResourceId
five = record { id = 5 }

abbrev peer : SocketAddr
peer = v4 1 80

abbrev payload : SslAcceptPayload ℕ ℕ
payload = record { keepalive_opt = none; server_config = 1 }

abbrev resource : RemoteResource ℕ
resource = record { stream = 12; keepalive_opt = none }

five_is_remote : resource_type five ≡ remote
unfolding resource_type
five_is_remote = refl

is_connected : check_stream_ready sys 0 12 ≡ PendingStatus.ready
unfolding check_stream_ready check_tcp_stream_ready
is_connected = refl

abbrev registered : SslWorld ℕ ℕ ℕ × SslDriver ℕ ℕ × List Call
registered =
    process_accept_register_remote 10 sys sockets world fresh (listener_id, v4 0 80) (five, peer) 12
      payload 0

abbrev written : SslWorld ℕ ℕ ℕ × SslDriver ℕ ℕ × List NetEvent
written = process_write 10 sys sockets registered.0 registered.1 five

process_send-early_example :
    (written.2 ≡ accepted (record { resource_id = five; addr = peer }) listener_id ∷ [])
    × ((o : SslWorld ℕ ℕ ℕ × SendStatus) × (process_send 10 sys sockets written.0 written.1
            (record { resource_id = five; addr = peer })
            (1 ∷ [])
          ≡ some o)
        × (o.0.panicked ≡ true))
process_send-early_example =
    process_send-early 10 sys sockets world fresh listener_id five (v4 0 80) peer 12 payload 0
      (1 ∷ []) five_is_remote is_connected

one_read : Reads sys 12 1 (ok (7 ∷ []) ∷ []) 2
one_read = Reads.next 1 2 (ok (7 ∷ [])) [] refl (IsRunning.got 7 []) (Reads.nothing 2)

no_more : reaction (sys.read 2 12).1 ≡ Reaction.end ReadStatus.wait_next_event
unfolding reaction
no_more = refl

receive-accepts_example : receive 10 sys world resource ≡ (
  set_stream (set_system world 3) 12 (server_connection 12),
  packets_of (ok (7 ∷ []) ∷ []),
  ReadStatus.wait_next_event,
)
receive-accepts_example =
    receive-accepts 9 sys world resource 12 0 1 5 3 (ok (7 ∷ []) ∷ []) 2 ReadStatus.wait_next_event
      refl refl refl refl one_read no_more (omega arith)

abbrev disconnected : SslWorld ℕ ℕ ℕ × List (List ℕ) × ReadStatus
disconnected = receive 10 slow world resource

receive-incomplete_example :
    (disconnected.1 ≡ [])
    × (disconnected.2 ≡ ReadStatus.disconnected)
    × (disconnected.0.panicked ≡ false)
    × (disconnected.0.streams 12 ≡ stream_acceptor (some 12) (some 1) 1)
receive-incomplete_example = receive-incomplete 9 slow world resource 12 0 1 5 refl refl refl
