-- ===== src/Network/TcpDriver/Tests.antt =====
-- The theorems on the driver and the worker at concrete inputs.
use message_io.Prelude.{
  ◌*◌, ◌^◌, ◌++◌, ◌+◌, ℕ, suc, ◌≡◌, ◌≢◌, ◌↔◌, refl, arith, ◌⊎◌, true, false, Option, none, some,
  List, [], ◌∷◌, length, get_elem?, set, map, take, drop, replicate, length-replicate, ◌==◌,
  if◌then◌else◌,
}
use message_io.Network.ResourceId.{
  ResourceId, local, remote, resource_type, adapter_id, max_adapters, generate_all,
}
use message_io.Network.Messages.{
  message, SocketAddr, v4, SendStatus, sent, ReadStatus, PendingStatus, err, would_block,
  WakerCommand, greet, stop,
}
use message_io.Network.Adapter.{AcceptedType, Remote, Local}
use message_io.Network.TcpDriver.{
  TcpDriver, RemoteRegister, process_read, process_write, accept_all,
}
use message_io.Network.TcpDriver.Handlers.{
  process_send, process_close, process_is_ready, process_connect_register_remote,
  process_accept_register_remote,
}
use message_io.Network.TcpDriver.Resource.{
  RemoteResource, LocalResource, remote_source, local_source, tcp_resource,
}
use message_io.Network.TcpDriver.Lifecycle.{absent, connecting, accepting, Lives}
use message_io.Network.ResourceId.Generator.{AllDistinct}
use message_io.Network.TcpDriver.Answers.{told, run_polls-process_is_ready}
use message_io.Network.TcpDriver.Accepts.{
  connections, adapters_of, registrations, accept_all-registrations,
}
use message_io.Network.TcpDriver.Runs.{Readiness, run_polls, run_polls-Lives}
use message_io.Network.TcpDriver.Reads.{life, process_read-Lives, process_write-Lives}
use message_io.Network.TcpDriver.Commands.{
  process_close_lem, process_send-not_live, register-life, process_is_ready-local,
}
use message_io.Network.Worker.{
  EventProcessor, Output, bind, with_processor, handle_poll_event, waker, max_commands,
}
use message_io.Network.Worker.{network_read, network_write, handle_command}
use message_io.Network.Messages.{Endpoint, send, close}
use message_io.Network.ResourceId.{adapter_id_pos}
use message_io.Network.Transport.{Transport, tcp, ssl, ws, id}
use message_io.Network.Loader.{slot_processor, create_processors}
use message_io.Network.Loader.Slots.{handle_poll_event-unmounted}
use message_io.Network.Worker.Commands.{run_commands, handle_poll_event-waker}
use message_io.Network.Worker.Range.{with_processor-found}

-- A system in which a connection is ready at once, sends two bytes and hangs up.
abbrev os : Remote ℕ (RemoteResource ℕ)
os = record {
  source = remote_source;
  receive = λ w r. (suc w, (1 ∷ 2 ∷ []) ∷ [], ReadStatus.disconnected);
  send = λ w r bytes. (suc w, sent);
  pending = λ w r. (w, PendingStatus.ready);
  ready_to_write = λ w r. (w, true);
}

abbrev net : Local ℕ (LocalResource ℕ) ℕ (Option ℕ)
net = record {
  source = local_source;
  listen_with = λ w config addr. (w, err would_block);
  accept = λ w l. (w, []);
  send_to = λ w l addr bytes. none;
  local_addr = λ l. v4 0 80;
}

abbrev here : SocketAddr
here = v4 127 9000

abbrev six : ResourceId
six = record { id = 6 }

abbrev five : ResourceId
five = record { id = 5 }

abbrev pending_six : RemoteRegister (RemoteResource ℕ)
pending_six = record {
  resource = record { stream = 11; keepalive_opt = none };
  properties = record { peer_addr = here; local = none; ready = false };
}

abbrev driver : TcpDriver (RemoteResource ℕ) (LocalResource ℕ) ℕ (Option ℕ) (Option ℕ)
driver = record {
  remote_id_generator = record { last = 7; kind = remote };
  posted = [];
  remote_registry = record {
    resources = λ k. if k == 6 then some pending_six else none;
    polled = λ s. none;
  };
  local_registry = record { resources = λ k. none; polled = λ s. none };
}

six_is_remote : resource_type six ≡ remote
unfolding resource_type
six_is_remote = refl

process_read-Lives_example :
    Lives six
      (life driver six)
      (process_read os net 0 driver six).2
      (life (process_read os net 0 driver six).1 six)
process_read-Lives_example = process_read-Lives os net 0 driver six six_is_remote

process_write-Lives_example :
    Lives six
      (life driver six)
      (process_write os net 0 driver six).2
      (life (process_write os net 0 driver six).1 six)
process_write-Lives_example = process_write-Lives os net 0 driver six six_is_remote (λ w r. refl)

process_close_lem_example :
    (life (process_close os net driver six).0 six ≡ absent)
    × (life (process_close os net driver six).0 five ≡ life driver five)
    × (((process_close os net driver six).1 ≡ true) ↔ (some pending_six ≢ none))
    × ((process_close os net (process_close os net driver six).0 six).1 ≡ false)
process_close_lem_example = process_close_lem os net driver six five six_is_remote (omega arith)

process_send-not_live_example :
    (process_send os net 0 driver (record { resource_id = six; addr = here }) (1 ∷ [])
      ≡ some (0, SendStatus.resource_not_found))
    ⊎ (process_send os net 0 driver (record { resource_id = six; addr = here }) (1 ∷ [])
        ≡ some (0, SendStatus.resource_not_available))
process_send-not_live_example =
    process_send-not_live os net 0 driver (record { resource_id = six; addr = here }) (1 ∷ [])
      six_is_remote (λ a e. cc)

abbrev by_user : TcpDriver (RemoteResource ℕ) (LocalResource ℕ) ℕ (Option ℕ) (Option ℕ)
by_user =
    (process_connect_register_remote os net tcp_resource 0 driver here (five, here) 12 none 0).1

abbrev by_listener : TcpDriver (RemoteResource ℕ) (LocalResource ℕ) ℕ (Option ℕ) (Option ℕ)
by_listener =
    (process_accept_register_remote os net tcp_resource 0 driver (six, here) (five, here) 12 none
      0).1

register-life_example :
    (life by_user five ≡ connecting here)
    × (life by_listener five ≡ accepting six here)
    × (life by_user six ≡ life driver six)
    × (life by_listener six ≡ life driver six)
register-life_example =
    register-life os net 0 driver five six six here here 12 tcp_resource none tcp_resource none 0
      (omega arith)

-- A driver that counts its calls.
abbrev counter : EventProcessor ℕ ℕ ℕ ℕ ℕ
counter = record {
  process_read = λ w p id. some (w, suc p, []);
  process_write = λ w p id. some (w, suc p, []);
  process_accept_register_remote = λ w p l r s k. some (w, suc p, []);
  process_connect_register_remote = λ w p l r s k cb. some (w, suc p, []);
  process_listen = λ w p c id a cb. some (w, suc p, []);
  process_connect = λ w p c id a cb. some (w, suc p, []);
  process_send = λ w p e bytes. some (w, suc p, []);
  process_close = λ w p id. some (w, suc p, []);
  process_is_ready = λ w p id cb. some (w, suc p, []);
}

abbrev counters : List ℕ
counters = replicate max_adapters 0

abbrev two_commands : List (WakerCommand ℕ ℕ ℕ)
two_commands = greet (1 ∷ []) ∷ stop ∷ []

handle_poll_event-waker_example :
    handle_poll_event counter 0 counters two_commands waker
    ≡ bind
        (run_commands counter 0 counters (take max_commands two_commands))
        (λ (w', ps', outputs). some (w', ps', drop max_commands two_commands, outputs))
handle_poll_event-waker_example = handle_poll_event-waker counter 0 counters two_commands

counters-length : length counters ≡ max_adapters
counters-length = length-replicate {A = ℕ} max_adapters 0

with_processor-found_example :
    (p : ℕ) × (get_elem? counters (adapter_id six) ≡ some p)
    × ((O : Type 0) (output : O → Output ℕ ℕ ℕ) (f : ℕ → Option (ℕ × ℕ × List O))
        → with_processor counter output counters (adapter_id six) f
          ≡ bind
              (f p)
              (λ (w, p', outputs). some (w, set counters (adapter_id six) p', map output outputs)))
    × ((p' : ℕ) → length (set counters (adapter_id six) p') ≡ max_adapters)
with_processor-found_example = with_processor-found counter counters six counters-length

-- A listener and no connection.
abbrev listener_id : ResourceId
listener_id = record { id = 2 ^ 55 + 1 }

abbrev listener : LocalResource ℕ
listener = record { listener = 9; keepalive_opt = none }

abbrev listening : TcpDriver (RemoteResource ℕ) (LocalResource ℕ) ℕ (Option ℕ) (Option ℕ)
listening = record {
  remote_id_generator = record { last = 7; kind = remote };
  posted = [];
  remote_registry = record { resources = λ k. none; polled = λ s. none };
  local_registry = record {
    resources = λ k.
        if k == 2 ^ 55 + 1
        then some (record { resource = listener; properties = record {} })
        else none;
    polled = λ s. none;
  };
}

listener_is_local : resource_type listener_id ≡ local
unfolding resource_type
listener_is_local = refl

process_is_ready-local_example : process_is_ready os net listening listener_id ≡ none
process_is_ready-local_example =
    process_is_ready-local os net listening listener_id (λ k r e. cc) listener_is_local

-- Two connections, and a datagram between them.
abbrev three_accepted : List (AcceptedType (Option ℕ))
three_accepted =
    AcceptedType.remote here 12 none
    ∷ AcceptedType.datagram here (5 ∷ [])
    ∷ AcceptedType.remote here 13 none
    ∷ []

abbrev new_ids : List ResourceId
new_ids =
    generate_all (record { last = 7; kind = remote })
      (adapters_of listener_id (connections three_accepted))

accept_all-registrations_example :
    ((accept_all os net listening listener_id listener three_accepted).0.posted
      ≡ []
        ++ registrations
            (listener_id, net.local_addr listener)
            new_ids
            (connections three_accepted))
    × ((accept_all os net listening listener_id listener three_accepted).1
        ≡ message (record { resource_id = listener_id; addr = here }) (5 ∷ []) ∷ [])
    × AllDistinct new_ids
accept_all-registrations_example =
    accept_all-registrations os net listening listener_id listener three_accepted (omega arith)

abbrev both : List Readiness
both = Readiness.writable ∷ Readiness.readable ∷ []

run_polls-Lives_example :
    Lives six
      (life driver six)
      (run_polls os net 0 driver six both).2
      (life (run_polls os net 0 driver six both).1 six)
run_polls-Lives_example = run_polls-Lives os net 0 driver six both six_is_remote (λ w r. refl)

run_polls-process_is_ready_example :
    process_is_ready os net (run_polls os net 0 driver six both).1 six
    ≡ told (process_is_ready os net driver six) (run_polls os net 0 driver six both).2
run_polls-process_is_ready_example =
    run_polls-process_is_ready os net 0 driver six both six_is_remote (λ w r. refl) (λ l a e. cc)

-- The list of a worker, whose drivers count their calls.
abbrev ten : Endpoint
ten = record { resource_id = record { id = 10 * 2 ^ adapter_id_pos }; addr = here }

ten_is : adapter_id ten.resource_id ≡ 10
unfolding adapter_id
ten_is = refl

ten_is_unmounted : (t : Transport) → adapter_id ten.resource_id ≢ id t
unfolding id
ten_is_unmounted tcp = omega (arith, ten_is)
ten_is_unmounted ssl = omega (arith, ten_is)
ten_is_unmounted ws = omega (arith, ten_is)

handle_poll_event-unmounted_example :
    (handle_poll_event
        (slot_processor counter)
        0
        (create_processors (λ t. 0))
        two_commands
        (network_read ten.resource_id)
      ≡ none)
    × (handle_poll_event
          (slot_processor counter)
          0
          (create_processors (λ t. 0))
          two_commands
          (network_write ten.resource_id)
        ≡ none)
    × (handle_command (slot_processor counter) 0 (create_processors (λ t. 0)) (send ten (1 ∷ []))
        ≡ none)
    × (handle_command
          (slot_processor counter)
          0
          (create_processors (λ t. 0))
          (close ten.resource_id)
        ≡ none)
handle_poll_event-unmounted_example =
    handle_poll_event-unmounted counter (λ t. 0) 0 two_commands ten (1 ∷ []) ten_is_unmounted
