-- ===== src/Engine/Tests.antt =====
-- The theorems on a whole node at concrete inputs.
use message_io.Prelude.{
  ℕ, ◌≡◌, ◌≢◌, refl, arith, Bool, true, false, Option, none, some, List, [], ◌∷◌, All, sym, ap, ◌∙◌,
  get_or, get_elem?, length, set, ◌≤◌, ◌++◌,
}
use message_io.Network.ResourceId.{
  ResourceId, remote, new_generator, ResourceIdGenerator, adapter_id, max_base_value,
}
use message_io.Network.Transport.{tcp, id}
use message_io.Network.Messages.{
  SocketAddr, v4, SendStatus, sent, ReadStatus, PendingStatus, IoResult, ok, err, would_block,
  ConnectConfig, ListenConfig, RemoteAddr, socket,
}
use message_io.Engine as OfEngine
use message_io.Engine.Threads as OfThreads
use message_io.Engine.Drivers as OfDrivers
use message_io.Engine.Mounted as OfMounted
use message_io.Network.Worker as OfWorker
use message_io.Network.Loader as OfLoader
use message_io.Network.TcpDriver as OfTcpDriver
use message_io.Network.TcpDriver.Handlers as OfHandlers
use message_io.Network.TcpDriver.Resource as OfResource
use message_io.Network.TcpDriver.Processor as OfProcessor
use message_io.Network.Registry as OfRegistry
use message_io.Node as OfNode
use message_io.Network.ResourceId as OfResourceId
use message_io.Network.Transport as OfTransport
use message_io.Network.Worker.{Output}
use message_io.Network.TcpDriver.Resource.{
  RemoteResource, LocalResource, remote_source, local_source,
}
use message_io.Engine.{Part}
use message_io.Engine.Threads.{
  Engine, Thread, master, worker, Action, call_listen, call_connect, take_command, readable, run,
  new_engine, processors_of, queue_of,
}
use message_io.Engine.Mounted.{TcpDriverOf, tcp_processor, ssl_processor, ws_processor}
use message_io.Engine.Drivers.{AnyOf, of_tcp, of_ssl, of_ws, transport_of}
use message_io.Engine.Homes.{HasRemote, HasListener}
use message_io.Network.TcpDriver.{new_driver}
use message_io.Network.Loader.{Slot, driver}
use message_io.Engine.Whole.{
  run_node-home, run_node-once, run_node-AllDistinct, run_node-Meets, run_node-send, Meets,
}
use message_io.Engine.Posts.{PostsNoResource}
use message_io.Engine.Contract.{IsHandling}
use message_io.Engine.Adapters.{
  tcp_processor-IsHandling, ssl_processor-IsHandling, ws_processor-IsHandling,
  processors-IsHandling,
}
use message_io.Network.ResourceId.Generator.{AllDistinct}
use message_io.Network.Messages as Messages
use message_io.Node.{NodeHandler, send_to_endpoint}
use message_io.Node.Routing.{worker_of}
use message_io.Engine.Waiting.{waiting as waiting_for}
use message_io.Engine.Sample.{
  os, net, connect_with, ssl_system, ssl_sockets, names, ws_system, ws_sockets, urls, tcp_part,
  ssl_part, ws_part, system, rgen, one, actions, A, C, Driver, Node, outcome,
}

abbrev start : Node
start = new_engine system 2 []

abbrev got : Option (Node × List (Output ℕ A C)) → Node × List (Output ℕ A C)
got none = (start, [])
got (some r) = r

is_some : Option (Node × List (Output ℕ A C)) → Bool
is_some none = false
is_some (some _) = true

returned : is_some outcome ≡ true
unfolding is_some OfEngine.erase OfEngine.post_all OfEngine.accepted_ids OfEngine.shared_call
    OfEngine.share OfThreads.queue_of OfThreads.set_queue OfThreads.user_connect
    OfThreads.processors_of OfThreads.set_processors OfThreads.posting OfThreads.working
    OfThreads.take_one OfThreads.step OfThreads.run OfThreads.new_engine OfDrivers.any_call
    OfDrivers.any_processor OfDrivers.new_any OfMounted.tcp_processor OfMounted.node_processor
    OfWorker.with_processor OfWorker.handle_command OfWorker.handle_poll_event OfLoader.call
    OfLoader.mount_adapter OfLoader.mount_all OfLoader.create_processors OfTcpDriver.new_driver
    OfTcpDriver.mark_register OfTcpDriver.resolve_pending_remote OfTcpDriver.read_from_remote
    OfTcpDriver.accept_one OfTcpDriver.accept_all OfTcpDriver.read_from_local
    OfTcpDriver.resolve_if_pending OfTcpDriver.process_remote OfTcpDriver.process_read
    OfHandlers.register_remote OfHandlers.process_accept_register_remote OfHandlers.process_listen
    OfHandlers.post_connect_register OfResource.process_connect OfProcessor.driver_processor
    OfRegistry.new_registry OfRegistry.poll_add OfRegistry.drop_register OfRegistry.register
    OfRegistry.get Messages.new_properties Messages.mark_as_ready Messages.socket_addr
    OfNode.to_worker_index OfNode.create_node_handler OfNode.post_to_master OfNode.post
    OfNode.connect_with OfNode.listen_with OfResourceId.resource_type OfResourceId.adapter_id
    OfResourceId.new_generator OfResourceId.generate OfResourceId.new OfResourceId.raw
    OfTransport.id
returned = refl

got_back : (o : Option (Node × List (Output ℕ A C))) → is_some o ≡ true → o ≡ some (got o)
unfolding is_some
got_back none e = absurd cc
got_back (some r) e = refl

abbrev node : Node
node = (got outcome).0

reached : outcome ≡ some (got outcome)
reached = got_back outcome returned

orderly : All PostsNoResource actions
orderly = (tt, (tt, (tt, (tt, (tt, (tt, (tt, (tt, tt))))))))

-- The second worker, which has the accepted connection.
abbrev slots : List (Slot Driver)
slots = get_or node.workers 1 []

abbrev driver_of : Option (Slot Driver) → Driver
driver_of (some (driver d)) = d
driver_of _ = of_tcp (new_driver rgen)

abbrev tcp_driver : Driver
tcp_driver = driver_of (get_elem? slots 0)

abbrev registered : Driver → ℕ → Bool
registered (of_tcp d) k = elim (d.remote_registry.resources k) [ none ↦ false | some _ ↦ true ]
registered _ k = false

clash : ◌≢◌ {A = Bool} true false
clash e = cc

has_remote : (d : Driver) (k : ℕ) → registered d k ≡ true → HasRemote d k
has_remote (of_tcp d) k e = λ gone.
    absurd (clash (sym e ∙ ap (λ o. elim o as (λ _. Bool) [ none ↦ false | some _ ↦ true ]) gone))
has_remote (of_ssl d) k e = absurd cc
has_remote (of_ws d) k e = absurd cc

-- The registration of the connection that the user asked for.
abbrev waiting : List (Messages.WakerCommand ℕ A C)
waiting = get_or node.shared.handler.workers 0 []

abbrev after_send : NodeHandler ℕ A C
after_send = record node.shared.handler {
  workers = set node.shared.handler.workers 1 (
      get_or node.shared.handler.workers 1 []
      ++ Messages.send (record { resource_id = one; addr = v4 1 9000 }) (5 ∷ []) ∷ []);
}

-- What the actions came to.
computed :
    (registered tcp_driver 1 ≡ true)
    × (processors_of node (worker 1) ≡ some slots)
    × (get_elem? slots 0 ≡ some (driver tcp_driver))
    × (length node.shared.issued ≤ max_base_value)
    × (processors_of node (worker 0) ≡ some (get_or node.workers 0 []))
    × (queue_of node.shared.handler (worker 0) ≡ some waiting)
    × (length waiting ≡ 1)
    × (send_to_endpoint node.shared.handler
          (record { resource_id = one; addr = v4 1 9000 })
          (5 ∷ [])
        ≡ some after_send)
unfolding OfNode.send_to_endpoint OfEngine.erase OfEngine.post_all OfEngine.accepted_ids
    OfEngine.shared_call OfEngine.share OfThreads.queue_of OfThreads.set_queue
    OfThreads.user_connect OfThreads.processors_of OfThreads.set_processors OfThreads.posting
    OfThreads.working OfThreads.take_one OfThreads.step OfThreads.run OfThreads.new_engine
    OfDrivers.any_call OfDrivers.any_processor OfDrivers.new_any OfMounted.tcp_processor
    OfMounted.node_processor OfWorker.with_processor OfWorker.handle_command
    OfWorker.handle_poll_event OfLoader.call OfLoader.mount_adapter OfLoader.mount_all
    OfLoader.create_processors OfTcpDriver.new_driver OfTcpDriver.mark_register
    OfTcpDriver.resolve_pending_remote OfTcpDriver.read_from_remote OfTcpDriver.accept_one
    OfTcpDriver.accept_all OfTcpDriver.read_from_local OfTcpDriver.resolve_if_pending
    OfTcpDriver.process_remote OfTcpDriver.process_read OfHandlers.register_remote
    OfHandlers.process_accept_register_remote OfHandlers.process_listen
    OfHandlers.post_connect_register OfResource.process_connect OfProcessor.driver_processor
    OfRegistry.new_registry OfRegistry.poll_add OfRegistry.drop_register OfRegistry.register
    OfRegistry.get Messages.new_properties Messages.mark_as_ready Messages.socket_addr
    OfNode.to_worker_index OfNode.create_node_handler OfNode.post_to_master OfNode.post
    OfNode.connect_with OfNode.listen_with OfResourceId.resource_type OfResourceId.adapter_id
    OfResourceId.new_generator OfResourceId.generate OfResourceId.new OfResourceId.raw
    OfTransport.id
computed = (refl, refl, refl, omega arith, refl, refl, refl, refl)

its_remote : HasRemote tcp_driver 1
its_remote = has_remote tcp_driver 1 computed.0

processors-IsHandling_example :
    IsHandling (tcp_processor os net connect_with)
    × IsHandling (ssl_processor 10 ssl_system ssl_sockets names)
    × IsHandling (ws_processor 10 ws_system ws_sockets urls)
processors-IsHandling_example =
    processors-IsHandling connect_with os net 10 ssl_system ssl_sockets names ws_system ws_sockets
      urls

abbrev h1 : IsHandling (tcp_processor os net connect_with)
h1 = tcp_processor-IsHandling connect_with os net

abbrev h2 : IsHandling (ssl_processor 10 ssl_system ssl_sockets names)
h2 = ssl_processor-IsHandling 10 ssl_system ssl_sockets names

abbrev h3 : IsHandling (ws_processor 10 ws_system ws_sockets urls)
h3 = ws_processor-IsHandling 10 ws_system ws_sockets urls

run_node-home_example :
    (id (transport_of tcp_driver) ≡ 0)
    × (HasRemote tcp_driver 1
        → (◌≡◌ {A = Thread} (worker 1) (worker (worker_of 2 one))) × (adapter_id one ≡ 0))
    × (HasListener tcp_driver 1 → (◌≡◌ {A = Thread} (worker 1) master) × (adapter_id one ≡ 0))
run_node-home_example =
    run_node-home tcp_part ssl_part ws_part (tcp_processor os net connect_with)
      (ssl_processor 10 ssl_system ssl_sockets names) (ws_processor 10 ws_system ws_sockets urls)
      rgen h1 h2 h3 system 2 actions node (got outcome).1 orderly reached (worker 1) slots 0
      tcp_driver 1 computed.1 computed.2

run_node-AllDistinct_example : AllDistinct node.shared.issued
run_node-AllDistinct_example =
    run_node-AllDistinct tcp_part ssl_part ws_part (tcp_processor os net connect_with)
      (ssl_processor 10 ssl_system ssl_sockets names) (ws_processor 10 ws_system ws_sockets urls)
      rgen h1 h2 h3 system 2 actions node (got outcome).1 orderly reached computed.3

run_node-Meets_example : All (λ c. Meets transport_of (get_or node.workers 0 []) c) waiting
run_node-Meets_example =
    run_node-Meets tcp_part ssl_part ws_part (tcp_processor os net connect_with)
      (ssl_processor 10 ssl_system ssl_sockets names) (ws_processor 10 ws_system ws_sockets urls)
      rgen h1 h2 h3 system 2 actions node (got outcome).1 orderly reached 0
      (get_or node.workers 0 []) waiting computed.4 computed.5 computed.3

abbrev endpoint : Messages.Endpoint
endpoint = record { resource_id = one; addr = v4 1 9000 }

run_node-once_example :
    (waiting_for 1 node.shared.handler ≤ 1)
    × ((t : Thread) (qs : List (Slot Driver)) (a : ℕ) (d : Driver)
        → processors_of node t ≡ some qs
        → get_elem? qs a ≡ some (driver d)
        → HasRemote d 1
        → waiting_for 1 node.shared.handler ≡ 0)
run_node-once_example =
    run_node-once tcp_part ssl_part ws_part (tcp_processor os net connect_with)
      (ssl_processor 10 ssl_system ssl_sockets names) (ws_processor 10 ws_system ws_sockets urls)
      rgen h1 h2 h3 system 2 actions node (got outcome).1 orderly reached 1 computed.3

run_node-send_example :
    (0 ≡ adapter_id one)
    × (queue : List (Messages.WakerCommand ℕ A C)) × (queue_of node.shared.handler (worker 1)
        ≡ some queue)
    × (queue_of after_send (worker 1) ≡ some (queue ++ Messages.send endpoint (5 ∷ []) ∷ []))
run_node-send_example =
    run_node-send tcp_part ssl_part ws_part (tcp_processor os net connect_with)
      (ssl_processor 10 ssl_system ssl_sockets names) (ws_processor 10 ws_system ws_sockets urls)
      rgen h1 h2 h3 system 2 actions node (got outcome).1 orderly reached (worker 1) slots 0
      tcp_driver endpoint (5 ∷ []) after_send computed.1 computed.2 its_remote computed.7
