-- ===== src/Engine/Threads.antt =====
-- A whole node: the master and the workers that `launch_thread` of src/node.rs starts, with the
-- handler that the user holds. An action is one call of the user, or of a thread one turn of its loop
-- over its commands or one event of its poll, in any order. A call of `post` or `post_to_master`
-- by the user himself is an action, too, with any command. A thread that goes on in its poll while
-- the node is stopped does actions, too. A callback of the user makes its calls behind the action
-- in which it is called.
use message_io.Prelude.{ℕ, Option, some, List, [], ◌∷◌, ◌++◌, get_elem?, set, replicate}
use message_io.Network.ResourceId.{ResourceId}
use message_io.Network.Transport.{Transport}
use message_io.Network.Messages.{
  SocketAddr, Endpoint, RemoteAddr, ConnectConfig, ListenConfig, WakerCommand,
}
use message_io.Network.Worker.{
  EventProcessor, Output, bind, handle_command, handle_poll_event, network_read, network_write,
}
use message_io.Node.{
  NodeHandler, create_node_handler, post, post_to_master, connect_with, listen_with,
  send_to_endpoint, ask_send_sync, ask_is_ready, close_resource, stop_node,
}
use message_io.Engine.{Shared}

pub data Thread : Type 0 where
  master : Thread
  worker : ℕ → Thread

-- The processors of the master and of the workers.
pub record Engine (S P K A C : Type 0) : Type 0 where
  pub shared : Shared S K A C
  pub master : List P
  pub workers : List (List P)

pub data Action (K A C : Type 0) : Type 0 where
  call_connect : ConnectConfig K → Transport → RemoteAddr → ℕ → Action K A C
  call_listen : ListenConfig K → Transport → SocketAddr → ℕ → Action K A C
  call_send : Endpoint → List ℕ → Action K A C
  call_send_sync : Endpoint → List ℕ → ℕ → Action K A C
  call_is_ready : ResourceId → ℕ → Action K A C
  call_close : ResourceId → Action K A C
  call_post : ResourceId → WakerCommand K A C → Action K A C
  call_post_to_master : WakerCommand K A C → Action K A C
  call_stop : Action K A C
  take_command : Thread → Action K A C
  readable writable : Thread → ResourceId → Action K A C

module _ {K A C : Type 0} where
  unfoldable pub queue_of : NodeHandler K A C → Thread → Option (List (WakerCommand K A C))
  queue_of h master = some h.master
  queue_of h (worker i) = get_elem? h.workers i

  unfoldable pub set_queue :
      NodeHandler K A C → Thread → List (WakerCommand K A C) → NodeHandler K A C
  set_queue h master queue = record h { master = queue }
  set_queue h (worker i) queue = record h { workers = set h.workers i queue }

module _ {S K A C : Type 0} where
  abbrev pub with_handler : Shared S K A C → NodeHandler K A C → Shared S K A C
  with_handler s h = record s { handler = h }

  -- `next_remote_id` counts on the shared generator.
  unfoldable pub user_connect :
      Shared S K A C → ConnectConfig K → Transport → RemoteAddr → ℕ → Shared S K A C
  user_connect s config transport addr cb =
      let (h, remote_id) = connect_with s.handler config transport addr cb in
      record s { handler = h; issued = s.issued ++ remote_id ∷ [] }

module _ {S P K A C : Type 0} where
  unfoldable pub processors_of : Engine S P K A C → Thread → Option (List P)
  processors_of e master = some e.master
  processors_of e (worker i) = get_elem? e.workers i

  unfoldable pub set_processors : Engine S P K A C → Thread → List P → Engine S P K A C
  set_processors e master ps = record e { master = ps }
  set_processors e (worker i) ps = record e { workers = set e.workers i ps }

  -- A call of the user that does nothing else than to post.
  unfoldable pub posting :
      Engine S P K A C
      → Option (NodeHandler K A C)
      → Option (Engine S P K A C × List (Output K A C))
  posting e o = bind o (λ h. some (record e { shared = with_handler e.shared h }, []))

  -- What a thread does with its processors.
  unfoldable pub working :
      Engine S P K A C
      → Thread
      → Shared S K A C
      → (Shared S K A C → List P → Option (Shared S K A C × List P × List (Output K A C)))
      → Option (Engine S P K A C × List (Output K A C))
  working e t s f = bind (processors_of e t) (λ ps.
      bind (f s ps) (λ (s', ps', os). some (set_processors (record e { shared = s' }) t ps', os)))

module _ {S P K A C : Type 0} (drivers : EventProcessor (Shared S K A C) P K A C) where
  -- One turn of the loop over the commands: `try_receive`, and the match on what it gives.
  unfoldable pub take_one :
      Engine S P K A C
      → Thread
      → List (WakerCommand K A C)
      → Option (Engine S P K A C × List (Output K A C))
  take_one e t [] = some (e, [])
  take_one e t (c ∷ queue) =
      working e t (with_handler e.shared (set_queue e.shared.handler t queue))
        (λ s ps. handle_command drivers s ps c)

  unfoldable pub step :
      Engine S P K A C → Action K A C → Option (Engine S P K A C × List (Output K A C))
  step e (call_connect config transport addr cb) =
      some (record e { shared = user_connect e.shared config transport addr cb }, [])
  step e (call_listen config transport addr cb) =
      posting e (some (listen_with e.shared.handler config transport addr cb).0)
  step e (call_send endpoint bytes) = posting e (send_to_endpoint e.shared.handler endpoint bytes)
  step e (call_send_sync endpoint bytes cb) =
      posting e (ask_send_sync e.shared.handler endpoint bytes cb)
  step e (call_is_ready id cb) = posting e (ask_is_ready e.shared.handler id cb)
  step e (call_close id) = posting e (close_resource e.shared.handler id)
  step e (call_post id c) = posting e (post e.shared.handler id c)
  step e (call_post_to_master c) = posting e (some (post_to_master e.shared.handler c))
  step e call_stop = posting e (some (stop_node e.shared.handler))
  step e (take_command t) = bind (queue_of e.shared.handler t) (take_one e t)
  step e (readable t id) = working e t e.shared (λ s ps.
      bind (handle_poll_event drivers s ps [] (network_read id))
        (λ (s', ps', _, os). some (s', ps', os)))
  step e (writable t id) = working e t e.shared (λ s ps.
      bind (handle_poll_event drivers s ps [] (network_write id))
        (λ (s', ps', _, os). some (s', ps', os)))

  unfoldable pub run :
      Engine S P K A C → List (Action K A C) → Option (Engine S P K A C × List (Output K A C))
  run e [] = some (e, [])
  run e (a ∷ actions) =
      bind (step e a)
        (λ (e1, first). bind (run e1 actions) (λ (e2, later). some (e2, first ++ later)))

-- A node that was just made, each thread with its own processors.
unfoldable pub new_engine : {S P K A C : Type 0} → S → ℕ → List P → Engine S P K A C
unfolding create_node_handler
new_engine {S} {P} {K} {A} {C} system worker_num processors = record {
  shared = record { system = system; handler = create_node_handler K A C worker_num; issued = [] };
  master = processors;
  workers = replicate worker_num processors;
}
