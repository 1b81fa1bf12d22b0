-- ===== src/Node.antt =====
-- src/node.rs: the handler that the user holds. Its commands go to the queues of the master and of
-- the workers, each a list with its next command first; a lock-free queue gives the same for posts
-- in the order in which they happen.
pub mod Task
pub mod Routing
pub mod ConnectSync
mod Tests
use message_io.Prelude.{
  ℕ, zero, suc, ◌+◌, ◌%◌, Bool, true, false, Option, none, some, List, [], ◌∷◌, ◌++◌, length,
  get_elem?, set, replicate,
}
use message_io.Network.ResourceId.{
  ResourceId, ResourceType, local, remote, resource_type, raw, ResourceIdGenerator, new_generator,
  generate,
}
use message_io.Network.Transport.{Transport, id}
use message_io.Network.Messages.{
  SocketAddr, Endpoint, ErrorKind, IoResult, ok, err, RemoteAddr, ConnectConfig, ListenConfig,
  WakerCommand, connect, listen, send, send_sync, close, is_ready,
}

-- `NodeHandlerImpl`, with the queue of each `NetworkController`.
pub record NodeHandler (K A C : Type 0) : Type 0 where
  pub remote_id_generator : ResourceIdGenerator
  pub local_id_generator : ResourceIdGenerator
  pub master : List (WakerCommand K A C)
  pub workers : List (List (WakerCommand K A C))
  pub running : Bool

abbrev pub multiplexor_worker_num : ℕ
multiplexor_worker_num = 4

-- `to_worker_index`; the remainder by no workers panics.
unfoldable pub to_worker_index : ℕ → ResourceId → Option ℕ
to_worker_index zero resource_id = none
to_worker_index (suc n) resource_id = some (raw resource_id % suc n)

module _ (K A C : Type 0) where
  unfoldable pub create_node_handler : ℕ → NodeHandler K A C
  create_node_handler worker_num = record {
    remote_id_generator = new_generator remote;
    local_id_generator = new_generator local;
    master = [];
    workers = replicate worker_num [];
    running = true;
  }

module _ {K A C : Type 0} where
  unfoldable pub post_to_master : NodeHandler K A C → WakerCommand K A C → NodeHandler K A C
  post_to_master h command = record h { master = h.master ++ command ∷ [] }

  -- A panic is `none`.
  unfoldable pub post :
      NodeHandler K A C → ResourceId → WakerCommand K A C → Option (NodeHandler K A C)
  post h resource_id command = elim (to_worker_index (length h.workers) resource_id) [
    | none ↦ none
    | some index ↦ elim (get_elem? h.workers index) [
      | none ↦ none
      | some queue ↦ some (record h { workers = set h.workers index (queue ++ command ∷ []) })
    ]
  ]

  -- `to_remote_addr().unwrap()` is done: `addr` is what it gave. The id is the one of the command.
  unfoldable pub connect_with :
      NodeHandler K A C
      → ConnectConfig K
      → Transport
      → RemoteAddr
      → ℕ
      → NodeHandler K A C × ResourceId
  connect_with h config transport addr cb =
      let (gen, remote_id) = generate h.remote_id_generator (id transport) in
      (
        post_to_master (record h { remote_id_generator = gen }) (connect config remote_id addr cb),
        remote_id,
      )

  unfoldable pub listen_with :
      NodeHandler K A C
      → ListenConfig K
      → Transport
      → SocketAddr
      → ℕ
      → NodeHandler K A C × ResourceId
  listen_with h config transport addr cb =
      let (gen, local_id) = generate h.local_id_generator (id transport) in
      (
        post_to_master (record h { local_id_generator = gen }) (listen config local_id addr cb),
        local_id,
      )

  unfoldable pub send_to_endpoint :
      NodeHandler K A C → Endpoint → List ℕ → Option (NodeHandler K A C)
  send_to_endpoint h endpoint bytes = post h endpoint.resource_id (send endpoint bytes)

  -- The posted half of `send_sync`.
  unfoldable pub ask_send_sync :
      NodeHandler K A C → Endpoint → List ℕ → ℕ → Option (NodeHandler K A C)
  ask_send_sync h endpoint bytes cb = post h endpoint.resource_id (send_sync endpoint bytes cb)

  -- The posted half of `is_ready_sync`.
  unfoldable pub ask_is_ready : NodeHandler K A C → ResourceId → ℕ → Option (NodeHandler K A C)
  ask_is_ready h resource_id cb = post h resource_id (is_ready resource_id cb)

  unfoldable pub close_resource : NodeHandler K A C → ResourceId → Option (NodeHandler K A C)
  close_resource h resource_id = elim (resource_type resource_id) [
    | local ↦ some (post_to_master h (close resource_id))
    | remote ↦ post h resource_id (close resource_id)
  ]

  unfoldable pub is_running : NodeHandler K A C → Bool
  is_running h = h.running

  unfoldable pub stop_node : NodeHandler K A C → NodeHandler K A C
  stop_node h = record h { running = false }

-- `connect_sync_with` after the answer of the connect: the tries that are left, and what
-- `is_ready_sync` answers at each of them.
abbrev pub max_ready_tries : ℕ
max_ready_tries = 1000

pub data ConnectFailure : Type 0 where
  connection_refused connection_aborted : ConnectFailure
  connect_error : ErrorKind → ConnectFailure

pub data ConnectOutcome : Type 0 where
  established : Endpoint → SocketAddr → ConnectOutcome
  failed : ConnectFailure → ConnectOutcome

module _ (is_ready_sync : ℕ → Option Bool) (endpoint : Endpoint) (addr : SocketAddr) where
  -- The loop, from the try of the given number.
  unfoldable pub wait_ready : ℕ → ℕ → ConnectOutcome
  wait_ready zero try_index = failed connection_aborted
  wait_ready (suc tries) try_index = elim (is_ready_sync try_index) [
    | none ↦ failed connection_refused
    | some ready ↦ elim ready [
      | true ↦ established endpoint addr
      | false ↦ wait_ready tries (suc try_index)
    ]
  ]

unfoldable pub connect_sync_with :
    (ℕ → Option Bool) → IoResult (Endpoint × SocketAddr) → ConnectOutcome
connect_sync_with is_ready_sync (ok (endpoint, addr)) =
    wait_ready is_ready_sync endpoint addr max_ready_tries 0
connect_sync_with is_ready_sync (err kind) = failed (connect_error kind)
