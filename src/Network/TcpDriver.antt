-- ===== src/Network/TcpDriver.antt =====
-- src/adapters/tcp/tcp_driver.rs, over the traits that the adapter implements: `R` and `L` are its
-- resources, `A` and `C` its payloads. The drivers of the other adapters have the same handlers. The events are the
-- calls of `event_callback`, in their order.
pub mod Handlers
pub mod Processor
pub mod Resource
pub mod Lifecycle
pub mod Reads
pub mod Commands
pub mod Accepts
pub mod Runs
pub mod Answers
pub mod First
pub mod Stages
mod Tests
use message_io.Prelude.{ℕ, Bool, true, false, Option, none, some, List, [], ◌∷◌, ◌++◌, map}
use message_io.Network.ResourceId.{
  ResourceId, ResourceType, local, remote, resource_type, adapter_id, ResourceIdGenerator, generate,
}
use message_io.Network.Messages.{
  SocketAddr, Endpoint, NetEvent, connected, accepted, message, SendStatus, ReadStatus,
  PendingStatus, IoResult, ok, err, RemoteProperties, new_properties, mark_as_ready,
  LocalProperties, RemoteAddr, socket_addr, ConnectConfig, ListenConfig, WakerCommand,
  accept_register_remote, connect_register_remote, Call, endpoint_answer, listener_answer,
  ready_answer,
}
use message_io.Network.Registry.{
  update, Register, ResourceRegistry, new_registry, register, deregister, get,
}
use message_io.Network.Adapter.{Remote, Local, AcceptedType, ConnectionInfo}

-- `posted` is what the driver posts through its node handler, with the ids that choose the workers.
pub record TcpDriver (R L K A C : Type 0) : Type 0 where
  pub remote_id_generator : ResourceIdGenerator
  pub posted : List (ResourceId × WakerCommand K A C)
  pub remote_registry : ResourceRegistry R RemoteProperties
  pub local_registry : ResourceRegistry L LocalProperties

abbrev pub RemoteRegister : Type 0 → Type 0
RemoteRegister R = Register R RemoteProperties

-- `TcpDriver::new`, with the generator that the drivers share.
unfoldable pub new_driver : {R L K A C : Type 0} → ResourceIdGenerator → TcpDriver R L K A C
unfolding new_registry
new_driver {R} {L} rgen = record {
  remote_id_generator = rgen;
  posted = [];
  remote_registry = new_registry R RemoteProperties;
  local_registry = new_registry L LocalProperties;
}

module _ {R L K A C : Type 0} where
  -- `remote.properties.mark_as_ready()` on the register that the map shares.
  unfoldable pub mark_register :
      TcpDriver R L K A C → ResourceId → RemoteRegister R → TcpDriver R L K A C
  mark_register d id r =
      let registry = d.remote_registry in
      record d {
        remote_registry = record registry { resources = update registry.resources id.id (some r) };
      }

  -- Deregistering from the remote registry, and whether it was there.
  unfoldable pub deregister_remote :
      (R → ℕ) → TcpDriver R L K A C → ResourceId → TcpDriver R L K A C × Bool
  deregister_remote source d id =
      let (registry, was) = deregister source d.remote_registry id in
      (record d { remote_registry = registry }, was)

module _ {W R L K A C : Type 0} (os : Remote W R) (net : Local W L K A) where
  unfoldable pub resolve_pending_remote :
      W
      → TcpDriver R L K A C
      → RemoteRegister R
      → Endpoint
      → W × TcpDriver R L K A C × RemoteRegister R × List NetEvent
  resolve_pending_remote w d r endpoint =
      let (w', status) = os.pending w r.resource in
      let properties = mark_as_ready r.properties in
      let marked : RemoteRegister R = record r { properties = properties } in
      elim status [
        | PendingStatus.ready ↦ (
          (os.ready_to_write w' r.resource).0,
          mark_register d endpoint.resource_id marked,
          marked,
          elim r.properties.local [
            | none ↦ connected endpoint true ∷ []
            | some listener_id ↦ accepted endpoint listener_id ∷ []
          ],
        )
        | PendingStatus.incomplete ↦ (w', d, r, [])
        | PendingStatus.disconnected ↦ (
          w',
          (deregister_remote os.source d endpoint.resource_id).0,
          r,
          elim r.properties.local [ none ↦ connected endpoint false ∷ [] | some _ ↦ [] ],
        )
      ]

  unfoldable pub write_to_remote :
      W
      → TcpDriver R L K A C
      → RemoteRegister R
      → Endpoint
      → W × TcpDriver R L K A C × List NetEvent
  write_to_remote w d r endpoint =
      let (w', fine) = os.ready_to_write w r.resource in
      (w', d, elim fine [ true ↦ [] | false ↦ NetEvent.disconnected endpoint ∷ [] ])

  unfoldable pub read_from_remote :
      W
      → TcpDriver R L K A C
      → RemoteRegister R
      → Endpoint
      → W × TcpDriver R L K A C × List NetEvent
  read_from_remote w d r endpoint =
      let (w', packets, status) = os.receive w r.resource in
      let messages = map (message endpoint) packets in
      let (d', was) = deregister_remote os.source d endpoint.resource_id in
      elim status [
        | ReadStatus.wait_next_event ↦ (w', d, messages)
        | ReadStatus.disconnected ↦ (
          w',
          d',
          elim was [ true ↦ messages ++ NetEvent.disconnected endpoint ∷ [] | false ↦ messages ],
        )
      ]

  -- One call of the closure of `read_from_local`.
  unfoldable pub accept_one :
      TcpDriver R L K A C → ResourceId → L → AcceptedType A → TcpDriver R L K A C × List NetEvent
  accept_one d id l (AcceptedType.remote remote_addr stream payload) =
      let (gen, remote_id) = generate d.remote_id_generator (adapter_id id) in
      let command =
        accept_register_remote (id, net.local_addr l) (remote_id, remote_addr) stream payload in
      (record d { remote_id_generator = gen; posted = d.posted ++ (remote_id, command) ∷ [] }, [])
  accept_one d id l (AcceptedType.datagram addr bytes) =
      (d, message (record { resource_id = id; addr = addr }) bytes ∷ [])

  unfoldable pub accept_all :
      TcpDriver R L K A C
      → ResourceId
      → L
      → List (AcceptedType A)
      → TcpDriver R L K A C × List NetEvent
  accept_all d id l [] = (d, [])
  accept_all d id l (a ∷ accepted_list) =
      let (d', events) = accept_one d id l a in
      let (d'', later) = accept_all d' id l accepted_list in (d'', events ++ later)

  unfoldable pub read_from_local :
      W → TcpDriver R L K A C → L → ResourceId → W × TcpDriver R L K A C × List NetEvent
  read_from_local w d l id =
      let (w', accepted_list) = net.accept w l in
      let (d', events) = accept_all d id l accepted_list in (w', d', events)

  unfoldable pub resolve_if_pending :
      W
      → TcpDriver R L K A C
      → RemoteRegister R
      → Endpoint
      → W × TcpDriver R L K A C × RemoteRegister R × List NetEvent
  resolve_if_pending w d r endpoint = elim r.properties.ready [
    | true ↦ (w, d, r, [])
    | false ↦ resolve_pending_remote w d r endpoint
  ]

  -- The body that `process_read` and `process_write` share: a pending remote is resolved, and one
  -- that is ready, perhaps by that, is read or written.
  unfoldable pub process_remote :
      (W
        → TcpDriver R L K A C
        → RemoteRegister R
        → Endpoint
        → W × TcpDriver R L K A C × List NetEvent)
      → W
      → TcpDriver R L K A C
      → ResourceId
      → W × TcpDriver R L K A C × List NetEvent
  process_remote act w d id = elim (get os.source d.remote_registry id) [
    | none ↦ (w, d, [])
    | some r ↦
        let endpoint : Endpoint = record { resource_id = id; addr = r.properties.peer_addr } in
        let (w1, d1, r1, first) = resolve_if_pending w d r endpoint in
        let (w2, d2, second) = act w1 d1 r1 endpoint in
        elim r1.properties.ready [ true ↦ (w2, d2, first ++ second) | false ↦ (w1, d1, first) ]
  ]

  unfoldable pub process_read :
      W → TcpDriver R L K A C → ResourceId → W × TcpDriver R L K A C × List NetEvent
  process_read w d id = elim (resource_type id) [
    | remote ↦ process_remote read_from_remote w d id
    | local ↦ elim (get net.source d.local_registry id) [
      | none ↦ (w, d, [])
      | some l ↦ read_from_local w d l.resource id
    ]
  ]

  unfoldable pub process_write :
      W → TcpDriver R L K A C → ResourceId → W × TcpDriver R L K A C × List NetEvent
  process_write w d id = elim (resource_type id) [
    | remote ↦ process_remote write_to_remote w d id
    | local ↦ (w, d, [])
  ]
