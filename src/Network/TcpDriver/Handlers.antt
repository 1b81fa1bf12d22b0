-- ===== src/Network/TcpDriver/Handlers.antt =====
-- The handlers of commands of src/adapters/tcp/tcp_driver.rs. They answer through a callback, or not
-- at all.
use message_io.Prelude.{ℕ, Bool, true, false, Option, none, some, List, [], ◌∷◌, ◌++◌}
use message_io.Network.ResourceId.{ResourceId, local, remote, resource_type}
use message_io.Network.Messages.{
  SocketAddr, Endpoint, SendStatus, ok, err, new_properties, ListenConfig, connect_register_remote,
  Call, endpoint_answer, listener_answer,
}
use message_io.Network.Registry.{register, deregister, get}
use message_io.Network.Adapter.{Remote, Local}
use message_io.Network.TcpDriver.{TcpDriver, deregister_remote}

module _ {W R L K A C : Type 0} (os : Remote W R) (net : Local W L K A) where
  unfoldable pub register_remote :
      TcpDriver R L K A C → ResourceId × SocketAddr → Option ResourceId → R → TcpDriver R L K A C
  register_remote d (remote_id, remote_addr) local_id resource =
      let registry =
        register os.source d.remote_registry remote_id resource
          (new_properties remote_addr local_id) true in
      record d { remote_registry = registry }

  -- The first argument makes the resource of the adapter from a stream and the payload.
  unfoldable pub process_accept_register_remote :
      (W → ℕ → A → W × R)
      → W
      → TcpDriver R L K A C
      → ResourceId × SocketAddr
      → ResourceId × SocketAddr
      → ℕ
      → A
      → ℕ
      → W × TcpDriver R L K A C × List Call
  process_accept_register_remote new_resource w d (local_id, local_addr) (remote_id, remote_addr)
        stream payload callback =
      let endpoint : Endpoint = record { resource_id = remote_id; addr = remote_addr } in
      let (w', resource) = new_resource w stream payload in
      (
        w',
        register_remote d (remote_id, remote_addr) (some local_id) resource,
        endpoint_answer callback (ok (endpoint, local_addr)) ∷ [],
      )

  unfoldable pub process_connect_register_remote :
      (W → ℕ → C → W × R)
      → W
      → TcpDriver R L K A C
      → SocketAddr
      → ResourceId × SocketAddr
      → ℕ
      → C
      → ℕ
      → W × TcpDriver R L K A C × List Call
  process_connect_register_remote new_resource w d local_addr (remote_id, remote_addr) stream
        payload callback =
      let endpoint : Endpoint = record { resource_id = remote_id; addr = remote_addr } in
      let (w', resource) = new_resource w stream payload in
      (
        w',
        register_remote d (remote_id, remote_addr) none resource,
        endpoint_answer callback (ok (endpoint, local_addr)) ∷ [],
      )

  unfoldable pub process_listen :
      W
      → TcpDriver R L K A C
      → ListenConfig K
      → ResourceId
      → SocketAddr
      → ℕ
      → W × TcpDriver R L K A C × List Call
  process_listen w d config local_id addr callback =
      let (w', answer) = net.listen_with w config addr in
      elim answer [
        | ok (l, local_addr) ↦
            let registry = register net.source d.local_registry local_id l (record {}) false in
            (
              w',
              record d { local_registry = registry },
              listener_answer callback (ok (local_id, local_addr)) ∷ [],
            )
        | err kind ↦ (w', d, listener_answer callback (err kind) ∷ [])
      ]

  unfoldable pub process_send :
      W → TcpDriver R L K A C → Endpoint → List ℕ → Option (W × SendStatus)
  process_send w d endpoint bytes = elim (resource_type endpoint.resource_id) [
    | remote ↦ elim (get os.source d.remote_registry endpoint.resource_id) [
      | none ↦ some (w, SendStatus.resource_not_found)
      | some r ↦ elim r.properties.ready [
        | true ↦ some (os.send w r.resource bytes)
        | false ↦ some (w, SendStatus.resource_not_available)
      ]
    ]
    | local ↦ elim (get net.source d.local_registry endpoint.resource_id) [
      | none ↦ some (w, SendStatus.resource_not_found)
      | some l ↦ net.send_to w l.resource endpoint.addr bytes
    ]
  ]

  -- The answer for the callback of `process_close`.
  unfoldable pub process_close : TcpDriver R L K A C → ResourceId → TcpDriver R L K A C × Bool
  process_close d id = elim (resource_type id) [
    | remote ↦ deregister_remote os.source d id
    | local ↦
        let (registry, was) = deregister net.source d.local_registry id in
        (record d { local_registry = registry }, was)
  ]

  -- The answer for the callback of `process_is_ready`. Both branches look into `remote_registry`.
  unfoldable pub process_is_ready : TcpDriver R L K A C → ResourceId → Option Bool
  process_is_ready d id = elim (resource_type id) [
    | remote ↦ elim (get os.source d.remote_registry id) [
      | none ↦ none
      | some r ↦ some r.properties.ready
    ]
    | local ↦ elim (get os.source d.remote_registry id) [ none ↦ none | some _ ↦ some true ]
  ]

-- The part of `process_connect` behind a connection that was made: what it posts to the worker.
unfoldable pub post_connect_register :
    {R L K A C : Type 0}
    → TcpDriver R L K A C
    → ResourceId
    → SocketAddr
    → SocketAddr
    → ℕ
    → C
    → ℕ
    → TcpDriver R L K A C
post_connect_register d remote_id local_addr peer_addr stream payload callback =
    let command =
      connect_register_remote local_addr (remote_id, peer_addr) stream payload callback in
    record d { posted = d.posted ++ (remote_id, command) ∷ [] }
