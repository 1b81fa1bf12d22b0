-- ===== src/Network/TcpDriver/First.antt =====
-- The first writable event of an accepted connection, and a send behind it.
use message_io.Prelude.{ℕ, ◌≡◌, refl, ap, ◌∙◌, true, some, List, [], ◌∷◌, ◌++◌, false}
use message_io.Network.ResourceId.{ResourceId, remote, resource_type}
use message_io.Network.Messages.{
  SocketAddr, Endpoint, NetEvent, accepted, PendingStatus, new_properties, mark_as_ready,
}
use message_io.Network.Registry.{get}
use message_io.Network.Registry.Coherence.{update-same, register-resources}
use message_io.Network.Adapter.{Remote, Local}
use message_io.Network.TcpDriver.{
  TcpDriver, RemoteRegister, mark_register, resolve_pending_remote, resolve_if_pending,
  write_to_remote, process_remote, process_write,
}
use message_io.Network.TcpDriver.Handlers.{register_remote, process_send}
use message_io.Network.TcpDriver.Reads.{entry, at, mark_register-entry}

-- The register of an accepted connection that is ready.
abbrev marked : {R : Type 0} → SocketAddr → ResourceId → R → RemoteRegister R
marked addr l s = record {
  resource = s;
  properties = record { peer_addr = addr; local = some l; ready = true };
}

module _ {W R L K A C : Type 0} (os : Remote W R) (net : Local W L K A) where
  pub registered_entry :
      (d : TcpDriver R L K A C) (id l : ResourceId) (addr : SocketAddr) (s : R)
      → entry (register_remote os net d (id, addr) (some l) s) id
        ≡ some (record { resource = s; properties = new_properties addr (some l) })
  unfolding register_remote
  registered_entry d id l addr s =
      ap (λ f. f id.id)
        (register-resources os.source d.remote_registry id s (new_properties addr (some l)) true)
      ∙ update-same d.remote_registry.resources id.id _ id.id refl

  -- A ready entry is sent to as it is.
  sent_to :
      (v : W) (d : TcpDriver R L K A C) (id : ResourceId) (addr : SocketAddr) (r : RemoteRegister R)
      (bytes : List ℕ)
      → resource_type id ≡ remote
      → entry d id ≡ some r
      → r.properties.ready ≡ true
      → process_send os net v d (record { resource_id = id; addr = addr }) bytes
        ≡ some (os.send v r.resource bytes)
  unfolding process_send get
  sent_to v d id addr r bytes is_remote here ready =
      rw (is_remote, process_send) (rw (here, ready, process_send) refl)

  resolved :
      (w : W) (d : TcpDriver R L K A C) (id l : ResourceId) (addr : SocketAddr) (s : R)
      → ((v : W) (r : R) → os.ready_to_write v r ≡ (v, true))
      → (os.pending w s).1 ≡ PendingStatus.ready
      → let r : RemoteRegister R = record {
        resource = s;
        properties = new_properties addr (some l);
      } in
        resolve_if_pending os net w d r (at id r) ≡ (
          (os.pending w s).0,
          mark_register d id (marked addr l s),
          marked addr l s,
          accepted (record { resource_id = id; addr = addr }) l ∷ [],
        )
  unfolding resolve_if_pending resolve_pending_remote new_properties mark_as_ready
  resolved w d id l addr s fine ready =
      rw (ready, resolve_pending_remote)
        (ap
          (λ x.
            let q : W × TcpDriver R L K A C × RemoteRegister R × List NetEvent = (
              x,
              mark_register d id (marked addr l s),
              marked addr l s,
              accepted (record { resource_id = id; addr = addr }) l ∷ [],
            ) in
            q)
          (ap (λ x. x.0) (fine (os.pending w s).0 s)))

  -- What the writing of a resolved connection makes of the resolution.
  abbrev written :
      Endpoint
      → W × TcpDriver R L K A C × RemoteRegister R × List NetEvent
      → W × TcpDriver R L K A C × List NetEvent
  written endpoint (w1, d1, r1, first) = elim r1.properties.ready [
    | true ↦ (
      (write_to_remote os net w1 d1 r1 endpoint).0,
      (write_to_remote os net w1 d1 r1 endpoint).1,
      first ++ (write_to_remote os net w1 d1 r1 endpoint).2,
    )
    | false ↦ (w1, d1, first)
  ]

  write_result :
      (w : W) (d : TcpDriver R L K A C) (id l : ResourceId) (addr : SocketAddr) (s : R)
      → resource_type id ≡ remote
      → ((v : W) (r : R) → os.ready_to_write v r ≡ (v, true))
      → (os.pending w s).1 ≡ PendingStatus.ready
      → process_write os net w (register_remote os net d (id, addr) (some l) s) id ≡ (
        (os.pending w s).0,
        mark_register (register_remote os net d (id, addr) (some l) s) id (marked addr l s),
        accepted (record { resource_id = id; addr = addr }) l ∷ [],
      )
  unfolding process_write process_remote get new_properties write_to_remote
  write_result w d id l addr s is_remote fine ready =
      let d1 = register_remote os net d (id, addr) (some l) s in
      let endpoint : Endpoint = record { resource_id = id; addr = addr } in
      rw (is_remote, process_write) (rw (registered_entry d id l addr s, process_remote) refl)
      ∙ ap (λ q. written endpoint q) (resolved w d1 id l addr s fine ready)
      ∙ rw (fine (os.pending w s).0 s) refl

  -- An accepted connection on which the adapter answers that it is ready: its first writable event
  -- reports `Accepted`, and from then on a send reaches the adapter.
  pub process_write-first :
      (w : W) (d : TcpDriver R L K A C) (id l : ResourceId) (addr : SocketAddr) (s : R)
      → resource_type id ≡ remote
      → ((v : W) (r : R) → os.ready_to_write v r ≡ (v, true))
      → (os.pending w s).1 ≡ PendingStatus.ready
      → let q : W × TcpDriver R L K A C × List NetEvent =
          process_write os net w (register_remote os net d (id, addr) (some l) s) id in
        let endpoint : Endpoint = record { resource_id = id; addr = addr } in
        (q.2 ≡ accepted endpoint l ∷ [])
        × (q.0 ≡ (os.pending w s).0)
        × ((v : W) (bytes : List ℕ)
            → process_send os net v q.1 endpoint bytes ≡ some (os.send v s bytes))
  process_write-first w d id l addr s is_remote fine ready =
      let d1 = register_remote os net d (id, addr) (some l) s in
      rw (write_result w d id l addr s is_remote fine ready) (
        refl,
        refl,
        λ v bytes.
            sent_to v (mark_register d1 id (marked addr l s)) id addr (marked addr l s) bytes
              is_remote (mark_register-entry d1 id (marked addr l s)) refl,
      )
