-- ===== src/Network/TcpDriver/Accepts.antt =====
-- What a driver posts and reports of all that a listener accepts (src/adapters/tcp/tcp_driver.rs).
use message_io.Prelude.{
  ℕ, suc, ◌+◌, ◌≤◌, ◌≡◌, refl, sym, ap, ◌∙◌, arith, List, [], ◌∷◌, ◌++◌, length, append-nil,
  append_assoc,
}
use message_io.Network.ResourceId.{ResourceId, adapter_id, generate_all, max_base_value}
use message_io.Network.ResourceId.Fields.{adapter_id-lt}
use message_io.Network.ResourceId.Generator.{AllDistinct, AreAdapters, generate_all-AllDistinct}
use message_io.Network.Messages.{
  SocketAddr, WakerCommand, accept_register_remote, NetEvent, message,
}
use message_io.Network.Adapter.{Remote, Local, AcceptedType}
use message_io.Network.TcpDriver.{TcpDriver, accept_one, accept_all}

module _ {A : Type 0} where
  -- The connections among what was accepted, each with its peer, its stream and its payload.
  abbrev pub connections : List (AcceptedType A) → List (SocketAddr × ℕ × A)
  connections [] = []
  connections (AcceptedType.remote addr stream payload ∷ rest) =
      (addr, stream, payload) ∷ connections rest
  connections (AcceptedType.datagram _ _ ∷ rest) = connections rest

  -- The datagrams among it, as messages of the listener.
  abbrev pub datagrams : ResourceId → List (AcceptedType A) → List NetEvent
  datagrams id [] = []
  datagrams id (AcceptedType.remote _ _ _ ∷ rest) = datagrams id rest
  datagrams id (AcceptedType.datagram addr bytes ∷ rest) =
      message (record { resource_id = id; addr = addr }) bytes ∷ datagrams id rest

  -- The adapter of a listener, once for each connection.
  abbrev pub adapters_of : ResourceId → List (SocketAddr × ℕ × A) → List ℕ
  adapters_of id [] = []
  adapters_of id (_ ∷ rest) = adapter_id id ∷ adapters_of id rest

  adapters-AreAdapters :
      (id : ResourceId) (cs : List (SocketAddr × ℕ × A)) → AreAdapters (adapters_of id cs)
  adapters-AreAdapters id [] = tt
  adapters-AreAdapters id (_ ∷ rest) =
      (omega (arith, adapter_id-lt id), adapters-AreAdapters id rest)

  length-adapters_of :
      (id : ResourceId) (cs : List (SocketAddr × ℕ × A)) → length (adapters_of id cs) ≡ length cs
  length-adapters_of id [] = refl
  length-adapters_of id (_ ∷ rest) = ap suc (length-adapters_of id rest)

-- The registrations of connections of one listener under these ids, each posted for its own id.
abbrev pub registrations :
    {K A C : Type 0}
    → ResourceId × SocketAddr
    → List ResourceId
    → List (SocketAddr × ℕ × A)
    → List (ResourceId × WakerCommand K A C)
registrations listener (id ∷ ids) ((addr, stream, payload) ∷ cs) =
    (id, accept_register_remote listener (id, addr) stream payload) ∷ registrations listener ids cs
registrations listener _ _ = []

module _ {W R L K A C : Type 0} (os : Remote W R) (net : Local W L K A) where
  new_posts :
      (d : TcpDriver R L K A C) (id : ResourceId) (l : L) (as' : List (AcceptedType A))
      → (accept_all os net d id l as').0.posted
        ≡ d.posted
          ++ registrations
              (id, net.local_addr l)
              (generate_all d.remote_id_generator (adapters_of id (connections as')))
              (connections as')
  unfolding accept_all accept_one generate_all
  new_posts d id l [] = sym (append-nil d.posted)
  new_posts d id l (AcceptedType.datagram addr bytes ∷ rest) = new_posts d id l rest
  new_posts d id l (AcceptedType.remote addr stream payload ∷ rest) =
      let d' = (accept_one os net d id l (AcceptedType.remote addr stream payload)).0 in
      new_posts d' id l rest ∙ append_assoc d.posted _ _

  new_events :
      (d : TcpDriver R L K A C) (id : ResourceId) (l : L) (as' : List (AcceptedType A))
      → (accept_all os net d id l as').1 ≡ datagrams id as'
  unfolding accept_all accept_one
  new_events d id l [] = refl
  new_events d id l (AcceptedType.datagram addr bytes ∷ rest) =
      ap (λ es. message (record { resource_id = id; addr = addr }) bytes ∷ es)
        (new_events d id l rest)
  new_events d id l (AcceptedType.remote addr stream payload ∷ rest) =
      new_events (accept_one os net d id l (AcceptedType.remote addr stream payload)).0 id l rest

  -- Behind what was posted before, a listener posts the registration of each connection that it
  -- accepts, in order: with its own id and address, and for and under the next id of the shared
  -- generator, with the peer, the stream and the payload of the connection. It reports each datagram
  -- as a message of its own, in order. The new ids differ from one another, as long as the generator
  -- stays within the base values.
  pub accept_all-registrations :
      (d : TcpDriver R L K A C) (id : ResourceId) (l : L) (as' : List (AcceptedType A))
      → d.remote_id_generator.last + length (connections as') ≤ suc max_base_value
      → ((accept_all os net d id l as').0.posted
          ≡ d.posted
            ++ registrations
                (id, net.local_addr l)
                (generate_all d.remote_id_generator (adapters_of id (connections as')))
                (connections as'))
        × ((accept_all os net d id l as').1 ≡ datagrams id as')
        × AllDistinct (generate_all d.remote_id_generator (adapters_of id (connections as')))
  accept_all-registrations d id l as' within = (
    new_posts d id l as',
    new_events d id l as',
    generate_all-AllDistinct d.remote_id_generator (adapters_of id (connections as'))
        (adapters-AreAdapters id (connections as'))
        (omega (arith, length-adapters_of id (connections as'), within)),
  )
