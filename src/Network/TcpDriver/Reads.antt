-- ===== src/Network/TcpDriver/Reads.antt =====
-- What reading and writing an id does to the life of its connection.
use message_io.Prelude.{
  ℕ, ◌≡◌, refl, sym, ap, ◌∙◌, ◌⊎◌, inl, inr, true, false, Option, none, some, List, [], ◌∷◌, map,
  append-nil, Bool-cases, Option-cases,
}
use mathlib.Core.Path.{subst}
use message_io.Network.ResourceId.{ResourceId, remote, resource_type}
use message_io.Network.Messages.{
  SocketAddr, Endpoint, NetEvent, connected, accepted, message, ReadStatus, PendingStatus,
  mark_as_ready,
}
use message_io.Network.Registry.{get}
use message_io.Network.Registry.Coherence.{update-same, deregister-resources, deregister-was}
use message_io.Network.Adapter.{Remote, Local}
use message_io.Network.TcpDriver.{
  TcpDriver, RemoteRegister, mark_register, deregister_remote, resolve_pending_remote,
  resolve_if_pending, write_to_remote, read_from_remote, process_remote, process_read,
  process_write,
}
use message_io.Network.TcpDriver.Lifecycle.{
  Life, absent, live, pending_life, life_of, Lives, Lives-append, Lives-messages,
}

-- The register of an id, as the driver has it.
abbrev pub entry :
    {R L K A C : Type 0} → TcpDriver R L K A C → ResourceId → Option (RemoteRegister R)
entry d id = d.remote_registry.resources id.id

-- The life of an id in a driver.
abbrev pub life : {R L K A C : Type 0} → TcpDriver R L K A C → ResourceId → Life
life d id = life_of (d.remote_registry.resources id.id)

pub mark_register-entry :
    {R L K A C : Type 0} (d : TcpDriver R L K A C) (id : ResourceId) (r : RemoteRegister R)
    → entry (mark_register d id r) id ≡ some r
unfolding mark_register
mark_register-entry d id r = update-same d.remote_registry.resources id.id (some r) id.id refl

deregister_remote-entry :
    {R L K A C : Type 0} (source : R → ℕ) (d : TcpDriver R L K A C) (id : ResourceId)
    → entry (deregister_remote source d id).0 id ≡ none
unfolding deregister_remote
deregister_remote-entry source d id =
    ap (λ f. f id.id) (deregister-resources source d.remote_registry id)
    ∙ update-same d.remote_registry.resources id.id none id.id refl

deregister_remote-was :
    {R L K A C : Type 0} (source : R → ℕ) (d : TcpDriver R L K A C) (id : ResourceId)
    (r : RemoteRegister R)
    → entry d id ≡ some r
    → (deregister_remote source d id).1 ≡ true
unfolding deregister_remote
deregister_remote-was source d id r h = deregister-was source d.remote_registry id r h

pub PendingStatus-cases :
    (s : PendingStatus)
    → (s ≡ PendingStatus.ready) ⊎ (s ≡ PendingStatus.incomplete) ⊎ (s ≡ PendingStatus.disconnected)
PendingStatus-cases PendingStatus.ready = inl refl
PendingStatus-cases PendingStatus.incomplete = inr (inl refl)
PendingStatus-cases PendingStatus.disconnected = inr (inr refl)

abbrev pub at : {R : Type 0} → ResourceId → RemoteRegister R → Endpoint
at id r = record { resource_id = id; addr = r.properties.peer_addr }

-- What the user hears of a connection that is ready, and of one that broke before.
opened :
    (id : ResourceId) (l : Option ResourceId) (a : SocketAddr)
    → Lives id
        (pending_life l a)
        (elim l [
          | none ↦ connected (record { resource_id = id; addr = a }) true ∷ []
          | some listener_id ↦ accepted (record { resource_id = id; addr = a }) listener_id ∷ []
        ])
        (live a)
opened id none a = Lives.established a Lives.same
opened id (some l) a = Lives.welcomed l a Lives.same

broken :
    (id : ResourceId) (l : Option ResourceId) (a : SocketAddr)
    → Lives id
        (pending_life l a)
        (elim l [
          | none ↦ connected (record { resource_id = id; addr = a }) false ∷ []
          | some _ ↦ []
        ])
        absent
broken id none a = Lives.refused a Lives.same
broken id (some l) a = Lives.dropped l a Lives.same

-- What `resolve_pending_remote` leaves: the register keeps its address, is the driver's if it is
-- ready, and the events lead to the life that it then has.
pub record Resolved {W R L K A C : Type 0} (id : ResourceId) (r : RemoteRegister R)
    (q : W × TcpDriver R L K A C × RemoteRegister R × List NetEvent) : Type 0 where
  pub address : q.2.properties.peer_addr ≡ r.properties.peer_addr
  pub shared : q.2.properties.ready ≡ true → entry q.1 id ≡ some q.2
  pub lives : Lives id (life_of (some r)) q.3 (life q.1 id)

pub ReadStatus-cases :
    (s : ReadStatus) → (s ≡ ReadStatus.wait_next_event) ⊎ (s ≡ ReadStatus.disconnected)
ReadStatus-cases ReadStatus.wait_next_event = inl refl
ReadStatus-cases ReadStatus.disconnected = inr refl

-- The trait's own `ready_to_write`, which the adapters keep: it answers `true`.
abbrev pub IsAlwaysWritable : {W R : Type 0} → Remote W R → Type 0
IsAlwaysWritable {W} {R} os = (w : W) (r : R) → (os.ready_to_write w r).1 ≡ true

module _ {W R L K A C : Type 0} (os : Remote W R) (net : Local W L K A) where
  resolve-Resolved :
      (w : W) (d : TcpDriver R L K A C) (id : ResourceId) (r : RemoteRegister R)
      → r.properties.ready ≡ false
      → entry d id ≡ some r
      → Resolved id r (resolve_pending_remote os net w d r (at id r))
  unfolding resolve_pending_remote mark_as_ready
  resolve-Resolved w d id r pending here = elim (PendingStatus-cases (os.pending w r.resource).1) [
    | inl e ↦
        rw (e, resolve_pending_remote)
          record {
            address = refl;
            shared = λ _. mark_register-entry d id _;
            lives =
                rw (mark_register-entry d id _, pending)
                  (opened id r.properties.local r.properties.peer_addr);
          }
    | inr (inl e) ↦
        rw (e, resolve_pending_remote)
          record { address = refl; shared = λ _. here; lives = rw (here) Lives.same }
    | inr (inr e) ↦
        rw (e, resolve_pending_remote)
          record {
            address = refl;
            shared = λ h. cc;
            lives =
                rw (deregister_remote-entry os.source d id, pending)
                  (broken id r.properties.local r.properties.peer_addr);
          }
  ]

  -- An action on a ready connection: its events lead from ready to the life that it leaves.
  abbrev pub IsLively :
      (W
        → TcpDriver R L K A C
        → RemoteRegister R
        → Endpoint
        → W × TcpDriver R L K A C × List NetEvent)
      → Type 0
  IsLively act =
      (w : W) (d : TcpDriver R L K A C) (id : ResourceId) (r : RemoteRegister R)
      → r.properties.ready ≡ true
      → entry d id ≡ some r
      → Lives id (live r.properties.peer_addr) (act w d r (at id r)).2
          (life (act w d r (at id r)).1 id)

  read-IsLively : IsLively (read_from_remote os net)
  unfolding read_from_remote
  read-IsLively w d id r ready here = elim (ReadStatus-cases (os.receive w r.resource).2) [
    | inl e ↦
        let packets = (os.receive w r.resource).1 in
        let a = r.properties.peer_addr in
        rw (e, read_from_remote, here, ready)
          (rw (sym (append-nil (map (message (at id r)) packets)))
            (Lives-messages id a packets Lives.same))
    | inr e ↦
        rw
          (
            e,
            read_from_remote,
            deregister_remote-was os.source d id r here,
            deregister_remote-entry os.source d id,
          )
          (Lives-messages id r.properties.peer_addr (os.receive w r.resource).1
            (Lives.lost r.properties.peer_addr Lives.same))
  ]

  write-IsLively : IsAlwaysWritable os → IsLively (write_to_remote os net)
  unfolding write_to_remote
  write-IsLively fine w d id r ready here =
      rw (fine w r.resource, write_to_remote, here, ready) Lives.same

  pub not_resolved :
      (w : W) (d : TcpDriver R L K A C) (id : ResourceId) (r : RemoteRegister R)
      → r.properties.ready ≡ true
      → resolve_if_pending os net w d r (at id r) ≡ (w, d, r, [])
  unfolding resolve_if_pending
  not_resolved w d id r ready =
      ap
        (λ b. elim b as (λ _. W × TcpDriver R L K A C × RemoteRegister R × List NetEvent) [
          | true ↦ (w, d, r, [])
          | false ↦ resolve_pending_remote os net w d r (at id r)
        ])
        ready

  pub is_resolved :
      (w : W) (d : TcpDriver R L K A C) (id : ResourceId) (r : RemoteRegister R)
      → r.properties.ready ≡ false
      → resolve_if_pending os net w d r (at id r) ≡ resolve_pending_remote os net w d r (at id r)
  unfolding resolve_if_pending
  is_resolved w d id r pending =
      ap
        (λ b. elim b as (λ _. W × TcpDriver R L K A C × RemoteRegister R × List NetEvent) [
          | true ↦ (w, d, r, [])
          | false ↦ resolve_pending_remote os net w d r (at id r)
        ])
        pending

  pub resolve_if-Resolved :
      (w : W) (d : TcpDriver R L K A C) (id : ResourceId) (r : RemoteRegister R)
      → entry d id ≡ some r
      → Resolved id r (resolve_if_pending os net w d r (at id r))
  resolve_if-Resolved w d id r here = elim (Bool-cases r.properties.ready) [
    | inl ready ↦
        rw (not_resolved w d id r ready)
          record { address = refl; shared = λ _. here; lives = rw (here) Lives.same }
    | inr pending ↦ rw (is_resolved w d id r pending) (resolve-Resolved w d id r pending here)
  ]

  live_entry :
      (d : TcpDriver R L K A C) (id : ResourceId) (r : RemoteRegister R)
      → entry d id ≡ some r
      → r.properties.ready ≡ true
      → life d id ≡ live r.properties.peer_addr
  live_entry d id r here ready = rw (here, ready) refl

  -- A registered id: it is resolved if need be, and acted on if it is ready then.
  registered-Lives :
      (act : W
        → TcpDriver R L K A C
        → RemoteRegister R
        → Endpoint
        → W × TcpDriver R L K A C × List NetEvent)
      → IsLively act
      → (w : W) (d : TcpDriver R L K A C) (id : ResourceId) (r : RemoteRegister R)
      → entry d id ≡ some r
      → Lives id
          (life d id)
          (process_remote os net act w d id).2
          (life (process_remote os net act w d id).1 id)
  unfolding process_remote get
  registered-Lives act lively w d id r here =
      let q = resolve_if_pending os net w d r (at id r) in
      let h : Resolved id r q = resolve_if-Resolved w d id r here in
      rw (here, process_remote)
        (elim (Bool-cases q.2.properties.ready) [
          | inl ready ↦
              let b = q.2.properties.peer_addr in
              let first : Lives id (life_of (some r)) q.3 (live b) =
                subst (λ s. Lives id (life_of (some r)) q.3 s)
                  (live_entry q.1 id q.2 (h.shared ready) ready) h.lives in
              let acted : SocketAddr → W × TcpDriver R L K A C × List NetEvent =
                λ a. act q.0 q.1 q.2 (record { resource_id = id; addr = a }) in
              let second : Lives id (live b) (acted r.properties.peer_addr).2
                  (life (acted r.properties.peer_addr).1 id) =
                subst (λ a. Lives id (live b) (acted a).2 (life (acted a).1 id)) h.address
                  (lively q.0 q.1 id q.2 ready (h.shared ready)) in
              rw (ready, process_remote) (Lives-append id first second)
          | inr pending ↦ rw (pending, process_remote) h.lives
        ])

  remote-Lives :
      (act : W
        → TcpDriver R L K A C
        → RemoteRegister R
        → Endpoint
        → W × TcpDriver R L K A C × List NetEvent)
      → IsLively act
      → (w : W) (d : TcpDriver R L K A C) (id : ResourceId)
      → Lives id
          (life d id)
          (process_remote os net act w d id).2
          (life (process_remote os net act w d id).1 id)
  unfolding process_remote get
  remote-Lives act lively w d id = elim (Option-cases (entry d id)) [
    | inl gone ↦ rw (gone, process_remote, gone) Lives.same
    | inr (r, here) ↦ registered-Lives act lively w d id r here
  ]

  -- What reading a remote id reports leads from the life of its connection before to the one after:
  -- one `Connected` or `Accepted` before any `Message`, `Disconnected` or a refusal last and exactly
  -- when the id leaves the registry, and nothing for an id that is not registered.
  pub process_read-Lives :
      (w : W) (d : TcpDriver R L K A C) (id : ResourceId)
      → resource_type id ≡ remote
      → Lives id (life d id) (process_read os net w d id).2 (life (process_read os net w d id).1 id)
  unfolding process_read
  process_read-Lives w d id is_remote =
      rw (is_remote, process_read) (remote-Lives (read_from_remote os net) read-IsLively w d id)

  -- So does writing, when the adapter keeps the trait's `ready_to_write`, which answers `true`.
  pub process_write-Lives :
      (w : W) (d : TcpDriver R L K A C) (id : ResourceId)
      → resource_type id ≡ remote
      → IsAlwaysWritable os
      → Lives id
          (life d id)
          (process_write os net w d id).2
          (life (process_write os net w d id).1 id)
  unfolding process_write
  process_write-Lives w d id is_remote fine =
      rw (is_remote, process_write)
        (remote-Lives (write_to_remote os net) (write-IsLively fine) w d id)
