-- ===== src/Engine/Quiet.antt =====
-- The calls of a driver of src/adapters/tcp/tcp_driver.rs that neither post nor generate an id, and
-- which ids they leave in its registries.
use message_io.Prelude.{
  ℕ, ◌≡◌, refl, sym, ap, ◌∙◌, inl, inr, Option, none, some, List, Option-cases, Bool-cases,
}
use message_io.Network.ResourceId.{ResourceId, resource_type}
use message_io.Network.Messages.{SocketAddr, Endpoint, NetEvent, ListenConfig}
use message_io.Network.Registry.{get}
use message_io.Network.Registry.Coherence.{
  update_inv, register-resources, deregister-resources, ap_clash,
}
use message_io.Network.Adapter.{Remote, Local}
use message_io.Network.TcpDriver.{
  TcpDriver, RemoteRegister, mark_register, deregister_remote, resolve_pending_remote,
  write_to_remote, read_from_remote, resolve_if_pending, process_remote, process_write,
}
use message_io.Network.TcpDriver.Handlers.{register_remote, process_listen, process_close}
use message_io.Network.TcpDriver.Reads.{entry, at, PendingStatus-cases, ReadStatus-cases}
use message_io.Network.TcpDriver.Stages.Polls.{ResourceType-cases}
use message_io.Network.TcpDriver.Stages.Steps.{IoResult-cases}

-- Which ids have a register: of remotes those in I, of listeners those in J.
pub record Held {R L K A C : Type 0} (I J : ℕ → Type 0) (d : TcpDriver R L K A C) : Type 0 where
  pub remotes : (k : ℕ) (reg : _) → d.remote_registry.resources k ≡ some reg → I k
  pub locals : (k : ℕ) (reg : _) → d.local_registry.resources k ≡ some reg → J k

-- A change of a driver that posts nothing, generates nothing, and registers within the bounds.
pub record Quiet {R L K A C : Type 0} (I J : ℕ → Type 0) (d d' : TcpDriver R L K A C) : Type 0 where
  pub held : Held I J d → Held I J d'
  pub posts_kept : d'.posted ≡ d.posted
  pub count_kept : d'.remote_id_generator ≡ d.remote_id_generator

module _ {R L K A C : Type 0} (I J : ℕ → Type 0) where
  pub Quiet-refl : (d : TcpDriver R L K A C) → Quiet I J d d
  Quiet-refl d = record { held = λ h. h; posts_kept = refl; count_kept = refl }

  pub Quiet-trans :
      (d d1 d2 : TcpDriver R L K A C) → Quiet I J d d1 → Quiet I J d1 d2 → Quiet I J d d2
  Quiet-trans d d1 d2 p q = record {
    held = λ h. q.held (p.held h);
    posts_kept = q.posts_kept ∙ p.posts_kept;
    count_kept = q.count_kept ∙ p.count_kept;
  }

  mark-Quiet :
      (d : TcpDriver R L K A C) (id : ResourceId) (old new : RemoteRegister R)
      → entry d id ≡ some old
      → Quiet I J d (mark_register d id new)
  unfolding mark_register
  mark-Quiet d id old new here = record {
    held = λ h. record {
      remotes = λ k reg e. elim (update_inv d.remote_registry.resources id.id (some new) k reg e) [
        | inl (same, _) ↦ h.remotes k old (ap d.remote_registry.resources same ∙ here)
        | inr (_, there) ↦ h.remotes k reg there
      ];
      locals = h.locals;
    };
    posts_kept = refl;
    count_kept = refl;
  }

  deregister-Quiet :
      (source : R → ℕ) (d : TcpDriver R L K A C) (id : ResourceId)
      → Quiet I J d (deregister_remote source d id).0
  unfolding deregister_remote
  deregister-Quiet source d id = record {
    held = λ h. record {
      remotes = λ k reg e.
          elim (update_inv d.remote_registry.resources id.id none k reg
            (sym (ap (λ f. f k) (deregister-resources source d.remote_registry id)) ∙ e)) [
              | inl (_, clash) ↦ absurd (ap_clash clash refl)
              | inr (_, there) ↦ h.remotes k reg there
            ];
      locals = h.locals;
    };
    posts_kept = refl;
    count_kept = refl;
  }

module _ {W R L K A C : Type 0} (os : Remote W R) (net : Local W L K A) (I J : ℕ → Type 0) where
  resolve-Quiet :
      (w : W) (d : TcpDriver R L K A C) (r : RemoteRegister R) (endpoint : Endpoint)
      → entry d endpoint.resource_id ≡ some r
      → Quiet I J d (resolve_pending_remote os net w d r endpoint).1
  unfolding resolve_pending_remote
  resolve-Quiet w d r endpoint here = elim (PendingStatus-cases (os.pending w r.resource).1) [
    | inl e ↦ rw (e, resolve_pending_remote) (mark-Quiet I J d endpoint.resource_id r _ here)
    | inr (inl e) ↦ rw (e, resolve_pending_remote) (Quiet-refl I J d)
    | inr (inr e) ↦
        rw (e, resolve_pending_remote) (deregister-Quiet I J os.source d endpoint.resource_id)
  ]

  resolve_if-Quiet :
      (w : W) (d : TcpDriver R L K A C) (r : RemoteRegister R) (endpoint : Endpoint)
      → entry d endpoint.resource_id ≡ some r
      → Quiet I J d (resolve_if_pending os net w d r endpoint).1
  unfolding resolve_if_pending
  resolve_if-Quiet w d r endpoint here = elim (Bool-cases r.properties.ready) [
    | inl e ↦ rw (e, resolve_if_pending) (Quiet-refl I J d)
    | inr e ↦ rw (e, resolve_if_pending) (resolve-Quiet w d r endpoint here)
  ]

  read-Quiet :
      (w : W) (d : TcpDriver R L K A C) (r : RemoteRegister R) (endpoint : Endpoint)
      → Quiet I J d (read_from_remote os net w d r endpoint).1
  unfolding read_from_remote
  read-Quiet w d r endpoint = elim (ReadStatus-cases (os.receive w r.resource).2) [
    | inl e ↦ rw (e, read_from_remote) (Quiet-refl I J d)
    | inr e ↦ rw (e, read_from_remote) (deregister-Quiet I J os.source d endpoint.resource_id)
  ]

  write-Quiet :
      (w : W) (d : TcpDriver R L K A C) (r : RemoteRegister R) (endpoint : Endpoint)
      → Quiet I J d (write_to_remote os net w d r endpoint).1
  unfolding write_to_remote
  write-Quiet w d r endpoint = Quiet-refl I J d

  remote-Quiet :
      (act : W
        → TcpDriver R L K A C
        → RemoteRegister R
        → Endpoint
        → W × TcpDriver R L K A C × List NetEvent)
      (w : W) (d : TcpDriver R L K A C) (id : ResourceId)
      → ((v : W) (e : TcpDriver R L K A C) (r : RemoteRegister R) (endpoint : Endpoint)
          → Quiet I J e (act v e r endpoint).1)
      → Quiet I J d (process_remote os net act w d id).1
  unfolding process_remote get
  remote-Quiet act w d id quiet = elim (Option-cases (entry d id)) [
    | inl gone ↦ rw (gone, process_remote) (Quiet-refl I J d)
    | inr (r, here) ↦
        let q = resolve_if_pending os net w d r (at id r) in
        let first = resolve_if-Quiet w d r (at id r) here in
        rw (here, process_remote)
          (elim (Bool-cases q.2.properties.ready) [
            | inl ready ↦
                rw (ready, process_remote)
                  (Quiet-trans I J d q.1 _ first (quiet q.0 q.1 q.2 (at id r)))
            | inr pending ↦ rw (pending, process_remote) first
          ])
  ]

  pub read_remote-Quiet :
      (w : W) (d : TcpDriver R L K A C) (id : ResourceId)
      → Quiet I J d (process_remote os net (read_from_remote os net) w d id).1
  read_remote-Quiet w d id = remote-Quiet (read_from_remote os net) w d id read-Quiet

  pub process_write-Quiet :
      (w : W) (d : TcpDriver R L K A C) (id : ResourceId)
      → Quiet I J d (process_write os net w d id).1
  unfolding process_write
  process_write-Quiet w d id = elim (ResourceType-cases (resource_type id)) [
    | inl is_remote ↦
        rw (is_remote, process_write) (remote-Quiet (write_to_remote os net) w d id write-Quiet)
    | inr is_local ↦ rw (is_local, process_write) (Quiet-refl I J d)
  ]

  pub register_remote-Quiet :
      (d : TcpDriver R L K A C) (id : ResourceId) (addr : SocketAddr) (local_id : Option ResourceId)
      (resource : R)
      → I id.id
      → Quiet I J d (register_remote os net d (id, addr) local_id resource)
  unfolding register_remote
  register_remote-Quiet d id addr local_id resource inside = record {
    held = λ h. record {
      remotes = λ k reg e.
          elim (update_inv d.remote_registry.resources id.id _ k reg (
            sym (ap (λ f. f k) (register-resources os.source d.remote_registry id resource _ _))
            ∙ e)) [ inl (same, _) ↦ rw same inside | inr (_, there) ↦ h.remotes k reg there ];
      locals = h.locals;
    };
    posts_kept = refl;
    count_kept = refl;
  }

  pub process_listen-Quiet :
      (w : W) (d : TcpDriver R L K A C) (config : ListenConfig K) (id : ResourceId)
      (addr : SocketAddr) (cb : ℕ)
      → J id.id
      → Quiet I J d (process_listen os net w d config id addr cb).1
  unfolding process_listen
  process_listen-Quiet w d config id addr cb inside =
      elim (IoResult-cases (net.listen_with w config addr).1) [
        | inl ((l, bound), e) ↦
            rw (e, process_listen)
              record {
                held = λ h. record {
                  remotes = h.remotes;
                  locals = λ k reg there.
                      elim (update_inv d.local_registry.resources id.id _ k reg (
                        sym
                          (ap (λ f. f k) (register-resources net.source d.local_registry id l _ _))
                        ∙ there)) [
                          | inl (same, _) ↦ rw same inside
                          | inr (_, old) ↦ h.locals k reg old
                        ];
                };
                posts_kept = refl;
                count_kept = refl;
              }
        | inr (kind, e) ↦ rw (e, process_listen) (Quiet-refl I J d)
      ]

  pub process_close-Quiet :
      (d : TcpDriver R L K A C) (id : ResourceId) → Quiet I J d (process_close os net d id).0
  unfolding process_close
  process_close-Quiet d id = elim (ResourceType-cases (resource_type id)) [
    | inl is_remote ↦ rw (is_remote, process_close) (deregister-Quiet I J os.source d id)
    | inr is_local ↦
        rw (is_local, process_close)
          record {
            held = λ h. record {
              remotes = h.remotes;
              locals = λ k reg e.
                  elim (update_inv d.local_registry.resources id.id none k reg (
                    sym (ap (λ f. f k) (deregister-resources net.source d.local_registry id))
                    ∙ e)) [
                      | inl (_, clash) ↦ absurd (ap_clash clash refl)
                      | inr (_, there) ↦ h.locals k reg there
                    ];
            };
            posts_kept = refl;
            count_kept = refl;
          }
  ]
