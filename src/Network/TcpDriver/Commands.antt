-- ===== src/Network/TcpDriver/Commands.antt =====
-- What the commands do to the life of a connection, and what they answer.
use message_io.Prelude.{
  ℕ, ◌≡◌, ◌≢◌, ◌↔◌, sym, refl, ap, ◌∙◌, ◌⊎◌, inl, inr, Bool, true, false, Option, none, some, List,
  Option-cases, Bool-cases,
}
use message_io.Network.ResourceId.{ResourceId, local, remote, resource_type}
use message_io.Network.Messages.{SocketAddr, Endpoint, SendStatus, new_properties}
use message_io.Network.Registry.{update, get}
use message_io.Network.Registry.Coherence.{
  update-same, update-other, ap_clash, register-resources, deregister-resources, deregister-was,
  deregister-was_not,
}
use message_io.Network.Adapter.{Remote, Local}
use message_io.Network.TcpDriver.{TcpDriver, RemoteRegister, deregister_remote}
use message_io.Network.TcpDriver.Handlers.{
  register_remote, process_accept_register_remote, process_connect_register_remote, process_send,
  process_close, process_is_ready,
}
use message_io.Network.TcpDriver.Lifecycle.{
  Life, absent, connecting, accepting, live, pending_life, life_of,
}
use message_io.Network.TcpDriver.Reads.{life}

-- What `is_ready` answers for each life.
unfoldable pub readiness : Life → Option Bool
readiness absent = none
readiness (connecting _) = some false
readiness (accepting _ _) = some false
readiness (live _) = some true

local_remote : local ≢ remote
local_remote e = cc

readiness_of :
    {R : Type 0} (o : Option (RemoteRegister R))
    → (elim o as (λ _. Option Bool) [ none ↦ none | some r ↦ some r.properties.ready ])
      ≡ readiness (life_of o)
unfolding readiness
readiness_of none = refl
readiness_of (some r) = elim (Bool-cases r.properties.ready) [
  | inl e ↦ rw (e) refl
  | inr e ↦ rw (e) (elim (Option-cases r.properties.local) [
    | inl l ↦ rw (l) refl
    | inr (listener, l) ↦ rw (l) refl
  ])
]

-- Only remote ids are registered as remotes.
abbrev pub HoldsRemotes : {R L K A C : Type 0} → TcpDriver R L K A C → Type 0
HoldsRemotes {R} d =
    (k : ℕ) (r : RemoteRegister R)
    → d.remote_registry.resources k ≡ some r
    → resource_type (record { id = k }) ≡ remote

module _ {W R L K A C : Type 0} (os : Remote W R) (net : Local W L K A) where
  closed :
      (d : TcpDriver R L K A C) (id : ResourceId)
      → resource_type id ≡ remote
      → process_close os net d id ≡ deregister_remote os.source d id
  unfolding process_close
  closed d id is_remote = rw (is_remote, process_close) refl

  entries :
      (d : TcpDriver R L K A C) (id : ResourceId) (j : ℕ)
      → (deregister_remote os.source d id).0.remote_registry.resources j
        ≡ update d.remote_registry.resources id.id none j
  unfolding deregister_remote
  entries d id j = ap (λ f. f j) (deregister-resources os.source d.remote_registry id)

  was_there :
      (d : TcpDriver R L K A C) (id : ResourceId)
      → ((deregister_remote os.source d id).1 ≡ true) ↔ (d.remote_registry.resources id.id ≢ none)
  unfolding deregister_remote
  was_there d id = elim (Option-cases (d.remote_registry.resources id.id)) [
    | inl gone ↦
        let no = deregister-was_not os.source d.remote_registry id gone in
        (λ e. cc, λ n. absurd (n gone))
    | inr (r, here) ↦
        (λ _ q. ap_clash here q, λ _. deregister-was os.source d.remote_registry id r here)
  ]

  -- Closing a remote id leaves it absent and every other id as it was; it answers `true` exactly
  -- when the id was registered, so closing it once more answers `false`.
  pub process_close_lem :
      (d : TcpDriver R L K A C) (id j : ResourceId)
      → resource_type id ≡ remote
      → j.id ≢ id.id
      → (life (process_close os net d id).0 id ≡ absent)
        × (life (process_close os net d id).0 j ≡ life d j)
        × (((process_close os net d id).1 ≡ true) ↔ (d.remote_registry.resources id.id ≢ none))
        × ((process_close os net (process_close os net d id).0 id).1 ≡ false)
  process_close_lem d id j is_remote other =
      let d' = (deregister_remote os.source d id).0 in
      let gone : d'.remote_registry.resources id.id ≡ none =
        entries d id id.id ∙ update-same d.remote_registry.resources id.id none id.id refl in
      rw (closed d id is_remote, closed d' id is_remote)
        (
          ap (λ o. life_of o) gone,
          ap (λ o. life_of o)
              (entries d id j.id ∙ update-other d.remote_registry.resources id.id none j.id other),
          was_there d id,
          elim (Bool-cases (deregister_remote os.source d' id).1) [
            | inl yes_it_was ↦ absurd ((was_there d' id).0 yes_it_was gone)
            | inr it_was_not ↦ it_was_not
          ],
        )

  -- For a remote id, `is_ready` answers by the life of its connection: nothing if it is absent, and
  -- else whether it is ready.
  pub process_is_ready-readiness :
      (d : TcpDriver R L K A C) (id : ResourceId)
      → resource_type id ≡ remote
      → process_is_ready os net d id ≡ readiness (life d id)
  unfolding process_is_ready get readiness
  process_is_ready-readiness d id is_remote =
      rw (is_remote, process_is_ready) (readiness_of (d.remote_registry.resources id.id))

  -- For a local id `is_ready` answers nothing, whether or not its listener is registered, when only
  -- remote ids are registered as remotes.
  pub process_is_ready-local :
      (d : TcpDriver R L K A C) (id : ResourceId)
      → HoldsRemotes d
      → resource_type id ≡ local
      → process_is_ready os net d id ≡ none
  unfolding process_is_ready get
  process_is_ready-local d id remotes is_local =
      elim (Option-cases (d.remote_registry.resources id.id)) [
        | inl gone ↦ rw (is_local, process_is_ready) (rw (gone, process_is_ready) refl)
        | inr (r, here) ↦ absurd (local_remote (sym is_local ∙ remotes id.id r here))
      ]

  -- A send to a remote id that is not ready does not touch the connection.
  pub process_send-not_live :
      (w : W) (d : TcpDriver R L K A C) (endpoint : Endpoint) (bytes : List ℕ)
      → resource_type endpoint.resource_id ≡ remote
      → ((a : SocketAddr) → life d endpoint.resource_id ≢ live a)
      → (process_send os net w d endpoint bytes ≡ some (w, SendStatus.resource_not_found))
        ⊎ (process_send os net w d endpoint bytes ≡ some (w, SendStatus.resource_not_available))
  unfolding process_send get
  process_send-not_live w d endpoint bytes is_remote not_live =
      rw (is_remote, process_send)
        (elim (Option-cases (d.remote_registry.resources endpoint.resource_id.id)) [
          | inl gone ↦ rw (gone, process_send) (inl refl)
          | inr (r, here) ↦ elim (Bool-cases r.properties.ready) [
            | inl ready ↦ absurd (not_live r.properties.peer_addr (rw (here, ready) refl))
            | inr pending ↦ rw (here, pending, process_send) (inr refl)
          ]
        ])

  life_at :
      (d : TcpDriver R L K A C) (id : ResourceId) (l : Option ResourceId) (addr : SocketAddr)
      (s : R)
      → life (register_remote os net d (id, addr) l s) id ≡ pending_life l addr
  unfolding register_remote new_properties
  life_at d id l addr s =
      ap (λ o. life_of o)
        (ap (λ f. f id.id)
            (register-resources os.source d.remote_registry id s (new_properties addr l) true)
          ∙ update-same d.remote_registry.resources id.id _ id.id refl)

  life_off :
      (d : TcpDriver R L K A C) (id : ResourceId) (l : Option ResourceId) (addr : SocketAddr)
      (s : R) (j : ResourceId)
      → j.id ≢ id.id
      → life (register_remote os net d (id, addr) l s) j ≡ life d j
  unfolding register_remote new_properties
  life_off d id l addr s j other =
      ap (λ o. life_of o)
        (ap (λ f. f j.id)
            (register-resources os.source d.remote_registry id s (new_properties addr l) true)
          ∙ update-other d.remote_registry.resources id.id _ j.id other)

  -- A connection that the worker registers, asked for by the user or accepted by a listener, waits
  -- to become ready; no other id changes. The adapter makes its resource in any way.
  pub register-life :
      (w : W) (d : TcpDriver R L K A C) (id listener j : ResourceId)
      (local_addr remote_addr : SocketAddr) (stream : ℕ) (new_connected : W → ℕ → C → W × R)
      (asked : C) (new_accepted : W → ℕ → A → W × R) (given : A) (callback : ℕ)
      → j.id ≢ id.id
      → let by_user : TcpDriver R L K A C =
          (process_connect_register_remote os net new_connected w d local_addr
            (id, remote_addr)
            stream
            asked
            callback).1 in
        let by_listener : TcpDriver R L K A C =
          (process_accept_register_remote os net new_accepted w d
            (listener, local_addr)
            (id, remote_addr)
            stream
            given
            callback).1 in
        (life by_user id ≡ connecting remote_addr)
        × (life by_listener id ≡ accepting listener remote_addr)
        × (life by_user j ≡ life d j)
        × (life by_listener j ≡ life d j)
  unfolding process_connect_register_remote process_accept_register_remote
  register-life w d id listener j local_addr remote_addr stream new_connected asked new_accepted
        given callback other =
      (
        life_at d id none remote_addr (new_connected w stream asked).1,
        life_at d id (some listener) remote_addr (new_accepted w stream given).1,
        life_off d id none remote_addr (new_connected w stream asked).1 j other,
        life_off d id (some listener) remote_addr (new_accepted w stream given).1 j other,
      )
