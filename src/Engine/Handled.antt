-- ===== src/Engine/Handled.antt =====
-- What a handler of a driver may do: register within bounds, count on the generator, and post
-- registrations of the ids that it generates or was given.
use message_io.Prelude.{
  ℕ, suc, ◌+◌, ◌≤◌, ◌≡◌, refl, sym, ap, ◌∙◌, arith, ◌⊎◌, inl, inr, List, [], ◌∷◌, ◌++◌, length,
  append-nil, append_assoc, All, Option-cases,
}
use message_io.Network.ResourceId.{
  ResourceId, ResourceIdGenerator, resource_type, adapter_id, generate, generate_all,
  max_base_value,
}
use message_io.Network.ResourceId.Fields.{adapter_id-lt, new_fields}
use message_io.Network.Messages.{
  SocketAddr, WakerCommand, accept_register_remote, connect_register_remote,
}
use message_io.Network.Registry.{get}
use message_io.Network.Adapter.{Remote, Local, AcceptedType}
use message_io.Network.TcpDriver.{TcpDriver, process_read, read_from_local, accept_one, accept_all}
use message_io.Network.TcpDriver.Handlers.{post_connect_register}
use message_io.Network.TcpDriver.Stages.Polls.{ResourceType-cases}
use message_io.Engine.{accepted_ids}
use message_io.Engine.Quiet.{Held, Quiet, Quiet-refl, read_remote-Quiet}

-- The command registers a remote under this id.
pub data Registers {K A C : Type 0} (id : ResourceId) : WakerCommand K A C → Type 0 where
  by_accept :
      (l : ResourceId × SocketAddr) (addr : SocketAddr) (stream : ℕ) (payload : A)
      → Registers id (accept_register_remote l (id, addr) stream payload)
  by_connect :
      (l addr : SocketAddr) (stream : ℕ) (payload : C) (cb : ℕ)
      → Registers id (connect_register_remote l (id, addr) stream payload cb)

-- The generator after these calls.
abbrev pub counted : ResourceIdGenerator → List ℕ → ResourceIdGenerator
counted g [] = g
counted g (a ∷ as') = counted (generate g a).0 as'

-- The ids of the connections that were asked for and are handed on.
unfoldable pub connect_ids :
    {K A C : Type 0} → List (ResourceId × WakerCommand K A C) → List ResourceId
connect_ids [] = []
connect_ids ((id, connect_register_remote _ _ _ _ _) ∷ posts) = id ∷ connect_ids posts
connect_ids (_ ∷ posts) = connect_ids posts

-- For an adapter a: from the driver d, its handler leaves d'. It hands on no connection, or those that
-- it was asked for.
pub record Handled {R L K A C : Type 0} (asked : List ResourceId) (a : ℕ) (I J : ℕ → Type 0)
    (d d' : TcpDriver R L K A C) : Type 0 where
  pub held : Held I J d → Held I J d'
  pub adapters : List ℕ
  pub posts : List (ResourceId × WakerCommand K A C)
  pub of_adapter : All (λ b. b ≡ a) adapters
  pub count : d'.remote_id_generator ≡ counted d.remote_id_generator adapters
  pub posted : d'.posted ≡ d.posted ++ posts
  pub issued : accepted_ids posts ≡ generate_all d.remote_id_generator adapters
  pub registers : All (λ (id, c). Registers id c) posts
  pub connects : (connect_ids posts ≡ []) ⊎ (connect_ids posts ≡ asked)
  pub fits :
      d.remote_id_generator.last + length adapters ≤ suc max_base_value
      → All (λ (id, c). adapter_id id ≡ a) posts

module _ {R L K A C : Type 0} (asked : List ResourceId) (a : ℕ) (I J : ℕ → Type 0) where
  pub Quiet-Handled : (d d' : TcpDriver R L K A C) → Quiet I J d d' → Handled asked a I J d d'
  unfolding generate_all accepted_ids connect_ids
  Quiet-Handled d d' q = record {
    held = q.held;
    adapters = [];
    posts = [];
    of_adapter = tt;
    count = q.count_kept;
    posted = q.posts_kept ∙ sym (append-nil d.posted);
    issued = refl;
    registers = tt;
    connects = inl refl;
    fits = λ _. tt;
  }

module _ {R L K A C : Type 0} (a : ℕ) (I J : ℕ → Type 0) where
  pub post_connect_register-Handled :
      (d : TcpDriver R L K A C) (id : ResourceId) (local_addr peer_addr : SocketAddr) (stream : ℕ)
      (payload : C) (cb : ℕ)
      → adapter_id id ≡ a
      → Handled
          (id ∷ [])
          a
          I
          J
          d
          (post_connect_register d id local_addr peer_addr stream payload cb)
  unfolding generate_all accepted_ids connect_ids post_connect_register
  post_connect_register-Handled d id local_addr peer_addr stream payload cb fit = record {
    held = λ h. record { remotes = h.remotes; locals = h.locals };
    adapters = [];
    posts = (id, connect_register_remote local_addr (id, peer_addr) stream payload cb) ∷ [];
    of_adapter = tt;
    count = refl;
    posted = refl;
    issued = refl;
    registers = (Registers.by_connect local_addr peer_addr stream payload cb, tt);
    connects = inr refl;
    fits = λ _. (fit, tt);
  }

module _ {W R L K A C : Type 0} (os : Remote W R) (net : Local W L K A) (I J : ℕ → Type 0) where
  accept_all-Handled :
      (d : TcpDriver R L K A C) (id : ResourceId) (l : L) (as' : List (AcceptedType A))
      → Handled [] (adapter_id id) I J d (accept_all os net d id l as').0
  unfolding accept_all accept_one generate_all accepted_ids connect_ids generate
  accept_all-Handled d id l [] = Quiet-Handled [] (adapter_id id) I J d d (Quiet-refl I J d)
  accept_all-Handled d id l (AcceptedType.datagram addr bytes ∷ rest) =
      accept_all-Handled d id l rest
  accept_all-Handled d id l (AcceptedType.remote addr stream payload ∷ rest) =
      let a = adapter_id id in
      let g = d.remote_id_generator in
      let d1 = (accept_one os net d id l (AcceptedType.remote addr stream payload)).0 in
      let h = accept_all-Handled d1 id l rest in
      let remote_id = (generate g a).1 in
      let c : WakerCommand K A C =
        accept_register_remote (id, net.local_addr l) (remote_id, addr) stream payload in
      record {
        held = λ held. h.held (record { remotes = held.remotes; locals = held.locals });
        adapters = a ∷ h.adapters;
        posts = (remote_id, c) ∷ h.posts;
        of_adapter = (refl, h.of_adapter);
        count = h.count;
        posted = h.posted ∙ append_assoc d.posted ((remote_id, c) ∷ []) h.posts;
        issued = ap (λ ids. remote_id ∷ ids) h.issued;
        registers = (Registers.by_accept (id, net.local_addr l) addr stream payload, h.registers);
        connects = h.connects;
        fits = λ within. (
          (new_fields a g.last g.kind (omega (arith, adapter_id-lt id)) (omega arith)).0,
          h.fits (omega arith),
        );
      }

  pub process_read-Handled :
      (w : W) (d : TcpDriver R L K A C) (id : ResourceId)
      → Handled [] (adapter_id id) I J d (process_read os net w d id).1
  unfolding process_read get read_from_local
  process_read-Handled w d id = elim (ResourceType-cases (resource_type id)) [
    | inl is_remote ↦
        rw (is_remote, process_read)
          (Quiet-Handled [] (adapter_id id) I J d _ (read_remote-Quiet os net I J w d id))
    | inr is_local ↦
        rw (is_local, process_read)
          (elim (Option-cases (d.local_registry.resources id.id)) [
            | inl gone ↦
                rw (gone, process_read)
                  (Quiet-Handled [] (adapter_id id) I J d d (Quiet-refl I J d))
            | inr (l, here) ↦
                rw (here, process_read)
                  (accept_all-Handled d id l.resource (net.accept w l.resource).1)
          ])
  ]
