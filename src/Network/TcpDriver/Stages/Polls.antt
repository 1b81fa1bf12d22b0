-- ===== src/Network/TcpDriver/Stages/Polls.antt =====
-- Readiness events keep `IsSafe`: what `process_read` and `process_write` do to the stages.
use message_io.Prelude.{
  ◌≡◌, sym, ap, ◌∙◌, ◌⊎◌, inl, inr, refl, true, false, some, List, [], ◌∷◌, Option-cases,
  Bool-cases,
}
use message_io.Network.ResourceId.{ResourceId, ResourceType, local, remote, resource_type}
use message_io.Network.Messages.{Endpoint, NetEvent}
use message_io.Network.Registry.{get}
use message_io.Network.Adapter.{Remote, Local, AcceptedType}
use message_io.Network.TcpDriver.{
  TcpDriver, RemoteRegister, resolve_pending_remote, resolve_if_pending, read_from_remote,
  write_to_remote, process_remote, process_read, process_write, read_from_local, accept_all,
  accept_one,
}
use message_io.Network.TcpDriver.Reads.{
  entry, at, PendingStatus-cases, ReadStatus-cases, not_resolved, is_resolved, Resolved,
  resolve_if-Resolved,
}
use message_io.Network.TcpDriver.Stages.{
  Stages, establishing, established, stage_of, IsStaged, LeavesStages, IsSafe,
}
use message_io.Network.TcpDriver.Stages.Keeps.{
  stays-IsSafe, marked-IsSafe, Calm-trans, removed-IsSafe, still-IsSafe, registry-IsSafe,
}

pub ResourceType-cases : (t : ResourceType) → (t ≡ remote) ⊎ (t ≡ local)
ResourceType-cases remote = inl refl
ResourceType-cases local = inr refl

module _ {W R L K A C : Type 0} (os : Remote W R) (net : Local W L K A) (st : Stages W) where
  pub stage_at :
      (w : W) (d : TcpDriver R L K A C) (id : ResourceId) (r : RemoteRegister R)
      → IsSafe os.source st w d
      → entry d id ≡ some r
      → r.properties.ready ≡ true
      → st.stage w (os.source r.resource) ≡ established
  stage_at w d id r safe here ready = safe.staged id.id r here ∙ ap (λ b. stage_of b) ready

  stage_before :
      (w : W) (d : TcpDriver R L K A C) (id : ResourceId) (r : RemoteRegister R)
      → IsSafe os.source st w d
      → entry d id ≡ some r
      → r.properties.ready ≡ false
      → st.stage w (os.source r.resource) ≡ establishing
  stage_before w d id r safe here pending = safe.staged id.id r here ∙ ap (λ b. stage_of b) pending

  resolve-IsSafe :
      (w : W) (d : TcpDriver R L K A C) (id : ResourceId) (r : RemoteRegister R)
      → IsStaged os st
      → IsSafe os.source st w d
      → entry d id ≡ some r
      → r.properties.ready ≡ false
      → let q : W × TcpDriver R L K A C × RemoteRegister R × List NetEvent =
          resolve_pending_remote os net w d r (at id r) in
        IsSafe os.source st q.0 q.1
  unfolding resolve_pending_remote
  resolve-IsSafe w d id r laws safe here pending =
      let before = stage_before w d id r safe here pending in
      let calm = laws.pending_calm w r.resource safe.healthy before in
      elim (PendingStatus-cases (os.pending w r.resource).1) [
        | inl e ↦
            let w' = (os.pending w r.resource).0 in
            let now = laws.pending_ready w r.resource before e in
            rw (e, resolve_pending_remote)
              (marked-IsSafe os.source st w (os.ready_to_write w' r.resource).0 d id r safe here
                (Calm-trans st w w' (os.ready_to_write w' r.resource).0 (os.source r.resource) calm
                  (laws.write_calm w' r.resource calm.healthy now))
                (laws.write_stage w' r.resource now))
        | inr (inl e) ↦
            rw (e, resolve_pending_remote)
              (stays-IsSafe os.source st w (os.pending w r.resource).0 d id r safe here calm (
                laws.pending_incomplete w r.resource before e ∙ ap (λ b. stage_of b) (sym pending)))
        | inr (inr e) ↦
            rw (e, resolve_pending_remote)
              (removed-IsSafe os.source st w (os.pending w r.resource).0 d id r safe here calm)
      ]

  resolve_if-IsSafe :
      (w : W) (d : TcpDriver R L K A C) (id : ResourceId) (r : RemoteRegister R)
      → IsStaged os st
      → IsSafe os.source st w d
      → entry d id ≡ some r
      → let q : W × TcpDriver R L K A C × RemoteRegister R × List NetEvent =
          resolve_if_pending os net w d r (at id r) in
        IsSafe os.source st q.0 q.1
  resolve_if-IsSafe w d id r laws safe here = elim (Bool-cases r.properties.ready) [
    | inl ready ↦ rw (not_resolved os net w d id r ready) safe
    | inr pending ↦
        rw (is_resolved os net w d id r pending) (resolve-IsSafe w d id r laws safe here pending)
  ]

  -- An action on an established connection that keeps `IsSafe`, for whatever address.
  abbrev IsSafely :
      (W
        → TcpDriver R L K A C
        → RemoteRegister R
        → Endpoint
        → W × TcpDriver R L K A C × List NetEvent)
      → Type 0
  IsSafely act =
      (w : W) (d : TcpDriver R L K A C) (r : RemoteRegister R) (endpoint : Endpoint)
      → IsSafe os.source st w d
      → entry d endpoint.resource_id ≡ some r
      → st.stage w (os.source r.resource) ≡ established
      → IsSafe os.source st (act w d r endpoint).0 (act w d r endpoint).1

  read-IsSafely : IsStaged os st → IsSafely (read_from_remote os net)
  unfolding read_from_remote
  read-IsSafely laws w d r endpoint safe here now =
      let calm = laws.receive_calm w r.resource safe.healthy now in
      let w' = (os.receive w r.resource).0 in
      let id = endpoint.resource_id in
      elim (ReadStatus-cases (os.receive w r.resource).2) [
        | inl e ↦
            rw (e, read_from_remote)
              (stays-IsSafe os.source st w w' d id r safe here calm
                (laws.receive_stage w r.resource now ∙ sym now ∙ safe.staged id.id r here))
        | inr e ↦ rw (e, read_from_remote) (removed-IsSafe os.source st w w' d id r safe here calm)
      ]

  write-IsSafely : IsStaged os st → IsSafely (write_to_remote os net)
  unfolding write_to_remote
  write-IsSafely laws w d r endpoint safe here now =
      let id = endpoint.resource_id in
      stays-IsSafe os.source st w (os.ready_to_write w r.resource).0 d id r safe here
        (laws.write_calm w r.resource safe.healthy now)
        (laws.write_stage w r.resource now ∙ sym now ∙ safe.staged id.id r here)

  remote-IsSafe :
      (act : W
        → TcpDriver R L K A C
        → RemoteRegister R
        → Endpoint
        → W × TcpDriver R L K A C × List NetEvent)
      (w : W) (d : TcpDriver R L K A C) (id : ResourceId)
      → IsSafely act
      → IsStaged os st
      → IsSafe os.source st w d
      → IsSafe os.source st
          (process_remote os net act w d id).0
          (process_remote os net act w d id).1
  unfolding process_remote get
  remote-IsSafe act w d id safely laws safe = elim (Option-cases (entry d id)) [
    | inl gone ↦ rw (gone, process_remote) safe
    | inr (r, here) ↦
        let q = resolve_if_pending os net w d r (at id r) in
        let h : Resolved id r q = resolve_if-Resolved os net w d id r here in
        let kept : IsSafe os.source st q.0 q.1 = resolve_if-IsSafe w d id r laws safe here in
        rw (here, process_remote)
          (elim (Bool-cases q.2.properties.ready) [
            | inl ready ↦
                let there = h.shared ready in
                rw (ready, process_remote)
                  (safely q.0 q.1 q.2 (at id r) kept there
                    (stage_at q.0 q.1 id q.2 kept there ready))
            | inr pending ↦ rw (pending, process_remote) kept
          ])
  ]

  accept_all-registry :
      (d : TcpDriver R L K A C) (id : ResourceId) (l : L) (as' : List (AcceptedType A))
      → (accept_all os net d id l as').0.remote_registry ≡ d.remote_registry
  unfolding accept_all accept_one
  accept_all-registry d id l [] = refl
  accept_all-registry d id l (AcceptedType.remote addr stream payload ∷ rest) =
      accept_all-registry (accept_one os net d id l (AcceptedType.remote addr stream payload)).0 id
        l rest
  accept_all-registry d id l (AcceptedType.datagram addr bytes ∷ rest) =
      accept_all-registry d id l rest

  local-IsSafe :
      (w : W) (d : TcpDriver R L K A C) (l : L) (id : ResourceId)
      → LeavesStages net st
      → IsSafe os.source st w d
      → IsSafe os.source st (read_from_local os net w d l id).0 (read_from_local os net w d l id).1
  unfolding read_from_local
  local-IsSafe w d l id still safe =
      let w' = (net.accept w l).0 in
      let d' = (accept_all os net d id l (net.accept w l).1).0 in
      registry-IsSafe os.source st w' d d'
        (still-IsSafe os.source st w w' d safe (still.accept_unmoved w l))
        (accept_all-registry d id l (net.accept w l).1)

  pub process_read-IsSafe :
      (w : W) (d : TcpDriver R L K A C) (id : ResourceId)
      → IsStaged os st
      → LeavesStages net st
      → IsSafe os.source st w d
      → IsSafe os.source st (process_read os net w d id).0 (process_read os net w d id).1
  unfolding process_read get
  process_read-IsSafe w d id laws still safe = elim (ResourceType-cases (resource_type id)) [
    | inl is_remote ↦
        rw (is_remote, process_read)
          (remote-IsSafe (read_from_remote os net) w d id (read-IsSafely laws) laws safe)
    | inr is_local ↦
        rw (is_local, process_read)
          (elim (Option-cases (d.local_registry.resources id.id)) [
            | inl gone ↦ rw (gone, process_read) safe
            | inr (l, here) ↦ rw (here, process_read) (local-IsSafe w d l.resource id still safe)
          ])
  ]

  pub process_write-IsSafe :
      (w : W) (d : TcpDriver R L K A C) (id : ResourceId)
      → IsStaged os st
      → IsSafe os.source st w d
      → IsSafe os.source st (process_write os net w d id).0 (process_write os net w d id).1
  unfolding process_write
  process_write-IsSafe w d id laws safe = elim (ResourceType-cases (resource_type id)) [
    | inl is_remote ↦
        rw (is_remote, process_write)
          (remote-IsSafe (write_to_remote os net) w d id (write-IsSafely laws) laws safe)
    | inr is_local ↦ rw (is_local, process_write) safe
  ]
