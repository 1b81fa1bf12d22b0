-- ===== src/Network/TcpDriver/Stages/Steps.antt =====
-- Commands keep `IsSafe`.
use message_io.Prelude.{
  ℕ, ◌≡◌, sym, refl, ap, ◌∙◌, ◌⊎◌, inl, inr, false, Option, none, some, List, Option-cases,
  Bool-cases,
}
use mathlib.Core.Path.{subst}
use message_io.Network.ResourceId.{ResourceId, resource_type}
use message_io.Network.Messages.{
  SocketAddr, Endpoint, SendStatus, ErrorKind, Call, ListenConfig, IoResult, ok, err,
}
use message_io.Network.Registry.{get, register, deregister}
use message_io.Network.Adapter.{Remote, Local}
use message_io.Network.TcpDriver.{TcpDriver}
use message_io.Network.TcpDriver.Handlers.{
  register_remote, process_listen, process_send, process_close,
}
use message_io.Network.TcpDriver.Reads.{entry}
use message_io.Network.TcpDriver.Stages.{
  Stages, stage_of, Calm, SendsStaged, LeavesStages, OpensStage, IsSafe,
}
use message_io.Network.TcpDriver.Stages.Keeps.{
  stays-IsSafe, deregister_remote-IsSafe, still-IsSafe, registry-IsSafe, registered-IsSafe,
}
use message_io.Network.TcpDriver.Stages.Polls.{ResourceType-cases, stage_at}

pub IoResult-cases :
    {A : Type 0} (r : IoResult A) → ((a : A) × (r ≡ ok a)) ⊎ ((k : ErrorKind) × (r ≡ err k))
IoResult-cases (ok a) = inl (a, refl)
IoResult-cases (err k) = inr (k, refl)

module _ {W R L K A C : Type 0} (os : Remote W R) (net : Local W L K A) (st : Stages W) where
  -- After a send that did not panic.
  abbrev pub SafeAfter : TcpDriver R L K A C → Option (W × SendStatus) → Type 0
  SafeAfter d none = Unit
  SafeAfter d (some (w', status)) = IsSafe os.source st w' d

  to-SafeAfter :
      (w : W) (d : TcpDriver R L K A C) (l : L) (addr : SocketAddr) (bytes : List ℕ)
      → LeavesStages net st
      → IsSafe os.source st w d
      → SafeAfter d (net.send_to w l addr bytes)
  to-SafeAfter w d l addr bytes still safe = elim (Option-cases (net.send_to w l addr bytes)) [
    | inl e ↦ rw e tt
    | inr ((w', status), e) ↦
        rw e
          (still-IsSafe os.source st w w' d safe (still.send_to_unmoved w l addr bytes w' status e))
  ]

  pub send-SafeAfter :
      (w : W) (d : TcpDriver R L K A C) (endpoint : Endpoint) (bytes : List ℕ)
      → SendsStaged os st
      → LeavesStages net st
      → IsSafe os.source st w d
      → SafeAfter d (process_send os net w d endpoint bytes)
  unfolding process_send get
  send-SafeAfter w d endpoint bytes sends still safe =
      let id = endpoint.resource_id in
      elim (ResourceType-cases (resource_type id)) [
        | inl is_remote ↦
            rw (is_remote, process_send)
              (elim (Option-cases (entry d id)) [
                | inl gone ↦ rw (gone, process_send) safe
                | inr (r, here) ↦ elim (Bool-cases r.properties.ready) [
                  | inl ready ↦
                      let now = stage_at os net st w d id r safe here ready in
                      rw (here, ready, process_send)
                        (stays-IsSafe os.source st w (os.send w r.resource bytes).0 d id r safe here
                          (sends.send_calm w r.resource bytes safe.healthy now)
                          (sends.send_stage w r.resource bytes now
                            ∙ ap (λ b. stage_of b) (sym ready)))
                  | inr pending ↦ rw (here, pending, process_send) safe
                ]
              ])
        | inr is_local ↦
            rw (is_local, process_send)
              (elim (Option-cases (d.local_registry.resources id.id)) [
                | inl gone ↦ rw (gone, process_send) safe
                | inr (l, here) ↦
                    rw (here, process_send)
                      (to-SafeAfter w d l.resource endpoint.addr bytes still safe)
              ])
      ]

  pub close-IsSafe :
      (w : W) (d : TcpDriver R L K A C) (id : ResourceId)
      → IsSafe os.source st w d
      → IsSafe os.source st w (process_close os net d id).0
  unfolding process_close
  close-IsSafe w d id safe = elim (ResourceType-cases (resource_type id)) [
    | inl is_remote ↦
        rw (is_remote, process_close) (deregister_remote-IsSafe os.source st w d id safe)
    | inr is_local ↦
        rw (is_local, process_close)
          (registry-IsSafe os.source st w d
            (record d { local_registry = (deregister net.source d.local_registry id).0 }) safe refl)
  ]

  pub listen-IsSafe :
      (w : W) (d : TcpDriver R L K A C) (config : ListenConfig K) (id : ResourceId)
      (addr : SocketAddr) (callback : ℕ)
      → LeavesStages net st
      → IsSafe os.source st w d
      → let q : W × TcpDriver R L K A C × List Call =
          process_listen os net w d config id addr callback in
        IsSafe os.source st q.0 q.1
  unfolding process_listen
  listen-IsSafe w d config id addr callback still safe =
      let w' = (net.listen_with w config addr).0 in
      let kept = still-IsSafe os.source st w w' d safe (still.listen_unmoved w config addr) in
      elim (IoResult-cases (net.listen_with w config addr).1) [
        | inl ((l, local_addr), e) ↦
            rw (e, process_listen)
              (registry-IsSafe os.source st w' d
                (record d {
                  local_registry = register net.source d.local_registry id l (record {}) false;
                })
                kept refl)
        | inr (kind, e) ↦ rw (e, process_listen) kept
      ]

  pub new-IsSafe :
      {P : Type 0} (new_resource : W → ℕ → P → W × R) (w : W) (d : TcpDriver R L K A C)
      (id : ResourceId) (addr : SocketAddr) (l : Option ResourceId) (stream : ℕ) (p : P)
      → OpensStage os st new_resource
      → IsSafe os.source st w d
      → entry d id ≡ none
      → d.remote_registry.polled stream ≡ none
      → let (w', s) = new_resource w stream p in
        IsSafe os.source st w' (register_remote os net d (id, addr) l s)
  unfolding register_remote
  new-IsSafe new_resource w d id addr l stream p opens safe unused fresh =
      let (w', s) = new_resource w stream p in
      let here = opens.on_stream w stream p in
      registered-IsSafe os.source st w w' d (register_remote os net d (id, addr) l s) id s addr l
        safe unused (ap d.remote_registry.polled here ∙ fresh)
        (subst (λ t. Calm st w w' t) (sym here) (opens.new_calm w stream p safe.healthy))
        (ap (λ t. st.stage w' t) here ∙ opens.new_stage w stream p) refl
