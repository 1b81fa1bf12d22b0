-- ===== src/Network/TcpDriver/Stages/Keeps.antt =====
-- The changes of a driver and its system that keep `IsSafe`.
use message_io.Prelude.{ℕ, ◌≡◌, ◌≢◌, refl, sym, ap, ◌∙◌, inl, inr, true, Option, none, some}
use message_io.Network.ResourceId.{ResourceId}
use message_io.Network.Messages.{SocketAddr, new_properties, mark_as_ready}
use message_io.Network.Registry.{register}
use message_io.Network.Registry.Coherence.{
  eq_or_ne, update_inv, deregister-resources, deregister-IsCoherent, other_source,
  register-resources, register-IsCoherent, replace-IsCoherent,
}
use message_io.Network.TcpDriver.{TcpDriver, RemoteRegister, mark_register, deregister_remote}
use message_io.Network.TcpDriver.Stages.{
  establishing, established, stage_of, Stages, Calm, Unmoved, IsSafe,
}

some-inj : {A : Type 0} (a b : A) → ◌≡◌ {A = Option A} (some a) (some b) → a ≡ b
some-inj a b e = cc

-- One call after another on the same stream.
pub Calm-trans :
    {W : Type 0} (st : Stages W) (w w' w'' : W) (stream : ℕ)
    → Calm st w w' stream
    → Calm st w' w'' stream
    → Calm st w w'' stream
Calm-trans st w w' w'' stream first second = record {
  healthy = second.healthy;
  apart = λ t other. second.apart t other ∙ first.apart t other;
}

module _ {W R L K A C : Type 0} (source : R → ℕ) (st : Stages W) where
  -- A register under another id has another stream, whose stage stays.
  elsewhere :
      (w w' : W) (d : TcpDriver R L K A C) (id : ResourceId) (r : RemoteRegister R) (k : ℕ)
      (reg : RemoteRegister R)
      → IsSafe source st w d
      → d.remote_registry.resources id.id ≡ some r
      → Calm st w w' (source r.resource)
      → k ≢ id.id
      → d.remote_registry.resources k ≡ some reg
      → st.stage w' (source reg.resource) ≡ stage_of reg.properties.ready
  elsewhere w w' d id r k reg safe here calm other there =
      calm.apart (source reg.resource)
        (λ q. other (safe.coherent.separate k id.id reg r there here q))
      ∙ safe.staged k reg there

  -- A call on a registered connection that leaves it in its stage.
  pub stays-IsSafe :
      (w w' : W) (d : TcpDriver R L K A C) (id : ResourceId) (r : RemoteRegister R)
      → IsSafe source st w d
      → d.remote_registry.resources id.id ≡ some r
      → Calm st w w' (source r.resource)
      → st.stage w' (source r.resource) ≡ stage_of r.properties.ready
      → IsSafe source st w' d
  stays-IsSafe w w' d id r safe here calm same = record {
    healthy = calm.healthy;
    coherent = safe.coherent;
    staged = λ k reg there. elim (eq_or_ne k id.id) [
      | inl e ↦
          let it : reg ≡ r = some-inj reg r (sym there ∙ ap d.remote_registry.resources e ∙ here) in
          ap (λ x. st.stage w' (source x.resource)) it
          ∙ same
          ∙ ap (λ x. stage_of x.properties.ready) (sym it)
      | inr other ↦ elsewhere w w' d id r k reg safe here calm other there
    ];
  }

  -- A call that establishes the connection, and the mark for it.
  pub marked-IsSafe :
      (w w' : W) (d : TcpDriver R L K A C) (id : ResourceId) (r : RemoteRegister R)
      → IsSafe source st w d
      → d.remote_registry.resources id.id ≡ some r
      → Calm st w w' (source r.resource)
      → st.stage w' (source r.resource) ≡ established
      → IsSafe source st w'
          (mark_register d id (record r { properties = mark_as_ready r.properties }))
  unfolding mark_register mark_as_ready
  marked-IsSafe w w' d id r safe here calm now =
      let marked : RemoteRegister R = record r { properties = mark_as_ready r.properties } in
      record {
        healthy = calm.healthy;
        coherent = replace-IsCoherent source d.remote_registry id r marked safe.coherent here refl;
        staged = λ k reg there.
            elim (update_inv d.remote_registry.resources id.id (some marked) k reg there) [
              | inl (e, taken) ↦
                  let it : marked ≡ reg = some-inj marked reg taken in
                  ap (λ x. st.stage w' (source x.resource)) (sym it)
                  ∙ now
                  ∙ ap (λ x. stage_of x.properties.ready) it
              | inr (other, old) ↦ elsewhere w w' d id r k reg safe here calm other old
            ];
      }

  -- A call behind which the connection is deregistered.
  pub removed-IsSafe :
      (w w' : W) (d : TcpDriver R L K A C) (id : ResourceId) (r : RemoteRegister R)
      → IsSafe source st w d
      → d.remote_registry.resources id.id ≡ some r
      → Calm st w w' (source r.resource)
      → IsSafe source st w' (deregister_remote source d id).0
  unfolding deregister_remote
  removed-IsSafe w w' d id r safe here calm = record {
    healthy = calm.healthy;
    coherent = (deregister-IsCoherent source d.remote_registry id safe.coherent).0;
    staged = λ k reg there.
        elim (update_inv d.remote_registry.resources id.id none k reg
          (ap (λ f. f k) (sym (deregister-resources source d.remote_registry id)) ∙ there)) [
            | inl (e, taken) ↦ cc
            | inr (other, old) ↦ elsewhere w w' d id r k reg safe here calm other old
          ];
  }

  -- A driver that removes an id, registered or not.
  pub deregister_remote-IsSafe :
      (w : W) (d : TcpDriver R L K A C) (id : ResourceId)
      → IsSafe source st w d
      → IsSafe source st w (deregister_remote source d id).0
  unfolding deregister_remote
  deregister_remote-IsSafe w d id safe = record {
    healthy = safe.healthy;
    coherent = (deregister-IsCoherent source d.remote_registry id safe.coherent).0;
    staged = λ k reg there.
        elim (update_inv d.remote_registry.resources id.id none k reg
          (ap (λ f. f k) (sym (deregister-resources source d.remote_registry id)) ∙ there)) [
            | inl (e, taken) ↦ cc
            | inr (other, old) ↦ safe.staged k reg old
          ];
  }

  -- The system moves without touching a connection, and so does the driver.
  pub still-IsSafe :
      (w w' : W) (d : TcpDriver R L K A C)
      → IsSafe source st w d
      → Unmoved st w w'
      → IsSafe source st w' d
  still-IsSafe w w' d safe still = record {
    healthy = still.healthy safe.healthy;
    coherent = safe.coherent;
    staged = λ k reg there. still.stages (source reg.resource) ∙ safe.staged k reg there;
  }

  -- Only the registry of remotes matters.
  pub registry-IsSafe :
      (w : W) (d d' : TcpDriver R L K A C)
      → IsSafe source st w d
      → d'.remote_registry ≡ d.remote_registry
      → IsSafe source st w d'
  registry-IsSafe w d d' safe e = record {
    healthy = safe.healthy;
    coherent = rw e safe.coherent;
    staged = λ k reg there. safe.staged k reg (ap (λ x. x.resources k) (sym e) ∙ there);
  }

  -- A new connection on a stream that is not watched, under an id that is not used.
  pub registered-IsSafe :
      (w w' : W) (d d' : TcpDriver R L K A C) (id : ResourceId) (s : R) (addr : SocketAddr)
      (l : Option ResourceId)
      → IsSafe source st w d
      → d.remote_registry.resources id.id ≡ none
      → d.remote_registry.polled (source s) ≡ none
      → Calm st w w' (source s)
      → st.stage w' (source s) ≡ establishing
      → d'.remote_registry ≡ register source d.remote_registry id s (new_properties addr l) true
      → IsSafe source st w' d'
  unfolding new_properties
  registered-IsSafe w w' d d' id s addr l safe unused fresh calm now shape =
      let p = new_properties addr l in
      let new : RemoteRegister R = record { resource = s; properties = p } in
      record {
        healthy = calm.healthy;
        coherent =
            rw shape
              (register-IsCoherent source d.remote_registry id s p true safe.coherent fresh unused);
        staged = λ k reg there.
            elim (update_inv d.remote_registry.resources id.id (some new) k reg (
              ap (λ f. f k) (sym (register-resources source d.remote_registry id s p true))
              ∙ ap (λ x. x.resources k) (sym shape)
              ∙ there)) [
                | inl (e, taken) ↦
                    let it : new ≡ reg = some-inj new reg taken in
                    ap (λ x. st.stage w' (source x.resource)) (sym it)
                    ∙ now
                    ∙ ap (λ x. stage_of x.properties.ready) it
                | inr (other, old) ↦
                    calm.apart (source reg.resource) (
                      other_source source d.remote_registry k reg (source s) safe.coherent old
                        fresh)
                    ∙ safe.staged k reg old
              ];
      }
