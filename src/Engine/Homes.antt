-- ===== src/Engine/Homes.antt =====
-- The node of src/node.rs with the drivers of src/network/transport.rs: where its resources are, which
-- ids it has issued, and whose payloads wait.
use message_io.Prelude.{
  ℕ, ◌<◌, ◌≡◌, ◌≢◌, refl, sym, ap, ◌∙◌, arith, ◌⊎◌, inl, inr, none, some, get_elem?, Option-cases,
}
use mathlib.Core.Path.{subst}
use message_io.Network.ResourceId.{ResourceIdGenerator, max_adapters}
use message_io.Network.Transport.{Transport, tcp, ssl, ws, id}
use message_io.Network.Registry.{new_registry}
use message_io.Network.Registry.Coherence.{eq_or_ne}
use message_io.Network.Loader.{Slot, unimplemented, driver, create_processors}
use message_io.Network.Loader.Slots.{create_processors-slots}
use message_io.Network.TcpDriver.{TcpDriver, new_driver}
use message_io.Engine.Drivers.{AnyOf, of_tcp, of_ssl, of_ws, new_any}
use message_io.Engine.Quiet.{Held}
use message_io.Engine.Slots.{HeldAny, HeldSlot}
use message_io.Engine.Queues.{some-inj, in_range}

module _ {R1 L1 X1 Y1 R2 L2 X2 Y2 R3 L3 X3 Y3 K : Type 0} where
  -- A boxed driver has a remote, or a listener, under this number.
  abbrev pub HasRemote :
      AnyOf (TcpDriver R1 L1 K X1 Y1) (TcpDriver R2 L2 K X2 Y2) (TcpDriver R3 L3 K X3 Y3)
      → ℕ
      → Type 0
  HasRemote (of_tcp d) k = d.remote_registry.resources k ≢ none
  HasRemote (of_ssl d) k = d.remote_registry.resources k ≢ none
  HasRemote (of_ws d) k = d.remote_registry.resources k ≢ none

  abbrev pub HasListener :
      AnyOf (TcpDriver R1 L1 K X1 Y1) (TcpDriver R2 L2 K X2 Y2) (TcpDriver R3 L3 K X3 Y3)
      → ℕ
      → Type 0
  HasListener (of_tcp d) k = d.local_registry.resources k ≢ none
  HasListener (of_ssl d) k = d.local_registry.resources k ≢ none
  HasListener (of_ws d) k = d.local_registry.resources k ≢ none

module _ {R L K A C : Type 0} (I J : ℕ → Type 0) where
  new-Held :
      (rgen : ResourceIdGenerator)
      → Held I J (new_driver {R = R} {L = L} {K = K} {A = A} {C = C} rgen)
  unfolding new_driver new_registry
  new-Held rgen = record { remotes = λ k reg e. absurd cc; locals = λ k reg e. absurd cc }

  Held-remote :
      (d : TcpDriver R L K A C) (k : ℕ) → Held I J d → d.remote_registry.resources k ≢ none → I k
  Held-remote d k h there = elim (Option-cases (d.remote_registry.resources k)) [
    | inl gone ↦ absurd (there gone)
    | inr (reg, e) ↦ h.remotes k reg e
  ]

  Held-listener :
      (d : TcpDriver R L K A C) (k : ℕ) → Held I J d → d.local_registry.resources k ≢ none → J k
  Held-listener d k h there = elim (Option-cases (d.local_registry.resources k)) [
    | inl gone ↦ absurd (there gone)
    | inr (reg, e) ↦ h.locals k reg e
  ]

module _ {R1 L1 X1 Y1 R2 L2 X2 Y2 R3 L3 X3 Y3 K : Type 0} (I J : ℕ → Type 0) where
  pub HeldAny-remote :
      (d : AnyOf (TcpDriver R1 L1 K X1 Y1) (TcpDriver R2 L2 K X2 Y2) (TcpDriver R3 L3 K X3 Y3))
      (k : ℕ)
      → HeldAny I J d
      → HasRemote d k
      → I k
  HeldAny-remote (of_tcp d) k h there = Held-remote I J d k h there
  HeldAny-remote (of_ssl d) k h there = Held-remote I J d k h there
  HeldAny-remote (of_ws d) k h there = Held-remote I J d k h there

  pub HeldAny-listener :
      (d : AnyOf (TcpDriver R1 L1 K X1 Y1) (TcpDriver R2 L2 K X2 Y2) (TcpDriver R3 L3 K X3 Y3))
      (k : ℕ)
      → HeldAny I J d
      → HasListener d k
      → J k
  HeldAny-listener (of_tcp d) k h there = Held-listener I J d k h there
  HeldAny-listener (of_ssl d) k h there = Held-listener I J d k h there
  HeldAny-listener (of_ws d) k h there = Held-listener I J d k h there

  new_any-Held :
      (rgen : ResourceIdGenerator) (t : Transport)
      (d : AnyOf (TcpDriver R1 L1 K X1 Y1) (TcpDriver R2 L2 K X2 Y2) (TcpDriver R3 L3 K X3 Y3))
      → new_any rgen t ≡ d
      → HeldSlot (id t) I J (driver d)
  unfolding new_any
  new_any-Held rgen tcp d e =
      subst (λ x. HeldSlot (id tcp) I J (driver x)) e (refl, new-Held I J rgen)
  new_any-Held rgen ssl d e =
      subst (λ x. HeldSlot (id ssl) I J (driver x)) e (refl, new-Held I J rgen)
  new_any-Held rgen ws d e =
      subst (λ x. HeldSlot (id ws) I J (driver x)) e (refl, new-Held I J rgen)

no_other : (a : ℕ) → a ≢ id tcp → a ≢ id ssl → a ≢ id ws → (t : Transport) → a ≢ id t
no_other a h _ _ tcp = h
no_other a _ h _ ssl = h
no_other a _ _ h ws = h

transport_at : (a : ℕ) → ((t : Transport) × (a ≡ id t)) ⊎ ((t : Transport) → a ≢ id t)
transport_at a = elim (eq_or_ne a (id tcp)) [
  | inl e ↦ inl (tcp, e)
  | inr not_tcp ↦ elim (eq_or_ne a (id ssl)) [
    | inl e ↦ inl (ssl, e)
    | inr not_ssl ↦ elim (eq_or_ne a (id ws)) [
      | inl e ↦ inl (ws, e)
      | inr not_ws ↦ inr (no_other a not_tcp not_ssl not_ws)
    ]
  ]
]

module _ {R1 L1 X1 Y1 R2 L2 X2 Y2 R3 L3 X3 Y3 K : Type 0} (rgen : ResourceIdGenerator) where
  pub slot_new :
      (a : ℕ)
      (p : Slot
        (AnyOf (TcpDriver R1 L1 K X1 Y1) (TcpDriver R2 L2 K X2 Y2) (TcpDriver R3 L3 K X3 Y3)))
      (I J : ℕ → Type 0)
      → get_elem? (create_processors (new_any rgen)) a ≡ some p
      → HeldSlot a I J p
  slot_new a p I J there =
      let within : a < max_adapters =
        omega (
          arith,
          in_range _ a p there,
          (create_processors-slots (new_any rgen) 0 (omega arith)).2,
        ) in
      let (mounted, empty, _) = create_processors-slots (new_any rgen) a within in
      elim (transport_at a) [
        | inl (t, e) ↦
            subst (λ b. HeldSlot b I J p) (sym e)
              (subst (λ x. HeldSlot (id t) I J x)
                (some-inj (driver (new_any rgen t)) p (
                  sym (mounted t)
                  ∙ ap (λ b. get_elem? (create_processors (new_any rgen)) b) (sym e)
                  ∙ there))
                (new_any-Held I J rgen t (new_any rgen t) refl))
        | inr other ↦
            subst (λ x. HeldSlot a I J x) (some-inj unimplemented p (sym (empty other) ∙ there)) tt
      ]
