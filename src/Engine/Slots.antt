-- ===== src/Engine/Slots.antt =====
-- The processors of a node (src/network/loader.rs) work within bounds: in each slot the driver of its
-- transport, with the ids that belong to it.
use message_io.Prelude.{ℕ, ◌≡◌, refl}
use mathlib.Core.Path.{subst}
use message_io.Network.ResourceId.{ResourceId}
use message_io.Network.Transport.{tcp, ssl, ws, id}
use message_io.Network.Messages.{WakerCommand, accept_register_remote, connect_register_remote}
use message_io.Network.Worker.{EventProcessor}
use message_io.Network.Loader.{Slot, unimplemented, driver}
use message_io.Network.TcpDriver.{TcpDriver}
use message_io.Engine.{Shared, Part, erase}
use message_io.Engine.Drivers.{
  AnyOf, of_tcp, of_ssl, of_ws, transport_of, tcp_boxed, ssl_boxed, ws_boxed,
}
use message_io.Engine.Mounted.{node_processor}
use message_io.Engine.Quiet.{Held}
use message_io.Engine.Handled.{Registers}
use message_io.Engine.Contract.{IsHandling}
use message_io.Engine.Requests.{Request, slot_of, asked_of, Allowed, Handles, Handles-weaken}
use message_io.Engine.Sharing.{Worked, Holding, share-Worked}
use message_io.Engine.Lifting.{
  Worked-map, of_tcp-Handles, of_ssl-Handles, of_ws-Handles, slot-Handles, unimplemented-Handles,
}

-- A processor of each slot keeps its ids within bounds and posts commands that fit the slot.
abbrev pub IsNodeProcessor :
    {S P K A C : Type 0}
    → EventProcessor (Shared S K A C) P K A C
    → (ℕ → (ℕ → Type 0) → (ℕ → Type 0) → P → Type 0)
    → (ℕ → WakerCommand K A C → Type 0)
    → Type 1
IsNodeProcessor {S} {P} {K} {A} {C} p HeldIn Fits =
    (I J : ℕ → Type 0) (q : Request K A C) (s : Shared S K A C) (d : P)
    → Allowed I J q
    → HeldIn (slot_of q) I J d
    → Handles p q s d
        (Worked (λ _ d'. HeldIn (slot_of q) I J d') (Fits (slot_of q)) (asked_of q) (slot_of q) s d)

-- A registration fits the slot of the transport whose driver made its payload.
abbrev pub Fits :
    {K X1 X2 X3 Y1 Y2 Y3 : Type 0} → ℕ → WakerCommand K (AnyOf X1 X2 X3) (AnyOf Y1 Y2 Y3) → Type 0
Fits a (accept_register_remote _ _ _ payload) = id (transport_of payload) ≡ a
Fits a (connect_register_remote _ _ _ payload _) = id (transport_of payload) ≡ a
Fits a _ = Unit

module _ {R1 L1 X1 Y1 R2 L2 X2 Y2 R3 L3 X3 Y3 K : Type 0} where
  abbrev pub HeldAny :
      (ℕ → Type 0)
      → (ℕ → Type 0)
      → AnyOf (TcpDriver R1 L1 K X1 Y1) (TcpDriver R2 L2 K X2 Y2) (TcpDriver R3 L3 K X3 Y3)
      → Type 0
  HeldAny I J (of_tcp d) = Held I J d
  HeldAny I J (of_ssl d) = Held I J d
  HeldAny I J (of_ws d) = Held I J d

  abbrev pub HeldSlot :
      ℕ
      → (ℕ → Type 0)
      → (ℕ → Type 0)
      → Slot (AnyOf (TcpDriver R1 L1 K X1 Y1) (TcpDriver R2 L2 K X2 Y2) (TcpDriver R3 L3 K X3 Y3))
      → Type 0
  HeldSlot a I J unimplemented = Unit
  HeldSlot a I J (driver d) = (id (transport_of d) ≡ a) × HeldAny I J d

module _ {S W1 W2 W3 R1 L1 X1 Y1 R2 L2 X2 Y2 R3 L3 X3 Y3 K : Type 0} (part1 : Part S W1)
    (part2 : Part S W2) (part3 : Part S W3)
    (p1 : EventProcessor W1 (TcpDriver R1 L1 K X1 Y1) K X1 Y1)
    (p2 : EventProcessor W2 (TcpDriver R2 L2 K X2 Y2) K X2 Y2)
    (p3 : EventProcessor W3 (TcpDriver R3 L3 K X3 Y3) K X3 Y3) where
  abbrev A : Type 0
  A = AnyOf X1 X2 X3

  abbrev C : Type 0
  C = AnyOf Y1 Y2 Y3

  tcp_owned :
      (r : ResourceId) (c : WakerCommand K X1 Y1)
      → Registers r c
      → Fits (id tcp) (erase {K = K} {A = A} {C = C} of_tcp of_tcp c)
  unfolding erase
  tcp_owned r _ (Registers.by_accept _ _ _ _) = refl
  tcp_owned r _ (Registers.by_connect _ _ _ _ _) = refl

  ssl_owned :
      (r : ResourceId) (c : WakerCommand K X2 Y2)
      → Registers r c
      → Fits (id ssl) (erase {K = K} {A = A} {C = C} of_ssl of_ssl c)
  unfolding erase
  ssl_owned r _ (Registers.by_accept _ _ _ _) = refl
  ssl_owned r _ (Registers.by_connect _ _ _ _ _) = refl

  ws_owned :
      (r : ResourceId) (c : WakerCommand K X3 Y3)
      → Registers r c
      → Fits (id ws) (erase {K = K} {A = A} {C = C} of_ws of_ws c)
  unfolding erase
  ws_owned r _ (Registers.by_accept _ _ _ _) = refl
  ws_owned r _ (Registers.by_connect _ _ _ _ _) = refl

  -- If each of its drivers keeps its contract, the processor of the slots keeps theirs.
  pub node_processor-IsNodeProcessor :
      IsHandling p1
      → IsHandling p2
      → IsHandling p3
      → IsNodeProcessor (node_processor part1 part2 part3 p1 p2 p3) HeldSlot Fits
  unfolding node_processor
  node_processor-IsNodeProcessor h1 h2 h3 I J q s unimplemented allowed held =
      unimplemented-Handles _ _ q s
  node_processor-IsNodeProcessor h1 h2 h3 I J q s (driver (of_tcp d)) allowed (fit, held) =
      slot-Handles _ _ q s (of_tcp d) (
        of_tcp-Handles _ _ _ _ q s d (
          Handles-weaken _ _ _
            (λ s' d' w.
              Worked-map (Holding I J) (λ _ v. HeldSlot (slot_of q) I J v) (Fits (id tcp))
                (Fits (slot_of q)) (asked_of q) (slot_of q) s s' d d' (driver (of_tcp d))
                (driver (of_tcp d')) (λ keeps. (fit, keeps held))
                (λ c own. subst (λ a. Fits a c) fit own) w)
            q s d
            (share-Worked part1 tcp_boxed tcp_boxed (Fits (id tcp)) tcp_owned p1 h1 I J q s d
              allowed)))
  node_processor-IsNodeProcessor h1 h2 h3 I J q s (driver (of_ssl d)) allowed (fit, held) =
      slot-Handles _ _ q s (of_ssl d) (
        of_ssl-Handles _ _ _ _ q s d (
          Handles-weaken _ _ _
            (λ s' d' w.
              Worked-map (Holding I J) (λ _ v. HeldSlot (slot_of q) I J v) (Fits (id ssl))
                (Fits (slot_of q)) (asked_of q) (slot_of q) s s' d d' (driver (of_ssl d))
                (driver (of_ssl d')) (λ keeps. (fit, keeps held))
                (λ c own. subst (λ a. Fits a c) fit own) w)
            q s d
            (share-Worked part2 ssl_boxed ssl_boxed (Fits (id ssl)) ssl_owned p2 h2 I J q s d
              allowed)))
  node_processor-IsNodeProcessor h1 h2 h3 I J q s (driver (of_ws d)) allowed (fit, held) =
      slot-Handles _ _ q s (of_ws d) (
        of_ws-Handles _ _ _ _ q s d (
          Handles-weaken _ _ _
            (λ s' d' w.
              Worked-map (Holding I J) (λ _ v. HeldSlot (slot_of q) I J v) (Fits (id ws))
                (Fits (slot_of q)) (asked_of q) (slot_of q) s s' d d' (driver (of_ws d))
                (driver (of_ws d')) (λ keeps. (fit, keeps held))
                (λ c own. subst (λ a. Fits a c) fit own) w)
            q s d
            (share-Worked part3 ws_boxed ws_boxed (Fits (id ws)) ws_owned p3 h3 I J q s d allowed)))

module _ {R L K A C : Type 0} where
  Held-monotone :
      (I I' J J' : ℕ → Type 0) (d : TcpDriver R L K A C)
      → ((k : ℕ) → I k → I' k)
      → ((k : ℕ) → J k → J' k)
      → Held I J d
      → Held I' J' d
  Held-monotone I I' J J' d more_remotes more_locals h = record {
    remotes = λ k reg e. more_remotes k (h.remotes k reg e);
    locals = λ k reg e. more_locals k (h.locals k reg e);
  }

module _ {R1 L1 X1 Y1 R2 L2 X2 Y2 R3 L3 X3 Y3 K : Type 0} (a : ℕ) (I I' J J' : ℕ → Type 0) where
  pub HeldSlot-monotone :
      (p : Slot
        (AnyOf (TcpDriver R1 L1 K X1 Y1) (TcpDriver R2 L2 K X2 Y2) (TcpDriver R3 L3 K X3 Y3)))
      → ((k : ℕ) → I k → I' k)
      → ((k : ℕ) → J k → J' k)
      → HeldSlot a I J p
      → HeldSlot a I' J' p
  HeldSlot-monotone unimplemented f g h = tt
  HeldSlot-monotone (driver (of_tcp d)) f g (fit, h) = (fit, Held-monotone I I' J J' d f g h)
  HeldSlot-monotone (driver (of_ssl d)) f g (fit, h) = (fit, Held-monotone I I' J J' d f g h)
  HeldSlot-monotone (driver (of_ws d)) f g (fit, h) = (fit, Held-monotone I I' J J' d f g h)
