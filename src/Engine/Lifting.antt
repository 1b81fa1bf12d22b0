-- ===== src/Engine/Lifting.antt =====
-- From a driver to the slot of a thread that it stands in: the boxes of src/network/loader.rs keep
-- what a driver keeps.
use message_io.Prelude.{ℕ, inl, inr, Option, List, All-weaken, Option-cases}
use message_io.Network.ResourceId.{ResourceId}
use message_io.Network.Messages.{WakerCommand}
use message_io.Network.Worker.{EventProcessor}
use message_io.Network.Loader.{Slot, unimplemented, driver, call, slot_processor}
use message_io.Engine.{Shared}
use message_io.Engine.Drivers.{AnyOf, of_tcp, of_ssl, of_ws, any_call, any_processor}
use message_io.Engine.Requests.{
  Request, read, write, accept_register, connect_register, listen_at, connect_to, send_to, close_it,
  ask_ready, Returns, Handles, returned-Returns, panic-Returns,
}
use message_io.Engine.Sharing.{Worked}

-- The same work, seen of another processor.
pub Worked-map :
    {S P Q K A C : Type 0} (KeepsP : P → P → Type 0) (KeepsQ : Q → Q → Type 0)
    (OwnP OwnQ : WakerCommand K A C → Type 0) (asked : List ResourceId) (a : ℕ)
    (s s' : Shared S K A C) (p p' : P) (q q' : Q)
    → (KeepsP p p' → KeepsQ q q')
    → ((c : WakerCommand K A C) → OwnP c → OwnQ c)
    → Worked KeepsP OwnP asked a s p s' p'
    → Worked KeepsQ OwnQ asked a s q s' q'
Worked-map KeepsP KeepsQ OwnP OwnQ asked a s s' p p' q q' keeps owns w = record {
  kept = keeps w.kept;
  adapters = w.adapters;
  posts = w.posts;
  of_adapter = w.of_adapter;
  delivered = w.delivered;
  issued = w.issued;
  ids = w.ids;
  registers = w.registers;
  connects = w.connects;
  own = All-weaken w.posts (λ (id, c) h. owns c h) w.own;
  fits = w.fits;
}

module _ {S X Y Z O : Type 0} (f : X → Option (S × X × List O)) (g : Y → Option (S × Y × List O))
    (h : Z → Option (S × Z × List O)) (Q : S → AnyOf X Y Z → Type 0) where
  of_tcp-Returns :
      (x : X) → Returns (f x) (λ s v. Q s (of_tcp v)) → Returns (any_call f g h (of_tcp x)) Q
  unfolding any_call
  of_tcp-Returns x given = elim (Option-cases (f x)) [
    | inl e ↦ rw (e, any_call) (panic-Returns Q)
    | inr ((s, v, os), e) ↦ rw (e, any_call) (returned-Returns Q s (of_tcp v) os (given s v os e))
  ]

  of_ssl-Returns :
      (y : Y) → Returns (g y) (λ s v. Q s (of_ssl v)) → Returns (any_call f g h (of_ssl y)) Q
  unfolding any_call
  of_ssl-Returns y given = elim (Option-cases (g y)) [
    | inl e ↦ rw (e, any_call) (panic-Returns Q)
    | inr ((s, v, os), e) ↦ rw (e, any_call) (returned-Returns Q s (of_ssl v) os (given s v os e))
  ]

  of_ws-Returns :
      (z : Z) → Returns (h z) (λ s v. Q s (of_ws v)) → Returns (any_call f g h (of_ws z)) Q
  unfolding any_call
  of_ws-Returns z given = elim (Option-cases (h z)) [
    | inl e ↦ rw (e, any_call) (panic-Returns Q)
    | inr ((s, v, os), e) ↦ rw (e, any_call) (returned-Returns Q s (of_ws v) os (given s v os e))
  ]

module _ {S X Y Z K A C : Type 0} (p1 : EventProcessor S X K A C) (p2 : EventProcessor S Y K A C)
    (p3 : EventProcessor S Z K A C) (Q : S → AnyOf X Y Z → Type 0) where
  pub of_tcp-Handles :
      (req : Request K A C) (s : S) (d : X)
      → Handles p1 req s d (λ s' v. Q s' (of_tcp v))
      → Handles (any_processor p1 p2 p3) req s (of_tcp d) Q
  unfolding any_processor
  of_tcp-Handles (read id) s d h =
      of_tcp-Returns (λ e. p1.process_read s e id) (λ e. p2.process_read s e id)
        (λ e. p3.process_read s e id) Q d h
  of_tcp-Handles (write id) s d h =
      of_tcp-Returns (λ e. p1.process_write s e id) (λ e. p2.process_write s e id)
        (λ e. p3.process_write s e id) Q d h
  of_tcp-Handles (accept_register l r stream payload) s d h =
      of_tcp-Returns (λ e. p1.process_accept_register_remote s e l r stream payload)
        (λ e. p2.process_accept_register_remote s e l r stream payload)
        (λ e. p3.process_accept_register_remote s e l r stream payload) Q d h
  of_tcp-Handles (connect_register l r stream payload cb) s d h =
      of_tcp-Returns (λ e. p1.process_connect_register_remote s e l r stream payload cb)
        (λ e. p2.process_connect_register_remote s e l r stream payload cb)
        (λ e. p3.process_connect_register_remote s e l r stream payload cb) Q d h
  of_tcp-Handles (listen_at config id addr cb) s d h =
      of_tcp-Returns (λ e. p1.process_listen s e config id addr cb)
        (λ e. p2.process_listen s e config id addr cb)
        (λ e. p3.process_listen s e config id addr cb) Q d h
  of_tcp-Handles (connect_to config id raddr cb) s d h =
      of_tcp-Returns (λ e. p1.process_connect s e config id raddr cb)
        (λ e. p2.process_connect s e config id raddr cb)
        (λ e. p3.process_connect s e config id raddr cb) Q d h
  of_tcp-Handles (send_to endpoint bytes) s d h =
      of_tcp-Returns (λ e. p1.process_send s e endpoint bytes)
        (λ e. p2.process_send s e endpoint bytes) (λ e. p3.process_send s e endpoint bytes) Q d h
  of_tcp-Handles (close_it id) s d h =
      of_tcp-Returns (λ e. p1.process_close s e id) (λ e. p2.process_close s e id)
        (λ e. p3.process_close s e id) Q d h
  of_tcp-Handles (ask_ready id cb) s d h =
      of_tcp-Returns (λ e. p1.process_is_ready s e id cb) (λ e. p2.process_is_ready s e id cb)
        (λ e. p3.process_is_ready s e id cb) Q d h

  pub of_ssl-Handles :
      (req : Request K A C) (s : S) (d : Y)
      → Handles p2 req s d (λ s' v. Q s' (of_ssl v))
      → Handles (any_processor p1 p2 p3) req s (of_ssl d) Q
  unfolding any_processor
  of_ssl-Handles (read id) s d h =
      of_ssl-Returns (λ e. p1.process_read s e id) (λ e. p2.process_read s e id)
        (λ e. p3.process_read s e id) Q d h
  of_ssl-Handles (write id) s d h =
      of_ssl-Returns (λ e. p1.process_write s e id) (λ e. p2.process_write s e id)
        (λ e. p3.process_write s e id) Q d h
  of_ssl-Handles (accept_register l r stream payload) s d h =
      of_ssl-Returns (λ e. p1.process_accept_register_remote s e l r stream payload)
        (λ e. p2.process_accept_register_remote s e l r stream payload)
        (λ e. p3.process_accept_register_remote s e l r stream payload) Q d h
  of_ssl-Handles (connect_register l r stream payload cb) s d h =
      of_ssl-Returns (λ e. p1.process_connect_register_remote s e l r stream payload cb)
        (λ e. p2.process_connect_register_remote s e l r stream payload cb)
        (λ e. p3.process_connect_register_remote s e l r stream payload cb) Q d h
  of_ssl-Handles (listen_at config id addr cb) s d h =
      of_ssl-Returns (λ e. p1.process_listen s e config id addr cb)
        (λ e. p2.process_listen s e config id addr cb)
        (λ e. p3.process_listen s e config id addr cb) Q d h
  of_ssl-Handles (connect_to config id raddr cb) s d h =
      of_ssl-Returns (λ e. p1.process_connect s e config id raddr cb)
        (λ e. p2.process_connect s e config id raddr cb)
        (λ e. p3.process_connect s e config id raddr cb) Q d h
  of_ssl-Handles (send_to endpoint bytes) s d h =
      of_ssl-Returns (λ e. p1.process_send s e endpoint bytes)
        (λ e. p2.process_send s e endpoint bytes) (λ e. p3.process_send s e endpoint bytes) Q d h
  of_ssl-Handles (close_it id) s d h =
      of_ssl-Returns (λ e. p1.process_close s e id) (λ e. p2.process_close s e id)
        (λ e. p3.process_close s e id) Q d h
  of_ssl-Handles (ask_ready id cb) s d h =
      of_ssl-Returns (λ e. p1.process_is_ready s e id cb) (λ e. p2.process_is_ready s e id cb)
        (λ e. p3.process_is_ready s e id cb) Q d h

  pub of_ws-Handles :
      (req : Request K A C) (s : S) (d : Z)
      → Handles p3 req s d (λ s' v. Q s' (of_ws v))
      → Handles (any_processor p1 p2 p3) req s (of_ws d) Q
  unfolding any_processor
  of_ws-Handles (read id) s d h =
      of_ws-Returns (λ e. p1.process_read s e id) (λ e. p2.process_read s e id)
        (λ e. p3.process_read s e id) Q d h
  of_ws-Handles (write id) s d h =
      of_ws-Returns (λ e. p1.process_write s e id) (λ e. p2.process_write s e id)
        (λ e. p3.process_write s e id) Q d h
  of_ws-Handles (accept_register l r stream payload) s d h =
      of_ws-Returns (λ e. p1.process_accept_register_remote s e l r stream payload)
        (λ e. p2.process_accept_register_remote s e l r stream payload)
        (λ e. p3.process_accept_register_remote s e l r stream payload) Q d h
  of_ws-Handles (connect_register l r stream payload cb) s d h =
      of_ws-Returns (λ e. p1.process_connect_register_remote s e l r stream payload cb)
        (λ e. p2.process_connect_register_remote s e l r stream payload cb)
        (λ e. p3.process_connect_register_remote s e l r stream payload cb) Q d h
  of_ws-Handles (listen_at config id addr cb) s d h =
      of_ws-Returns (λ e. p1.process_listen s e config id addr cb)
        (λ e. p2.process_listen s e config id addr cb)
        (λ e. p3.process_listen s e config id addr cb) Q d h
  of_ws-Handles (connect_to config id raddr cb) s d h =
      of_ws-Returns (λ e. p1.process_connect s e config id raddr cb)
        (λ e. p2.process_connect s e config id raddr cb)
        (λ e. p3.process_connect s e config id raddr cb) Q d h
  of_ws-Handles (send_to endpoint bytes) s d h =
      of_ws-Returns (λ e. p1.process_send s e endpoint bytes)
        (λ e. p2.process_send s e endpoint bytes) (λ e. p3.process_send s e endpoint bytes) Q d h
  of_ws-Handles (close_it id) s d h =
      of_ws-Returns (λ e. p1.process_close s e id) (λ e. p2.process_close s e id)
        (λ e. p3.process_close s e id) Q d h
  of_ws-Handles (ask_ready id cb) s d h =
      of_ws-Returns (λ e. p1.process_is_ready s e id cb) (λ e. p2.process_is_ready s e id cb)
        (λ e. p3.process_is_ready s e id cb) Q d h

module _ {S D O : Type 0} (f : D → Option (S × D × List O)) (Q : S → Slot D → Type 0) where
  slot-Returns : (d : D) → Returns (f d) (λ s v. Q s (driver v)) → Returns (call f (driver d)) Q
  unfolding call
  slot-Returns d given = elim (Option-cases (f d)) [
    | inl e ↦ rw (e, call) (panic-Returns Q)
    | inr ((s, v, os), e) ↦ rw (e, call) (returned-Returns Q s (driver v) os (given s v os e))
  ]

  unimplemented-Returns : Returns (call f unimplemented) Q
  unfolding call
  unimplemented-Returns = panic-Returns Q

module _ {S D K A C : Type 0} (p : EventProcessor S D K A C) (Q : S → Slot D → Type 0) where
  pub slot-Handles :
      (req : Request K A C) (s : S) (d : D)
      → Handles p req s d (λ s' v. Q s' (driver v))
      → Handles (slot_processor p) req s (driver d) Q
  slot-Handles (read id) s d h = slot-Returns (λ e. p.process_read s e id) Q d h
  slot-Handles (write id) s d h = slot-Returns (λ e. p.process_write s e id) Q d h
  slot-Handles (accept_register l r stream payload) s d h =
      slot-Returns (λ e. p.process_accept_register_remote s e l r stream payload) Q d h
  slot-Handles (connect_register l r stream payload cb) s d h =
      slot-Returns (λ e. p.process_connect_register_remote s e l r stream payload cb) Q d h
  slot-Handles (listen_at config id addr cb) s d h =
      slot-Returns (λ e. p.process_listen s e config id addr cb) Q d h
  slot-Handles (connect_to config id raddr cb) s d h =
      slot-Returns (λ e. p.process_connect s e config id raddr cb) Q d h
  slot-Handles (send_to endpoint bytes) s d h =
      slot-Returns (λ e. p.process_send s e endpoint bytes) Q d h
  slot-Handles (close_it id) s d h = slot-Returns (λ e. p.process_close s e id) Q d h
  slot-Handles (ask_ready id cb) s d h = slot-Returns (λ e. p.process_is_ready s e id cb) Q d h

  pub unimplemented-Handles :
      (req : Request K A C) (s : S) → Handles (slot_processor p) req s unimplemented Q
  unimplemented-Handles (read id) s = unimplemented-Returns (λ e. p.process_read s e id) Q
  unimplemented-Handles (write id) s = unimplemented-Returns (λ e. p.process_write s e id) Q
  unimplemented-Handles (accept_register l r stream payload) s =
      unimplemented-Returns (λ e. p.process_accept_register_remote s e l r stream payload) Q
  unimplemented-Handles (connect_register l r stream payload cb) s =
      unimplemented-Returns (λ e. p.process_connect_register_remote s e l r stream payload cb) Q
  unimplemented-Handles (listen_at config id addr cb) s =
      unimplemented-Returns (λ e. p.process_listen s e config id addr cb) Q
  unimplemented-Handles (connect_to config id raddr cb) s =
      unimplemented-Returns (λ e. p.process_connect s e config id raddr cb) Q
  unimplemented-Handles (send_to endpoint bytes) s =
      unimplemented-Returns (λ e. p.process_send s e endpoint bytes) Q
  unimplemented-Handles (close_it id) s = unimplemented-Returns (λ e. p.process_close s e id) Q
  unimplemented-Handles (ask_ready id cb) s =
      unimplemented-Returns (λ e. p.process_is_ready s e id cb) Q
