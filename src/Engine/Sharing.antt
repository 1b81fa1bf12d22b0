-- ===== src/Engine/Sharing.antt =====
-- What a driver that keeps its contract does to what the threads share.
use message_io.Prelude.{
  ℕ, suc, ◌+◌, ◌≤◌, ◌≡◌, refl, sym, ap, ◌∙◌, ◌⊎◌, inl, inr, Option, some, List, [], ◌∷◌, ◌++◌,
  length, map, All, Option-cases,
}
use message_io.Network.ResourceId.{ResourceId, adapter_id, generate_all, max_base_value}
use message_io.Network.Messages.{WakerCommand}
use message_io.Network.Worker.{EventProcessor}
use message_io.Network.TcpDriver.{TcpDriver}
use message_io.Node.{NodeHandler}
use message_io.Engine.{Shared, Part, Boxed, erase, post_all, accepted_ids, shared_call, share}
use message_io.Engine.Quiet.{Held}
use message_io.Engine.Handled.{Registers, counted, connect_ids, Handled}
use message_io.Engine.Contract.{Gives, IsHandling}
use message_io.Engine.Requests.{
  Request, read, write, accept_register, connect_register, listen_at, connect_to, send_to, close_it,
  ask_ready, slot_of, asked_of, Allowed, Returns, Handles, returned-Returns, panic-Returns,
}

-- A call of a processor for an adapter a: `Keeps` is what it does to the processor, and each command
-- that it posts is in `Own`.
pub record Worked {S P K A C : Type 0} (Keeps : P → P → Type 0) (Own : WakerCommand K A C → Type 0)
    (asked : List ResourceId) (a : ℕ) (s : Shared S K A C) (p : P) (s' : Shared S K A C) (p' : P)
    : Type 0 where
  pub kept : Keeps p p'
  pub adapters : List ℕ
  pub posts : List (ResourceId × WakerCommand K A C)
  pub of_adapter : All (λ b. b ≡ a) adapters
  pub delivered :
      post_all
        (record s.handler { remote_id_generator = counted s.handler.remote_id_generator adapters })
        posts
      ≡ some s'.handler
  pub issued : s'.issued ≡ s.issued ++ generate_all s.handler.remote_id_generator adapters
  pub ids : accepted_ids posts ≡ generate_all s.handler.remote_id_generator adapters
  pub registers : All (λ (id, c). Registers id c) posts
  pub connects : (connect_ids posts ≡ []) ⊎ (connect_ids posts ≡ asked)
  pub own : All (λ (id, c). Own c) posts
  pub fits :
      s.handler.remote_id_generator.last + length adapters ≤ suc max_base_value
      → All (λ (id, c). adapter_id id ≡ a) posts

module _ {K A C X Y : Type 0} (box_accept : X → A) (box_connect : Y → C) where
  abbrev boxed : ResourceId × WakerCommand K X Y → ResourceId × WakerCommand K A C
  boxed (id, c) = (id, erase box_accept box_connect c)

  erase-Registers :
      (id : ResourceId) (c : WakerCommand K X Y)
      → Registers id c
      → Registers id (erase box_accept box_connect c)
  unfolding erase
  erase-Registers id _ (Registers.by_accept l addr stream payload) =
      Registers.by_accept l addr stream (box_accept payload)
  erase-Registers id _ (Registers.by_connect l addr stream payload cb) =
      Registers.by_connect l addr stream (box_connect payload) cb

  accepted_one :
      (id : ResourceId) (c : WakerCommand K X Y) (posts : List (ResourceId × WakerCommand K X Y))
      → Registers id c
      → accepted_ids (map boxed posts) ≡ accepted_ids posts
      → accepted_ids (map boxed ((id, c) ∷ posts)) ≡ accepted_ids ((id, c) ∷ posts)
  unfolding accepted_ids erase
  accepted_one id _ posts (Registers.by_accept l addr stream payload) e = ap (λ ids. id ∷ ids) e
  accepted_one id _ posts (Registers.by_connect l addr stream payload cb) e = e

  accepted_ids-boxed :
      (posts : List (ResourceId × WakerCommand K X Y))
      → All (λ (id, c). Registers id c) posts
      → accepted_ids (map boxed posts) ≡ accepted_ids posts
  unfolding accepted_ids
  accepted_ids-boxed [] rs = refl
  accepted_ids-boxed ((id, c) ∷ posts) (r, rs) =
      accepted_one id c posts r (accepted_ids-boxed posts rs)

  connected_one :
      (id : ResourceId) (c : WakerCommand K X Y) (posts : List (ResourceId × WakerCommand K X Y))
      → Registers id c
      → connect_ids (map boxed posts) ≡ connect_ids posts
      → connect_ids (map boxed ((id, c) ∷ posts)) ≡ connect_ids ((id, c) ∷ posts)
  unfolding connect_ids erase
  connected_one id _ posts (Registers.by_accept l addr stream payload) e = e
  connected_one id _ posts (Registers.by_connect l addr stream payload cb) e =
      ap (λ ids. id ∷ ids) e

  connect_ids-boxed :
      (posts : List (ResourceId × WakerCommand K X Y))
      → All (λ (id, c). Registers id c) posts
      → connect_ids (map boxed posts) ≡ connect_ids posts
  unfolding connect_ids
  connect_ids-boxed [] rs = refl
  connect_ids-boxed ((id, c) ∷ posts) (r, rs) =
      connected_one id c posts r (connect_ids-boxed posts rs)

  boxed-All :
      (P : ResourceId × WakerCommand K X Y → Type 0) (T : ResourceId × WakerCommand K A C → Type 0)
      (posts : List (ResourceId × WakerCommand K X Y))
      → ((post : ResourceId × WakerCommand K X Y) → P post → T (boxed post))
      → All P posts
      → All T (map boxed posts)
  boxed-All P T [] f all = tt
  boxed-All P T (post ∷ posts) f (one, all) = (f post one, boxed-All P T posts f all)

-- Ids stay within these bounds.
abbrev pub Holding :
    {R L K A C : Type 0}
    → (ℕ → Type 0)
    → (ℕ → Type 0)
    → TcpDriver R L K A C
    → TcpDriver R L K A C
    → Type 0
Holding I J d d' = Held I J d → Held I J d'

module _ {S W R L K A C X Y : Type 0} (part : Part S W) (accepts : Boxed A X) (connects : Boxed C Y)
    (Own : WakerCommand K A C → Type 0)
    (owned : (id : ResourceId) (c : WakerCommand K X Y)
      → Registers id c
      → Own (erase accepts.wrap connects.wrap c)) where
  -- What is left of the shared state and of the driver.
  abbrev WorkedFor :
      List ResourceId
      → ℕ
      → (ℕ → Type 0)
      → (ℕ → Type 0)
      → Shared S K A C
      → TcpDriver R L K X Y
      → Shared S K A C
      → TcpDriver R L K X Y
      → Type 0
  WorkedFor asked a I J s d = Worked {S = S} (Holding I J) Own asked a s d

  abbrev fresh : Shared S K A C → TcpDriver R L K X Y → TcpDriver R L K X Y
  fresh s d = record d { remote_id_generator = s.handler.remote_id_generator; posted = [] }

  called-Worked :
      (asked : List ResourceId) (a : ℕ) (I J : ℕ → Type 0) (s : Shared S K A C)
      (d d2 : TcpDriver R L K X Y) (w : W) (h' : NodeHandler K A C)
      → Handled asked a I J (fresh s d) d2
      → post_all
          (record s.handler { remote_id_generator = d2.remote_id_generator })
          (map (boxed accepts.wrap connects.wrap) d2.posted)
        ≡ some h'
      → WorkedFor asked a I J s d
          (record {
            system = part.put s.system w;
            handler = h';
            issued = s.issued ++ accepted_ids d2.posted;
          })
          (record d2 { posted = [] })
  called-Worked asked a I J s d d2 w h' h delivered = record {
    kept = λ held.
        let left = h.held (record { remotes = held.remotes; locals = held.locals }) in
        record { remotes = left.remotes; locals = left.locals };
    adapters = h.adapters;
    posts = map (boxed accepts.wrap connects.wrap) h.posts;
    of_adapter = h.of_adapter;
    delivered =
        ap
          (λ g.
            post_all (record s.handler { remote_id_generator = g })
              (map (boxed accepts.wrap connects.wrap) h.posts))
          (sym h.count)
        ∙ ap
            (λ ps.
              post_all (record s.handler { remote_id_generator = d2.remote_id_generator })
                (map (boxed accepts.wrap connects.wrap) ps))
            (sym h.posted)
        ∙ delivered;
    issued = ap (λ ps. s.issued ++ accepted_ids ps) h.posted ∙ ap (λ ids. s.issued ++ ids) h.issued;
    ids = accepted_ids-boxed accepts.wrap connects.wrap h.posts h.registers ∙ h.issued;
    registers =
        boxed-All accepts.wrap connects.wrap (λ (id, c). Registers id c) (λ (id, c). Registers id c)
          h.posts (λ (id, c) r. erase-Registers accepts.wrap connects.wrap id c r) h.registers;
    connects =
        let same = connect_ids-boxed accepts.wrap connects.wrap h.posts h.registers in
        elim h.connects [ inl e ↦ inl (same ∙ e) | inr e ↦ inr (same ∙ e) ];
    own =
        boxed-All accepts.wrap connects.wrap (λ (id, c). Registers id c) (λ (id, c). Own c) h.posts
          (λ (id, c) r. owned id c r) h.registers;
    fits = λ within.
        boxed-All accepts.wrap connects.wrap (λ (id, c). adapter_id id ≡ a)
          (λ (id, c). adapter_id id ≡ a) h.posts (λ (id, c) e. e) (h.fits within);
  }

  shared_call-Worked :
      {O : Type 0} (asked : List ResourceId) (a : ℕ) (I J : ℕ → Type 0) (s : Shared S K A C)
      (d : TcpDriver R L K X Y)
      (f : W → TcpDriver R L K X Y → Option (W × TcpDriver R L K X Y × List O))
      → Gives (f (part.view s.system) (fresh s d)) (Handled asked a I J (fresh s d))
      → Returns (shared_call part accepts connects f s d) (WorkedFor asked a I J s d)
  unfolding shared_call
  shared_call-Worked asked a I J s d f given =
      elim (Option-cases (f (part.view s.system) (fresh s d))) [
        | inl e ↦ rw (e, shared_call) (panic-Returns _)
        | inr ((w, d2, os), e) ↦
            let h = given w d2 os e in
            rw (e, shared_call)
              (elim (Option-cases (
                post_all (record s.handler { remote_id_generator = d2.remote_id_generator })
                  (map (boxed accepts.wrap connects.wrap) d2.posted))) [
                    | inl failed ↦ rw (failed, shared_call) (panic-Returns _)
                    | inr (h', done) ↦
                        rw (done, shared_call)
                          (returned-Returns _ _ _ os (called-Worked asked a I J s d d2 w h' h done))
                  ])
      ]

  -- A driver that keeps its contract works for the requests of its node.
  pub share-Worked :
      (p : EventProcessor W (TcpDriver R L K X Y) K X Y)
      → IsHandling p
      → (I J : ℕ → Type 0) (q : Request K A C) (s : Shared S K A C) (d : TcpDriver R L K X Y)
      → Allowed I J q
      → Handles (share part accepts connects p) q s d (WorkedFor (asked_of q) (slot_of q) I J s d)
  unfolding share
  share-Worked p h I J (read id) s d _ =
      shared_call-Worked [] (adapter_id id) I J s d _ (h.reads I J _ _ id)
  share-Worked p h I J (write id) s d _ =
      shared_call-Worked [] (adapter_id id) I J s d _ (h.writes I J _ _ id)
  share-Worked p h I J (accept_register l r stream payload) s d inside =
      elim (Option-cases (accepts.downcast payload)) [
        | inl e ↦ rw e (panic-Returns _)
        | inr (x, e) ↦ rw e (
            shared_call-Worked [] (adapter_id r.0) I J s d _
              (h.accepts I J _ _ l r stream x inside))
      ]
  share-Worked p h I J (connect_register l r stream payload cb) s d inside =
      elim (Option-cases (connects.downcast payload)) [
        | inl e ↦ rw e (panic-Returns _)
        | inr (y, e) ↦ rw e (
            shared_call-Worked [] (adapter_id r.0) I J s d _
              (h.connect_registers I J _ _ l r stream y cb inside))
      ]
  share-Worked p h I J (listen_at config id addr cb) s d inside =
      shared_call-Worked [] (adapter_id id) I J s d _ (h.listens I J _ _ config id addr cb inside)
  share-Worked p h I J (connect_to config id raddr cb) s d _ =
      shared_call-Worked (id ∷ []) (adapter_id id) I J s d _ (h.connects I J _ _ config id raddr cb)
  share-Worked p h I J (send_to endpoint bytes) s d _ =
      shared_call-Worked [] (adapter_id endpoint.resource_id) I J s d _
        (h.sends I J _ _ endpoint bytes)
  share-Worked p h I J (close_it id) s d _ =
      shared_call-Worked [] (adapter_id id) I J s d _ (h.closes I J _ _ id)
  share-Worked p h I J (ask_ready id cb) s d _ =
      shared_call-Worked [] (adapter_id id) I J s d _ (h.is_readies I J _ _ id cb)
