-- ===== src/Engine.antt =====
-- What the threads of a node share, and the drivers of one thread as a list over it: the id generator
-- that the drivers clone (`rgen` of src/network.rs and src/network/transport.rs), the node handler
-- through which they post, and `UnsafeAny` of src/util/unsafe_any.rs, which erases their payloads.
pub mod Threads
pub mod Drivers
pub mod Mounted
pub mod Quiet
pub mod Handled
pub mod Contract
pub mod Adapters
pub mod Requests
pub mod Sharing
pub mod Lifting
pub mod Slots
pub mod Posts
pub mod Queues
pub mod Commands
pub mod Routed
pub mod AtHome
pub mod Counted
pub mod Leads
pub mod Calls
pub mod Steps
pub mod Waiting
pub mod Once
pub mod Runs
pub mod Homes
pub mod Whole
mod Sample
mod Tests
use message_io.Prelude.{ℕ, Option, none, some, List, [], ◌∷◌, ◌++◌, map}
use message_io.Network.ResourceId.{ResourceId}
use message_io.Network.Messages.{
  WakerCommand, greet, accept_register_remote, connect_register_remote, listen, connect, send,
  send_sync, close, is_ready, stop,
}
use message_io.Network.Worker.{EventProcessor, bind}
use message_io.Network.TcpDriver.{TcpDriver}
use message_io.Node.{NodeHandler, post}

-- `issued` has the ids that the shared generator gave, in their order. No operation reads it.
pub record Shared (S K A C : Type 0) : Type 0 where
  pub system : S
  pub handler : NodeHandler K A C
  pub issued : List ResourceId

-- The part of the system that a driver works on.
pub record Part (S W : Type 0) : Type 0 where
  pub view : S → W
  pub put : S → W → S

-- A boxed payload. Reading it as what it is not is undefined in the source, `none` here.
pub record Boxed (A X : Type 0) : Type 0 where
  pub wrap : X → A
  pub downcast : A → Option X

-- A command of a driver in the queues, where its payload is boxed.
unfoldable pub erase :
    {K A C X Y : Type 0} → (X → A) → (Y → C) → WakerCommand K X Y → WakerCommand K A C
erase a c (greet text) = greet text
erase a c (accept_register_remote local_pair remote_pair stream payload) =
    accept_register_remote local_pair remote_pair stream (a payload)
erase a c (connect_register_remote local_addr remote_pair stream payload cb) =
    connect_register_remote local_addr remote_pair stream (c payload) cb
erase a c (listen config id addr cb) = listen config id addr cb
erase a c (connect config id raddr cb) = connect config id raddr cb
erase a c (send endpoint bytes) = send endpoint bytes
erase a c (send_sync endpoint bytes cb) = send_sync endpoint bytes cb
erase a c (close id) = close id
erase a c (is_ready id cb) = is_ready id cb
erase a c stop = stop

module _ {K A C : Type 0} where
  -- The posts of a driver, one after the other.
  unfoldable pub post_all :
      NodeHandler K A C → List (ResourceId × WakerCommand K A C) → Option (NodeHandler K A C)
  post_all h [] = some h
  post_all h ((id, command) ∷ posts) = bind (post h id command) (λ h'. post_all h' posts)

  -- The ids that a driver has generated for the connections that it accepted.
  unfoldable pub accepted_ids : List (ResourceId × WakerCommand K A C) → List ResourceId
  accepted_ids [] = []
  accepted_ids ((id, accept_register_remote _ _ _ _) ∷ posts) = id ∷ accepted_ids posts
  accepted_ids (_ ∷ posts) = accepted_ids posts

module _ {S W R L K A C X Y : Type 0} (part : Part S W) (accepts : Boxed A X)
    (connects : Boxed C Y) where
  -- A call of a handler: it counts on the shared generator, and posts through the shared handler.
  unfoldable pub shared_call :
      {O : Type 0}
      → (W → TcpDriver R L K X Y → Option (W × TcpDriver R L K X Y × List O))
      → Shared S K A C
      → TcpDriver R L K X Y
      → Option (Shared S K A C × TcpDriver R L K X Y × List O)
  shared_call f s d =
      let h = s.handler in
      let d1 = record d { remote_id_generator = h.remote_id_generator; posted = [] } in
      bind (f (part.view s.system) d1) (λ (w, d2, os).
        bind
          (post_all (record h { remote_id_generator = d2.remote_id_generator })
            (map (λ (id, c). (id, erase accepts.wrap connects.wrap c)) d2.posted))
          (λ h'. some (
            record {
              system = part.put s.system w;
              handler = h';
              issued = s.issued ++ accepted_ids d2.posted;
            },
            record d2 { posted = [] },
            os,
          )))

  -- The driver of a thread.
  unfoldable pub share :
      EventProcessor W (TcpDriver R L K X Y) K X Y
      → EventProcessor (Shared S K A C) (TcpDriver R L K X Y) K A C
  share p = record {
    process_read = λ s d id. shared_call (λ w e. p.process_read w e id) s d;
    process_write = λ s d id. shared_call (λ w e. p.process_write w e id) s d;
    process_accept_register_remote = λ s d local_pair remote_pair stream payload.
        bind (accepts.downcast payload) (λ x.
          shared_call (λ w e. p.process_accept_register_remote w e local_pair remote_pair stream x)
            s d);
    process_connect_register_remote = λ s d local_addr remote_pair stream payload cb.
        bind (connects.downcast payload) (λ y.
          shared_call
            (λ w e. p.process_connect_register_remote w e local_addr remote_pair stream y cb) s d);
    process_listen =
        λ s d config id addr cb. shared_call (λ w e. p.process_listen w e config id addr cb) s d;
    process_connect =
        λ s d config id raddr cb. shared_call (λ w e. p.process_connect w e config id raddr cb) s d;
    process_send = λ s d endpoint bytes. shared_call (λ w e. p.process_send w e endpoint bytes) s d;
    process_close = λ s d id. shared_call (λ w e. p.process_close w e id) s d;
    process_is_ready = λ s d id cb. shared_call (λ w e. p.process_is_ready w e id cb) s d;
  }
