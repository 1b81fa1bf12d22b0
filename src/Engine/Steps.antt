-- ===== src/Engine/Steps.antt =====
-- Every action of a node (src/node.rs, src/network.rs) keeps its resources at home and its ids counted.
use message_io.Prelude.{
  ℕ, ◌≡◌, refl, sym, ap, ◌∙◌, inl, inr, Option, none, some, List, [], ◌∷◌, length, get_elem?, set,
  All, Option-cases,
}
use mathlib.Core.Path.{subst}
use message_io.Network.ResourceId.{ResourceId, resource_type, generate}
use message_io.Network.Transport.{Transport}
use message_io.Network.Messages.{
  RemoteAddr, ConnectConfig, WakerCommand, listen, connect, send, send_sync, close, is_ready,
}
use message_io.Network.Worker.{EventProcessor, Output}
use message_io.Node.{
  NodeHandler, post, post_to_master, connect_with, listen_with, send_to_endpoint, ask_send_sync,
  ask_is_ready, close_resource, stop_node,
}
use message_io.Node.Routing.{worker_of}
use message_io.Engine.{Shared}
use message_io.Engine.Threads.{
  Engine, Thread, master, worker, Action, call_connect, call_listen, call_send, call_send_sync,
  call_is_ready, call_close, call_post, call_post_to_master, call_stop, take_command, readable,
  writable, queue_of, with_handler, user_connect, set_processors, posting, working, take_one, step,
}
use message_io.Engine.Requests.{
  Request, read, write, slot_of, asked_of, Allowed, Returns, Handles-weaken,
}
use message_io.Engine.Slots.{IsNodeProcessor}
use message_io.Engine.Commands.{
  request_of, Serves, ServesCommand, command-Returns, readable-Returns, writable-Returns,
}
use message_io.Engine.Routed.{
  ForMaster, ForWorker, Routed, taken-Routed, post-Routed, post_all-Routed, post_to_master-Routed,
}
use message_io.Engine.AtHome.{
  HomeOf, ListensOf, AllHeld, Holds, AtHome, set-AllHeld, thread-AtHome, shared-Holds,
}
use message_io.Engine.Counted.{Suits, Counted, Worked-Counted}
use message_io.Network.TcpDriver.Stages.Polls.{ResourceType-cases}
use message_io.Engine.Leads.{
  Leads, returned-Leads, panic-Leads, posting-Leads, working-Leads, AllowedAt, ForThread-Allowed,
  slot_of-le,
}
use message_io.Engine.Posts.{PostsNoResource, MakesNoResource-IsHarmless}
use message_io.Engine.Calls.{same-Counted, post-Counted, connect-Counted, taken-Counted}

module _ {S P K A C : Type 0} (drivers : EventProcessor (Shared S K A C) P K A C)
    (HeldIn : ℕ → (ℕ → Type 0) → (ℕ → Type 0) → P → Type 0) (Fits : ℕ → WakerCommand K A C → Type 0)
    (n : ℕ) where
  -- The resources of a node are at home, and its ids counted.
  pub record IsSound (e : Engine S P K A C) : Type 0 where
    pub at_home : AtHome HeldIn n e
    pub counting : Counted Fits e.shared

  abbrev After : Engine S P K A C → Thread → Shared S K A C → List P → Type 0
  After e t s ps = IsSound (set_processors (record e { shared = s }) t ps)

  thread-IsSound :
      (e : Engine S P K A C) (t : Thread) (s : Shared S K A C) (ps : List P)
      → Routed n s.handler
      → Counted Fits s
      → AllHeld HeldIn n t ps
      → Holds HeldIn n e
      → After e t s ps
  unfolding set_processors
  thread-IsSound e master s ps routed c mine all = record {
    at_home = thread-AtHome HeldIn n e master s ps routed mine all;
    counting = c;
  }
  thread-IsSound e (worker i) s ps routed c mine all = record {
    at_home = thread-AtHome HeldIn n e (worker i) s ps routed mine all;
    counting = c;
  }

  module _ (contract : IsNodeProcessor drivers HeldIn Fits) where
    request-IsSound :
        (e : Engine S P K A C) (t : Thread) (s : Shared S K A C) (ps : List P) (q : Request K A C)
        → Allowed (HomeOf n t (slot_of q)) (ListensOf t (slot_of q)) q
        → Routed n s.handler
        → Counted Fits s
        → AllHeld HeldIn n t ps
        → Holds HeldIn n e
        → Serves drivers s ps (After e t) q
    request-IsSound e t s ps q allowed routed c mine all p there =
        let a = slot_of q in
        Handles-weaken drivers _ _
          (λ s' p' w.
            thread-IsSound e t s' (set ps a p')
              (post_all-Routed n _ w.posts s'.handler w.delivered w.registers (record {
                as_many = routed.as_many;
                master_queue = routed.master_queue;
                worker_queues = routed.worker_queues;
              }))
              (Worked-Counted Fits _ (asked_of q) a s s' p p' (slot_of-le q) c w)
              (set-AllHeld HeldIn n t ps a p' w.kept mine) all)
          q s p (contract (HomeOf n t a) (ListensOf t a) q s p allowed (mine a p there))

    command-IsSound :
        (e : Engine S P K A C) (t : Thread) (s : Shared S K A C) (ps : List P)
        (r : Option (Request K A C))
        → AllowedAt n t r
        → Routed n s.handler
        → Counted Fits s
        → AllHeld HeldIn n t ps
        → Holds HeldIn n e
        → ServesCommand drivers s ps (After e t) r
    unfolding AllowedAt
    command-IsSound e t s ps none _ routed c mine all = thread-IsSound e t s ps routed c mine all
    command-IsSound e t s ps (some q) allowed routed c mine all =
        request-IsSound e t s ps q allowed routed c mine all

    take-IsSound :
        (e : Engine S P K A C) (t : Thread) (queue : List (WakerCommand K A C))
        → queue_of e.shared.handler t ≡ some queue
        → IsSound e
        → Leads (take_one drivers e t queue) IsSound
    unfolding take_one
    take-IsSound e t [] there sound = returned-Leads IsSound e [] sound
    take-IsSound e t (c ∷ queue) there sound =
        let (placed, routed) =
          taken-Routed n e.shared.handler t c queue there sound.at_home.routed in
        working-Leads IsSound e t _ _ (λ ps mine. command-Returns (After e t) drivers _ ps c (
          command-IsSound e t _ ps (request_of c) (ForThread-Allowed n t c placed) routed
            (taken-Counted Fits e.shared t c queue there sound.counting)
            (sound.at_home.holds t ps mine) sound.at_home.holds))

    post-IsSound :
        (e : Engine S P K A C) (i : ResourceId) (c : WakerCommand K A C)
        → ForWorker n (worker_of n i) c
        → Suits Fits c
        → IsSound e
        → Leads (posting e (post e.shared.handler i c)) IsSound
    post-IsSound e i c placed fit sound =
        posting-Leads IsSound e (post e.shared.handler i c) (λ h posted. record {
          at_home = record {
            routed = post-Routed n e.shared.handler i c h posted placed sound.at_home.routed;
            holds = shared-Holds HeldIn n e _ sound.at_home.holds;
          };
          counting = post-Counted Fits e.shared i c h posted fit sound.counting;
        })

    -- The user says something to the master.
    master-IsSound :
        (e : Engine S P K A C) (h : NodeHandler K A C) (c : WakerCommand K A C)
        → h.workers ≡ e.shared.handler.workers
        → h.remote_id_generator ≡ e.shared.handler.remote_id_generator
        → h.master ≡ e.shared.handler.master
        → ForMaster c
        → IsSound e
        → Leads (posting e (some (post_to_master h c))) IsSound
    unfolding post_to_master posting
    master-IsSound e h c workers gen queue placed sound =
        returned-Leads IsSound (record e { shared = with_handler e.shared (post_to_master h c) }) []
          (record {
            at_home = record {
              routed = post_to_master-Routed n h c placed (record {
                as_many = ap (λ ws. length ws) workers ∙ sound.at_home.routed.as_many;
                master_queue =
                    subst (λ q. All ForMaster q) (sym queue) sound.at_home.routed.master_queue;
                worker_queues = λ i q there.
                    sound.at_home.routed.worker_queues i q
                      (ap (λ ws. get_elem? ws i) (sym workers) ∙ there);
              });
              holds = shared-Holds HeldIn n e _ sound.at_home.holds;
            };
            counting = same-Counted Fits e.shared (post_to_master h c) workers gen sound.counting;
          })

    close-IsSound :
        (e : Engine S P K A C) (i : ResourceId)
        → IsSound e
        → Leads (posting e (close_resource e.shared.handler i)) IsSound
    unfolding close_resource
    close-IsSound e i sound = elim (ResourceType-cases (resource_type i)) [
      | inl is_remote ↦ rw (is_remote, close_resource) (post-IsSound e i (close i) tt tt sound)
      | inr is_local ↦
          rw (is_local, close_resource)
            (master-IsSound e e.shared.handler (close i) refl refl refl tt sound)
    ]

    connect-IsSound :
        (e : Engine S P K A C) (config : ConnectConfig K) (t : Transport) (addr : RemoteAddr)
        (cb : ℕ)
        → IsSound e
        → IsSound (record e { shared = user_connect e.shared config t addr cb })
    unfolding user_connect connect_with generate
    connect-IsSound e config t addr cb sound = record {
      at_home = record {
        routed = post_to_master-Routed n _ (connect config _ addr cb) tt (record {
          as_many = sound.at_home.routed.as_many;
          master_queue = sound.at_home.routed.master_queue;
          worker_queues = sound.at_home.routed.worker_queues;
        });
        holds = shared-Holds HeldIn n e _ sound.at_home.holds;
      };
      counting = connect-Counted Fits e.shared config t addr cb sound.counting;
    }

    event-IsSound :
        (e : Engine S P K A C) (t : Thread) (q : Request K A C)
        (f : Shared S K A C → List P → Option (Shared S K A C × List P × List (Output K A C)))
        → Allowed (HomeOf n t (slot_of q)) (ListensOf t (slot_of q)) q
        → ((ps : List P)
            → Serves drivers e.shared ps (After e t) q
            → Returns (f e.shared ps) (After e t))
        → IsSound e
        → Leads (working e t e.shared f) IsSound
    event-IsSound e t q f allowed serves sound = working-Leads IsSound e t e.shared f (λ ps mine.
        serves ps (
          request-IsSound e t e.shared ps q allowed sound.at_home.routed sound.counting
            (sound.at_home.holds t ps mine) sound.at_home.holds))

    pub step-IsSound :
        (e : Engine S P K A C) (action : Action K A C)
        → PostsNoResource action
        → IsSound e
        → Leads (step drivers e action) IsSound
    unfolding step listen_with send_to_endpoint ask_send_sync ask_is_ready stop_node generate
        posting
    step-IsSound e (call_connect config t addr cb) _ sound =
        returned-Leads IsSound _ [] (connect-IsSound e config t addr cb sound)
    step-IsSound e (call_listen config t addr cb) _ sound =
        master-IsSound e _ (listen config _ addr cb) refl refl refl tt sound
    step-IsSound e (call_send endpoint bytes) _ sound =
        post-IsSound e endpoint.resource_id (send endpoint bytes) tt tt sound
    step-IsSound e (call_send_sync endpoint bytes cb) _ sound =
        post-IsSound e endpoint.resource_id (send_sync endpoint bytes cb) tt tt sound
    step-IsSound e (call_is_ready i cb) _ sound = post-IsSound e i (is_ready i cb) tt tt sound
    step-IsSound e (call_close i) _ sound = close-IsSound e i sound
    step-IsSound e (call_post i c) orderly sound =
        let fine = MakesNoResource-IsHarmless Fits c orderly in
        post-IsSound e i c (fine.for_worker n (worker_of n i)) fine.suits sound
    step-IsSound e (call_post_to_master c) orderly sound =
        master-IsSound e e.shared.handler c refl refl refl
          (MakesNoResource-IsHarmless Fits c orderly).for_master sound
    step-IsSound e call_stop _ sound = returned-Leads IsSound _ [] (record {
      at_home = record {
        routed = record {
          as_many = sound.at_home.routed.as_many;
          master_queue = sound.at_home.routed.master_queue;
          worker_queues = sound.at_home.routed.worker_queues;
        };
        holds = shared-Holds HeldIn n e _ sound.at_home.holds;
      };
      counting = same-Counted Fits e.shared (stop_node e.shared.handler) refl refl sound.counting;
    })
    step-IsSound e (take_command t) _ sound = elim (Option-cases (queue_of e.shared.handler t)) [
      | inl gone ↦ rw (gone, step) (panic-Leads IsSound)
      | inr (queue, there) ↦ rw (there, step) (take-IsSound e t queue there sound)
    ]
    step-IsSound e (readable master i) _ sound =
        event-IsSound e master (read i) _ tt
          (λ ps. readable-Returns (After e master) drivers e.shared ps i) sound
    step-IsSound e (readable (worker j) i) _ sound =
        event-IsSound e (worker j) (read i) _ tt
          (λ ps. readable-Returns (After e (worker j)) drivers e.shared ps i) sound
    step-IsSound e (writable master i) _ sound =
        event-IsSound e master (write i) _ tt
          (λ ps. writable-Returns (After e master) drivers e.shared ps i) sound
    step-IsSound e (writable (worker j) i) _ sound =
        event-IsSound e (worker j) (write i) _ tt
          (λ ps. writable-Returns (After e (worker j)) drivers e.shared ps i) sound
