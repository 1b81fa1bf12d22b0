-- ===== src/Engine/Whole.antt =====
-- The node of src/node.rs with the drivers of src/network/transport.rs, after any actions of its
-- threads and of a user who posts by `post` and `post_to_master` himself no command that makes a
-- resource.
use message_io.Prelude.{
  ℕ, ◌≤◌, ◌≡◌, refl, sym, ap, ◌∙◌, arith, Option, some, List, [], ◌∷◌, ◌++◌, length, get_elem?, All,
  All-weaken, get_elem?-set_self,
}
use message_io.Network.ResourceId.{ResourceIdGenerator, adapter_id, max_base_value}
use message_io.Network.ResourceId.Generator.{AllDistinct}
use message_io.Network.Transport.{Transport, tcp, ssl, ws, id}
use message_io.Network.Messages.{
  Endpoint, WakerCommand, greet, accept_register_remote, connect_register_remote, listen, connect,
  send, send_sync, close, is_ready, stop,
}
use message_io.Network.Worker.{EventProcessor, Output}
use message_io.Network.Loader.{Slot, driver, create_processors}
use message_io.Network.TcpDriver.{TcpDriver}
use message_io.Node.{NodeHandler, send_to_endpoint}
use message_io.Node.Routing.{worker_of}
use message_io.Engine.{Part}
use message_io.Engine.Threads.{
  Engine, Thread, master, worker, Action, processors_of, queue_of, run, new_engine,
}
use message_io.Engine.Drivers.{AnyOf, transport_of, new_any}
use message_io.Engine.Posts.{PostsNoResource}
use message_io.Engine.Mounted.{node_processor}
use message_io.Engine.Contract.{IsHandling}
use message_io.Engine.Slots.{Fits, HeldSlot, HeldSlot-monotone, node_processor-IsNodeProcessor}
use message_io.Engine.Queues.{in_range, post-Goes}
use message_io.Engine.AtHome.{HomeOf, ListensOf}
use message_io.Engine.Counted.{Suits, Counted-AllDistinct}
use message_io.Engine.Steps.{IsSound}
use message_io.Engine.Runs.{reaches-IsSound, reaches-IsPaid}
use message_io.Engine.Once.{IsPaid}
use message_io.Engine.Waiting.{waiting, occurs-AllDistinct}
use message_io.Engine.Homes.{HasRemote, HasListener, HeldAny-remote, HeldAny-listener, slot_new}

-- The payload of a registration is of the transport of the driver that will get it.
abbrev pub Meets :
    {D K X1 X2 X3 Y1 Y2 Y3 : Type 0}
    → (D → Transport)
    → List (Slot D)
    → WakerCommand K (AnyOf X1 X2 X3) (AnyOf Y1 Y2 Y3)
    → Type 0
Meets {D} kind qs (accept_register_remote _ (i, _) _ payload) =
    (d : D) → get_elem? qs (adapter_id i) ≡ some (driver d) → transport_of payload ≡ kind d
Meets {D} kind qs (connect_register_remote _ (i, _) _ payload _) =
    (d : D) → get_elem? qs (adapter_id i) ≡ some (driver d) → transport_of payload ≡ kind d
Meets {D} kind qs _ = Unit

id-inj : (t u : Transport) → id t ≡ id u → t ≡ u
unfolding id
id-inj tcp tcp e = refl
id-inj tcp ssl e = absurd (omega (arith, e))
id-inj tcp ws e = absurd (omega (arith, e))
id-inj ssl tcp e = absurd (omega (arith, e))
id-inj ssl ssl e = refl
id-inj ssl ws e = absurd (omega (arith, e))
id-inj ws tcp e = absurd (omega (arith, e))
id-inj ws ssl e = absurd (omega (arith, e))
id-inj ws ws e = refl

home_thread :
    (n : ℕ) (t : Thread) (a k : ℕ)
    → HomeOf n t a k
    → (t ≡ worker (worker_of n (record { id = k }))) × (adapter_id (record { id = k }) ≡ a)
home_thread n master a k h = elim h [ ]
home_thread n (worker i) a k (mine, fit) = (ap worker (sym mine), fit)

listening_thread :
    (t : Thread) (a k : ℕ) → ListensOf t a k → (t ≡ master) × (adapter_id (record { id = k }) ≡ a)
listening_thread (worker _) a k fit = elim fit [ ]
listening_thread master a k fit = (refl, fit)

module _ {S W1 W2 W3 R1 L1 X1 Y1 R2 L2 X2 Y2 R3 L3 X3 Y3 K : Type 0} (part1 : Part S W1)
    (part2 : Part S W2) (part3 : Part S W3)
    (p1 : EventProcessor W1 (TcpDriver R1 L1 K X1 Y1) K X1 Y1)
    (p2 : EventProcessor W2 (TcpDriver R2 L2 K X2 Y2) K X2 Y2)
    (p3 : EventProcessor W3 (TcpDriver R3 L3 K X3 Y3) K X3 Y3) (rgen : ResourceIdGenerator) where
  -- A node with n workers that has just been made.
  abbrev pub new_node :
      S
      → ℕ
      → Engine S
          (Slot
            (AnyOf (TcpDriver R1 L1 K X1 Y1) (TcpDriver R2 L2 K X2 Y2) (TcpDriver R3 L3 K X3 Y3)))
          K
          (AnyOf X1 X2 X3)
          (AnyOf Y1 Y2 Y3)
  new_node system n = new_engine system n (create_processors (new_any rgen))

  abbrev pub run_node :
      S
      → ℕ
      → List (Action K (AnyOf X1 X2 X3) (AnyOf Y1 Y2 Y3))
      → Option (
          Engine S
            (Slot
              (AnyOf (TcpDriver R1 L1 K X1 Y1) (TcpDriver R2 L2 K X2 Y2) (TcpDriver R3 L3 K X3 Y3)))
            K
            (AnyOf X1 X2 X3)
            (AnyOf Y1 Y2 Y3)
          × List (Output K (AnyOf X1 X2 X3) (AnyOf Y1 Y2 Y3)))
  run_node system n actions =
      run (node_processor part1 part2 part3 p1 p2 p3) (new_node system n) actions

  module _ (h1 : IsHandling p1) (h2 : IsHandling p2) (h3 : IsHandling p3) (system : S) (n : ℕ)
      (actions : List (Action K (AnyOf X1 X2 X3) (AnyOf Y1 Y2 Y3)))
      (e : Engine S
        (Slot (AnyOf (TcpDriver R1 L1 K X1 Y1) (TcpDriver R2 L2 K X2 Y2) (TcpDriver R3 L3 K X3 Y3)))
        K
        (AnyOf X1 X2 X3)
        (AnyOf Y1 Y2 Y3))
      (os : List (Output K (AnyOf X1 X2 X3) (AnyOf Y1 Y2 Y3)))
      (orderly : All PostsNoResource actions)
      (reached : run_node system n actions ≡ some (e, os)) where
    sound : IsSound (node_processor part1 part2 part3 p1 p2 p3) HeldSlot Fits n e
    sound =
        reaches-IsSound (node_processor part1 part2 part3 p1 p2 p3) HeldSlot Fits n
          (node_processor-IsNodeProcessor part1 part2 part3 p1 p2 p3 h1 h2 h3) system
          (create_processors (new_any rgen)) actions orderly
          (λ a p there I J. slot_new rgen a p I J there) e os reached

    -- In a node that has come about by any calls of its user and any actions of its threads,
    -- whatever the system did, whose drivers keep their contract and whose user posts by `post` or
    -- `post_to_master` himself no command that registers, connects or listens: each slot has the
    -- driver of its transport. A remote is only in a worker, the one that its number chooses, and a
    -- listener only in the master; each is in the slot of its adapter id.
    pub run_node-home :
        (t : Thread)
        (qs : List (
          Slot
            (AnyOf (TcpDriver R1 L1 K X1 Y1) (TcpDriver R2 L2 K X2 Y2) (TcpDriver R3 L3 K X3 Y3))))
        (a : ℕ)
        (d : AnyOf (TcpDriver R1 L1 K X1 Y1) (TcpDriver R2 L2 K X2 Y2) (TcpDriver R3 L3 K X3 Y3))
        (k : ℕ)
        → processors_of e t ≡ some qs
        → get_elem? qs a ≡ some (driver d)
        → (id (transport_of d) ≡ a)
          × (HasRemote d k
              → (t ≡ worker (worker_of n (record { id = k })))
                × (adapter_id (record { id = k }) ≡ a))
          × (HasListener d k → (t ≡ master) × (adapter_id (record { id = k }) ≡ a))
    run_node-home t qs a d k mine there =
        let (mounted, held) = sound.at_home.holds t qs mine a (driver d) there in
        (
          mounted,
          λ has. home_thread n t a k (HeldAny-remote _ _ d k held has),
          λ has. listening_thread t a k (HeldAny-listener _ _ d k held has),
        )

    -- In a node that has come about by any calls of its user and any actions of its threads,
    -- whatever the system did, whose drivers keep their contract and whose user posts by `post` or
    -- `post_to_master` himself no command that registers, connects or listens, as long as no more
    -- ids were issued than there are base values: all ids that the user's connects and the drivers
    -- of all threads took for remotes differ from one another.
    pub run_node-AllDistinct : length e.shared.issued ≤ max_base_value → AllDistinct e.shared.issued
    run_node-AllDistinct within = Counted-AllDistinct Fits e.shared sound.counting within

    meets :
        (i : ℕ)
        (qs : List (
          Slot
            (AnyOf (TcpDriver R1 L1 K X1 Y1) (TcpDriver R2 L2 K X2 Y2) (TcpDriver R3 L3 K X3 Y3))))
        (c : WakerCommand K (AnyOf X1 X2 X3) (AnyOf Y1 Y2 Y3))
        → processors_of e (worker i) ≡ some qs
        → Suits Fits c
        → Meets transport_of qs c
    meets i qs (accept_register_remote _ (r, _) _ payload) mine fit = λ d there.
        id-inj _ _ (fit ∙ sym (sound.at_home.holds (worker i) qs mine _ (driver d) there).0)
    meets i qs (connect_register_remote _ (r, _) _ payload _) mine fit = λ d there.
        id-inj _ _ (fit ∙ sym (sound.at_home.holds (worker i) qs mine _ (driver d) there).0)
    meets i qs (greet _) mine fit = tt
    meets i qs (listen _ _ _ _) mine fit = tt
    meets i qs (connect _ _ _ _) mine fit = tt
    meets i qs (send _ _) mine fit = tt
    meets i qs (send_sync _ _ _) mine fit = tt
    meets i qs (close _) mine fit = tt
    meets i qs (is_ready _ _) mine fit = tt
    meets i qs stop mine fit = tt

    -- In a node that has come about by any calls of its user and any actions of its threads,
    -- whatever the system did, whose drivers keep their contract and whose user posts by `post` or
    -- `post_to_master` himself no command that registers, connects or listens, as long as no more
    -- ids were issued than there are base values: every registration in the queue of a worker has a
    -- payload of the transport of the driver that the worker has for it, so that the driver reads it
    -- as what it is.
    pub run_node-Meets :
        (i : ℕ)
        (qs : List (
          Slot
            (AnyOf (TcpDriver R1 L1 K X1 Y1) (TcpDriver R2 L2 K X2 Y2) (TcpDriver R3 L3 K X3 Y3))))
        (queue : List (WakerCommand K (AnyOf X1 X2 X3) (AnyOf Y1 Y2 Y3)))
        → processors_of e (worker i) ≡ some qs
        → queue_of e.shared.handler (worker i) ≡ some queue
        → length e.shared.issued ≤ max_base_value
        → All (λ c. Meets transport_of qs c) queue
    unfolding queue_of
    run_node-Meets i qs queue mine there within =
        All-weaken queue (λ c fit. meets i qs c mine fit)
          (sound.counting.suited within i queue there)

    -- In a node that has come about by any calls of its user and any actions of its threads,
    -- whatever the system did, whose drivers keep their contract and whose user posts by `post` or
    -- `post_to_master` himself no command that registers, connects or listens: if a driver of a
    -- thread has a remote, then its slot is the one that the adapter id of the remote chooses; and a
    -- send to the remote that returns puts the command at the end of the queue of that thread.
    pub run_node-send :
        (t : Thread)
        (qs : List (
          Slot
            (AnyOf (TcpDriver R1 L1 K X1 Y1) (TcpDriver R2 L2 K X2 Y2) (TcpDriver R3 L3 K X3 Y3))))
        (a : ℕ)
        (d : AnyOf (TcpDriver R1 L1 K X1 Y1) (TcpDriver R2 L2 K X2 Y2) (TcpDriver R3 L3 K X3 Y3))
        (endpoint : Endpoint) (bytes : List ℕ) (h : NodeHandler K (AnyOf X1 X2 X3) (AnyOf Y1 Y2 Y3))
        → processors_of e t ≡ some qs
        → get_elem? qs a ≡ some (driver d)
        → HasRemote d endpoint.resource_id.id
        → send_to_endpoint e.shared.handler endpoint bytes ≡ some h
        → (a ≡ adapter_id endpoint.resource_id)
          × (queue : List (WakerCommand K (AnyOf X1 X2 X3) (AnyOf Y1 Y2 Y3))) × (queue_of
                e.shared.handler t
              ≡ some queue)
          × (queue_of h t ≡ some (queue ++ send endpoint bytes ∷ []))
    unfolding queue_of send_to_endpoint
    run_node-send t qs a d endpoint bytes h mine there has sent =
        let i = endpoint.resource_id in
        let (_, home, _) = run_node-home t qs a d i.id mine there in
        let (at_home, fit) = home has in
        let goes = post-Goes e.shared.handler i (send endpoint bytes) h sent in
        let w : worker_of (length e.shared.handler.workers) i ≡ worker_of n i =
          ap (λ m. worker_of m i) sound.at_home.routed.as_many in
        (
          sym fit,
          goes.queue,
          ap (λ u. queue_of e.shared.handler u) (at_home ∙ ap worker (sym w)) ∙ goes.there,
          ap (λ u. queue_of h u) (at_home ∙ ap worker (sym w))
              ∙ ap (λ g. get_elem? g.workers (worker_of (length e.shared.handler.workers) i))
                  goes.result
              ∙ get_elem?-set_self e.shared.handler.workers _ _
                  (in_range e.shared.handler.workers _ goes.queue goes.there),
        )

    paid : IsPaid HeldSlot e
    paid =
        reaches-IsPaid (node_processor part1 part2 part3 p1 p2 p3) HeldSlot Fits n HeldSlot-monotone
          (node_processor-IsNodeProcessor part1 part2 part3 p1 p2 p3 h1 h2 h3) system
          (create_processors (new_any rgen)) actions orderly
          (λ a p there I J. slot_new rgen a p I J there) e os reached

    -- In a node that has come about by any calls of its user and any actions of its threads,
    -- whatever the system did, whose drivers keep their contract and whose user posts by `post` or
    -- `post_to_master` himself no command that registers, connects or listens, as long as no more
    -- ids were issued than there are base values: a number of a remote waits in at most one command,
    -- a connect or a registration, of all queues; and in none when a driver of any thread has it. So
    -- no registration replaces a remote.
    pub run_node-once :
        (k : ℕ)
        → length e.shared.issued ≤ max_base_value
        → (waiting k e.shared.handler ≤ 1)
          × ((t : Thread)
                (qs : List (
                  Slot (
                    AnyOf
                      (TcpDriver R1 L1 K X1 Y1)
                      (TcpDriver R2 L2 K X2 Y2)
                      (TcpDriver R3 L3 K X3 Y3))))
                (a : ℕ)
                (d : AnyOf
                  (TcpDriver R1 L1 K X1 Y1)
                  (TcpDriver R2 L2 K X2 Y2)
                  (TcpDriver R3 L3 K X3 Y3))
              → processors_of e t ≡ some qs
              → get_elem? qs a ≡ some (driver d)
              → HasRemote d k
              → waiting k e.shared.handler ≡ 0)
    run_node-once k within =
        let single = occurs-AllDistinct k e.shared.issued (run_node-AllDistinct within) in
        (
          omega (arith, paid.paid k, single),
          λ t qs a d mine there has. omega (
            arith,
            HeldAny-remote _ _ d k (paid.spent t qs mine a (driver d) there).1 has,
            single,
          ),
        )
