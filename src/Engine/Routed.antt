-- ===== src/Engine/Routed.antt =====
-- Which commands stand in the queues of a node (src/node.rs), and that posts and takes keep it so.
use message_io.Prelude.{
  ℕ, ◌≡◌, refl, sym, ◌∙◌, some, List, ◌∷◌, length, All, All-weaken, length-set,
}
use mathlib.Core.Path.{subst}
use message_io.Network.ResourceId.{ResourceId}
use message_io.Network.Messages.{
  WakerCommand, accept_register_remote, connect_register_remote, listen, connect,
}
use message_io.Node.{NodeHandler, post, post_to_master}
use message_io.Node.Routing.{worker_of}
use message_io.Engine.{post_all}
use message_io.Engine.Threads.{Thread, master, worker, queue_of, set_queue}
use message_io.Engine.Handled.{Registers}
use message_io.Engine.Queues.{
  QueuesHold, All-snoc, some-inj, taken-QueuesHold, post_one-QueuesHold, post_all-QueuesHold,
}

module _ {K A C : Type 0} where
  -- What may stand in the queue of the master.
  abbrev pub ForMaster : WakerCommand K A C → Type 0
  ForMaster (accept_register_remote _ _ _ _) = ⊥
  ForMaster (connect_register_remote _ _ _ _ _) = ⊥
  ForMaster _ = Unit

  -- What may stand in the queue of the i-th of n workers.
  abbrev pub ForWorker : ℕ → ℕ → WakerCommand K A C → Type 0
  ForWorker n i (accept_register_remote _ (id, _) _ _) = worker_of n id ≡ i
  ForWorker n i (connect_register_remote _ (id, _) _ _ _) = worker_of n id ≡ i
  ForWorker n i (listen _ _ _ _) = ⊥
  ForWorker n i (connect _ _ _ _) = ⊥
  ForWorker n i _ = Unit

  pub Registers-ForWorker :
      (n i : ℕ) (id : ResourceId) (c : WakerCommand K A C)
      → Registers id c
      → worker_of n id ≡ i
      → ForWorker n i c
  Registers-ForWorker n i id _ (Registers.by_accept _ _ _ _) e = e
  Registers-ForWorker n i id _ (Registers.by_connect _ _ _ _ _) e = e

module _ {K A C : Type 0} where
  abbrev pub ForThread : ℕ → Thread → WakerCommand K A C → Type 0
  ForThread n master c = ForMaster c
  ForThread n (worker i) c = ForWorker n i c

  -- The queues of n workers and of the master hold what is theirs.
  pub record Routed (n : ℕ) (h : NodeHandler K A C) : Type 0 where
    pub as_many : length h.workers ≡ n
    pub master_queue : All ForMaster h.master
    pub worker_queues : QueuesHold (ForWorker n) h

  -- Taking the first command of the queue of a thread.
  pub taken-Routed :
      (n : ℕ) (h : NodeHandler K A C) (t : Thread) (c : WakerCommand K A C)
      (queue : List (WakerCommand K A C))
      → queue_of h t ≡ some (c ∷ queue)
      → Routed n h
      → ForThread n t c × Routed n (set_queue h t queue)
  unfolding queue_of set_queue
  taken-Routed n h master c queue e r =
      let (one, rest) = subst (λ q. All ForMaster q) (some-inj _ _ e) r.master_queue in
      (one, record { as_many = r.as_many; master_queue = rest; worker_queues = r.worker_queues })
  taken-Routed n h (worker i) c queue e r =
      let (one, rest) = taken-QueuesHold (ForWorker n) h i c queue e r.worker_queues in
      (
        one,
        record {
          as_many = length-set h.workers i queue ∙ r.as_many;
          master_queue = r.master_queue;
          worker_queues = rest;
        },
      )

  pub post-Routed :
      (n : ℕ) (h : NodeHandler K A C) (id : ResourceId) (c : WakerCommand K A C)
      (h' : NodeHandler K A C)
      → post h id c ≡ some h'
      → ForWorker n (worker_of n id) c
      → Routed n h
      → Routed n h'
  post-Routed n h id c h' e one r =
      let (kept, all) =
        post_one-QueuesHold (ForWorker n) h id c h' e
          (subst (λ k. ForWorker n (worker_of k id) c) (sym r.as_many) one) r.worker_queues in
      record {
        as_many = kept.as_many ∙ r.as_many;
        master_queue = subst (λ q. All ForMaster q) (sym kept.master_kept) r.master_queue;
        worker_queues = all;
      }

  pub post_all-Routed :
      (n : ℕ) (h : NodeHandler K A C) (posts : List (ResourceId × WakerCommand K A C))
      (h' : NodeHandler K A C)
      → post_all h posts ≡ some h'
      → All (λ (id, c). Registers id c) posts
      → Routed n h
      → Routed n h'
  post_all-Routed n h posts h' e registers r =
      let (kept, all) =
        post_all-QueuesHold (ForWorker n) n h posts h' r.as_many e
          (All-weaken posts (λ (id, c) g. Registers-ForWorker n (worker_of n id) id c g refl)
            registers)
          r.worker_queues in
      record {
        as_many = kept.as_many ∙ r.as_many;
        master_queue = subst (λ q. All ForMaster q) (sym kept.master_kept) r.master_queue;
        worker_queues = all;
      }

  pub post_to_master-Routed :
      (n : ℕ) (h : NodeHandler K A C) (c : WakerCommand K A C)
      → ForMaster c
      → Routed n h
      → Routed n (post_to_master h c)
  unfolding post_to_master
  post_to_master-Routed n h c one r = record {
    as_many = r.as_many;
    master_queue = All-snoc ForMaster h.master c r.master_queue one;
    worker_queues = r.worker_queues;
  }
