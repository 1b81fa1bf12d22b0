-- ===== src/Engine/Calls.antt =====
-- The ids stay counted behind the calls of the user (src/node.rs) and when a command is taken.
use message_io.Prelude.{
  ℕ, ◌≡◌, refl, sym, ap, ◌∙◌, arith, some, List, [], ◌∷◌, ◌++◌, length-append, get_elem?,
}
use message_io.Network.ResourceId.{ResourceId, remote, new_generator, generate, generate_all}
use message_io.Network.Transport.{Transport, id, from_u8-id}
use message_io.Network.Messages.{RemoteAddr, ConnectConfig, WakerCommand}
use message_io.Node.{NodeHandler, post, post_to_master, connect_with}
use message_io.Engine.{Shared}
use message_io.Engine.Threads.{
  Thread, master, worker, queue_of, set_queue, with_handler, user_connect,
}
use message_io.Engine.Handled.{counted}
use message_io.Engine.Queues.{taken-QueuesHold, post_one-QueuesHold}
use message_io.Engine.Counted.{
  Suits, Counted, everywhere_tt, AreAdapters-append, counted-append, generate_all-append,
}

module _ {S K A C : Type 0} (Fits : ℕ → WakerCommand K A C → Type 0) where
  -- A handler with the same queues of workers and the same shared generator.
  pub same-Counted :
      (s : Shared S K A C) (h : NodeHandler K A C)
      → h.workers ≡ s.handler.workers
      → h.remote_id_generator ≡ s.handler.remote_id_generator
      → Counted Fits s
      → Counted Fits (with_handler s h)
  same-Counted s h workers gen c = record {
    adapters = c.adapters;
    valid = c.valid;
    count = gen ∙ c.count;
    all_issued = c.all_issued;
    suited = λ within i queue there.
        c.suited within i queue (ap (λ ws. get_elem? ws i) (sym workers) ∙ there);
  }

  pub post-Counted :
      (s : Shared S K A C) (i : ResourceId) (c : WakerCommand K A C) (h : NodeHandler K A C)
      → post s.handler i c ≡ some h
      → Suits Fits c
      → Counted Fits s
      → Counted Fits (with_handler s h)
  post-Counted s i c h e fit k =
      let (kept, _) =
        post_one-QueuesHold (λ _ _. Unit) s.handler i c h e tt (λ _ queue _. everywhere_tt queue) in
      record {
        adapters = k.adapters;
        valid = k.valid;
        count = kept.count_kept ∙ k.count;
        all_issued = k.all_issued;
        suited = λ within.
            (post_one-QueuesHold (λ _ c. Suits Fits c) s.handler i c h e fit (k.suited within)).1;
      }

  pub connect-Counted :
      (s : Shared S K A C) (config : ConnectConfig K) (t : Transport) (addr : RemoteAddr) (cb : ℕ)
      → Counted Fits s
      → Counted Fits (user_connect s config t addr cb)
  unfolding user_connect connect_with post_to_master generate generate_all
  connect-Counted s config t addr cb c =
      let g0 = new_generator remote in
      record {
        adapters = c.adapters ++ id t ∷ [];
        valid = AreAdapters-append c.adapters (id t ∷ []) c.valid ((from_u8-id t).2, tt);
        count =
            ap (λ g. (generate g (id t)).0) c.count
            ∙ sym (counted-append g0 c.adapters (id t ∷ []));
        all_issued =
            ap (λ g. s.issued ++ (generate g (id t)).1 ∷ []) c.count
            ∙ ap (λ ids. ids ++ (generate (counted g0 c.adapters) (id t)).1 ∷ []) c.all_issued
            ∙ sym (generate_all-append g0 c.adapters (id t ∷ []));
        suited = λ within. c.suited (
            omega (
              arith,
              within,
              length-append s.issued ((generate s.handler.remote_id_generator (id t)).1 ∷ []),
            ));
      }

  pub taken-Counted :
      (s : Shared S K A C) (t : Thread) (c : WakerCommand K A C) (queue : List (WakerCommand K A C))
      → queue_of s.handler t ≡ some (c ∷ queue)
      → Counted Fits s
      → Counted Fits (with_handler s (set_queue s.handler t queue))
  unfolding queue_of set_queue
  taken-Counted s master c queue e k = same-Counted s _ refl refl k
  taken-Counted s (worker i) c queue e k = record {
    adapters = k.adapters;
    valid = k.valid;
    count = k.count;
    all_issued = k.all_issued;
    suited = λ within.
        (taken-QueuesHold (λ _ c. Suits Fits c) s.handler i c queue e (k.suited within)).1;
  }
