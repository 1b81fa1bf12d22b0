-- ===== src/Engine/Once/Steps.antt =====
-- Every action of a node (src/node.rs, src/network.rs) pays for what it registers.
use message_io.Prelude.{
  ℕ, ◌+◌, ◌≡◌, refl, ap, arith, inl, inr, Option, some, List, [], ◌∷◌, Option-cases,
}
use message_io.Network.ResourceId.{ResourceId, resource_type, generate}
use message_io.Network.Transport.{Transport, id}
use message_io.Network.Messages.{
  RemoteAddr, ConnectConfig, WakerCommand, greet, accept_register_remote, connect_register_remote,
  listen, connect, send, send_sync, close, is_ready, stop,
}
use message_io.Network.Worker.{EventProcessor, Output}
use message_io.Network.TcpDriver.Stages.Polls.{ResourceType-cases}
use message_io.Node.{
  NodeHandler, post, post_to_master, connect_with, listen_with, send_to_endpoint, ask_send_sync,
  ask_is_ready, close_resource, stop_node,
}
use message_io.Engine.{Shared}
use message_io.Engine.Threads.{
  Engine, Thread, Action, call_connect, call_listen, call_send, call_send_sync, call_is_ready,
  call_close, call_post, call_post_to_master, call_stop, take_command, readable, writable, queue_of,
  with_handler, user_connect, posting, working, take_one, step,
}
use message_io.Engine.Requests.{
  Request, read, write, accept_register, connect_register, listen_at, connect_to, send_to, close_it,
  ask_ready, asked_of, Allowed, Returns,
}
use message_io.Engine.Slots.{IsNodeProcessor}
use message_io.Engine.Commands.{
  request_of, Serves, ServesCommand, command-Returns, readable-Returns, writable-Returns,
}
use message_io.Engine.Leads.{Leads, returned-Leads, panic-Leads, posting-Leads, working-Leads}
use message_io.Engine.Posts.{PostsNoResource, MakesNoResource-IsHarmless}
use message_io.Engine.Waiting.{
  occurs, occurs-append, weight, waiting, post-waiting, taken-waiting, master-waiting,
}
use message_io.Engine.Once.{
  Spent, Anything, IsMonotone, AllSpent, IsPaid, shared-IsPaid, thread-IsPaid, Left, occurs_self,
  AfterPaid, request-IsPaid,
}

module _ {S P K A C : Type 0} (drivers : EventProcessor (Shared S K A C) P K A C)
    (HeldIn : ℕ → (ℕ → Type 0) → (ℕ → Type 0) → P → Type 0) (Fits : ℕ → WakerCommand K A C → Type 0)
    (monotone : IsMonotone HeldIn) (contract : IsNodeProcessor drivers HeldIn Fits) where
  -- A command was taken: its weight does not wait any more.
  command-IsPaid :
      (e : Engine S P K A C) (t : Thread) (s : Shared S K A C) (ps : List P)
      (c : WakerCommand K A C)
      → ((k : ℕ) → waiting k s.handler + weight k c ≡ waiting k e.shared.handler)
      → s.issued ≡ e.shared.issued
      → IsPaid HeldIn e
      → AllSpent HeldIn e.shared ps
      → ServesCommand drivers s ps
          (AfterPaid drivers HeldIn Fits monotone contract e t)
          (request_of c)
  unfolding Left
  command-IsPaid e t s ps (greet text) taken issued h mine =
      thread-IsPaid HeldIn monotone e t s ps h
        (λ k. omega (arith, taken k, ap (λ ids. occurs k ids) issued))
        (λ a p there.
          monotone a (Spent e.shared) (Spent s) Anything Anything p
            (λ k spent. omega (arith, taken k, spent, ap (λ ids. occurs k ids) issued)) (λ k _. tt)
            (mine a p there))
  command-IsPaid e t s ps stop taken issued h mine =
      thread-IsPaid HeldIn monotone e t s ps h
        (λ k. omega (arith, taken k, ap (λ ids. occurs k ids) issued))
        (λ a p there.
          monotone a (Spent e.shared) (Spent s) Anything Anything p
            (λ k spent. omega (arith, taken k, spent, ap (λ ids. occurs k ids) issued)) (λ k _. tt)
            (mine a p there))
  command-IsPaid e t s ps (accept_register_remote l r stream payload) taken issued h mine =
      request-IsPaid drivers HeldIn Fits monotone contract e t s ps
        (accept_register l r stream payload) (λ k. omega (arith, taken k)) issued
        (omega (
          arith,
          taken r.0.id,
          h.paid r.0.id,
          occurs_self r.0,
          ap (λ ids. occurs r.0.id ids) issued,
        ))
        h mine
  command-IsPaid e t s ps (connect_register_remote l r stream payload cb) taken issued h mine =
      request-IsPaid drivers HeldIn Fits monotone contract e t s ps
        (connect_register l r stream payload cb) (λ k. omega (arith, taken k)) issued
        (omega (
          arith,
          taken r.0.id,
          h.paid r.0.id,
          occurs_self r.0,
          ap (λ ids. occurs r.0.id ids) issued,
        ))
        h mine
  command-IsPaid e t s ps (listen config i addr cb) taken issued h mine =
      request-IsPaid drivers HeldIn Fits monotone contract e t s ps (listen_at config i addr cb)
        (λ k. omega (arith, taken k)) issued tt h mine
  command-IsPaid e t s ps (connect config i raddr cb) taken issued h mine =
      request-IsPaid drivers HeldIn Fits monotone contract e t s ps (connect_to config i raddr cb)
        (λ k. omega (arith, taken k)) issued tt h mine
  command-IsPaid e t s ps (send endpoint bytes) taken issued h mine =
      request-IsPaid drivers HeldIn Fits monotone contract e t s ps (send_to endpoint bytes)
        (λ k. omega (arith, taken k)) issued tt h mine
  command-IsPaid e t s ps (send_sync endpoint bytes cb) taken issued h mine =
      request-IsPaid drivers HeldIn Fits monotone contract e t s ps (send_to endpoint bytes)
        (λ k. omega (arith, taken k)) issued tt h mine
  command-IsPaid e t s ps (close i) taken issued h mine =
      request-IsPaid drivers HeldIn Fits monotone contract e t s ps (close_it i)
        (λ k. omega (arith, taken k)) issued tt h mine
  command-IsPaid e t s ps (is_ready i cb) taken issued h mine =
      request-IsPaid drivers HeldIn Fits monotone contract e t s ps (ask_ready i cb)
        (λ k. omega (arith, taken k)) issued tt h mine

  take-IsPaid :
      (e : Engine S P K A C) (t : Thread) (queue : List (WakerCommand K A C))
      → queue_of e.shared.handler t ≡ some queue
      → IsPaid HeldIn e
      → Leads (take_one drivers e t queue) (IsPaid HeldIn)
  unfolding take_one
  take-IsPaid e t [] there h = returned-Leads (IsPaid HeldIn) e [] h
  take-IsPaid e t (c ∷ queue) there h = working-Leads (IsPaid HeldIn) e t _ _ (λ ps mine.
      command-Returns (AfterPaid drivers HeldIn Fits monotone contract e t) drivers _ ps c (
        command-IsPaid e t _ ps c (λ k. taken-waiting k e.shared.handler t c queue there) refl h
          (h.spent t ps mine)))

  post-IsPaid :
      (e : Engine S P K A C) (i : ResourceId) (c : WakerCommand K A C)
      → ((k : ℕ) → weight k c ≡ 0)
      → IsPaid HeldIn e
      → Leads (posting e (post e.shared.handler i c)) (IsPaid HeldIn)
  post-IsPaid e i c light h =
      posting-Leads (IsPaid HeldIn) e (post e.shared.handler i c) (λ g posted.
        shared-IsPaid HeldIn monotone e (with_handler e.shared g)
          (λ k. omega (arith, post-waiting k e.shared.handler i c g posted, light k)) h)

  master-IsPaid :
      (e : Engine S P K A C) (g : NodeHandler K A C) (c : WakerCommand K A C)
      → ((k : ℕ) → waiting k g ≡ waiting k e.shared.handler)
      → ((k : ℕ) → weight k c ≡ 0)
      → IsPaid HeldIn e
      → Leads (posting e (some (post_to_master g c))) (IsPaid HeldIn)
  unfolding posting
  master-IsPaid e g c same light h =
      returned-Leads (IsPaid HeldIn)
        (record e { shared = with_handler e.shared (post_to_master g c) }) []
        (shared-IsPaid HeldIn monotone e (with_handler e.shared (post_to_master g c))
          (λ k. omega (arith, master-waiting k g c, light k, same k)) h)

  close-IsPaid :
      (e : Engine S P K A C) (i : ResourceId)
      → IsPaid HeldIn e
      → Leads (posting e (close_resource e.shared.handler i)) (IsPaid HeldIn)
  unfolding close_resource
  close-IsPaid e i h = elim (ResourceType-cases (resource_type i)) [
    | inl is_remote ↦ rw (is_remote, close_resource) (post-IsPaid e i (close i) (λ k. refl) h)
    | inr is_local ↦
        rw (is_local, close_resource)
          (master-IsPaid e e.shared.handler (close i) (λ k. refl) (λ k. refl) h)
  ]

  connect-IsPaid :
      (e : Engine S P K A C) (config : ConnectConfig K) (t : Transport) (addr : RemoteAddr) (cb : ℕ)
      → IsPaid HeldIn e
      → IsPaid HeldIn (record e { shared = user_connect e.shared config t addr cb })
  unfolding user_connect connect_with generate waiting
  connect-IsPaid e config t addr cb h =
      let i = (generate e.shared.handler.remote_id_generator (id t)).1 in
      shared-IsPaid HeldIn monotone e (user_connect e.shared config t addr cb)
        (λ k. omega (
          arith,
          master-waiting k
              (record e.shared.handler {
                remote_id_generator = (generate e.shared.handler.remote_id_generator (id t)).0;
              })
              (connect config i addr cb),
          occurs-append k e.shared.issued (i ∷ []),
        ))
        h

  event-IsPaid :
      (e : Engine S P K A C) (t : Thread) (q : Request K A C)
      (f : Shared S K A C → List P → Option (Shared S K A C × List P × List (Output K A C)))
      → Allowed (Left e.shared (asked_of q)) Anything q
      → asked_of q ≡ []
      → ((ps : List P)
          → Serves drivers e.shared ps (AfterPaid drivers HeldIn Fits monotone contract e t) q
          → Returns (f e.shared ps) (AfterPaid drivers HeldIn Fits monotone contract e t))
      → IsPaid HeldIn e
      → Leads (working e t e.shared f) (IsPaid HeldIn)
  event-IsPaid e t q f allowed none_asked serves h =
      working-Leads (IsPaid HeldIn) e t e.shared f (λ ps mine. serves ps (
        request-IsPaid drivers HeldIn Fits monotone contract e t e.shared ps q
          (λ k. omega (arith, ap (λ ids. occurs k ids) none_asked)) refl allowed h
          (h.spent t ps mine)))

  pub step-IsPaid :
      (e : Engine S P K A C) (action : Action K A C)
      → PostsNoResource action
      → IsPaid HeldIn e
      → Leads (step drivers e action) (IsPaid HeldIn)
  unfolding step listen_with send_to_endpoint ask_send_sync ask_is_ready stop_node posting generate
      waiting
  step-IsPaid e (call_connect config t addr cb) _ h =
      returned-Leads (IsPaid HeldIn) _ [] (connect-IsPaid e config t addr cb h)
  step-IsPaid e (call_listen config t addr cb) _ h =
      master-IsPaid e _ (listen config _ addr cb) (λ k. refl) (λ k. refl) h
  step-IsPaid e (call_send endpoint bytes) _ h =
      post-IsPaid e endpoint.resource_id (send endpoint bytes) (λ k. refl) h
  step-IsPaid e (call_send_sync endpoint bytes cb) _ h =
      post-IsPaid e endpoint.resource_id (send_sync endpoint bytes cb) (λ k. refl) h
  step-IsPaid e (call_is_ready i cb) _ h = post-IsPaid e i (is_ready i cb) (λ k. refl) h
  step-IsPaid e (call_close i) _ h = close-IsPaid e i h
  step-IsPaid e (call_post i c) orderly h =
      post-IsPaid e i c (MakesNoResource-IsHarmless Fits c orderly).light h
  step-IsPaid e (call_post_to_master c) orderly h =
      master-IsPaid e e.shared.handler c (λ k. refl)
        (MakesNoResource-IsHarmless Fits c orderly).light h
  step-IsPaid e call_stop _ h =
      returned-Leads (IsPaid HeldIn)
        (record e { shared = with_handler e.shared (stop_node e.shared.handler) }) []
        (shared-IsPaid HeldIn monotone e (with_handler e.shared (stop_node e.shared.handler))
          (λ k. omega arith) h)
  step-IsPaid e (take_command t) _ h = elim (Option-cases (queue_of e.shared.handler t)) [
    | inl gone ↦ rw (gone, step) (panic-Leads (IsPaid HeldIn))
    | inr (queue, there) ↦ rw (there, step) (take-IsPaid e t queue there h)
  ]
  step-IsPaid e (readable t i) _ h =
      event-IsPaid e t (read i) _ tt refl
        (λ ps.
          readable-Returns (AfterPaid drivers HeldIn Fits monotone contract e t) drivers e.shared ps
            i)
        h
  step-IsPaid e (writable t i) _ h =
      event-IsPaid e t (write i) _ tt refl
        (λ ps.
          writable-Returns (AfterPaid drivers HeldIn Fits monotone contract e t) drivers e.shared ps
            i)
        h
