-- ===== src/Engine/Once.antt =====
-- No id is used twice in a node: of the ids that the shared generator of src/network/resource_id.rs
-- issued, each waits in at most one command, and in none when it is registered.
pub mod Steps
use message_io.Prelude.{
  ℕ, suc, ◌+◌, ◌≤◌, ◌≡◌, refl, sym, ap, ◌∙◌, arith, ◌⊎◌, inl, inr, Option, none, some, List, [],
  ◌∷◌, ◌++◌, get_elem?, set, Option-cases, ◌==◌, if◌then◌else◌,
}
use mathlib.Core.Path.{subst}
use message_io.Network.ResourceId.{ResourceId, local, remote, resource_type, generate, generate_all}
use message_io.Network.Transport.{Transport, id}
use message_io.Network.Messages.{
  RemoteAddr, ConnectConfig, WakerCommand, greet, accept_register_remote, connect_register_remote,
  listen, connect, send, send_sync, close, is_ready, stop,
}
use message_io.Network.Worker.{EventProcessor, Output}
use message_io.Network.TcpDriver.Stages.Polls.{ResourceType-cases}
use message_io.Node.{
  NodeHandler, post, post_to_master, connect_with, listen_with, send_to_endpoint, ask_send_sync,
  ask_is_ready, close_resource, stop_node,
}
use message_io.Engine.{Shared}
use message_io.Engine.Threads.{
  Engine, Thread, Action, call_connect, call_listen, call_send, call_send_sync, call_is_ready,
  call_close, call_post, call_post_to_master, call_stop, take_command, readable, writable, queue_of,
  set_queue, with_handler, user_connect, processors_of, set_processors, posting, working, take_one,
  step,
}
use message_io.Engine.Requests.{
  Request, read, write, accept_register, connect_register, listen_at, connect_to, send_to, close_it,
  ask_ready, slot_of, asked_of, Allowed, Returns, Handles-weaken,
}
use message_io.Engine.Sharing.{Worked}
use message_io.Engine.Slots.{IsNodeProcessor}
use message_io.Engine.Queues.{set_inv}
use message_io.Engine.Commands.{
  request_of, Serves, ServesCommand, command-Returns, readable-Returns, writable-Returns,
}
use message_io.Engine.AtHome.{processors_inv, set_processors-shared}
use message_io.Engine.Leads.{Leads, returned-Leads, panic-Leads, posting-Leads, working-Leads}
use message_io.Engine.Waiting.{
  occurs, occurs-append, weight, waiting, post-waiting, registrations-waiting, taken-waiting,
  master-waiting,
}

-- A number that was issued more often than it waits.
abbrev pub Spent : {S K A C : Type 0} → Shared S K A C → ℕ → Type 0
Spent s k = waiting k s.handler + 1 ≤ occurs k s.issued

abbrev pub Anything : ℕ → Type 0
Anything k = Unit

-- Bounds that hold more are bounds, too.
abbrev pub IsMonotone : {P : Type 0} → (ℕ → (ℕ → Type 0) → (ℕ → Type 0) → P → Type 0) → Type 1
IsMonotone {P} HeldIn =
    (a : ℕ) (I I' J J' : ℕ → Type 0) (p : P)
    → ((k : ℕ) → I k → I' k)
    → ((k : ℕ) → J k → J' k)
    → HeldIn a I J p
    → HeldIn a I' J' p

module _ {S P K A C : Type 0} (HeldIn : ℕ → (ℕ → Type 0) → (ℕ → Type 0) → P → Type 0) where
  -- What is registered is spent, in all drivers of all threads.
  abbrev pub AllSpent : Shared S K A C → List P → Type 0
  AllSpent s ps = (a : ℕ) (p : P) → get_elem? ps a ≡ some p → HeldIn a (Spent s) Anything p

  abbrev pub NodeSpent : Shared S K A C → Engine S P K A C → Type 0
  NodeSpent s e = (t : Thread) (ps : List P) → processors_of e t ≡ some ps → AllSpent s ps

  -- No id waits more often than it was issued, and what is registered is spent.
  pub record IsPaid (e : Engine S P K A C) : Type 0 where
    pub paid : (k : ℕ) → waiting k e.shared.handler ≤ occurs k e.shared.issued
    pub spent : NodeSpent e.shared e

-- From one shared state to the next, no number waits that was not issued for it.
abbrev pub Covers : {S K A C : Type 0} → Shared S K A C → Shared S K A C → Type 0
Covers s s' =
    (k : ℕ) → waiting k s'.handler + occurs k s.issued ≤ waiting k s.handler + occurs k s'.issued

module _ {S P K A C : Type 0} (HeldIn : ℕ → (ℕ → Type 0) → (ℕ → Type 0) → P → Type 0)
    (monotone : IsMonotone HeldIn) where
  covered-NodeSpent :
      (s s' : Shared S K A C) (e : Engine S P K A C)
      → Covers s s'
      → NodeSpent HeldIn s e
      → NodeSpent HeldIn s' e
  covered-NodeSpent s s' e covers all t ps there a p here =
      monotone a (Spent s) (Spent s') Anything Anything p
        (λ k spent. omega (arith, covers k, spent)) (λ k _. tt) (all t ps there a p here)

  shared-NodeSpent :
      (s s' : Shared S K A C) (e : Engine S P K A C)
      → NodeSpent HeldIn s e
      → NodeSpent HeldIn s (record e { shared = s' })
  unfolding processors_of
  shared-NodeSpent s s' e all Thread.master ps there = all Thread.master ps there
  shared-NodeSpent s s' e all (Thread.worker i) ps there = all (Thread.worker i) ps there

  -- The user does something that covers what it puts in a queue.
  pub shared-IsPaid :
      (e : Engine S P K A C) (s : Shared S K A C)
      → Covers e.shared s
      → IsPaid HeldIn e
      → IsPaid HeldIn (record e { shared = s })
  shared-IsPaid e s covers h = record {
    paid = λ k. omega (arith, covers k, h.paid k);
    spent = shared-NodeSpent s s e (covered-NodeSpent e.shared s e covers h.spent);
  }

  set-AllSpent :
      (s s' : Shared S K A C) (ps : List P) (a : ℕ) (p : P)
      → AllSpent HeldIn s ps
      → Covers s s'
      → HeldIn a (Spent s') Anything p
      → AllSpent HeldIn s' (set ps a p)
  set-AllSpent s s' ps a p mine covers one b q here = elim (set_inv ps a p b q here) [
    | inl (slot, value) ↦
        subst (λ x. HeldIn b (Spent s') Anything x) value
          (subst (λ x. HeldIn x (Spent s') Anything p) (sym slot) one)
    | inr (_, old) ↦
        monotone b (Spent s) (Spent s') Anything Anything q
          (λ k spent. omega (arith, covers k, spent)) (λ k _. tt) (mine b q old)
  ]

  pub thread-IsPaid :
      (e : Engine S P K A C) (t : Thread) (s' : Shared S K A C) (ps' : List P)
      → IsPaid HeldIn e
      → Covers e.shared s'
      → AllSpent HeldIn s' ps'
      → IsPaid HeldIn (set_processors (record e { shared = s' }) t ps')
  thread-IsPaid e t s' ps' h covers mine =
      let same : (set_processors (record e { shared = s' }) t ps').shared ≡ s' =
        set_processors-shared (record e { shared = s' }) t ps' in
      record {
        paid = λ k.
            subst (λ x. waiting k x.handler ≤ occurs k x.issued) (sym same)
              (omega (arith, covers k, h.paid k));
        spent = λ u qs there b q here.
            subst (λ x. HeldIn b (Spent x) Anything q) (sym same)
              (elim (processors_inv e s' t u ps' qs there) [
                | inl (_, new) ↦ mine b q (ap (λ xs. get_elem? xs b) new ∙ here)
                | inr old ↦ covered-NodeSpent e.shared s' e covers h.spent u qs old b q here
              ]);
      }

-- A number that is issued more often than it waits and is asked for.
unfoldable pub Left : {S K A C : Type 0} → Shared S K A C → List ResourceId → ℕ → Type 0
Left s asked k = waiting k s.handler + occurs k asked + 1 ≤ occurs k s.issued

pub occurs_self : (i : ResourceId) → occurs i.id (i ∷ []) ≡ 1
occurs_self i = ground arith

module _ {S P K A C : Type 0} (drivers : EventProcessor (Shared S K A C) P K A C)
    (HeldIn : ℕ → (ℕ → Type 0) → (ℕ → Type 0) → P → Type 0) (Fits : ℕ → WakerCommand K A C → Type 0)
    (monotone : IsMonotone HeldIn) (contract : IsNodeProcessor drivers HeldIn Fits) where
  abbrev pub AfterPaid : Engine S P K A C → Thread → Shared S K A C → List P → Type 0
  AfterPaid e t s ps = IsPaid HeldIn (set_processors (record e { shared = s }) t ps)

  Worked-covers :
      (Keeps : P → P → Type 0) (asked : List ResourceId) (a : ℕ) (s s' : Shared S K A C) (p p' : P)
      (k : ℕ)
      → Worked Keeps (Fits a) asked a s p s' p'
      → waiting k s'.handler + occurs k s.issued
        ≤ waiting k s.handler + occurs k s'.issued + occurs k asked
  unfolding waiting
  Worked-covers Keeps asked a s s' p p' k w = omega (
    arith,
    registrations-waiting k _ w.posts s'.handler asked w.delivered w.registers w.connects,
    ap (λ ids. occurs k ids) w.ids,
    ap (λ ids. occurs k ids) w.issued,
    occurs-append k s.issued (generate_all s.handler.remote_id_generator w.adapters),
  )

  pub request-IsPaid :
      (e : Engine S P K A C) (t : Thread) (s : Shared S K A C) (ps : List P) (q : Request K A C)
      → ((k : ℕ) → waiting k s.handler + occurs k (asked_of q) ≤ waiting k e.shared.handler)
      → s.issued ≡ e.shared.issued
      → Allowed (Left s (asked_of q)) Anything q
      → IsPaid HeldIn e
      → AllSpent HeldIn e.shared ps
      → Serves drivers s ps (AfterPaid e t) q
  unfolding Left
  request-IsPaid e t s ps q lower issued allowed h mine p there =
      let a = slot_of q in
      Handles-weaken drivers _ _
        (λ s' p' w.
          let covers : (k : ℕ)
              → waiting k s'.handler + occurs k e.shared.issued
                ≤ waiting k e.shared.handler + occurs k s'.issued =
            λ k. omega (
              arith,
              Worked-covers _ (asked_of q) a s s' p p' k w,
              lower k,
              ap (λ ids. occurs k ids) issued,
            ) in
          thread-IsPaid HeldIn monotone e t s' (set ps a p') h covers (
            set-AllSpent HeldIn monotone e.shared s' ps a p' mine covers (
              monotone a (Left s (asked_of q)) (Spent s') Anything Anything p'
                (λ k left. omega (arith, Worked-covers _ (asked_of q) a s s' p p' k w, left))
                (λ k _. tt) w.kept)))
        q s p
        (contract (Left s (asked_of q)) Anything q s p allowed (
          monotone a (Spent e.shared) (Left s (asked_of q)) Anything Anything p
            (λ k spent. omega (arith, lower k, spent, ap (λ ids. occurs k ids) issued)) (λ k _. tt)
            (mine a p there)))
