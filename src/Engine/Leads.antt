-- ===== src/Engine/Leads.antt =====
-- What an action of a node leads to, by what its thread does.
use message_io.Prelude.{
  ℕ, ◌≤◌, ◌≡◌, refl, ap, arith, inl, inr, Option, none, some, List, [], Option-cases,
}
use mathlib.Core.Path.{subst}
use message_io.Network.ResourceId.{max_adapter_id}
use message_io.Network.ResourceId.Fields.{adapter_id-lt}
use message_io.Network.Messages.{
  WakerCommand, greet, accept_register_remote, connect_register_remote, listen, connect, send,
  send_sync, close, is_ready, stop,
}
use message_io.Network.Worker.{Output}
use message_io.Node.{NodeHandler}
use message_io.Engine.{Shared}
use message_io.Engine.Threads.{
  Engine, Thread, master, worker, with_handler, processors_of, set_processors, posting, working,
}
use message_io.Engine.Requests.{
  Request, read, write, accept_register, connect_register, listen_at, connect_to, send_to, close_it,
  ask_ready, slot_of, Allowed, Returns,
}
use message_io.Engine.Commands.{request_of}
use message_io.Engine.Routed.{ForThread}
use message_io.Engine.AtHome.{HomeOf, ListensOf}

-- If the step is done, then what it leaves is so.
abbrev pub Leads :
    {S P K A C : Type 0}
    → Option (Engine S P K A C × List (Output K A C))
    → (Engine S P K A C → Type 0)
    → Type 0
Leads {S} {P} {K} {A} {C} r T =
    (e : Engine S P K A C) (os : List (Output K A C)) → r ≡ some (e, os) → T e

module _ {S P K A C : Type 0} (T : Engine S P K A C → Type 0) where
  left : Engine S P K A C → Option (Engine S P K A C × List (Output K A C)) → Engine S P K A C
  left e none = e
  left e (some (e', _)) = e'

  pub returned-Leads :
      (e : Engine S P K A C) (os : List (Output K A C)) → T e → Leads (some (e, os)) T
  unfolding left
  returned-Leads e os t e' os' h = subst T (ap (left e) h) t

  pub panic-Leads : Leads none T
  panic-Leads e os h = absurd cc

  pub posting-Leads :
      (e : Engine S P K A C) (o : Option (NodeHandler K A C))
      → ((h : NodeHandler K A C) → o ≡ some h → T (record e { shared = with_handler e.shared h }))
      → Leads (posting e o) T
  unfolding posting
  posting-Leads e none given = panic-Leads
  posting-Leads e (some h) given = returned-Leads _ [] (given h refl)

  pub working-Leads :
      (e : Engine S P K A C) (t : Thread) (s : Shared S K A C)
      (f : Shared S K A C → List P → Option (Shared S K A C × List P × List (Output K A C)))
      → ((ps : List P)
          → processors_of e t ≡ some ps
          → Returns (f s ps) (λ s' ps'. T (set_processors (record e { shared = s' }) t ps')))
      → Leads (working e t s f) T
  unfolding working
  working-Leads e t s f given = elim (Option-cases (processors_of e t)) [
    | inl gone ↦ rw (gone, working) panic-Leads
    | inr (ps, there) ↦
        rw (there, working)
          (elim (Option-cases (f s ps)) [
            | inl h ↦ rw (h, working) panic-Leads
            | inr ((s', ps', os), h) ↦
                rw (h, working) (returned-Leads _ os (given ps there s' ps' os h))
          ])
  ]

module _ {K A C : Type 0} where
  -- A command that is in its place asks for what its place allows.
  unfoldable pub AllowedAt : ℕ → Thread → Option (Request K A C) → Type 0
  AllowedAt n t none = Unit
  AllowedAt n t (some q) = Allowed (HomeOf n t (slot_of q)) (ListensOf t (slot_of q)) q

  pub ForThread-Allowed :
      (n : ℕ) (t : Thread) (c : WakerCommand K A C) → ForThread n t c → AllowedAt n t (request_of c)
  unfolding AllowedAt
  ForThread-Allowed n master (greet _) h = tt
  ForThread-Allowed n master (listen _ _ _ _) h = refl
  ForThread-Allowed n master (connect _ _ _ _) h = tt
  ForThread-Allowed n master (close _) h = tt
  ForThread-Allowed n master stop h = tt
  ForThread-Allowed n master (accept_register_remote _ _ _ _) h = elim h [ ]
  ForThread-Allowed n master (connect_register_remote _ _ _ _ _) h = elim h [ ]
  ForThread-Allowed n master (send _ _) h = tt
  ForThread-Allowed n master (send_sync _ _ _) h = tt
  ForThread-Allowed n master (is_ready _ _) h = tt
  ForThread-Allowed n (worker i) (greet _) h = tt
  ForThread-Allowed n (worker i) (listen _ _ _ _) h = elim h [ ]
  ForThread-Allowed n (worker i) (connect _ _ _ _) h = elim h [ ]
  ForThread-Allowed n (worker i) stop h = tt
  ForThread-Allowed n (worker i) (accept_register_remote _ _ _ _) h = (h, refl)
  ForThread-Allowed n (worker i) (connect_register_remote _ _ _ _ _) h = (h, refl)
  ForThread-Allowed n (worker i) (send _ _) h = tt
  ForThread-Allowed n (worker i) (send_sync _ _ _) h = tt
  ForThread-Allowed n (worker i) (close _) h = tt
  ForThread-Allowed n (worker i) (is_ready _ _) h = tt

  pub slot_of-le : (q : Request K A C) → slot_of q ≤ max_adapter_id
  slot_of-le (read i) = omega (arith, adapter_id-lt i)
  slot_of-le (write i) = omega (arith, adapter_id-lt i)
  slot_of-le (accept_register _ r _ _) = omega (arith, adapter_id-lt r.0)
  slot_of-le (connect_register _ r _ _ _) = omega (arith, adapter_id-lt r.0)
  slot_of-le (listen_at _ i _ _) = omega (arith, adapter_id-lt i)
  slot_of-le (connect_to _ i _ _) = omega (arith, adapter_id-lt i)
  slot_of-le (send_to endpoint _) = omega (arith, adapter_id-lt endpoint.resource_id)
  slot_of-le (close_it i) = omega (arith, adapter_id-lt i)
  slot_of-le (ask_ready i _) = omega (arith, adapter_id-lt i)
