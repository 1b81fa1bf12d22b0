-- ===== src/Engine/Runs.antt =====
-- What holds of a node (src/node.rs) after any actions of its threads and of a user who posts no
-- command himself that makes a resource, if its drivers keep their contract.
use message_io.Prelude.{
  ℕ, zero, suc, ◌<◌, ◌≡◌, refl, sym, ap, ◌∙◌, arith, inl, inr, some, List, [], ◌∷◌, get_elem?,
  replicate, All, Option-cases, length-replicate, get_elem?-replicate,
}
use mathlib.Core.Path.{subst}
use message_io.Network.ResourceId.{generate_all}
use message_io.Network.Messages.{WakerCommand}
use message_io.Network.Worker.{EventProcessor}
use message_io.Node.{create_node_handler}
use message_io.Engine.{Shared}
use message_io.Engine.Threads.{Engine, master, worker, Action, processors_of, step, run, new_engine}
use message_io.Engine.Slots.{IsNodeProcessor}
use message_io.Engine.Queues.{some-inj, in_range}
use message_io.Engine.AtHome.{Holds}
use message_io.Engine.Routed.{ForWorker}
use message_io.Engine.Counted.{Suits}
use message_io.Engine.Posts.{PostsNoResource}
use message_io.Engine.Leads.{Leads, returned-Leads, panic-Leads}
use message_io.Engine.Steps.{IsSound, step-IsSound}
use message_io.Engine.Waiting.{all_weights, waiting}
use message_io.Engine.Once.{IsMonotone, NodeSpent, IsPaid}
use message_io.Engine.Once.Steps.{step-IsPaid}

-- Processors that hold nothing yet.
abbrev pub AllNew : {P : Type 0} → (ℕ → (ℕ → Type 0) → (ℕ → Type 0) → P → Type 0) → List P → Type 1
AllNew {P} HeldIn ps =
    (a : ℕ) (p : P) → get_elem? ps a ≡ some p → (I J : ℕ → Type 0) → HeldIn a I J p

replicate_inv :
    {B : Type 0} (n : ℕ) (b : B) (i : ℕ) (x : B) → get_elem? (replicate n b) i ≡ some x → b ≡ x
replicate_inv n b i x e =
    let within : i < n = omega (arith, in_range (replicate n b) i x e, length-replicate n b) in
    some-inj b x (sym (get_elem?-replicate n b i within) ∙ e)

module _ {S P K A C : Type 0} (drivers : EventProcessor (Shared S K A C) P K A C)
    (T : Engine S P K A C → Type 0) where
  -- What every action keeps, all actions keep; the user posts no command himself that makes a
  -- resource.
  run-Leads :
      (e : Engine S P K A C) (actions : List (Action K A C))
      → ((e : Engine S P K A C) (action : Action K A C)
          → PostsNoResource action
          → T e
          → Leads (step drivers e action) T)
      → All PostsNoResource actions
      → T e
      → Leads (run drivers e actions) T
  unfolding run
  run-Leads e [] keeps _ t = returned-Leads T e [] t
  run-Leads e (action ∷ actions) keeps (first_one, others) t =
      elim (Option-cases (step drivers e action)) [
        | inl gone ↦ rw (gone, run) (panic-Leads T)
        | inr ((e1, first), done) ↦
            rw (done, run)
              (elim (Option-cases (run drivers e1 actions)) [
                | inl gone ↦ rw gone (panic-Leads T)
                | inr ((e2, later), rest) ↦ rw rest (
                    returned-Leads T e2 _ (
                      run-Leads e1 actions keeps others (keeps e action first_one t e1 first done)
                        e2 later rest))
              ])
      ]

new-Holds :
    {S P : Type 0} (K A C : Type 0) (HeldIn : ℕ → (ℕ → Type 0) → (ℕ → Type 0) → P → Type 0) (n : ℕ)
    (system : S) (ps : List P)
    → AllNew HeldIn ps
    → Holds HeldIn n (new_engine {K = K} {A = A} {C = C} system n ps)
unfolding new_engine processors_of
new-Holds K A C HeldIn n system ps fresh master qs there a p here =
    fresh a p (ap (λ xs. get_elem? xs a) (some-inj ps qs there) ∙ here) _ _
new-Holds K A C HeldIn n system ps fresh (worker i) qs there a p here =
    fresh a p (ap (λ xs. get_elem? xs a) (replicate_inv n ps i qs there) ∙ here) _ _

no_weights : (K A C : Type 0) (k n : ℕ) → all_weights {K = K} {A = A} {C = C} k (replicate n []) ≡ 0
no_weights K A C k zero = refl
no_weights K A C k (suc n) = omega (arith, no_weights K A C k n)

new-NodeSpent :
    {S P : Type 0} (K A C : Type 0) (HeldIn : ℕ → (ℕ → Type 0) → (ℕ → Type 0) → P → Type 0) (n : ℕ)
    (system : S) (ps : List P)
    → AllNew HeldIn ps
    → let e = new_engine {K = K} {A = A} {C = C} system n ps in NodeSpent HeldIn e.shared e
unfolding new_engine processors_of
new-NodeSpent K A C HeldIn n system ps fresh master qs there a p here =
    fresh a p (ap (λ xs. get_elem? xs a) (some-inj ps qs there) ∙ here) _ _
new-NodeSpent K A C HeldIn n system ps fresh (worker i) qs there a p here =
    fresh a p (ap (λ xs. get_elem? xs a) (replicate_inv n ps i qs there) ∙ here) _ _

module _ {S P K A C : Type 0} (drivers : EventProcessor (Shared S K A C) P K A C)
    (HeldIn : ℕ → (ℕ → Type 0) → (ℕ → Type 0) → P → Type 0) (Fits : ℕ → WakerCommand K A C → Type 0)
    (n : ℕ) (contract : IsNodeProcessor drivers HeldIn Fits) where
  new-IsSound :
      (system : S) (ps : List P)
      → AllNew HeldIn ps
      → IsSound drivers HeldIn Fits n (new_engine system n ps)
  unfolding new_engine create_node_handler generate_all
  new-IsSound system ps fresh = record {
    at_home = record {
      routed = record {
        as_many = length-replicate n [];
        master_queue = tt;
        worker_queues = λ i queue there.
            subst (λ q. All (ForWorker n i) q) (replicate_inv n [] i queue there) tt;
      };
      holds = new-Holds K A C HeldIn n system ps fresh;
    };
    counting = record {
      adapters = [];
      valid = tt;
      count = refl;
      all_issued = refl;
      suited =
          λ _ i queue there. subst (λ q. All (Suits Fits) q) (replicate_inv n [] i queue there) tt;
    };
  }

  -- Every node that its user and its threads can reach by such actions is sound.
  pub reaches-IsSound :
      (system : S) (ps : List P) (actions : List (Action K A C))
      → All PostsNoResource actions
      → AllNew HeldIn ps
      → Leads (run drivers (new_engine system n ps) actions) (IsSound drivers HeldIn Fits n)
  reaches-IsSound system ps actions orderly fresh =
      run-Leads drivers (IsSound drivers HeldIn Fits n) (new_engine system n ps) actions
        (step-IsSound drivers HeldIn Fits n contract) orderly (new-IsSound system ps fresh)

module _ {S P K A C : Type 0} (drivers : EventProcessor (Shared S K A C) P K A C)
    (HeldIn : ℕ → (ℕ → Type 0) → (ℕ → Type 0) → P → Type 0) (Fits : ℕ → WakerCommand K A C → Type 0)
    (n : ℕ) (monotone : IsMonotone HeldIn) (contract : IsNodeProcessor drivers HeldIn Fits) where
  new-IsPaid :
      (system : S) (ps : List P)
      → AllNew HeldIn ps
      → IsPaid HeldIn (new_engine {K = K} {A = A} {C = C} system n ps)
  unfolding new_engine create_node_handler waiting
  new-IsPaid system ps fresh = record {
    paid = λ k. omega (arith, no_weights K A C k n);
    spent = new-NodeSpent K A C HeldIn n system ps fresh;
  }

  -- Every node that its user and its threads can reach by such actions has issued what it uses.
  pub reaches-IsPaid :
      (system : S) (ps : List P) (actions : List (Action K A C))
      → All PostsNoResource actions
      → AllNew HeldIn ps
      → Leads (run drivers (new_engine system n ps) actions) (IsPaid HeldIn)
  reaches-IsPaid system ps actions orderly fresh =
      run-Leads drivers (IsPaid HeldIn) (new_engine system n ps) actions
        (step-IsPaid drivers HeldIn Fits monotone contract) orderly (new-IsPaid system ps fresh)
