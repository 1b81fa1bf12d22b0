-- ===== src/Engine/AtHome.antt =====
-- Where the resources of a node live: listeners at the master, and each remote in the driver of its
-- transport at the worker of its id, where its commands go, too.
use message_io.Prelude.{ℕ, ◌≡◌, refl, sym, ap, ◌⊎◌, inl, inr, some, List, get_elem?, set}
use mathlib.Core.Path.{subst}
use message_io.Network.ResourceId.{adapter_id}
use message_io.Node.Routing.{worker_of}
use message_io.Engine.{Shared}
use message_io.Engine.Threads.{Engine, Thread, master, worker, processors_of, set_processors}
use message_io.Engine.Routed.{Routed}
use message_io.Engine.Queues.{some-inj, set_inv}

-- The remote ids that a thread may have in slot a: none at the master, its own at a worker.
abbrev pub HomeOf : ℕ → Thread → ℕ → ℕ → Type 0
HomeOf n master a k = ⊥
HomeOf n (worker i) a k =
    (worker_of n (record { id = k }) ≡ i) × (adapter_id (record { id = k }) ≡ a)

-- The listeners that a thread may have in slot a: none at a worker.
abbrev pub ListensOf : Thread → ℕ → ℕ → Type 0
ListensOf master a k = adapter_id (record { id = k }) ≡ a
ListensOf (worker i) a k = ⊥

abbrev pub AllHeld :
    {P : Type 0} → (ℕ → (ℕ → Type 0) → (ℕ → Type 0) → P → Type 0) → ℕ → Thread → List P → Type 0
AllHeld {P} HeldIn n t ps =
    (a : ℕ) (p : P) → get_elem? ps a ≡ some p → HeldIn a (HomeOf n t a) (ListensOf t a) p

-- Every driver of every thread holds what is at home there.
abbrev pub Holds :
    {S P K A C : Type 0}
    → (ℕ → (ℕ → Type 0) → (ℕ → Type 0) → P → Type 0)
    → ℕ
    → Engine S P K A C
    → Type 0
Holds {P = P} HeldIn n e =
    (t : Thread) (ps : List P) → processors_of e t ≡ some ps → AllHeld HeldIn n t ps

pub record AtHome {S P K A C : Type 0} (HeldIn : ℕ → (ℕ → Type 0) → (ℕ → Type 0) → P → Type 0)
    (n : ℕ) (e : Engine S P K A C) : Type 0 where
  pub routed : Routed n e.shared.handler
  pub holds : Holds HeldIn n e

module _ {P : Type 0} (HeldIn : ℕ → (ℕ → Type 0) → (ℕ → Type 0) → P → Type 0) (n : ℕ) where
  pub set-AllHeld :
      (t : Thread) (ps : List P) (a : ℕ) (p : P)
      → HeldIn a (HomeOf n t a) (ListensOf t a) p
      → AllHeld HeldIn n t ps
      → AllHeld HeldIn n t (set ps a p)
  set-AllHeld t ps a p one all b q h = elim (set_inv ps a p b q h) [
    | inl (same, new) ↦
        subst (λ x. HeldIn b (HomeOf n t b) (ListensOf t b) x) new
          (subst (λ k. HeldIn k (HomeOf n t k) (ListensOf t k) p) (sym same) one)
    | inr (_, old) ↦ all b q old
  ]

module _ {S P K A C : Type 0} where
  pub processors_inv :
      (e : Engine S P K A C) (s : Shared S K A C) (t u : Thread) (ps qs : List P)
      → processors_of (set_processors (record e { shared = s }) t ps) u ≡ some qs
      → ((u ≡ t) × (ps ≡ qs)) ⊎ (processors_of e u ≡ some qs)
  unfolding processors_of set_processors
  processors_inv e s master master ps qs h = inl (refl, some-inj ps qs h)
  processors_inv e s master (worker i) ps qs h = inr h
  processors_inv e s (worker i) master ps qs h = inr h
  processors_inv e s (worker i) (worker j) ps qs h = elim (set_inv e.workers i ps j qs h) [
    | inl (same, new) ↦ inl (ap worker same, new)
    | inr (_, old) ↦ inr old
  ]

  pub set_processors-shared :
      (e : Engine S P K A C) (t : Thread) (ps : List P) → (set_processors e t ps).shared ≡ e.shared
  unfolding set_processors
  set_processors-shared e master ps = refl
  set_processors-shared e (worker i) ps = refl

  module _ (HeldIn : ℕ → (ℕ → Type 0) → (ℕ → Type 0) → P → Type 0) (n : ℕ) where
    -- A thread that leaves the other queues and its drivers as they should be.
    pub thread-AtHome :
        (e : Engine S P K A C) (t : Thread) (s : Shared S K A C) (ps : List P)
        → Routed n s.handler
        → AllHeld HeldIn n t ps
        → Holds HeldIn n e
        → AtHome HeldIn n (set_processors (record e { shared = s }) t ps)
    thread-AtHome e t s ps routed mine all = record {
      routed =
          subst (λ x. Routed n x.handler)
            (sym (set_processors-shared (record e { shared = s }) t ps)) routed;
      holds = λ u qs h. elim (processors_inv e s t u ps qs h) [
        | inl (same, new) ↦
            subst (λ x. AllHeld HeldIn n u x) new
              (subst (λ x. AllHeld HeldIn n x ps) (sym same) mine)
        | inr old ↦ all u qs old
      ];
    }

    -- What the threads share does not touch their drivers.
    pub shared-Holds :
        (e : Engine S P K A C) (s : Shared S K A C)
        → Holds HeldIn n e
        → Holds HeldIn n (record e { shared = s })
    unfolding processors_of
    shared-Holds e s all master ps there = all master ps there
    shared-Holds e s all (worker i) ps there = all (worker i) ps there
