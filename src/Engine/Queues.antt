-- ===== src/Engine/Queues.antt =====
-- What stands in the queues of a node (src/node.rs): to the master go connections, listeners and what
-- is said to the node, to a worker the commands on the ids that are its own.
use message_io.Prelude.{
  ℕ, zero, suc, ◌≡◌, ◌≢◌, refl, sym, ap, ◌∙◌, arith, ◌<◌, ◌⊎◌, inl, inr, Option, none, some, List,
  [], ◌∷◌, ◌++◌, length, get_elem?, set, All, Option-cases, length-set, get_elem?-set_self,
  get_elem?-set_ne,
}
use mathlib.Core.Path.{subst}
use message_io.Network.ResourceId.{ResourceId}
use message_io.Network.Registry.Coherence.{eq_or_ne}
use message_io.Network.Messages.{WakerCommand}
use message_io.Network.Worker.{bind}
use message_io.Node.{NodeHandler, to_worker_index, post}
use message_io.Node.Routing.{worker_of}
use message_io.Engine.{post_all}

index_cases :
    (n : ℕ) (id : ResourceId)
    → (to_worker_index n id ≡ none) ⊎ (to_worker_index n id ≡ some (worker_of n id))
unfolding to_worker_index
index_cases zero id = inl refl
index_cases (suc n) id = inr refl

pub some-inj : {B : Type 0} (a b : B) → ◌≡◌ {A = Option B} (some a) (some b) → a ≡ b
some-inj a b e = cc

some_not_none : {B : Type 0} (b : B) → ◌≢◌ {A = Option B} (some b) none
some_not_none b e = cc

pub in_range : {B : Type 0} (xs : List B) (i : ℕ) (x : B) → get_elem? xs i ≡ some x → i < length xs
in_range [] i x e = absurd cc
in_range (y ∷ xs) zero x e = omega arith
in_range (y ∷ xs) (suc i) x e = omega (arith, in_range xs i x e)

-- A place of a list in which one was set has the new value or its own.
pub set_inv :
    {B : Type 0} (xs : List B) (i : ℕ) (v : B) (j : ℕ) (x : B)
    → get_elem? (set xs i v) j ≡ some x
    → ((j ≡ i) × (v ≡ x)) ⊎ ((j ≢ i) × (get_elem? xs j ≡ some x))
set_inv xs i v j x e = elim (eq_or_ne j i) [
  | inl same ↦
      let within : i < length xs =
        omega (arith, in_range (set xs i v) j x e, length-set xs i v, same) in
      inl (
        same,
        some-inj v x (
            sym (get_elem?-set_self xs i v within)
            ∙ ap (λ k. get_elem? (set xs i v) k) (sym same)
            ∙ e),
      )
  | inr other ↦ inr (other, sym (get_elem?-set_ne xs v (λ q. other (sym q))) ∙ e)
]

module _ {K A C : Type 0} where
  -- Each command of the queue of a worker is one that T allows it.
  abbrev pub QueuesHold : (ℕ → WakerCommand K A C → Type 0) → NodeHandler K A C → Type 0
  QueuesHold T h =
      (i : ℕ) (queue : List (WakerCommand K A C))
      → get_elem? h.workers i ≡ some queue
      → All (T i) queue

  -- A post, as the queue that it goes to.
  pub record Goes (h : NodeHandler K A C) (id : ResourceId) (c : WakerCommand K A C)
      (h' : NodeHandler K A C) : Type 0 where
    pub queue : List (WakerCommand K A C)
    pub there : get_elem? h.workers (worker_of (length h.workers) id) ≡ some queue
    pub result :
        h'
        ≡ record h { workers = set h.workers (worker_of (length h.workers) id) (queue ++ c ∷ []) }

  pub All-snoc :
      (T : WakerCommand K A C → Type 0) (queue : List (WakerCommand K A C)) (c : WakerCommand K A C)
      → All T queue
      → T c
      → All T (queue ++ c ∷ [])
  All-snoc T [] c all one = (one, tt)
  All-snoc T (x ∷ queue) c (first, all) one = (first, All-snoc T queue c all one)

  pub post-Goes :
      (h : NodeHandler K A C) (id : ResourceId) (c : WakerCommand K A C) (h' : NodeHandler K A C)
      → post h id c ≡ some h'
      → Goes h id c h'
  unfolding post
  post-Goes h id c h' =
      let i = worker_of (length h.workers) id in
      elim (index_cases (length h.workers) id) [
        | inl gone ↦ rw (gone, post) (λ e. absurd cc)
        | inr found ↦
            rw (found, post)
              (elim (Option-cases (get_elem? h.workers i)) [
                | inl gone ↦ rw (gone, post) (λ e. absurd cc)
                | inr (queue, there) ↦
                    rw (there, post)
                      (λ e. record { queue = queue; there = there; result = sym (some-inj _ _ e) })
              ])
      ]

  post-QueuesHold :
      (T : ℕ → WakerCommand K A C → Type 0) (h : NodeHandler K A C) (id : ResourceId)
      (c : WakerCommand K A C) (h' : NodeHandler K A C)
      → Goes h id c h'
      → T (worker_of (length h.workers) id) c
      → QueuesHold T h
      → QueuesHold T h'
  post-QueuesHold T h id c h' goes one all =
      let i = worker_of (length h.workers) id in
      rw (goes.result) (λ j queue e. elim (set_inv h.workers i (goes.queue ++ c ∷ []) j queue e) [
        | inl (same, new) ↦
            subst (λ q. All (T j) q) new
              (All-snoc (T j) goes.queue c
                (subst (λ k. All (T k) goes.queue) (sym same) (all i goes.queue goes.there))
                (subst (λ k. T k c) (sym same) one))
        | inr (_, old) ↦ all j queue old
      ])

  -- What a run of posts leaves: the master, the generators and the flag are as they were.
  pub record Posts (h h' : NodeHandler K A C) : Type 0 where
    pub as_many : length h'.workers ≡ length h.workers
    pub master_kept : h'.master ≡ h.master
    pub count_kept : h'.remote_id_generator ≡ h.remote_id_generator
    pub local_kept : h'.local_id_generator ≡ h.local_id_generator
    pub running_kept : h'.running ≡ h.running

  Goes-Posts :
      (h : NodeHandler K A C) (id : ResourceId) (c : WakerCommand K A C) (h' : NodeHandler K A C)
      → Goes h id c h'
      → Posts h h'
  Goes-Posts h id c h' goes = rw (goes.result) record {
    as_many = length-set h.workers _ _;
    master_kept = refl;
    count_kept = refl;
    local_kept = refl;
    running_kept = refl;
  }

  Posts-trans : (h h1 h2 : NodeHandler K A C) → Posts h h1 → Posts h1 h2 → Posts h h2
  Posts-trans h h1 h2 p q = record {
    as_many = q.as_many ∙ p.as_many;
    master_kept = q.master_kept ∙ p.master_kept;
    count_kept = q.count_kept ∙ p.count_kept;
    local_kept = q.local_kept ∙ p.local_kept;
    running_kept = q.running_kept ∙ p.running_kept;
  }

  Posts-refl : (h : NodeHandler K A C) → Posts h h
  Posts-refl h = record {
    as_many = refl;
    master_kept = refl;
    count_kept = refl;
    local_kept = refl;
    running_kept = refl;
  }

  pub post_one-QueuesHold :
      (T : ℕ → WakerCommand K A C → Type 0) (h : NodeHandler K A C) (id : ResourceId)
      (c : WakerCommand K A C) (h' : NodeHandler K A C)
      → post h id c ≡ some h'
      → T (worker_of (length h.workers) id) c
      → QueuesHold T h
      → Posts h h' × QueuesHold T h'
  post_one-QueuesHold T h id c h' e one all =
      let goes = post-Goes h id c h' e in
      (Goes-Posts h id c h' goes, post-QueuesHold T h id c h' goes one all)

  -- Posts that T allows the workers of their ids leave queues that it allows.
  pub post_all-QueuesHold :
      (T : ℕ → WakerCommand K A C → Type 0) (n : ℕ) (h : NodeHandler K A C)
      (posts : List (ResourceId × WakerCommand K A C)) (h' : NodeHandler K A C)
      → length h.workers ≡ n
      → post_all h posts ≡ some h'
      → All (λ (id, c). T (worker_of n id) c) posts
      → QueuesHold T h
      → Posts h h' × QueuesHold T h'
  unfolding post_all
  post_all-QueuesHold T n h [] h' many e _ all =
      subst (λ k. Posts h k × QueuesHold T k) (some-inj h h' e) (Posts-refl h, all)
  post_all-QueuesHold T n h ((id, c) ∷ posts) h' many e (one, ones) all =
      elim (Option-cases (post h id c)) [
        | inl gone ↦
            absurd (some_not_none h' (sym e ∙ ap (λ o. bind o (λ k. post_all k posts)) gone))
        | inr (h1, posted) ↦
            let (kept, all1) =
              post_one-QueuesHold T h id c h1 posted
                (subst (λ k. T (worker_of k id) c) (sym many) one) all in
            let rest : post_all h1 posts ≡ some h' =
              sym (ap (λ o. bind o (λ k. post_all k posts)) posted) ∙ e in
            let (kept', all') =
              post_all-QueuesHold T n h1 posts h' (kept.as_many ∙ many) rest ones all1 in
            (Posts-trans h h1 h' kept kept', all')
      ]

  -- Taking the first command of a queue.
  pub taken-QueuesHold :
      (T : ℕ → WakerCommand K A C → Type 0) (h : NodeHandler K A C) (i : ℕ) (c : WakerCommand K A C)
      (queue : List (WakerCommand K A C))
      → get_elem? h.workers i ≡ some (c ∷ queue)
      → QueuesHold T h
      → T i c × QueuesHold T (record h { workers = set h.workers i queue })
  taken-QueuesHold T h i c queue e all =
      let (one, rest) = all i (c ∷ queue) e in
      (
        one,
        λ j q there. elim (set_inv h.workers i queue j q there) [
          | inl (same, new) ↦
              subst (λ x. All (T j) x) new (subst (λ k. All (T k) queue) (sym same) rest)
          | inr (_, old) ↦ all j q old
        ],
      )
