-- ===== src/Engine/Waiting.antt =====
-- How many connections and registrations wait in the queues of a node for one id, and how many times
-- the id was issued.
use message_io.Prelude.{
  ℕ, zero, suc, ◌+◌, ◌≤◌, ◌≡◌, ◌≢◌, refl, sym, ap, ◌∙◌, arith, ◌⊎◌, inl, inr, Option, none, some,
  List, [], ◌∷◌, ◌++◌, get_elem?, set, All, Option-cases, ◌==◌, if◌then◌else◌,
}
use message_io.Network.ResourceId.{ResourceId}
use message_io.Network.ResourceId.Generator.{AllDistinct}
use message_io.Network.Registry.Coherence.{eq_or_ne}
use message_io.Network.Messages.{
  WakerCommand, accept_register_remote, connect_register_remote, connect,
}
use message_io.Network.Worker.{bind}
use message_io.Node.{NodeHandler, post, post_to_master}
use message_io.Engine.{post_all, accepted_ids}
use message_io.Engine.Threads.{Thread, master, worker, queue_of, set_queue}
use message_io.Engine.Handled.{Registers, connect_ids}
use message_io.Engine.Queues.{some-inj, post-Goes}

-- How many times the number of an id is in a list.
abbrev pub occurs : ℕ → List ResourceId → ℕ
occurs k [] = 0
occurs k (id ∷ ids) = (if id.id == k then 1 else 0) + occurs k ids

pub occurs-append :
    (k : ℕ) (xs ys : List ResourceId) → occurs k (xs ++ ys) ≡ occurs k xs + occurs k ys
occurs-append k [] ys = omega arith
occurs-append k (x ∷ xs) ys = omega (arith, occurs-append k xs ys)

no_more :
    (k : ℕ) (r : ResourceId) (rs : List ResourceId)
    → r.id ≡ k
    → All (λ s. r ≢ s) rs
    → occurs k rs ≡ 0
no_more k r [] e _ = refl
no_more k r (s ∷ rs) e (other, others) =
    let apart : s.id ≢ k = λ same. other (ap (λ x. record { id = x }) (e ∙ sym same)) in
    ground (arith, no_more k r rs e others)

-- Among ids that differ from one another, none is there twice.
pub occurs-AllDistinct : (k : ℕ) (ids : List ResourceId) → AllDistinct ids → occurs k ids ≤ 1
occurs-AllDistinct k [] _ = omega arith
occurs-AllDistinct k (r ∷ rs) (others, rest) = elim (eq_or_ne r.id k) [
  | inl e ↦ ground (arith, no_more k r rs e others)
  | inr other ↦ ground (arith, occurs-AllDistinct k rs rest)
]

no_result : {B : Type 0} {b : B} → ◌≢◌ {A = Option B} (some b) none
no_result e = cc

module _ {K A C : Type 0} where
  -- The command makes a remote of this number: it connects or registers.
  abbrev pub weight : ℕ → WakerCommand K A C → ℕ
  weight k (accept_register_remote _ (id, _) _ _) = occurs k (id ∷ [])
  weight k (connect_register_remote _ (id, _) _ _ _) = occurs k (id ∷ [])
  weight k (connect _ id _ _) = occurs k (id ∷ [])
  weight k _ = 0

  abbrev pub weights : ℕ → List (WakerCommand K A C) → ℕ
  weights k [] = 0
  weights k (c ∷ queue) = weight k c + weights k queue

  abbrev pub all_weights : ℕ → List (List (WakerCommand K A C)) → ℕ
  all_weights k [] = 0
  all_weights k (queue ∷ queues) = weights k queue + all_weights k queues

  -- The commands for a number in all queues.
  unfoldable pub waiting : ℕ → NodeHandler K A C → ℕ
  waiting k h = weights k h.master + all_weights k h.workers

  abbrev post_weights : ℕ → List (ResourceId × WakerCommand K A C) → ℕ
  post_weights k [] = 0
  post_weights k ((_, c) ∷ posts) = weight k c + post_weights k posts

  weights-snoc :
      (k : ℕ) (queue : List (WakerCommand K A C)) (c : WakerCommand K A C)
      → weights k (queue ++ c ∷ []) ≡ weights k queue + weight k c
  weights-snoc k [] c = omega arith
  weights-snoc k (x ∷ queue) c = omega (arith, weights-snoc k queue c)

  all_weights-set :
      (k : ℕ) (queues : List (List (WakerCommand K A C))) (i : ℕ)
      (queue new : List (WakerCommand K A C))
      → get_elem? queues i ≡ some queue
      → all_weights k (set queues i new) + weights k queue ≡ all_weights k queues + weights k new
  all_weights-set k [] i queue new e = absurd cc
  all_weights-set k (q ∷ queues) zero queue new e =
      omega (arith, ap (λ x. weights k x) (some-inj q queue e))
  all_weights-set k (q ∷ queues) (suc i) queue new e =
      omega (arith, all_weights-set k queues i queue new e)

  pub post-waiting :
      (k : ℕ) (h : NodeHandler K A C) (id : ResourceId) (c : WakerCommand K A C)
      (h' : NodeHandler K A C)
      → post h id c ≡ some h'
      → waiting k h' ≡ waiting k h + weight k c
  unfolding waiting
  post-waiting k h id c h' e =
      let goes = post-Goes h id c h' e in
      rw (goes.result) (
        omega (
          arith,
          all_weights-set k h.workers _ goes.queue (goes.queue ++ c ∷ []) goes.there,
          weights-snoc k goes.queue c,
        ))

  post_all-waiting :
      (k : ℕ) (h : NodeHandler K A C) (posts : List (ResourceId × WakerCommand K A C))
      (h' : NodeHandler K A C)
      → post_all h posts ≡ some h'
      → waiting k h' ≡ waiting k h + post_weights k posts
  unfolding post_all
  post_all-waiting k h [] h' e = omega (arith, ap (λ x. waiting k x) (some-inj h h' e))
  post_all-waiting k h ((id, c) ∷ posts) h' e = elim (Option-cases (post h id c)) [
    | inl gone ↦ absurd (no_result (sym e ∙ ap (λ o. bind o (λ g. post_all g posts)) gone))
    | inr (h1, posted) ↦
        let rest : post_all h1 posts ≡ some h' =
          sym (ap (λ o. bind o (λ g. post_all g posts)) posted) ∙ e in
        omega (arith, post-waiting k h id c h1 posted, post_all-waiting k h1 posts h' rest)
  ]

  one_weight :
      (k : ℕ) (id : ResourceId) (c : WakerCommand K A C)
      (posts : List (ResourceId × WakerCommand K A C))
      → Registers id c
      → post_weights k posts ≡ occurs k (accepted_ids posts) + occurs k (connect_ids posts)
      → post_weights k ((id, c) ∷ posts)
        ≡ occurs k (accepted_ids ((id, c) ∷ posts)) + occurs k (connect_ids ((id, c) ∷ posts))
  unfolding accepted_ids connect_ids
  one_weight k id _ posts (Registers.by_accept _ _ _ _) e = omega (arith, e)
  one_weight k id _ posts (Registers.by_connect _ _ _ _ _) e = omega (arith, e)

  -- Posts of registrations are those of accepted connections and those that are handed on.
  posts-occurs :
      (k : ℕ) (posts : List (ResourceId × WakerCommand K A C))
      → All (λ (id, c). Registers id c) posts
      → post_weights k posts ≡ occurs k (accepted_ids posts) + occurs k (connect_ids posts)
  unfolding accepted_ids connect_ids
  posts-occurs k [] rs = refl
  posts-occurs k ((id, c) ∷ posts) (r, rs) = one_weight k id c posts r (posts-occurs k posts rs)

  pub registrations-waiting :
      (k : ℕ) (h : NodeHandler K A C) (posts : List (ResourceId × WakerCommand K A C))
      (h' : NodeHandler K A C) (asked : List ResourceId)
      → post_all h posts ≡ some h'
      → All (λ (id, c). Registers id c) posts
      → (connect_ids posts ≡ []) ⊎ (connect_ids posts ≡ asked)
      → waiting k h' ≤ waiting k h + occurs k (accepted_ids posts) + occurs k asked
  registrations-waiting k h posts h' asked e rs connects = elim connects [
    | inl handed_none ↦ omega (
      arith,
      post_all-waiting k h posts h' e,
      posts-occurs k posts rs,
      ap (λ ids. occurs k ids) handed_none,
    )
    | inr as_asked ↦ omega (
      arith,
      post_all-waiting k h posts h' e,
      posts-occurs k posts rs,
      ap (λ ids. occurs k ids) as_asked,
    )
  ]

  pub taken-waiting :
      (k : ℕ) (h : NodeHandler K A C) (t : Thread) (c : WakerCommand K A C)
      (queue : List (WakerCommand K A C))
      → queue_of h t ≡ some (c ∷ queue)
      → waiting k (set_queue h t queue) + weight k c ≡ waiting k h
  unfolding waiting queue_of set_queue
  taken-waiting k h master c queue e =
      omega (arith, ap (λ x. weights k x) (some-inj h.master (c ∷ queue) e))
  taken-waiting k h (worker i) c queue e =
      omega (arith, all_weights-set k h.workers i (c ∷ queue) queue e)

  pub master-waiting :
      (k : ℕ) (h : NodeHandler K A C) (c : WakerCommand K A C)
      → waiting k (post_to_master h c) ≡ waiting k h + weight k c
  unfolding waiting post_to_master
  master-waiting k h c = omega (arith, weights-snoc k h.master c)
