-- ===== src/Node/Routing.antt =====
-- Where a post goes.
use message_io.Prelude.{
  ℕ, zero, suc, ◌%◌, ◌<◌, ◌≡◌, ◌≢◌, refl, sym, ap, ◌∙◌, arith, Option, some, List, [], ◌∷◌, ◌++◌,
  length, get_elem?, set, length-set, get_elem?-set_self, get_elem?-set_ne, append_assoc,
}
use message_io.Network.ResourceId.{ResourceId, remote, resource_type, raw}
use message_io.Network.Messages.{Endpoint, WakerCommand, send, close}
use message_io.Network.Worker.{bind}
use message_io.Node.{NodeHandler, to_worker_index, post, send_to_endpoint, close_resource}

-- The worker of an id among n.
abbrev pub worker_of : ℕ → ResourceId → ℕ
worker_of zero id = 0
worker_of (suc n) id = raw id % suc n

-- The queue of the worker of an id got commands, and nothing else changed.
pub record Posted {K A C : Type 0} (h h' : NodeHandler K A C) (id : ResourceId)
    (commands : List (WakerCommand K A C)) : Type 0 where
  pub queued :
      (queue : List (WakerCommand K A C)) × (get_elem? h.workers (worker_of (length h.workers) id)
        ≡ some queue)
      × (get_elem? h'.workers (worker_of (length h.workers) id) ≡ some (queue ++ commands))
  pub others :
      (j : ℕ) → worker_of (length h.workers) id ≢ j → get_elem? h'.workers j ≡ get_elem? h.workers j
  pub as_many : length h'.workers ≡ length h.workers
  pub master_kept : h'.master ≡ h.master

at : {P : Type 0} (ps : List P) (i : ℕ) → i < length ps → (p : P) × (get_elem? ps i ≡ some p)
at [] i h = absurd (omega arith)
at (p ∷ ps) zero h = (p, refl)
at (p ∷ ps) (suc i) h = at ps i (omega arith)

index_of : (n : ℕ) (id : ResourceId) → 0 < n → to_worker_index n id ≡ some (worker_of n id)
unfolding to_worker_index
index_of zero id h = absurd (omega arith)
index_of (suc n) id h = refl

worker_of-lt : (n : ℕ) (id : ResourceId) → 0 < n → worker_of n id < n
worker_of-lt zero id h = absurd (omega arith)
worker_of-lt (suc n) id h = omega arith

some-inj : {A : Type 0} {a b : A} → ◌≡◌ {A = Option A} (some a) (some b) → a ≡ b
some-inj e = cc

module _ {K A C : Type 0} where
  pub post-Posted :
      (h : NodeHandler K A C) (id : ResourceId) (c : WakerCommand K A C)
      → 0 < length h.workers
      → (h' : NodeHandler K A C) × (post h id c ≡ some h') × Posted h h' id (c ∷ [])
  unfolding post
  post-Posted h id c some_worker =
      let n = length h.workers in
      let i = worker_of n id in
      let i_lt : i < n = worker_of-lt n id some_worker in
      let (queue, found) = at h.workers i i_lt in
      let h' : NodeHandler K A C = record h { workers = set h.workers i (queue ++ c ∷ []) } in
      (
        h',
        rw (index_of n id some_worker, post, found) refl,
        record {
          queued = (queue, found, get_elem?-set_self h.workers i (queue ++ c ∷ []) i_lt);
          others = λ j other. get_elem?-set_ne h.workers (queue ++ c ∷ []) other;
          as_many = length-set h.workers i (queue ++ c ∷ []);
          master_kept = refl;
        },
      )

  -- Two posts for one id stand in one queue in the order in which they were made.
  pub Posted-twice :
      (h1 h2 h3 : NodeHandler K A C) (id : ResourceId) (a b : WakerCommand K A C)
      → Posted h1 h2 id (a ∷ [])
      → Posted h2 h3 id (b ∷ [])
      → Posted h1 h3 id (a ∷ b ∷ [])
  Posted-twice h1 h2 h3 id a b first second =
      let i = worker_of (length h1.workers) id in
      let same : worker_of (length h2.workers) id ≡ i = ap (λ n. worker_of n id) first.as_many in
      let (queue, before, between) = first.queued in
      let (queue', between', after) = second.queued in
      let queues : queue' ≡ queue ++ a ∷ [] =
        some-inj (sym between' ∙ ap (λ j. get_elem? h2.workers j) same ∙ between) in
      record {
        queued = (
          queue,
          before,
          ap (λ j. get_elem? h3.workers j) (sym same)
              ∙ after
              ∙ ap (λ q. some (q ++ b ∷ [])) queues
              ∙ ap some (append_assoc queue (a ∷ []) (b ∷ [])),
        );
        others = λ j other. second.others j (λ e. other (sym same ∙ e)) ∙ first.others j other;
        as_many = second.as_many ∙ first.as_many;
        master_kept = second.master_kept ∙ first.master_kept;
      }

  -- With a worker at least, a send to a remote endpoint and then a close of its id both return. They
  -- stand in that order in the queue of one worker, and the other queues are as they were.
  pub send-close :
      (h : NodeHandler K A C) (endpoint : Endpoint) (bytes : List ℕ)
      → 0 < length h.workers
      → resource_type endpoint.resource_id ≡ remote
      → (h' : NodeHandler K A C) × (bind
            (send_to_endpoint h endpoint bytes)
            (λ k. close_resource k endpoint.resource_id)
          ≡ some h')
        × Posted h h' endpoint.resource_id (send endpoint bytes ∷ close endpoint.resource_id ∷ [])
  unfolding send_to_endpoint close_resource
  send-close h endpoint bytes some_worker is_remote =
      let id = endpoint.resource_id in
      let (h2, sent, first) = post-Posted h id (send endpoint bytes) some_worker in
      let (h3, closed, second) = post-Posted h2 id (close id) (rw (first.as_many) some_worker) in
      (
        h3,
        rw (sent, is_remote, close_resource, closed) refl,
        Posted-twice h h2 h3 id (send endpoint bytes) (close id) first second,
      )
