-- ===== src/Engine/Counted.antt =====
-- The ids that all drivers of a node and its user take from one generator
-- (src/network/resource_id.rs), and the payloads of the registrations that wait for them.
use message_io.Prelude.{
  ℕ, suc, ◌+◌, ◌^◌, ◌≤◌, ◌<◌, ◌≡◌, refl, sym, ap, ◌∙◌, arith, List, [], ◌∷◌, ◌++◌, length, All,
  All-weaken, length-append,
}
use mathlib.Core.Path.{subst}
use message_io.Network.ResourceId.{
  ResourceId, ResourceIdGenerator, new_generator, remote, adapter_id, generate, generate_all,
  max_adapter_id, max_base_value,
}
use message_io.Network.ResourceId.Generator.{AllDistinct, AreAdapters, generate_all-AllDistinct}
use message_io.Network.Messages.{WakerCommand, accept_register_remote, connect_register_remote}
use message_io.Node.{NodeHandler}
use message_io.Engine.{Shared}
use message_io.Engine.Handled.{Registers, counted}
use message_io.Engine.Queues.{QueuesHold, post_all-QueuesHold}
use message_io.Engine.Sharing.{Worked}

pub generate_all-append :
    (g : ResourceIdGenerator) (as' bs : List ℕ)
    → generate_all g (as' ++ bs) ≡ generate_all g as' ++ generate_all (counted g as') bs
unfolding generate_all
generate_all-append g [] bs = refl
generate_all-append g (a ∷ as') bs =
    ap (λ ids. (generate g a).1 ∷ ids) (generate_all-append (generate g a).0 as' bs)

pub counted-append :
    (g : ResourceIdGenerator) (as' bs : List ℕ) → counted g (as' ++ bs) ≡ counted (counted g as') bs
counted-append g [] bs = refl
counted-append g (a ∷ as') bs = counted-append (generate g a).0 as' bs

length-generate_all :
    (g : ResourceIdGenerator) (as' : List ℕ) → length (generate_all g as') ≡ length as'
unfolding generate_all
length-generate_all g [] = refl
length-generate_all g (a ∷ as') = ap suc (length-generate_all (generate g a).0 as')

counted-last :
    (g : ResourceIdGenerator) (as' : List ℕ)
    → g.last + length as' < 2 ^ 64
    → (counted g as').last ≡ g.last + length as'
unfolding generate
counted-last g [] h = omega arith
counted-last g (a ∷ as') h =
    let next : (generate g a).0.last ≡ g.last + 1 = omega arith in
    omega (arith, next, counted-last (generate g a).0 as' (omega (arith, next)))

pub AreAdapters-append :
    (as' bs : List ℕ) → AreAdapters as' → AreAdapters bs → AreAdapters (as' ++ bs)
AreAdapters-append [] bs _ h = h
AreAdapters-append (a ∷ as') bs (one, h) h' = (one, AreAdapters-append as' bs h h')

module _ {K A C : Type 0} (Fits : ℕ → WakerCommand K A C → Type 0) where
  -- A registration has a payload that fits the adapter of its id.
  abbrev pub Suits : WakerCommand K A C → Type 0
  Suits (accept_register_remote l (id, addr) stream payload) =
      Fits (adapter_id id) (accept_register_remote l (id, addr) stream payload)
  Suits (connect_register_remote l (id, addr) stream payload cb) =
      Fits (adapter_id id) (connect_register_remote l (id, addr) stream payload cb)
  Suits _ = Unit

  Registers-Suits :
      (a : ℕ) (id : ResourceId) (c : WakerCommand K A C)
      → Registers id c
      → adapter_id id ≡ a
      → Fits a c
      → Suits c
  Registers-Suits a id _ (Registers.by_accept l addr stream payload) e fit =
      subst (λ b. Fits b (accept_register_remote l (id, addr) stream payload)) (sym e) fit
  Registers-Suits a id _ (Registers.by_connect l addr stream payload cb) e fit =
      subst (λ b. Fits b (connect_register_remote l (id, addr) stream payload cb)) (sym e) fit

  posts-Suits :
      (a : ℕ) (posts : List (ResourceId × WakerCommand K A C))
      → All (λ (id, c). Registers id c) posts
      → All (λ (id, c). adapter_id id ≡ a) posts
      → All (λ (id, c). Fits a c) posts
      → All (λ (id, c). Suits c) posts
  posts-Suits a [] _ _ _ = tt
  posts-Suits a ((id, c) ∷ posts) (r, rs) (e, es) (f, fs) =
      (Registers-Suits a id c r e f, posts-Suits a posts rs es fs)

-- The ids that were issued are those of the shared generator from its start, for valid adapters; and
-- as long as they are within the base values, every registration that waits suits its id.
pub record Counted {S K A C : Type 0} (Fits : ℕ → WakerCommand K A C → Type 0) (s : Shared S K A C)
    : Type 0 where
  pub adapters : List ℕ
  pub valid : AreAdapters adapters
  pub count : s.handler.remote_id_generator ≡ counted (new_generator remote) adapters
  pub all_issued : s.issued ≡ generate_all (new_generator remote) adapters
  pub suited : length s.issued ≤ max_base_value → QueuesHold (λ i c. Suits Fits c) s.handler

pub everywhere_tt : {B : Type 0} (xs : List B) → All (λ _. Unit {0}) xs
everywhere_tt [] = tt
everywhere_tt (x ∷ xs) = (tt, everywhere_tt xs)

module _ {S K A C : Type 0} (Fits : ℕ → WakerCommand K A C → Type 0) where
  -- The ids that a node has issued differ from one another, within the base values.
  pub Counted-AllDistinct :
      (s : Shared S K A C)
      → Counted Fits s
      → length s.issued ≤ max_base_value
      → AllDistinct s.issued
  unfolding new_generator
  Counted-AllDistinct s c within =
      let many =
        ap (λ ids. length ids) c.all_issued
        ∙ length-generate_all (new_generator remote) c.adapters in
      subst AllDistinct (sym c.all_issued)
        (generate_all-AllDistinct (new_generator remote) c.adapters c.valid (omega arith))

  -- A call of a processor.
  pub Worked-Counted :
      {P : Type 0} (Keeps : P → P → Type 0) (asked : List ResourceId) (a : ℕ)
      (s s' : Shared S K A C) (p p' : P)
      → a ≤ max_adapter_id
      → Counted Fits s
      → Worked Keeps (Fits a) asked a s p s' p'
      → Counted Fits s'
  unfolding new_generator
  Worked-Counted Keeps asked a s s' p p' valid c w =
      let g0 = new_generator remote in
      let h1 : NodeHandler K A C = record s.handler {
        remote_id_generator = counted s.handler.remote_id_generator w.adapters;
      } in
      let issued : s'.issued ≡ generate_all g0 (c.adapters ++ w.adapters) =
        w.issued
        ∙ ap (λ g. s.issued ++ generate_all g w.adapters) c.count
        ∙ ap (λ ids. ids ++ generate_all (counted g0 c.adapters) w.adapters) c.all_issued
        ∙ sym (generate_all-append g0 c.adapters w.adapters) in
      let (posted, _) =
        post_all-QueuesHold (λ _ _. Unit) (length h1.workers) h1 w.posts s'.handler refl w.delivered
          (All-weaken w.posts (λ _ _. tt) w.own) (λ _ queue _. everywhere_tt queue) in
      record {
        adapters = c.adapters ++ w.adapters;
        valid =
            AreAdapters-append c.adapters w.adapters c.valid
              (All-weaken w.adapters (λ b e. rw e valid) w.of_adapter);
        count =
            posted.count_kept
            ∙ ap (λ g. counted g w.adapters) c.count
            ∙ sym (counted-append g0 c.adapters w.adapters);
        all_issued = issued;
        suited = λ within.
            let many : length s'.issued ≡ length c.adapters + length w.adapters =
              ap (λ ids. length ids) issued
              ∙ length-generate_all g0 (c.adapters ++ w.adapters)
              ∙ length-append c.adapters w.adapters in
            let before : length s.issued ≡ length c.adapters =
              ap (λ ids. length ids) c.all_issued ∙ length-generate_all g0 c.adapters in
            let last : s.handler.remote_id_generator.last ≡ 1 + length c.adapters =
              ap (λ g. g.last) c.count ∙ counted-last g0 c.adapters (omega arith) in
            (post_all-QueuesHold (λ i c. Suits Fits c) (length h1.workers) h1 w.posts s'.handler
              refl w.delivered (posts-Suits Fits a w.posts w.registers (w.fits (omega arith)) w.own)
              (c.suited (omega arith))).1;
      }
