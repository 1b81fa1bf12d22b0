-- ===== src/Network/Worker/Range.antt =====
-- Where the processor of an id stands in the list.
use message_io.Prelude.{
  ℕ, zero, suc, ◌<◌, ◌≡◌, refl, ◌∙◌, arith, Option, some, List, [], ◌∷◌, get_elem?, set, length,
  map, length-set,
}
use message_io.Network.ResourceId.Fields.{adapter_id-lt}
use message_io.Network.ResourceId.{ResourceId, adapter_id, max_adapters}
use message_io.Network.Worker.{EventProcessor, Output, bind, with_processor}

at : {P : Type 0} (ps : List P) (i : ℕ) → i < length ps → (p : P) × (get_elem? ps i ≡ some p)
at [] i h = absurd (omega arith)
at (p ∷ ps) zero h = (p, refl)
at (p ∷ ps) (suc i) h = at ps i (omega arith)

module _ {W P K A C : Type 0} (drivers : EventProcessor W P K A C) where
  -- In a list of as many processors as there are adapter ids, every id has its processor: the call
  -- is the driver's on that processor, and leaves a list as long.
  pub with_processor-found :
      (ps : List P) (r : ResourceId)
      → length ps ≡ max_adapters
      → (p : P) × (get_elem? ps (adapter_id r) ≡ some p)
        × ((O : Type 0) (output : O → Output K A C) (f : P → Option (W × P × List O))
            → with_processor drivers {O = O} output ps (adapter_id r) f
              ≡ bind (f p) (λ (w, p', os). some (w, set ps (adapter_id r) p', map output os)))
        × ((p' : P) → length (set ps (adapter_id r) p') ≡ max_adapters)
  unfolding with_processor
  with_processor-found ps r full =
      let (p, found) = at ps (adapter_id r) (rw full (adapter_id-lt r)) in
      (
        p,
        found,
        λ O output f. rw (found, with_processor) refl,
        λ p'. length-set ps (adapter_id r) p' ∙ full,
      )
