-- ===== src/Network/ResourceId/Generator.antt =====
-- The ids that one generator hands out, compared with one another.
use message_io.Prelude.{
  ℕ, suc, ◌+◌, ◌≤◌, ◌<◌, ◌≡◌, ◌≢◌, ap, arith, List, [], ◌∷◌, length, All, All-weaken,
}
use message_io.Network.ResourceId.{
  ResourceId, ResourceIdGenerator, new, base_value, max_adapter_id, max_base_value, generate,
  generate_all,
}
use message_io.Network.ResourceId.Fields.{new_fields}

-- Every two ids of the list differ.
abbrev pub AllDistinct : List ResourceId → Type 0
AllDistinct [] = Unit
AllDistinct (r ∷ rs) = All (λ s. r ≢ s) rs × AllDistinct rs

abbrev pub AreAdapters : List ℕ → Type 0
AreAdapters = All (λ a. a ≤ max_adapter_id)

-- All later base values are larger.
generate_all_above :
    (g : ResourceIdGenerator) (as' : List ℕ) (n : ℕ)
    → AreAdapters as'
    → g.last + length as' ≤ suc max_base_value
    → n < g.last
    → All (λ s. n < base_value s) (generate_all g as')
unfolding generate_all
generate_all_above g [] n ha h lt = tt
generate_all_above g (a ∷ as') n (ha, has) h lt =
    let same : base_value (new a g.kind g.last) ≡ g.last =
      (new_fields a g.last g.kind ha (omega arith)).2 in
    (omega arith, generate_all_above (generate g a).0 as' n has (omega arith) (omega arith))

-- The ids that one generator makes differ from one another, for adapter ids within the bound and
-- as long as the counter stays within the base values.
pub generate_all-AllDistinct :
    (g : ResourceIdGenerator) (as' : List ℕ)
    → AreAdapters as'
    → g.last + length as' ≤ suc max_base_value
    → AllDistinct (generate_all g as')
unfolding generate_all
generate_all-AllDistinct g [] ha h = tt
generate_all-AllDistinct g (a ∷ as') (ha, has) h = (
  All-weaken _
      (λ s later e.
        ground (arith, later, ap base_value e, (new_fields a g.last g.kind ha (omega arith)).2))
      (generate_all_above (generate g a).0 as' g.last has (omega arith) (omega arith)),
  generate_all-AllDistinct (generate g a).0 as' has (omega arith),
)
