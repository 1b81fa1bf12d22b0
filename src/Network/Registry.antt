-- ===== src/Network/Registry.antt =====
-- src/network/registry.rs, with `PollRegistry` of src/network/poll.rs. A source is named by a
-- number, its descriptor. A register is dropped when it leaves the map: the other references to it
-- live no longer than the call of the driver that removes it. The calls of mio succeed.
pub mod Coherence
use message_io.Prelude.{ℕ, Bool, true, false, Option, none, some, ◌==◌, if◌then◌else◌}
use message_io.Network.ResourceId.{ResourceId, to_token}

-- A map from numbers, as a function.
abbrev pub update {ℓ} : {A : Type ℓ} → (ℕ → Option A) → ℕ → Option A → ℕ → Option A
update f k v j = if j == k then v else f j

pub record Register (S P : Type 0) : Type 0 where
  pub resource : S
  pub properties : P

-- `resources` by the number of the id; `polled` has for each source that mio watches its token and
-- whether writability is asked for beside readability.
pub record ResourceRegistry (S P : Type 0) : Type 0 where
  pub resources : ℕ → Option (Register S P)
  pub polled : ℕ → Option (ℕ × Bool)

unfoldable pub new_registry : (S P : Type 0) → ResourceRegistry S P
new_registry S P = record { resources = λ _. none; polled = λ _. none }

module _ {S P : Type 0} (source : S → ℕ) where
  -- `PollRegistry::add` and `remove`.
  unfoldable pub poll_add : ResourceRegistry S P → ResourceId → S → Bool → ResourceRegistry S P
  poll_add r id s write_readiness = record r {
    polled = update r.polled (source s) (some (to_token id, write_readiness));
  }

  -- `Drop for Register`.
  unfoldable pub drop_register : ResourceRegistry S P → Option (Register S P) → ResourceRegistry S P
  drop_register r none = r
  drop_register r (some old) = record r { polled = update r.polled (source old.resource) none }

  -- `register`: watched first, then inserted; a register that had the id is dropped.
  unfoldable pub register : ResourceRegistry S P → ResourceId → S → P → Bool → ResourceRegistry S P
  unfolding poll_add drop_register
  register r id s p write_readiness =
      let r' = poll_add r id s write_readiness in
      let reg : Register S P = record { resource = s; properties = p } in
      drop_register (record r' { resources = update r'.resources id.id (some reg) })
        (r'.resources id.id)

  -- `deregister`, and whether there was a register.
  unfoldable pub deregister : ResourceRegistry S P → ResourceId → ResourceRegistry S P × Bool
  unfolding drop_register
  deregister r id = elim (r.resources id.id) [
    | none ↦ (record r { resources = update r.resources id.id none }, false)
    | some old ↦
        (drop_register (record r { resources = update r.resources id.id none }) (some old), true)
  ]

  unfoldable pub get : ResourceRegistry S P → ResourceId → Option (Register S P)
  get r id = r.resources id.id
