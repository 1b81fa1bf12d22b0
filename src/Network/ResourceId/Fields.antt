-- ===== src/Network/ResourceId/Fields.antt =====
-- The three fields packed into a `ResourceId`, and its poll token.
use message_io.Prelude.{
  ℕ, ◌+◌, ◌-◌, ◌*◌, ◌/◌, ◌%◌, ◌^◌, ◌≤◌, ◌<◌, ◌≡◌, ◌≢◌, refl, ap, sym, ◌∙◌, arith, bit_and, bit_or,
}
use message_io.Prelude.Bits.{
  bit_and_split, bit_or_split, bit_and-ones, bit_and-zero, bit_or-zero, zero-bit_or, low_7, top_bit,
  agree→eq,
}
use message_io.Network.ResourceId.{
  ResourceId, ResourceType, local, remote, type_bit, max_adapter_id, max_adapters, max_base_value,
  new, resource_type, adapter_id, base_value, from_token, to_token,
}

-- The bit of the type, as part of the eight bits above the base value.
abbrev high : ResourceType → ℕ → ℕ
high local a = 128 + a
high remote a = a

high_lt : (k : ResourceType) (a : ℕ) → a ≤ 127 → high k a < 256
high_lt k a h = ground arith

or_128 : (a : ℕ) → a < 128 → bit_or 128 a ≡ 128 + a
or_128 a = agree→eq (λ x. bit_or 128 x) (λ x. 128 + x) 128 a refl

shifted : (a : ℕ) → a ≤ 127 → a * 2 ^ 48 % 2 ^ 64 ≡ a * 2 ^ 48 + 0
shifted a h = omega arith

or_type_bit :
    (k : ResourceType) (a : ℕ)
    → a ≤ 127
    → bit_or (type_bit k) (a * 2 ^ 48 % 2 ^ 64) ≡ high k a * 2 ^ 48 + 0
or_type_bit local a h =
    rw (shifted a h)
      (omega (arith, bit_or_split 48 128 a 0 0 (omega arith) (omega arith), or_128 a))
or_type_bit remote a h = rw (shifted a h) (zero-bit_or (a * 2 ^ 48 + 0))

-- The number that `new` packs.
pub new_packed :
    (a b : ℕ) (k : ResourceType)
    → a ≤ max_adapter_id
    → b ≤ max_base_value
    → (new a k b).id ≡ high k a * 2 ^ 48 + b
unfolding new
new_packed a b k ha hb =
    let low : b * 1 % 2 ^ 64 ≡ 0 * 2 ^ 48 + b = omega arith in
    rw (or_type_bit k a ha, low)
      (omega (
        arith,
        bit_or_split 48 (high k a) 0 0 b (omega arith) (omega arith),
        bit_or-zero (high k a),
        zero-bit_or b,
      ))

-- A mask that lies above the base value.
and_above :
    (q m b : ℕ) → b < 2 ^ 48 → bit_and (q * 2 ^ 48 + b) (m * 2 ^ 48 + 0) ≡ bit_and q m * 2 ^ 48
and_above q m b h = omega (arith, bit_and_split 48 q m b 0 h (omega arith), bit_and-zero b)

and_below : (q b : ℕ) → b < 2 ^ 48 → bit_and (q * 2 ^ 48 + b) (0 * 2 ^ 48 + (2 ^ 48 - 1)) ≡ b
and_below q b h = omega (
  arith,
  bit_and_split 48 q 0 b (2 ^ 48 - 1) h (omega arith),
  bit_and-zero q,
  bit_and-ones 48 b h,
)

-- The low seven bits of any number.
and_127 : (x : ℕ) → bit_and x 127 ≤ 127
and_127 x =
    let e : x / 128 * 2 ^ 7 + x % 128 ≡ x = omega arith in
    let small : x % 128 < 2 ^ 7 = omega arith in
    rw (sym e) (
      omega (
        arith,
        bit_and_split 7 (x / 128) 0 (x % 128) 127 small (omega arith),
        bit_and-zero (x / 128),
        bit_and-ones 7 (x % 128) small,
      ))

-- An adapter id has seven bits, whatever the id is.
pub adapter_id-lt : (r : ResourceId) → adapter_id r < max_adapters
unfolding adapter_id
adapter_id-lt r =
    let e : r.id / 2 ^ 48 * 2 ^ 48 + r.id % 2 ^ 48 ≡ r.id = omega arith in
    let small : r.id % 2 ^ 48 < 2 ^ 48 = omega arith in
    let packed : bit_and r.id (127 * 2 ^ 48 + 0) ≡ bit_and (r.id / 2 ^ 48) 127 * 2 ^ 48 =
      ap (λ n. bit_and n (127 * 2 ^ 48 + 0)) (sym e)
      ∙ and_above (r.id / 2 ^ 48) 127 (r.id % 2 ^ 48) small in
    omega (arith, packed, and_127 (r.id / 2 ^ 48))

or_marker : (x : ℕ) → x < 2 ^ 56 → bit_or x (0x55 * 2 ^ 56) ≡ 0x55 * 2 ^ 56 + x
or_marker x h = ground (arith, bit_or_split 56 0 0x55 x 0 h (omega arith), bit_or-zero x)

to_token_packed : (r : ResourceId) → r.id < 2 ^ 56 → to_token r ≡ 0x55 * 2 ^ 56 + r.id
unfolding to_token
to_token_packed r h = rw (bit_and-ones 56 r.id h) (or_marker r.id h)

from_token_packed : (x : ℕ) → x < 2 ^ 56 → from_token (0x55 * 2 ^ 56 + x) ≡ record { id = x }
unfolding from_token
from_token_packed x h =
    ap (λ n. record { id = n })
      (omega (arith, bit_and_split 56 0x55 0 x (2 ^ 56 - 1) h (omega arith), bit_and-ones 56 x h))

new-lt :
    (a b : ℕ) (k : ResourceType) → a ≤ max_adapter_id → b ≤ max_base_value → (new a k b).id < 2 ^ 56
new-lt a b k ha hb = rw (new_packed a b k ha hb) (omega (arith, high_lt k a ha))

module _ (a b : ℕ) (k : ResourceType) (ha : a ≤ max_adapter_id) (hb : b ≤ max_base_value) where
  type_field : resource_type (new a k b) ≡ k
  unfolding resource_type
  type_field = rw (new_packed a b k ha hb) (
      rw (and_above (high k a) 128 b (omega arith), top_bit (high k a) (high_lt k a ha))
        (ground arith))

  adapter_field : adapter_id (new a k b) ≡ a
  unfolding adapter_id
  adapter_field = rw (new_packed a b k ha hb) (
      rw (and_above (high k a) 127 b (omega arith), low_7 (high k a) (high_lt k a ha))
        (ground arith))

  base_field : base_value (new a k b) ≡ b
  unfolding base_value
  base_field = rw (new_packed a b k ha hb) (rw (and_below (high k a) b (omega arith)) (omega arith))

  -- An id gives back the adapter id, the type and the base value that it was made from, for an
  -- adapter id and a base value within the bounds that the source asserts.
  pub new_fields :
      (adapter_id (new a k b) ≡ a) × (resource_type (new a k b) ≡ k) × (base_value (new a k b) ≡ b)
  new_fields = (adapter_field, type_field, base_field)

  -- An id within the bounds survives the trip through its poll token, and no such token is the
  -- waker's, which is 0.
  pub from_token-to_token :
      (from_token (to_token (new a k b)) ≡ new a k b) × (to_token (new a k b) ≢ 0)
  from_token-to_token =
      let small : (new a k b).id < 2 ^ 56 = new-lt a b k ha hb in
      rw (to_token_packed (new a k b) small) (from_token_packed (new a k b).id small, omega arith)
