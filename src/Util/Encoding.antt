-- ===== src/Util/Encoding.antt =====
-- src/util/encoding.rs: size-prefixed messages over a byte stream. A slice or a vector is the
-- list of its bytes, and the calls of a callback are the list of what it was given, in order.
pub mod Frames
pub mod Loop
pub mod Store
pub mod Stream
pub mod Faults
pub mod Total
mod Leb128
mod Tests
use message_io.Prelude.{
  ℕ, zero, suc, ◌+◌, ◌-◌, ◌≤◌, ◌<◌, ◌^◌, ◌≡◌, ◌⊎◌, Bool, true, false, not, Option, none, some, List,
  [], ◌∷◌, ◌++◌, ltb, leb, length, take, drop, min, if◌then◌else◌,
}

abbrev pub max_encoded_size : ℕ
max_encoded_size = 10

-- The crate `integer_encoding`, at `usize`: the bytes that `encode_var` writes to the front of its
-- buffer, and `decode_var`.
pub record VarInt : Type 0 where
  pub encode_var : ℕ → List ℕ
  pub decode_var : List ℕ → Option (ℕ × ℕ)

-- What the source relies on. A value is read back from the front of a longer input, with the
-- number of bytes that it took; a cut encoding is not decoded; an encoding takes at most ten
-- bytes, and values below 128 take one; what is decoded took bytes of the input, and one at least.
pub record VarIntLaws (v : VarInt) : Type 0 where
  pub decode-encode :
      (n : ℕ) (rest : List ℕ)
      → n < 2 ^ 64
      → v.decode_var (v.encode_var n ++ rest) ≡ some (n, length (v.encode_var n))
  pub decode_cut :
      (n : ℕ) (front : List ℕ) (x : ℕ) (back : List ℕ)
      → n < 2 ^ 64
      → v.encode_var n ≡ front ++ (x ∷ back)
      → v.decode_var front ≡ none
  pub encode_fits :
      (n : ℕ)
      → n < 2 ^ 64
      → (1 ≤ length (v.encode_var n)) × (length (v.encode_var n) ≤ max_encoded_size)
  pub decode_takes :
      (bytes : List ℕ) (n u : ℕ) → v.decode_var bytes ≡ some (n, u) → (1 ≤ u) × (u ≤ length bytes)
  pub encode_short : (n : ℕ) → n < 128 → length (v.encode_var n) ≡ 1

-- A panic is a failed bound check of a slice or a subtraction below 0 (checked arithmetic). `stuck`
-- is no outcome of the source: the loop ran out of fuel.
pub data Outcome {ℓ} (A : Type ℓ) : Type ℓ where
  done : A → Outcome A
  panic stuck : Outcome A

infixl 5 ◌>>=◌
abbrev pub ◌>>=◌ {ℓ κ} : {A : Type ℓ} {B : Type κ} → Outcome A → (A → Outcome B) → Outcome B
done a >>= f = f a
panic >>= f = panic
stuck >>= f = stuck

-- `&xs[n..]`, and `a - b` on usize.
unfoldable pub slice_from : ℕ → List ℕ → Outcome (List ℕ)
slice_from n xs = if leb n (length xs) then done (drop n xs) else panic

unfoldable pub checked_sub : ℕ → ℕ → Outcome ℕ
checked_sub a b = if leb b a then done (a - b) else panic

pub record Decoder : Type 0 where
  pub stored : List ℕ

unfoldable pub empty_decoder : Decoder
empty_decoder = record { stored = [] }

abbrev pub is_empty : List ℕ → Bool
is_empty [] = true
is_empty (_ ∷ _) = false

module _ (v : VarInt) where
  unfoldable pub encode_size : List ℕ → List ℕ
  encode_size message = v.encode_var (length message)

  unfoldable pub decode_size : List ℕ → Option (ℕ × ℕ)
  decode_size bytes = v.decode_var bytes

  -- One round of the loop of `try_decode`: the message that the callback gets, if any, and what
  -- the loop goes on with, or the bytes that are stored at its end.
  pub data Round : Type 0 where
    emit_more : List ℕ → List ℕ → Round
    emit_last : List ℕ → Round
    store : List ℕ → Round

  unfoldable pub try_round : List ℕ → Outcome Round
  try_round next_data = elim (decode_size next_data) [
    | none ↦ done (store next_data)
    | some (expected_size, used_bytes) ↦ do
      remaining ← slice_from used_bytes next_data
      let decoded = take expected_size remaining
      let not_decoded = drop expected_size remaining
      if leb expected_size (length remaining)
          then (if is_empty not_decoded
              then done (emit_last decoded)
              else done (emit_more decoded not_decoded))
          else done (store next_data)
  ]

  -- The loop, with the messages that the callback got in their order.
  unfoldable pub try_loop : ℕ → List ℕ → List ℕ → Outcome (Decoder × List (List ℕ))
  try_loop zero stored next_data = stuck
  try_loop (suc fuel) stored next_data = elim (try_round next_data) [
    | done (emit_more decoded rest) ↦ do
      (d, later) ← try_loop fuel stored rest
      done (d, decoded ∷ later)
    | done (emit_last decoded) ↦ done (record { stored = stored }, decoded ∷ [])
    | done (store bytes) ↦ done (record { stored = stored ++ bytes }, [])
    | panic ↦ panic
    | stuck ↦ stuck
  ]

  -- A round that goes on takes a byte at least, so this fuel is enough.
  unfoldable pub try_decode : Decoder → List ℕ → Outcome (Decoder × List (List ℕ))
  try_decode d bytes = try_loop (suc (length bytes)) d.stored bytes

  -- The second half of `store_and_decoded_data`: the size of the frame is known.
  unfoldable pub complete : Decoder → ℕ → ℕ → List ℕ → Outcome (Decoder × Option (List ℕ × List ℕ))
  complete d expected_size used_bytes bytes = do
    filled ← checked_sub (length d.stored) used_bytes
    remaining ← checked_sub expected_size filled
    let all = d.stored ++ take remaining bytes
    if ltb (length bytes) remaining
        then done (record { stored = d.stored ++ bytes }, none)
        else (slice_from used_bytes all >>= λ message.
            done (record { stored = all }, some (message, drop remaining bytes)))

  -- The second look at the size, once more bytes have joined the store.
  unfoldable pub retry_size : Decoder → List ℕ → Outcome (Decoder × Option (List ℕ × List ℕ))
  retry_size d bytes = elim (decode_size d.stored) [
    | some (expected_size, used_bytes) ↦ complete d expected_size used_bytes bytes
    | none ↦ done (d, none)
  ]

  -- The whole: the bytes of the size may still be missing, and at most those are appended first.
  unfoldable pub store_and_decoded_data :
      Decoder → List ℕ → Outcome (Decoder × Option (List ℕ × List ℕ))
  store_and_decoded_data d bytes = elim (decode_size d.stored) [
    | some (expected_size, used_bytes) ↦ complete d expected_size used_bytes bytes
    | none ↦ do
      room ← checked_sub max_encoded_size (length d.stored)
      let max_remaining = min room (length bytes)
      retry_size (record { stored = d.stored ++ take max_remaining bytes })
          (drop max_remaining bytes)
  ]

  -- `decode`: with a message completed from the store, the store is cleared and the rest is
  -- decoded from the input directly.
  unfoldable pub decode : Decoder → List ℕ → Outcome (Decoder × List (List ℕ))
  decode d bytes = if is_empty d.stored then try_decode d bytes else (do
    (d', found) ← store_and_decoded_data d bytes
    elim found [
      | none ↦ done (d', [])
      | some (message, rest) ↦ do
        (d'', later) ← try_decode empty_decoder rest
        done (d'', message ∷ later)
    ])

  -- A run of `decode` over the chunks that arrive.
  unfoldable pub decode_all : Decoder → List (List ℕ) → Outcome (Decoder × List (List ℕ))
  decode_all d [] = done (d, [])
  decode_all d (chunk ∷ chunks) = do
    (d', ms) ← decode d chunk
    (d'', later) ← decode_all d' chunks
    done (d'', ms ++ later)

  unfoldable pub stored_size : Decoder → ℕ
  stored_size d = length d.stored
