-- ===== src/Util/Encoding/Faults.antt =====
-- What `decode` does on a peer's bytes that are no frame.
use message_io.Prelude.{ℕ, ◌<◌, ◌≡◌, arith, List, [], ◌∷◌, length, none}
use message_io.Util.Encoding.{
  VarInt, done, panic, decode_size, checked_sub, store_and_decoded_data, try_round, try_loop,
  try_decode, decode, decode_all, empty_decoder, store,
}

checked_sub-panic : (a b : ℕ) → a < b → checked_sub a b ≡ panic
unfolding checked_sub
checked_sub-panic a b h = ground arith

module _ (v : VarInt) where
  -- Bytes with no size in front are all stored.
  store_all :
      (x : ℕ) (bytes : List ℕ)
      → decode_size v (x ∷ bytes) ≡ none
      → decode v empty_decoder (x ∷ bytes) ≡ done (record { stored = x ∷ bytes }, [])
  unfolding decode empty_decoder try_decode try_loop
  store_all x bytes h = rw (round, try_loop)
    where
      round : try_round v (x ∷ bytes) ≡ done (store (x ∷ bytes))
      round = unfold try_round in rw (h, try_round)

  store_panics :
      (s bytes : List ℕ)
      → decode_size v s ≡ none
      → 10 < length s
      → store_and_decoded_data v (record { stored = s }) bytes ≡ panic
  unfolding store_and_decoded_data
  store_panics s bytes h lt = rw (h, store_and_decoded_data, checked_sub-panic 10 (length s) lt)

  -- A first chunk of more than ten bytes that hold no complete size is stored, and the next call of
  -- `decode`, on whatever bytes, panics in `MAX_ENCODED_SIZE - self.stored.len()`.
  pub decode_all_overlong :
      (x : ℕ) (bytes next : List ℕ) (chunks : List (List ℕ))
      → decode_size v (x ∷ bytes) ≡ none
      → 10 < length (x ∷ bytes)
      → decode_all v empty_decoder ((x ∷ bytes) ∷ next ∷ chunks) ≡ panic
  unfolding decode_all
  decode_all_overlong x bytes next chunks h lt =
      rw (store_all x bytes h, decode_all) (rw (again, decode_all))
    where
      again : decode v (record { stored = x ∷ bytes }) next ≡ panic
      again = unfold decode in rw (store_panics (x ∷ bytes) next h lt, decode)
