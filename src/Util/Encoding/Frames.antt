-- ===== src/Util/Encoding/Frames.antt =====
-- The byte stream that a sender makes: each message behind its encoded size.
use message_io.Prelude.{
  ℕ, ◌+◌, ◌<◌, ◌^◌, ◌≡◌, arith, List, [], ◌∷◌, ◌++◌, All, length, length-append, append_assoc,
  take-append, drop-append, none, some, ltb, lt→ltb, false,
}
use message_io.Util.Encoding.{VarInt, done, complete, checked_sub, slice_from, encode_size}

-- Slices and vectors hold fewer than 2 ^ 64 bytes.
abbrev pub AreSized : List (List ℕ) → Type 0
AreSized = All (λ m. length m < 2 ^ 64)

pub checked_sub-eq : (a b c : ℕ) → a ≡ b + c → checked_sub a b ≡ done c
unfolding checked_sub
checked_sub-eq a b c h = ground arith

pub slice_from-append : (xs ys : List ℕ) → slice_from (length xs) (xs ++ ys) ≡ done ys
unfolding slice_from
slice_from-append xs ys = ground (arith, length-append xs ys, drop-append xs ys)

abbrev pub concat : List (List ℕ) → List ℕ
concat [] = []
concat (xs ∷ xss) = xs ++ concat xss

module _ (v : VarInt) where
  unfoldable pub frame : List ℕ → List ℕ
  unfolding encode_size
  frame m = encode_size v m ++ m

  unfoldable pub frames : List (List ℕ) → List ℕ
  frames [] = []
  frames (m ∷ ms) = frame m ++ frames ms

  -- `complete` on the frame of `p ++ t` with the size `h`, of which `h ++ p` is stored.
  pub complete_short :
      (h p t bytes : List ℕ)
      → length bytes < length t
      → complete v (record { stored = h ++ p }) (length (p ++ t)) (length h) bytes
        ≡ done (record { stored = (h ++ p) ++ bytes }, none)
  unfolding complete
  complete_short h p t bytes lt = rw (
    checked_sub-eq (length (h ++ p)) (length h) (length p) (length-append h p),
    checked_sub-eq (length (p ++ t)) (length p) (length t) (length-append p t),
    lt→ltb _ _ lt,
  )

  pub complete_full :
      (h p t rest : List ℕ)
      → complete v (record { stored = h ++ p }) (length (p ++ t)) (length h) (t ++ rest)
        ≡ done (record { stored = (h ++ p) ++ t }, some (p ++ t, rest))
  unfolding complete
  complete_full h p t rest = rw (
    checked_sub-eq (length (h ++ p)) (length h) (length p) (length-append h p),
    checked_sub-eq (length (p ++ t)) (length p) (length t) (length-append p t),
    not_short,
    take-append t rest,
    append_assoc h p t,
    slice_from-append h (p ++ t),
    drop-append t rest,
  )
    where
      not_short : ltb (length (t ++ rest)) (length t) ≡ false
      not_short = ground (arith, length-append t rest)

  -- `bytes` ends before the first frame of the stream does, or at the end of the stream.
  abbrev pub IsShort : List ℕ → List (List ℕ) → Type 0
  IsShort bytes [] = length bytes ≡ 0
  IsShort bytes (m ∷ ms) = length bytes < length (frame m)

  pub length-frames :
      (m : List ℕ) (ms : List (List ℕ))
      → length (frames (m ∷ ms)) ≡ length (frame m) + length (frames ms)
  unfolding frames
  length-frames m ms = length-append (frame m) (frames ms)
