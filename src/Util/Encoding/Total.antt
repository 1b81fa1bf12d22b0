-- ===== src/Util/Encoding/Total.antt =====
-- The loop of `try_decode` on inputs that need not be well formed.
use message_io.Prelude.{
  ℕ, zero, suc, ◌≤◌, ◌<◌, ◌≡◌, inl, inr, refl, arith, List, length, length-drop, Bool-cases,
  Option-cases, if◌then◌else◌, leb, drop, take,
}
use message_io.Util.Encoding.{
  VarInt, VarIntLaws, Decoder, Outcome, done, decode_size, slice_from, Round, emit_more, emit_last,
  store, is_empty, try_round, try_loop, try_decode,
}
use message_io.Util.Encoding.Loop.{try_loop-store, try_loop-last, try_loop-more, try_round-none}

slice_from-le : (n : ℕ) (xs : List ℕ) → n ≤ length xs → slice_from n xs ≡ done (drop n xs)
unfolding slice_from
slice_from-le n xs h = ground arith

module _ (v : VarInt) (laws : VarIntLaws v) where
  -- What one round leaves, with fewer bytes where the loop goes on.
  data RoundShape (bytes : List ℕ) : Outcome (Round v) → Type 0 where
    stores : (kept : List ℕ) → RoundShape bytes (done (store kept))
    ends : (m : List ℕ) → RoundShape bytes (done (emit_last m))
    goes_on :
        (m rest : List ℕ) → length rest < length bytes → RoundShape bytes (done (emit_more m rest))

  tests-shape :
      (bytes : List ℕ) (n u : ℕ)
      → 1 ≤ u
      → u ≤ length bytes
      → RoundShape bytes (
          if leb n (length (drop u bytes))
          then (if is_empty (drop n (drop u bytes))
              then done (emit_last (take n (drop u bytes)))
              else done (emit_more (take n (drop u bytes)) (drop n (drop u bytes))))
          else done (store bytes))
  tests-shape bytes n u pos le = elim (Bool-cases (leb n (length (drop u bytes)))) [
    | inl enough ↦ rw enough (elim (Bool-cases (is_empty (drop n (drop u bytes)))) [
      | inl all ↦ rw all (ends _)
      | inr part ↦
          rw part (goes_on _ _ (omega (arith, length-drop n (drop u bytes), length-drop u bytes)))
    ])
    | inr short ↦ rw short (stores bytes)
  ]

  try_round-shape : (bytes : List ℕ) → RoundShape bytes (try_round v bytes)
  unfolding try_round
  try_round-shape bytes = elim (Option-cases (decode_size v bytes)) [
    | inl h ↦ rw (try_round-none v laws bytes h) (stores bytes)
    | inr ((n, u), h) ↦
        let (pos, le) = laws.decode_takes bytes n u (unfold decode_size in h) in
        rw (h, try_round, slice_from-le u bytes le) (tests-shape bytes n u pos le)
  ]

  loop_total :
      (fuel : ℕ) (before bytes : List ℕ)
      → length bytes < fuel
      → (r : Decoder × List (List ℕ)) × (try_loop v fuel before bytes ≡ done r)
  loop_total zero before bytes lt = absurd (omega arith)
  loop_total (suc fuel) before bytes lt =
      by_shape (try_round v bytes) (try_round-shape bytes) refl
        (λ rest h. loop_total fuel before rest (omega arith))
    where
      by_shape :
          (o : Outcome (Round v))
          → RoundShape bytes o
          → try_round v bytes ≡ o
          → ((rest : List ℕ)
              → length rest < length bytes
              → (r : Decoder × List (List ℕ)) × (try_loop v fuel before rest ≡ done r))
          → (r : Decoder × List (List ℕ)) × (try_loop v (suc fuel) before bytes ≡ done r)
      by_shape _ (stores kept) e rec = (_, try_loop-store v laws fuel before bytes kept e)
      by_shape _ (ends m) e rec = (_, try_loop-last v laws fuel before bytes m e)
      by_shape _ (goes_on m rest h) e rec =
          let ((d, out), k) = rec rest h in (_, try_loop-more v laws fuel before bytes m rest e k)

  -- `try_decode` ends and returns on every input, well formed or not: its loop comes to an end
  -- and none of its slices panics. The varint crate keeps its laws.
  pub try_decode_total :
      (d : Decoder) (bytes : List ℕ)
      → (r : Decoder × List (List ℕ)) × (try_decode v d bytes ≡ done r)
  unfolding try_decode
  try_decode_total d bytes = loop_total (suc (length bytes)) d.stored bytes (omega arith)
