-- ===== src/Util/Encoding/Stream.antt =====
-- `decode` and runs of it on the pieces of a stream of frames.
use message_io.Prelude.{
  ℕ, suc, ◌<◌, ◌^◌, ◌≡◌, inl, inr, refl, sym, ap, ◌∙◌, arith, List, [], ◌∷◌, ◌++◌, length,
  length-append, append_assoc, append-nil, append_cancel, none, some, All-append_right,
}
use message_io.Util.Encoding.{
  VarInt, VarIntLaws, Decoder, Outcome, done, store_and_decoded_data, try_decode, decode,
  decode_all, empty_decoder,
}
use message_io.Util.Encoding.Frames.{AreSized, frame, frames, concat, IsShort, length-frames}
use message_io.Util.Encoding.Loop.{Progress, try_loop-Progress, IsShort-nil}
use message_io.Util.Encoding.Store.{store-cases}

module _ (v : VarInt) (laws : VarIntLaws v) where
  try_decode-Progress :
      (ms : List (List ℕ)) (bytes more : List ℕ)
      → AreSized ms
      → bytes ++ more ≡ frames v ms
      → Progress v laws (try_decode v empty_decoder bytes) [] more ms
  unfolding try_decode empty_decoder
  try_decode-Progress ms bytes more hs e =
      try_loop-Progress v laws ms (suc (length bytes)) [] bytes more hs e (omega arith)

  decode-more :
      (x : ℕ) (s bytes : List ℕ) {kept : List ℕ}
      → store_and_decoded_data v (record { stored = x ∷ s }) bytes
        ≡ done (record { stored = kept }, none)
      → decode v (record { stored = x ∷ s }) bytes ≡ done (record { stored = kept }, [])
  unfolding decode
  decode-more x s bytes h = rw (h, decode)

  decode-found :
      (x : ℕ) (s bytes : List ℕ) {kept m rest : List ℕ} {d : Decoder} {out : List (List ℕ)}
      → store_and_decoded_data v (record { stored = x ∷ s }) bytes
        ≡ done (record { stored = kept }, some (m, rest))
      → try_decode v empty_decoder rest ≡ done (d, out)
      → decode v (record { stored = x ∷ s }) bytes ≡ done (d, m ∷ out)
  unfolding decode
  decode-found x s bytes h k = rw (h, decode) (rw k)

  -- One call of `decode` on a piece of a stream: exactly the messages that end in the stored
  -- bytes or the piece go to the callback, in order, and the rest is stored. The messages are
  -- shorter than 2 ^ 64 bytes, the stored bytes hold no whole frame, and the varint crate keeps its
  -- laws.
  pub decode-Progress :
      (s : List ℕ) (ms : List (List ℕ)) (bytes more : List ℕ)
      → AreSized ms
      → (s ++ bytes) ++ more ≡ frames v ms
      → IsShort v s ms
      → Progress v laws (decode v (record { stored = s }) bytes) [] more ms
  decode-Progress [] ms bytes more hs e sh =
      unfold decode empty_decoder in try_decode-Progress ms bytes more hs e
  decode-Progress (x ∷ s) [] bytes more hs e sh = absurd (omega arith)
  decode-Progress (x ∷ s) (m ∷ ms) bytes more (hm, hms) e sh =
      elim (store-cases v laws (x ∷ s) bytes m more (frames v ms) hm (omega arith) sh e') [
        | inl (r, less) ↦ record {
          out = [];
          kept = (x ∷ s) ++ bytes;
          left = m ∷ ms;
          result = decode-more x s bytes r;
          parts = refl;
          stream = e;
          short = less;
        }
        | inr (kept, rest, r, we) ↦
            let p = try_decode-Progress ms rest more hms (
              sym (
                append_cancel (frame v m)
                  (sym e' ∙ ap (λ l. l ++ more) we ∙ append_assoc (frame v m) rest more))) in
            record {
              out = m ∷ p.out;
              kept = p.kept;
              left = p.left;
              result = decode-found x s bytes r p.result;
              parts = ap (λ l. m ∷ l) p.parts;
              stream = p.stream;
              short = p.short;
            }
      ]
    where
      e' : ((x ∷ s) ++ bytes) ++ more ≡ frame v m ++ frames v ms
      e' = unfold frames in e

  -- Runs of `decode` over the chunks of a piece of a stream.
  pub decode_all-Progress :
      (chunks : List (List ℕ)) (s : List ℕ) (ms : List (List ℕ)) (more : List ℕ)
      → AreSized ms
      → (s ++ concat chunks) ++ more ≡ frames v ms
      → IsShort v s ms
      → Progress v laws (decode_all v (record { stored = s }) chunks) [] more ms
  unfolding decode_all
  decode_all-Progress [] s ms more hs e sh = record {
    out = [];
    kept = s;
    left = ms;
    result = refl;
    parts = refl;
    stream = rw (append-nil s) at e;
    short = sh;
  }
  decode_all-Progress (c ∷ cs) s ms more hs e sh =
      let p =
        decode-Progress s ms c (concat cs ++ more) hs (simp append_assoc (simp append_assoc at e))
          sh in
      let q =
        decode_all-Progress cs p.kept p.left more
          (All-append_right (λ m. length m < 2 ^ 64) p.out p.left (rw p.parts at hs))
          (append_assoc p.kept (concat cs) more ∙ p.stream) p.short in
      record {
        out = p.out ++ q.out;
        kept = q.kept;
        left = q.left;
        result = rw (p.result, decode_all) (rw q.result);
        parts = p.parts ∙ ap (λ l. p.out ++ l) q.parts ∙ sym (append_assoc p.out q.out q.left);
        stream = q.stream;
        short = q.short;
      }

  -- However a stream of frames is cut into chunks, `decode` over the chunks neither panics nor
  -- stalls: it gives the callback exactly the messages, in order, and ends with an empty store. The
  -- messages are shorter than 2 ^ 64 bytes, and the varint crate keeps its laws.
  pub decode_all-frames :
      (ms chunks : List (List ℕ))
      → AreSized ms
      → concat chunks ≡ frames v ms
      → decode_all v empty_decoder chunks ≡ done (empty_decoder, ms)
  unfolding empty_decoder
  decode_all-frames ms chunks hs e =
      let p =
        decode_all-Progress chunks [] ms [] hs (append-nil (concat chunks) ∙ e)
          (IsShort-nil v laws ms hs) in
      p.result ∙ at_end p.out p.kept p.left p.parts p.stream p.short
    where
      at_end :
          (out : List (List ℕ)) (kept : List ℕ) (left : List (List ℕ))
          → ms ≡ out ++ left
          → kept ++ [] ≡ frames v left
          → IsShort v kept left
          → ◌≡◌ {A = Outcome (Decoder × List (List ℕ))}
              (done (record { stored = kept }, out))
              (done (record { stored = [] }, ms))
      at_end out [] [] parts stream sh = rw (parts, append-nil out)
      at_end out (b ∷ kept) [] parts stream sh = absurd (omega arith)
      at_end out kept (m ∷ left) parts stream sh =
          absurd
            (omega (arith, sh, ap length stream, length-append kept [], length-frames v m left))
