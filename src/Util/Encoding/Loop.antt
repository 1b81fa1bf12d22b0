-- ===== src/Util/Encoding/Loop.antt =====
-- The loop of `try_decode` on a piece of a well-formed stream.
use message_io.Prelude.{
  ℕ, zero, suc, ◌+◌, ◌≤◌, ◌<◌, ◌^◌, ◌≡◌, ◌⊎◌, inl, inr, refl, sym, ap, ◌∙◌, arith, List, [], ◌∷◌,
  ◌++◌, length, length-append, append_assoc, append-nil, append_split, take-append, drop-append,
  none, some, if◌then◌else◌, lt_or_le, append_split_lt,
}
use message_io.Util.Encoding.{
  VarInt, VarIntLaws, Decoder, Outcome, done, decode_size, encode_size, try_round, emit_more,
  emit_last, store, try_loop, is_empty,
}
use message_io.Util.Encoding.Frames.{AreSized, frame, frames, IsShort, slice_from-append}

module _ (v : VarInt) (laws : VarIntLaws v) where
  -- The size of a message, read from the front of its frame.
  pub decode_size-frame :
      (m p : List ℕ)
      → length m < 2 ^ 64
      → decode_size v (encode_size v m ++ p) ≡ some (length m, length (encode_size v m))
  unfolding decode_size encode_size
  decode_size-frame m p h = laws.decode-encode (length m) p h

  pub decode_size_cut :
      (m front back : List ℕ) (x : ℕ)
      → length m < 2 ^ 64
      → encode_size v m ≡ front ++ (x ∷ back)
      → decode_size v front ≡ none
  unfolding decode_size encode_size
  decode_size_cut m front back x h e = laws.decode_cut (length m) front x back h e

  pub size_bounds :
      (m : List ℕ)
      → length m < 2 ^ 64
      → (1 ≤ length (encode_size v m)) × (length (encode_size v m) ≤ 10)
  unfolding encode_size
  size_bounds m h = laws.encode_fits (length m) h

  pub size_wide : (m : List ℕ) → 2 ≤ length (encode_size v m) → 128 ≤ length m
  unfolding encode_size
  size_wide m h = elim (lt_or_le (length m) 128) [
    | inl narrow ↦ absurd (omega (arith, laws.encode_short (length m) narrow))
    | inr wide ↦ wide
  ]

  pub length-frame_sum : (m : List ℕ) → length (frame v m) ≡ length (encode_size v m) + length m
  unfolding frame
  length-frame_sum m = length-append (encode_size v m) m

  -- An input that ends inside the first frame ends inside its size or inside its message.
  pub cut_frame :
      (m front more rest : List ℕ)
      → length m < 2 ^ 64
      → front ++ more ≡ frame v m ++ rest
      → length front < length (frame v m)
      → ((x : ℕ) × (back : List ℕ) × (encode_size v m ≡ front ++ (x ∷ back)))
        ⊎ ((p t : List ℕ) × (front ≡ encode_size v m ++ p)
            × (m ≡ p ++ t)
            × (more ≡ t ++ rest)
            × (0 < length t))
  unfolding frame
  cut_frame m front more rest hm e lt = elim (lt_or_le (length front) (length size)) [
    | inl short ↦ inl (append_split_lt front more size (m ++ rest) e' short)
    | inr long ↦
        let (p, fe, me) = append_split front size e' long in
        let (t, mt, mo) =
          append_split m p me (omega (arith, ap length fe, sizes, length-append size p)) in
        inr (
          p,
          t,
          fe,
          mt,
          mo,
          omega (arith, ap length fe, sizes, length-append size p, ap length mt, length-append p t),
        )
  ]
    where
      size : List ℕ
      size = encode_size v m

      e' : front ++ more ≡ size ++ (m ++ rest)
      e' = e ∙ append_assoc size m rest

      sizes : length (size ++ m) ≡ length size + length m
      sizes = length-append size m

  pub try_round-none :
      (bytes : List ℕ) → decode_size v bytes ≡ none → try_round v bytes ≡ done (store bytes)
  unfolding try_round
  try_round-none bytes h = rw (h, try_round)

  try_round-short :
      (m p : List ℕ)
      → length m < 2 ^ 64
      → length p < length m
      → try_round v (encode_size v m ++ p) ≡ done (store (encode_size v m ++ p))
  unfolding try_round
  try_round-short m p hm lt =
      rw (decode_size-frame m p hm, try_round, slice_from-append (encode_size v m) p) (ground arith)

  -- On the cut frame the loop stores all that there is and ends.
  pub try_round_cut :
      (m front more rest : List ℕ)
      → length m < 2 ^ 64
      → front ++ more ≡ frame v m ++ rest
      → length front < length (frame v m)
      → try_round v front ≡ done (store front)
  try_round_cut m front more rest hm e lt = elim (cut_frame m front more rest hm e lt) [
    | inl (x, back, se) ↦ try_round-none front (decode_size_cut m front back x hm se)
    | inr (p, t, fe, mt, mo, pos) ↦
        rw fe (try_round-short m p hm (omega (arith, ap length mt, length-append p t)))
  ]

  frame_append : (m rest : List ℕ) → frame v m ++ rest ≡ encode_size v m ++ (m ++ rest)
  unfolding frame
  frame_append m rest = append_assoc (encode_size v m) m rest

  -- A whole frame is taken off, and its message goes to the callback.
  pub try_round_whole :
      (m rest : List ℕ)
      → length m < 2 ^ 64
      → try_round v (frame v m ++ rest)
        ≡ done (if is_empty rest then emit_last m else emit_more m rest)
  unfolding try_round
  try_round_whole m rest hm = rw (frame_append m rest) (
      rw
        (
          decode_size-frame m (m ++ rest) hm,
          try_round,
          slice_from-append (encode_size v m) (m ++ rest),
        )
        (rw (take-append m rest, drop-append m rest) (ground (arith, length-append m rest))))

  -- What a call has done with the input `bytes` when the stream of `ms` goes on with `more`: `out`
  -- went to the callback, and `kept` was stored behind `before`.
  pub record Progress (o : Outcome (Decoder × List (List ℕ))) (before more : List ℕ)
      (ms : List (List ℕ)) : Type 0 where
    pub out : List (List ℕ)
    pub kept : List ℕ
    pub left : List (List ℕ)
    pub result : o ≡ done (record { stored = before ++ kept }, out)
    pub parts : ms ≡ out ++ left
    pub stream : kept ++ more ≡ frames v left
    pub short : IsShort v kept left

  pub length-frame : (m : List ℕ) → length m < 2 ^ 64 → 1 ≤ length (frame v m)
  unfolding frame
  length-frame m h = omega (arith, length-append (encode_size v m) m, size_bounds m h)

  pub try_loop-store :
      (fuel : ℕ) (before bytes kept : List ℕ)
      → try_round v bytes ≡ done (store kept)
      → try_loop v (suc fuel) before bytes ≡ done (record { stored = before ++ kept }, [])
  unfolding try_loop
  try_loop-store fuel before bytes kept h = rw (h, try_loop)

  pub try_loop-last :
      (fuel : ℕ) (before bytes m : List ℕ)
      → try_round v bytes ≡ done (emit_last m)
      → try_loop v (suc fuel) before bytes ≡ done (record { stored = before }, m ∷ [])
  unfolding try_loop
  try_loop-last fuel before bytes m h = rw (h, try_loop)

  pub try_loop-more :
      (fuel : ℕ) (before bytes m rest : List ℕ) {d : Decoder} {out : List (List ℕ)}
      → try_round v bytes ≡ done (emit_more m rest)
      → try_loop v fuel before rest ≡ done (d, out)
      → try_loop v (suc fuel) before bytes ≡ done (d, m ∷ out)
  unfolding try_loop
  try_loop-more fuel before bytes m rest h k = rw (h, try_loop) (rw k)

  decode_size-nil : decode_size v [] ≡ none
  decode_size-nil =
      elim (cut_frame [] [] (frame v []) [] (omega arith) (sym (append-nil (frame v [])))
        (length-frame [] (omega arith))) [
          | inl (x, back, e) ↦ decode_size_cut [] [] back x (omega arith) e
          | inr (p, t, e, mt, mo, pos) ↦ absurd (
              omega (
                arith,
                ap length e,
                length-append (encode_size v []) p,
                size_bounds [] (omega arith),
              ))
        ]

  pub IsShort-nil : (ms : List (List ℕ)) → AreSized ms → IsShort v [] ms
  IsShort-nil [] h = refl
  IsShort-nil (m ∷ ms) (hm, hms) = length-frame m hm

  -- The loop after it took a whole frame off.
  Progress-whole :
      (m : List ℕ) (ms : List (List ℕ)) (fuel : ℕ) (before bytes more t : List ℕ)
      → length m < 2 ^ 64
      → AreSized ms
      → bytes ≡ frame v m ++ t
      → frames v ms ≡ t ++ more
      → (0 < length t → Progress (try_loop v fuel before t) before more ms)
      → Progress (try_loop v (suc fuel) before bytes) before more (m ∷ ms)
  Progress-whole m ms fuel before bytes more [] hm hms be fe rec = record {
    out = m ∷ [];
    kept = [];
    left = ms;
    result = rw (be, append-nil before) (try_loop-last fuel before _ m (try_round_whole m [] hm));
    parts = refl;
    stream = sym fe;
    short = IsShort-nil ms hms;
  }
  Progress-whole m ms fuel before bytes more (c ∷ t) hm hms be fe rec =
      let r = rec (omega arith) in
      record {
        out = m ∷ r.out;
        kept = r.kept;
        left = r.left;
        result =
            rw be (try_loop-more fuel before _ m (c ∷ t) (try_round_whole m (c ∷ t) hm) r.result);
        parts = ap (λ l. m ∷ l) r.parts;
        stream = r.stream;
        short = r.short;
      }

  -- The loop, with one round of fuel to spare, cuts its input into the messages that end in it.
  pub try_loop-Progress :
      (ms : List (List ℕ)) (fuel : ℕ) (before bytes more : List ℕ)
      → AreSized ms
      → bytes ++ more ≡ frames v ms
      → length bytes < fuel
      → Progress (try_loop v fuel before bytes) before more ms
  try_loop-Progress ms zero before bytes more hs e lt = absurd (omega arith)
  try_loop-Progress ms (suc fuel) before [] more hs e lt = record {
    out = [];
    kept = [];
    left = ms;
    result = try_loop-store fuel before [] [] (try_round-none [] decode_size-nil);
    parts = refl;
    stream = e;
    short = IsShort-nil ms hs;
  }
  try_loop-Progress [] (suc fuel) before (b ∷ bytes) more hs e lt = unfold frames in cc
  try_loop-Progress (m ∷ ms) (suc fuel) before (b ∷ bytes) more (hm, hms) e lt =
      elim (lt_or_le (length (b ∷ bytes)) (length (frame v m))) [
        | inl less ↦ record {
          out = [];
          kept = b ∷ bytes;
          left = m ∷ ms;
          result =
              try_loop-store fuel before _ _
                (try_round_cut m (b ∷ bytes) more (frames v ms) hm e' less);
          parts = refl;
          stream = e;
          short = less;
        }
        | inr enough ↦
            let (t, be, fe) = append_split (b ∷ bytes) (frame v m) e' enough in
            Progress-whole m ms fuel before (b ∷ bytes) more t hm hms be fe (λ _.
              try_loop-Progress ms fuel before t more hms (sym fe)
                (omega (arith, ap length be, length-append (frame v m) t, length-frame m hm)))
      ]
    where
      e' : (b ∷ bytes) ++ more ≡ frame v m ++ frames v ms
      e' = unfold frames in e
