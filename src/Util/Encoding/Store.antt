-- ===== src/Util/Encoding/Store.antt =====
-- `store_and_decoded_data` on a stored piece of a frame and the input behind it.
use message_io.Prelude.{
  ℕ, ◌+◌, ◌-◌, ◌≤◌, ◌<◌, ◌^◌, ◌≡◌, ◌⊎◌, inl, inr, refl, sym, ap, ◌∙◌, arith, List, [], ◌∷◌, ◌++◌,
  length, length-append, append_assoc, append-nil, append_split, append_cancel, take, drop, none,
  some, Option, drop_all, take-append-drop, length-take, lt_or_le, append_split_lt, min,
}
use message_io.Util.Encoding.{
  VarInt, VarIntLaws, Decoder, Outcome, done, decode_size, encode_size, complete,
  store_and_decoded_data, retry_size,
}
use message_io.Util.Encoding.Frames.{frame, complete_short, complete_full, checked_sub-eq}
use message_io.Util.Encoding.Loop.{
  cut_frame, size_bounds, decode_size-frame, decode_size_cut, size_wide, length-frame_sum,
}

module _ (v : VarInt) (laws : VarIntLaws v) where
  -- Either all is stored and the frame is still open, or the frame's message and the rest are found.
  abbrev pub StoreResult : Outcome (Decoder × Option (List ℕ × List ℕ)) → List ℕ → List ℕ → Type 0
  StoreResult o all m =
      ((o ≡ done (record { stored = all }, none)) × (length all < length (frame v m)))
      ⊎ ((kept rest : List ℕ) × (o ≡ done (record { stored = kept }, some (m, rest)))
          × (all ≡ frame v m ++ rest))

  complete-open :
      (p t bytes more rest : List ℕ)
      → bytes ++ more ≡ t ++ rest
      → StoreResult
          (complete v
            (record { stored = encode_size v (p ++ t) ++ p })
            (length (p ++ t))
            (length (encode_size v (p ++ t)))
            bytes)
          ((encode_size v (p ++ t) ++ p) ++ bytes)
          (p ++ t)
  unfolding frame
  complete-open p t bytes more rest e = elim (lt_or_le (length bytes) (length t)) [
    | inl less ↦ inl (
      complete_short v size p t bytes less,
      omega (
        arith,
        length-append (size ++ p) bytes,
        length-append size p,
        length-append size (p ++ t),
        length-append p t,
        less,
      ),
    )
    | inr enough ↦
        let (rest', be, re) = append_split bytes t e enough in
        inr (
          (size ++ p) ++ t,
          rest',
          rw be (complete_full v size p t rest'),
          rw (
            be,
            append_assoc size p (t ++ rest'),
            append_assoc size (p ++ t) rest',
            append_assoc p t rest',
          ),
        )
  ]
    where
      size : List ℕ
      size = encode_size v (p ++ t)

  -- The same, with the message and the bytes as the caller has them.
  complete-cases :
      (m p bytes more rest : List ℕ)
      → (encode_size v m ++ p) ++ (bytes ++ more) ≡ frame v m ++ rest
      → length p ≤ length m
      → StoreResult
          (complete v
            (record { stored = encode_size v m ++ p })
            (length m)
            (length (encode_size v m))
            bytes)
          ((encode_size v m ++ p) ++ bytes)
          m
  unfolding frame
  complete-cases m p bytes more rest e le =
      let (t, mt, be) = append_split m p (sym after_size) le in
      rw mt (complete-open p t bytes more rest be)
    where
      size : List ℕ
      size = encode_size v m

      after_size : p ++ (bytes ++ more) ≡ m ++ rest
      after_size =
          append_cancel size
            (sym (append_assoc size p (bytes ++ more)) ∙ e ∙ append_assoc size m rest)

  retry_size-some :
      (d : Decoder) (bytes : List ℕ) {n u : ℕ}
      → decode_size v d.stored ≡ some (n, u)
      → retry_size v d bytes ≡ complete v d n u bytes
  unfolding retry_size
  retry_size-some d bytes h = rw (h, retry_size)

  retry_size-none :
      (d : Decoder) (bytes : List ℕ)
      → decode_size v d.stored ≡ none
      → retry_size v d bytes ≡ done (d, none)
  unfolding retry_size
  retry_size-none d bytes h = rw (h, retry_size)

  retry_size-known :
      (p bytes m more rest : List ℕ)
      → length m < 2 ^ 64
      → (encode_size v m ++ p) ++ (bytes ++ more) ≡ frame v m ++ rest
      → length p ≤ length m
      → StoreResult
          (retry_size v (record { stored = encode_size v m ++ p }) bytes)
          ((encode_size v m ++ p) ++ bytes)
          m
  retry_size-known p bytes m more rest hm e le =
      rw
        (retry_size-some (record { stored = encode_size v m ++ p }) bytes
          (decode_size-frame v laws m p hm))
        (complete-cases m p bytes more rest e le)

  -- Once ten bytes are stored, or the input has run out, the second look decides.
  retry_size-cases :
      (s front back m more rest : List ℕ)
      → length m < 2 ^ 64
      → 1 ≤ length s
      → length s < length (encode_size v m)
      → (back ≡ []) ⊎ (length (s ++ front) ≡ 10)
      → length (s ++ front) ≤ 10
      → (s ++ front) ++ (back ++ more) ≡ frame v m ++ rest
      → StoreResult (retry_size v (record { stored = s ++ front }) back) ((s ++ front) ++ back) m
  retry_size-cases s front back m more rest hm pos lt full few e =
      elim (lt_or_le (length (s ++ front)) (length size)) [
        | inl less ↦ inl (
          no_size less,
          omega (
            arith,
            length-append (s ++ front) back,
            ap length (no_more less),
            length-frame_sum v laws m,
          ),
        )
        | inr enough ↦
            let (p, se, me) = append_split (s ++ front) size split_size enough in
            rw se (
              retry_size-known p back m more rest hm (rw (← se) e)
                (omega (arith, wide, few, ap length se, length-append size p)))
      ]
    where
      size : List ℕ
      size = encode_size v m

      split_size : (s ++ front) ++ (back ++ more) ≡ size ++ (m ++ rest)
      split_size = e ∙ unfold frame in append_assoc size m rest

      wide : 128 ≤ length m
      wide = size_wide v laws m (omega arith)

      no_more : length (s ++ front) < length size → back ≡ []
      no_more less = elim full [
        | inl e ↦ e
        | inr ten ↦ absurd (omega (arith, size_bounds v laws m hm))
      ]

      no_size :
          length (s ++ front) < length size
          → retry_size v (record { stored = s ++ front }) back
            ≡ done (record { stored = (s ++ front) ++ back }, none)
      no_size less =
          let (x, tail, se) =
            append_split_lt (s ++ front) (back ++ more) size (m ++ rest) split_size less in
          retry_size-none _ back (decode_size_cut v laws m (s ++ front) tail x hm se)
          ∙ rw (no_more less, append-nil (s ++ front))

  store-known :
      (p bytes m more rest : List ℕ)
      → length m < 2 ^ 64
      → (encode_size v m ++ p) ++ (bytes ++ more) ≡ frame v m ++ rest
      → length p ≤ length m
      → StoreResult
          (store_and_decoded_data v (record { stored = encode_size v m ++ p }) bytes)
          ((encode_size v m ++ p) ++ bytes)
          m
  unfolding store_and_decoded_data
  store-known p bytes m more rest hm e le =
      rw (decode_size-frame v laws m p hm, store_and_decoded_data)
        (complete-cases m p bytes more rest e le)

  store-unknown :
      (s bytes : List ℕ)
      → decode_size v s ≡ none
      → length s ≤ 10
      → store_and_decoded_data v (record { stored = s }) bytes
        ≡ retry_size v
            (record { stored = s ++ take (min (10 - length s) (length bytes)) bytes })
            (drop (min (10 - length s) (length bytes)) bytes)
  unfolding store_and_decoded_data
  store-unknown s bytes h le =
      rw (h, store_and_decoded_data, checked_sub-eq 10 (length s) (10 - length s) (omega arith))

  -- How many bytes join the store before the second look.
  refill :
      (s bytes : List ℕ) (n : ℕ)
      → length s ≤ 10
      → n ≡ min (10 - length s) (length bytes)
      → ((drop n bytes ≡ []) ⊎ (length (s ++ take n bytes) ≡ 10))
        × (length (s ++ take n bytes) ≤ 10)
  refill s bytes n le e = elim (lt_or_le (10 - length s) (length bytes)) [
    | inl more ↦ (inr (omega (arith, size)), omega (arith, size))
    | inr few ↦ (inl (drop_all n bytes (omega arith)), omega (arith, size))
  ]
    where
      size : length (s ++ take n bytes) ≡ length s + min n (length bytes)
      size = omega (arith, length-append s (take n bytes), length-take n bytes)

  -- What is stored, and the input behind it, either stay inside the first frame or complete it.
  pub store-cases :
      (s bytes m more rest : List ℕ)
      → length m < 2 ^ 64
      → 1 ≤ length s
      → length s < length (frame v m)
      → (s ++ bytes) ++ more ≡ frame v m ++ rest
      → StoreResult (store_and_decoded_data v (record { stored = s }) bytes) (s ++ bytes) m
  store-cases s bytes m more rest hm pos lt e =
      elim (cut_frame v laws m s (bytes ++ more) rest hm e' lt) [
        | inr (p, t, se, mt, mo, open') ↦ rw se (
            store-known p bytes m more rest hm (rw (← se) e')
              (omega (arith, ap length mt, length-append p t)))
        | inl (x, tail, he) ↦
            let lt' : length s < length (encode_size v m) =
              omega (arith, ap length he, length-append s (x ∷ tail)) in
            let le : length s ≤ 10 = omega (arith, lt', size_bounds v laws m hm) in
            let (full, few) = refill s bytes n le refl in
            rw (store-unknown s bytes (decode_size_cut v laws m s tail x hm he) le) (
              rw (whole n) at (
                retry_size-cases s (take n bytes) (drop n bytes) m more rest hm pos lt' full few
                  regrouped))
      ]
    where
      n : ℕ
      n = min (10 - length s) (length bytes)

      whole : (k : ℕ) → (s ++ take k bytes) ++ drop k bytes ≡ s ++ bytes
      whole k =
          append_assoc s (take k bytes) (drop k bytes) ∙ ap (λ l. s ++ l) (take-append-drop k bytes)

      regrouped : (s ++ take n bytes) ++ (drop n bytes ++ more) ≡ frame v m ++ rest
      regrouped = sym (append_assoc (s ++ take n bytes) (drop n bytes) more) ∙ rw (whole n) e

      e' : s ++ (bytes ++ more) ≡ frame v m ++ rest
      e' = sym (append_assoc s bytes more) ∙ e
