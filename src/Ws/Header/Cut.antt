-- ===== src/Ws/Header/Cut.antt =====
-- `parse` on a header that is cut short.
use message_io.Prelude.{
  ℕ, ◌+◌, ◌<◌, ◌^◌, ◌≡◌, refl, ap, sym, ◌∙◌, arith, true, not, bit_and, ◌==◌, lt→ltb, List, [], ◌∷◌,
  ◌++◌, length, length-append, append_split, cons_inj, lt_or_le, Option, some, none, inl, inr,
}
use message_io.Ws.Coding.{OpCode}
use message_io.Ws.Data.{Mask, FrameHeader, ok}
use message_io.Ws.Header.{
  LengthFormat, u8, u16, u64, for_length, for_byte, extra_bytes, length_bytes, mask_bytes, is_some,
  first_byte, second_byte, format_header, Cursor, unread, advance, parse_mask, parse_length,
  parse_internal, parse,
}
use message_io.Ws.Header.Flags.{second_byte_fields, for_byte-length_byte}
use message_io.Ws.Header.RoundTrip.{
  IsKnownOpCode, length_read, parse_length-eq, parse_internal-eq, unread-advance, opcode_read,
}

module _ (P : Type 0) where
  mask_cut :
      (l : List ℕ) (first second len : ℕ) (c : OpCode) (cur : Cursor)
      → not (bit_and second 0x80 == 0) ≡ true
      → unread cur ≡ l
      → length l < 4
      → parse_mask P first second len c cur ≡ (ok none, advance (length l) cur)
  unfolding parse_mask
  mask_cut [] first second len c cur flag e lt = rw flag (rw e (rw e))
  mask_cut (x ∷ []) first second len c cur flag e lt = rw flag (rw e (rw e))
  mask_cut (x ∷ y ∷ []) first second len c cur flag e lt = rw flag (rw e (rw e))
  mask_cut (x ∷ y ∷ z ∷ []) first second len c cur flag e lt = rw flag (rw e (rw e))
  mask_cut (x ∷ y ∷ z ∷ w ∷ l) first second len c cur flag e lt = absurd (omega arith)

  length_cut :
      (fmt : LengthFormat) (first second : ℕ) (c : OpCode) (cur : Cursor)
      → for_byte (bit_and second 0x7f) ≡ fmt
      → length (unread cur) < extra_bytes fmt
      → parse_length P first second c cur ≡ (ok none, cur)
  unfolding parse_length
  length_cut (u8 b) first second c cur fb lt = absurd (omega arith)
  length_cut u16 first second c cur fb lt = rw fb (rw (lt→ltb _ _ lt))
  length_cut u64 first second c cur fb lt = rw fb (rw (lt→ltb _ _ lt))

  parse-none :
      (cur : Cursor) (n : ℕ)
      → parse_internal P cur ≡ (ok none, record cur { position = n })
      → parse P cur ≡ (ok none, cur)
  unfolding parse
  parse-none cur n e = rw e

  -- The header's tail behind its two leading bytes, cut inside the length or inside the mask.
  tail_cut :
      (h : FrameHeader) (len : ℕ) (cur : Cursor) (x : ℕ) (back : List ℕ)
      → IsKnownOpCode h.opcode
      → len < 2 ^ 64
      → length_bytes (for_length len) len ++ mask_bytes h.mask ≡ unread cur ++ (x ∷ back)
      → (n : ℕ) × (parse_length P (first_byte h) (second_byte h len) h.opcode cur
          ≡ (ok none, record cur { position = n }))
  tail_cut h len cur x back known hl e =
      let (flag, low) = second_byte_fields h len in
      let (size, value) = length_read len hl in
      let fb : for_byte (bit_and (second_byte h len) 0x7f) ≡ for_length len =
        rw low (for_byte-length_byte len) in
      elim (lt_or_le (length (unread cur)) (length int)) [
        | inl short ↦ (cur.position, length_cut (for_length len) _ _ h.opcode cur fb (omega arith))
        | inr enough ↦
            let (p, ue, me) = append_split (unread cur) int (sym e) enough in
            let cur' = advance (length int) cur in
            let short : length p < length (mask_bytes h.mask) =
              omega (arith, ap length me, length-append p (x ∷ back)) in
            (
              cur'.position + length p,
              parse_length-eq P (for_length len) _ _ h.opcode cur int p fb low size ue
                  ∙ mask_cut p _ _ _ h.opcode cur' (flag ∙ has_mask h.mask p short)
                      (unread-advance cur int p ue) (few h.mask p short),
            )
      ]
    where
      int : List ℕ
      int = length_bytes (for_length len) len

      has_mask :
          (m : Option Mask) (p : List ℕ) → length p < length (mask_bytes m) → is_some m ≡ true
      has_mask none p lt = absurd (omega arith)
      has_mask (some m) p lt = refl

      few : (m : Option Mask) (p : List ℕ) → length p < length (mask_bytes m) → length p < 4
      few none p lt = absurd (omega arith)
      few (some m) p lt = lt

  few_bytes :
      (l : List ℕ) (cur : Cursor)
      → unread cur ≡ l
      → length l < 2
      → parse_internal P cur ≡ (ok none, advance (length l) cur)
  unfolding parse_internal
  few_bytes [] cur e lt = rw (e, parse_internal) (rw e)
  few_bytes (a ∷ []) cur e lt = rw (e, parse_internal) (rw e)
  few_bytes (a ∷ b ∷ l) cur e lt = absurd (omega arith)

  cut_at :
      (l : List ℕ) (h : FrameHeader) (len : ℕ) (cur : Cursor) (x : ℕ) (back : List ℕ)
      → IsKnownOpCode h.opcode
      → len < 2 ^ 64
      → unread cur ≡ l
      → format_header h len ≡ l ++ (x ∷ back)
      → parse P cur ≡ (ok none, cur)
  unfolding format_header
  cut_at [] h len cur x back known hl u e =
      parse-none cur (cur.position + 0) (few_bytes [] cur u (omega arith))
  cut_at (a ∷ []) h len cur x back known hl u e =
      parse-none cur (cur.position + 1) (few_bytes (a ∷ []) cur u (omega arith))
  cut_at (a ∷ b ∷ l) h len cur x back known hl u e =
      let (ae, e') = cons_inj e in
      let (be, e'') = cons_inj e' in
      let u' : unread cur ≡ first_byte h ∷ second_byte h len ∷ l = rw (ae, be) u in
      let tail : unread (advance 2 cur) ≡ l =
        unread-advance cur (first_byte h ∷ second_byte h len ∷ []) l u' in
      let (n, r) = tail_cut h len (advance 2 cur) x back known hl (rw tail e'') in
      parse-none cur n (
        parse_internal-eq P (first_byte h) (second_byte h len) h.opcode cur l u'
          (opcode_read P h len known)
        ∙ r)

  -- On a header that is cut short `parse` asks for more and leaves the cursor where it was. The
  -- opcode is no reserved one, and the length is a 64-bit number.
  pub parse_cut :
      (h : FrameHeader) (len : ℕ) (cur : Cursor) (x : ℕ) (back : List ℕ)
      → IsKnownOpCode h.opcode
      → len < 2 ^ 64
      → format_header h len ≡ unread cur ++ (x ∷ back)
      → parse P cur ≡ (ok none, cur)
  parse_cut h len cur x back known hl e = cut_at (unread cur) h len cur x back known hl refl e
