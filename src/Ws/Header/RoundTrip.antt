-- ===== src/Ws/Header/RoundTrip.antt =====
-- `parse` on a written header.
use message_io.Prelude.{
  ℕ, ◌+◌, ◌%◌, ◌^◌, ◌<◌, ◌≡◌, refl, ap, ◌∙◌, arith, false, not, bit_and, ◌==◌, if◌then◌else◌, ltb,
  List, [], ◌∷◌, ◌++◌, length, length-append, take, drop, take-append, drop-append, drop-drop,
  append_assoc, Option, some, none, ◌⊎◌, inl, inr, Bool-cases,
}
use native.Mathlib.Nat.{add-zero}
use message_io.Ws.Coding.{
  OpCode, Data, Control, data_op, control_op, continue, text, binary, close, ping, pong,
  opcode_to_u8, opcode_from_u8,
}
use message_io.Ws.Coding.Codes.{IsWireOpCode, opcode_from_u8-to_u8}
use message_io.Ws.Data.{Mask, FrameHeader, ok}
use message_io.Ws.Header.{
  LengthFormat, u8, u16, u64, for_length, for_byte, length_byte, extra_bytes, length_bytes,
  mask_bytes, is_some, header_len, first_byte, second_byte, format_header, be_value, Cursor, unread,
  advance, parse_checked, parse_mask, parse_length, parse_internal, parse,
}
use message_io.Ws.Header.Integers.{be_value-be_bytes, length-be_bytes}
use message_io.Ws.Header.Flags.{first_byte_fields, second_byte_fields, for_byte-length_byte}

-- An opcode that is no reserved one: `parse` refuses those.
abbrev pub IsKnownOpCode : OpCode → Type 0
IsKnownOpCode (data_op (Data.reserved i)) = ⊥
IsKnownOpCode (control_op (Control.reserved i)) = ⊥
IsKnownOpCode _ = Unit

pub known-wire : (c : OpCode) → IsKnownOpCode c → IsWireOpCode c
known-wire (data_op (Data.reserved i)) known = absurd known
known-wire (control_op (Control.reserved i)) known = absurd known
known-wire (data_op continue) known = tt
known-wire (data_op text) known = tt
known-wire (data_op binary) known = tt
known-wire (control_op close) known = tt
known-wire (control_op ping) known = tt
known-wire (control_op pong) known = tt

for_length-cases :
    (len : ℕ)
    → (for_length len ≡ u8 len)
      ⊎ (((for_length len ≡ u16) × (len < 65536)) ⊎ (for_length len ≡ u64))
unfolding for_length
for_length-cases len = elim (Bool-cases (ltb len 126)) [
  | inl small ↦ inl (rw small (ap u8 (ground arith)))
  | inr large ↦ rw large (elim (Bool-cases (ltb len 65536)) [
    | inl middle ↦ inr (inl (rw middle, ground arith))
    | inr huge ↦ inr (inr (rw huge))
  ])
]

-- What `parse` reads back of the length: its integer, if the length byte announces one.
abbrev pub LengthRead : ℕ → LengthFormat → Type 0
LengthRead len fmt =
    (length (length_bytes fmt len) ≡ extra_bytes fmt)
    × ((if ltb 0 (extra_bytes fmt) then be_value 0 (length_bytes fmt len) else length_byte fmt)
        ≡ len)

pub length_read : (len : ℕ) → len < 2 ^ 64 → LengthRead len (for_length len)
length_read len h = elim (for_length-cases len) [
  | inl e ↦ rw e (refl, refl)
  | inr (inl (e, lt)) ↦ rw e (
    length-be_bytes 2 (len % 2 ^ 16),
    be_value-be_bytes 2 (len % 2 ^ 16) (omega arith) ∙ omega arith,
  )
  | inr (inr e) ↦ rw e (length-be_bytes 8 len, be_value-be_bytes 8 len h)
]

pub length-mask_bytes : (m : Option Mask) → length (mask_bytes m) ≡ (if is_some m then 4 else 0)
length-mask_bytes none = refl
length-mask_bytes (some (a, b, c, d)) = refl

read_int :
    (n : ℕ) (int more : List ℕ)
    → length int ≡ n
    → (ltb (length (int ++ more)) n ≡ false) × (take n (int ++ more) ≡ int)
read_int n int more size =
    (ground (arith, length-append int more), rw (← size) (take-append int more))

pub unread-advance :
    (cur : Cursor) (xs ys : List ℕ) → unread cur ≡ xs ++ ys → unread (advance (length xs) cur) ≡ ys
unread-advance cur xs ys e =
    drop-drop cur.position (length xs) cur.bytes ∙ ap (drop (length xs)) e ∙ drop-append xs ys

module _ (P : Type 0) where
  parse_checked-known :
      (first len : ℕ) (mask : Option Mask) (c : OpCode)
      → IsKnownOpCode c
      → parse_checked P first len mask c
        ≡ ok (
            some (
              record {
                is_final = not (bit_and first 0x80 == 0);
                rsv1 = not (bit_and first 0x40 == 0);
                rsv2 = not (bit_and first 0x20 == 0);
                rsv3 = not (bit_and first 0x10 == 0);
                opcode = c;
                mask = mask;
              },
              len,
            ))
  unfolding parse_checked
  parse_checked-known first len mask (data_op (Data.reserved i)) known = absurd known
  parse_checked-known first len mask (control_op (Control.reserved i)) known = absurd known
  parse_checked-known first len mask (data_op continue) known = refl
  parse_checked-known first len mask (data_op text) known = refl
  parse_checked-known first len mask (data_op binary) known = refl
  parse_checked-known first len mask (control_op close) known = refl
  parse_checked-known first len mask (control_op ping) known = refl
  parse_checked-known first len mask (control_op pong) known = refl

  -- The mask's bytes are taken exactly when the flag announces them.
  parse_mask-eq :
      (m : Option Mask) (first second len : ℕ) (c : OpCode) (cur : Cursor) (rest : List ℕ)
      → not (bit_and second 0x80 == 0) ≡ is_some m
      → unread cur ≡ mask_bytes m ++ rest
      → parse_mask P first second len c cur
        ≡ (parse_checked P first len m c, advance (length (mask_bytes m)) cur)
  unfolding parse_mask
  parse_mask-eq none first second len c cur rest flag e = rw flag (rw (add-zero cur.position))
  parse_mask-eq (some (a, b, d, g)) first second len c cur rest flag e = rw flag (rw e)

  -- The length's integer is taken exactly when the length byte announces it.
  pub parse_length-eq :
      (fmt : LengthFormat) (first second : ℕ) (c : OpCode) (cur : Cursor) (int more : List ℕ)
      → for_byte (bit_and second 0x7f) ≡ fmt
      → bit_and second 0x7f ≡ length_byte fmt
      → length int ≡ extra_bytes fmt
      → unread cur ≡ int ++ more
      → parse_length P first second c cur
        ≡ parse_mask P first second
            (if ltb 0 (extra_bytes fmt) then be_value 0 int else length_byte fmt)
            c
            (advance (length int) cur)
  unfolding parse_length
  parse_length-eq (u8 b) first second c cur [] more fb lb size e =
      rw (fb, lb, add-zero cur.position)
  parse_length-eq (u8 b) first second c cur (x ∷ int) more fb lb size e = absurd (omega arith)
  parse_length-eq u16 first second c cur int more fb lb size e =
      let (enough, taken) = read_int 2 int more size in rw (fb, e) (rw (enough, taken, size))
  parse_length-eq u64 first second c cur int more fb lb size e =
      let (enough, taken) = read_int 8 int more size in rw (fb, e) (rw (enough, taken, size))

  pub parse_internal-eq :
      (first second : ℕ) (c : OpCode) (cur : Cursor) (tail : List ℕ)
      → unread cur ≡ first ∷ second ∷ tail
      → opcode_from_u8 (bit_and first 0x0f) ≡ some c
      → parse_internal P cur ≡ parse_length P first second c (advance 2 cur)
  unfolding parse_internal
  parse_internal-eq first second c cur tail e o = rw (e, parse_internal) (rw o)

  parse-some :
      (cur : Cursor) {x : FrameHeader × ℕ} {cur' : Cursor}
      → parse_internal P cur ≡ (ok (some x), cur')
      → parse P cur ≡ (ok (some x), cur')
  unfolding parse
  parse-some cur e = rw e

  module _ (h : FrameHeader) (len : ℕ) (known : IsKnownOpCode h.opcode) where
    fits : opcode_to_u8 h.opcode < 16
    fits = (opcode_from_u8-to_u8 h.opcode (known-wire h.opcode known)).0

    checked : parse_checked P (first_byte h) len h.mask h.opcode ≡ ok (some (h, len))
    checked =
        let (f, r, s, t, o) = first_byte_fields h fits in
        parse_checked-known (first_byte h) len h.mask h.opcode known ∙ rw (f, r, s, t)

    pub opcode_read : opcode_from_u8 (bit_and (first_byte h) 0x0f) ≡ some h.opcode
    opcode_read =
        rw (first_byte_fields h fits).4
          (opcode_from_u8-to_u8 h.opcode (known-wire h.opcode known)).1

    int : List ℕ
    int = length_bytes (for_length len) len

    after_length :
        (cur : Cursor) (rest : List ℕ)
        → len < 2 ^ 64
        → unread cur ≡ int ++ (mask_bytes h.mask ++ rest)
        → parse_length P (first_byte h) (second_byte h len) h.opcode cur
          ≡ (ok (some (h, len)), advance (length (mask_bytes h.mask)) (advance (length int) cur))
    unfolding int
    after_length cur rest hl e =
        let (flag, low) = second_byte_fields h len in
        let (size, value) = length_read len hl in
        parse_length-eq (for_length len) (first_byte h) (second_byte h len) h.opcode cur int
          (mask_bytes h.mask ++ rest) (rw low (for_byte-length_byte len)) low size e
        ∙ rw value (
            parse_mask-eq h.mask (first_byte h) (second_byte h len) len h.opcode
              (advance (length int) cur) rest flag
              (unread-advance cur int (mask_bytes h.mask ++ rest) e)
            ∙ rw checked)

    length-header :
        (pos : ℕ)
        → len < 2 ^ 64
        → ((pos + 2) + length int) + length (mask_bytes h.mask) ≡ pos + header_len h len
    unfolding int header_len
    length-header pos hl = omega (arith, (length_read len hl).0, length-mask_bytes h.mask)

    -- A written header is read back with its length, and the cursor stands behind it, as many bytes
    -- on as `len` says. The opcode is no reserved one, and the length is a 64-bit number.
    pub parse-format_header :
        (cur : Cursor) (rest : List ℕ)
        → len < 2 ^ 64
        → unread cur ≡ format_header h len ++ rest
        → parse P cur ≡ (ok (some (h, len)), advance (header_len h len) cur)
    unfolding format_header int
    parse-format_header cur rest hl e =
        parse-some cur (
          parse_internal-eq (first_byte h) (second_byte h len) h.opcode cur _ e opcode_read
          ∙ after_length (advance 2 cur) rest hl (
              unread-advance cur (first_byte h ∷ second_byte h len ∷ []) _ e
              ∙ append_assoc int (mask_bytes h.mask) rest))
        ∙ ap (λ n. (ok (some (h, len)), record cur { position = n }))
            (length-header cur.position hl)
