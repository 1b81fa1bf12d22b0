-- ===== src/Ws/Header/Flags.antt =====
-- The bits of the two leading bytes.
use message_io.Prelude.{
  ℕ, ◌+◌, ◌*◌, ◌%◌, ◌<◌, ◌≡◌, refl, arith, Bool, true, false, not, bit_and, bit_or, ◌==◌,
  if◌then◌else◌,
}
use message_io.Prelude.Bits.{
  bit_or_split, bit_or-zero, top_bit, bit_6, bit_5, bit_4, low_4, low_7, set_top_bit,
}
use message_io.Ws.Coding.{opcode_to_u8}
use message_io.Ws.Data.{FrameHeader}
use message_io.Ws.Header.{first_byte, second_byte, for_length, for_byte, length_byte, is_some}

abbrev nibble : Bool → Bool → Bool → Bool → ℕ
nibble f r s t =
    (if f then 8 else 0) + (if r then 4 else 0) + (if s then 2 else 0) + (if t then 1 else 0)

-- A bit above the opcode is set in the upper nibble.
or_upper : (q m c : ℕ) → c < 16 → bit_or (q * 16 + c) (m * 16) ≡ bit_or q m * 16 + c
or_upper q m c h = ground (arith, bit_or_split 4 q m c 0 h (omega arith), bit_or-zero c)

or_flag :
    (q m c : ℕ) (b : Bool)
    → c < 16
    → bit_or q m ≡ q + m
    → bit_or (q * 16 + c) (if b then m * 16 else 0) ≡ (q + (if b then m else 0)) * 16 + c
or_flag q m c true h e = omega (arith, or_upper q m c h, e)
or_flag q m c false h e = rw (bit_or-zero (q * 16 + c)) (omega arith)

clear_4 : (f : Bool) → bit_or (if f then 8 else 0) 4 ≡ (if f then 8 else 0) + 4
clear_4 true = refl
clear_4 false = refl

clear_2 :
    (f r : Bool)
    → bit_or ((if f then 8 else 0) + (if r then 4 else 0)) 2
      ≡ (if f then 8 else 0) + (if r then 4 else 0) + 2
clear_2 true true = refl
clear_2 true false = refl
clear_2 false true = refl
clear_2 false false = refl

clear_1 :
    (f r s : Bool)
    → bit_or ((if f then 8 else 0) + (if r then 4 else 0) + (if s then 2 else 0)) 1
      ≡ (if f then 8 else 0) + (if r then 4 else 0) + (if s then 2 else 0) + 1
clear_1 true true true = refl
clear_1 true true false = refl
clear_1 true false true = refl
clear_1 true false false = refl
clear_1 false true true = refl
clear_1 false true false = refl
clear_1 false false true = refl
clear_1 false false false = refl

flags_sum :
    (f r s t : Bool) (c : ℕ)
    → c < 16
    → bit_or
        (bit_or
          (bit_or (bit_or (0 * 16 + c) (if f then 8 * 16 else 0)) (if r then 4 * 16 else 0))
          (if s then 2 * 16 else 0))
        (if t then 1 * 16 else 0)
      ≡ nibble f r s t * 16 + c
flags_sum f r s t c h = ground (
  arith,
  or_flag 0 8 c f h refl,
  or_flag (if f then 8 else 0) 4 c r h (clear_4 f),
  or_flag ((if f then 8 else 0) + (if r then 4 else 0)) 2 c s h (clear_2 f r),
  or_flag ((if f then 8 else 0) + (if r then 4 else 0) + (if s then 2 else 0)) 1 c t h
      (clear_1 f r s),
)

pub first_byte_sum :
    (h : FrameHeader)
    → opcode_to_u8 h.opcode < 16
    → first_byte h ≡ nibble h.is_final h.rsv1 h.rsv2 h.rsv3 * 16 + opcode_to_u8 h.opcode
unfolding first_byte
first_byte_sum h lt =
    rw (zeros) at (flags_sum h.is_final h.rsv1 h.rsv2 h.rsv3 (opcode_to_u8 h.opcode) lt)
  where
    zeros : 0 * 16 + opcode_to_u8 h.opcode ≡ opcode_to_u8 h.opcode
    zeros = omega arith

nibble-lt : (f r s t : Bool) → nibble f r s t < 16
nibble-lt f r s t = ground arith

-- The five fields of the first byte, read back.
pub first_byte_fields :
    (h : FrameHeader)
    → opcode_to_u8 h.opcode < 16
    → (not (bit_and (first_byte h) 0x80 == 0) ≡ h.is_final)
      × (not (bit_and (first_byte h) 0x40 == 0) ≡ h.rsv1)
      × (not (bit_and (first_byte h) 0x20 == 0) ≡ h.rsv2)
      × (not (bit_and (first_byte h) 0x10 == 0) ≡ h.rsv3)
      × (bit_and (first_byte h) 0x0f ≡ opcode_to_u8 h.opcode)
first_byte_fields h lt = rw (first_byte_sum h lt) (
    rw (top_bit b small, bit_6 b small, bit_5 b small, bit_4 b small, low_4 b small)
      (ground arith, ground arith, ground arith, ground arith, omega arith))
  where
    b : ℕ
    b = nibble h.is_final h.rsv1 h.rsv2 h.rsv3 * 16 + opcode_to_u8 h.opcode

    small : b < 256
    small = omega (arith, nibble-lt h.is_final h.rsv1 h.rsv2 h.rsv3)

length_byte-lt : (len : ℕ) → length_byte (for_length len) < 128
unfolding for_length
length_byte-lt len = ground arith

-- The two fields of the second byte, read back.
pub second_byte_fields :
    (h : FrameHeader) (len : ℕ)
    → (not (bit_and (second_byte h len) 0x80 == 0) ≡ is_some h.mask)
      × (bit_and (second_byte h len) 0x7f ≡ length_byte (for_length len))
unfolding second_byte
second_byte_fields h len =
    fields (length_byte (for_length len)) (is_some h.mask) (length_byte-lt len)
  where
    fields :
        (b : ℕ) (masked : Bool)
        → b < 128
        → (not (bit_and (bit_or b (if masked then 0x80 else 0)) 0x80 == 0) ≡ masked)
          × (bit_and (bit_or b (if masked then 0x80 else 0)) 0x7f ≡ b)
    fields b true lt = rw (set_top_bit b lt) (
        rw (top_bit (b + 128) (omega arith), low_7 (b + 128) (omega arith))
          (ground arith, omega arith))
    fields b false lt =
        rw (bit_or-zero b)
          (rw (top_bit b (omega arith), low_7 b (omega arith)) (ground arith, omega arith))

-- The format that the length byte announces is the one that the length was written in.
pub for_byte-length_byte : (len : ℕ) → for_byte (length_byte (for_length len)) ≡ for_length len
unfolding for_byte for_length
for_byte-length_byte len = ground (arith, low_7 (len % 256))
