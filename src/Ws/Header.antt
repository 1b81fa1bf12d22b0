-- ===== src/Ws/Header.antt =====
-- `FrameHeader` and `LengthFormat` of src/adapters/ws/protocol/frame/frame.rs. An output is the
-- list of the bytes that are written to it, and writes to it do not fail, as with a `Vec`.
pub mod Integers
pub mod Flags
pub mod RoundTrip
pub mod Cut
use message_io.Prelude.{
  ℕ, zero, suc, ◌+◌, ◌-◌, ◌*◌, ◌/◌, ◌%◌, ◌^◌, bit_and, bit_or, Bool, true, false, not, ◌&&◌, Option,
  none, some, List, [], ◌∷◌, ◌++◌, length, take, drop, ltb, leb, ◌==◌, if◌then◌else◌,
}
use message_io.Ws.Coding.{
  OpCode, Data, Control, data_op, control_op, close, opcode_to_u8, opcode_from_u8,
}
use message_io.Ws.Data.{Mask, FrameHeader, Result, ok, err, panic, protocol_error, invalid_opcode}

-- `FrameHeader::default()`.
unfoldable pub default_header : FrameHeader
default_header = record {
  is_final = true;
  rsv1 = false;
  rsv2 = false;
  rsv3 = false;
  opcode = control_op close;
  mask = none;
}

pub data LengthFormat : Type 0 where
  u8 : ℕ → LengthFormat
  u16 u64 : LengthFormat

unfoldable pub for_length : ℕ → LengthFormat
for_length len = if ltb len 126 then u8 (len % 2 ^ 8) else if ltb len 65536 then u16 else u64

abbrev pub extra_bytes : LengthFormat → ℕ
extra_bytes (u8 _) = 0
extra_bytes u16 = 2
extra_bytes u64 = 8

abbrev pub length_byte : LengthFormat → ℕ
length_byte (u8 b) = b
length_byte u16 = 126
length_byte u64 = 127

unfoldable pub for_byte : ℕ → LengthFormat
for_byte byte =
    let b = bit_and byte 0x7f in if b == 126 then u16 else if b == 127 then u64 else u8 b

abbrev pub is_some {ℓ} : {A : Type ℓ} → Option A → Bool
is_some none = false
is_some (some _) = true

-- `FrameHeader::len`.
unfoldable pub header_len : FrameHeader → ℕ → ℕ
header_len h len = 2 + extra_bytes (for_length len) + (if is_some h.mask then 4 else 0)

-- An integer of `n` bytes in network order, as `byteorder` writes it.
unfoldable pub be_bytes : ℕ → ℕ → List ℕ
be_bytes zero x = []
be_bytes (suc n) x = be_bytes n (x / 256) ++ (x % 256 ∷ [])

unfoldable pub be_value : ℕ → List ℕ → ℕ
be_value acc [] = acc
be_value acc (b ∷ bs) = be_value (acc * 256 + b) bs

abbrev pub mask_bytes : Option Mask → List ℕ
mask_bytes none = []
mask_bytes (some (a, b, c, d)) = a ∷ b ∷ c ∷ d ∷ []

abbrev pub length_bytes : LengthFormat → ℕ → List ℕ
length_bytes (u8 _) len = []
length_bytes u16 len = be_bytes 2 (len % 2 ^ 16)
length_bytes u64 len = be_bytes 8 len

-- The first byte: the opcode and the four flags.
unfoldable pub first_byte : FrameHeader → ℕ
first_byte h =
    bit_or
      (bit_or
        (bit_or (bit_or (opcode_to_u8 h.opcode) (if h.is_final then 0x80 else 0))
          (if h.rsv1 then 0x40 else 0))
        (if h.rsv2 then 0x20 else 0))
      (if h.rsv3 then 0x10 else 0)

unfoldable pub second_byte : FrameHeader → ℕ → ℕ
second_byte h len = bit_or (length_byte (for_length len)) (if is_some h.mask then 0x80 else 0)

-- `FrameHeader::format`.
unfoldable pub format_header : FrameHeader → ℕ → List ℕ
format_header h len =
    first_byte h ∷ second_byte h len ∷ (length_bytes (for_length len) len ++ mask_bytes h.mask)

-- `io::Cursor` over bytes in memory: reads do not fail, and give what is there.
pub record Cursor : Type 0 where
  pub bytes : List ℕ
  pub position : ℕ

abbrev pub unread : Cursor → List ℕ
unread c = drop c.position c.bytes

abbrev pub advance : ℕ → Cursor → Cursor
advance n c = record c { position = c.position + n }

module _ (P : Type 0) where
  -- The end of `parse_internal`: the opcode is judged last.
  unfoldable pub parse_checked : ℕ → ℕ → Option Mask → OpCode → Result P (Option (FrameHeader × ℕ))
  parse_checked first len mask (data_op (Data.reserved _)) =
      err (protocol_error (invalid_opcode (bit_and first 0x0f)))
  parse_checked first len mask (control_op (Control.reserved _)) =
      err (protocol_error (invalid_opcode (bit_and first 0x0f)))
  parse_checked first len mask opcode = ok (
      some (
        record {
          is_final = not (bit_and first 0x80 == 0);
          rsv1 = not (bit_and first 0x40 == 0);
          rsv2 = not (bit_and first 0x20 == 0);
          rsv3 = not (bit_and first 0x10 == 0);
          opcode = opcode;
          mask = mask;
        },
        len,
      ))

  -- The mask, four bytes if the top bit of the second byte is set.
  unfoldable pub parse_mask :
      ℕ → ℕ → ℕ → OpCode → Cursor → Result P (Option (FrameHeader × ℕ)) × Cursor
  parse_mask first second len opcode c =
      if not (bit_and second 0x80 == 0)
      then (elim (unread c) [
        | a ∷ b ∷ d ∷ e ∷ _ ↦ (parse_checked first len (some (a, b, d, e)) opcode, advance 4 c)
        | _ ↦ (ok none, advance (length (unread c)) c)
      ])
      else (parse_checked first len none opcode, c)

  -- The length: the seven bits of the second byte, or an integer that follows.
  unfoldable pub parse_length :
      ℕ → ℕ → OpCode → Cursor → Result P (Option (FrameHeader × ℕ)) × Cursor
  parse_length first second opcode c =
      let length_length = extra_bytes (for_byte (bit_and second 0x7f)) in
      if ltb 0 length_length
      then (if ltb (length (unread c)) length_length
          then (ok none, c)
          else parse_mask first second (be_value 0 (take length_length (unread c))) opcode
              (advance length_length c))
      else parse_mask first second (bit_and second 0x7f) opcode c

  -- `parse_internal`, from its first two bytes on.
  unfoldable pub parse_internal : Cursor → Result P (Option (FrameHeader × ℕ)) × Cursor
  parse_internal c = elim (unread c) [
    | first ∷ second ∷ _ ↦ elim (opcode_from_u8 (bit_and first 0x0f)) [
      | some opcode ↦ parse_length first second opcode (advance 2 c)
      | none ↦ (panic, advance 2 c)
    ]
    | _ ↦ (ok none, advance (length (unread c)) c)
  ]

  -- `parse` gives the cursor its position back when the header is incomplete.
  abbrev pub restore :
      ℕ
      → Result P (Option (FrameHeader × ℕ)) × Cursor
      → Result P (Option (FrameHeader × ℕ)) × Cursor
  restore initial (ok none, c) = (ok none, record c { position = initial })
  restore initial r = r

  unfoldable pub parse : Cursor → Result P (Option (FrameHeader × ℕ)) × Cursor
  parse c = restore c.position (parse_internal c)
