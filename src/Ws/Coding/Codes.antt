-- ===== src/Ws/Coding/Codes.antt =====
-- Reading and writing codes, and the close codes that a peer may send.
use message_io.Prelude.{ℕ, ◌≤◌, ◌<◌, ◌≡◌, ◌⊎◌, ◌↔◌, inl, inr, refl, arith, true, some, Option-cases}
use message_io.Ws.Coding.{
  Data, Control, OpCode, continue, text, binary, close, ping, pong, data_op, control_op,
  opcode_to_u8, opcode_from_u8, is_allowed, close_code_to_u16, close_code_from_u16,
}

-- An opcode that a nibble can carry: the reserved ones keep to their ranges.
abbrev pub IsWireOpCode : OpCode → Type 0
IsWireOpCode (data_op (Data.reserved i)) = (3 ≤ i) × (i ≤ 7)
IsWireOpCode (control_op (Control.reserved i)) = (11 ≤ i) × (i ≤ 15)
IsWireOpCode _ = Unit

-- A written opcode fits four bits and is read back, for an opcode whose reserved code keeps to its
-- range.
pub opcode_from_u8-to_u8 :
    (c : OpCode)
    → IsWireOpCode c
    → (opcode_to_u8 c < 16) × (opcode_from_u8 (opcode_to_u8 c) ≡ some c)
unfolding opcode_to_u8 opcode_from_u8
opcode_from_u8-to_u8 (data_op continue) h = (omega arith, refl)
opcode_from_u8-to_u8 (data_op text) h = (omega arith, refl)
opcode_from_u8-to_u8 (data_op binary) h = (omega arith, refl)
opcode_from_u8-to_u8 (data_op (Data.reserved i)) h = (omega arith, ground arith)
opcode_from_u8-to_u8 (control_op close) h = (omega arith, refl)
opcode_from_u8-to_u8 (control_op ping) h = (omega arith, refl)
opcode_from_u8-to_u8 (control_op pong) h = (omega arith, refl)
opcode_from_u8-to_u8 (control_op (Control.reserved i)) h = (omega arith, ground arith)

opcode_from_u8-IsWireOpCode : (b : ℕ) (c : OpCode) → opcode_from_u8 b ≡ some c → IsWireOpCode c
unfolding opcode_from_u8
opcode_from_u8-IsWireOpCode b (data_op (Data.reserved i)) e = ground arith
opcode_from_u8-IsWireOpCode b (control_op (Control.reserved i)) e = ground arith
opcode_from_u8-IsWireOpCode b (data_op continue) e = tt
opcode_from_u8-IsWireOpCode b (data_op text) e = tt
opcode_from_u8-IsWireOpCode b (data_op binary) e = tt
opcode_from_u8-IsWireOpCode b (control_op close) e = tt
opcode_from_u8-IsWireOpCode b (control_op ping) e = tt
opcode_from_u8-IsWireOpCode b (control_op pong) e = tt

-- A byte below 16 is read as an opcode that is written back as the byte and whose reserved code
-- keeps to its range.
pub opcode_to_u8-from_u8 :
    (b : ℕ)
    → b < 16
    → (c : OpCode) × (opcode_from_u8 b ≡ some c) × (opcode_to_u8 c ≡ b) × IsWireOpCode c
unfolding opcode_to_u8 opcode_from_u8
opcode_to_u8-from_u8 b h = elim (Option-cases (opcode_from_u8 b)) [
  | inl e ↦ absurd (ground arith)
  | inr (c, e) ↦ (c, e, ground arith, opcode_from_u8-IsWireOpCode b c e)
]

-- The close codes that the RFC lets a peer send.
abbrev pub IsSendable : ℕ → Type 0
IsSendable code =
    ((1000 ≤ code) × (code ≤ 1003))
    ⊎ (((1007 ≤ code) × (code ≤ 1013)) ⊎ ((3000 ≤ code) × (code ≤ 4999)))

-- Every 16-bit code survives the trip through `CloseCode`.
pub close_code_to_u16-from_u16 : (code : ℕ) → close_code_to_u16 (close_code_from_u16 code) ≡ code
unfolding close_code_to_u16 close_code_from_u16
close_code_to_u16-from_u16 code = ground arith

-- A code is allowed exactly when it is one of 1000 to 1003, 1007 to 1013 or 3000 to 4999.
pub is_allowed-from_u16 :
    (code : ℕ) → (is_allowed (close_code_from_u16 code) ≡ true) ↔ IsSendable code
unfolding is_allowed close_code_from_u16
is_allowed-from_u16 code = (λ h. ground arith, λ h. ground arith)
