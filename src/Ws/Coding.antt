-- ===== src/Ws/Coding.antt =====
-- src/adapters/ws/protocol/frame/coding.rs: opcodes and close codes.
pub mod Codes
use message_io.Prelude.{
  ℕ, ◌+◌, ◌≤◌, ◌<◌, Bool, true, false, ◌&&◌, Option, none, some, leb, ◌==◌, if◌then◌else◌,
}

-- `enum Data` and `enum Control`; a reserved code carries its byte.
pub data Data : Type 0 where
  continue text binary : Data
  reserved : ℕ → Data

pub data Control : Type 0 where
  close ping pong : Control
  reserved : ℕ → Control

-- `enum OpCode`; its variants `Data` and `Control`.
pub data OpCode : Type 0 where
  data_op : Data → OpCode
  control_op : Control → OpCode

-- `From<OpCode> for u8`.
unfoldable pub opcode_to_u8 : OpCode → ℕ
opcode_to_u8 (data_op continue) = 0
opcode_to_u8 (data_op text) = 1
opcode_to_u8 (data_op binary) = 2
opcode_to_u8 (data_op (Data.reserved i)) = i
opcode_to_u8 (control_op close) = 8
opcode_to_u8 (control_op ping) = 9
opcode_to_u8 (control_op pong) = 10
opcode_to_u8 (control_op (Control.reserved i)) = i

-- `From<u8> for OpCode`; the last arm panics, which is `none`.
pub opcode_from_u8 : ℕ → Option OpCode
opcode_from_u8 byte =
    if byte == 0
    then some (data_op continue)
    else if byte == 1
    then some (data_op text)
    else if byte == 2
    then some (data_op binary)
    else if leb 3 byte && leb byte 7
    then some (data_op (Data.reserved byte))
    else if byte == 8
    then some (control_op close)
    else if byte == 9
    then some (control_op ping)
    else if byte == 10
    then some (control_op pong)
    else if leb 11 byte && leb byte 15
    then some (control_op (Control.reserved byte))
    else none

pub data CloseCode : Type 0 where
  normal away protocol unsupported status abnormal invalid policy size : CloseCode
  extension error restart again tls : CloseCode
  reserved iana library bad : ℕ → CloseCode

pub is_allowed : CloseCode → Bool
is_allowed (bad _) = false
is_allowed (CloseCode.reserved _) = false
is_allowed status = false
is_allowed abnormal = false
is_allowed tls = false
is_allowed _ = true

-- `From<CloseCode> for u16`.
pub close_code_to_u16 : CloseCode → ℕ
close_code_to_u16 normal = 1000
close_code_to_u16 away = 1001
close_code_to_u16 protocol = 1002
close_code_to_u16 unsupported = 1003
close_code_to_u16 status = 1005
close_code_to_u16 abnormal = 1006
close_code_to_u16 invalid = 1007
close_code_to_u16 policy = 1008
close_code_to_u16 size = 1009
close_code_to_u16 extension = 1010
close_code_to_u16 error = 1011
close_code_to_u16 restart = 1012
close_code_to_u16 again = 1013
close_code_to_u16 tls = 1015
close_code_to_u16 (CloseCode.reserved code) = code
close_code_to_u16 (iana code) = code
close_code_to_u16 (library code) = code
close_code_to_u16 (bad code) = code

-- `From<u16> for CloseCode`, the arms in their order.
pub close_code_from_u16 : ℕ → CloseCode
close_code_from_u16 code =
    if code == 1000
    then normal
    else if code == 1001
    then away
    else if code == 1002
    then protocol
    else if code == 1003
    then unsupported
    else if code == 1005
    then status
    else if code == 1006
    then abnormal
    else if code == 1007
    then invalid
    else if code == 1008
    then policy
    else if code == 1009
    then size
    else if code == 1010
    then extension
    else if code == 1011
    then error
    else if code == 1012
    then restart
    else if code == 1013
    then again
    else if code == 1015
    then tls
    else if leb 1 code && leb code 999
    then bad code
    else if leb 1016 code && leb code 2999
    then CloseCode.reserved code
    else if leb 3000 code && leb code 3999
    then iana code
    else if leb 4000 code && leb code 4999
    then library code
    else bad code
