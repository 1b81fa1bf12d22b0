-- ===== src/Ws/Data.antt =====
-- The data of the WebSocket protocol: src/adapters/ws/protocol/frame/frame.rs,
-- src/adapters/ws/protocol/message.rs and src/adapters/ws/error.rs. `P` is the type of packets of
-- the crate `net_packet`, and a `String` is the list of its bytes.
use message_io.Prelude.{ℕ, Bool, Option, List}
use message_io.Ws.Coding.{Data, OpCode, CloseCode}

-- `[u8; 4]`.
abbrev pub Mask : Type 0
Mask = ℕ × ℕ × ℕ × ℕ

pub record FrameHeader : Type 0 where
  pub is_final : Bool
  pub rsv1 : Bool
  pub rsv2 : Bool
  pub rsv3 : Bool
  pub opcode : OpCode
  pub mask : Option Mask

pub record CloseFrame (P : Type 0) : Type 0 where
  pub code : CloseCode
  pub reason : P

pub record Frame (P : Type 0) : Type 0 where
  pub header : FrameHeader
  pub payload : P

-- `enum Message`; its variant `Frame` is `raw_frame`.
pub data Message (P : Type 0) : Type 0 where
  text : List ℕ → Message P
  binary ping pong : P → Message P
  close : Option (CloseFrame P) → Message P
  raw_frame : Frame P → Message P

-- `io::ErrorKind`: the kinds that the protocol tells apart, and the others by a number.
pub data IoErrorKind : Type 0 where
  would_block interrupted connection_reset unexpected_eof : IoErrorKind
  other_kind : ℕ → IoErrorKind

pub data CapacityError : Type 0 where
  too_many_headers : CapacityError
  message_too_long : ℕ → ℕ → CapacityError  -- size, max_size

-- `enum ProtocolError`, less the two variants that carry values of the crates `http` and `httparse`.
pub data ProtocolError : Type 0 where
  wrong_http_method wrong_http_version missing_connection_upgrade_header : ProtocolError
  missing_upgrade_web_socket_header missing_sec_web_socket_version_header : ProtocolError
  missing_sec_web_socket_key sec_web_socket_accept_key_mismatch junk_after_request : ProtocolError
  custom_response_successful handshake_incomplete : ProtocolError
  send_after_closing received_after_closing non_zero_reserved_bits : ProtocolError
  unmasked_frame_from_client masked_frame_from_server fragmented_control_frame : ProtocolError
  control_frame_too_big : ProtocolError
  unknown_control_frame_type unknown_data_frame_type : ℕ → ProtocolError
  unexpected_continue_frame : ProtocolError
  expected_fragment : Data → ProtocolError
  reset_without_closing_handshake : ProtocolError
  invalid_opcode : ℕ → ProtocolError
  invalid_close_sequence : ProtocolError

-- `enum Error`, less its variants `Url`, `Http` and `HttpFormat`, which the protocol never makes.
pub data Error (P : Type 0) : Type 0 where
  connection_closed already_closed : Error P
  io : IoErrorKind → Error P
  capacity : CapacityError → Error P
  protocol_error : ProtocolError → Error P
  write_buffer_full : Message P → Error P
  utf8 attack_attempt : Error P

-- `Result` of the source, and `panic` for a panic.
pub data Result {ℓ} (P : Type 0) (A : Type ℓ) : Type ℓ where
  ok : A → Result P A
  err : Error P → Result P A
  panic : Result P A
