-- ===== src/Ws/Tests.antt =====
-- The theorems on the WebSocket codes and headers at concrete inputs.
use message_io.Prelude.{ℕ, ◌≡◌, refl, arith, true, false, some, [], ◌∷◌}
use message_io.Ws.Coding.{data_op, text, opcode_to_u8}
use message_io.Ws.Data.{FrameHeader, ok}
use message_io.Ws.Header.{
  Cursor, advance, parse, format_header, first_byte, second_byte, for_length, be_bytes, header_len,
}
use message_io.Ws.Header.RoundTrip.{parse-format_header}

abbrev masked_text : FrameHeader
masked_text = record {
  is_final = true;
  rsv1 = false;
  rsv2 = false;
  rsv3 = false;
  opcode = data_op text;
  mask = some (1, 2, 3, 4);
}

abbrev whole : Cursor
whole = record { bytes = 0x81 ∷ 0xfe ∷ 1 ∷ 0x2c ∷ 1 ∷ 2 ∷ 3 ∷ 4 ∷ 9 ∷ []; position = 0 }

parse-format_header_example :
    parse ℕ whole ≡ (ok (some (masked_text, 300)), advance (header_len masked_text 300) whole)
unfolding format_header first_byte second_byte for_length opcode_to_u8 be_bytes
parse-format_header_example =
    parse-format_header ℕ masked_text 300 tt whole (9 ∷ []) (omega arith) refl

abbrev part : Cursor
part = record { bytes = 0x81 ∷ 0xfe ∷ 1 ∷ []; position = 0 }
