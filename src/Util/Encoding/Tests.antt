-- ===== src/Util/Encoding/Tests.antt =====
-- The theorems on the decoder at concrete inputs, with the codec of `Leb128`.
use message_io.Prelude.{ℕ, ◌≡◌, refl, arith, List, [], ◌∷◌}
use message_io.Util.Encoding.{
  Decoder, done, panic, encode_size, decode_size, decode, decode_all, try_decode, empty_decoder,
}
use message_io.Util.Encoding.Frames.{frame, frames}
use message_io.Util.Encoding.Loop.{Progress}
use message_io.Util.Encoding.Stream.{decode-Progress, decode_all-frames}
use message_io.Util.Encoding.Faults.{decode_all_overlong}
use message_io.Util.Encoding.Total.{try_decode_total}
use message_io.Util.Encoding.Leb128.{leb128, leb128-laws, write, read}

abbrev two_messages : List (List ℕ)
two_messages = (7 ∷ 8 ∷ []) ∷ [] ∷ []

abbrev three_chunks : List (List ℕ)
three_chunks = (2 ∷ []) ∷ (7 ∷ []) ∷ (8 ∷ 0 ∷ []) ∷ []

decode_all-frames_example :
    decode_all leb128 empty_decoder three_chunks ≡ done (empty_decoder, two_messages)
unfolding frames frame encode_size write
decode_all-frames_example =
    decode_all-frames leb128 leb128-laws two_messages three_chunks (omega arith) refl

decode-Progress_example :
    Progress leb128 leb128-laws
      (decode leb128 (record { stored = 2 ∷ [] }) (7 ∷ 8 ∷ []))
      []
      (0 ∷ [])
      two_messages
unfolding frames frame encode_size write
decode-Progress_example =
    decode-Progress leb128 leb128-laws (2 ∷ []) two_messages (7 ∷ 8 ∷ []) (0 ∷ []) (omega arith)
      refl (omega arith)

abbrev ten_80 : List ℕ
ten_80 = 0x80 ∷ 0x80 ∷ 0x80 ∷ 0x80 ∷ 0x80 ∷ 0x80 ∷ 0x80 ∷ 0x80 ∷ 0x80 ∷ 0x80 ∷ []

decode_all_overlong_example : decode_all leb128 empty_decoder ((0x80 ∷ ten_80) ∷ [] ∷ []) ≡ panic
unfolding decode_size read
decode_all_overlong_example = decode_all_overlong leb128 0x80 ten_80 [] [] refl (omega arith)

-- An input that is no sequence of frames.
try_decode_total_example :
    (r : Decoder × List (List ℕ)) × (try_decode leb128 empty_decoder (1 ∷ 9 ∷ 0xff ∷ []) ≡ done r)
try_decode_total_example = try_decode_total leb128 leb128-laws empty_decoder (1 ∷ 9 ∷ 0xff ∷ [])
