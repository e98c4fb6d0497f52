-- ===== src/Codec/Tests.antt =====
-- Runs of the codec, and its theorems at concrete inputs.
use Prim.Native.Char.{code}
use Prim.Native.String.{String}
use mathlib.Core.Logic.{◌↔◌}
use go_engine_io.Base.{◌≡◌, ◌≢◌, refl, arith, true, false, [], ◌∷◌, ◌++◌}
use go_engine_io.Base.Int.{pos}
use go_engine_io.Codec.Packet.{Bytes, Packet, IsValid, valid, packet_type_from_byte}
use go_engine_io.Codec.Result.{ok, err, out_of_fuel, invalid_packet_type}
use go_engine_io.Codec.Base64.{
  encode, decode_quanta, decode_string, strip_newlines, enc_char, dec_char,
}
use go_engine_io.Codec.Encoding.{encode_packet, decode_packet}
use go_engine_io.Codec.Encoding.RoundTrip.{decode_packet_sound}
use go_engine_io.Codec.Encoding.Errors.{Refused, decode_packet_refuses}
use go_engine_io.Codec.Payload.{decode_payload}
use go_engine_io.Codec.Payload.Separated.{
  encode_payload, split, decode_segments, decode_record_separator_payload,
}
use go_engine_io.Codec.Payload.Separated.RoundTrip.{Fits}
use go_engine_io.Codec.Payload.Framed.Frames.{Frame}
use go_engine_io.Codec.Payload.Strings.Frames as StringFrames
use go_engine_io.Codec.Payload.Versions.{decode_payload-encode_payload, decode_payload-ends}
use go_engine_io.Codec.Frame.{
  append_webtransport_frame, read_webtransport_packet, read_full, append_header, read_frame_length,
  read_payload, decode_frame_payload,
}
use go_engine_io.Codec.Frame.RoundTrip.{read-append_webtransport_frame}

-- The code points of a text; every text below is ASCII.
abbrev codes : String → Bytes
codes String.[] = []
codes (String.◌∷◌ c s) = code c ∷ codes s

abbrev hello : Packet
hello = record { type = 4; body = codes "hello"; is_binary = false }

abbrev blob : Packet
blob = record { type = 4; body = 1 ∷ 2 ∷ 255 ∷ 0x1e ∷ []; is_binary = true }

hello-IsValid : IsValid hello
hello-IsValid = record { known = omega arith; bytes = omega arith; binary_message = λ e. cc }

blob-IsValid : IsValid blob
blob-IsValid = record { known = omega arith; bytes = omega arith; binary_message = λ _. refl }

hello-Fits : Fits hello
hello-Fits = record { valid = hello-IsValid; separator_free = λ _. omega arith }

blob-Fits : Fits blob
blob-Fits = record { valid = blob-IsValid; separator_free = λ e. cc }

encode_blob : encode_packet blob ≡ codes "bAQL/Hg=="
unfolding encode_packet encode enc_char
encode_blob = refl

-- Line breaks inside base64 are skipped, and stray bits before the padding are ignored.
decode_breaks : decode_packet (codes "bAQL\n/Hh==") ≡ ok blob
unfolding decode_packet decode_string strip_newlines decode_quanta dec_char
decode_breaks = refl

decode_hello : decode_packet (codes "4hello") ≡ ok hello
unfolding decode_packet valid packet_type_from_byte
decode_hello = refl

decode_packet_sound_example :
    IsValid hello × (hello.is_binary ≡ false → encode_packet hello ≡ codes "4hello")
decode_packet_sound_example = decode_packet_sound (codes "4hello") hello (omega arith) decode_hello

decode_packet_refuses_example :
    (decode_packet (codes "7x") ≡ err invalid_packet_type)
    ↔ Refused (codes "7x") invalid_packet_type
decode_packet_refuses_example = decode_packet_refuses (codes "7x") invalid_packet_type (omega arith)

decode_payload-encode_payload_example :
    decode_payload 4 (encode_payload (hello ∷ blob ∷ [])) ≡ ok (hello ∷ blob ∷ [])
decode_payload-encode_payload_example =
    decode_payload-encode_payload hello (blob ∷ []) (hello-Fits, (blob-Fits, tt))

abbrev two_texts : Bytes
two_texts = codes "4hello" ++ (0x1e ∷ codes "4hello")

decode_two_texts : decode_payload 4 two_texts ≡ ok (hello ∷ hello ∷ [])
unfolding decode_payload split decode_segments decode_packet valid packet_type_from_byte
    decode_record_separator_payload
decode_two_texts = refl

decode_payload-ends_example : decode_payload 3 (1 ∷ 255 ∷ []) ≢ err out_of_fuel
decode_payload-ends_example = decode_payload-ends 3 (1 ∷ 255 ∷ [])

-- A v3 text frame and a v3 binary frame.
abbrev text_frame : Frame
text_frame = record { marker = 0; digits = 6 ∷ []; body = codes "4hello" }

abbrev raw_frame : Frame
raw_frame = record { marker = 1; digits = 5 ∷ []; body = 4 ∷ 1 ∷ 2 ∷ 255 ∷ 0x1e ∷ [] }

-- The 19 digits of 2 ^ 63 = 9223372036854775808.
abbrev digits_2_63 : Bytes
digits_2_63 = 9 ∷ 2 ∷ 2 ∷ 3 ∷ 3 ∷ 7 ∷ 2 ∷ 0 ∷ 3 ∷ 6 ∷ 8 ∷ 5 ∷ 4 ∷ 7 ∷ 7 ∷ 5 ∷ 8 ∷ 0 ∷ 8 ∷ []

abbrev string_frame : StringFrames.Frame
string_frame = record { digits = codes "6"; body = codes "4hello" }

read-append_webtransport_frame_example :
    read_webtransport_packet (pos 16) (append_webtransport_frame [] blob ++ (9 ∷ []))
    ≡ ok (blob, 9 ∷ [])
read-append_webtransport_frame_example =
    read-append_webtransport_frame (pos 16) blob (9 ∷ []) blob-IsValid (λ _. omega arith)
      (omega arith)

blob_frame : append_webtransport_frame [] blob ≡ 0x84 ∷ 1 ∷ 2 ∷ 255 ∷ 0x1e ∷ []
unfolding append_webtransport_frame append_header
blob_frame = refl

read_blob : read_webtransport_packet (pos 16) (0x84 ∷ 1 ∷ 2 ∷ 255 ∷ 0x1e ∷ []) ≡ ok (blob, [])
unfolding read_webtransport_packet read_frame_length read_payload read_full decode_frame_payload
read_blob = refl
