-- ===== src/Client/Chunks.antt =====
-- socket.go: the payloads that the client cuts its packets into, and how far it gets with them.
pub mod Sizes
pub mod Progress
use go_engine_io.Base.{
  ℕ, ◌+◌, Bool, true, false, not, ◌&&◌, ◌||◌, Option, none, some, List, [], ◌∷◌, ◌++◌, length, ltb,
  if◌then◌else◌,
}
use go_engine_io.Base.Int.{ℤ, is_positive, pos_part}
use go_engine_io.Codec.Packet.{Packet}
use go_engine_io.Codec.Encoding.{encode_packet}

abbrev pub is_nil : List Packet → Bool
is_nil [] = true
is_nil (packet ∷ packets) = false

-- The bytes that a packet adds to a chunk, with one for the separator in a chunk that has others.
abbrev pub addition : List Packet → Packet → ℕ
addition current packet =
    if is_nil current then length (encode_packet packet) else length (encode_packet packet) + 1

-- The loop of chunkPackets over the packets left, at the chunk that it builds and its size.
unfoldable pub chunk_from : ℕ → List Packet → ℕ → List Packet → List (List Packet)
chunk_from max_payload current size [] = current ∷ []
chunk_from max_payload current size (packet ∷ packets) =
    let split = chunk_from max_payload (packet ∷ []) (length (encode_packet packet)) packets in
    let joined =
      chunk_from max_payload (current ++ packet ∷ []) (size + addition current packet) packets in
    if not (is_nil current) && ltb max_payload (size + addition current packet)
    then current ∷ split
    else joined

unfoldable pub chunk_packets : List Packet → ℤ → List (List Packet)
chunk_packets packets max_payload =
    if not (is_positive max_payload) || ltb (length packets) 2
    then packets ∷ []
    else chunk_from (pos_part max_payload) [] 0 packets

abbrev pub Cause : Type 0
Cause = ℕ

-- How the transport answers Send for a chunk, by the chunks that it has sent: nil or an error.
abbrev pub Answers : Type 0
Answers = List (List Packet) → List Packet → Option Cause

-- The loop of sendChunks, with the chunks that it has sent and the number of their packets.
unfoldable pub send_from :
    Answers → List (List Packet) → ℕ → List (List Packet) → List (List Packet) × ℕ × Option Cause
send_from answers done sent [] = (done, sent, none)
send_from answers done sent (chunk ∷ chunks) =
    let rest = send_from answers (done ++ chunk ∷ []) (sent + length chunk) chunks in
    elim (answers done chunk) [ some cause ↦ (done, sent, some cause) | none ↦ rest ]

unfoldable pub send_chunks : Answers → List Packet → ℤ → List (List Packet) × ℕ × Option Cause
send_chunks answers packets max_payload = send_from answers [] 0 (chunk_packets packets max_payload)
