-- ===== src/Rtp/Serialize.antt =====
-- setBytesFromRtpPacket and createBytesFromRtpPacket of src/source/Rtp/RtpPacket.c.
-- The bytes are those written from `pRawPacket` on; `none` is a read behind the end of an array of
-- the packet.
use kvs_c.Base.{
  ℕ, zero, suc, ◌*◌, ◌/◌, ◌%◌, Bool, Option, none, some, List, [], ◌∷◌, ◌++◌, ltb, ◌==◌,
  if◌then◌else◌, bit_or,
}
use kvs_c.Base.Bytes.{◌>>=◌, read_block, be16, be32}
use kvs_c.Status.{Status, success, buffer_too_small, rtp_invalid_extension_len, not_enough_memory}
use kvs_c.Rtp.{RtpPacketHeader, RtpPacket, rtp_get_raw_packet_size}

-- The first byte: version, padding, extension and csrc count.
unfoldable pub first_byte : ℕ → Bool → Bool → ℕ → ℕ
first_byte version padding extension csrc_count =
    let b0 = bit_or (version * 64) csrc_count % 256 in
    let b1 = if padding then bit_or b0 32 else b0 in if extension then bit_or b1 16 else b1

-- The second byte: marker and payload type.
unfoldable pub second_byte : Bool → ℕ → ℕ
second_byte marker payload_type = if marker then bit_or payload_type 128 else payload_type

-- The loop over `csrcArray`.
unfoldable pub csrc_bytes : List ℕ → List ℕ
csrc_bytes [] = []
csrc_bytes (w ∷ ws) = be32 w ++ csrc_bytes ws

-- What MEMCPY takes from a pointer: nothing is read for a length of 0.
unfoldable pub copy_from : Option (List ℕ) → ℕ → Option (List ℕ)
copy_from none zero = some []
copy_from none (suc n) = none
copy_from (some mem) n = read_block n mem

-- The payload, written when it is not NULL.
unfoldable pub payload_bytes : Option (List ℕ) → ℕ → Option (List ℕ)
payload_bytes none n = some []
payload_bytes (some mem) n = read_block n mem

-- The part of the header up to the extension.
unfoldable pub fixed_bytes : RtpPacketHeader → List ℕ
fixed_bytes h =
    first_byte h.version h.padding h.extension h.csrc_count
    ∷ second_byte h.marker h.payload_type
    ∷ (be16 h.sequence_number ++ (be32 h.timestamp ++ be32 h.ssrc))

-- What is written from the extension on, with the status.
unfoldable pub tail_bytes : RtpPacket → Option (Status × List ℕ)
tail_bytes p =
    if p.header.extension
    then (if p.header.extension_length % 4 == 0
        then (do
          ext ← copy_from p.header.extension_payload p.header.extension_length
          body ← payload_bytes p.payload p.payload_length
          some (
            success,
            be16 p.header.extension_profile
                ++ (be16 (p.header.extension_length / 4) ++ (ext ++ body)),
          ))
        else some (rtp_invalid_extension_len, []))
    else (do body ← payload_bytes p.payload p.payload_length; some (success, body))

-- setBytesFromRtpPacket, for a packet and a buffer that are not NULL.
unfoldable pub set_bytes_from_rtp_packet : RtpPacket → ℕ → Option (Status × List ℕ)
set_bytes_from_rtp_packet p packet_length =
    if ltb packet_length (rtp_get_raw_packet_size p) then some (buffer_too_small, []) else (do
      words ← read_block p.header.csrc_count p.header.csrc_array
      (status, rest) ← tail_bytes p
      some (status, fixed_bytes p.header ++ (csrc_bytes words ++ rest)))

-- createBytesFromRtpPacket: the status, the bytes written, and `*pPacketLength`. The buffer may be
-- NULL, to ask for the size only; otherwise `*pPacketLength` is its size on entry.
unfoldable pub create_bytes_from_rtp_packet : RtpPacket → Bool → ℕ → Option (Status × List ℕ × ℕ)
create_bytes_from_rtp_packet p buffer_is_null buffer_length =
    let size = rtp_get_raw_packet_size p in
    if buffer_is_null
    then some (success, [], size)
    else if ltb buffer_length size
    then some (not_enough_memory, [], size)
    else (do (status, bytes) ← set_bytes_from_rtp_packet p size; some (status, bytes, size))
