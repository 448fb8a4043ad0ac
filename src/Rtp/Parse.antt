-- ===== src/Rtp/Parse.antt =====
-- setRtpPacketFromBytes and createRtpPacketFromBytes of src/source/Rtp/RtpPacket.c.
-- `none` is a read behind the end of the memory. `memory` is what can be read from `rawPacket` on,
-- `packet_length` the length that the caller states.
use kvs_c.Base.{
  ℕ, zero, suc, ◌+◌, ◌-◌, ◌*◌, ◌/◌, ◌%◌, ◌^◌, Bool, true, false, Option, none, some, List, [], ◌∷◌,
  drop, ltb, if◌then◌else◌, bit_and,
}
use kvs_c.Base.Bytes.{◌>>=◌, read8, read16, read32, from_be32}
use kvs_c.Status.{Status, success, not_enough_memory, rtp_input_packet_too_small}
use kvs_c.Rtp.{RtpPacketHeader, RtpPacket, set_rtp_packet, unset_packet}

-- A UINT32 of memory as the host loads it: most significant byte first on a big-endian host.
abbrev pub host_load32 : Bool → ℕ → ℕ → ℕ → ℕ → ℕ
host_load32 big_endian a b c d = if big_endian then from_be32 a b c d else from_be32 d c b a

-- `n` elements of a PUINT32 over the memory.
unfoldable pub load_words : Bool → ℕ → List ℕ → Option (List ℕ)
load_words big_endian zero mem = some []
load_words big_endian (suc n) (a ∷ b ∷ c ∷ d ∷ mem) = do
  ws ← load_words big_endian n mem
  some (host_load32 big_endian a b c d ∷ ws)
load_words big_endian (suc n) _ = none

-- The extension's profile, length, payload and the offset behind it.
pub record Extension : Type 0 where
  pub profile : ℕ
  pub length : ℕ
  pub payload : Option (List ℕ)
  pub offset : ℕ

-- The `if (extension)` of setRtpPacketFromBytes. `extensionLength` is a UINT16, so the byte count of
-- 16384 words or more is cut.
unfoldable pub read_extension : Bool → List ℕ → ℕ → Option Extension
read_extension false memory offset =
    some (record { profile = 0; length = 0; payload = none; offset = offset })
read_extension true memory offset = do
  profile ← read16 memory offset
  words ← read16 memory (offset + 2)
  let length = words * 4 % 2 ^ 16
  some (record {
    profile = profile;
    length = length;
    payload = some (drop (offset + 4) memory);
    offset = offset + 4 + length;
  })

-- The twelve bytes in front, read.
pub record FixedHeader : Type 0 where
  pub byte0 : ℕ
  pub byte1 : ℕ
  pub sequence_number : ℕ
  pub timestamp : ℕ
  pub ssrc : ℕ

unfoldable pub read_fixed : List ℕ → Option FixedHeader
read_fixed memory = do
  byte0 ← read8 memory 0
  byte1 ← read8 memory 1
  sequence_number ← read16 memory 2
  timestamp ← read32 memory 4
  ssrc ← read32 memory 8
  some (record {
    byte0 = byte0;
    byte1 = byte1;
    sequence_number = sequence_number;
    timestamp = timestamp;
    ssrc = ssrc;
  })

abbrev pub csrc_count_of : ℕ → ℕ
csrc_count_of byte0 = bit_and byte0 0xF

abbrev pub extension_of : ℕ → Bool
extension_of byte0 = ltb 0 (bit_and (byte0 / 16) 1)

-- `currOffset` behind the csrc array.
abbrev pub csrc_end : ℕ → ℕ
csrc_end byte0 = 12 + csrc_count_of byte0 * 4

-- The arguments of setRtpPacket for the header.
unfoldable pub parsed_header : FixedHeader → List ℕ → Extension → RtpPacketHeader
parsed_header f csrc_array ext = record {
  version = bit_and (f.byte0 / 64) 3;
  padding = ltb 0 (bit_and (f.byte0 / 32) 1);
  extension = extension_of f.byte0;
  marker = ltb 0 (bit_and (f.byte1 / 128) 1);
  csrc_count = csrc_count_of f.byte0;
  payload_type = bit_and f.byte1 0x7F;
  sequence_number = f.sequence_number;
  timestamp = f.timestamp;
  ssrc = f.ssrc;
  csrc_array = csrc_array;
  extension_profile = ext.profile;
  extension_payload = ext.payload;
  extension_length = ext.length;
}

-- setRtpPacketFromBytes behind the fixed header.
unfoldable pub read_rest : Bool → List ℕ → ℕ → FixedHeader → RtpPacket → Option (Status × RtpPacket)
read_rest big_endian memory packet_length f p =
    if ltb packet_length (csrc_end f.byte0) then some (rtp_input_packet_too_small, p) else (do
      csrc_array ← load_words big_endian (csrc_count_of f.byte0) (drop 12 memory)
      ext ← read_extension (extension_of f.byte0) memory (csrc_end f.byte0)
      some (
          set_rtp_packet (parsed_header f csrc_array ext) (some (drop ext.offset memory))
            ((packet_length + 2 ^ 32 - ext.offset) % 2 ^ 32) p))

-- setRtpPacketFromBytes, on a packet that is not NULL.
unfoldable pub set_rtp_packet_from_bytes :
    Bool → List ℕ → ℕ → RtpPacket → Option (Status × RtpPacket)
set_rtp_packet_from_bytes big_endian memory packet_length p =
    if ltb packet_length 12
    then some (rtp_input_packet_too_small, p)
    else (do f ← read_fixed memory; read_rest big_endian memory packet_length f p)

-- createRtpPacketFromBytes; the packet takes over `rawPacket`, but on a failure there is none.
unfoldable pub create_rtp_packet_from_bytes :
    Bool → Bool → List ℕ → ℕ → Option (Status × Option RtpPacket)
create_rtp_packet_from_bytes big_endian allocated memory packet_length =
    if allocated
    then (do
      (status, p) ←
          set_rtp_packet_from_bytes big_endian memory packet_length
            (record unset_packet { raw_packet = some memory; raw_packet_length = packet_length })
      some (elim status [ success ↦ (success, some p) | failure ↦ (failure, none) ]))
    else some (not_enough_memory, none)
