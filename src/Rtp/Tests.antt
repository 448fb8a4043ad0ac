-- ===== src/Rtp/Tests.antt =====
-- Packets of RtpPacket.c at concrete bytes, and its theorems at concrete inputs.
use kvs_c.Base.{ℕ, ◌≤◌, ◌≡◌, refl, true, false, none, some, List, [], ◌∷◌, ◌++◌, arith, length}
use kvs_c.Base.Bytes.{read16, read32, read_block}
use kvs_c.Status.{success, rtp_input_packet_too_small}
use kvs_c.Rtp.{RtpPacketHeader, RtpPacket, unset_header, unset_packet, set_rtp_packet}
use kvs_c.Rtp.Parse.{
  load_words, read_extension, read_fixed, parsed_header, read_rest, set_rtp_packet_from_bytes,
}
use kvs_c.Rtp.Serialize.{
  first_byte, second_byte, fixed_bytes, csrc_bytes, payload_bytes, tail_bytes,
  set_bytes_from_rtp_packet,
}
use kvs_c.Rtp.Bounds.{parse_overread, set_bytes_fit}
use kvs_c.Rtp.Written.{FitsWire, host_view}
use kvs_c.Rtp.RoundTrip.{parse-serialize_extended}
use kvs_c.Rtp.Packets.{PayloadArray}
use kvs_c.Rtp.Retransmit.{construct_retransmit, retransmit-parse}

-- A header with one csrc element.
abbrev plain_header : RtpPacketHeader
plain_header = record unset_header {
  version = 2;
  marker = true;
  csrc_count = 1;
  payload_type = 96;
  sequence_number = 0x1234;
  timestamp = 1000;
  ssrc = 0xCAFE;
  csrc_array = 0x01020304 ∷ [];
}

abbrev plain_packet : RtpPacket
plain_packet = record unset_packet {
  header = plain_header;
  payload = some (7 ∷ 8 ∷ []);
  payload_length = 2;
}

-- One word of extension, as transport-wide congestion control sends it.
abbrev twcc_packet : RtpPacket
twcc_packet = record plain_packet {
  header = record plain_header {
    extension = true;
    extension_profile = 0xBEDE;
    extension_payload = some (0x10 ∷ 0 ∷ 5 ∷ 0 ∷ []);
    extension_length = 4;
  };
}

plain_header-FitsWire : FitsWire plain_header
plain_header-FitsWire = omega arith

twcc_header-FitsWire : FitsWire (twcc_packet.header)
twcc_header-FitsWire = omega arith

-- The bytes of the packet without an extension.
abbrev plain_bytes : List ℕ
plain_bytes =
    0x81 ∷ 0xE0 ∷ 0x12 ∷ 0x34 ∷ 0 ∷ 0 ∷ 3 ∷ 0xE8 ∷ 0 ∷ 0 ∷ 0xCA ∷ 0xFE ∷ 1 ∷ 2 ∷ 3 ∷ 4 ∷ 7 ∷ 8 ∷ []

plain_written : set_bytes_from_rtp_packet plain_packet 18 ≡ some (success, plain_bytes)
unfolding set_bytes_from_rtp_packet fixed_bytes first_byte second_byte csrc_bytes tail_bytes
    payload_bytes read_block
plain_written = refl

-- Twelve bytes whose extension bit is set.
abbrev cut_bytes : List ℕ
cut_bytes = 0x90 ∷ 0 ∷ 0 ∷ 0 ∷ 0 ∷ 0 ∷ 0 ∷ 0 ∷ 0 ∷ 0 ∷ 0 ∷ 0 ∷ []

-- The same with an extension header that claims one word.
abbrev short_bytes : List ℕ
short_bytes = cut_bytes ++ (0xBE ∷ 0xDE ∷ 0 ∷ 1 ∷ [])

too_small :
    set_rtp_packet_from_bytes false (0x80 ∷ []) 1 unset_packet
    ≡ some (rtp_input_packet_too_small, unset_packet)
unfolding set_rtp_packet_from_bytes
too_small = refl

-- On a little-endian host the csrc element comes back with its bytes reversed.
reversed_csrc : host_view false 0x01020304 ≡ 0x04030201
reversed_csrc = refl

parse_overread_example : set_rtp_packet_from_bytes false cut_bytes 12 unset_packet ≡ none
parse_overread_example =
    parse_overread false cut_bytes unset_packet (omega arith) refl (omega arith) (omega arith)

set_bytes_fit_example : length plain_bytes ≤ 18
set_bytes_fit_example =
    set_bytes_fit plain_packet 18 success plain_bytes (omega arith) plain_written

parse-serialize_extended_example :
    (bytes : List ℕ) × (set_bytes_from_rtp_packet twcc_packet 26 ≡ some (success, bytes))
    × (length bytes ≡ 26)
    × (set_rtp_packet_from_bytes true bytes (length bytes) unset_packet
        ≡ some (
          success,
          record twcc_packet {
            header = record (twcc_packet.header) {
              extension_payload = some (0x10 ∷ 0 ∷ 5 ∷ 0 ∷ 7 ∷ 8 ∷ []);
            };
          },
        ))
parse-serialize_extended_example =
    parse-serialize_extended true twcc_packet unset_packet (0x10 ∷ 0 ∷ 5 ∷ 0 ∷ []) (7 ∷ 8 ∷ [])
      twcc_header-FitsWire refl refl refl refl refl (omega arith)

abbrev frame : PayloadArray
frame = record {
  payload_buffer = 1 ∷ 2 ∷ 3 ∷ 4 ∷ 5 ∷ [];
  payload_length = 5;
  payload_sub_length = 3 ∷ 2 ∷ [];
  payload_sub_len_size = 2;
}

-- What is read from the bytes on a big-endian host.
abbrev plain_read : RtpPacket
plain_read = plain_packet

plain_parsed :
    set_rtp_packet_from_bytes true plain_bytes 18 unset_packet ≡ some (success, plain_read)
unfolding set_rtp_packet_from_bytes read_fixed read16 read32 read_rest load_words read_extension
    set_rtp_packet parsed_header
plain_parsed = refl

retransmit-parse_example :
    (r : RtpPacket) × (bytes : List ℕ) × (construct_retransmit true
        (record { packet = true; payload = true; raw = true })
        plain_bytes
        18
        77
        97
        0xBEEF
      ≡ some (success, some r))
    × (r.raw_packet ≡ some bytes)
    × (r.raw_packet_length ≡ length bytes)
    × (set_rtp_packet_from_bytes true bytes (length bytes) unset_packet
        ≡ some (
          success,
          record unset_packet {
            header = record plain_header { sequence_number = 77; payload_type = 97; ssrc = 0xBEEF };
            payload = some (0x12 ∷ 0x34 ∷ 7 ∷ 8 ∷ []);
            payload_length = 4;
          },
        ))
retransmit-parse_example =
    retransmit-parse true plain_bytes 18 77 97 0xBEEF plain_read unset_packet (7 ∷ 8 ∷ [])
      plain_parsed plain_header-FitsWire refl refl refl (omega arith) (omega arith) (omega arith)
      (omega arith)
