-- ===== src/Rtp/Written.antt =====
-- The bytes that setBytesFromRtpPacket writes for a packet that the wire format can carry.
use kvs_c.Base.{
  ℕ, zero, suc, ◌+◌, ◌*◌, ◌/◌, ◌%◌, ◌^◌, ◌<◌, ◌≡◌, refl, ap, ◌∙◌, Bool, true, false, some, List, [],
  ◌∷◌, ◌++◌, map, arith, length, drop,
}
use kvs_c.Base.Bytes.{read16, read32, read16-append_more, drop-append_more, read_block_whole, be16}
use kvs_c.Status.{success}
use kvs_c.Rtp.{RtpPacketHeader, RtpPacket, rtp_get_raw_packet_size}
use kvs_c.Rtp.Parse.{host_load32, load_words, read_extension, read_fixed}
use kvs_c.Rtp.Serialize.{
  first_byte, second_byte, csrc_bytes, fixed_bytes, tail_bytes, copy_from, payload_bytes,
  set_bytes_from_rtp_packet,
}

abbrev pub AllWords : List ℕ → Type 0
AllWords [] = Unit
AllWords (w ∷ ws) = (w < 2 ^ 32) × AllWords ws

-- What the wire format can carry: each field within its width, as many csrc elements as counted, and
-- an extension of whole words whose byte count fits a UINT16.
pub record FitsWire (h : RtpPacketHeader) : Type 0 where
  pub version_fits : h.version < 4
  pub csrc_fits : h.csrc_count < 16
  pub csrc_counted : length h.csrc_array ≡ h.csrc_count
  pub csrc_words : AllWords h.csrc_array
  pub payload_type_fits : h.payload_type < 128
  pub sequence_number_fits : h.sequence_number < 2 ^ 16
  pub timestamp_fits : h.timestamp < 2 ^ 32
  pub ssrc_fits : h.ssrc < 2 ^ 32
  pub profile_fits : h.extension_profile < 2 ^ 16
  pub extension_fits : h.extension_length < 2 ^ 16
  pub extension_words : h.extension_length % 4 ≡ 0

-- What the host makes of a UINT32 that was written in network order and is read through a PUINT32:
-- the same on a big-endian host, the bytes reversed on a little-endian one.
abbrev pub host_view : Bool → ℕ → ℕ
host_view big_endian w =
    host_load32 big_endian (w / 2 ^ 24 % 256) (w / 2 ^ 16 % 256) (w / 256 % 256) (w % 256)

pub load_words-csrc_bytes :
    (e : Bool) (ws rest : List ℕ) (n : ℕ)
    → n ≡ length ws
    → load_words e n (csrc_bytes ws ++ rest) ≡ some (map (host_view e) ws)
unfolding load_words csrc_bytes
load_words-csrc_bytes e [] rest zero h = refl
load_words-csrc_bytes e [] rest (suc n) h = absurd (omega arith)
load_words-csrc_bytes e (w ∷ ws) rest zero h = absurd (omega arith)
load_words-csrc_bytes e (w ∷ ws) rest (suc n) h =
    rw (load_words-csrc_bytes e ws rest n (omega arith))

-- The first twelve bytes come back.
pub read_fixed-fixed_bytes :
    (h : RtpPacketHeader) (rest : List ℕ)
    → FitsWire h
    → read_fixed (fixed_bytes h ++ rest)
      ≡ some (record {
        byte0 = first_byte h.version h.padding h.extension h.csrc_count;
        byte1 = second_byte h.marker h.payload_type;
        sequence_number = h.sequence_number;
        timestamp = h.timestamp;
        ssrc = h.ssrc;
      })
unfolding read_fixed fixed_bytes read16 read32
read_fixed-fixed_bytes h rest w = ground arith

-- An extension comes back from behind any prefix.
pub read_extension-be16 :
    (pre rest : List ℕ) (i profile len : ℕ)
    → i ≡ length pre
    → profile < 2 ^ 16
    → len < 2 ^ 16
    → len % 4 ≡ 0
    → read_extension true (pre ++ (be16 profile ++ (be16 (len / 4) ++ rest))) i
      ≡ some (record { profile = profile; length = len; payload = some rest; offset = i + 4 + len })
unfolding read_extension read16
read_extension-be16 pre rest i profile len hi hp hl hw = rw (at_profile, at_length, behind, words)
  where
    tail : List ℕ
    tail = be16 profile ++ (be16 (len / 4) ++ rest)

    at_profile : read16 (pre ++ tail) i ≡ some profile
    at_profile = read16-append_more pre tail 0 i (omega arith) ∙ ap some (omega arith)

    at_length : read16 (pre ++ tail) (i + 2) ≡ some (len / 4)
    at_length = read16-append_more pre tail 2 (i + 2) (omega arith) ∙ ap some (omega arith)

    behind : drop (i + 4) (pre ++ tail) ≡ rest
    behind = drop-append_more pre tail 4 (i + 4) (omega arith)

    words : len / 4 * 4 % 2 ^ 16 ≡ len
    words = omega arith

-- The bytes of a packet without an extension.
abbrev pub plain_wire : RtpPacketHeader → List ℕ → List ℕ
plain_wire h body = fixed_bytes h ++ (csrc_bytes h.csrc_array ++ body)

-- The bytes of a packet with the extension `ext`.
abbrev pub extended_wire : RtpPacketHeader → List ℕ → List ℕ → List ℕ
extended_wire h ext body =
    fixed_bytes h
    ++ (csrc_bytes h.csrc_array
        ++ (be16 h.extension_profile ++ (be16 (h.extension_length / 4) ++ (ext ++ body))))

pub set_bytes_plain :
    (p : RtpPacket) (body : List ℕ)
    → FitsWire p.header
    → p.header.extension ≡ false
    → p.payload ≡ some body
    → p.payload_length ≡ length body
    → set_bytes_from_rtp_packet p (rtp_get_raw_packet_size p)
      ≡ some (success, plain_wire p.header body)
unfolding set_bytes_from_rtp_packet tail_bytes payload_bytes
set_bytes_plain p body w plain eb el = ground (
  arith,
  read_block_whole p.header.csrc_array p.header.csrc_count,
  read_block_whole body p.payload_length,
)

pub set_bytes_extended :
    (p : RtpPacket) (ext body : List ℕ)
    → FitsWire p.header
    → p.header.extension ≡ true
    → p.header.extension_payload ≡ some ext
    → length ext ≡ p.header.extension_length
    → p.payload ≡ some body
    → p.payload_length ≡ length body
    → set_bytes_from_rtp_packet p (rtp_get_raw_packet_size p)
      ≡ some (success, extended_wire p.header ext body)
unfolding set_bytes_from_rtp_packet tail_bytes payload_bytes copy_from
set_bytes_extended p ext body w extended ee le eb el = ground (
  arith,
  read_block_whole p.header.csrc_array p.header.csrc_count,
  read_block_whole body p.payload_length,
  read_block_whole ext p.header.extension_length,
)
