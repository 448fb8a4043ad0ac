-- ===== src/Rtp.antt =====
-- src/source/Rtp/RtpPacket.h and RtpPacket.c: RTP packets, their reading from and writing to bytes.
-- A pointer into memory is the list of the elements from it on, so that a read behind the end of the
-- memory shows; `none` is NULL where the code tests for it.
pub mod Parse
pub mod Serialize
pub mod Bounds
pub mod Wire
pub mod Written
pub mod RoundTrip
pub mod Packets
pub mod Retransmit
mod Tests
use kvs_c.Base.{
  ℕ, ◌+◌, ◌*◌, ◌%◌, ◌^◌, Bool, true, false, Option, none, some, List, [], if◌then◌else◌,
}
use kvs_c.Status.{Status, success, null_arg, not_enough_memory}

-- `RtpPacketHeader`. `csrc_array` holds the elements of `csrcArray` as the host loads them.
pub record RtpPacketHeader : Type 0 where
  pub version : ℕ
  pub padding : Bool
  pub extension : Bool
  pub marker : Bool
  pub csrc_count : ℕ
  pub payload_type : ℕ
  pub sequence_number : ℕ
  pub timestamp : ℕ
  pub ssrc : ℕ
  pub csrc_array : List ℕ
  pub extension_profile : ℕ
  pub extension_payload : Option (List ℕ)
  pub extension_length : ℕ

-- `RtpPacket`, less the two times, which none of these functions reads or writes.
pub record RtpPacket : Type 0 where
  pub header : RtpPacketHeader
  pub payload : Option (List ℕ)
  pub payload_length : ℕ
  pub raw_packet : Option (List ℕ)
  pub raw_packet_length : ℕ

-- RTP_HEADER_LEN, in UINT32.
abbrev pub rtp_header_len : RtpPacketHeader → ℕ
rtp_header_len h =
    (12 + h.csrc_count * 4 + (if h.extension then 4 + h.extension_length else 0)) % 2 ^ 32

-- RTP_GET_RAW_PACKET_SIZE, in UINT32.
abbrev pub rtp_get_raw_packet_size : RtpPacket → ℕ
rtp_get_raw_packet_size p = (rtp_header_len p.header + p.payload_length) % 2 ^ 32

-- GET_UINT16_SEQ_NUM
abbrev pub get_uint16_seq_num : ℕ → ℕ
get_uint16_seq_num n = n % 2 ^ 16

abbrev is_none {ℓ} : {A : Type ℓ} → Option A → Bool
is_none none = true
is_none (some a) = false

-- setRtpPacket, on a packet that is not NULL. The first argument packs the header's arguments.
unfoldable pub set_rtp_packet :
    RtpPacketHeader → Option (List ℕ) → ℕ → RtpPacket → Status × RtpPacket
set_rtp_packet h payload payload_length p =
    if h.extension
    then (if is_none h.extension_payload
        then (null_arg, p)
        else (success, record p { header = h; payload = payload; payload_length = payload_length }))
    else (
      success,
      record p {
        header = record h { extension_profile = 0; extension_payload = none; extension_length = 0 };
        payload = payload;
        payload_length = payload_length;
      },
    )

-- The header as MEMALLOC hands it out is not read before it is set; any value stands for it.
abbrev pub unset_header : RtpPacketHeader
unset_header = record {
  version = 0;
  padding = false;
  extension = false;
  marker = false;
  csrc_count = 0;
  payload_type = 0;
  sequence_number = 0;
  timestamp = 0;
  ssrc = 0;
  csrc_array = [];
  extension_profile = 0;
  extension_payload = none;
  extension_length = 0;
}

abbrev pub unset_packet : RtpPacket
unset_packet = record {
  header = unset_header;
  payload = none;
  payload_length = 0;
  raw_packet = none;
  raw_packet_length = 0;
}

-- createRtpPacket; `allocated` says whether MEMALLOC succeeds. On a failure `*ppRtpPacket` keeps its
-- value, `none` here.
unfoldable pub create_rtp_packet :
    Bool → RtpPacketHeader → Option (List ℕ) → ℕ → Status × Option RtpPacket
create_rtp_packet allocated h payload payload_length =
    if allocated
    then (let (status, p) = set_rtp_packet h payload payload_length unset_packet in
        elim status [ success ↦ (success, some p) | failure ↦ (failure, none) ])
    else (not_enough_memory, none)
