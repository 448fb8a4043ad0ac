-- ===== src/Rtcp.antt =====
-- src/source/Rtcp/RtcpPacket.c: the header of an RTCP packet, the list of a NACK, and REMB.
-- A pointer into memory is the list of the bytes from it on; `none` is an access behind its end.
-- NULL arguments, for which the code only returns STATUS_NULL_ARG, are not values of the model, but
-- for the list of `rtcpNackListGet`, which may be NULL.
pub mod Header
pub mod Nack
pub mod Remb
mod Tests
use kvs_c.Base.{
  ℕ, zero, suc, ◌+◌, ◌-◌, ◌*◌, ◌/◌, ◌%◌, ◌^◌, Bool, true, false, not, ◌&&◌, Option, none, some,
  List, [], ◌∷◌, ◌++◌, length, set, drop, ltb, leb, ◌==◌, if◌then◌else◌, bit_and,
}
use kvs_c.Base.Bytes.{◌>>=◌, read8, read16, read32, read_block}
use kvs_c.Status.{
  Status, success, rtcp_input_packet_too_small, rtcp_input_partial_packet,
  rtcp_input_packet_invalid_version, rtcp_input_nack_list_invalid, rtcp_input_remb_too_small,
  rtcp_input_remb_invalid,
}

-- `RtcpPacketHeader`
pub record RtcpPacketHeader : Type 0 where
  pub version : ℕ
  pub reception_report_count : ℕ
  pub packet_type : ℕ
  pub packet_length : ℕ

-- `RtcpPacket`
pub record RtcpPacket : Type 0 where
  pub header : RtcpPacketHeader
  pub payload : List ℕ
  pub payload_length : ℕ

-- setRtcpPacketFromBytes behind the length checks: the version is set before it is tested.
pub set_fields : ℕ → ℕ → ℕ → List ℕ → RtcpPacket → Status × RtcpPacket
set_fields byte0 packet_type packet_len memory p =
    let version = bit_and (byte0 / 64) 3 in
    if version == 2
    then (
      success,
      record p {
        header = record {
          version = version;
          reception_report_count = bit_and byte0 0x1F;
          packet_type = packet_type;
          packet_length = packet_len;
        };
        payload_length = packet_len * 4;
        payload = drop 4 memory;
      },
    )
    else (
      rtcp_input_packet_invalid_version,
      record p { header = record (p.header) { version = version } },
    )

-- setRtcpPacketFromBytes
pub set_rtcp_packet_from_bytes : List ℕ → ℕ → RtcpPacket → Option (Status × RtcpPacket)
set_rtcp_packet_from_bytes memory packets_len p =
    if leb 4 packets_len
    then (do
      packet_len ← read16 memory 2
      byte0 ← read8 memory 0
      packet_type ← read8 memory 1
      some (
          if leb ((packet_len + 1) * 4) packets_len
          then set_fields byte0 packet_type packet_len memory p
          else (rtcp_input_partial_packet, p)))
    else some (rtcp_input_packet_too_small, p)

-- The output of `rtcpNackListGet`: the caller's array, and `sequenceNumberCount`, a UINT16.
pub record NackList : Type 0 where
  pub sequence_numbers : Option (List ℕ)
  pub count : ℕ

-- The store and the count of one sequence number. The array is written where the count is at most
-- the stated length; `none` is a write behind its end.
pub push : (list_len value : ℕ) → NackList → Option NackList
push list_len value l = elim l.sequence_numbers [
  | none ↦ some (record l { count = (l.count + 1) % 2 ^ 16 })
  | some xs ↦
      if leb l.count list_len
      then (if ltb l.count (length xs)
          then some (record l {
            sequence_numbers = some (set xs l.count value);
            count = (l.count + 1) % 2 ^ 16;
          })
          else none)
      else some (record l { count = (l.count + 1) % 2 ^ 16 })
]

-- The loop over the bits of BLP, with `rounds` left from the bit `j` on.
pub bit_loop : (list_len rounds j pid blp : ℕ) → NackList → Option NackList
bit_loop list_len zero j pid blp l = some l
bit_loop list_len (suc rounds) j pid blp l = do
  l' ←
      (if bit_and blp (2 ^ j) / 2 ^ j == 0
        then some l
        else push list_len ((pid + j + 1) % 2 ^ 16) l)
  bit_loop list_len rounds (j + 1) pid blp l'

-- The loop over the words of the payload, with `rounds` left from the offset `i` on.
pub word_loop : (list_len rounds i : ℕ) → List ℕ → NackList → Option NackList
word_loop list_len zero i payload l = some l
word_loop list_len (suc rounds) i payload l = do
  pid ← read16 payload i
  blp ← read16 payload (i + 2)
  l' ← push list_len pid l
  l'' ← bit_loop list_len 16 0 pid blp l'
  word_loop list_len rounds (i + 4) payload l''

-- What `rtcpNackListGet` leaves in its results on success; the length is `*pSequenceNumberListLen`.
pub record NackResult : Type 0 where
  pub sender_ssrc : ℕ
  pub receiver_ssrc : ℕ
  pub list : Option (List ℕ)
  pub list_len : ℕ

-- rtcpNackListGet. Offsets go from 8 to `payload_len` by 4, which divides it.
pub rtcp_nack_list_get :
    List ℕ
    → (payload_len : ℕ) → Option (List ℕ)
    → (list_len : ℕ) → Option (Status × Option NackResult)
rtcp_nack_list_get payload payload_len xs list_len =
    if leb 8 payload_len && (payload_len % 4 == 0)
    then (do
      sender ← read32 payload 0
      receiver ← read32 payload 4
      l ←
          word_loop list_len ((payload_len - 8) / 4) 8 payload
            (record { sequence_numbers = xs; count = 0 })
      some (
        success,
        some (record {
          sender_ssrc = sender;
          receiver_ssrc = receiver;
          list = l.sequence_numbers;
          list_len = l.count;
        }),
      ))
    else some (rtcp_input_nack_list_invalid, none)

-- The comparison of two byte lists by MEMCMP.
pub same_bytes : List ℕ → List ℕ → Bool
same_bytes [] ys = true
same_bytes (x ∷ xs) [] = false
same_bytes (x ∷ xs) (y ∷ ys) = (x == y) && same_bytes xs ys

-- isRembPacket
pub is_remb_packet : List ℕ → ℕ → Option Status
is_remb_packet payload payload_len =
    if leb 16 payload_len
    then (do
      id ← read_block 4 (drop 8 payload)
      some (
          if same_bytes (0x52 ∷ 0x45 ∷ 0x4D ∷ 0x42 ∷ []) id
          then success
          else rtcp_input_remb_invalid))
    else some rtcp_input_remb_too_small

-- The loop over the SSRCs, with `rounds` left from index `i` on.
pub ssrc_loop : (rounds i : ℕ) → List ℕ → Option (List ℕ)
ssrc_loop zero i payload = some []
ssrc_loop (suc rounds) i payload = do
  ssrc ← read32 payload (16 + i * 4)
  rest ← ssrc_loop rounds (i + 1) payload
  some (ssrc ∷ rest)

-- What `rembValueGet` leaves in its results on success. The bit rate is a DOUBLE that holds a UINT32.
pub record RembValue : Type 0 where
  pub maximum_bit_rate : ℕ
  pub ssrc_list : List ℕ

-- `mantissa << exponent` in UINT32; a shift by 32 or more is undefined, `none` here.
pub shift_left32 : ℕ → ℕ → Option ℕ
shift_left32 mantissa exponent =
    if ltb exponent 32 then some (mantissa * 2 ^ exponent % 2 ^ 32) else none

-- rembValueGet; the caller's SSRC array is taken to be long enough for the list.
pub remb_value_get : List ℕ → ℕ → Option (Status × Option RembValue)
remb_value_get payload payload_len =
    if leb 16 payload_len
    then (do
      word ← read32 payload 12
      exponent_byte ← read8 payload 13
      rate ← shift_left32 (bit_and word 0x3FFFF) (exponent_byte / 4)
      ssrc_list_len ← read8 payload 12
      (if leb (16 + ssrc_list_len * 4) payload_len
          then (do
            ssrcs ← ssrc_loop ssrc_list_len 0 payload
            some (success, some (record { maximum_bit_rate = rate; ssrc_list = ssrcs })))
          else some (rtcp_input_remb_invalid, none)))
    else some (rtcp_input_remb_too_small, none)
