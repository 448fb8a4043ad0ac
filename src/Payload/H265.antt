-- ===== src/Payload/H265.antt =====
-- src/source/Rtp/Codecs/RtpH265Payloader.c: the packets of a NAL unit (RFC 7798, single units and
-- fragmentation units), the loop over a stream of units, and the way back. What it shares with the
-- H.264 payloader, line by line, is taken from there.
pub mod RoundTrip
mod Tests
use kvs_c.Base.{
  ℕ, zero, suc, ◌+◌, ◌-◌, ◌/◌, ◌*◌, Bool, true, false, not, Option, none, some, List, [], ◌∷◌, ltb,
  leb, ◌==◌, if◌then◌else◌, drop, bit_and, bit_or, min,
}
use kvs_c.Base.Bytes.{◌>>=◌, read8, read_block, write_at}
use kvs_c.Status.{Status, success, buffer_too_small, rtp_input_mtu_too_small, succeeded}
use kvs_c.Payload.{Buffers}
use kvs_c.Payload.H264.{add32, sub32, NaluArray, NaluProgress, add_payload, get_next_nalu_length}
use kvs_c.Payload.H264.Stream.{create_payload_for_stream}
use kvs_c.Payload.H264.Depay.{NaluOut, start_code}

-- getNextNaluLengthH265, whose text is that of getNextNaluLength
abbrev pub get_next_nalu_length_h265 : List ℕ → (nalus_length : ℕ) → Option (Status × ℕ × ℕ)
get_next_nalu_length_h265 = get_next_nalu_length

-- The six bits of the type of a unit.
abbrev pub nalu_type_h265 : (first : ℕ) → ℕ
nalu_type_h265 first = bit_and first 0x7E / 2

-- The first byte of a fragmentation unit.
abbrev pub fu_indicator_h265 : (first : ℕ) → ℕ
fu_indicator_h265 first = bit_or (bit_or 98 (bit_and first 0x81)) (bit_and first 1)

-- The third byte of a fragmentation unit.
abbrev pub fu_header_h265 : (nalu_type nalu_length remaining cur : ℕ) → ℕ
fu_header_h265 nalu_type nalu_length remaining cur =
    if remaining == nalu_length - 2
    then bit_or (bit_and nalu_type 0x3F) 0x80
    else if remaining == cur
    then bit_or (bit_and nalu_type 0x3F) 0x40
    else bit_and nalu_type 0x3F

-- One round of the loop over the fragmentation units of a NAL unit.
unfoldable pub fragment_round_h265 :
    (mtu : ℕ) → (nalu : List ℕ) → (nalu_length : ℕ) → NaluProgress → Option (Status × NaluProgress)
fragment_round_h265 mtu nalu nalu_length f = do
  (status, f') ← add_payload (3 + cur) bytes f
  some (
    status,
    (if succeeded status
        then record f' { remaining = f.remaining - cur; cur_in_nalu = drop cur f.cur_in_nalu }
        else f'),
  )
  where
    cur : ℕ
    cur = min (mtu - 3) f.remaining

    bytes : Option (List ℕ)
    bytes = do
      first ← read8 nalu 0
      second ← read8 nalu 1
      piece ← read_block cur f.cur_in_nalu
      some (
          fu_indicator_h265 first
          ∷ bit_and second 0xFF
          ∷ fu_header_h265 (nalu_type_h265 first) nalu_length f.remaining cur
          ∷ piece)

-- `while (remainingNaluLength != 0)`; a round takes at least one byte, so their number is enough fuel.
unfoldable pub fragment_loop_h265 :
    (fuel mtu : ℕ)
    → (nalu : List ℕ) → (nalu_length : ℕ) → NaluProgress
    → Option (Status × NaluProgress)
fragment_loop_h265 zero mtu nalu nalu_length f =
    if f.remaining == 0 then some (success, f) else none
fragment_loop_h265 (suc fuel) mtu nalu nalu_length f =
    let next : Option (Status × NaluProgress) = (do
      (status, f') ← fragment_round_h265 mtu nalu nalu_length f
      let rest = fragment_loop_h265 fuel mtu nalu nalu_length f'
      (if succeeded status then rest else some (status, f'))) in
    if f.remaining == 0 then some (success, f) else next

-- createPayloadFromNaluH265: the status, `*filledLength`, `*filledSubLenSize`, and the array.
unfoldable pub create_payload_from_nalu_h265 :
    (mtu : ℕ)
    → List ℕ
    → (nalu_length : ℕ) → Option NaluArray
    → Option (Status × ℕ × ℕ × Option NaluArray)
create_payload_from_nalu_h265 mtu nalu nalu_length array =
    if ltb 3 mtu
    then (do
      first ← read8 nalu 0
      (status, f) ←
          (if leb nalu_length mtu
            then add_payload nalu_length (read_block nalu_length nalu) start
            else fragment_loop_h265 (nalu_length - 2) mtu nalu nalu_length
                (record start { remaining = nalu_length - 2; cur_in_nalu = drop 2 nalu }))
      some (status, f.payload_length, f.payload_sub_len_size, f.array))
    else some (rtp_input_mtu_too_small, 0, 0, array)
  where
    start : NaluProgress
    start = record {
      remaining = nalu_length;
      cur_in_nalu = nalu;
      payload_length = 0;
      payload_sub_len_size = 0;
      payload_at = elim array [ none ↦ 0 | some a ↦ a.payload_buffer_at ];
      array = array;
    }

-- createPayloadForH265
abbrev pub create_payload_for_h265 :
    (mtu : ℕ)
    → List ℕ
    → (nalus_length : ℕ) → (given : Option (ℕ × ℕ × Buffers))
    → Option (Status × ℕ × ℕ × Option Buffers)
create_payload_for_h265 = create_payload_for_stream 3 create_payload_from_nalu_h265

-- Whether a packet is a fragmentation unit.
abbrev pub is_fu_h265 : (first : ℕ) → Bool
is_fu_h265 first = bit_and (first / 2) 0x3F == 49

-- `*pNaluLength`, and `isStartingPacket`.
unfoldable pub measure_h265 : (is_fu : Bool) → List ℕ → (packet_length : ℕ) → Option (ℕ × Bool)
measure_h265 true raw packet_length = do
  header ← read8 raw 2
  some (
      if not (bit_and header 0x80 == 0)
      then (add32 (add32 (sub32 packet_length 3) 2) 4, true)
      else (sub32 packet_length 3, false))
measure_h265 false raw packet_length = some (add32 packet_length 4, true)

-- The copy, into memory of enough bytes.
unfoldable pub copy_out_h265 :
    (is_fu starts : Bool)
    → (raw : List ℕ) → (packet_length : ℕ) → (memory : List ℕ) → Option (List ℕ)
copy_out_h265 true true raw packet_length memory = do
  coded ← write_at memory 0 start_code
  first ← read8 raw 0
  second ← read8 raw 1
  header ← read8 raw 2
  headed ← write_at coded 4 (bit_or (bit_and header 0x3F * 2) (bit_and first 0x81) ∷ second ∷ [])
  piece ← read_block (sub32 packet_length 3) (drop 3 raw)
  write_at headed 6 piece
copy_out_h265 true false raw packet_length memory = do
  piece ← read_block (sub32 packet_length 3) (drop 3 raw)
  write_at memory 0 piece
copy_out_h265 false starts raw packet_length memory = do
  coded ← write_at memory 0 start_code
  piece ← read_block packet_length raw
  write_at coded 4 piece

-- depayH265FromRtpPayload
unfoldable pub depay_h265 :
    List ℕ → (packet_length : ℕ) → Option (List ℕ) → (cap : ℕ) → Option NaluOut
depay_h265 raw packet_length out cap =
    if ltb 0 packet_length
    then (do
      first ← read8 raw 0
      (nalu_length, starts) ← measure_h265 (is_fu_h265 first) raw packet_length
      (elim out [
        | none ↦ some (record {
          status = success;
          nalu_length = nalu_length;
          data_out = none;
          is_start = starts;
        })
        | some memory ↦
            if leb nalu_length cap
            then (do
              copied ← copy_out_h265 (is_fu_h265 first) starts raw packet_length memory
              some (record {
                status = success;
                nalu_length = nalu_length;
                data_out = some copied;
                is_start = starts;
              }))
            else some (record {
              status = buffer_too_small;
              nalu_length = nalu_length;
              data_out = some memory;
              is_start = starts;
            })
      ]))
    else some (record { status = success; nalu_length = 0; data_out = out; is_start = true })
