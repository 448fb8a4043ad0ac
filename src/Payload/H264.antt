-- ===== src/Payload/H264.antt =====
-- src/source/Rtp/Codecs/RtpH264Payloader.c: the search for the end of a NAL unit in an Annex-B stream,
-- and the cut of a unit into the payloads of its packets (RFC 6184, single units and FU-A).
-- Stream is the loop over the units, Depay the way back.
pub mod Scan
pub mod Fragments
pub mod Passes
pub mod Depay
pub mod RoundTrip
pub mod Stream
mod Tests
use kvs_c.Base.{
  ℕ, zero, suc, ◌+◌, ◌-◌, ◌^◌, ◌%◌, Bool, true, false, ◌&&◌, Option, none, some, List, [], ◌∷◌, ltb,
  leb, ◌==◌, if◌then◌else◌, length, drop, bit_and, bit_or, min,
}
use kvs_c.Base.Bytes.{◌>>=◌, read8, read_block, write_at, store}
use kvs_c.Status.{
  Status, success, buffer_too_small, rtp_input_mtu_too_small, rtp_invalid_nalu, succeeded,
}
use kvs_c.Payload.{Buffers}

abbrev pub add32 : ℕ → ℕ → ℕ
add32 a b = (a + b) % 2 ^ 32

abbrev pub sub32 : ℕ → ℕ → ℕ
sub32 a b = (a + 2 ^ 32 - b) % 2 ^ 32

-- The first loop of getNextNaluLength: the zeros in front of the start code, at most four.
pub zeros_loop : (fuel offset nalus_length : ℕ) → List ℕ → Option ℕ
zeros_loop zero offset nalus_length nalus = some offset
zeros_loop (suc fuel) offset nalus_length nalus =
    if ltb offset nalus_length
    then (do
      b ← read8 nalus offset
      (if b == 0 then zeros_loop fuel (offset + 1) nalus_length nalus else some offset))
    else some offset

-- What the second loop leaves: `offset`, and `naluFound ? zeroCount : 0`.
pub record Scanned : Type 0 where
  pub offset : ℕ
  pub nalu_found : Bool
  pub zero_count : ℕ

-- The second loop of getNextNaluLength, which jumps where no start code can end. The bytes left are
-- enough fuel.
pub scan_loop : (fuel offset nalus_length : ℕ) → List ℕ → Option Scanned
scan_loop zero offset nalus_length nalus =
    if ltb offset nalus_length
    then none
    else some (record { offset = offset; nalu_found = false; zero_count = 0 })
scan_loop (suc fuel) offset nalus_length nalus =
    let one_on = scan_loop fuel (offset + 1) nalus_length nalus in
    let three_on = scan_loop fuel (offset + 3) nalus_length nalus in
    if ltb offset nalus_length
    then (do
      b ← read8 nalus offset
      (if b == 0
          then one_on
          else if b == 1
          then (do
            one_before ← read8 nalus (offset - 1)
            two_before ← read8 nalus (offset - 2)
            (if (one_before == 0) && (two_before == 0)
                then (do
                  three_before ← read8 nalus (offset - 3)
                  some (record {
                    offset = offset;
                    nalu_found = true;
                    zero_count = if three_before == 0 then 3 else 2;
                  }))
                else three_on))
          else three_on))
    else some (record { offset = offset; nalu_found = false; zero_count = 0 })

-- getNextNaluLength: the status, `*pStart`, and `*pNaluLength`; the last two only on success.
pub get_next_nalu_length : List ℕ → (nalus_length : ℕ) → Option (Status × ℕ × ℕ)
get_next_nalu_length nalus nalus_length = do
  offset ← zeros_loop 4 0 nalus_length nalus
  (if ltb offset nalus_length && (ltb offset 4 && leb 2 offset)
      then (do
        b ← read8 nalus offset
        (if b == 1
            then (do
              s ← scan_loop nalus_length (offset + 1) nalus_length nalus
              some (
                success,
                offset + 1,
                sub32 (sub32 (min s.offset nalus_length) (offset + 1)) s.zero_count,
              ))
            else some (rtp_invalid_nalu, 0, 0)))
      else some (rtp_invalid_nalu, 0, 0))

-- `NaluArray` where a buffer was given: the memory, with the two write pointers as offsets.
pub record NaluArray : Type 0 where
  pub memory : Buffers
  pub payload_buffer_at : ℕ
  pub payload_sub_length_at : ℕ
  pub max_payload_length : ℕ
  pub max_payload_sub_len_size : ℕ

-- The variables of createPayloadFromNalu, `pPayload` as an offset.
pub record NaluProgress : Type 0 where
  pub remaining : ℕ
  pub cur_in_nalu : List ℕ
  pub payload_length : ℕ
  pub payload_sub_len_size : ℕ
  pub payload_at : ℕ
  pub array : Option NaluArray

-- The copy of one payload into the array.
unfoldable pub put_payload : (bytes : List ℕ) → NaluProgress → NaluArray → Option NaluArray
put_payload bytes f a = do
  copied ← write_at a.memory.payload_buffer f.payload_at bytes
  subs ←
      store a.memory.payload_sub_length (a.payload_sub_length_at + f.payload_sub_len_size - 1)
        (length bytes % 2 ^ 32)
  some (record a { memory = record { payload_buffer = copied; payload_sub_length = subs } })

-- A payload of `size` bytes is counted and, where there is an array, tested for room and copied.
unfoldable pub add_payload :
    (size : ℕ) → Option (List ℕ) → NaluProgress → Option (Status × NaluProgress)
add_payload size bytes f = elim f.array [
  | none ↦ some (success, counted)
  | some a ↦
      if leb counted.payload_sub_len_size a.max_payload_sub_len_size
        && leb counted.payload_length a.max_payload_length
      then (do
        copy ← bytes
        a' ← put_payload copy counted a
        some (success, record counted { array = some a'; payload_at = f.payload_at + size }))
      else some (buffer_too_small, counted)
]
  where
    counted : NaluProgress
    counted = record f {
      payload_length = add32 f.payload_length size;
      payload_sub_len_size = add32 f.payload_sub_len_size 1;
    }

-- The second byte of a FU-A payload.
abbrev pub fu_header : (nalu_type nalu_length remaining cur : ℕ) → ℕ
fu_header nalu_type nalu_length remaining cur =
    if remaining == nalu_length - 1
    then bit_or nalu_type 0x80
    else if remaining == cur
    then bit_or nalu_type 0x40
    else nalu_type

-- One round of the loop over the FU-A payloads of a NAL unit.
pub fragment_round :
    (mtu nalu_type nalu_ref_idc nalu_length : ℕ) → NaluProgress → Option (Status × NaluProgress)
fragment_round mtu nalu_type nalu_ref_idc nalu_length f = do
  (status, f') ← add_payload (2 + cur) bytes f
  some (
    status,
    (if succeeded status
        then record f' { remaining = f.remaining - cur; cur_in_nalu = drop cur f.cur_in_nalu }
        else f'),
  )
  where
    cur : ℕ
    cur = min (mtu - 2) f.remaining

    bytes : Option (List ℕ)
    bytes = do
      piece ← read_block cur f.cur_in_nalu
      some (bit_or 28 nalu_ref_idc ∷ fu_header nalu_type nalu_length f.remaining cur ∷ piece)

-- `while (remainingNaluLength != 0)`; a round takes at least one byte, so their number is enough fuel.
pub fragment_loop :
    (fuel mtu nalu_type nalu_ref_idc nalu_length : ℕ)
    → NaluProgress
    → Option (Status × NaluProgress)
fragment_loop zero mtu nalu_type nalu_ref_idc nalu_length f =
    if f.remaining == 0 then some (success, f) else none
fragment_loop (suc fuel) mtu nalu_type nalu_ref_idc nalu_length f =
    let next : Option (Status × NaluProgress) = (do
      (status, f') ← fragment_round mtu nalu_type nalu_ref_idc nalu_length f
      let rest = fragment_loop fuel mtu nalu_type nalu_ref_idc nalu_length f'
      (if succeeded status then rest else some (status, f'))) in
    if f.remaining == 0 then some (success, f) else next

-- createPayloadFromNalu: the status, `*filledLength`, `*filledSubLenSize`, and the array.
pub create_payload_from_nalu :
    (mtu : ℕ)
    → List ℕ
    → (nalu_length : ℕ) → Option NaluArray
    → Option (Status × ℕ × ℕ × Option NaluArray)
create_payload_from_nalu mtu nalu nalu_length array =
    if ltb 2 mtu
    then (do
      first ← read8 nalu 0
      (status, f) ←
          (if leb nalu_length mtu
            then add_payload nalu_length (read_block nalu_length nalu) start
            else fragment_loop (nalu_length - 1) mtu (bit_and first 0x1F) (bit_and first 0x60)
                nalu_length
                (record start { remaining = nalu_length - 1; cur_in_nalu = drop 1 nalu }))
      some (status, f.payload_length, f.payload_sub_len_size, f.array))
    else some (rtp_input_mtu_too_small, 0, 0, array)
  where
    start : NaluProgress
    start = record {
      remaining = nalu_length;
      cur_in_nalu = nalu;
      payload_length = 0;
      payload_sub_len_size = 0;
      payload_at = elim array [ none ↦ 0 | some a ↦ a.payload_buffer_at ];
      array = array;
    }
