-- ===== src/Payload/H264/Depay.antt =====
-- depayH264FromRtpPayload of RtpH264Payloader.c: its size pass, which also tells whether a packet
-- starts a unit, and its copying pass.
use kvs_c.Base.{
  ℕ, zero, suc, ◌+◌, Bool, true, false, not, ◌&&◌, Option, none, some, List, [], ◌∷◌, ltb, leb,
  ◌==◌, if◌then◌else◌, drop, bit_and, bit_or,
}
use kvs_c.Base.Bytes.{◌>>=◌, read8, read16, read_block, write_at}
use kvs_c.Status.{Status, success, buffer_too_small}
use kvs_c.Payload.H264.{add32, sub32}

-- What depayH264FromRtpPayload leaves: `*pNaluLength`, the memory of the data, and `*pIsStart`.
pub record NaluOut : Type 0 where
  pub status : Status
  pub nalu_length : ℕ
  pub data_out : Option (List ℕ)
  pub is_start : Bool

-- The kinds of payload that the switches tell apart.
pub data Indicator : Type 0 where
  fu_a fu_b stap_a stap_b single : Indicator

unfoldable pub indicator_of : (first : ℕ) → Indicator
indicator_of first =
    let i = bit_and first 31 in
    if i == 28
    then fu_a
    else if i == 29
    then fu_b
    else if i == 24
    then stap_a
    else if i == 25
    then stap_b
    else single

-- `start4ByteCode`
abbrev pub start_code : List ℕ
start_code = 0 ∷ 0 ∷ 0 ∷ 1 ∷ []

-- The size loop of an aggregate; `at_byte` is `pCurPtr`. A round moves by two bytes or more, so the
-- length of the packet is enough fuel.
pub aggregate_size : (fuel at_byte packet_length nalu_length : ℕ) → List ℕ → Option ℕ
aggregate_size zero at_byte packet_length nalu_length raw = none
aggregate_size (suc fuel) at_byte packet_length nalu_length raw = do
  size ← read16 raw at_byte
  let rest =
      aggregate_size fuel (at_byte + 2 + size) packet_length (add32 nalu_length (size + 4)) raw
  (if ltb 0 size && ltb (at_byte + 2 + size) packet_length
      then rest
      else some (add32 nalu_length (size + 4)))

-- The copying loop of an aggregate: the length, and the memory.
pub aggregate_copy :
    (fuel at_byte out_at packet_length nalu_length : ℕ) (raw memory : List ℕ) → Option (ℕ × List ℕ)
aggregate_copy zero at_byte out_at packet_length nalu_length raw memory = none
aggregate_copy (suc fuel) at_byte out_at packet_length nalu_length raw memory = do
  size ← read16 raw at_byte
  coded ← write_at memory out_at start_code
  piece ← read_block size (drop (at_byte + 2) raw)
  copied ← write_at coded (out_at + 4) piece
  let length_now = add32 nalu_length (4 + size)
  let rest =
      aggregate_copy fuel (at_byte + 2 + size) (out_at + 4 + size) packet_length length_now raw
        copied
  (if ltb 0 size && ltb (at_byte + 2 + size) packet_length then rest else some (length_now, copied))

-- The first switch: the length, and `isStartingPacket`.
unfoldable pub measure : Indicator → List ℕ → (packet_length : ℕ) → Option (ℕ × Bool)
measure fu_a raw packet_length = do
  header ← read8 raw 1
  let starts = not (bit_and header 0x80 == 0)
  some (if starts then add32 (sub32 packet_length 2) 5 else sub32 packet_length 2, starts)
measure fu_b raw packet_length = some (add32 (sub32 packet_length 2) 1, false)
measure stap_a raw packet_length = do
  size ← aggregate_size packet_length 1 packet_length 0 raw
  some (size, true)
measure stap_b raw packet_length = do
  size ← aggregate_size packet_length 3 packet_length 0 raw
  some (size, true)
measure single raw packet_length = some (add32 packet_length 4, true)

-- The second switch, into memory of enough bytes: the length, and the memory.
unfoldable pub copy_out :
    Indicator
    → (raw : List ℕ) → (packet_length nalu_length : ℕ) → (starts : Bool) → (memory : List ℕ)
    → Option (ℕ × List ℕ)
copy_out fu_a raw packet_length nalu_length true memory = do
  coded ← write_at memory 0 start_code
  piece ← read_block (sub32 (sub32 nalu_length 4) 1) (drop 2 raw)
  copied ← write_at coded 5 piece
  first ← read8 raw 0
  header ← read8 raw 1
  headed ← write_at copied 4 (bit_or (bit_and first 0x60) (bit_and header 0x1F) ∷ [])
  some (nalu_length, headed)
copy_out fu_a raw packet_length nalu_length false memory = do
  piece ← read_block nalu_length (drop 2 raw)
  copied ← write_at memory 0 piece
  some (nalu_length, copied)
copy_out fu_b raw packet_length nalu_length starts memory = do
  piece ← read_block nalu_length (drop 4 raw)
  copied ← write_at memory 0 piece
  some (nalu_length, copied)
copy_out stap_a raw packet_length nalu_length starts memory =
    aggregate_copy packet_length 1 0 packet_length 0 raw memory
copy_out stap_b raw packet_length nalu_length starts memory =
    aggregate_copy packet_length 1 0 packet_length 0 raw memory
copy_out single raw packet_length nalu_length starts memory = do
  coded ← write_at memory 0 start_code
  piece ← read_block (sub32 nalu_length 4) raw
  copied ← write_at coded 4 piece
  some (nalu_length, copied)

-- depayH264FromRtpPayload
unfoldable pub depay_h264 :
    List ℕ → (packet_length : ℕ) → Option (List ℕ) → (cap : ℕ) → Option NaluOut
depay_h264 raw packet_length out cap =
    if ltb 0 packet_length
    then (do
      first ← read8 raw 0
      (nalu_length, starts) ← measure (indicator_of first) raw packet_length
      (elim out [
        | none ↦ some (record {
          status = success;
          nalu_length = nalu_length;
          data_out = none;
          is_start = starts;
        })
        | some memory ↦
            if leb nalu_length cap
            then (do
              (final_length, copied) ←
                  copy_out (indicator_of first) raw packet_length nalu_length starts memory
              some (record {
                status = success;
                nalu_length = final_length;
                data_out = some copied;
                is_start = starts;
              }))
            else some (record {
              status = buffer_too_small;
              nalu_length = nalu_length;
              data_out = some memory;
              is_start = starts;
            })
      ]))
    else some (record { status = success; nalu_length = 0; data_out = out; is_start = false })
