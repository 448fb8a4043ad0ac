-- ===== src/Payload/Vp8.antt =====
-- src/source/Rtp/Codecs/RtpVP8Payloader.c
pub mod Passes
pub mod Sizes
pub mod RoundTrip
use kvs_c.Base.{
  ℕ, zero, suc, ◌+◌, ◌-◌, ◌*◌, ◌/◌, ◌%◌, ◌^◌, ◌≤◌, ◌<◌, ◌≡◌, Bool, true, false, not, ◌&&◌, Option,
  none, some, List, [], ◌∷◌, ◌++◌, ltb, leb, ◌==◌, if◌then◌else◌, drop, bit_and,
}
use kvs_c.Base.Bytes.{◌>>=◌, read8, read_block, write_at, store}
use kvs_c.Status.{Status, success, buffer_too_small}
use kvs_c.Payload.{Buffers, Payloaded, Depayloaded}

-- The variables of the loop of createPayloadForVP8: `payloadArray` with its write pointer as an
-- offset, `currentData`, and `pPayloadSubLength`.
pub record Progress : Type 0 where
  pub payload_length : ℕ
  pub payload_sub_len_size : ℕ
  pub position : ℕ
  pub current_data : List ℕ
  pub buffers : Option Buffers

abbrev add32 : ℕ → ℕ → ℕ
add32 a b = (a + b) % 2 ^ 32

-- The writes of one round: the descriptor, the data, and the sub length.
pub write_piece : (consumed : ℕ) → Progress → Option Progress
write_piece consumed p = elim p.buffers [
  | none ↦ some p
  | some b ↦ do
    described ←
        write_at b.payload_buffer p.position
          ((if p.payload_sub_len_size == 0 then 0x10 else 0) ∷ [])
    piece ← read_block consumed p.current_data
    copied ← write_at described (p.position + 1) piece
    subs ← store b.payload_sub_length p.payload_sub_len_size (add32 consumed 1)
    some (record p {
      position = p.position + 1 + consumed;
      current_data = drop consumed p.current_data;
      buffers = some (record { payload_buffer = copied; payload_sub_length = subs });
    })
]

-- One round of the loop.
pub round : (consumed : ℕ) → Progress → Option Progress
round consumed p = do
  q ← write_piece consumed p
  some (record q {
    payload_length = add32 p.payload_length (add32 consumed 1);
    payload_sub_len_size = add32 p.payload_sub_len_size 1;
  })

-- `MIN(mtu - VP8_PAYLOAD_DESCRIPTOR_SIZE, payloadRemaining)`
abbrev pub consumed_of : (mtu remaining : ℕ) → ℕ
consumed_of mtu remaining =
    let room = (mtu + 2 ^ 32 - 1) % 2 ^ 32 in if ltb room remaining then room else remaining

-- `while (payloadRemaining > 0)`, on fuel: a round takes at least one byte where the MTU is not 1, so
-- the length of the data is enough.
pub payload_loop : (fuel mtu remaining : ℕ) → Progress → Option Progress
payload_loop zero mtu remaining p = if remaining == 0 then some p else none
payload_loop (suc fuel) mtu remaining p =
    let next =
      round (consumed_of mtu remaining) p
      >>= payload_loop fuel mtu (remaining - consumed_of mtu remaining) in
    if remaining == 0 then some p else next

-- createPayloadForVP8
pub create_payload_for_vp8 : (mtu : ℕ) → List ℕ → (data_len : ℕ) → Option Buffers → Option Payloaded
create_payload_for_vp8 mtu frame data_len out = do
  p ← payload_loop data_len mtu data_len (record {
    payload_length = 0;
    payload_sub_len_size = 0;
    position = 0;
    current_data = frame;
    buffers = out;
  })
  some (record {
    status = success;
    payload_length = p.payload_length;
    payload_sub_len_size = p.payload_sub_len_size;
    buffers = p.buffers;
  })

-- Whether the bit of a byte is set.
abbrev pub flag : (bit byte : ℕ) → Bool
flag bit byte = not (bit_and byte bit == 0)

-- The second byte of the descriptor, present when its first bit is: the flags that it holds.
pub control_bits : List ℕ → Option ℕ
control_bits raw = do first ← read8 raw 0; (if flag 0x80 first then read8 raw 1 else some 0)

-- `payloadDescriptorLength`. Without control bits all four flags are FALSE.
pub descriptor_length : List ℕ → Option ℕ
descriptor_length raw = do
  first ← read8 raw 0
  control ← control_bits raw
  let base : ℕ = if flag 0x80 first then 2 else 1
  picture ←
      (if flag 0x80 control
        then (do byte ← read8 raw base; some (if flag 0x80 byte then 2 else 1))
        else some 0)
  some (
      base
      + picture
      + (if flag 0x40 control then 1 else 0)
      + (if flag 0x20 control then 1 else if flag 0x10 control then 1 else 0))

-- depayVP8FromRtpPayload; `*pIsStart` is always TRUE.
pub depay_vp8 : List ℕ → (packet_length : ℕ) → Option (List ℕ) → (cap : ℕ) → Option Depayloaded
depay_vp8 raw packet_length out cap =
    if ltb 0 packet_length
    then (do
      skipped ← descriptor_length raw
      let vp8_length = (packet_length + 2 ^ 32 - skipped) % 2 ^ 32
      (elim out [
        | none ↦ some (record { status = success; length_out = vp8_length; data_out = none })
        | some memory ↦
            if leb vp8_length cap
            then (do
              bytes ← read_block vp8_length (drop skipped raw)
              copied ← write_at memory 0 bytes
              some (record { status = success; length_out = vp8_length; data_out = some copied }))
            else some (record {
              status = buffer_too_small;
              length_out = vp8_length;
              data_out = some memory;
            })
      ]))
    else some (record { status = success; length_out = 0; data_out = out })
