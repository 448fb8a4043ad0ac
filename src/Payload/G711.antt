-- ===== src/Payload/G711.antt =====
-- src/source/Rtp/Codecs/RtpG711Payloader.c
pub mod Passes
use kvs_c.Base.{
  ℕ, zero, suc, ◌+◌, ◌-◌, ◌/◌, ◌%◌, ◌&&◌, Option, none, some, List, ltb, leb, ◌==◌, if◌then◌else◌,
}
use kvs_c.Base.Bytes.{◌>>=◌, read_block, write_at, store}
use kvs_c.Status.{success, buffer_too_small}
use kvs_c.Payload.{Buffers, Payloaded, Depayloaded}

-- The loop over the sub lengths, from the element `i` on, on fuel: a round takes `mtu` from what
-- remains, so the length of the frame is enough fuel where `mtu` is not 0.
pub sub_length_loop : (fuel mtu remaining i : ℕ) → List ℕ → Option (List ℕ)
sub_length_loop zero mtu remaining i subs =
    if ltb mtu remaining then none else store subs i remaining
sub_length_loop (suc fuel) mtu remaining i subs =
    let next = store subs i mtu >>= sub_length_loop fuel mtu (remaining - mtu) (i + 1) in
    if ltb mtu remaining then next else store subs i remaining

-- createPayloadForG711; `payload_cap` and `sub_cap` are what the two length arguments hold before.
pub create_payload_for_g711 :
    (mtu : ℕ)
    → List ℕ
    → (frame_length : ℕ) → Option Buffers
    → (payload_cap sub_cap : ℕ) → Option Payloaded
create_payload_for_g711 mtu frame frame_length out payload_cap sub_cap =
    if mtu == 0 then none else (elim out [
      | none ↦ some (record {
        status = success;
        payload_length = frame_length;
        payload_sub_len_size = sub_size;
        buffers = none;
      })
      | some b ↦
          if leb frame_length payload_cap && leb sub_size sub_cap
          then (do
            bytes ← read_block frame_length frame
            buffer ← write_at b.payload_buffer 0 bytes
            subs ← sub_length_loop frame_length mtu frame_length 0 b.payload_sub_length
            some (record {
              status = success;
              payload_length = frame_length;
              payload_sub_len_size = sub_size;
              buffers = some (record { payload_buffer = buffer; payload_sub_length = subs });
            }))
          else some (record {
            status = buffer_too_small;
            payload_length = frame_length;
            payload_sub_len_size = sub_size;
            buffers = some b;
          })
    ])
  where
    sub_size : ℕ
    sub_size = frame_length / mtu + (if frame_length % mtu == 0 then 0 else 1)

-- depayG711FromRtpPayload; `*pIsStart` is always TRUE.
pub depay_g711 : List ℕ → (packet_length : ℕ) → Option (List ℕ) → (cap : ℕ) → Option Depayloaded
depay_g711 raw packet_length out cap =
    if ltb 0 packet_length
    then (elim out [
      | none ↦ some (record { status = success; length_out = packet_length; data_out = none })
      | some memory ↦
          if leb packet_length cap
          then (do
            bytes ← read_block packet_length raw
            copied ← write_at memory 0 bytes
            some (record { status = success; length_out = packet_length; data_out = some copied }))
          else some (record {
            status = buffer_too_small;
            length_out = packet_length;
            data_out = some memory;
          })
    ])
    else some (record { status = success; length_out = 0; data_out = out })
