-- ===== src/Payload/Opus.antt =====
-- src/source/Rtp/Codecs/RtpOpusPayloader.c
use kvs_c.Base.{ℕ, ◌&&◌, Option, none, some, List, ltb, leb, if◌then◌else◌}
use kvs_c.Base.Bytes.{◌>>=◌, read_block, write_at, store}
use kvs_c.Status.{success, buffer_too_small}
use kvs_c.Payload.{Buffers, Payloaded, Depayloaded}

-- createPayloadForOpus; the MTU is not used.
pub create_payload_for_opus :
    List ℕ → (frame_length : ℕ) → Option Buffers → (payload_cap sub_cap : ℕ) → Option Payloaded
create_payload_for_opus frame frame_length out payload_cap sub_cap = elim out [
  | none ↦ some (record {
    status = success;
    payload_length = frame_length;
    payload_sub_len_size = 1;
    buffers = none;
  })
  | some b ↦
      if leb frame_length payload_cap && leb 1 sub_cap
      then (do
        bytes ← read_block frame_length frame
        buffer ← write_at b.payload_buffer 0 bytes
        subs ← store b.payload_sub_length 0 frame_length
        some (record {
          status = success;
          payload_length = frame_length;
          payload_sub_len_size = 1;
          buffers = some (record { payload_buffer = buffer; payload_sub_length = subs });
        }))
      else some (record {
        status = buffer_too_small;
        payload_length = frame_length;
        payload_sub_len_size = 1;
        buffers = some b;
      })
]

-- depayOpusFromRtpPayload; `*pIsStart` is always TRUE.
pub depay_opus : List ℕ → (packet_length : ℕ) → Option (List ℕ) → (cap : ℕ) → Option Depayloaded
depay_opus raw packet_length out cap =
    if ltb 0 packet_length
    then (elim out [
      | none ↦ some (record { status = success; length_out = packet_length; data_out = none })
      | some memory ↦
          if leb packet_length cap
          then (do
            bytes ← read_block packet_length raw
            copied ← write_at memory 0 bytes
            some (record { status = success; length_out = packet_length; data_out = some copied }))
          else some (record {
            status = buffer_too_small;
            length_out = packet_length;
            data_out = some memory;
          })
    ])
    else some (record { status = success; length_out = 0; data_out = out })
