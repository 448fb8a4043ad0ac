-- ===== src/Payload/H264/Stream.antt =====
-- createPayloadForH264 of RtpH264Payloader.c: the loop over the units of a stream. createPayloadForH265
-- is the same but for the function that cuts up a unit and the size of the header, the parameters here.
use kvs_c.Base.{ℕ, zero, suc, ◌+◌, Option, none, some, List, ltb, ◌==◌, if◌then◌else◌, drop}
use kvs_c.Base.Bytes.{◌>>=◌}
use kvs_c.Status.{Status, success, rtp_input_mtu_too_small, succeeded}
use kvs_c.Payload.{Buffers}
use kvs_c.Payload.H264.{add32, sub32, NaluArray, get_next_nalu_length, create_payload_from_nalu}

-- The variables of createPayloadForH264: `remainNalusLength`, the bytes at `curPtrInNalus`, and what
-- the fields `payloadLength` and `payloadSubLenSize` of `payloadArray` hold; then the array, if any.
pub record Units : Type 0 where
  pub remaining : ℕ
  pub at_nalus : List ℕ
  pub payload_length : ℕ
  pub payload_sub_len_size : ℕ
  pub array : Option NaluArray

-- The variables behind a unit: the sizes are summed up, or the array moves behind what was written.
pub move_on : (length_single sub_single : ℕ) → Option NaluArray → Units → Units
move_on length_single sub_single array s = elim array [
  | none ↦ record s {
    payload_length = add32 s.payload_length length_single;
    payload_sub_len_size = add32 s.payload_sub_len_size sub_single;
    array = none;
  }
  | some a ↦ record s {
    array = some (record a {
      payload_buffer_at = a.payload_buffer_at + length_single;
      payload_sub_length_at = a.payload_sub_length_at + sub_single;
      max_payload_length = sub32 a.max_payload_length length_single;
      max_payload_sub_len_size = sub32 a.max_payload_sub_len_size sub_single;
    });
  }
]

-- createPayloadFromNalu, or createPayloadFromNaluH265.
abbrev pub CreatePayload : Type 0
CreatePayload =
    (mtu : ℕ)
    → List ℕ
    → (nalu_length : ℕ) → Option NaluArray
    → Option (Status × ℕ × ℕ × Option NaluArray)

-- The loop of createPayloadForH264: a unit is taken from the stream and cut up, until nothing is left.
-- A round takes a start code, so the length of the stream is enough fuel.
pub stream_loop : CreatePayload → (fuel mtu : ℕ) → Units → Option (Status × Units)
stream_loop create zero mtu s = none
stream_loop create (suc fuel) mtu s = do
  (found, start, nalu_length) ← get_next_nalu_length s.at_nalus s.remaining
  (if succeeded found
      then (do
        let behind : ℕ = sub32 s.remaining start
        (if behind == 0
            then some (success, record s { remaining = 0; at_nalus = drop start s.at_nalus })
            else (do
              (status, length_single, sub_single, array) ←
                  create mtu (drop start s.at_nalus) nalu_length s.array
              let next : Units = record (move_on length_single sub_single array s) {
                remaining = sub32 behind nalu_length;
                at_nalus = drop (start + nalu_length) s.at_nalus;
              }
              let rest = stream_loop create fuel mtu next
              (if succeeded status
                  then (if next.remaining == 0 then some (success, next) else rest)
                  else some (status, record s { array = array })))))
      else some (found, s))

-- createPayloadForH264, and createPayloadForH265: the status, `*pPayloadLength`, `*pPayloadSubLenSize`, and the memory. With
-- memory the two lengths come back as they were given.
pub create_payload_for_stream :
    (header_size : ℕ)
    → CreatePayload
    → (mtu : ℕ) → List ℕ
    → (nalus_length : ℕ) → (given : Option (ℕ × ℕ × Buffers))
    → Option (Status × ℕ × ℕ × Option Buffers)
create_payload_for_stream header_size create mtu nalus nalus_length none = do
  (status, s) ←
      (if ltb header_size mtu
        then stream_loop create (suc nalus_length) mtu (record {
          remaining = nalus_length;
          at_nalus = nalus;
          payload_length = 0;
          payload_sub_len_size = 0;
          array = none;
        })
        else some (
          rtp_input_mtu_too_small,
          record {
            remaining = nalus_length;
            at_nalus = nalus;
            payload_length = 0;
            payload_sub_len_size = 0;
            array = none;
          },
        ))
  (if succeeded status
      then some (status, s.payload_length, s.payload_sub_len_size, none)
      else some (status, 0, 0, none))
create_payload_for_stream header_size create mtu nalus nalus_length
      (some (payload_length, sub_len_size, memory)) =
    if ltb header_size mtu
    then (do
      (status, s) ← stream_loop create (suc nalus_length) mtu (record {
        remaining = nalus_length;
        at_nalus = nalus;
        payload_length = payload_length;
        payload_sub_len_size = sub_len_size;
        array = some (record {
          memory = memory;
          payload_buffer_at = 0;
          payload_sub_length_at = 0;
          max_payload_length = payload_length;
          max_payload_sub_len_size = sub_len_size;
        });
      })
      some (
        status,
        s.payload_length,
        s.payload_sub_len_size,
        elim s.array [ none ↦ none | some a ↦ some a.memory ],
      ))
    else some (rtp_input_mtu_too_small, payload_length, sub_len_size, some memory)

-- createPayloadForH264
abbrev pub create_payload_for_h264 :
    (mtu : ℕ)
    → List ℕ
    → (nalus_length : ℕ) → (given : Option (ℕ × ℕ × Buffers))
    → Option (Status × ℕ × ℕ × Option Buffers)
create_payload_for_h264 = create_payload_for_stream 2 create_payload_from_nalu
