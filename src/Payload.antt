-- ===== src/Payload.antt =====
-- src/source/Rtp/Codecs: the payloaders for G.711, Opus and VP8, which cut a frame into the payloads
-- of its packets, and the depayloaders.
-- Memory that a function is given is the list of the bytes there; `none` is an access outside of it,
-- a division by zero, or a loop that does not end. NULL arguments, for which the code returns
-- STATUS_NULL_ARG, are not values of the model, but for the output buffer, whose NULL asks for sizes.
pub mod Chunks
pub mod G711
pub mod Opus
pub mod Vp8
pub mod H264
pub mod H265
mod Tests
use kvs_c.Base.{ℕ, Option, List}
use kvs_c.Status.{Status}

-- The memory behind `payloadBuffer` and `pPayloadSubLength`.
pub record Buffers : Type 0 where
  pub payload_buffer : List ℕ
  pub payload_sub_length : List ℕ

-- What a payloader leaves: `*pPayloadLength`, `*pPayloadSubLenSize`, and the memory, if any was given.
pub record Payloaded : Type 0 where
  pub status : Status
  pub payload_length : ℕ
  pub payload_sub_len_size : ℕ
  pub buffers : Option Buffers

-- What a depayloader leaves: `*pLength`, the memory of the data, if any was given, and `*pIsStart`.
pub record Depayloaded : Type 0 where
  pub status : Status
  pub length_out : ℕ
  pub data_out : Option (List ℕ)
