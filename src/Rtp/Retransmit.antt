-- ===== src/Rtp/Retransmit.antt =====
-- constructRetransmitRtpPacketFromBytes of src/source/Rtp/RtpPacket.c: the packet of RFC 4588 that
-- repeats a packet on the retransmission stream.
use kvs_c.Base.{
  ℕ, ◌+◌, ◌-◌, ◌%◌, ◌^◌, ◌<◌, ◌≡◌, refl, sym, Bool, true, false, Option, none, some, List, ◌++◌,
  map, arith, length, drop, if◌then◌else◌,
}
use kvs_c.Base.Bytes.{◌>>=◌, read_block, read_block_whole, be16}
use kvs_c.Status.{Status, success, not_enough_memory}
use kvs_c.Rtp.{RtpPacketHeader, RtpPacket, rtp_get_raw_packet_size, unset_packet}
use kvs_c.Rtp.Parse.{set_rtp_packet_from_bytes}
use kvs_c.Rtp.Serialize.{set_bytes_from_rtp_packet, create_bytes_from_rtp_packet}
use kvs_c.Rtp.Written.{FitsWire, host_view}
use kvs_c.Rtp.RoundTrip.{parse-serialize_plain}

-- Whether each MEMALLOC of the function succeeds, in the order of the calls.
pub record Allocations : Type 0 where
  pub packet : Bool
  pub payload : Bool
  pub raw : Bool

-- The packet between the two halves of the function: the original sequence number in front of the
-- payload, and the header of the retransmission stream.
abbrev pub retransmission : RtpPacket → List ℕ → ℕ → ℕ → ℕ → RtpPacket
retransmission p body sequence_number payload_type ssrc = record p {
  header = record h {
    sequence_number = sequence_number;
    ssrc = ssrc;
    payload_type = payload_type;
    padding = false;
  };
  payload = some (be16 h.sequence_number ++ body);
  payload_length = (p.payload_length + 2) % 2 ^ 32;
  raw_packet = none;
}
  where
    h : RtpPacketHeader
    h = p.header

-- The second half: the bytes are written into `pRawPacket`, and the payload is its end.
pub write_raw : Bool → RtpPacket → Option (Status × Option RtpPacket)
write_raw allocated p = do
  (_, _, size) ← create_bytes_from_rtp_packet p true p.raw_packet_length
  (if allocated
      then (do
        (status, bytes, size') ← create_bytes_from_rtp_packet p false size
        some (elim status [
          | success ↦ (
            success,
            some (record p {
              raw_packet = some bytes;
              raw_packet_length = size';
              payload = some (drop (rtp_get_raw_packet_size p - p.payload_length) bytes);
            }),
          )
          | failure ↦ (failure, none)
        ]))
      else some (not_enough_memory, none))

-- constructRetransmitRtpPacketFromBytes; `none` inside is `*ppRtpPacket = NULL`.
pub construct_retransmit :
    Bool
    → Allocations
    → List ℕ
    → (packet_length sequence_number payload_type ssrc : ℕ) → Option (Status × Option RtpPacket)
construct_retransmit big_endian alloc memory packet_length sequence_number payload_type ssrc =
    if alloc.packet
    then (do
      (status, p) ← set_rtp_packet_from_bytes big_endian memory packet_length unset_packet
      elim status [
        | success ↦
            if alloc.payload
            then (do
              body ← elim p.payload [ none ↦ none | some mem ↦ read_block p.payload_length mem ]
              write_raw alloc.raw (retransmission p body sequence_number payload_type ssrc))
            else some (not_enough_memory, none)
        | failure ↦ some (failure, none)
      ])
    else some (not_enough_memory, none)

retransmission-FitsWire :
    (q : RtpPacket) (body : List ℕ) (seq pt ssrc : ℕ)
    → FitsWire q.header
    → seq < 2 ^ 16
    → pt < 128
    → ssrc < 2 ^ 32
    → FitsWire (retransmission q body seq pt ssrc).header
retransmission-FitsWire q body seq pt ssrc w hseq hpt hssrc = ground arith

-- The packet that is handed out once the bytes are written.
abbrev written_packet : RtpPacket → List ℕ → RtpPacket
written_packet p bytes = record p {
  raw_packet = some bytes;
  raw_packet_length = rtp_get_raw_packet_size p;
  payload = some (drop (rtp_get_raw_packet_size p - p.payload_length) bytes);
}

write_raw-written :
    (p : RtpPacket) (bytes : List ℕ)
    → set_bytes_from_rtp_packet p (rtp_get_raw_packet_size p) ≡ some (success, bytes)
    → write_raw true p ≡ some (success, some (written_packet p bytes))
unfolding write_raw create_bytes_from_rtp_packet
write_raw-written p bytes h = ground arith

-- A packet without an extension, read from its bytes, is retransmitted as bytes that read back as
-- the same packet but for the sequence number, the payload type, the SSRC and a clear padding bit,
-- with the original sequence number in front of the payload. The csrc elements pass through the
-- host's byte order once more.
pub retransmit-parse :
    (big_endian : Bool) (memory : List ℕ) (packet_length seq pt ssrc : ℕ) (q old : RtpPacket)
    (body : List ℕ)
    → set_rtp_packet_from_bytes big_endian memory packet_length unset_packet ≡ some (success, q)
    → FitsWire q.header
    → q.header.extension ≡ false
    → q.payload ≡ some body
    → q.payload_length ≡ length body
    → length body + 78 < 2 ^ 32
    → seq < 2 ^ 16
    → pt < 128
    → ssrc < 2 ^ 32
    → (r : RtpPacket) × (bytes : List ℕ) × (construct_retransmit big_endian
          (record { packet = true; payload = true; raw = true })
          memory
          packet_length
          seq
          pt
          ssrc
        ≡ some (success, some r))
      × (r.raw_packet ≡ some bytes)
      × (r.raw_packet_length ≡ length bytes)
      × (set_rtp_packet_from_bytes big_endian bytes (length bytes) old
          ≡ some (
            success,
            record old {
              header = record (retransmission q body seq pt ssrc).header {
                csrc_array = map (host_view big_endian) q.header.csrc_array;
                extension_profile = 0;
                extension_payload = none;
                extension_length = 0;
              };
              payload = some (be16 q.header.sequence_number ++ body);
              payload_length = length (be16 q.header.sequence_number ++ body);
            },
          ))
unfolding construct_retransmit
retransmit-parse e m n seq pt ssrc q old body parsed w plain eb el hs hseq hpt hssrc =
    let p : RtpPacket = retransmission q body seq pt ssrc in
    let (bytes, written, size, back) =
      parse-serialize_plain e p old (be16 q.header.sequence_number ++ body)
        (retransmission-FitsWire q body seq pt ssrc w hseq hpt hssrc) plain refl (omega arith)
        (omega arith) in
    (
      written_packet p bytes,
      bytes,
      ground (arith, read_block_whole body q.payload_length el, write_raw-written p bytes written),
      refl,
      sym size,
      back,
    )
