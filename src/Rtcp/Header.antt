-- ===== src/Rtcp/Header.antt =====
-- setRtcpPacketFromBytes: what it accepts, and that what it hands out lies inside the bytes.
use kvs_c.Base.{
  ℕ, ◌+◌, ◌*◌, ◌/◌, ◌%◌, ◌^◌, ◌≤◌, ◌<◌, ◌≡◌, some, List, ◌∷◌, ◌++◌, arith, length, drop, leb,
  if◌then◌else◌,
}
use native.Mathlib.Decide.{dec_le}
use kvs_c.Base.Bits.{and_3, and_31}
use kvs_c.Base.Bytes.{read16, be16, get_elem?-some, read16-some}
use kvs_c.Status.{Status, success, rtcp_input_packet_too_small, rtcp_input_partial_packet}
use kvs_c.Rtcp.{RtcpPacket, set_fields, set_rtcp_packet_from_bytes}

-- No read leaves the memory when it holds as many bytes as stated.
set_rtcp_packet_total :
    (memory : List ℕ) (packets_len : ℕ) (p : RtcpPacket)
    → packets_len ≤ length memory
    → (r : Status × RtcpPacket) × (set_rtcp_packet_from_bytes memory packets_len p ≡ some r)
unfolding set_rtcp_packet_from_bytes
set_rtcp_packet_total m n p h = elim (dec_le 4 n) [
  | yes four ↦
      let (len, el) = read16-some m 2 (omega arith) in
      let (b, eb) = get_elem?-some m 0 (omega arith) in
      let (t, et) = get_elem?-some m 1 (omega arith) in
      (
        (if leb ((len + 1) * 4) n then set_fields b t len m p else (rtcp_input_partial_packet, p)),
        ground arith,
      )
  | no short ↦ ((rtcp_input_packet_too_small, p), ground arith)
]

-- An accepted packet has version 2, and its payload, whole words, ends inside the stated bytes.
set_rtcp_packet_bounds :
    (memory : List ℕ) (packets_len : ℕ) (p q : RtcpPacket)
    → set_rtcp_packet_from_bytes memory packets_len p ≡ some (success, q)
    → (q.header.version ≡ 2)
      × (q.payload ≡ drop 4 memory)
      × (q.payload_length ≡ q.header.packet_length * 4)
      × (q.payload_length + 4 ≤ packets_len)
unfolding set_rtcp_packet_from_bytes set_fields read16
set_rtcp_packet_bounds m n p q h = ground arith

-- A header of version 2 with `words` words behind it is read back, with anything after it.
set_rtcp_packet_wire :
    (padded_count packet_type words : ℕ) (rest : List ℕ) (p : RtcpPacket)
    → padded_count < 64
    → packet_type < 256
    → words < 2 ^ 16
    → words * 4 ≤ length rest
    → let memory = (128 + padded_count) ∷ packet_type ∷ (be16 words ++ rest) in
      set_rtcp_packet_from_bytes memory (length memory) p
      ≡ some (
        success,
        record {
          header = record {
            version = 2;
            reception_report_count = padded_count % 32;
            packet_type = packet_type;
            packet_length = words;
          };
          payload = rest;
          payload_length = words * 4;
        },
      )
unfolding set_rtcp_packet_from_bytes set_fields read16
set_rtcp_packet_wire c t words rest p hc ht hw hr =
    ground (arith, and_3 ((128 + c) / 64), and_31 (128 + c))
