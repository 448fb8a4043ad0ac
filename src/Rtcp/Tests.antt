-- ===== src/Rtcp/Tests.antt =====
-- The RTCP parsers of src/source/Rtcp/RtcpPacket.c on concrete messages.
use kvs_c.Base.{ℕ, ◌≡◌, refl, none, some, List, [], ◌∷◌, ◌++◌, arith}
use kvs_c.Base.Bytes.{read16, read32}
use kvs_c.Status.{success}
use kvs_c.Rtcp.{RtcpPacket, set_rtcp_packet_from_bytes, set_fields, rtcp_nack_list_get}
use kvs_c.Rtcp.Nack.{nack_payload, rtcp_nack_list_get-lost, rtcp_nack_list_get_overrun}

-- A packet that nothing is set in.
abbrev unset : RtcpPacket
unset = record {
  header = record { version = 0; reception_report_count = 0; packet_type = 0; packet_length = 0 };
  payload = [];
  payload_length = 0;
}

-- A receiver report without blocks.
abbrev report : List ℕ
report = 129 ∷ 201 ∷ 0 ∷ 1 ∷ 0 ∷ 0 ∷ 0 ∷ 7 ∷ []

abbrev report_read : RtcpPacket
report_read = record {
  header = record { version = 2; reception_report_count = 1; packet_type = 201; packet_length = 1 };
  payload = 0 ∷ 0 ∷ 0 ∷ 7 ∷ [];
  payload_length = 4;
}

report_parsed : set_rtcp_packet_from_bytes report 8 unset ≡ some (success, report_read)
unfolding set_rtcp_packet_from_bytes set_fields read16
report_parsed = refl

-- One pair: 10 and, by the bits 0 and 2, 11 and 13.
abbrev pair : List (ℕ × ℕ)
pair = (10, 5) ∷ []

rtcp_nack_list_get-lost_example :
    rtcp_nack_list_get (nack_payload 7 9 pair) 12 (some (0 ∷ 0 ∷ 0 ∷ 4 ∷ [])) 4
    ≡ some (
      success,
      some (record {
        sender_ssrc = 7;
        receiver_ssrc = 9;
        list = some (10 ∷ 11 ∷ 13 ∷ 4 ∷ []);
        list_len = 3;
      }),
    )
rtcp_nack_list_get-lost_example =
    rtcp_nack_list_get-lost 7 9 4 pair (0 ∷ 0 ∷ 0 ∷ 4 ∷ []) (omega arith) (omega arith)
      (omega arith, omega arith, tt) refl (omega arith) (omega arith)

rtcp_nack_list_get_overrun_example :
    rtcp_nack_list_get (nack_payload 7 9 pair) 12 (some (0 ∷ 0 ∷ [])) 2 ≡ none
rtcp_nack_list_get_overrun_example =
    rtcp_nack_list_get_overrun 7 9 2 pair (0 ∷ 0 ∷ []) (omega arith) (omega arith)
      (omega arith, omega arith, tt) refl (omega arith) (omega arith)

-- The SSRCs and the identifier of a REMB message.
abbrev remb_front : List ℕ
remb_front = 0 ∷ 0 ∷ 0 ∷ 1 ∷ 0 ∷ 0 ∷ 0 ∷ 0 ∷ 0x52 ∷ 0x45 ∷ 0x4D ∷ 0x42 ∷ []

exponent_word : read32 (remb_front ++ (0 ∷ 160 ∷ 0 ∷ 1 ∷ [])) 12 ≡ some 0xA00001
unfolding read32
exponent_word = refl
