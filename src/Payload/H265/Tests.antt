-- ===== src/Payload/H265/Tests.antt =====
-- RtpH265Payloader.c on concrete units and streams.
use kvs_c.Base.{◌≡◌, refl, replicate, some, [], ◌∷◌, ◌++◌, arith}
use kvs_c.Base.Bytes.{read_block, write_at, store}
use kvs_c.Status.{success}
use kvs_c.Payload.Chunks.{concat}
use kvs_c.Payload.H264.{add_payload, put_payload}
use kvs_c.Payload.H264.Fragments.{array_of}
use kvs_c.Payload.H264.Passes.{limits_behind}
use kvs_c.Payload.H264.Depay.{start_code}
use kvs_c.Payload.H265.{fragment_round_h265, fragment_loop_h265, create_payload_from_nalu_h265}
use kvs_c.Payload.H265.RoundTrip.{
  nalu_packets_h265, depay_all_h265, depay_all_h265-nalu_packets_h265,
}

depay_all_h265-nalu_packets_h265_example :
    depay_all_h265 (nalu_packets_h265 5 0x26 1 (1 ∷ 2 ∷ 3 ∷ 4 ∷ []))
    ≡ some (start_code ++ (0x26 ∷ 1 ∷ 1 ∷ 2 ∷ 3 ∷ 4 ∷ []))
depay_all_h265-nalu_packets_h265_example =
    depay_all_h265-nalu_packets_h265 5 0x26 1 (1 ∷ 2 ∷ 3 ∷ 4 ∷ []) (omega arith) (omega arith)
      (omega arith) refl

-- A unit of six bytes at an MTU of five, written into memory: two packets of five bytes each.
written :
    create_payload_from_nalu_h265 5
      (0x26 ∷ 1 ∷ 1 ∷ 2 ∷ 3 ∷ 4 ∷ [])
      6
      (some (array_of (limits_behind [] [] 10 2) [] (replicate 10 0) [] (replicate 2 0)))
    ≡ some (
      success,
      10,
      2,
      some (
          array_of
            (limits_behind [] [] 10 2)
            (concat (nalu_packets_h265 5 0x26 1 (1 ∷ 2 ∷ 3 ∷ 4 ∷ [])))
            []
            (5 ∷ 5 ∷ [])
            []),
    )
unfolding fragment_round_h265 fragment_loop_h265 create_payload_from_nalu_h265 add_payload
    put_payload read_block write_at store
written = refl
