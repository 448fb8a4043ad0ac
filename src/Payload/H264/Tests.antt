-- ===== src/Payload/H264/Tests.antt =====
-- RtpH264Payloader.c on concrete units and streams.
use kvs_c.Base.{ℕ, ◌-◌, ◌≤◌, ◌≡◌, refl, false, none, some, List, [], ◌∷◌, ◌++◌, arith}
use kvs_c.Status.{Status, success}
use kvs_c.Payload.H264.{create_payload_from_nalu, get_next_nalu_length}
use kvs_c.Payload.H264.Scan.{IsCode, IsNaluEnd, get_next_nalu_length-IsNaluEnd}
use kvs_c.Payload.H264.Fragments.{nalu_packets, array_of}
use kvs_c.Payload.H264.Passes.{limits_behind, create_payload_from_nalu-nalu_packets}
use kvs_c.Payload.H264.Depay.{start_code, depay_h264, indicator_of}
use kvs_c.Payload.H264.RoundTrip.{depay_all, depay_all-nalu_packets, depay_h264_overread}

-- Two units behind start codes of four and of three bytes.
abbrev stream : List ℕ
stream = 0 ∷ 0 ∷ 0 ∷ 1 ∷ 0x67 ∷ 66 ∷ 0 ∷ 0 ∷ 1 ∷ 0x65 ∷ 1 ∷ 2 ∷ 3 ∷ 4 ∷ 5 ∷ []

get_next_nalu_length-IsNaluEnd_example :
    (status : Status) × (start n : ℕ) × (get_next_nalu_length stream 15 ≡ some (status, start, n))
    × (status ≡ success
        → (3 ≤ start) × (start ≤ 4) × IsCode stream (start - 1) × IsNaluEnd stream 15 start n)
get_next_nalu_length-IsNaluEnd_example =
    get_next_nalu_length-IsNaluEnd stream 15 (omega arith) (omega arith)

create_payload_from_nalu-nalu_packets_example :
    (create_payload_from_nalu 4 (0x65 ∷ 1 ∷ 2 ∷ 3 ∷ []) 4 none ≡ some (success, 4, 1, none))
    × (create_payload_from_nalu 4 (0x65 ∷ 1 ∷ 2 ∷ 3 ∷ []) 4 (
          some (
            array_of
              (limits_behind (9 ∷ []) (1 ∷ []) 4 1)
              (9 ∷ [])
              (0 ∷ 0 ∷ 0 ∷ 0 ∷ [])
              (1 ∷ [])
              (0 ∷ [])))
        ≡ some (
          success,
          4,
          1,
          some (
              array_of
                (limits_behind (9 ∷ []) (1 ∷ []) 4 1)
                (9 ∷ 0x65 ∷ 1 ∷ 2 ∷ 3 ∷ [])
                []
                (1 ∷ 4 ∷ [])
                []),
        ))
create_payload_from_nalu-nalu_packets_example =
    create_payload_from_nalu-nalu_packets 4 0x65 4 1 (1 ∷ 2 ∷ 3 ∷ []) (9 ∷ []) (0 ∷ 0 ∷ 0 ∷ 0 ∷ [])
      (1 ∷ []) (0 ∷ []) (omega arith)
      (record {
        bytes = omega arith;
        subs = omega arith;
        total_fits = omega arith;
        count_fits = omega arith;
        length_small = omega arith;
        sub_small = omega arith;
        at_sub = refl;
      })

depay_all-nalu_packets_example :
    depay_all (nalu_packets 4 0x65 (1 ∷ 2 ∷ 3 ∷ 4 ∷ 5 ∷ []))
    ≡ some (start_code ++ (0x65 ∷ 1 ∷ 2 ∷ 3 ∷ 4 ∷ 5 ∷ []))
unfolding indicator_of
depay_all-nalu_packets_example =
    depay_all-nalu_packets 4 0x65 (1 ∷ 2 ∷ 3 ∷ 4 ∷ 5 ∷ []) (omega arith) (omega arith) (omega arith)
      refl

depay_h264_overread_example :
    (depay_h264 (29 ∷ 1 ∷ 2 ∷ []) 3 none 0
      ≡ some (record { status = success; nalu_length = 2; data_out = none; is_start = false }))
    × (1 ≤ 2 → depay_h264 (29 ∷ 1 ∷ 2 ∷ []) 3 (some (0 ∷ 0 ∷ [])) 2 ≡ none)
unfolding indicator_of
depay_h264_overread_example = depay_h264_overread 29 (1 ∷ 2 ∷ []) (0 ∷ 0 ∷ []) refl (omega arith)
