-- ===== src/Payload/Tests.antt =====
-- The payloaders of src/source/Rtp/Codecs on concrete frames.
use kvs_c.Base.{ℕ, ◌≡◌, refl, none, some, List, [], ◌∷◌, arith}
use kvs_c.Status.{success}
use kvs_c.Payload.G711.{create_payload_for_g711}
use kvs_c.Payload.G711.Passes.{create_payload_for_g711-chunks}
use kvs_c.Payload.Vp8.{create_payload_for_vp8}
use kvs_c.Payload.Vp8.Passes.{frame_packets}
use kvs_c.Payload.Vp8.Sizes.{create_payload_for_vp8-frame_packets}
use kvs_c.Payload.Vp8.RoundTrip.{depay_all, depay_all-frame_packets}

abbrev frame : List ℕ
frame = 1 ∷ 2 ∷ 3 ∷ 4 ∷ 5 ∷ []

create_payload_for_vp8-frame_packets_example :
    (create_payload_for_vp8 4 frame 5 none
      ≡ some (record {
        status = success;
        payload_length = 7;
        payload_sub_len_size = 2;
        buffers = none;
      }))
    × (create_payload_for_vp8 4 frame 5 (
          some (record {
            payload_buffer = 0 ∷ 0 ∷ 0 ∷ 0 ∷ 0 ∷ 0 ∷ 0 ∷ [];
            payload_sub_length = 0 ∷ 0 ∷ [];
          }))
        ≡ some (record {
          status = success;
          payload_length = 7;
          payload_sub_len_size = 2;
          buffers = some (record {
            payload_buffer = 16 ∷ 1 ∷ 2 ∷ 3 ∷ 0 ∷ 4 ∷ 5 ∷ [];
            payload_sub_length = 4 ∷ 3 ∷ [];
          });
        }))
create_payload_for_vp8-frame_packets_example =
    create_payload_for_vp8-frame_packets 4 frame (0 ∷ 0 ∷ 0 ∷ 0 ∷ 0 ∷ 0 ∷ 0 ∷ []) (0 ∷ 0 ∷ [])
      (omega arith) (omega arith) (omega arith) refl refl

depay_all-frame_packets_example : depay_all (frame_packets 4 frame) ≡ some frame
depay_all-frame_packets_example = depay_all-frame_packets 4 frame (omega arith) (omega arith)

create_payload_for_g711-chunks_example :
    (create_payload_for_g711 2 frame 5 none 0 0
      ≡ some (record {
        status = success;
        payload_length = 5;
        payload_sub_len_size = 3;
        buffers = none;
      }))
    × (create_payload_for_g711 2 frame 5
          (some (record {
            payload_buffer = 0 ∷ 0 ∷ 0 ∷ 0 ∷ 0 ∷ [];
            payload_sub_length = 0 ∷ 0 ∷ 0 ∷ [];
          }))
          5
          3
        ≡ some (record {
          status = success;
          payload_length = 5;
          payload_sub_len_size = 3;
          buffers = some (record {
            payload_buffer = 1 ∷ 2 ∷ 3 ∷ 4 ∷ 5 ∷ [];
            payload_sub_length = 2 ∷ 2 ∷ 1 ∷ [];
          });
        }))
create_payload_for_g711-chunks_example =
    create_payload_for_g711-chunks 2 frame (0 ∷ 0 ∷ 0 ∷ 0 ∷ 0 ∷ []) (0 ∷ 0 ∷ 0 ∷ []) (omega arith)
      (omega arith) refl refl
