-- ===== src/RtpRollingBuffer/Tests.antt =====
-- The lookup of src/source/Rtcp/RtpRollingBuffer.c over the end of the sequence numbers.
use kvs_c.Base.{ℕ, List, ◌∷◌, take, ◌+◌, ◌%◌, ◌^◌, ◌≤◌, ◌≡◌, refl, none, some, [], arith}
use kvs_c.RtpRollingBuffer.{RtpRollingBuffer, index_of, get_valid_seq_index_list}
use kvs_c.RollingBuffer.{get_size}
use kvs_c.RtpRollingBuffer.Listing.{get_valid_seq_index_list-held}
use kvs_c.RtpRollingBuffer.Valid.{index_of_sound}

-- The last packet has the index 65537, and so the sequence number 1.
abbrev wrapped : RtpRollingBuffer
wrapped = record {
  rolling_buffer = record {
    capacity = 4;
    head_index = 65538;
    tail_index = 65534;
    data_buffer = [];
    free_data_fn = none;
    freed = [];
  };
  last_index = 65537;
}

at_zero : index_of wrapped 4 0 ≡ some 65536
unfolding index_of
at_zero = refl

index_of_sound_example : (65536 % 2 ^ 16 ≡ 0) × (65538 ≤ 65536 + 4) × (65536 ≤ 65537)
index_of_sound_example =
    index_of_sound wrapped 4 0 65536 (omega arith) (omega arith) (omega arith) (omega arith)
      (omega arith) at_zero

-- Three numbers are asked for, of which one is not in the buffer, with room for two.
get_valid_seq_index_list-held_example :
    (count : ℕ) × (out' : List ℕ) × (get_valid_seq_index_list wrapped
        (65535 ∷ 7 ∷ 1 ∷ [])
        2
        (9 ∷ 9 ∷ [])
      ≡ some (count, out'))
    × (count ≡ 2)
    × (take count out' ≡ 65535 ∷ 65537 ∷ [])
unfolding get_size
get_valid_seq_index_list-held_example =
    get_valid_seq_index_list-held wrapped 2 (65535 ∷ 7 ∷ 1 ∷ []) (9 ∷ 9 ∷ []) (omega arith)
      (omega arith) (omega arith) (omega arith) (omega arith, (omega arith, (omega arith, tt)))
      (omega arith) (omega arith)
