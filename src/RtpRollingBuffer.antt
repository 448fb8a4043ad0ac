-- ===== src/RtpRollingBuffer.antt =====
-- src/source/Rtcp/RtpRollingBuffer.c: the last packets that were sent, by their sequence numbers.
-- A slot of the rolling buffer holds the address of a packet. NULL arguments are not values of the
-- model; `none` is a write behind the end of the list of indices.
pub mod Valid
pub mod Listing
mod Tests
use kvs_c.Base.{
  ℕ, zero, suc, ◌+◌, ◌-◌, ◌%◌, ◌^◌, Bool, true, false, not, ◌&&◌, ◌||◌, Option, none, some, List,
  [], ◌∷◌, ltb, leb, ◌==◌, if◌then◌else◌,
}
use kvs_c.Base.Bytes.{◌>>=◌, store}
use kvs_c.Status.{Status, success, invalid_arg, not_enough_memory, succeeded}
use kvs_c.RollingBuffer.{RollingBuffer, FreeDataFunc, create_rolling_buffer, append_data, get_size}
use kvs_c.Rtp.{get_uint16_seq_num}

-- `RtpRollingBuffer`
pub record RtpRollingBuffer : Type 0 where
  pub rolling_buffer : RollingBuffer
  pub last_index : ℕ

-- createRtpRollingBuffer; `struct` and `inner` say whether the two allocations succeed, and `before`
-- is what stands in the memory of `lastIndex`, which the code does not set.
pub create_rtp_rolling_buffer :
    (struct inner : Bool) (free_packet : FreeDataFunc) (before : ℕ)
    → (capacity : ℕ) → Status × Option RtpRollingBuffer
create_rtp_rolling_buffer struct inner free_packet before capacity =
    if capacity == 0
    then (invalid_arg, none)
    else if struct
    then (let created = create_rolling_buffer inner capacity (some free_packet) in
        (
          created.0,
          elim created.1 [
            | none ↦ none
            | some r ↦ some (record { rolling_buffer = r; last_index = before })
          ],
        ))
    else (not_enough_memory, none)

-- The append of rtpRollingBufferAddRtpPacket, once the packet is copied to `address`.
pub add_copy : RtpRollingBuffer → (address : ℕ) → Status × RtpRollingBuffer
add_copy b address =
    let (status, index, r) = append_data b.rolling_buffer address in
    if succeeded status
    then (success, record { rolling_buffer = r; last_index = index })
    else (status, record b { rolling_buffer = r })

-- The first and the last sequence number in the buffer, and the index of the first.
abbrev pub first_index : RtpRollingBuffer → ℕ → ℕ
first_index b size = (b.last_index + 2 ^ 64 - size + 1) % 2 ^ 64

abbrev pub start_seq : RtpRollingBuffer → ℕ → ℕ
start_seq b size = get_uint16_seq_num (first_index b size)

abbrev pub end_seq : RtpRollingBuffer → ℕ
end_seq b = get_uint16_seq_num b.last_index

-- The index of a sequence number, when it is in the buffer.
pub index_of : RtpRollingBuffer → (size seq : ℕ) → Option ℕ
index_of b size seq =
    if (not cross && (leb start seq && leb seq end)) || (cross && leb start seq)
    then some ((first_index b size + seq + 2 ^ 64 - start) % 2 ^ 64)
    else if cross && leb seq end
    then some ((b.last_index + 2 ^ 64 - end + seq) % 2 ^ 64)
    else none
  where
    start : ℕ
    start = start_seq b size

    end : ℕ
    end = end_seq b

    cross : Bool
    cross = leb end start

-- The loop over the sequence numbers; `count` is `returnPacketCount` and the place of the next index.
-- It stops when the list is full, and puts a 0 behind each index otherwise.
pub valid_loop :
    RtpRollingBuffer → (size room : ℕ) → List ℕ → (count : ℕ) → List ℕ → Option (ℕ × List ℕ)
unfolding index_of
valid_loop b size room [] count out = some (count, out)
valid_loop b size room (seq ∷ seqs) count out = elim (index_of b size seq) [
  | none ↦ valid_loop b size room seqs count out
  | some index ↦ do
    stored ← store out count index
    (if ltb (count + 1) room
        then store stored (count + 1) 0 >>= valid_loop b size room seqs (count + 1)
        else some (count + 1, stored))
]

-- rtpRollingBufferGetValidSeqIndexList; `room` is `*pValidIndexListLen` before, the count after.
pub get_valid_seq_index_list : RtpRollingBuffer → List ℕ → (room : ℕ) → List ℕ → Option (ℕ × List ℕ)
get_valid_seq_index_list b seqs room out =
    let size = get_size b.rolling_buffer in
    elim size [ zero ↦ some (0, out) | suc n ↦ valid_loop b (suc n) room seqs 0 out ]
