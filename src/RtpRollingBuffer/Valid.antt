-- ===== src/RtpRollingBuffer/Valid.antt =====
-- rtpRollingBufferGetValidSeqIndexList: which indices it answers for a sequence number.
use kvs_c.Base.{ℕ, ◌+◌, ◌-◌, ◌%◌, ◌^◌, ◌≤◌, ◌<◌, ◌≡◌, some, none, Option, ltb, if◌then◌else◌, arith}
use kvs_c.RtpRollingBuffer.{RtpRollingBuffer, index_of}

-- Every index of the last `size` packets, from two to all 65536 sequence numbers, is the answer for
-- its own sequence number.
pub index_of_complete :
    (b : RtpRollingBuffer) (size i : ℕ)
    → 2 ≤ size
    → size ≤ 2 ^ 16
    → b.last_index < 2 ^ 63
    → b.last_index + 1 ≤ i + size
    → i ≤ b.last_index
    → size ≤ b.last_index + 1
    → index_of b size (i % 2 ^ 16) ≡ some i
unfolding index_of
index_of_complete b size i h2 h16 hl lo hi whole = ground arith

-- The answer for a sequence number, where there is one, is the index of one of the last `size`
-- packets, from two to all 65536, and has that sequence number.
pub index_of_sound :
    (b : RtpRollingBuffer) (size seq i : ℕ)
    → 2 ≤ size
    → size ≤ 2 ^ 16
    → b.last_index < 2 ^ 63
    → size ≤ b.last_index + 1
    → seq < 2 ^ 16
    → index_of b size seq ≡ some i
    → (i % 2 ^ 16 ≡ seq) × (b.last_index + 1 ≤ i + size) × (i ≤ b.last_index)
unfolding index_of
index_of_sound b size seq i h2 h16 hl whole hs e = ground arith

-- With a single packet in the buffer a later sequence number is answered too, by an index that is
-- behind that packet's.
pub index_of_single :
    (b : RtpRollingBuffer) (seq : ℕ)
    → b.last_index < 2 ^ 63
    → seq < 2 ^ 16
    → b.last_index % 2 ^ 16 < seq
    → index_of b 1 seq ≡ some (b.last_index + (seq - b.last_index % 2 ^ 16))
unfolding index_of
index_of_single b seq hl hs later = ground arith

-- What the lookup is to answer: the index as far behind the last one as the sequence number is behind its
-- sequence number, modulo 2 ^ 16, where this is one of the last `size` packets.
abbrev pub held : (last_index size seq : ℕ) → Option ℕ
held last_index size seq =
    let back = (last_index % 2 ^ 16 + 2 ^ 16 - seq) % 2 ^ 16 in
    if ltb back size then some (last_index - back) else none

-- The lookup is right for a buffer of two packets up to 65536.
pub index_of-held :
    (b : RtpRollingBuffer) (size seq : ℕ)
    → 2 ≤ size
    → size ≤ 2 ^ 16
    → b.last_index < 2 ^ 63
    → size ≤ b.last_index + 1
    → seq < 2 ^ 16
    → index_of b size seq ≡ held b.last_index size seq
unfolding index_of
index_of-held b size seq h2 h16 hl whole hs = ground arith
