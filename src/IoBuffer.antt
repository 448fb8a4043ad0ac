-- ===== src/IoBuffer.antt =====
-- src/source/Crypto/IOBuffer.c: a growing buffer between a TLS session and its socket.
-- `none` is an access outside the allocated memory. NULL arguments, for which the code only returns
-- STATUS_NULL_ARG, are not values of the model.
pub mod Fifo
pub mod Session
mod Tests
use kvs_c.Base.{
  ℕ, ◌+◌, ◌-◌, ◌%◌, ◌^◌, Bool, true, false, Option, none, some, List, [], ◌∷◌, ◌++◌, length, take,
  drop, ltb, leb, ◌==◌, if◌then◌else◌, replicate,
}
use kvs_c.Base.Bytes.{◌>>=◌, read_block, write_at}
use kvs_c.Status.{Status, success, not_enough_memory}

-- `IOBuffer`; `raw` is NULL or the allocated bytes.
pub record IoBuffer : Type 0 where
  pub off : ℕ
  pub len : ℕ
  pub cap : ℕ
  pub raw : Option (List ℕ)

-- The bytes that a pointer may be used for.
abbrev pub memory : Option (List ℕ) → List ℕ
memory none = []
memory (some bytes) = bytes

-- MEMREALLOC: the bytes of the new block, or NULL.
abbrev pub Realloc : Type 0
Realloc = List ℕ → ℕ → Option (List ℕ)

-- createIOBuffer; `struct` and `block` are what the two allocations give.
pub create_io_buffer : (struct : Bool) (block : Option (List ℕ)) → ℕ → Status × Option IoBuffer
create_io_buffer struct block initial_cap =
    if struct
    then (if initial_cap == 0
        then (success, some (record { off = 0; len = 0; cap = 0; raw = none }))
        else elim block [
          | none ↦ (not_enough_memory, none)
          | some bytes ↦
              (success, some (record { off = 0; len = 0; cap = initial_cap; raw = some bytes }))
        ])
    else (not_enough_memory, none)

-- ioBufferReset
pub io_buffer_reset : IoBuffer → IoBuffer
io_buffer_reset b = record b { len = 0; off = 0 }

-- The end of ioBufferWrite: the copy, and the new length.
pub append_bytes : IoBuffer → List ℕ → Option (Status × IoBuffer)
append_bytes b piece = do
  bytes ← write_at (memory b.raw) b.len piece
  some (
    success,
    record b {
      raw = elim b.raw [ none ↦ none | some old ↦ some bytes ];
      len = (b.len + length piece) % 2 ^ 32;
    },
  )

-- ioBufferWrite
pub io_buffer_write : Realloc → IoBuffer → List ℕ → Option (Status × IoBuffer)
io_buffer_write realloc b piece =
    let new_cap = (b.len + length piece) % 2 ^ 32 in
    if ltb ((b.cap + 2 ^ 32 - b.len) % 2 ^ 32) (length piece)
    then elim (realloc (memory b.raw) new_cap) [
      | none ↦ some (not_enough_memory, record b { raw = none })
      | some bytes ↦ append_bytes (record b { raw = some bytes; cap = new_cap }) piece
    ]
    else append_bytes b piece

-- MIN
abbrev pub min_of : ℕ → ℕ → ℕ
min_of a b = if ltb a b then a else b

-- ioBufferRead; with the bytes that are copied out, whose number is `*pDataLen`.
pub io_buffer_read : IoBuffer → ℕ → Option (Status × List ℕ × IoBuffer)
io_buffer_read b buffer_len =
    let data_len = min_of buffer_len ((b.len + 2 ^ 32 - b.off) % 2 ^ 32) in
    read_block data_len (drop b.off (memory b.raw)) >>= λ piece.
    let b' : IoBuffer = record b { off = (b.off + data_len) % 2 ^ 32 } in
    some (success, piece, (if b'.off == b'.len then io_buffer_reset b' else b'))
