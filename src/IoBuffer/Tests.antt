-- ===== src/IoBuffer/Tests.antt =====
-- The buffer of src/source/Crypto/IOBuffer.c on concrete calls.
use kvs_c.Base.{ℕ, zero, suc, ◌≤◌, ◌≡◌, refl, ap, none, some, List, [], ◌∷◌, arith, length, take}
use kvs_c.Status.{not_enough_memory}
use kvs_c.IoBuffer.{IoBuffer, Realloc, io_buffer_write, io_buffer_read}
use kvs_c.IoBuffer.Fifo.{IsValid, IsRealloc}
use kvs_c.IoBuffer.Session.{write, read, calls, IsFifo, calls-IsFifo, refused_read}

-- The first bytes of a block, with zeros behind them.
abbrev resize : ℕ → List ℕ → List ℕ
resize zero xs = []
resize (suc n) [] = 0 ∷ resize n []
resize (suc n) (x ∷ xs) = x ∷ resize n xs

-- An allocator that always grants.
abbrev granting : Realloc
granting old n = some (resize n old)

length-resize : (n : ℕ) (xs : List ℕ) → length (resize n xs) ≡ n
length-resize zero xs = refl
length-resize (suc n) [] = ap suc (length-resize n [])
length-resize (suc n) (x ∷ xs) = ap suc (length-resize n xs)

take-resize : (k n : ℕ) (xs : List ℕ) → k ≤ n → k ≤ length xs → take k (resize n xs) ≡ take k xs
take-resize zero n xs h l = refl
take-resize (suc k) zero xs h l = absurd (omega arith)
take-resize (suc k) (suc n) [] h l = absurd (omega arith)
take-resize (suc k) (suc n) (x ∷ xs) h l =
    ap (λ t. x ∷ t) (take-resize k n xs (omega arith) (omega arith))

granting-IsRealloc : IsRealloc granting
granting-IsRealloc = record {
  size = λ old new n e. ground (arith, length-resize n old);
  keeps = λ old new n k e h l. ground (arith, take-resize k n old h l);
}

-- Two bytes in use, one of them read.
abbrev half_read : IoBuffer
half_read = record { off = 1; len = 2; cap = 3; raw = some (5 ∷ 6 ∷ 0 ∷ []) }

half_read-IsValid : IsValid half_read
half_read-IsValid = ground arith

calls-IsFifo_example :
    IsFifo granting half_read
      (write (7 ∷ 8 ∷ []) ∷ read 2 ∷ write (9 ∷ []) ∷ [])
      (calls granting half_read (write (7 ∷ 8 ∷ []) ∷ read 2 ∷ write (9 ∷ []) ∷ []))
calls-IsFifo_example =
    calls-IsFifo granting half_read (write (7 ∷ 8 ∷ []) ∷ read 2 ∷ write (9 ∷ []) ∷ [])
      granting-IsRealloc half_read-IsValid (omega arith)

refused_read_example :
    (io_buffer_write (λ old n. none) half_read (7 ∷ 8 ∷ [])
      ≡ some (not_enough_memory, record half_read { raw = none }))
    × (io_buffer_read (record half_read { raw = none }) 1 ≡ none)
refused_read_example =
    refused_read (λ old n. none) half_read (7 ∷ 8 ∷ []) 1 half_read-IsValid (omega arith)
      (omega arith) (omega arith) refl (omega arith)
