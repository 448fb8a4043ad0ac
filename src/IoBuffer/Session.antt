-- ===== src/IoBuffer/Session.antt =====
-- Any sequence of writes and reads of an IOBuffer, as a TLS session makes them.
use kvs_c.Base.{
  ℕ, zero, suc, ◌-◌, ◌%◌, ◌+◌, ◌^◌, ◌<◌, ◌≡◌, ◌⊎◌, inl, inr, if◌then◌else◌, refl, sym, ap, ◌∙◌,
  Option, none, some, List, [], ◌∷◌, ◌++◌, arith, length, length-append, take, drop, append_assoc,
  append-nil, drop_all, take-append-drop,
}
use kvs_c.Base.Bytes.{◌>>=◌, read_block}
use kvs_c.Status.{Status, success, not_enough_memory, succeeded}
use kvs_c.IoBuffer.{IoBuffer, Realloc, memory, min_of, io_buffer_write, io_buffer_read}
use kvs_c.IoBuffer.Fifo.{
  IsValid, IsRealloc, pending, io_buffer_read-pending, io_buffer_write-pending,
}

-- A call of the session.
pub data Call : Type 0 where
  write : List ℕ → Call
  read : ℕ → Call

-- One call: its status, the bytes that it hands out, and the buffer.
pub call : Realloc → IoBuffer → Call → Option (Status × List ℕ × IoBuffer)
call realloc b (write piece) = do
  (status, b') ← io_buffer_write realloc b piece
  some (status, [], b')
call realloc b (read n) = io_buffer_read b n

-- The calls one after the other, up to the first that fails: the last status, everything that was
-- handed out, and the buffer.
pub calls : Realloc → IoBuffer → List Call → Option (Status × List ℕ × IoBuffer)
calls realloc b [] = some (success, [], b)
calls realloc b (c ∷ cs) = do
  (status, out, b') ← call realloc b c
  (if succeeded status
      then (do (last, outs, b'') ← calls realloc b' cs; some (last, out ++ outs, b''))
      else some (status, out, b'))

-- Everything that the calls write.
abbrev pub all_written : List Call → List ℕ
all_written [] = []
all_written (write piece ∷ cs) = piece ++ all_written cs
all_written (read n ∷ cs) = all_written cs

-- realloc refuses a block.
abbrev Refuses : Realloc → Type 0
Refuses realloc = (old : List ℕ) × (n : ℕ) × (realloc old n ≡ none)

-- What a run leaves: everything read, followed by what is still pending, is everything that was pending
-- and written; or a write fails as realloc refuses a block, and what was read is the front
-- of that.
abbrev pub IsFifo : Realloc → IoBuffer → List Call → Option (Status × List ℕ × IoBuffer) → Type 0
IsFifo realloc b cs run =
    (status : Status) × (out : List ℕ) × (b' : IoBuffer) × (run ≡ some (status, out, b'))
    × (((status ≡ success) × IsValid b' × (out ++ pending b' ≡ pending b ++ all_written cs))
        ⊎ ((status ≡ not_enough_memory)
            × Refuses realloc
            × ((rest : List ℕ) × (out ++ rest ≡ pending b ++ all_written cs))))

calls-written :
    (realloc : Realloc) (b b' : IoBuffer) (piece : List ℕ) (cs : List Call)
    → io_buffer_write realloc b piece ≡ some (success, b')
    → pending b' ≡ pending b ++ piece
    → IsFifo realloc b' cs (calls realloc b' cs)
    → IsFifo realloc b (write piece ∷ cs) (calls realloc b (write piece ∷ cs))
unfolding calls call
calls-written realloc b b' piece cs e q (status, out, b'', run, ended) =
    let joined =
      ap (λ p. p ++ all_written cs) q ∙ append_assoc (pending b) piece (all_written cs) in
    (
      status,
      out,
      b'',
      rw (e, run) refl,
      elim ended [
        | inl (fine, v, all) ↦ inl (fine, v, all ∙ joined)
        | inr (failed, refused, (rest, front)) ↦ inr (failed, refused, (rest, front ∙ joined))
      ],
    )

calls-read :
    (realloc : Realloc) (b b' : IoBuffer) (n : ℕ) (cs : List Call)
    → io_buffer_read b n ≡ some (success, take n (pending b), b')
    → pending b' ≡ drop n (pending b)
    → IsFifo realloc b' cs (calls realloc b' cs)
    → IsFifo realloc b (read n ∷ cs) (calls realloc b (read n ∷ cs))
unfolding calls call
calls-read realloc b b' n cs e q (status, out, b'', run, ended) = (
  status,
  take n (pending b) ++ out,
  b'',
  rw (e, run) refl,
  elim ended [
    | inl (fine, v, all) ↦ inl (fine, v, joined (pending b'') all)
    | inr (failed, refused, (rest, front)) ↦ inr (failed, refused, (rest, joined rest front))
  ],
)
  where
    joined :
        (rest : List ℕ)
        → out ++ rest ≡ pending b' ++ all_written cs
        → (take n (pending b) ++ out) ++ rest ≡ pending b ++ all_written cs
    joined rest h =
        append_assoc (take n (pending b)) out rest
        ∙ ap (λ p. take n (pending b) ++ p) (h ∙ ap (λ p. p ++ all_written cs) q)
        ∙ sym (append_assoc (take n (pending b)) (drop n (pending b)) (all_written cs))
        ∙ ap (λ p. p ++ all_written cs) (take-append-drop n (pending b))

-- A session of writes and reads, which ends with the first write that realloc refuses: no access leaves the
-- memory, and everything read, followed by what is still pending, is everything that was pending and
-- written, in order; where a write is refused, what was read is the front of that. The length of the
-- buffer and all that is written stay together below 2 ^ 32.
pub calls-IsFifo :
    (realloc : Realloc) (b : IoBuffer) (cs : List Call)
    → IsRealloc realloc
    → IsValid b
    → b.len + length (all_written cs) < 2 ^ 32
    → IsFifo realloc b cs (calls realloc b cs)
unfolding calls call
calls-IsFifo realloc b [] hr h small =
    (success, [], b, refl, inl (refl, h, sym (append-nil (pending b))))
calls-IsFifo realloc b (write piece ∷ cs) hr h small =
    let room = length-append piece (all_written cs) in
    elim (io_buffer_write-pending realloc b piece hr h (omega arith)) [
      | inl (b', e, v, l, q) ↦
          calls-written realloc b b' piece cs e q (calls-IsFifo realloc b' cs hr v (omega arith))
      | inr (b', e, refused) ↦ (
        not_enough_memory,
        [],
        b',
        rw e refl,
        inr (
          refl,
          (memory b.raw, b.len + length piece, refused),
          (pending b ++ (piece ++ all_written cs), refl),
        ),
      )
    ]
calls-IsFifo realloc b (read n ∷ cs) hr h small =
    let (b', e, v, l, q) = io_buffer_read-pending b n h in
    calls-read realloc b b' n cs e q (calls-IsFifo realloc b' cs hr v (omega arith))

read_block_empty : (k : ℕ) → 0 < k → read_block {A = ℕ} k [] ≡ none
unfolding read_block
read_block_empty zero h = absurd (omega arith)
read_block_empty (suc k) h = refl

-- When the allocator refuses, the block is lost: `raw` is NULL while the lengths stay, and the next
-- read of pending bytes goes through NULL.
pub refused_read :
    (realloc : Realloc) (b : IoBuffer) (piece : List ℕ) (n : ℕ)
    → IsValid b
    → b.off < b.len
    → b.len + length piece < 2 ^ 32
    → b.cap < b.len + length piece
    → realloc (memory b.raw) (b.len + length piece) ≡ none
    → 0 < n
    → (io_buffer_write realloc b piece ≡ some (not_enough_memory, record b { raw = none }))
      × (io_buffer_read (record b { raw = none }) n ≡ none)
unfolding io_buffer_write io_buffer_read
refused_read realloc b piece n h there small full refused hn = (
  ground arith,
  rw (drop_all {A = ℕ} b.off [] (omega arith)) (rw (read_block_empty copied positive)),
)
  where
    copied : ℕ
    copied = min_of n ((b.len + 2 ^ 32 - b.off) % 2 ^ 32)

    positive : 0 < copied
    positive = ground (arith, h)
