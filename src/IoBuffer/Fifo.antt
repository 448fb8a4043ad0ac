-- ===== src/IoBuffer/Fifo.antt =====
-- A valid buffer is a queue of bytes: what is read is what was written, in order.
use kvs_c.Base.{
  Option-cases, inl, inr, length-eq_zero, take_all, drop_all, ℕ, zero, suc, ◌+◌, ◌-◌, ◌^◌, ◌≤◌, ◌<◌,
  ◌≡◌, ◌⊎◌, refl, sym, ap, ◌∙◌, none, some, List, [], ◌∷◌, ◌++◌, arith, length, length-append, take,
  drop, append_assoc, length-take, length-drop, take-append_length,
}
use native.Mathlib.Decide.{dec_le, dec_lt}
use kvs_c.Base.Bytes.{drop-drop_sum, read_block, write_at, read_block-take}
use kvs_c.Status.{success, not_enough_memory}
use kvs_c.IoBuffer.{
  IoBuffer, Realloc, memory, io_buffer_reset, append_bytes, io_buffer_write, io_buffer_read,
}

-- The offsets are in order, and the block is as long as stated.
pub record IsValid (b : IoBuffer) : Type 0 where
  pub off_len : b.off ≤ b.len
  pub len_cap : b.len ≤ b.cap
  pub block : length (memory b.raw) ≡ b.cap
  pub fits : b.cap < 2 ^ 32

-- The bytes that are written and not read yet.
abbrev pub pending : IoBuffer → List ℕ
pending b = take (b.len - b.off) (drop b.off (memory b.raw))

-- realloc refuses, or it keeps the bytes that fit both blocks, and the new block is as long as asked for.
pub record IsRealloc (realloc : Realloc) : Type 0 where
  pub size : (old new : List ℕ) (n : ℕ) → realloc old n ≡ some new → length new ≡ n
  pub keeps :
      (old new : List ℕ) (n k : ℕ)
      → realloc old n ≡ some new
      → k ≤ n
      → k ≤ length old
      → take k new ≡ take k old

take-drop_swap : (i k t : ℕ) (xs : List ℕ) → t ≡ i + k → take k (drop i xs) ≡ drop i (take t xs)
take-drop_swap zero k t xs h = ap (λ n. take n xs) (omega arith)
take-drop_swap (suc i) k zero xs h = absurd (omega arith)
take-drop_swap (suc i) zero (suc t) [] h = refl
take-drop_swap (suc i) (suc k) (suc t) [] h = refl
take-drop_swap (suc i) k (suc t) (x ∷ xs) h = take-drop_swap i k t xs (omega arith)

take-take_front : (n m : ℕ) (xs : List ℕ) → n ≤ m → take n (take m xs) ≡ take n xs
take-take_front zero m xs h = refl
take-take_front (suc n) zero xs h = absurd (omega arith)
take-take_front (suc n) (suc m) [] h = refl
take-take_front (suc n) (suc m) (x ∷ xs) h = ap (λ l. x ∷ l) (take-take_front n m xs (omega arith))

drop-append_front : (i : ℕ) (xs ys : List ℕ) → i ≤ length xs → drop i (xs ++ ys) ≡ drop i xs ++ ys
drop-append_front zero xs ys h = refl
drop-append_front (suc i) [] ys h = absurd (omega arith)
drop-append_front (suc i) (x ∷ xs) ys h = drop-append_front i xs ys (omega arith)

-- The pending bytes are the used bytes from the offset on.
pending-used : (b : IoBuffer) → b.off ≤ b.len → pending b ≡ drop b.off (take b.len (memory b.raw))
pending-used b h = take-drop_swap b.off (b.len - b.off) b.len (memory b.raw) (omega arith)

-- The block after the copy of a piece behind the bytes in use.
abbrev written : IoBuffer → List ℕ → List ℕ
written b piece = take b.len (memory b.raw) ++ (piece ++ drop (b.len + length piece) (memory b.raw))

-- The buffer after a piece was copied behind the bytes in use.
abbrev appended : IoBuffer → List ℕ → IoBuffer
appended b piece = record b {
  raw = elim b.raw [ none ↦ none | some old ↦ some (written b piece) ];
  len = b.len + length piece;
}

append_bytes_room :
    (b : IoBuffer) (piece : List ℕ)
    → IsValid b
    → b.len + length piece ≤ b.cap
    → append_bytes b piece ≡ some (success, appended b piece)
unfolding append_bytes write_at
append_bytes_room b piece h room = ground arith

length-written :
    (b : IoBuffer) (piece : List ℕ)
    → IsValid b
    → b.len + length piece ≤ b.cap
    → length (written b piece) ≡ b.cap
length-written b piece h room = ground (
  arith,
  length-append (take b.len (memory b.raw)) (piece ++ drop (b.len + length piece) (memory b.raw)),
  length-append piece (drop (b.len + length piece) (memory b.raw)),
  length-take b.len (memory b.raw),
  length-drop (b.len + length piece) (memory b.raw),
)

memory-appended :
    (b : IoBuffer) (piece : List ℕ)
    → IsValid b
    → b.len + length piece ≤ b.cap
    → memory (appended b piece).raw ≡ written b piece
memory-appended b piece h room = elim (Option-cases b.raw) [
  | inl e ↦ rw e (
      rw e at (
        sym (
          length-eq_zero (written b piece)
            (omega (arith, length-written b piece h room, no_block e)))))
  | inr (bytes, e) ↦ ap (λ r. memory (elim r [ none ↦ none | some old ↦ some (written b piece) ])) e
]
  where
    no_block : b.raw ≡ none → b.cap ≡ 0
    no_block e = sym h.block ∙ ap (λ m. length (memory m)) e

appended-IsValid :
    (b : IoBuffer) (piece : List ℕ)
    → IsValid b
    → b.len + length piece ≤ b.cap
    → IsValid (appended b piece)
appended-IsValid b piece h room =
    ground (arith, memory-appended b piece h room, length-written b piece h room)

pending-appended :
    (b : IoBuffer) (piece : List ℕ)
    → IsValid b
    → b.len + length piece ≤ b.cap
    → pending (appended b piece) ≡ pending b ++ piece
pending-appended b piece h room =
    pending-used (appended b piece) (omega (arith, h.off_len))
    ∙ ap (λ m. drop b.off (take (b.len + length piece) m))
        (memory-appended b piece h room ∙ sym (append_assoc used piece rest))
    ∙ ap (drop b.off) (
        ap (λ n. take n ((used ++ piece) ++ rest)) (omega (arith, length-append used piece, in_use))
        ∙ take-append_length (used ++ piece) rest)
    ∙ drop-append_front b.off used piece (omega (arith, in_use))
    ∙ ap (λ l. l ++ piece) (sym (pending-used b h.off_len))
  where
    used : List ℕ
    used = take b.len (memory b.raw)

    rest : List ℕ
    rest = drop (b.len + length piece) (memory b.raw)

    in_use : length used ≡ b.len
    in_use = omega (arith, length-take b.len (memory b.raw))

-- Reading gives the oldest pending bytes, as many as are asked for and there, and leaves the others.
pub io_buffer_read-pending :
    (b : IoBuffer) (n : ℕ)
    → IsValid b
    → (b' : IoBuffer) × (io_buffer_read b n ≡ some (success, take n (pending b), b'))
      × IsValid b'
      × (b'.len ≤ b.len)
      × (pending b' ≡ drop n (pending b))
unfolding io_buffer_read io_buffer_reset
io_buffer_read-pending b n h = elim (dec_lt n (b.len - b.off)) [
  | yes less ↦ (
    record b { off = b.off + n },
    ground (arith, copied n (omega arith), take-take_front n (b.len - b.off) unread (omega arith)),
    ground arith,
    omega arith,
    later (omega arith),
  )
  | no all ↦ (
    record b { off = 0; len = 0 },
    ground (arith, copied (b.len - b.off) (omega arith), take_all n (pending b) (few all)),
    ground arith,
    omega arith,
    sym (drop_all n (pending b) (few all)),
  )
]
  where
    unread : List ℕ
    unread = drop b.off (memory b.raw)

    few : ¬ (n < b.len - b.off) → length (pending b) ≤ n
    few all = omega (arith, length-take (b.len - b.off) unread)

    copied : (k : ℕ) → k ≤ b.len - b.off → read_block k unread ≡ some (take k unread)
    copied k hk =
        read_block-take k unread
          (omega (arith, h.block, h.len_cap, length-drop b.off (memory b.raw)))

    later : n ≤ b.len - b.off → pending (record b { off = b.off + n }) ≡ drop n (pending b)
    later hn =
        ap (take (b.len - (b.off + n)))
          (sym (drop-drop_sum b.off n (b.off + n) (memory b.raw) refl))
        ∙ take-drop_swap n (b.len - (b.off + n)) (b.len - b.off) unread (omega arith)

-- The buffer with a block of the size that a piece needs.
abbrev enlarged : IoBuffer → List ℕ → ℕ → IoBuffer
enlarged b bytes cap = record b { raw = some bytes; cap = cap }

-- The outcome of a write that succeeds.
abbrev Written : Realloc → IoBuffer → List ℕ → Type 0
Written realloc b piece =
    (b' : IoBuffer) × (io_buffer_write realloc b piece ≡ some (success, b'))
    × IsValid b'
    × (b'.len ≡ b.len + length piece)
    × (pending b' ≡ pending b ++ piece)

-- Writing puts the piece behind the pending bytes, in a longer block where the old one is too short,
-- as long as the bytes in use stay below 2 ^ 32; or realloc refuses the longer block.
pub io_buffer_write-pending :
    (realloc : Realloc) (b : IoBuffer) (piece : List ℕ)
    → IsRealloc realloc
    → IsValid b
    → b.len + length piece < 2 ^ 32
    → Written realloc b piece
      ⊎ ((b' : IoBuffer) × (io_buffer_write realloc b piece ≡ some (not_enough_memory, b'))
          × (realloc (memory b.raw) (b.len + length piece) ≡ none))
unfolding io_buffer_write
io_buffer_write-pending realloc b piece hr h small = elim (dec_le (b.len + length piece) b.cap) [
  | yes room ↦ inl (
    appended b piece,
    ground (arith, append_bytes_room b piece h room),
    appended-IsValid b piece h room,
    refl,
    pending-appended b piece h room,
  )
  | no full ↦ elim (Option-cases (realloc (memory b.raw) (b.len + length piece))) [
    | inl e ↦ inr (record b { raw = none }, ground arith, e)
    | inr (new, e) ↦ inl (grown (new, e) (omega arith))
  ]
]
  where
    grown :
        (new : List ℕ) × (realloc (memory b.raw) (b.len + length piece) ≡ some new)
        → b.cap < b.len + length piece
        → Written realloc b piece
    grown (new, e) full =
        let long = hr.size (memory b.raw) new (b.len + length piece) e in
        let kept =
          hr.keeps (memory b.raw) new (b.len + length piece) b.len e (omega arith)
            (omega (arith, h.block, h.len_cap)) in
        let wide : IoBuffer = enlarged b new (b.len + length piece) in
        let valid : IsValid wide = ground arith in
        (
          appended wide piece,
          ground (arith, append_bytes_room wide piece valid (omega arith)),
          appended-IsValid wide piece valid (omega arith),
          refl,
          pending-appended wide piece valid (omega arith)
              ∙ ap (λ l. l ++ piece)
                  (pending-used wide h.off_len
                    ∙ ap (drop b.off) kept
                    ∙ sym (pending-used b h.off_len)),
        )
