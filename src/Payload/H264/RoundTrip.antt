-- ===== src/Payload/H264/RoundTrip.antt =====
-- The packets of a NAL unit through depayH264FromRtpPayload.
use kvs_c.Base.{
  ℕ, zero, suc, ◌+◌, ◌-◌, ◌^◌, ◌%◌, ◌≤◌, ◌<◌, ◌≡◌, refl, ap, ◌∙◌, Bool, true, false, Option, none,
  some, List, [], ◌∷◌, ◌++◌, arith, length, length-take, length-drop, length-replicate, replicate,
  drop, drop_all, take, ltb, leb, append-nil, bit_and, bit_or, Bool-cases, inl, inr,
}
use kvs_c.Base.Bits.{fu_indicator, fu_starts, fu_ends, fu_middle, fu_rebuilt}
use kvs_c.Base.Bytes.{◌>>=◌, read_block_whole, read_block_short, write_at, write_at-append}
use kvs_c.Status.{success}
use kvs_c.Payload.Chunks.{chunk_loop, chunks, concat, concat-chunk_loop}
use kvs_c.Payload.H264.Fragments.{is_last, fu_packet, fu_packets, nalu_packets}
use kvs_c.Payload.H264.Depay.{
  fu_a, fu_b, single, indicator_of, start_code, measure, copy_out, depay_h264,
}

-- The data of one packet: the caller asks for its size, and then for the data in memory of that size.
pub depay_one : List ℕ → Option (List ℕ)
depay_one packet = do
  asked ← depay_h264 packet (length packet) none 0
  given ← depay_h264 packet (length packet) (some (replicate asked.nalu_length 0)) asked.nalu_length
  given.data_out

-- The data of the packets, one after the other.
pub depay_all : List (List ℕ) → Option (List ℕ)
depay_all [] = some []
depay_all (p ∷ ps) = do bytes ← depay_one p; rest ← depay_all ps; some (bytes ++ rest)

-- Bytes that go where the zeros of fresh memory are, behind others.
pub fresh :
    (done piece : List ℕ) (k n : ℕ)
    → n ≡ length done
    → k ≡ length piece
    → write_at (done ++ replicate k 0) n piece ≡ some (done ++ piece)
fresh done piece k n hn hk =
    let size = length-replicate {A = ℕ} k 0 in
    write_at-append done (replicate k 0) piece n hn (omega (arith, size))
    ∙ rw
        (
          drop_all {A = ℕ} (length piece) (replicate k 0) (omega (arith, size)),
          append-nil (done ++ piece),
        )
        refl

fu_packet-indicator : (b : ℕ) → b < 256 → indicator_of (bit_or 28 (bit_and b 0x60)) ≡ fu_a
unfolding indicator_of
fu_packet-indicator b hb = rw (fu_indicator b hb) refl

measure_start :
    (b n : ℕ) (last : Bool) (c : List ℕ)
    → b < 256
    → n ≡ length c + 5
    → n < 2 ^ 32
    → measure fu_a (fu_packet b true last c) (suc (suc (length c))) ≡ some (n, true)
unfolding measure
measure_start b n last c hb hn small = rw (fu_starts b hb) (ground arith)

copy_start :
    (b : ℕ) (last : Bool) (c : List ℕ)
    → b < 128
    → let n = suc (suc (suc (suc (suc (length c))))) in
      n < 2 ^ 32
      → copy_out fu_a (fu_packet b true last c) (suc (suc (length c))) n true (replicate n 0)
        ≡ some (n, start_code ++ (b ∷ c))
unfolding copy_out
copy_start b last c hb small =
    let n : ℕ = suc (suc (suc (suc (suc (length c))))) in
    let coded : write_at (replicate n 0) 0 start_code
        ≡ some (start_code ++ (0 ∷ replicate (length c) 0)) =
      write_at-append [] (replicate n 0) start_code 0 refl
        (omega (arith, length-replicate {A = ℕ} (length c) 0)) in
    let size : (((n + 2 ^ 32 - 4) % 2 ^ 32) + 2 ^ 32 - 1) % 2 ^ 32 ≡ length c = omega arith in
    let filled : write_at (start_code ++ (0 ∷ replicate (length c) 0)) 5 c
        ≡ some (start_code ++ (0 ∷ c)) =
      fresh (start_code ++ (0 ∷ [])) c (length c) 5 refl refl in
    let headed : write_at (start_code ++ (0 ∷ c)) 4 (b ∷ []) ≡ some (start_code ++ (b ∷ c)) =
      write_at-append start_code (0 ∷ c) (b ∷ []) 4 refl (omega arith) in
    rw (coded, size, read_block_whole c (length c) refl, filled, fu_rebuilt b hb, headed) refl

-- A packet that starts a unit gives the start code, the header, and its piece.
depay_one-start :
    (b : ℕ) (last : Bool) (c : List ℕ)
    → b < 128
    → length c + 7 < 2 ^ 32
    → depay_one (fu_packet b true last c) ≡ some (start_code ++ (b ∷ c))
unfolding depay_one depay_h264
depay_one-start b last c hb hc =
    let n : ℕ = suc (suc (suc (suc (suc (length c))))) in
    let enough : leb n n ≡ true = ground arith in
    let some_bytes : ltb 0 (suc (suc (length c))) ≡ true = ground arith in
    rw
      (
        some_bytes,
        fu_packet-indicator b (omega arith),
        measure_start b n last c (omega arith) (omega arith) (omega arith),
      )
      (rw (enough, copy_start b last c hb (omega arith)) refl)

measure_more :
    (b : ℕ) (last : Bool) (c : List ℕ)
    → b < 256
    → length c + 2 < 2 ^ 32
    → measure fu_a (fu_packet b false last c) (suc (suc (length c))) ≡ some (length c, false)
unfolding measure
measure_more b true c hb small = rw (fu_ends b hb) (ground arith)
measure_more b false c hb small = rw (fu_middle b hb) (ground arith)

-- Another packet gives its piece.
depay_one-more :
    (b : ℕ) (last : Bool) (c : List ℕ)
    → b < 256
    → length c + 7 < 2 ^ 32
    → depay_one (fu_packet b false last c) ≡ some c
unfolding depay_one depay_h264 copy_out
depay_one-more b last c hb hc =
    let enough : leb (length c) (length c) ≡ true = ground arith in
    let some_bytes : ltb 0 (suc (suc (length c))) ≡ true = ground arith in
    rw (some_bytes, fu_packet-indicator b hb, measure_more b last c hb (omega arith))
      (rw (enough, read_block_whole c (length c) refl, fresh [] c (length c) 0 refl refl) refl)

-- A packet that is a unit gives the start code and the unit.
depay_one-single :
    (b : ℕ) (rest : List ℕ)
    → indicator_of b ≡ single
    → length rest + 7 < 2 ^ 32
    → depay_one (b ∷ rest) ≡ some (start_code ++ (b ∷ rest))
unfolding depay_one depay_h264 copy_out measure
depay_one-single b rest kind small =
    let n : ℕ = suc (suc (suc (suc (suc (length rest))))) in
    let size : (suc (length rest) + 4) % 2 ^ 32 ≡ n = omega arith in
    let back : (n + 2 ^ 32 - 4) % 2 ^ 32 ≡ suc (length rest) = omega arith in
    let enough : leb n n ≡ true = ground arith in
    let some_bytes : ltb 0 (suc (length rest)) ≡ true = ground arith in
    let coded : write_at (replicate n 0) 0 start_code
        ≡ some (start_code ++ (0 ∷ replicate (length rest) 0)) =
      write_at-append [] (replicate n 0) start_code 0 refl
        (omega (arith, length-replicate {A = ℕ} (length rest) 0)) in
    let filled : write_at (start_code ++ (0 ∷ replicate (length rest) 0)) 4 (b ∷ rest)
        ≡ some (start_code ++ (b ∷ rest)) =
      fresh start_code (b ∷ rest) (suc (length rest)) 4 refl refl in
    rw (some_bytes, kind, size)
      (rw (enough, coded, back, read_block_whole (b ∷ rest) (suc (length rest)) refl, filled) refl)

-- Every piece fits a UINT32 with what goes in front of it.
abbrev pub AllFit : List (List ℕ) → Type 0
AllFit [] = Unit
AllFit (c ∷ cs) = (length c + 7 < 2 ^ 32) × AllFit cs

depay_all-more :
    (b : ℕ) (cs : List (List ℕ))
    → b < 256
    → AllFit cs
    → depay_all (fu_packets b false cs) ≡ some (concat cs)
unfolding depay_all
depay_all-more b [] hb h = refl
depay_all-more b (c ∷ cs) hb (h, hs) =
    rw (depay_one-more b (is_last cs) c hb h, depay_all-more b cs hb hs)

pub chunk_loop-AllFit : (f m : ℕ) (xs : List ℕ) → m + 7 < 2 ^ 32 → AllFit (chunk_loop f m xs)
chunk_loop-AllFit zero m xs h = tt
chunk_loop-AllFit (suc f) m [] h = tt
chunk_loop-AllFit (suc f) m (x ∷ xs) h =
    (omega (arith, length-take m (x ∷ xs)), chunk_loop-AllFit f m (drop m (x ∷ xs)) h)

depay_all-start :
    (b : ℕ) (c : List ℕ) (cs : List (List ℕ))
    → b < 128
    → AllFit (c ∷ cs)
    → depay_all (fu_packets b true (c ∷ cs)) ≡ some (start_code ++ (b ∷ concat (c ∷ cs)))
unfolding depay_all
depay_all-start b c cs hb (h, hs) =
    rw (depay_one-start b (is_last cs) c hb h, depay_all-more b cs (omega arith) hs)

-- The packets of a unit give it back, behind one start code, when each is read by
-- depayH264FromRtpPayload: for a unit of a type that is not one of the packet types and whose first bit
-- is not set, at any MTU above the size of the FU-A header.
pub depay_all-nalu_packets :
    (mtu b : ℕ) (rest : List ℕ)
    → 3 ≤ mtu
    → mtu + 7 < 2 ^ 32
    → b < 128
    → indicator_of b ≡ single
    → depay_all (nalu_packets mtu b rest) ≡ some (start_code ++ (b ∷ rest))
unfolding depay_all
depay_all-nalu_packets mtu b rest h hm hb kind = elim (Bool-cases (leb (suc (length rest)) mtu)) [
  | inl whole ↦ rw whole (rw (depay_one-single b rest kind (ground arith), append-nil rest) refl)
  | inr cut ↦ rw cut (cut_up rest (ground arith))
]
  where
    cut_up :
        (xs : List ℕ)
        → mtu ≤ length xs
        → depay_all (fu_packets b true (chunks (mtu - 2) xs)) ≡ some (start_code ++ (b ∷ xs))
    cut_up [] long = absurd (omega arith)
    cut_up (x ∷ xs) long =
        depay_all-start b (take (mtu - 2) (x ∷ xs))
          (chunk_loop (length xs) (mtu - 2) (drop (mtu - 2) (x ∷ xs))) hb
          (chunk_loop-AllFit (length (x ∷ xs)) (mtu - 2) (x ∷ xs) (omega arith))
        ∙ ap (λ y. some (start_code ++ (b ∷ y)))
            (concat-chunk_loop (length (x ∷ xs)) (mtu - 2) (x ∷ xs) (omega arith) (omega arith))

-- A FU-B packet is measured as one byte less than it has, and the copy then reads from its fifth byte
-- on: for a packet of two bytes or more, with memory of the size that the size pass reports, it reads
-- behind the packet.
pub depay_h264_overread :
    (b : ℕ) (rest memory : List ℕ)
    → indicator_of b ≡ fu_b
    → suc (length rest) < 2 ^ 32
    → let n = length rest in
      (depay_h264 (b ∷ rest) (suc n) none 0
        ≡ some (record { status = success; nalu_length = n; data_out = none; is_start = false }))
      × (1 ≤ n → depay_h264 (b ∷ rest) (suc n) (some memory) n ≡ none)
unfolding depay_h264 measure copy_out
depay_h264_overread b rest memory kind small =
    let n : ℕ = length rest in
    let measured : (((suc n + 2 ^ 32 - 2) % 2 ^ 32) + 1) % 2 ^ 32 ≡ n = omega arith in
    let some_bytes : ltb 0 (suc n) ≡ true = ground arith in
    let enough : leb n n ≡ true = ground arith in
    (
      rw (some_bytes, kind, measured) refl,
      λ h.
          let short = read_block_short n (drop 4 (b ∷ rest)) (omega (arith, length-drop 3 rest)) in
          rw (some_bytes, kind, measured) (rw (enough, short) refl),
    )
