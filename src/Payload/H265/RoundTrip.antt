-- ===== src/Payload/H265/RoundTrip.antt =====
-- The packets of an H.265 unit through depayH265FromRtpPayload.
use kvs_c.Base.{
  ℕ, suc, ◌+◌, ◌-◌, ◌^◌, ◌%◌, ◌≤◌, ◌<◌, ◌≡◌, refl, ap, ◌∙◌, Bool, true, false, Option, none, some,
  List, [], ◌∷◌, ◌++◌, arith, length, length-replicate, replicate, drop, take, ltb, leb, append-nil,
  bit_and, bit_or, Bool-cases, inl, inr, if◌then◌else◌,
}
use kvs_c.Base.Bits.{fu_type_h265, fu_starts_h265, fu_ends_h265, fu_middle_h265, fu_rebuilt_h265}
use kvs_c.Base.Bytes.{◌>>=◌, read_block_whole, write_at, write_at-append}
use kvs_c.Payload.Chunks.{chunk_loop, chunks, concat, concat-chunk_loop}
use kvs_c.Payload.H264.Depay.{start_code}
use kvs_c.Payload.H264.Fragments.{is_last}
use kvs_c.Payload.H264.RoundTrip.{AllFit, chunk_loop-AllFit, fresh}
use kvs_c.Payload.H265.{
  nalu_type_h265, fu_indicator_h265, is_fu_h265, measure_h265, copy_out_h265, depay_h265,
}

-- The third byte of a fragmentation unit: the type of the unit, with a bit for its start or its end.
abbrev third_byte : (b : ℕ) (first last : Bool) → ℕ
third_byte b true last = bit_or (bit_and (nalu_type_h265 b) 0x3F) 0x80
third_byte b false true = bit_or (bit_and (nalu_type_h265 b) 0x3F) 0x40
third_byte b false false = bit_and (nalu_type_h265 b) 0x3F

abbrev fu_packet_h265 : (b b' : ℕ) (first last : Bool) → List ℕ → List ℕ
fu_packet_h265 b b' first last c = fu_indicator_h265 b ∷ b' ∷ third_byte b first last ∷ c

abbrev fu_packets_h265 : (b b' : ℕ) (first : Bool) → List (List ℕ) → List (List ℕ)
fu_packets_h265 b b' first [] = []
fu_packets_h265 b b' first (c ∷ cs) =
    fu_packet_h265 b b' first (is_last cs) c ∷ fu_packets_h265 b b' false cs

-- The packets of a unit: itself when it fits the MTU, and otherwise pieces of it without its two bytes
-- of header.
abbrev pub nalu_packets_h265 : (mtu b b' : ℕ) (rest : List ℕ) → List (List ℕ)
nalu_packets_h265 mtu b b' rest =
    if leb (suc (suc (length rest))) mtu
    then (b ∷ b' ∷ rest) ∷ []
    else fu_packets_h265 b b' true (chunks (mtu - 3) rest)

-- The data of one packet: the caller asks for its size, and then for the data in memory of that size.
pub depay_one_h265 : List ℕ → Option (List ℕ)
depay_one_h265 packet = do
  asked ← depay_h265 packet (length packet) none 0
  given ← depay_h265 packet (length packet) (some (replicate asked.nalu_length 0)) asked.nalu_length
  given.data_out

-- The data of the packets, one after the other.
pub depay_all_h265 : List (List ℕ) → Option (List ℕ)
depay_all_h265 [] = some []
depay_all_h265 (p ∷ ps) = do
  bytes ← depay_one_h265 p
  rest ← depay_all_h265 ps
  some (bytes ++ rest)

fu_packet-is_fu : (b : ℕ) → b < 256 → is_fu_h265 (fu_indicator_h265 b) ≡ true
fu_packet-is_fu b hb = rw (fu_type_h265 b hb) refl

measure_start :
    (b b' n : ℕ) (last : Bool) (c : List ℕ)
    → b < 256
    → n ≡ length c + 6
    → n < 2 ^ 32
    → measure_h265 true (fu_packet_h265 b b' true last c) (suc (suc (suc (length c))))
      ≡ some (n, true)
unfolding measure_h265
measure_start b b' n last c hb hn small = rw (fu_starts_h265 b hb) (ground arith)

measure_more :
    (b b' : ℕ) (last : Bool) (c : List ℕ)
    → b < 256
    → length c + 3 < 2 ^ 32
    → measure_h265 true (fu_packet_h265 b b' false last c) (suc (suc (suc (length c))))
      ≡ some (length c, false)
unfolding measure_h265
measure_more b b' true c hb small = rw (fu_ends_h265 b hb) (ground arith)
measure_more b b' false c hb small = rw (fu_middle_h265 b hb) (ground arith)

copy_start :
    (b b' : ℕ) (last : Bool) (c : List ℕ)
    → b < 256
    → let n = suc (suc (suc (suc (suc (suc (length c)))))) in
      n < 2 ^ 32
      → copy_out_h265 true true
          (fu_packet_h265 b b' true last c)
          (suc (suc (suc (length c))))
          (replicate n 0)
        ≡ some (start_code ++ (b ∷ b' ∷ c))
unfolding copy_out_h265
copy_start b b' last c hb small =
    let n : ℕ = suc (suc (suc (suc (suc (suc (length c)))))) in
    let coded : write_at (replicate n 0) 0 start_code
        ≡ some (start_code ++ (0 ∷ 0 ∷ replicate (length c) 0)) =
      write_at-append [] (replicate n 0) start_code 0 refl
        (omega (arith, length-replicate {A = ℕ} (length c) 0)) in
    let size : (suc (suc (suc (length c))) + 2 ^ 32 - 3) % 2 ^ 32 ≡ length c = omega arith in
    let headed : write_at (start_code ++ (0 ∷ 0 ∷ replicate (length c) 0)) 4 (b ∷ b' ∷ [])
        ≡ some (start_code ++ (b ∷ b' ∷ replicate (length c) 0)) =
      write_at-append start_code (0 ∷ 0 ∷ replicate (length c) 0) (b ∷ b' ∷ []) 4 refl
        (omega arith) in
    let filled : write_at (start_code ++ (b ∷ b' ∷ replicate (length c) 0)) 6 c
        ≡ some (start_code ++ (b ∷ b' ∷ c)) =
      fresh (start_code ++ (b ∷ b' ∷ [])) c (length c) 6 refl refl in
    rw (coded, fu_rebuilt_h265 b hb, headed, size, read_block_whole c (length c) refl) filled

-- A packet that starts a unit gives the start code, the header, and its piece.
depay_one-start :
    (b b' : ℕ) (last : Bool) (c : List ℕ)
    → b < 256
    → length c + 7 < 2 ^ 32
    → depay_one_h265 (fu_packet_h265 b b' true last c) ≡ some (start_code ++ (b ∷ b' ∷ c))
unfolding depay_one_h265 depay_h265
depay_one-start b b' last c hb hc =
    let n : ℕ = suc (suc (suc (suc (suc (suc (length c)))))) in
    let enough : leb n n ≡ true = ground arith in
    let some_bytes : ltb 0 (suc (suc (suc (length c)))) ≡ true = ground arith in
    rw
      (some_bytes, fu_packet-is_fu b hb, measure_start b b' n last c hb (omega arith) (omega arith))
      (rw (enough, copy_start b b' last c hb (omega arith)) refl)

-- Another packet gives its piece.
depay_one-more :
    (b b' : ℕ) (last : Bool) (c : List ℕ)
    → b < 256
    → length c + 7 < 2 ^ 32
    → depay_one_h265 (fu_packet_h265 b b' false last c) ≡ some c
unfolding depay_one_h265 depay_h265 copy_out_h265
depay_one-more b b' last c hb hc =
    let enough : leb (length c) (length c) ≡ true = ground arith in
    let some_bytes : ltb 0 (suc (suc (suc (length c)))) ≡ true = ground arith in
    let size : (suc (suc (suc (length c))) + 2 ^ 32 - 3) % 2 ^ 32 ≡ length c = omega arith in
    rw (some_bytes, fu_packet-is_fu b hb, measure_more b b' last c hb (omega arith))
      (rw (enough, size, read_block_whole c (length c) refl, fresh [] c (length c) 0 refl refl)
        refl)

-- A packet that is a unit gives the start code and the unit.
depay_one-single :
    (b : ℕ) (rest : List ℕ)
    → is_fu_h265 b ≡ false
    → length rest + 7 < 2 ^ 32
    → depay_one_h265 (b ∷ rest) ≡ some (start_code ++ (b ∷ rest))
unfolding depay_one_h265 depay_h265 copy_out_h265 measure_h265
depay_one-single b rest kind small =
    let n : ℕ = suc (suc (suc (suc (suc (length rest))))) in
    let size : (suc (length rest) + 4) % 2 ^ 32 ≡ n = omega arith in
    let enough : leb n n ≡ true = ground arith in
    let some_bytes : ltb 0 (suc (length rest)) ≡ true = ground arith in
    let coded : write_at (replicate n 0) 0 start_code
        ≡ some (start_code ++ (0 ∷ replicate (length rest) 0)) =
      write_at-append [] (replicate n 0) start_code 0 refl
        (omega (arith, length-replicate {A = ℕ} (length rest) 0)) in
    let filled : write_at (start_code ++ (0 ∷ replicate (length rest) 0)) 4 (b ∷ rest)
        ≡ some (start_code ++ (b ∷ rest)) =
      fresh start_code (b ∷ rest) (suc (length rest)) 4 refl refl in
    rw (some_bytes, kind, size)
      (rw (enough, coded, read_block_whole (b ∷ rest) (suc (length rest)) refl, filled) refl)

depay_all-more :
    (b b' : ℕ) (cs : List (List ℕ))
    → b < 256
    → AllFit cs
    → depay_all_h265 (fu_packets_h265 b b' false cs) ≡ some (concat cs)
unfolding depay_all_h265
depay_all-more b b' [] hb h = refl
depay_all-more b b' (c ∷ cs) hb (h, hs) =
    rw (depay_one-more b b' (is_last cs) c hb h, depay_all-more b b' cs hb hs)

depay_all-start :
    (b b' : ℕ) (c : List ℕ) (cs : List (List ℕ))
    → b < 256
    → AllFit (c ∷ cs)
    → depay_all_h265 (fu_packets_h265 b b' true (c ∷ cs))
      ≡ some (start_code ++ (b ∷ b' ∷ concat (c ∷ cs)))
unfolding depay_all_h265
depay_all-start b b' c cs hb (h, hs) =
    rw (depay_one-start b b' (is_last cs) c hb h, depay_all-more b b' cs hb hs)

-- The packets of an H.265 unit give it back, behind one start code, when each is read by
-- depayH265FromRtpPayload: for a unit of any type but that of the fragmentation units, at any MTU above the
-- size of their header. The two bytes of the header come back whole, the forbidden bit included.
pub depay_all_h265-nalu_packets_h265 :
    (mtu b b' : ℕ) (rest : List ℕ)
    → 4 ≤ mtu
    → mtu + 7 < 2 ^ 32
    → b < 256
    → is_fu_h265 b ≡ false
    → depay_all_h265 (nalu_packets_h265 mtu b b' rest) ≡ some (start_code ++ (b ∷ b' ∷ rest))
unfolding depay_all_h265
depay_all_h265-nalu_packets_h265 mtu b b' rest h hm hb kind =
    elim (Bool-cases (leb (suc (suc (length rest))) mtu)) [
      | inl whole ↦
          rw whole (rw (depay_one-single b (b' ∷ rest) kind (ground arith), append-nil rest) refl)
      | inr cut ↦ rw cut (cut_up rest (ground arith))
    ]
  where
    cut_up :
        (xs : List ℕ)
        → mtu < suc (suc (length xs))
        → depay_all_h265 (fu_packets_h265 b b' true (chunks (mtu - 3) xs))
          ≡ some (start_code ++ (b ∷ b' ∷ xs))
    cut_up [] long = absurd (omega arith)
    cut_up (x ∷ xs) long =
        depay_all-start b b' (take (mtu - 3) (x ∷ xs))
          (chunk_loop (length xs) (mtu - 3) (drop (mtu - 3) (x ∷ xs))) hb
          (chunk_loop-AllFit (length (x ∷ xs)) (mtu - 3) (x ∷ xs) (omega arith))
        ∙ ap (λ y. some (start_code ++ (b ∷ b' ∷ y)))
            (concat-chunk_loop (length (x ∷ xs)) (mtu - 3) (x ∷ xs) (omega arith) (omega arith))
