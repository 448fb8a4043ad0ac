-- ===== src/Payload/H264/Scan.antt =====
-- getNextNaluLength of RtpH264Payloader.c: the scan, and where NAL units end.
use kvs_c.Base.{
  ℕ, zero, suc, ◌+◌, ◌-◌, ◌%◌, ◌^◌, ◌≤◌, ◌<◌, ◌≡◌, ◌≢◌, ◌⊎◌, refl, sym, ap, ◌∙◌, true, false, ◌&&◌,
  some, List, arith, length, ltb, leb, ◌==◌, if◌then◌else◌, Bool-cases, inl, inr, min,
}
use kvs_c.Base.Bytes.{read8, get_elem?-some}
use native.Mathlib.Decide.{dec_lt}
use kvs_c.Status.{Status, success, rtp_invalid_nalu}
use kvs_c.Payload.H264.{Scanned, scan_loop, zeros_loop, get_next_nalu_length}

-- The three-byte start code ends at an index.
pub record IsCode (nalus : List ℕ) (k : ℕ) : Type 0 where
  pub behind_two : 2 ≤ k
  pub one : read8 nalus k ≡ some 1
  pub zero_before : read8 nalus (k - 1) ≡ some 0
  pub zero_two_before : read8 nalus (k - 2) ≡ some 0

-- No start code ends in a range.
abbrev pub NoCode : List ℕ → (from to : ℕ) → Type 0
NoCode nalus from to = (k : ℕ) → from ≤ k → k < to → ¬ IsCode nalus k

-- The scan from an offset ends: at the first start code, with its zeros, or behind the bytes.
abbrev pub IsScan : List ℕ → (offset nalus_length : ℕ) → Scanned → Type 0
IsScan nalus offset nalus_length s =
    (offset ≤ s.offset)
    × NoCode nalus offset (min s.offset nalus_length)
    × (s.nalu_found ≡ true
        → IsCode nalus s.offset
          × (s.offset < nalus_length)
          × ((b : ℕ) × (read8 nalus (s.offset - 3) ≡ some b)
              × (s.zero_count ≡ (if b == 0 then 3 else 2))))
    × (s.nalu_found ≡ false → (nalus_length ≤ s.offset) × (s.zero_count ≡ 0))

further :
    (nalus : List ℕ) (offset next nalus_length : ℕ) (s : Scanned)
    → offset ≤ next
    → NoCode nalus offset next
    → IsScan nalus next nalus_length s
    → IsScan nalus offset nalus_length s
further nalus offset next nalus_length s le skipped (le', none_yet, found, end) = (
  omega arith,
  (λ k lo hi. elim (dec_lt k next) [
    | yes lt ↦ skipped k lo lt
    | no ge ↦ none_yet k (omega arith) hi
  ]),
  found,
  end,
)

-- Behind a byte that is neither a zero nor the end of a start code three indices are skipped.
skip_three :
    (nalus : List ℕ) (offset b : ℕ)
    → read8 nalus offset ≡ some b
    → b ≢ 0
    → ¬ IsCode nalus offset
    → NoCode nalus offset (offset + 3)
skip_three nalus offset b e ne no_code k lo hi code = elim (dec_lt offset k) [
  | no here ↦ let i : k ≡ offset = omega arith in no_code (rw i at code)
  | yes later ↦ elim (dec_lt (offset + 1) k) [
    | no next ↦
        let i : k - 1 ≡ offset = omega arith in
        let zeros : some b ≡ some 0 = sym e ∙ ap (read8 nalus) (sym i) ∙ code.zero_before in
        ne (ground (arith, zeros))
    | yes last ↦
        let i : k - 2 ≡ offset = omega arith in
        let zeros : some b ≡ some 0 = sym e ∙ ap (read8 nalus) (sym i) ∙ code.zero_two_before in
        ne (ground (arith, zeros))
  ]
]

ended :
    (nalus : List ℕ) (offset nalus_length : ℕ)
    → nalus_length ≤ offset
    → IsScan nalus offset nalus_length
        (record { offset = offset; nalu_found = false; zero_count = 0 })
ended nalus offset nalus_length h =
    (omega arith, (λ k lo hi code. omega arith), (λ e. absurd (cc e)), λ e. (h, refl))

pub scan_loop-IsScan :
    (fuel offset nalus_length : ℕ) (nalus : List ℕ)
    → 3 ≤ offset
    → nalus_length ≤ length nalus
    → nalus_length ≤ offset + fuel
    → (s : Scanned) × (scan_loop fuel offset nalus_length nalus ≡ some s)
      × IsScan nalus offset nalus_length s
unfolding scan_loop
scan_loop-IsScan zero offset nalus_length nalus h hl hf = (
  record { offset = offset; nalu_found = false; zero_count = 0 },
  ground arith,
  ended nalus offset nalus_length (omega arith),
)
scan_loop-IsScan (suc fuel) offset nalus_length nalus h hl hf = elim (dec_lt offset nalus_length) [
  | no ge ↦ (
    record { offset = offset; nalu_found = false; zero_count = 0 },
    ground arith,
    ended nalus offset nalus_length (omega arith),
  )
  | yes lt ↦
      let inside : ltb offset nalus_length ≡ true = ground arith in
      let (b, eb) = get_elem?-some nalus offset (omega arith) in
      let (a1, e1) = get_elem?-some nalus (offset - 1) (omega arith) in
      let (a2, e2) = get_elem?-some nalus (offset - 2) (omega arith) in
      let (a3, e3) = get_elem?-some nalus (offset - 3) (omega arith) in
      let (s1, run1, is1) =
        scan_loop-IsScan fuel (offset + 1) nalus_length nalus (omega arith) hl (omega arith) in
      let (s3, run3, is3) =
        scan_loop-IsScan fuel (offset + 3) nalus_length nalus (omega arith) hl (omega arith) in
      elim (Bool-cases (b == 0)) [
        | inl zero_byte ↦ (
          s1,
          rw (inside, eb, zero_byte) run1,
          further nalus offset (offset + 1) nalus_length s1 (omega arith)
              (λ k lo hi code.
                let i : k ≡ offset = omega arith in
                let ones : some b ≡ some 1 = sym eb ∙ ap (read8 nalus) (sym i) ∙ code.one in
                ground (arith, ones))
              is1,
        )
        | inr not_zero ↦ elim (Bool-cases (b == 1)) [
          | inl one_byte ↦ elim (Bool-cases ((a1 == 0) && (a2 == 0))) [
            | inl both ↦
                let found : Scanned = record {
                  offset = offset;
                  nalu_found = true;
                  zero_count = if a3 == 0 then 3 else 2;
                } in
                (
                  found,
                  rw (inside, eb, not_zero, one_byte, e1, e2, both, e3) refl,
                  (
                    omega arith,
                    (λ k lo hi code. omega arith),
                    (λ e. (
                      record {
                        behind_two = omega arith;
                        one = eb ∙ ap some (ground arith);
                        zero_before = e1 ∙ ap some (ground arith);
                        zero_two_before = e2 ∙ ap some (ground arith);
                      },
                      lt,
                      (a3, e3, refl),
                    )),
                    λ e. absurd (cc e),
                  ),
                )
            | inr one_missing ↦ (
              s3,
              rw (inside, eb, not_zero, one_byte, e1, e2, one_missing) run3,
              further nalus offset (offset + 3) nalus_length s3 (omega arith)
                  (skip_three nalus offset b eb (ground arith) (λ code.
                    let z1 : some a1 ≡ some 0 = sym e1 ∙ code.zero_before in
                    let z2 : some a2 ≡ some 0 = sym e2 ∙ code.zero_two_before in
                    ground (arith, z1, z2)))
                  is3,
            )
          ]
          | inr other ↦ (
            s3,
            rw (inside, eb, not_zero, other) run3,
            further nalus offset (offset + 3) nalus_length s3 (omega arith)
                (skip_three nalus offset b eb (ground arith)
                  (λ code. let ones : some b ≡ some 1 = sym eb ∙ code.one in ground (arith, ones)))
                is3,
          )
        ]
      ]
]

zeros_loop_lem :
    (fuel offset nalus_length : ℕ) (nalus : List ℕ)
    → nalus_length ≤ length nalus
    → (o : ℕ) × (zeros_loop fuel offset nalus_length nalus ≡ some o)
      × (offset ≤ o)
      × (o ≤ offset + fuel)
      × ((k : ℕ) → offset ≤ k → k < o → read8 nalus k ≡ some 0)
unfolding zeros_loop
zeros_loop_lem zero offset nalus_length nalus hl =
    (offset, refl, omega arith, omega arith, λ k lo hi. absurd (omega arith))
zeros_loop_lem (suc fuel) offset nalus_length nalus hl = elim (dec_lt offset nalus_length) [
  | no ge ↦ (offset, ground arith, omega arith, omega arith, λ k lo hi. absurd (omega arith))
  | yes lt ↦
      let inside : ltb offset nalus_length ≡ true = ground arith in
      let (b, e) = get_elem?-some nalus offset (omega arith) in
      elim (Bool-cases (b == 0)) [
        | inl zero_byte ↦
            let (o, run, le, ge, zeros) = zeros_loop_lem fuel (offset + 1) nalus_length nalus hl in
            (
              o,
              rw (inside, e, zero_byte) run,
              omega arith,
              omega arith,
              λ k lo hi. elim (dec_lt offset k) [
                | yes later ↦ zeros k (omega arith) hi
                | no here ↦
                    let i : k ≡ offset = omega arith in
                    ap (read8 nalus) i ∙ e ∙ ap some (ground arith)
              ],
            )
        | inr other ↦ (
          offset,
          rw (inside, e, other) refl,
          omega arith,
          omega arith,
          λ k lo hi. absurd (omega arith),
        )
      ]
]

-- Where a NAL unit of `n` bytes ends: at the end of the stream, or at a start code of three or four
-- bytes that is the first one behind `start`.
abbrev pub IsNaluEnd : List ℕ → (nalus_length start n : ℕ) → Type 0
IsNaluEnd nalus nalus_length start n =
    (start + n ≤ nalus_length)
    × ((start + n ≡ nalus_length)
        ⊎ ((e : ℕ) × IsCode nalus e
            × (e < nalus_length)
            × ((e ≡ start + n + 2) ⊎ ((e ≡ start + n + 3) × (read8 nalus (start + n) ≡ some 0)))))
    × NoCode nalus start (min (start + n + 2) nalus_length)

-- An index that holds the one of a start code holds no zero.
not_zero : (nalus : List ℕ) (i j : ℕ) → read8 nalus i ≡ some 1 → read8 nalus j ≡ some 0 → i ≢ j
not_zero nalus i j one zeroed same =
    let clash : some 1 ≡ some 0 = sym one ∙ ap (read8 nalus) same ∙ zeroed in ground (arith, clash)

nalu_ends :
    (nalus : List ℕ) (nalus_length start : ℕ) (s : Scanned)
    → nalus_length < 2 ^ 32
    → 3 ≤ start
    → start ≤ nalus_length
    → read8 nalus (start - 1) ≡ some 1
    → IsScan nalus start nalus_length s
    → IsNaluEnd nalus nalus_length start
        ((((min s.offset nalus_length + 2 ^ 32 - start) % 2 ^ 32) + 2 ^ 32 - s.zero_count) % 2 ^ 32)
nalu_ends nalus nalus_length start s small h hs one (le, none_yet, found, ended) =
    elim (Bool-cases s.nalu_found) [
      | inr no_code ↦
          let (behind, z) = ended no_code in
          (omega (arith, z), inl (omega (arith, z)), λ k lo hi. none_yet k lo (omega (arith, z)))
      | inl code_found ↦
          let (code, lt, (b, eb, z)) = found code_found in
          let far1 = not_zero nalus (start - 1) (s.offset - 1) one code.zero_before in
          let far2 = not_zero nalus (start - 1) (s.offset - 2) one code.zero_two_before in
          elim (Bool-cases (b == 0)) [
            | inl long ↦
                let three : s.zero_count ≡ 3 = rw long at z in
                let zero_byte : read8 nalus (s.offset - 3) ≡ some 0 = eb ∙ ap some (ground arith) in
                let far3 = not_zero nalus (start - 1) (s.offset - 3) one zero_byte in
                (
                  omega (arith, three, far1, far2, far3),
                  inr (
                    s.offset,
                    code,
                    lt,
                    inr (
                      omega (arith, three, far1, far2, far3),
                      ap (read8 nalus) (omega (arith, three, far1, far2, far3)) ∙ zero_byte,
                    ),
                  ),
                  λ k lo hi. none_yet k lo (omega (arith, three, far1, far2, far3)),
                )
            | inr short ↦
                let two : s.zero_count ≡ 2 = rw short at z in
                (
                  omega (arith, two, far1, far2),
                  inr (s.offset, code, lt, inl (omega (arith, two, far1, far2))),
                  λ k lo hi. none_yet k lo (omega (arith, two, far1, far2)),
                )
          ]
    ]

-- getNextNaluLength returns for any bytes. When it succeeds, the unit starts behind a start code of
-- three or four bytes at the front, and it ends at the end of the bytes or at the next start code, of
-- which there is none in between: the jumps of the scan miss none, and the length does not wrap.
pub get_next_nalu_length-IsNaluEnd :
    (nalus : List ℕ) (nalus_length : ℕ)
    → nalus_length ≤ length nalus
    → nalus_length < 2 ^ 32
    → (status : Status) × (start n : ℕ) × (get_next_nalu_length nalus nalus_length
        ≡ some (status, start, n))
      × (status ≡ success
          → (3 ≤ start)
            × (start ≤ 4)
            × IsCode nalus (start - 1)
            × IsNaluEnd nalus nalus_length start n)
unfolding get_next_nalu_length
get_next_nalu_length-IsNaluEnd nalus nalus_length hl small =
    let (o, run, lo, hi, zeros) = zeros_loop_lem 4 0 nalus_length nalus hl in
    elim (Bool-cases (ltb o nalus_length && (ltb o 4 && leb 2 o))) [
      | inr bad ↦ (rtp_invalid_nalu, 0, 0, rw (run, bad) refl, λ e. absurd (cc e))
      | inl fits ↦
          let inside : o < nalus_length = ground arith in
          let at_least : 2 ≤ o = ground arith in
          let at_most : o < 4 = ground arith in
          let (b, e) = get_elem?-some nalus o (omega (arith, inside)) in
          elim (Bool-cases (b == 1)) [
            | inr other ↦
                (rtp_invalid_nalu, 0, 0, rw (run, fits, e, other) refl, λ e. absurd (cc e))
            | inl one_byte ↦
                let (s, scanned, is_scan) =
                  scan_loop-IsScan nalus_length (o + 1) nalus_length nalus (omega arith) hl
                    (omega arith) in
                let back : o + 1 - 1 ≡ o = omega arith in
                let one : read8 nalus o ≡ some 1 = e ∙ ap some (ground arith) in
                (
                  success,
                  o + 1,
                  _,
                  rw (run, fits, e, one_byte, scanned) refl,
                  λ ok. (
                    omega arith,
                    omega arith,
                    rw back (record {
                      behind_two = at_least;
                      one = one;
                      zero_before = zeros (o - 1) (omega arith) (omega arith);
                      zero_two_before = zeros (o - 2) (omega arith) (omega arith);
                    }),
                    nalu_ends nalus nalus_length (o + 1) s small (omega arith) (omega arith)
                        (rw back one) is_scan,
                  ),
                )
          ]
    ]
