-- ===== src/RtpRollingBuffer/Listing.antt =====
-- rtpRollingBufferGetValidSeqIndexList: the whole list of indices.
use kvs_c.Base.{
  ℕ, zero, suc, ◌+◌, ◌-◌, ◌^◌, ◌≤◌, ◌<◌, ◌≡◌, refl, sym, ap, ◌∙◌, true, false, Option, none, some,
  List, [], ◌∷◌, ◌++◌, arith, length, take, set, length-set, ltb, Option-cases, inl, inr,
  append_assoc, append-nil, min,
}
use kvs_c.Base.Bytes.{store}
use native.Mathlib.Decide.{dec_lt}
use kvs_c.RtpRollingBuffer.{RtpRollingBuffer, index_of, valid_loop, get_valid_seq_index_list}
use kvs_c.RtpRollingBuffer.Valid.{held, index_of-held}
use kvs_c.RollingBuffer.{get_size}

-- The indices that the lookup answers for the sequence numbers, in their order.
abbrev found : RtpRollingBuffer → (size : ℕ) → List ℕ → List ℕ
found b size [] = []
found b size (seq ∷ seqs) = elim (index_of b size seq) [
  | none ↦ found b size seqs
  | some i ↦ i ∷ found b size seqs
]

found-none :
    (b : RtpRollingBuffer) (size seq : ℕ) (seqs : List ℕ)
    → index_of b size seq ≡ none
    → found b size (seq ∷ seqs) ≡ found b size seqs
found-none b size seq seqs e = rw (found, e) refl

found-some :
    (b : RtpRollingBuffer) (size seq i : ℕ) (seqs : List ℕ)
    → index_of b size seq ≡ some i
    → found b size (seq ∷ seqs) ≡ i ∷ found b size seqs
found-some b size seq i seqs e = rw (found, e) refl

take-set :
    (xs : List ℕ) (n v : ℕ) → n < length xs → take (n + 1) (set xs n v) ≡ take n xs ++ (v ∷ [])
take-set [] n v h = absurd (omega arith)
take-set (x ∷ xs) zero v h = refl
take-set (x ∷ xs) (suc n) v h =
    let e : suc n + 1 ≡ suc (n + 1) = omega arith in
    rw e (ap (λ l. x ∷ l) (take-set xs n v (omega arith)))

-- An element behind those that are taken does not matter.
take-set_behind : (xs : List ℕ) (k n v : ℕ) → k ≤ n → take k (set xs n v) ≡ take k xs
take-set_behind [] k n v h = refl
take-set_behind (x ∷ xs) zero n v h = refl
take-set_behind (x ∷ xs) (suc k) zero v h = absurd (omega arith)
take-set_behind (x ∷ xs) (suc k) (suc n) v h =
    ap (λ l. x ∷ l) (take-set_behind xs k n v (omega arith))

store_inside : (xs : List ℕ) (n v : ℕ) → n < length xs → store xs n v ≡ some (set xs n v)
unfolding store
store_inside xs n v h = ground arith

-- What the loop leaves: the indices that are there, as far as there is room.
abbrev Lists : (count room : ℕ) (front indices : List ℕ) → Option (ℕ × List ℕ) → Type 0
Lists count room front indices r =
    (count' : ℕ) × (out' : List ℕ) × (r ≡ some (count', out'))
    × (count' ≡ min room (count + length indices))
    × (take count' out' ≡ front ++ take (room - count) indices)

take_none : (n : ℕ) → take {A = ℕ} n [] ≡ []
take_none zero = refl
take_none (suc n) = refl

take_one :
    (room count : ℕ) (i : ℕ) (is : List ℕ)
    → room ≡ count + 1
    → take (room - count) (i ∷ is) ≡ i ∷ []
take_one room count i is h = let e : room - count ≡ 1 = omega arith in rw e refl

take_more :
    (room count : ℕ) (i : ℕ) (is : List ℕ)
    → count < room
    → take (room - count) (i ∷ is) ≡ i ∷ take (room - (count + 1)) is
take_more room count i is h =
    let e : room - count ≡ suc (room - (count + 1)) = omega arith in rw e refl

valid_loop-found :
    (b : RtpRollingBuffer) (size room count : ℕ) (seqs out : List ℕ)
    → count < room
    → room ≤ length out
    → Lists count room (take count out) (found b size seqs) (valid_loop b size room seqs count out)
unfolding valid_loop
valid_loop-found b size room count [] out hc hr = (
  count,
  out,
  refl,
  omega arith,
  sym (append-nil (take count out))
      ∙ ap (λ l. take count out ++ l) (sym (take_none (room - count))),
)
valid_loop-found b size room count (seq ∷ seqs) out hc hr =
    elim (Option-cases (index_of b size seq)) [
      | inl e ↦
          let (count', out', run, size_eq, taken) =
            valid_loop-found b size room count seqs out hc hr in
          let same = found-none b size seq seqs e in
          (count', out', rw (valid_loop, e) run, rw same size_eq, rw same taken)
      | inr (i, e) ↦ elim (dec_lt (count + 1) room) [
        | yes more ↦
            let stored = store_inside out count i (omega arith) in
            let cleared =
              store_inside (set out count i) (count + 1) 0
                (omega (arith, length-set out count i)) in
            let test : ltb (count + 1) room ≡ true = ground arith in
            let out' : List ℕ = set (set out count i) (count + 1) 0 in
            let (count', out'', run, size_eq, taken) =
              valid_loop-found b size room (count + 1) seqs out' more (
                omega
                  (arith, length-set out count i, length-set (set out count i) (count + 1) 0)) in
            let front : take (count + 1) out' ≡ take count out ++ (i ∷ []) =
              take-set_behind (set out count i) (count + 1) (count + 1) 0 (omega arith)
              ∙ take-set out count i (omega arith) in
            let grown = found-some b size seq i seqs e in
            (
              count',
              out'',
              rw (valid_loop, e, stored, test, cleared) run,
              rw grown (omega (arith, size_eq)),
              rw grown (
                  taken
                  ∙ ap (λ l. l ++ take (room - (count + 1)) (found b size seqs)) front
                  ∙ append_assoc (take count out) (i ∷ [])
                      (take (room - (count + 1)) (found b size seqs))
                  ∙ ap (λ l. take count out ++ l)
                      (sym (take_more room count i (found b size seqs) hc))),
            )
        | no full ↦
            let stored = store_inside out count i (omega arith) in
            let test : ltb (count + 1) room ≡ false = ground arith in
            let grown = found-some b size seq i seqs e in
            (
              count + 1,
              set out count i,
              rw (valid_loop, e, stored, test) refl,
              rw grown (omega arith),
              rw grown (
                  take-set out count i (omega arith)
                  ∙ ap (λ l. take count out ++ l)
                      (sym (take_one room count i (found b size seqs) (omega arith)))),
            )
      ]
    ]

-- The list holds what the lookup answers.
listed_found :
    (b : RtpRollingBuffer) (room : ℕ) (seqs out : List ℕ)
    → 0 < get_size b.rolling_buffer
    → 0 < room
    → room ≤ length out
    → let indices = found b (get_size b.rolling_buffer) seqs in
      (count : ℕ) × (out' : List ℕ) × (get_valid_seq_index_list b seqs room out
        ≡ some (count, out'))
      × (count ≡ min room (length indices))
      × (take count out' ≡ take room indices)
unfolding get_valid_seq_index_list
listed_found b room seqs out some_packets hr ho = go (get_size b.rolling_buffer) some_packets
  where
    go :
        (size : ℕ)
        → 0 < size
        → let indices = found b size seqs in
          (count : ℕ) × (out' : List ℕ) × ((elim size as (λ _. Option (ℕ × List ℕ)) [
            | zero ↦ some (0, out)
            | suc n ↦ valid_loop b (suc n) room seqs 0 out
          ])
            ≡ some (count, out'))
          × (count ≡ min room (length indices))
          × (take count out' ≡ take room indices)
    go zero h = absurd (omega arith)
    go (suc n) h =
        let (count, out', run, size_eq, taken) = valid_loop-found b (suc n) room 0 seqs out hr ho in
        (
          count,
          out',
          run,
          omega (arith, size_eq),
          taken ∙ ap (λ k. take k (found b (suc n) seqs)) (omega arith),
        )

-- The requested packets that are in the buffer, by their indices, in the order of the request.
abbrev pub held_indices : (last_index size : ℕ) → List ℕ → List ℕ
held_indices last_index size [] = []
held_indices last_index size (seq ∷ seqs) = elim (held last_index size seq) [
  | none ↦ held_indices last_index size seqs
  | some i ↦ i ∷ held_indices last_index size seqs
]

-- The numbers fit a UINT16.
abbrev pub AllSeqNums : List ℕ → Type 0
AllSeqNums [] = Unit
AllSeqNums (seq ∷ seqs) = (seq < 2 ^ 16) × AllSeqNums seqs

found-held_indices :
    (b : RtpRollingBuffer) (size : ℕ) (seqs : List ℕ)
    → 2 ≤ size
    → size ≤ 2 ^ 16
    → b.last_index < 2 ^ 63
    → size ≤ b.last_index + 1
    → AllSeqNums seqs
    → found b size seqs ≡ held_indices b.last_index size seqs
found-held_indices b size [] h2 h16 hl whole h = refl
found-held_indices b size (seq ∷ seqs) h2 h16 hl whole (h, hs) =
    let later = found-held_indices b size seqs h2 h16 hl whole hs in
    let same = index_of-held b size seq h2 h16 hl whole h in
    by_answer (held b.last_index size seq) same later
  where
    by_answer :
        (o : Option ℕ)
        → index_of b size seq ≡ o
        → found b size seqs ≡ held_indices b.last_index size seqs
        → found b size (seq ∷ seqs) ≡ elim o as (λ _. List ℕ) [
          | none ↦ held_indices b.last_index size seqs
          | some i ↦ i ∷ held_indices b.last_index size seqs
        ]
    by_answer none e later = found-none b size seq seqs e ∙ later
    by_answer (some i) e later = found-some b size seq i seqs e ∙ ap (λ l. i ∷ l) later

-- rtpRollingBufferGetValidSeqIndexList of a buffer of two packets or more writes the indices of the requested
-- packets that it holds, in the order of the request, and answers their number: all of them where the
-- list has room, and as many as there is room for otherwise. It stays inside the list. A packet is held
-- when its sequence number is less than the size behind that of the last one, modulo 2 ^ 16; the buffer
-- has no more packets than there are sequence numbers, and the indices have not come to 2 ^ 63.
pub get_valid_seq_index_list-held :
    (b : RtpRollingBuffer) (room : ℕ) (seqs out : List ℕ)
    → 2 ≤ get_size b.rolling_buffer
    → get_size b.rolling_buffer ≤ 2 ^ 16
    → b.last_index < 2 ^ 63
    → get_size b.rolling_buffer ≤ b.last_index + 1
    → AllSeqNums seqs
    → 0 < room
    → room ≤ length out
    → let indices = held_indices b.last_index (get_size b.rolling_buffer) seqs in
      (count : ℕ) × (out' : List ℕ) × (get_valid_seq_index_list b seqs room out
        ≡ some (count, out'))
      × (count ≡ min room (length indices))
      × (take count out' ≡ take room indices)
get_valid_seq_index_list-held b room seqs out h2 h16 hl whole hs hr ho =
    let same = found-held_indices b (get_size b.rolling_buffer) seqs h2 h16 hl whole hs in
    let (count, out', run, size_eq, taken) =
      listed_found b room seqs out (omega (arith, h2)) hr ho in
    (count, out', run, size_eq ∙ ap (λ l. min room (length l)) same, taken ∙ ap (take room) same)
