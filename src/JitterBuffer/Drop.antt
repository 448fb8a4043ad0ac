-- ===== src/JitterBuffer/Drop.antt =====
-- jitterBufferDropBufferData and jitterBufferFillFrameData: the two walks over the packets of a frame.
-- An index is a UINT16 that wraps; the number of indices from the first to the last is enough fuel.
use kvs_c.Base.{
  ℕ, zero, suc, ◌+◌, ◌-◌, ◌%◌, ◌^◌, ◌<◌, ◌≡◌, ◌≢◌, refl, sym, ap, ◌∙◌, true, false, Option, none,
  some, List, [], ◌∷◌, ◌++◌, arith, length, ◌==◌, if◌then◌else◌, Option-cases, inl, inr,
}
use kvs_c.Base.Bytes.{◌>>=◌}
use kvs_c.Status.{Status, success, hash_key_not_present, succeeded}
use kvs_c.Rtp.{RtpPacket}
use kvs_c.JitterBuffer.{
  JitterBuffer, exit_timestamp_overflow_check, exit_sequence_number_overflow_check,
}
use kvs_c.JitterBuffer.Table.{HashTable, IsHashTable}

-- `UINT16_DEC`
abbrev pub uint16_dec : ℕ → ℕ
uint16_dec a = (a + 65535) % 2 ^ 16

abbrev pub uint16_inc : ℕ → ℕ
uint16_inc a = (a + 1) % 2 ^ 16

-- The number of indices from the first to the last one, over the end of UINT16 where it lies between.
abbrev pub span : (start last : ℕ) → ℕ
span start last = (last + 65537 - start) % 2 ^ 16

-- A depayloader that is given memory: the status, and the data that it writes.
abbrev pub Depay : Type 0
Depay = List ℕ → ℕ → (room : ℕ) → Status × List ℕ

module _ {T : Type 0} (h : HashTable T) where
  -- The loop of jitterBufferDropBufferData: the table, and the packets that are freed, in order.
  pub drop_loop : (fuel index last : ℕ) → T → Option (T × List RtpPacket)
  drop_loop zero index last t = if uint16_dec index == last then some (t, []) else none
  drop_loop (suc fuel) index last t =
      let next : Option (T × List RtpPacket) = elim (h.get t index) [
        | none ↦ drop_loop fuel (uint16_inc index) last t
        | some p ↦ (do
          (t', freed) ← drop_loop fuel (uint16_inc index) last (h.remove t index)
          some (t', p ∷ freed))
      ] in
      if uint16_dec index == last then some (t, []) else next

  -- jitterBufferDropBufferData, and the packets that it frees.
  pub drop_buffer_data :
      JitterBuffer T → (start last next_timestamp : ℕ) → Option (JitterBuffer T × List RtpPacket)
  drop_buffer_data b start last next_timestamp = do
    (t, freed) ← drop_loop (span start last) start last b.packets
    let moved : JitterBuffer T = record b {
      packets = t;
      head_timestamp = next_timestamp;
      head_sequence_number = uint16_inc last;
    }
    some ((exit_sequence_number_overflow_check (exit_timestamp_overflow_check moved).1).1, freed)

  -- The loop of jitterBufferFillFrameData: the status, the data, and `remainingFrameSize`.
  pub fill_loop : Depay → (fuel index last remaining : ℕ) → T → Option (Status × List ℕ × ℕ)
  fill_loop depay zero index last remaining t =
      if uint16_dec index == last then some (success, [], remaining) else none
  fill_loop depay (suc fuel) index last remaining t =
      let next : Option (Status × List ℕ × ℕ) = elim (h.get t index) [
        | none ↦ some (hash_key_not_present, [], remaining)
        | some p ↦ elim p.payload [
          | none ↦ none
          | some payload ↦
              let (status, written) = depay payload p.payload_length remaining in
              let rest =
                fill_loop depay fuel (uint16_inc index) last
                  ((remaining + 2 ^ 32 - length written) % 2 ^ 32) t in
              if succeeded status
              then (do
                (end_status, filled, left) ← rest
                some (end_status, written ++ filled, left))
              else some (status, [], remaining)
        ]
      ] in
      if uint16_dec index == last then some (success, [], remaining) else next

  -- jitterBufferFillFrameData: the status, the data at `pFrame`, and `*pFilledSize`.
  pub fill_frame_data :
      Depay → JitterBuffer T → (frame_size start last : ℕ) → Option (Status × List ℕ × ℕ)
  fill_frame_data depay b frame_size start last = do
    (status, filled, remaining) ← fill_loop depay (span start last) start last frame_size b.packets
    some (status, filled, (frame_size + 2 ^ 32 - remaining) % 2 ^ 32)

-- The keys of a range are absent in the second table, and every other key has what it had.
pub record IsCleared (T : Type 0) (h : HashTable T) (n start : ℕ) (t t' : T) : Type 0 where
  pub gone : (k : ℕ) → k < n → h.get t' ((start + k) % 2 ^ 16) ≡ none
  pub kept : (j : ℕ) → ((k : ℕ) → k < n → j ≢ (start + k) % 2 ^ 16) → h.get t' j ≡ h.get t j

-- A range whose first key is absent already, and whose other keys are cleared.
step-IsCleared :
    {T : Type 0} (h : HashTable T) (n start : ℕ) (t t1 t' : T)
    → start < 2 ^ 16
    → n < 2 ^ 16
    → h.get t1 start ≡ none
    → ((j : ℕ) → j ≢ start → h.get t1 j ≡ h.get t j)
    → IsCleared T h n (uint16_inc start) t1 t'
    → IsCleared T h (suc n) start t t'
step-IsCleared h n start t t1 t' hs hn absent same c = record { gone = gone'; kept = kept' }
  where
    first : h.get t' start ≡ none
    first = c.kept start (λ k hk. omega arith) ∙ absent

    gone' : (k : ℕ) → k < suc n → h.get t' ((start + k) % 2 ^ 16) ≡ none
    gone' zero hk = ap (h.get t') (omega arith) ∙ first
    gone' (suc k) hk = ap (h.get t') (omega arith) ∙ c.gone k (omega arith)

    kept' : (j : ℕ) → ((k : ℕ) → k < suc n → j ≢ (start + k) % 2 ^ 16) → h.get t' j ≡ h.get t j
    kept' j away =
        let off_start = away 0 (omega arith) in
        c.kept j (λ k hk. let off = away (suc k) (omega arith) in omega arith)
        ∙ same j (omega arith)

-- Dropping returns for any two indices; the keys from the first to the last one are then absent, and
-- every other key has what it had.
pub drop_loop-IsCleared :
    {T : Type 0} (h : HashTable T) (n start last : ℕ) (t : T)
    → IsHashTable T h
    → start < 2 ^ 16
    → last < 2 ^ 16
    → n ≡ span start last
    → (t' : T) × (freed : List RtpPacket) × (drop_loop h n start last t ≡ some (t', freed))
      × IsCleared T h n start t t'
unfolding drop_loop
drop_loop-IsCleared h zero start last t law hs hl hn =
    (t, [], ground arith, record { gone = λ k hk. absurd (omega arith); kept = λ j away. refl })
drop_loop-IsCleared h (suc n) start last t law hs hl hn = elim (Option-cases (h.get t start)) [
  | inl e ↦
      let (t', freed, run, c) =
        drop_loop-IsCleared h n (uint16_inc start) last t law (omega arith) hl (omega arith) in
      (
        t',
        freed,
        rw (more, e) run,
        step-IsCleared h n start t t t' hs (omega arith) e (λ j ne. refl) c,
      )
  | inr (p, e) ↦
      let (t', freed, run, c) =
        drop_loop-IsCleared h n (uint16_inc start) last (h.remove t start) law (omega arith) hl
          (omega arith) in
      (
        t',
        p ∷ freed,
        rw (more, e, run),
        step-IsCleared h n start t (h.remove t start) t' hs (omega arith) (law.removed t start)
            (λ j ne. law.remove_other t start j (λ q. ne (sym q))) c,
      )
]
  where
    more : (uint16_dec start == last) ≡ false
    more = ground arith

-- Dropping from one index to another, whatever lies between: it returns, the packets of that range are
-- gone and the others stay, and the head is behind the last index, with the timestamp that was given.
pub drop_buffer_data-IsCleared :
    {T : Type 0} (h : HashTable T) (b : JitterBuffer T) (start last next_timestamp : ℕ)
    → IsHashTable T h
    → start < 2 ^ 16
    → last < 2 ^ 16
    → (b' : JitterBuffer T) × (freed : List RtpPacket) × (drop_buffer_data h b start last
          next_timestamp
        ≡ some (b', freed))
      × IsCleared T h (span start last) start b.packets b'.packets
      × (b'.head_sequence_number ≡ (last + 1) % 2 ^ 16)
      × (b'.head_timestamp ≡ next_timestamp)
unfolding drop_buffer_data exit_sequence_number_overflow_check exit_timestamp_overflow_check
drop_buffer_data-IsCleared {T = T} h b start last next_timestamp law hs hl =
    let (t, freed, run, c) =
      drop_loop-IsCleared h (span start last) start last b.packets law hs hl refl in
    let moved : JitterBuffer T = record b {
      packets = t;
      head_timestamp = next_timestamp;
      head_sequence_number = uint16_inc last;
    } in
    let (same_packets, same_head, same_time) = exits moved in
    (
      (exit_sequence_number_overflow_check (exit_timestamp_overflow_check moved).1).1,
      freed,
      rw run,
      rw same_packets c,
      same_head,
      same_time,
    )
  where
    exits :
        (x : JitterBuffer T)
        → let y = (exit_sequence_number_overflow_check (exit_timestamp_overflow_check x).1).1 in
          (y.packets ≡ x.packets)
          × (y.head_sequence_number ≡ x.head_sequence_number)
          × (y.head_timestamp ≡ x.head_timestamp)
    exits x = ground arith

-- Dropping up to the index before the first one drops nothing.
pub drop_buffer_data_empty :
    {T : Type 0} (h : HashTable T) (b : JitterBuffer T) (start next_timestamp : ℕ)
    → start < 2 ^ 16
    → (b' : JitterBuffer T) × (drop_buffer_data h b start (uint16_dec start) next_timestamp
        ≡ some (b', []))
      × (b'.packets ≡ b.packets)
unfolding drop_buffer_data drop_loop exit_sequence_number_overflow_check
    exit_timestamp_overflow_check
drop_buffer_data_empty {T = T} h b start next_timestamp hs =
    let moved : JitterBuffer T = record b {
      head_timestamp = next_timestamp;
      head_sequence_number = uint16_inc (uint16_dec start);
    } in
    let none_left : span start (uint16_dec start) ≡ 0 = omega arith in
    let at_end : (uint16_dec start == uint16_dec start) ≡ true = ground arith in
    (
      (exit_sequence_number_overflow_check (exit_timestamp_overflow_check moved).1).1,
      rw (none_left, at_end) refl,
      ground arith,
    )
