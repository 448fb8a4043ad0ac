-- ===== src/JitterBuffer/Parse/Whole.antt =====
-- jitterBufferInternalParse returns, and every frame that it delivers is whole.
use mathlib.Core.Path.{subst}
use kvs_c.Base.{
  ℕ, zero, suc, ◌+◌, ◌%◌, ◌^◌, ◌<◌, ◌≡◌, refl, sym, ap, ap₂, ◌∙◌, Bool, true, false, ◌&&◌, Option,
  some, [], ◌∷◌, ◌++◌, arith, ltb, ◌==◌, Bool-cases, Option-cases, inl, inr,
}
use native.Mathlib.Decide.{dec_lt}
use kvs_c.Status.{Status, success, succeeded}
use kvs_c.Rtp.{RtpPacket}
use kvs_c.JitterBuffer.{JitterBuffer}
use kvs_c.JitterBuffer.Table.{HashTable, IsHashTable}
use kvs_c.JitterBuffer.Window.{IsWindow}
use kvs_c.JitterBuffer.Drop.{uint16_dec, uint16_inc, span, drop_buffer_data-IsCleared}
use kvs_c.JitterBuffer.Parse.{
  Event, ready, dropped, Handlers, Walk, more, leave, quit, walk_loop, walk_start, internal_parse,
  last_loop, close_calls, close_frame, earliest_of,
}
use kvs_c.JitterBuffer.Parse.Frames.{
  IsFrame, AllWhole, AllWhole-append, IsWalk, Seen, frame_total, entry_size, depay,
}
use kvs_c.JitterBuffer.Parse.Rounds.{Ends, walk_loop-Ends, restarted}

module _ {T : Type 0} (h : HashTable T) (hs : Handlers T) where
  -- The packets of a range are there, and this is the size of their data.
  record IsThere (t : T) (start n size : ℕ) : Type 0 where
    there : (k : ℕ) → k < n → (p : RtpPacket) × (h.get t ((start + k) % 2 ^ 16) ≡ some p)
    sum : size ≡ frame_total h (depay h hs) t start n

  -- What the walk over the last frame gives: when it ends behind the last packet, all are there.
  abbrev Closes : (start last : ℕ) (t : T) → Option (Status × ℕ × ℕ) → Type 0
  Closes start last t r =
      (status : Status) × (end : ℕ) × (size : ℕ) × (r ≡ some (status, end, size))
      × (succeeded status ≡ true
          → (uint16_dec end == last) ≡ true
          → IsThere t start (span start last) size)

  one_more :
      (n start index size : ℕ) (t : T) (p : RtpPacket)
      → index ≡ (start + n) % 2 ^ 16
      → h.get t index ≡ some p
      → IsThere t start n size
      → IsThere t start (suc n) ((size + (depay h hs p.payload p.payload_length).1) % 2 ^ 32)
  one_more n start index size t p hi e c = record {
    there = λ k hk. elim (dec_lt k n) [
      | yes lt ↦ c.there k lt
      | no ge ↦ (p, ap (h.get t) (omega (arith, hi)) ∙ e)
    ];
    sum =
        ap₂ (λ a b. (a + b) % 2 ^ 32) c.sum
          (ap (entry_size (depay h hs)) (sym (ap (h.get t) (sym hi) ∙ e)));
  }

  last_loop_lem :
      (f n start last index size : ℕ) (t : T) (q : RtpPacket)
      → h.get t last ≡ some q
      → start < 2 ^ 16
      → last < 2 ^ 16
      → index ≡ (start + n) % 2 ^ 16
      → n + f ≡ span start last
      → IsThere t start n size
      → Closes start last t (last_loop h hs f index last size t)
  unfolding last_loop
  last_loop_lem zero n start last index size t q there hs' hl hi hn c = (
    success,
    index,
    size,
    ground arith,
    λ a b. subst (λ k. IsThere t start k size) (omega (arith, hn)) c,
  )
  last_loop_lem (suc f) n start last index size t q there hs' hl hi hn c =
      elim (Option-cases (h.get t index)) [
        | inl e ↦ (
          success,
          uint16_inc index,
          size,
          rw (go_on, e) refl,
          λ a b.
              let back : uint16_dec (uint16_inc index) ≡ last = ground (arith, b) in
              let here : index ≡ last = omega (arith, back, hi, hl) in absurd (cc (here, e, there)),
        )
        | inr (p, e) ↦ elim (Bool-cases (succeeded (hs.depay_size p.payload p.payload_length).0)) [
          | inl ok ↦
              let (status, end, size', run, closes) =
                last_loop_lem f (suc n) start last (uint16_inc index)
                  ((size + (depay h hs p.payload p.payload_length).1) % 2 ^ 32) t q there hs' hl
                  (omega (arith, hi)) (omega (arith, hn))
                  (one_more n start index size t p hi e c) in
              (status, end, size', rw (go_on, e, ok) run, closes)
          | inr bad ↦ (
            (hs.depay_size p.payload p.payload_length).0,
            index,
            size,
            rw (go_on, e, bad) refl,
            λ a b. absurd (cc (a, bad)),
          )
        ]
      ]
    where
      go_on : (uint16_dec index == last) ≡ false
      go_on = ground arith

  -- What the end of a buffer that is closed gives: it returns, and its calls are whole.
  abbrev Returns : Option (Status × Walk T) → Type 0
  Returns r = (s : Status) × (w : Walk T) × (r ≡ some (s, w)) × AllWhole h (depay h hs) w.events

  close_calls-Returns :
      (m index size k : ℕ) (w : Walk T)
      → IsHashTable T h
      → IsWalk T h (depay h hs) m w
      → k < m
      → w.last_present ≡ (w.start_drop + k) % 2 ^ 16
      → ((uint16_dec index == w.last_present) ≡ true
          → IsThere w.buffer.packets w.start_drop (span w.start_drop w.last_present) size)
      → Returns (close_calls h hs index size w)
  unfolding close_calls
  close_calls-Returns m index size k w law v lt lp closes =
      let (b, freed, run, c, head, time) =
        drop_buffer_data-IsCleared h w.buffer w.start_drop w.last_present w.buffer.head_timestamp
          law v.start_fits (omega arith) in
      elim (Bool-cases (uint16_dec index == w.last_present)) [
        | inl whole ↦
            let kept =
              AllWhole-append h (depay h hs) w.events
                (ready w.start_drop w.last_present size w.buffer.packets) v.whole
                (w.buffer.head_timestamp, frame whole) in
            let called : Walk T = call (ready w.start_drop w.last_present size w.buffer.packets) in
            elim (Bool-cases
              (succeeded (hs.on_ready w.start_drop w.last_present size w.buffer.packets))) [
                | inl ok ↦ (
                  success,
                  record called { buffer = b; freed = w.freed ++ freed },
                  rw (whole, ok, run) refl,
                  kept,
                )
                | inr bad ↦ (
                  hs.on_ready w.start_drop w.last_present size w.buffer.packets,
                  called,
                  rw (whole, bad) refl,
                  kept,
                )
              ]
        | inr broken ↦
            let kept =
              AllWhole-append h (depay h hs) w.events
                (dropped w.start_drop (uint16_dec index) w.buffer.head_timestamp) v.whole tt in
            let called : Walk T =
              call (dropped w.start_drop (uint16_dec index) w.buffer.head_timestamp) in
            elim (Bool-cases
              (succeeded (hs.on_dropped w.start_drop (uint16_dec index) w.buffer.head_timestamp))) [
                | inl ok ↦ (
                  success,
                  record called { buffer = b; freed = w.freed ++ freed },
                  rw (broken, ok, run) refl,
                  kept,
                )
                | inr bad ↦ (
                  hs.on_dropped w.start_drop (uint16_dec index) w.buffer.head_timestamp,
                  called,
                  rw (broken, bad) refl,
                  kept,
                )
              ]
      ]
    where
      call : Event T → Walk T
      call e = record w { events = w.events ++ (e ∷ []) }

      frame :
          (uint16_dec index == w.last_present) ≡ true
          → IsFrame T h
              (depay h hs)
              w.buffer.packets
              w.start_drop
              (span w.start_drop w.last_present)
              w.buffer.head_timestamp
              size
      frame whole = record {
        present = λ j hj.
            let (p, e) = (closes whole).there j hj in
            (p, e, v.same j (omega (arith, lp, v.short, v.start_fits)) p e);
        total = (closes whole).sum;
      }

  close_frame-Returns :
      (m : ℕ) (w : Walk T)
      → IsHashTable T h
      → IsWalk T h (depay h hs) m w
      → Seen h m w
      → 0 < w.frame_size
      → Returns (close_frame h hs w)
  unfolding close_frame
  close_frame-Returns m w law v seen some_size =
      let (k, p, lt, lp, there) = seen some_size in
      let nothing : IsThere w.buffer.packets w.start_drop 0 0 = record {
        there = λ j hj. absurd (omega arith);
        sum = refl;
      } in
      let (status, end, size, run, closes) =
        last_loop_lem (span w.start_drop w.last_present) 0 w.start_drop w.last_present w.start_drop
          0 w.buffer.packets p there v.start_fits (omega arith) (omega (arith, v.start_fits))
          (omega arith) nothing in
      elim (Bool-cases (succeeded status)) [
        | inl ok ↦ rw (run, ok) (close_calls-Returns m end size k w law v lt lp (closes ok))
        | inr bad ↦ (status, w, rw (run, bad) refl, v.whole)
      ]

  -- The walk of a buffer with a window returns within its fuel, open or closed. Every frame that it
  -- gives to onFrameReadyFn is whole: all packets from its first to its last sequence number are in the
  -- table, they have one timestamp, and the size is the sum of what the depayloader gives, in UINT32.
  pub internal_parse-AllWhole :
      (closed : Bool) (b : JitterBuffer T)
      → IsHashTable T h
      → IsWindow T b
      → (s : Status) × (w : Walk T) × (internal_parse h hs closed b ≡ some (s, w))
        × AllWhole h hs.depay_size w.events
  unfolding internal_parse
  internal_parse-AllWhole closed b law win = elim (Bool-cases (b.tail_timestamp == 0)) [
    | inl empty ↦ (success, walk_start h hs b, rw empty refl, tt)
    | inr filled ↦
        let start = restarted h hs (walk_start h hs b) win.head_fits refl refl tt in
        let ends =
          walk_loop-Ends h hs closed (earliest_of h hs b)
            (span b.head_sequence_number b.tail_sequence_number) (uint16_inc b.tail_sequence_number)
            0 (walk_start h hs b) law start (λ p. absurd (omega arith)) (omega arith) (omega arith)
            (omega (arith, win.head_fits, win.tail_fits)) in
        finish filled ends
  ]
    where
      finish :
          (b.tail_timestamp == 0) ≡ false
          → Ends h hs closed (
              walk_loop h hs closed
                (earliest_of h hs b)
                (span b.head_sequence_number b.tail_sequence_number)
                (uint16_inc b.tail_sequence_number)
                (walk_start h hs b))
          → Returns (internal_parse h hs closed b)
      finish filled (more w, run, out) = absurd out
      finish filled (leave w, run, (whole, ending)) =
          elim (Bool-cases (closed && ltb 0 w.frame_size)) [
            | inl close ↦
                let (m, v, seen) = ending (ground arith) in
                rw (filled, run, close) (close_frame-Returns m w law v seen (ground arith))
            | inr stays ↦ (success, w, rw (filled, run, stays) refl, whole)
          ]
      finish filled (quit s w, run, whole) = (s, w, rw (filled, run) refl, whole)
