-- ===== src/JitterBuffer/Parse/Frames.antt =====
-- The frames that the walk delivers are whole: every sequence number has its packet.
use kvs_c.Base.{
  ℕ, zero, suc, ◌+◌, ◌%◌, ◌^◌, ◌<◌, ◌≡◌, refl, sym, ap, ap₂, ◌∙◌, Bool, true, false, ◌&&◌, ◌||◌,
  Option, none, some, List, [], ◌∷◌, ◌++◌, arith, ltb, ◌==◌, Bool-cases, inl, inr,
}
use native.Mathlib.Decide.{dec_lt}
use kvs_c.Status.{succeeded}
use kvs_c.Rtp.{RtpPacket}
use kvs_c.JitterBuffer.Table.{HashTable, IsHashTable}
use kvs_c.JitterBuffer.Drop.{uint16_dec, uint16_inc, span, drop_buffer_data-IsCleared}
use kvs_c.JitterBuffer.Parse.{
  DepaySize, Event, ready, dropped, Handlers, Walk, Outcome, more, leave, quit, drop_frame,
  count_packet, at_gap,
}

-- The size that the depayloader gives for an entry of the table.
abbrev pub entry_size : DepaySize → Option RtpPacket → ℕ
entry_size depay none = 0
entry_size depay (some p) = (depay p.payload p.payload_length).1

-- The size of the data of `n` packets from a sequence number on, in UINT32.
abbrev pub frame_total : {T : Type 0} → HashTable T → DepaySize → T → (start n : ℕ) → ℕ
frame_total h depay t start zero = 0
frame_total h depay t start (suc n) =
    (frame_total h depay t start n + entry_size depay (h.get t ((start + n) % 2 ^ 16))) % 2 ^ 32

-- `n` packets from a sequence number on, all there and of one timestamp, with the size of their data.
pub record IsFrame (T : Type 0) (h : HashTable T) (depay : DepaySize) (t : T)
    (start n timestamp size : ℕ) : Type 0 where
  pub present :
      (k : ℕ)
      → k < n
      → (p : RtpPacket) × (h.get t ((start + k) % 2 ^ 16) ≡ some p)
        × (p.header.timestamp ≡ timestamp)
  pub total : size ≡ frame_total h depay t start n

-- What is true of a call: a frame that is delivered is whole.
abbrev pub IsWhole : {T : Type 0} → HashTable T → DepaySize → Event T → Type 0
IsWhole {T} h depay (ready start last size t) =
    (timestamp : ℕ) × IsFrame T h depay t start (span start last) timestamp size
IsWhole h depay (dropped start last timestamp) = Unit

abbrev pub AllWhole : {T : Type 0} → HashTable T → DepaySize → List (Event T) → Type 0
AllWhole h depay [] = Unit
AllWhole h depay (e ∷ es) = IsWhole h depay e × AllWhole h depay es

pub AllWhole-append :
    {T : Type 0} (h : HashTable T) (depay : DepaySize) (es : List (Event T)) (e : Event T)
    → AllWhole h depay es
    → IsWhole h depay e
    → AllWhole h depay (es ++ (e ∷ []))
AllWhole-append h depay [] e hes he = (he, tt)
AllWhole-append h depay (x ∷ es) e (hx, hes) he = (hx, AllWhole-append h depay es e hes he)

-- The walk is `n` indices behind the start of the frame, whose packets so far are those of one frame.
pub record IsWalk (T : Type 0) (h : HashTable T) (depay : DepaySize) (n : ℕ) (w : Walk T)
    : Type 0 where
  pub start_fits : w.start_drop < 2 ^ 16
  pub short : n < 2 ^ 16
  pub reached : w.index ≡ (w.start_drop + n) % 2 ^ 16
  pub frame :
      w.continuous ≡ true
      → IsFrame T h depay w.buffer.packets w.start_drop n w.buffer.head_timestamp w.frame_size
  pub same :
      (k : ℕ)
      → k < n
      → (p : RtpPacket) → h.get w.buffer.packets ((w.start_drop + k) % 2 ^ 16) ≡ some p
      → p.header.timestamp ≡ w.buffer.head_timestamp
  pub whole : AllWhole h depay w.events

-- The last packet that was seen belongs to the frame when there is data of it.
abbrev pub Seen : {T : Type 0} → HashTable T → ℕ → Walk T → Type 0
Seen h n w =
    0 < w.frame_size
    → (m : ℕ) × (p : RtpPacket) × (m < n)
      × (w.last_present ≡ (w.start_drop + m) % 2 ^ 16)
      × (h.get w.buffer.packets w.last_present ≡ some p)

-- What holds however a round ends.
abbrev pub IsOutcome :
    {T : Type 0} → HashTable T → DepaySize → (closed : Bool) → ℕ → Outcome T → Type 0
IsOutcome {T} h depay closed n (more w) = IsWalk T h depay n w × Seen h n w
IsOutcome {T} h depay closed n (leave w) =
    AllWhole h depay w.events × (closed ≡ true → (m : ℕ) × IsWalk T h depay m w × Seen h m w)
IsOutcome h depay closed n (quit status w) = AllWhole h depay w.events

module _ {T : Type 0} (h : HashTable T) (hs : Handlers T) where
  abbrev pub depay : DepaySize
  depay = hs.depay_size

  -- A packet of the frame's timestamp extends the frame.
  pub count_packet-IsOutcome :
      (closed : Bool) (n : ℕ) (p : RtpPacket) (w : Walk T)
      → IsWalk T h depay n w
      → suc n < 2 ^ 16
      → h.get w.buffer.packets w.index ≡ some p
      → p.header.timestamp ≡ w.buffer.head_timestamp
      → w.last_present ≡ w.index
      → IsOutcome h depay closed (suc n) (count_packet h hs p w)
  unfolding count_packet
  count_packet-IsOutcome closed n p w v hn e ts lp =
      elim (Bool-cases (succeeded (hs.depay_size p.payload p.payload_length).0)) [
        | inl ok ↦ rw ok (counted, λ some_size. (n, p, omega arith, lp ∙ v.reached, rw lp e))
        | inr bad ↦ rw bad v.whole
      ]
    where
      at_end :
          (k : ℕ)
          → k < suc n
          → ¬ (k < n)
          → h.get w.buffer.packets ((w.start_drop + k) % 2 ^ 16) ≡ some p
      at_end k hk ge = ap (h.get w.buffer.packets) (omega (arith, v.reached)) ∙ e

      extended :
          IsFrame T h depay w.buffer.packets w.start_drop n w.buffer.head_timestamp w.frame_size
          → IsFrame T h depay w.buffer.packets w.start_drop
              (suc n)
              w.buffer.head_timestamp
              ((w.frame_size + (depay p.payload p.payload_length).1) % 2 ^ 32)
      extended f = record {
        present =
            λ k hk. elim (dec_lt k n) [ yes lt ↦ f.present k lt | no ge ↦ (p, at_end k hk ge, ts) ];
        total =
            ap₂ (λ a b. (a + b) % 2 ^ 32) f.total
              (ap (entry_size depay) (sym (at_end n (omega arith) (omega arith))));
      }

      counted : IsWalk T h depay (suc n) (record w {
        frame_size = (w.frame_size + (hs.depay_size p.payload p.payload_length).1) % 2 ^ 32;
        contains_start =
            w.contains_start
            || ((hs.depay_size p.payload p.payload_length).2
                && (w.buffer.head_timestamp == p.header.timestamp));
        index = uint16_inc w.index;
      })
      counted = record {
        start_fits = v.start_fits;
        short = hn;
        reached = omega (arith, v.reached);
        frame = λ c. extended (v.frame c);
        same = λ k hk q eq. elim (dec_lt k n) [
          | yes lt ↦ v.same k lt q eq
          | no ge ↦ let both = at_end k hk ge in cc
        ];
        whole = v.whole;
      }

  -- A gap is passed when the frame is too old or the buffer closes; the frame is not continuous then.
  pub at_gap-IsOutcome :
      (closed : Bool) (earliest n : ℕ) (w : Walk T)
      → IsWalk T h depay n w
      → Seen h n w
      → suc n < 2 ^ 16
      → h.get w.buffer.packets w.index ≡ none
      → IsOutcome h depay closed (suc n) (at_gap h hs closed earliest w)
  unfolding at_gap
  at_gap-IsOutcome closed earliest n w v seen hn e =
      elim (Bool-cases (ltb w.buffer.head_timestamp earliest || closed)) [
        | inl stale ↦ rw stale (
          passed,
          λ some_size. let (m, p, lt, q, there) = seen some_size in (m, p, omega arith, q, there),
        )
        | inr fresh ↦ rw fresh v.whole
      ]
    where
      passed :
          IsWalk T h depay (suc n) (record w { continuous = false; index = uint16_inc w.index })
      passed = record {
        start_fits = v.start_fits;
        short = hn;
        reached = omega (arith, v.reached);
        frame = λ c. absurd (cc c);
        same = λ k hk q eq. elim (dec_lt k n) [
          | yes lt ↦ v.same k lt q eq
          | no ge ↦
              let there : h.get w.buffer.packets ((w.start_drop + k) % 2 ^ 16) ≡ none =
                ap (h.get w.buffer.packets) (omega (arith, v.reached)) ∙ e in
              cc
        ];
        whole = v.whole;
      }

  -- What dropping the frame before an index leaves.
  pub drop_frame_lem :
      (timestamp n : ℕ) (w : Walk T)
      → IsHashTable T h
      → IsWalk T h depay n w
      → (w' : Walk T) × (drop_frame h hs timestamp w ≡ some w')
        × (w'.index ≡ w.index)
        × (w'.start_drop ≡ w.index)
        × (w'.events ≡ w.events)
        × (w'.last_present ≡ w.last_present)
        × (w'.buffer.head_timestamp ≡ timestamp)
        × (h.get w'.buffer.packets w.index ≡ h.get w.buffer.packets w.index)
  unfolding drop_frame
  drop_frame_lem timestamp n w law v =
      let (b, freed, e, c, head, time) =
        drop_buffer_data-IsCleared h w.buffer w.start_drop (uint16_dec w.index) timestamp law
          v.start_fits (omega arith) in
      (
        record w {
          buffer = record b { first_frame_processed = true };
          start_drop = w.index;
          freed = w.freed ++ freed;
        },
        rw e,
        refl,
        refl,
        refl,
        refl,
        time,
        c.kept w.index (λ k hk. omega (arith, v.reached, v.short, v.start_fits)),
      )
