-- ===== src/JitterBuffer/Parse/Rounds.antt =====
-- The walk of jitterBufferInternalParse ends and delivers whole frames only.
use kvs_c.Base.{
  ℕ, zero, suc, ◌+◌, ◌-◌, ◌%◌, ◌^◌, ◌≤◌, ◌<◌, ◌≡◌, refl, sym, ◌∙◌, Bool, true, false, ◌&&◌, ◌||◌,
  Option, some, [], ◌∷◌, ◌++◌, arith, ltb, ◌==◌, Bool-cases, Option-cases, inl, inr,
}
use mathlib.Core.Path.{subst}
use kvs_c.Status.{succeeded}
use kvs_c.Rtp.{RtpPacket}
use kvs_c.JitterBuffer.Table.{HashTable, IsHashTable}
use kvs_c.JitterBuffer.Drop.{uint16_dec, uint16_inc, span}
use kvs_c.JitterBuffer.Parse.{
  Event, ready, dropped, Handlers, Walk, Outcome, more, leave, quit, settle_frame, count_packet,
  at_packet, at_gap, walk_round, walk_loop,
}
use kvs_c.JitterBuffer.Parse.Frames.{
  IsFrame, IsWhole, AllWhole, AllWhole-append, IsWalk, Seen, IsOutcome, depay,
  count_packet-IsOutcome, at_gap-IsOutcome, drop_frame_lem,
}

module _ {T : Type 0} (h : HashTable T) (hs : Handlers T) where
  -- What holds when the frame before a packet is settled: the packet starts the next one.
  abbrev IsSettled : (closed : Bool) → RtpPacket → ℕ → Outcome T → Type 0
  IsSettled closed p lp (more w) =
      IsWalk T h (depay h hs) 0 w
      × (h.get w.buffer.packets w.index ≡ some p)
      × (p.header.timestamp ≡ w.buffer.head_timestamp)
      × (w.last_present ≡ w.index)
      × (w.index ≡ lp)
  IsSettled closed p lp (leave w) = IsOutcome h (depay h hs) closed 0 (leave w)
  IsSettled closed p lp (quit status w) = AllWhole h (depay h hs) w.events

  -- A walk that starts its frame here.
  pub restarted :
      (w : Walk T)
      → w.index < 2 ^ 16
      → w.start_drop ≡ w.index
      → w.frame_size ≡ 0
      → AllWhole h (depay h hs) w.events
      → IsWalk T h (depay h hs) 0 w
  restarted w hi e z whole = record {
    start_fits = omega arith;
    short = omega arith;
    reached = omega arith;
    frame = λ c. record { present = λ k hk. absurd (omega arith); total = z };
    same = λ k hk q eq. absurd (omega arith);
    whole = whole;
  }

  settle_frame-IsSettled :
      (closed : Bool) (earliest n : ℕ) (p : RtpPacket) (w : Walk T)
      → IsHashTable T h
      → IsWalk T h (depay h hs) n w
      → h.get w.buffer.packets w.index ≡ some p
      → w.last_present ≡ w.index
      → (o : Outcome T) × (settle_frame h hs closed earliest p.header.timestamp w ≡ some o)
        × IsSettled closed p w.index o
  unfolding settle_frame
  settle_frame-IsSettled closed earliest n p w law v e lp =
      elim (Bool-cases (w.contains_start && w.continuous)) [
        | inl complete ↦
            let ok : IsWhole h (depay h hs)
                (ready w.start_drop (uint16_dec w.index) w.frame_size w.buffer.packets) =
              (w.buffer.head_timestamp, frame_ready (ground arith)) in
            let called =
              with_event (ready w.start_drop (uint16_dec w.index) w.frame_size w.buffer.packets)
                ok in
            elim (Bool-cases (
              succeeded
                (hs.on_ready w.start_drop (uint16_dec w.index) w.frame_size w.buffer.packets))) [
                  | inl accepted ↦
                      let (w', run, i, s, es, l, ts, kept) =
                        drop_frame_lem h hs p.header.timestamp n
                          (call
                            (ready w.start_drop (uint16_dec w.index) w.frame_size w.buffer.packets))
                          law called in
                      let next : Walk T = record w' { contains_start = false; frame_size = 0 } in
                      (
                        more next,
                        rw (complete, accepted, run),
                        (
                          restarted next (rw i (omega (arith, v.reached))) (s ∙ sym i) refl
                              (rw es called.whole),
                          rw i (kept ∙ e),
                          sym ts,
                          l ∙ lp ∙ sym i,
                          i,
                        ),
                      )
                  | inr refused ↦ (
                    quit
                        (hs.on_ready w.start_drop (uint16_dec w.index) w.frame_size
                          w.buffer.packets)
                        (call
                          (ready w.start_drop (uint16_dec w.index) w.frame_size w.buffer.packets)),
                    rw (complete, refused),
                    called.whole,
                  )
                ]
        | inr incomplete ↦ elim (Bool-cases (ltb w.buffer.head_timestamp earliest || closed)) [
          | inl stale ↦
              let called =
                with_event (dropped w.start_drop (uint16_dec w.index) w.buffer.head_timestamp) tt in
              let (w', run, i, s, es, l, ts, kept) =
                drop_frame_lem h hs p.header.timestamp n
                  (call (dropped w.start_drop (uint16_dec w.index) w.buffer.head_timestamp)) law
                  called in
              let next : Walk T = record w' { continuous = true; frame_size = 0 } in
              (
                more next,
                rw (incomplete, stale, run),
                (
                  restarted next (rw i (omega (arith, v.reached))) (s ∙ sym i) refl
                      (rw es called.whole),
                  rw i (kept ∙ e),
                  sym ts,
                  l ∙ lp ∙ sym i,
                  i,
                ),
              )
          | inr fresh ↦ (leave w, rw (incomplete, fresh), (v.whole, λ c. absurd (ground arith)))
        ]
      ]
    where
      call : Event T → Walk T
      call e = record w { events = w.events ++ (e ∷ []) }

      frame_ready :
          w.continuous ≡ true
          → IsFrame T h
              (depay h hs)
              w.buffer.packets
              w.start_drop
              (span w.start_drop (uint16_dec w.index))
              w.buffer.head_timestamp
              w.frame_size
      frame_ready c =
          let far : n ≡ span w.start_drop (uint16_dec w.index) =
            omega (arith, v.reached, v.short, v.start_fits) in
          subst
            (λ k.
              IsFrame T h (depay h hs) w.buffer.packets w.start_drop k w.buffer.head_timestamp
                w.frame_size)
            far (v.frame c)

      with_event : (e : Event T) → IsWhole h (depay h hs) e → IsWalk T h (depay h hs) n (call e)
      with_event e he = record {
        start_fits = v.start_fits;
        short = v.short;
        reached = v.reached;
        frame = v.frame;
        same = v.same;
        whole = AllWhole-append h (depay h hs) w.events e v.whole he;
      }

  -- A round that goes on goes to the next index.
  abbrev IsNext : ℕ → Outcome T → Type 0
  IsNext index (more w) = w.index ≡ uint16_inc index
  IsNext index (leave w) = Unit
  IsNext index (quit status w) = Unit

  count_packet-IsNext : (p : RtpPacket) (w : Walk T) → IsNext w.index (count_packet h hs p w)
  unfolding count_packet
  count_packet-IsNext p w =
      elim (Bool-cases (succeeded (hs.depay_size p.payload p.payload_length).0)) [
        | inl ok ↦ rw ok refl
        | inr bad ↦ rw bad tt
      ]

  at_gap-IsNext :
      (closed : Bool) (earliest : ℕ) (w : Walk T) → IsNext w.index (at_gap h hs closed earliest w)
  unfolding at_gap
  at_gap-IsNext closed earliest w =
      elim (Bool-cases (ltb w.buffer.head_timestamp earliest || closed)) [
        | inl stale ↦ rw stale refl
        | inr fresh ↦ rw fresh tt
      ]

  -- What a round gives: it returns, goes to the next index if it goes on, and its calls are whole.
  abbrev Advances : (closed : Bool) (n index : ℕ) → Option (Outcome T) → Type 0
  Advances closed n index r =
      (o : Outcome T) × (m : ℕ) × (r ≡ some o)
      × (m ≤ suc n)
      × IsNext index o
      × IsOutcome h (depay h hs) closed m o

  -- A round at a packet, whichever frame it belongs to.
  at_packet-IsOutcome :
      (closed : Bool) (earliest n : ℕ) (p : RtpPacket) (w : Walk T)
      → IsHashTable T h
      → IsWalk T h (depay h hs) n w
      → suc n < 2 ^ 16
      → h.get w.buffer.packets w.index ≡ some p
      → w.last_present ≡ w.index
      → Advances closed n w.index (at_packet h hs closed earliest p w)
  unfolding at_packet
  at_packet-IsOutcome closed earliest n p w law v hn e lp =
      elim (Bool-cases (p.header.timestamp == w.buffer.head_timestamp)) [
        | inl same ↦ (
          count_packet h hs p w,
          suc n,
          rw same,
          omega arith,
          count_packet-IsNext p w,
          count_packet-IsOutcome h hs closed n p w v hn e (ground arith) lp,
        )
        | inr other ↦ finish (settle_frame-IsSettled closed earliest n p w law v e lp) other
      ]
    where
      finish :
          (o : Outcome T) × (settle_frame h hs closed earliest p.header.timestamp w ≡ some o)
            × IsSettled closed p w.index o
          → (p.header.timestamp == w.buffer.head_timestamp) ≡ false
          → Advances closed n w.index (at_packet h hs closed earliest p w)
      finish (more w', run, (v', e', ts, l, i)) other = (
        count_packet h hs p w',
        1,
        rw (other, run),
        omega arith,
        rw (← i) (count_packet-IsNext p w'),
        count_packet-IsOutcome h hs closed 0 p w' v' (omega arith) e' ts l,
      )
      finish (leave w', run, out) other = (leave w', 0, rw (other, run), omega arith, tt, out)
      finish (quit s w', run, whole) other = (quit s w', 0, rw (other, run), omega arith, tt, whole)

  walk_round-IsOutcome :
      (closed : Bool) (earliest n : ℕ) (w : Walk T)
      → IsHashTable T h
      → IsWalk T h (depay h hs) n w
      → Seen h n w
      → suc n < 2 ^ 16
      → Advances closed n w.index (walk_round h hs closed earliest w)
  unfolding walk_round
  walk_round-IsOutcome closed earliest n w law v seen hn =
      elim (Option-cases (h.get w.buffer.packets w.index)) [
        | inl e ↦ (
          at_gap h hs closed earliest w,
          suc n,
          rw (e, walk_round),
          omega arith,
          at_gap-IsNext closed earliest w,
          at_gap-IsOutcome h hs closed earliest n w v seen hn e,
        )
        | inr (p, e) ↦
            let (o, m, run, le, next, out) =
              at_packet-IsOutcome closed earliest n p (record w { last_present = w.index }) law
                marked hn e refl in
            (o, m, rw (e, walk_round) run, le, next, out)
      ]
    where
      marked : IsWalk T h (depay h hs) n (record w { last_present = w.index })
      marked = record {
        start_fits = v.start_fits;
        short = v.short;
        reached = v.reached;
        frame = v.frame;
        same = v.same;
        whole = v.whole;
      }

  -- How the loop ends.
  abbrev pub IsEnd : (closed : Bool) → Outcome T → Type 0
  IsEnd closed (more w) = ⊥
  IsEnd closed (leave w) = IsOutcome h (depay h hs) closed 0 (leave w)
  IsEnd closed (quit status w) = AllWhole h (depay h hs) w.events

  -- What the loop gives: it ends, and its calls are whole.
  abbrev pub Ends : (closed : Bool) → Option (Outcome T) → Type 0
  Ends closed r = (o : Outcome T) × (r ≡ some o) × IsEnd closed o

  -- The loop from a round on.
  walk_continue :
      (closed : Bool) (earliest fuel last n : ℕ) (w : Walk T)
      → Advances closed n w.index (walk_round h hs closed earliest w)
      → (w.index == last) ≡ false
      → ((m : ℕ) (w' : Walk T)
          → m ≤ suc n
          → IsWalk T h (depay h hs) m w'
          → Seen h m w'
          → w'.index ≡ uint16_inc w.index
          → Ends closed (walk_loop h hs closed earliest fuel last w'))
      → Ends closed (walk_loop h hs closed earliest (suc fuel) last w)
  unfolding walk_loop
  walk_continue closed earliest fuel last n w (more w', m, run, le, next, (v, seen)) go_on ih =
      let (o, e, out) = ih m w' le v seen next in (o, rw (go_on, run) e, out)
  walk_continue closed earliest fuel last n w (leave w', m, run, le, next, out) go_on ih =
      (leave w', rw (go_on, run), out)
  walk_continue closed earliest fuel last n w (quit s w', m, run, le, next, out) go_on ih =
      (quit s w', rw (go_on, run), out)

  -- With as much fuel as there are indices left the walk ends, and what it called is whole.
  pub walk_loop-Ends :
      (closed : Bool) (earliest fuel last n : ℕ) (w : Walk T)
      → IsHashTable T h
      → IsWalk T h (depay h hs) n w
      → Seen h n w
      → n + fuel < 2 ^ 16
      → last < 2 ^ 16
      → fuel ≡ (last + 2 ^ 16 - w.index) % 2 ^ 16
      → Ends closed (walk_loop h hs closed earliest fuel last w)
  unfolding walk_loop
  walk_loop-Ends closed earliest zero last n w law v seen hn hl hf =
      let here : w.index ≡ last = omega (arith, v.reached) in
      (leave w, ground arith, (v.whole, λ c. (n, v, seen)))
  walk_loop-Ends closed earliest (suc fuel) last n w law v seen hn hl hf =
      walk_continue closed earliest fuel last n w
        (walk_round-IsOutcome closed earliest n w law v seen (omega arith)) (ground arith)
        (λ m w' le v' seen' next.
          walk_loop-Ends closed earliest fuel last m w' law v' seen' (omega arith) hl
            (omega (arith, v.reached, next)))
