-- ===== src/JitterBuffer/Window.antt =====
-- The window of sequence numbers that the checks of JitterBuffer.c keep.
use kvs_c.Base.{
  ◌+◌, ◌^◌, ◌≤◌, ◌<◌, ◌≡◌, Bool, true, false, ◌&&◌, arith, ltb, Bool-cases, inl, inr, if◌then◌else◌,
}
use kvs_c.Rtp.{RtpPacket}
use kvs_c.JitterBuffer.{
  JitterBuffer, head_checking_allowed, head_sequence_number_check, tail_sequence_number_check,
  enter_sequence_number_overflow_check, enter_timestamp_overflow_check, head_timestamp_check,
  tail_timestamp_check, within_latency_tolerance,
}
use kvs_c.JitterBuffer.Push.{start_window, move_tail, move_head, take_out, store_packet, admit}
use kvs_c.JitterBuffer.Table.{HashTable}
use kvs_c.Status.{succeeded}

-- The fields fit their types, and outside the overflow state the head is at most behind the tail.
pub record IsWindow (T : Type 0) (b : JitterBuffer T) : Type 0 where
  pub head_fits : b.head_sequence_number < 2 ^ 16
  pub tail_fits : b.tail_sequence_number < 2 ^ 16
  pub head_time_fits : b.head_timestamp < 2 ^ 32
  pub tail_time_fits : b.tail_timestamp < 2 ^ 32
  pub ordered :
      b.sequence_number_overflow_state ≡ false → b.head_sequence_number ≤ b.tail_sequence_number + 1

-- The two fields of the packet that the checks read fit their types.
abbrev pub HeaderFits : RtpPacket → Type 0
HeaderFits p = (p.header.sequence_number < 2 ^ 16) × (p.header.timestamp < 2 ^ 32)

-- The three tests of the check of the timestamps, with the buffers that they choose between.
settled-IsWindow :
    {T : Type 0} (c1 c2 c3 at_tail at_head : Bool) (b x y x' y' : JitterBuffer T)
    → IsWindow T b
    → IsWindow T x
    → IsWindow T y
    → IsWindow T x'
    → IsWindow T y'
    → let r : Bool × JitterBuffer T =
        if c1
        then (false, b)
        else if c2
        then (if at_tail then (true, x') else (false, x))
        else if c3
        then (if at_head then (true, y') else (false, y))
        else (false, b) in
      IsWindow T r.1
settled-IsWindow true c2 c3 at_tail at_head b x y x' y' hb hx hy hx' hy' = hb
settled-IsWindow false true c3 true at_head b x y x' y' hb hx hy hx' hy' = hx'
settled-IsWindow false true c3 false at_head b x y x' y' hb hx hy hx' hy' = hx
settled-IsWindow false false true at_tail true b x y x' y' hb hx hy hx' hy' = hy'
settled-IsWindow false false true at_tail false b x y x' y' hb hx hy hx' hy' = hy
settled-IsWindow false false false at_tail at_head b x y x' y' hb hx hy hx' hy' = hb

module _ {T : Type 0} (b : JitterBuffer T) (p : RtpPacket) (hb : IsWindow T b)
    (hp : HeaderFits p) where
  start_window-IsWindow : IsWindow T (start_window b p)
  unfolding start_window
  start_window-IsWindow = ground (arith, hb, hp)

  head_sequence_number_check-IsWindow : IsWindow T (head_sequence_number_check b p).1
  unfolding head_sequence_number_check
  head_sequence_number_check-IsWindow = ground (arith, hb, hp)

  tail_sequence_number_check-IsWindow : IsWindow T (tail_sequence_number_check b p).1
  unfolding tail_sequence_number_check
  tail_sequence_number_check-IsWindow = ground (arith, hb, hp)

  enter_sequence_number_overflow_check-IsWindow :
      IsWindow T (enter_sequence_number_overflow_check b p).1
  unfolding enter_sequence_number_overflow_check
  enter_sequence_number_overflow_check-IsWindow = ground (arith, hb, hp)

  enter_timestamp_overflow_check-IsWindow : IsWindow T (enter_timestamp_overflow_check b p).1
  unfolding enter_timestamp_overflow_check
  enter_timestamp_overflow_check-IsWindow =
      settled-IsWindow b.timestamp_over_flow_state
        (ltb p.header.timestamp b.head_timestamp && ltb p.header.timestamp b.tail_timestamp)
        (ltb b.head_timestamp p.header.timestamp && ltb b.tail_timestamp p.header.timestamp)
        (tail_sequence_number_check b p).0 (head_sequence_number_check b p).0 b
        (tail_sequence_number_check b p).1 (head_sequence_number_check b p).1 _ _ hb
        tail_sequence_number_check-IsWindow head_sequence_number_check-IsWindow
        (overflowed _ tail_sequence_number_check-IsWindow)
        (underflowed _ head_sequence_number_check-IsWindow)
    where
      overflowed :
          (b' : JitterBuffer T)
          → IsWindow T b'
          → IsWindow T
              (record b' { timestamp_over_flow_state = true; tail_timestamp = p.header.timestamp })
      overflowed b' h = ground (arith, hp)

      underflowed :
          (b' : JitterBuffer T)
          → IsWindow T b'
          → IsWindow T
              (record b' { timestamp_over_flow_state = true; head_timestamp = p.header.timestamp })
      underflowed b' h = ground (arith, hp)

  head_timestamp_check-IsWindow : IsWindow T (head_timestamp_check b p).1
  unfolding head_timestamp_check
  head_timestamp_check-IsWindow = ground (arith, hb, hp, head_sequence_number_check-IsWindow)

  tail_timestamp_check-IsWindow : IsWindow T (tail_timestamp_check b p).1
  unfolding tail_timestamp_check
  tail_timestamp_check-IsWindow = ground (arith, hb, hp, tail_sequence_number_check-IsWindow)

  within_latency_tolerance-IsWindow : IsWindow T (within_latency_tolerance b p).1
  unfolding within_latency_tolerance
  within_latency_tolerance-IsWindow = ground (arith, hb, hp, tail_timestamp_check-IsWindow)

-- The checks of a push keep the window: the fields fit their types, and outside the overflow state the
-- head is at most one behind the tail.
module _ {T : Type 0} (b : JitterBuffer T) (p : RtpPacket) (hb : IsWindow T b)
    (hp : HeaderFits p) where
  tail_step :
      (c : Bool)
      → (x y : JitterBuffer T) → IsWindow T x
      → IsWindow T y
      → IsWindow T (if c then x else y)
  tail_step true x y hx hy = hx
  tail_step false x y hx hy = hy

  pub move_tail-IsWindow : IsWindow T (move_tail b p)
  unfolding move_tail
  move_tail-IsWindow =
      let h1 = enter_sequence_number_overflow_check-IsWindow b p hb hp in
      let h2 =
        tail_step (enter_sequence_number_overflow_check b p).0 _ _ h1
          (tail_sequence_number_check-IsWindow _ p h1 hp) in
      let h3 = enter_timestamp_overflow_check-IsWindow _ p h2 hp in
      tail_step (enter_timestamp_overflow_check _ p).0 _ _ h3
        (tail_timestamp_check-IsWindow _ p h3 hp)

  pub move_head-IsWindow : IsWindow T (move_head b p)
  unfolding move_head
  move_head-IsWindow =
      tail_step (head_checking_allowed b p) _ _
        (head_sequence_number_check-IsWindow _ p (head_timestamp_check-IsWindow b p hb hp) hp) hb

-- The packets of a buffer do not matter to its window.
packets-IsWindow :
    {T : Type 0} (b : JitterBuffer T) (t : T) → IsWindow T b → IsWindow T (record b { packets = t })
packets-IsWindow b t hb = ground (arith, hb)

store_packet-IsWindow :
    {T : Type 0} (h : HashTable T) (b : JitterBuffer T) (p : RtpPacket)
    → IsWindow T b
    → HeaderFits p
    → IsWindow T (store_packet h b p).buffer
unfolding store_packet
store_packet-IsWindow h b p hb hp =
    let out = take_out h b.packets p.header.sequence_number in
    let put = h.put out.1 p.header.sequence_number p in
    let with_packet = packets-IsWindow b put.1 hb in
    let headed = move_head-IsWindow (record b { packets = put.1 }) p with_packet hp in
    elim (Bool-cases (succeeded put.0)) [ inl e ↦ rw e headed | inr e ↦ rw e with_packet ]

-- What jitterBufferPush does up to its call of the parser keeps the window, whether the packet is kept,
-- replaces another one, or is discarded: the fields fit their types, and outside the overflow state the head
-- is at most one behind the tail.
pub admit-IsWindow :
    {T : Type 0} (h : HashTable T) (b : JitterBuffer T) (p : RtpPacket)
    → IsWindow T b
    → HeaderFits p
    → IsWindow T (admit h b p).buffer
unfolding admit
admit-IsWindow h b p hb hp =
    let started = start_window-IsWindow b p hb hp in
    let tailed = move_tail-IsWindow (start_window b p) p started hp in
    let inside = within_latency_tolerance-IsWindow (move_tail (start_window b p) p) p tailed hp in
    elim (Bool-cases (within_latency_tolerance (move_tail (start_window b p) p) p).0) [
      | inl e ↦ rw e (store_packet-IsWindow h _ p inside hp)
      | inr e ↦ rw e inside
    ]

-- A packet that is taken for the head moves the head to its sequence number, which is at most 512 in
-- front of it, and leaves the tail alone.
head_sequence_number_check-near :
    {T : Type 0} (b : JitterBuffer T) (p : RtpPacket)
    → (head_sequence_number_check b p).0 ≡ true
    → let b' = (head_sequence_number_check b p).1 in
      (b'.head_sequence_number ≡ p.header.sequence_number)
      × (b'.head_sequence_number ≤ b.head_sequence_number)
      × (b.head_sequence_number ≤ b'.head_sequence_number + 512)
      × (b'.tail_sequence_number ≡ b.tail_sequence_number)
unfolding head_sequence_number_check
head_sequence_number_check-near b p e = ground arith
