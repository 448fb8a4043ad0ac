-- ===== src/JitterBuffer.antt =====
-- src/source/PeerConnection/JitterBuffer.c: the window of sequence numbers and timestamps of the
-- packets that wait for their frame, the removal of packets, and the data of a frame.
-- The packets stand in a hash table of another library, a parameter here; a Boolean result of the
-- code comes first, then the buffer. NULL arguments are not values of the model.
pub mod Table
pub mod Window
pub mod Drop
pub mod Push
pub mod Parse
pub mod Session
mod Tests
use kvs_c.Base.{
  ℕ, zero, suc, ◌+◌, ◌-◌, ◌*◌, ◌/◌, ◌%◌, ◌^◌, Bool, true, false, not, ◌&&◌, ◌||◌, Option, none,
  some, List, [], ◌∷◌, ltb, leb, ◌==◌, if◌then◌else◌,
}
use kvs_c.Rtp.{RtpPacket, RtpPacketHeader}

-- `JitterBuffer`, without the callbacks, their argument, and the two fields that nothing here uses.
pub record JitterBuffer (T : Type 0) : Type 0 where
  pub head_sequence_number : ℕ
  pub tail_sequence_number : ℕ
  pub head_timestamp : ℕ
  pub tail_timestamp : ℕ
  pub max_latency : ℕ
  pub clock_rate : ℕ
  pub started : Bool
  pub first_frame_processed : Bool
  pub sequence_number_overflow_state : Bool
  pub timestamp_over_flow_state : Bool
  pub packets : T

-- MAX_RTP_SEQUENCE_NUM, MAX_RTP_TIMESTAMP and MAX_OUT_OF_ORDER_PACKET_DIFFERENCE
abbrev pub max_seq : ℕ
max_seq = 65535

abbrev pub max_timestamp : ℕ
max_timestamp = 4294967295

abbrev pub max_out_of_order : ℕ
max_out_of_order = 512

abbrev seq_of : RtpPacket → ℕ
seq_of p = p.header.sequence_number

abbrev time_of : RtpPacket → ℕ
time_of p = p.header.timestamp

module _ {T : Type 0} where
  -- underflowPossible
  pub underflow_possible : JitterBuffer T → RtpPacket → Bool
  underflow_possible b p =
      if b.head_timestamp == time_of p then true else leb timestamp_difference max_time_passed
    where
      seq_no_difference : ℕ
      seq_no_difference = (max_seq - seq_of p) + b.head_sequence_number

      timestamp_difference : ℕ
      timestamp_difference =
          if ltb (time_of p) b.head_timestamp
          then b.head_timestamp - time_of p
          else (max_timestamp - time_of p + b.head_timestamp) % 2 ^ 32

      max_time_passed : ℕ
      max_time_passed =
          if leb (max_timestamp / b.clock_rate) seq_no_difference
          then max_timestamp
          else b.clock_rate * seq_no_difference % 2 ^ 32

  -- headCheckingAllowed
  pub head_checking_allowed : JitterBuffer T → RtpPacket → Bool
  head_checking_allowed b p = not b.first_frame_processed || (b.head_timestamp == time_of p)

  -- `minimumHead` of headSequenceNumberCheck
  abbrev pub minimum_head : JitterBuffer T → ℕ
  minimum_head b =
      if leb max_out_of_order b.head_sequence_number
      then b.head_sequence_number - max_out_of_order
      else 0

  -- headSequenceNumberCheck
  pub head_sequence_number_check : JitterBuffer T → RtpPacket → Bool × JitterBuffer T
  unfolding head_checking_allowed
  head_sequence_number_check b p =
      if b.head_sequence_number == seq_of p
      then (true, b)
      else if head_checking_allowed b p && earlier
      then (true, record b { head_sequence_number = seq_of p })
      else (false, b)
    where
      earlier : Bool
      earlier =
          if b.sequence_number_overflow_state
          then ltb b.tail_sequence_number (seq_of p)
            && (ltb (seq_of p) b.head_sequence_number && leb (minimum_head b) (seq_of p))
          else ltb (seq_of p) b.head_sequence_number && leb (minimum_head b) (seq_of p)

  -- tailSequenceNumberCheck
  pub tail_sequence_number_check : JitterBuffer T → RtpPacket → Bool × JitterBuffer T
  tail_sequence_number_check b p =
      if b.tail_sequence_number == seq_of p
      then (true, b)
      else if ltb b.tail_sequence_number (seq_of p)
          && (not b.sequence_number_overflow_state || ltb (seq_of p) b.head_sequence_number)
      then (true, record b { tail_sequence_number = seq_of p })
      else (false, b)

  -- enterSequenceNumberOverflowCheck; only one of the two flags can be set, by the `else if`.
  pub enter_sequence_number_overflow_check : JitterBuffer T → RtpPacket → Bool × JitterBuffer T
  unfolding head_checking_allowed underflow_possible
  enter_sequence_number_overflow_check b p =
      if not b.sequence_number_overflow_state && overflow
      then (
        true,
        record b {
          sequence_number_overflow_state = true;
          tail_sequence_number = seq_of p;
          tail_timestamp = time_of p;
        },
      )
      else if not b.sequence_number_overflow_state && underflow
      then (
        true,
        record b {
          sequence_number_overflow_state = true;
          head_sequence_number = seq_of p;
          head_timestamp = time_of p;
        },
      )
      else (false, b)
    where
      packets_until_overflow : ℕ
      packets_until_overflow = max_seq - b.tail_sequence_number

      near_end : Bool
      near_end = leb packets_until_overflow max_out_of_order

      overflow : Bool
      overflow =
          near_end
          && (ltb (seq_of p) b.tail_sequence_number
              && leb (seq_of p) (max_out_of_order - packets_until_overflow))

      underflow : Bool
      underflow =
          not near_end
          && (head_checking_allowed b p
              && (ltb b.head_sequence_number max_out_of_order
                  && (leb (max_seq - (max_out_of_order - b.head_sequence_number)) (seq_of p)
                      && underflow_possible b p)))

  -- enterTimestampOverflowCheck; the checks that it calls may move the tail or the head.
  pub enter_timestamp_overflow_check : JitterBuffer T → RtpPacket → Bool × JitterBuffer T
  unfolding tail_sequence_number_check head_sequence_number_check
  enter_timestamp_overflow_check b p =
      if b.timestamp_over_flow_state
      then (false, b)
      else if ltb (time_of p) b.head_timestamp && ltb (time_of p) b.tail_timestamp
      then (let (overflow, b') = tail_sequence_number_check b p in
          if overflow
          then (true, record b' { timestamp_over_flow_state = true; tail_timestamp = time_of p })
          else (false, b'))
      else if ltb b.head_timestamp (time_of p) && ltb b.tail_timestamp (time_of p)
      then (let (underflow, b') = head_sequence_number_check b p in
          if underflow
          then (true, record b' { timestamp_over_flow_state = true; head_timestamp = time_of p })
          else (false, b'))
      else (false, b)

  -- exitSequenceNumberOverflowCheck
  unfoldable pub exit_sequence_number_overflow_check : JitterBuffer T → Bool × JitterBuffer T
  exit_sequence_number_overflow_check b =
      if b.sequence_number_overflow_state && leb b.head_sequence_number b.tail_sequence_number
      then (true, record b { sequence_number_overflow_state = false })
      else (false, b)

  -- exitTimestampOverflowCheck
  unfoldable pub exit_timestamp_overflow_check : JitterBuffer T → Bool × JitterBuffer T
  exit_timestamp_overflow_check b =
      if b.timestamp_over_flow_state && leb b.head_timestamp b.tail_timestamp
      then (true, record b { timestamp_over_flow_state = false })
      else (false, b)

  -- headTimestampCheck
  pub head_timestamp_check : JitterBuffer T → RtpPacket → Bool × JitterBuffer T
  unfolding head_checking_allowed head_sequence_number_check
  head_timestamp_check b p =
      if head_checking_allowed b p && outside
      then (let (at_head, b') = head_sequence_number_check b p in
          if at_head then (true, record b' { head_timestamp = time_of p }) else (false, b'))
      else (false, b)
    where
      outside : Bool
      outside =
          if b.timestamp_over_flow_state
          then ltb (time_of p) b.head_timestamp && ltb b.tail_timestamp (time_of p)
          else ltb (time_of p) b.head_timestamp || ltb b.tail_timestamp (time_of p)

  -- tailTimestampCheck
  pub tail_timestamp_check : JitterBuffer T → RtpPacket → Bool × JitterBuffer T
  unfolding tail_sequence_number_check
  tail_timestamp_check b p =
      if ltb b.tail_timestamp (time_of p)
        && (not b.timestamp_over_flow_state || ltb (time_of p) b.head_timestamp)
      then (let (at_tail, b') = tail_sequence_number_check b p in
          if at_tail then (true, record b' { tail_timestamp = time_of p }) else (false, b'))
      else (false, b)

  -- The tests of withinLatencyTolerance behind the one of the tail.
  pub within_window : JitterBuffer T → RtpPacket → Bool
  within_window b p =
      if b.timestamp_over_flow_state
      then (ltb (time_of p) b.tail_timestamp || ltb b.head_timestamp (time_of p))
        || leb minimum_timestamp (time_of p)
      else (ltb (time_of p) b.max_latency && leb b.tail_timestamp b.max_latency)
        || leb ((b.tail_timestamp + 2 ^ 64 - b.max_latency) % 2 ^ 64) (time_of p)
    where
      minimum_timestamp : ℕ
      minimum_timestamp =
          if ltb b.tail_timestamp b.max_latency
          then (max_timestamp + 2 ^ 64 - (b.max_latency - b.tail_timestamp)) % 2 ^ 64 % 2 ^ 32
          else 0

  -- withinLatencyTolerance
  pub within_latency_tolerance : JitterBuffer T → RtpPacket → Bool × JitterBuffer T
  unfolding tail_timestamp_check within_window
  within_latency_tolerance b p =
      let (at_tail, b') = tail_timestamp_check b p in
      if at_tail || (b'.tail_timestamp == time_of p) then (true, b') else (within_window b' p, b')
