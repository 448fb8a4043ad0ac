-- ===== src/JitterBuffer/Push.antt =====
-- jitterBufferPush up to its call of jitterBufferInternalParse.
use kvs_c.Base.{ℕ, Bool, true, false, none, some, List, [], ◌∷◌, if◌then◌else◌}
use kvs_c.Status.{Status, success, succeeded}
use kvs_c.Rtp.{RtpPacket}
use kvs_c.JitterBuffer.{
  JitterBuffer, head_checking_allowed, head_sequence_number_check, tail_sequence_number_check,
  enter_sequence_number_overflow_check, enter_timestamp_overflow_check, head_timestamp_check,
  tail_timestamp_check, within_latency_tolerance,
}
use kvs_c.JitterBuffer.Table.{HashTable}

-- What the push of a packet did: the status, `*pPacketDiscarded`, the buffer, and the packets freed.
pub record Pushed (T : Type 0) : Type 0 where
  pub status : Status
  pub discarded : Bool
  pub buffer : JitterBuffer T
  pub freed : List RtpPacket

module _ {T : Type 0} where
  -- The first packet starts the window.
  unfoldable pub start_window : JitterBuffer T → RtpPacket → JitterBuffer T
  start_window b p = if b.started then b else record b {
    started = true;
    head_sequence_number = p.header.sequence_number;
    tail_sequence_number = p.header.sequence_number;
    head_timestamp = p.header.timestamp;
  }

  -- The checks of the tail, sequence numbers first.
  unfoldable pub move_tail : JitterBuffer T → RtpPacket → JitterBuffer T
  move_tail b p =
      let (seq_overflow, b1) = enter_sequence_number_overflow_check b p in
      let b2 : JitterBuffer T = if seq_overflow then b1 else (tail_sequence_number_check b1 p).1 in
      let (time_overflow, b3) = enter_timestamp_overflow_check b2 p in
      if time_overflow then b3 else (tail_timestamp_check b3 p).1

  -- The checks of the head.
  unfoldable pub move_head : JitterBuffer T → RtpPacket → JitterBuffer T
  move_head b p =
      if head_checking_allowed b p
      then (head_sequence_number_check (head_timestamp_check b p).1 p).1
      else b

  -- The packet that has the sequence number, if there is one, leaves the table.
  pub take_out : HashTable T → T → ℕ → List RtpPacket × T
  take_out h t seq = elim (h.get t seq) [ none ↦ ([], t) | some old ↦ (old ∷ [], h.remove t seq) ]

  -- The packet goes to the table; the one that had its sequence number is freed.
  unfoldable pub store_packet : HashTable T → JitterBuffer T → RtpPacket → Pushed T
  unfolding move_head take_out
  store_packet h b p =
      let (replaced, t) = take_out h b.packets p.header.sequence_number in
      let (status, t') = h.put t p.header.sequence_number p in
      if succeeded status
      then record {
        status = success;
        discarded = false;
        buffer = move_head (record b { packets = t' }) p;
        freed = replaced;
      }
      else record {
        status = status;
        discarded = false;
        buffer = record b { packets = t' };
        freed = replaced;
      }

  -- jitterBufferPush up to the parse; `discarded` starts as FALSE.
  unfoldable pub admit : HashTable T → JitterBuffer T → RtpPacket → Pushed T
  unfolding start_window move_tail store_packet
  admit h b p =
      let (fits, b') = within_latency_tolerance (move_tail (start_window b p) p) p in
      if fits
      then store_packet h b' p
      else record { status = success; discarded = true; buffer = b'; freed = p ∷ [] }
