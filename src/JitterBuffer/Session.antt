-- ===== src/JitterBuffer/Session.antt =====
-- createJitterBuffer, jitterBufferPush and freeJitterBuffer, with the parse that the last two call.
use kvs_c.Base.{
  ℕ, ◌-◌, ◌*◌, ◌/◌, ◌%◌, ◌^◌, ◌<◌, ◌≡◌, refl, true, false, Option, none, some, List, [], arith, ltb,
  ◌==◌, if◌then◌else◌, Bool-cases, inl, inr,
}
use kvs_c.Base.Bytes.{◌>>=◌}
use kvs_c.Status.{Status, success, invalid_arg, succeeded}
use kvs_c.Rtp.{RtpPacket}
use kvs_c.JitterBuffer.{JitterBuffer}
use kvs_c.JitterBuffer.Table.{HashTable, IsHashTable}
use kvs_c.JitterBuffer.Push.{Pushed, admit}
use kvs_c.JitterBuffer.Window.{IsWindow, HeaderFits, admit-IsWindow}
use kvs_c.JitterBuffer.Drop.{drop_buffer_data, drop_buffer_data_empty}
use kvs_c.JitterBuffer.Parse.{Handlers, Walk, walk_start, internal_parse}
use kvs_c.JitterBuffer.Parse.Frames.{AllWhole}
use kvs_c.JitterBuffer.Parse.Whole.{internal_parse-AllWhole}

-- createJitterBuffer after its allocations: `default_latency` and `second` are
-- DEFAULT_JITTER_BUFFER_MAX_LATENCY and HUNDREDS_OF_NANOS_IN_A_SECOND, `empty` is the new table.
pub create_jitter_buffer :
    {T : Type 0} (default_latency second : ℕ) (max_latency clock_rate : ℕ) (empty : T)
    → Status × Option (JitterBuffer T)
create_jitter_buffer {T = T} default_latency second max_latency clock_rate empty =
    if ltb latency (2 ^ 32 - 1) then (success, some made) else (invalid_arg, none)
  where
    latency : ℕ
    latency =
        (if max_latency == 0 then default_latency else max_latency) * clock_rate % 2 ^ 64 / second

    made : JitterBuffer T
    made = record {
      head_sequence_number = 65535;
      tail_sequence_number = 65535;
      head_timestamp = 4294967295;
      tail_timestamp = 0;
      max_latency = latency;
      clock_rate = clock_rate;
      started = false;
      first_frame_processed = false;
      sequence_number_overflow_state = false;
      timestamp_over_flow_state = false;
      packets = empty;
    }

abbrev IsCreated : {T : Type 0} → T → Option (JitterBuffer T) → Type 0
IsCreated empty none = Unit
IsCreated {T} empty (some b) = IsWindow T b × (b.packets ≡ empty) × (b.max_latency < 2 ^ 32 - 1)

-- A buffer that is created has a window and is empty, and its latency is below the last timestamp.
create_jitter_buffer-IsWindow :
    {T : Type 0} (default_latency second max_latency clock_rate : ℕ) (empty : T)
    → IsCreated empty (create_jitter_buffer default_latency second max_latency clock_rate empty).1
unfolding create_jitter_buffer
create_jitter_buffer-IsWindow default_latency second max_latency clock_rate empty =
    elim (Bool-cases (
      ltb
        ((if max_latency == 0 then default_latency else max_latency) * clock_rate % 2 ^ 64 / second)
        (2 ^ 32 - 1))) [
          | inl fits ↦ rw fits (
            record {
              head_fits = omega arith;
              tail_fits = omega arith;
              head_time_fits = omega arith;
              tail_time_fits = omega arith;
              ordered = λ e. omega arith;
            },
            refl,
            ground arith,
          )
          | inr large ↦ rw large tt
        ]

module _ {T : Type 0} (h : HashTable T) (hs : Handlers T) where
  -- jitterBufferPush: the status, what was done with the packet, and the parse.
  pub jitter_buffer_push : JitterBuffer T → RtpPacket → Option (Status × Pushed T × Walk T)
  jitter_buffer_push b p =
      if succeeded pushed.status
      then (do (status, w) ← internal_parse h hs false pushed.buffer; some (status, pushed, w))
      else some (pushed.status, pushed, walk_start h hs pushed.buffer)
    where
      pushed : Pushed T
      pushed = admit h b p

  -- freeJitterBuffer up to the release of the table: what is left, the calls, and the packets freed.
  pub free_jitter_buffer : JitterBuffer T → Option (JitterBuffer T × Walk T × List RtpPacket)
  free_jitter_buffer b = do
    (status, w) ← internal_parse h hs true b
    (b', freed) ← drop_buffer_data h w.buffer 0 65535 0
    some (b', w, freed)

  -- Pushing any packet to a buffer with a window returns, whether the packet is kept or discarded, and
  -- the frames that it delivers are whole: no sequence number of them is missing.
  pub jitter_buffer_push-AllWhole :
      (b : JitterBuffer T) (p : RtpPacket)
      → IsHashTable T h
      → IsWindow T b
      → HeaderFits p
      → (s : Status) × (pushed : Pushed T) × (w : Walk T) × (jitter_buffer_push b p
          ≡ some (s, pushed, w))
        × AllWhole h hs.depay_size w.events
  unfolding jitter_buffer_push
  jitter_buffer_push-AllWhole b p law win fits =
      let (s, w, run, whole) =
        internal_parse-AllWhole h hs false (admit h b p).buffer law
          (admit-IsWindow h b p win fits) in
      elim (Bool-cases (succeeded (admit h b p).status)) [
        | inl ok ↦ (s, admit h b p, w, rw (ok, run) refl, whole)
        | inr bad ↦ (
          (admit h b p).status,
          admit h b p,
          walk_start h hs (admit h b p).buffer,
          rw bad refl,
          tt,
        )
      ]

  -- Freeing a buffer with a window returns, and the frames that it delivers are whole; but its last
  -- call of jitterBufferDropBufferData, from 0 to 65535, is the empty range: the packets that the parse
  -- leaves in the table are not freed.
  pub free_jitter_buffer_leaves :
      (b : JitterBuffer T)
      → IsHashTable T h
      → IsWindow T b
      → (s : Status) × (w : Walk T) × (b' : JitterBuffer T) × (internal_parse h hs true b
          ≡ some (s, w))
        × (free_jitter_buffer b ≡ some (b', w, []))
        × (b'.packets ≡ w.buffer.packets)
        × AllWhole h hs.depay_size w.events
  unfolding free_jitter_buffer
  free_jitter_buffer_leaves b law win =
      let (s, w, run, whole) = internal_parse-AllWhole h hs true b law win in
      let (b', dropped, same) = drop_buffer_data_empty h w.buffer 0 0 (omega arith) in
      (s, w, b', run, rw (run, dropped) refl, same, whole)
