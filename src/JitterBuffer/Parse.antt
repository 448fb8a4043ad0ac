-- ===== src/JitterBuffer/Parse.antt =====
-- jitterBufferInternalParse: the walk over the sequence numbers that delivers and drops frames.
-- The callbacks and the depayloader are parameters; what was called is recorded, and so are the
-- packets freed. `none` is fuel that runs out. The walk from one index to another has the number of
-- indices between them as fuel.
pub mod Frames
pub mod Rounds
pub mod Whole
use kvs_c.Base.{
  ℕ, zero, suc, ◌+◌, ◌-◌, ◌%◌, ◌^◌, Bool, true, false, ◌&&◌, ◌||◌, Option, none, some, List, [],
  ◌∷◌, ◌++◌, ltb, ◌==◌, if◌then◌else◌,
}
use kvs_c.Base.Bytes.{◌>>=◌}
use kvs_c.Status.{Status, success, succeeded}
use kvs_c.Rtp.{RtpPacket, RtpPacketHeader}
use kvs_c.JitterBuffer.{JitterBuffer}
use kvs_c.JitterBuffer.Table.{HashTable}
use kvs_c.JitterBuffer.Drop.{uint16_dec, uint16_inc, span, drop_buffer_data}

-- The depayloader with no memory for the data: the status, the size, and `isStart`.
abbrev pub DepaySize : Type 0
DepaySize = Option (List ℕ) → ℕ → Status × ℕ × Bool

-- A call of onFrameReadyFn, with the packets in the table at that time, or of onFrameDroppedFn.
pub data Event (T : Type 0) : Type 0 where
  ready : (start last size : ℕ) → (packets : T) → Event T
  dropped : (start last timestamp : ℕ) → Event T

-- The callbacks by their results.
pub record Handlers (T : Type 0) : Type 0 where
  pub depay_size : DepaySize
  pub on_ready : (start last size : ℕ) → T → Status
  pub on_dropped : (start last timestamp : ℕ) → Status

-- The variables of the walk, and the record of the calls and of the packets freed.
pub record Walk (T : Type 0) : Type 0 where
  pub buffer : JitterBuffer T
  pub index : ℕ
  pub start_drop : ℕ
  pub frame_size : ℕ
  pub contains_start : Bool
  pub continuous : Bool
  pub last_present : ℕ
  pub events : List (Event T)
  pub freed : List RtpPacket

-- How one round ends: on to the next index, out of the loop, or out of the function.
pub data Outcome (T : Type 0) : Type 0 where
  more : Walk T → Outcome T
  leave : Walk T → Outcome T
  quit : Status → Walk T → Outcome T

module _ {T : Type 0} (h : HashTable T) (hs : Handlers T) where
  -- The packets up to the one before `index` are dropped; the frame of `timestamp` is next.
  pub drop_frame : (timestamp : ℕ) → Walk T → Option (Walk T)
  drop_frame timestamp w = do
    (b, freed) ← drop_buffer_data h w.buffer w.start_drop (uint16_dec w.index) timestamp
    some (record w {
      buffer = record b { first_frame_processed = true };
      start_drop = w.index;
      freed = w.freed ++ freed;
    })

  -- A packet of another frame than the one before: that one is delivered, dropped, or waited for.
  pub settle_frame : (closed : Bool) (earliest timestamp : ℕ) → Walk T → Option (Outcome T)
  settle_frame closed earliest timestamp w =
      if w.contains_start && w.continuous
      then (if succeeded status
          then (do
            w' ← drop_frame timestamp delivered
            some (more (record w' { contains_start = false; frame_size = 0 })))
          else some (quit status delivered))
      else if ltb w.buffer.head_timestamp earliest || closed
      then (do
        w' ← drop_frame timestamp given_up
        some (more (record w' { continuous = true; frame_size = 0 })))
      else some (leave w)
    where
      status : Status
      status = hs.on_ready w.start_drop (uint16_dec w.index) w.frame_size w.buffer.packets

      delivered : Walk T
      delivered = record w {
        events =
            w.events
            ++ (ready w.start_drop (uint16_dec w.index) w.frame_size w.buffer.packets ∷ []);
      }

      given_up : Walk T
      given_up = record w {
        events =
            w.events ++ (dropped w.start_drop (uint16_dec w.index) w.buffer.head_timestamp ∷ []);
      }

  -- The end of a round: the packet is counted for the frame.
  pub count_packet : RtpPacket → Walk T → Outcome T
  count_packet p w =
      let (status, size, is_start) = hs.depay_size p.payload p.payload_length in
      if succeeded status
      then more (record w {
        frame_size = (w.frame_size + size) % 2 ^ 32;
        contains_start =
            w.contains_start || (is_start && (w.buffer.head_timestamp == p.header.timestamp));
        index = uint16_inc w.index;
      })
      else quit status w

  -- A round at a packet.
  pub at_packet : (closed : Bool) (earliest : ℕ) → RtpPacket → Walk T → Option (Outcome T)
  at_packet closed earliest p w =
      if p.header.timestamp == w.buffer.head_timestamp then some (count_packet p w) else (do
        o ← settle_frame closed earliest p.header.timestamp w
        some (elim o [
          | more w' ↦ count_packet p w'
          | leave w' ↦ leave w'
          | quit status w' ↦ quit status w'
        ]))

  -- A round where the packet is missing.
  pub at_gap : (closed : Bool) (earliest : ℕ) → Walk T → Outcome T
  at_gap closed earliest w =
      if ltb w.buffer.head_timestamp earliest || closed
      then more (record w { continuous = false; index = uint16_inc w.index })
      else quit success (record w { continuous = false })

  -- One round of the loop.
  pub walk_round : (closed : Bool) (earliest : ℕ) → Walk T → Option (Outcome T)
  walk_round closed earliest w = elim (h.get w.buffer.packets w.index) [
    | none ↦ some (at_gap closed earliest w)
    | some p ↦ at_packet closed earliest p (record w { last_present = w.index })
  ]

  -- `for (; index != lastIndex; index++)`
  pub walk_loop : (closed : Bool) (earliest : ℕ) (fuel last : ℕ) → Walk T → Option (Outcome T)
  walk_loop closed earliest zero last w = if w.index == last then some (leave w) else none
  walk_loop closed earliest (suc fuel) last w =
      let next : Option (Outcome T) = (do
        o ← walk_round closed earliest w
        (elim o [
          | more w' ↦ walk_loop closed earliest fuel last w'
          | leave w' ↦ some (leave w')
          | quit status w' ↦ some (quit status w')
        ])) in
      if w.index == last then some (leave w) else next

  -- `for (index = startDropIndex; UINT16_DEC(index) != lastNonNullIndex && hasEntry; index++)`: the
  -- status, the index at the end, and the size. A missing packet ends it one index further.
  pub last_loop : (fuel index last size : ℕ) → T → Option (Status × ℕ × ℕ)
  last_loop zero index last size t =
      if uint16_dec index == last then some (success, index, size) else none
  last_loop (suc fuel) index last size t =
      let next : Option (Status × ℕ × ℕ) = elim (h.get t index) [
        | none ↦ some (success, uint16_inc index, size)
        | some p ↦
            let (status, partial, is_start) = hs.depay_size p.payload p.payload_length in
            let rest = last_loop fuel (uint16_inc index) last ((size + partial) % 2 ^ 32) t in
            if succeeded status then rest else some (status, index, size)
      ] in
      if uint16_dec index == last then some (success, index, size) else next

  -- The calls at the end of jitterBufferInternalParse: the last frame is delivered when nothing of it
  -- is missing, and dropped otherwise; a callback that fails ends it.
  pub close_calls : (index size : ℕ) → Walk T → Option (Status × Walk T)
  close_calls index size w =
      if succeeded status
      then (do
        (b, freed) ← drop_buffer_data h w.buffer w.start_drop w.last_present w.buffer.head_timestamp
        some (success, record called { buffer = b; freed = w.freed ++ freed }))
      else some (status, called)
    where
      whole : Bool
      whole = uint16_dec index == w.last_present

      status : Status
      status =
          if whole
          then hs.on_ready w.start_drop w.last_present size w.buffer.packets
          else hs.on_dropped w.start_drop (uint16_dec index) w.buffer.head_timestamp

      event : Event T
      event =
          if whole
          then ready w.start_drop w.last_present size w.buffer.packets
          else dropped w.start_drop (uint16_dec index) w.buffer.head_timestamp

      called : Walk T
      called = record w { events = w.events ++ (event ∷ []) }

  -- The end of jitterBufferInternalParse for a buffer that is closed with a frame in it.
  pub close_frame : Walk T → Option (Status × Walk T)
  close_frame w = do
    (status, index, size) ←
        last_loop (span w.start_drop w.last_present) w.start_drop w.last_present 0 w.buffer.packets
    (if succeeded status then close_calls index size w else some (status, w))

  -- `earliestAllowedTimestamp`
  abbrev pub earliest_of : JitterBuffer T → ℕ
  earliest_of b =
      if ltb b.max_latency b.tail_timestamp
      then (b.tail_timestamp + 2 ^ 64 - b.max_latency) % 2 ^ 64 % 2 ^ 32
      else 0

  -- The variables before the loop.
  abbrev pub walk_start : JitterBuffer T → Walk T
  walk_start b = record {
    buffer = b;
    index = b.head_sequence_number;
    start_drop = b.head_sequence_number;
    frame_size = 0;
    contains_start = false;
    continuous = true;
    last_present = 0;
    events = [];
    freed = [];
  }

  -- jitterBufferInternalParse
  pub internal_parse : (closed : Bool) → JitterBuffer T → Option (Status × Walk T)
  internal_parse closed b = if b.tail_timestamp == 0 then some (success, walk_start b) else (do
    o ←
        walk_loop closed (earliest_of b) (span b.head_sequence_number b.tail_sequence_number)
          (uint16_inc b.tail_sequence_number) (walk_start b)
    (elim o [
      | more w ↦ none
      | leave w ↦ if closed && ltb 0 w.frame_size then close_frame w else some (success, w)
      | quit status w ↦ some (status, w)
    ]))
