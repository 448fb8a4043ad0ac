-- ===== src/JitterBuffer/Tests.antt =====
-- The jitter buffer of src/source/PeerConnection/JitterBuffer.c on a table that is a function.
use kvs_c.Base.{ℕ, ◌≡◌, refl, true, false, Option, none, some, [], arith, ◌==◌, if◌then◌else◌}
use kvs_c.Status.{Status, success}
use kvs_c.Rtp.{RtpPacket}
use kvs_c.JitterBuffer.{JitterBuffer, head_sequence_number_check, head_checking_allowed}
use kvs_c.JitterBuffer.Table.{HashTable, IsHashTable}
use kvs_c.JitterBuffer.Push.{admit}
use kvs_c.JitterBuffer.Window.{IsWindow, admit-IsWindow}
use kvs_c.JitterBuffer.Push.{Pushed}
use kvs_c.JitterBuffer.Parse.{Handlers, Walk, internal_parse}
use kvs_c.JitterBuffer.Parse.Frames.{AllWhole}
use kvs_c.JitterBuffer.Parse.Whole.{internal_parse-AllWhole}
use kvs_c.JitterBuffer.Session.{
  jitter_buffer_push, jitter_buffer_push-AllWhole, free_jitter_buffer, free_jitter_buffer_leaves,
}

-- A table is the function from its keys.
abbrev Keys : Type 0
Keys = ℕ → Option RtpPacket

abbrev table : HashTable Keys
table = record {
  get = λ t k. t k;
  put = λ t k p. (success, λ j. if j == k then some p else t j);
  remove = λ t k. λ j. if j == k then none else t j;
}

table-IsHashTable : IsHashTable Keys table
table-IsHashTable = record {
  removed = λ t k. ground arith;
  remove_other = λ t j k ne. ground arith;
  stored = λ t k p e. ground arith;
  put_other = λ t j k p ne. ground arith;
}

abbrev packet : ℕ → ℕ → RtpPacket
packet seq time = record {
  header = record {
    version = 2;
    padding = false;
    extension = false;
    csrc_count = 0;
    marker = false;
    payload_type = 96;
    sequence_number = seq;
    timestamp = time;
    ssrc = 1;
    csrc_array = [];
    extension_profile = 0;
    extension_payload = none;
    extension_length = 0;
  };
  payload = none;
  payload_length = 0;
  raw_packet = none;
  raw_packet_length = 0;
}

-- A buffer whose window lies over the end of the sequence numbers.
abbrev over_the_end : JitterBuffer Keys
over_the_end = record {
  head_sequence_number = 65534;
  tail_sequence_number = 1;
  head_timestamp = 1000;
  tail_timestamp = 4000;
  max_latency = 90000;
  clock_rate = 90000;
  started = true;
  first_frame_processed = true;
  sequence_number_overflow_state = true;
  timestamp_over_flow_state = false;
  packets = λ k. if k == 65535 then some (packet 65535 1000) else none;
}

over_the_end-IsWindow : IsWindow Keys over_the_end
over_the_end-IsWindow = ground arith

admit-IsWindow_example : IsWindow Keys (admit table over_the_end (packet 2 5000)).buffer
admit-IsWindow_example =
    admit-IsWindow table over_the_end (packet 2 5000) over_the_end-IsWindow
      (omega arith, omega arith)

earlier : (head_sequence_number_check over_the_end (packet 65533 1000)).0 ≡ true
unfolding head_sequence_number_check head_checking_allowed
earlier = refl

-- Every packet has three bytes of data and starts a frame, and the callbacks succeed.
abbrev handlers : Handlers Keys
handlers = record {
  depay_size = λ payload payload_length. (success, 3, true);
  on_ready = λ start last size t. success;
  on_dropped = λ start last timestamp. success;
}

internal_parse-AllWhole_example :
    (s : Status) × (w : Walk Keys) × (internal_parse table handlers true over_the_end ≡ some (s, w))
    × AllWhole table handlers.depay_size w.events
internal_parse-AllWhole_example =
    internal_parse-AllWhole table handlers true over_the_end table-IsHashTable over_the_end-IsWindow

jitter_buffer_push-AllWhole_example :
    (s : Status) × (pushed : Pushed Keys) × (w : Walk Keys) × (jitter_buffer_push table handlers
        over_the_end
        (packet 65534 1000)
      ≡ some (s, pushed, w))
    × AllWhole table handlers.depay_size w.events
jitter_buffer_push-AllWhole_example =
    jitter_buffer_push-AllWhole table handlers over_the_end (packet 65534 1000) table-IsHashTable
      over_the_end-IsWindow (omega arith, omega arith)

free_jitter_buffer_leaves_example :
    (s : Status) × (w : Walk Keys) × (b' : JitterBuffer Keys) × (internal_parse table handlers true
        over_the_end
      ≡ some (s, w))
    × (free_jitter_buffer table handlers over_the_end ≡ some (b', w, []))
    × (b'.packets ≡ w.buffer.packets)
    × AllWhole table handlers.depay_size w.events
free_jitter_buffer_leaves_example =
    free_jitter_buffer_leaves table handlers over_the_end table-IsHashTable over_the_end-IsWindow
