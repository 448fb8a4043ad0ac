-- ===== src/Rtp/Packets.antt =====
-- constructRtpPackets of src/source/Rtp/RtpPacket.c: the payloads of one frame, one packet each.
use kvs_c.Base.{
  ℕ, zero, suc, ◌+◌, ◌-◌, ◌%◌, ◌^◌, ◌≤◌, ◌<◌, ◌≡◌, refl, ap, ap₂, sym, ◌∙◌, Bool, Option, none,
  some, List, [], ◌∷◌, arith, length, length-set, set, get_or, get_elem?, drop, ltb, leb, ◌==◌,
  if◌then◌else◌, get_elem?-set_self, get_elem?-set_ne,
}
use kvs_c.Base.Bytes.{◌>>=◌, get_elem?-some}
use kvs_c.Status.{Status, success, null_arg, buffer_too_small}
use kvs_c.Rtp.{RtpPacketHeader, RtpPacket, unset_header, set_rtp_packet, get_uint16_seq_num}

-- `PayloadArray`: the payloads one after the other, and the length of each.
pub record PayloadArray : Type 0 where
  pub payload_buffer : List ℕ
  pub payload_length : ℕ
  pub payload_sub_length : List ℕ
  pub payload_sub_len_size : ℕ

-- The header that the loop gives to a packet.
abbrev pub media_header : Bool → ℕ → ℕ → ℕ → ℕ → RtpPacketHeader
media_header marker payload_type sequence_number timestamp ssrc = record unset_header {
  version = 2;
  marker = marker;
  payload_type = payload_type;
  sequence_number = sequence_number;
  timestamp = timestamp;
  ssrc = ssrc;
}

module _ (payload_type timestamp ssrc total : ℕ) where
  -- The loop, with `rounds` left from index `i` on: the payload that starts at the memory, the
  -- lengths from the current one on. `none` is an access behind the end of an array.
  pub packet_loop :
      (rounds i sequence_number : ℕ)
      → List ℕ
      → List ℕ
      → List RtpPacket
      → Option (Status × List RtpPacket)
  packet_loop zero i sequence_number memory lengths packets = some (success, packets)
  packet_loop (suc rounds) i sequence_number memory [] packets = none
  packet_loop (suc rounds) i sequence_number memory (len ∷ lengths) packets =
      elim (get_elem? packets i) [
        | none ↦ none
        | some old ↦
            let (status, p) =
              set_rtp_packet
                (media_header (i == total - 1) payload_type sequence_number timestamp ssrc)
                (some memory) len old in
            elim status [
              | success ↦
                  packet_loop rounds (i + 1) (get_uint16_seq_num (sequence_number + 1))
                    (drop len memory) lengths (set packets i p)
              | failure ↦ some (failure, packets)
            ]
      ]

-- constructRtpPackets; `packets` is the array `pPackets` of `packetCount` elements.
pub construct_rtp_packets :
    Option PayloadArray
    → (payload_type start_sequence_number timestamp ssrc : ℕ) → Option (List RtpPacket)
    → Option (Status × Option (List RtpPacket))
construct_rtp_packets none pt start ts ssrc packets = some (success, packets)
construct_rtp_packets (some a) pt start ts ssrc none =
    if ltb 0 a.payload_length then some (null_arg, none) else some (success, none)
construct_rtp_packets (some a) pt start ts ssrc (some packets) =
    if ltb 0 a.payload_length
    then (if leb a.payload_sub_len_size (length packets)
        then (do
          (status, packets') ←
              packet_loop pt ts ssrc a.payload_sub_len_size a.payload_sub_len_size 0 start
                a.payload_buffer a.payload_sub_length packets
          some (status, some packets'))
        else some (buffer_too_small, some packets))
    else some (success, some packets)

-- The sum of the first `j` lengths.
abbrev pub offset_of : ℕ → List ℕ → ℕ
offset_of zero lengths = 0
offset_of (suc j) [] = 0
offset_of (suc j) (len ∷ lengths) = len + offset_of j lengths

drop-nil : (n : ℕ) → drop {A = ℕ} n [] ≡ []
drop-nil zero = refl
drop-nil (suc n) = refl

drop-drop : (n m : ℕ) (xs : List ℕ) → drop m (drop n xs) ≡ drop (n + m) xs
drop-drop zero m xs = ap (λ k. drop k xs) (omega arith)
drop-drop (suc n) m [] = drop-nil m ∙ sym (drop-nil (suc n + m))
drop-drop (suc n) m (x ∷ xs) = drop-drop n m xs ∙ ap (λ k. drop k (x ∷ xs)) (same n m)
  where
    same : (n m : ℕ) → suc (n + m) ≡ suc n + m
    same n m = omega arith

module _ (payload_type timestamp ssrc total : ℕ) where
  -- What the packet of index `i + j` is after the loop.
  abbrev pub IsPacket : (i seq : ℕ) → List ℕ → List ℕ → List RtpPacket → ℕ → Type 0
  IsPacket i seq memory lengths packets j =
      (q : RtpPacket) × (get_elem? packets (i + j) ≡ some q)
      × (q.header
          ≡ media_header ((i + j) == total - 1) payload_type ((seq + j) % 2 ^ 16) timestamp ssrc)
      × (q.payload ≡ some (drop (offset_of j lengths) memory))
      × (q.payload_length ≡ get_or lengths j 0)

  -- A packet of the rounds behind the first, seen from the first.
  later :
      (i seq len : ℕ) (memory lengths : List ℕ) (packets : List RtpPacket) (j : ℕ)
      → IsPacket (i + 1) ((seq + 1) % 2 ^ 16) (drop len memory) lengths packets j
      → IsPacket i seq memory (len ∷ lengths) packets (suc j)
  later i seq len memory lengths packets j (q, at, head, body, size) = (
    q,
    ap (get_elem? packets) (omega arith) ∙ at,
    head ∙ ap₂ (λ k n. media_header (k == total - 1) payload_type n timestamp ssrc) next number,
    body ∙ ap some (drop-drop len (offset_of j lengths) memory),
    size,
  )
    where
      next : i + 1 + j ≡ i + suc j
      next = omega arith

      number : ((seq + 1) % 2 ^ 16 + j) % 2 ^ 16 ≡ (seq + suc j) % 2 ^ 16
      number = omega arith

  -- The first packet of the rounds.
  first :
      (i seq len : ℕ) (memory lengths : List ℕ) (packets : List RtpPacket)
      → seq < 2 ^ 16
      → (q : RtpPacket) × (get_elem? packets i ≡ some q)
        × (q.header ≡ media_header (i == total - 1) payload_type seq timestamp ssrc)
        × (q.payload ≡ some memory)
        × (q.payload_length ≡ len)
      → IsPacket i seq memory (len ∷ lengths) packets zero
  first i seq len memory lengths packets hs (q, at, head, body, size) = (
    q,
    ap (get_elem? packets) (omega arith) ∙ at,
    head ∙ ap₂ (λ k n. media_header (k == total - 1) payload_type n timestamp ssrc) same number,
    body,
    size,
  )
    where
      same : i ≡ i + 0
      same = omega arith

      number : seq ≡ (seq + 0) % 2 ^ 16
      number = omega arith

  first_or_later :
      (i seq len : ℕ) (memory lengths : List ℕ) (packets : List RtpPacket) (n : ℕ)
      → seq < 2 ^ 16
      → (q : RtpPacket) × (get_elem? packets i ≡ some q)
        × (q.header ≡ media_header (i == total - 1) payload_type seq timestamp ssrc)
        × (q.payload ≡ some memory)
        × (q.payload_length ≡ len)
      → ((j : ℕ)
          → j < n
          → IsPacket (i + 1) ((seq + 1) % 2 ^ 16) (drop len memory) lengths packets j)
      → (j : ℕ) → j < suc n
      → IsPacket i seq memory (len ∷ lengths) packets j
  first_or_later i seq len memory lengths packets n hs now rest zero h =
      first i seq len memory lengths packets hs now
  first_or_later i seq len memory lengths packets n hs now rest (suc j) h =
      later i seq len memory lengths packets j (rest j (omega arith))

  -- The loop fills the packets from `i` on and leaves those before alone.
  packet_loop_lem :
      (rounds i seq : ℕ) (memory lengths : List ℕ) (packets : List RtpPacket)
      → seq < 2 ^ 16
      → rounds ≤ length lengths
      → i + rounds ≤ length packets
      → (packets' : List RtpPacket) × (packet_loop payload_type timestamp ssrc total rounds i seq
            memory lengths packets
          ≡ some (success, packets'))
        × (length packets' ≡ length packets)
        × ((j : ℕ) → j < i → get_elem? packets' j ≡ get_elem? packets j)
        × ((j : ℕ) → j < rounds → IsPacket i seq memory lengths packets' j)
  unfolding packet_loop set_rtp_packet
  packet_loop_lem zero i seq memory lengths packets hs hl hp =
      (packets, refl, refl, λ j h. refl, λ j h. absurd (omega arith))
  packet_loop_lem (suc n) i seq memory [] packets hs hl hp = absurd (omega arith)
  packet_loop_lem (suc n) i seq memory (len ∷ lengths) packets hs hl hp =
      let (old, eo) = get_elem?-some packets i (omega arith) in
      let p : RtpPacket = record old {
        header = media_header (i == total - 1) payload_type seq timestamp ssrc;
        payload = some memory;
        payload_length = len;
      } in
      let (after, run, same_length, before, rest) =
        packet_loop_lem n (i + 1) ((seq + 1) % 2 ^ 16) (drop len memory) lengths (set packets i p)
          (omega arith) (omega arith) (omega (arith, length-set packets i p)) in
      (
        after,
        rw (eo, packet_loop) run,
        same_length ∙ length-set packets i p,
        (λ j h. before j (omega arith) ∙ get_elem?-set_ne packets p (λ e. omega arith)),
        first_or_later i seq len memory lengths after n hs
            (
              p,
              before i (omega arith) ∙ get_elem?-set_self packets i p (omega arith),
              refl,
              refl,
              refl,
            )
            rest,
      )

-- With as many lengths and packets as the payload array counts, a frame becomes that many packets:
-- consecutive sequence numbers modulo 2 ^ 16, the marker on the last one alone, and the payload of
-- each starting where the one before ends. The array keeps its length.
construct_rtp_packets_lem :
    (a : PayloadArray) (payload_type start timestamp ssrc : ℕ) (packets : List RtpPacket)
    → 0 < a.payload_length
    → a.payload_sub_len_size ≤ length a.payload_sub_length
    → a.payload_sub_len_size ≤ length packets
    → start < 2 ^ 16
    → (packets' : List RtpPacket) × (construct_rtp_packets
          (some a)
          payload_type
          start
          timestamp
          ssrc
          (some packets)
        ≡ some (success, some packets'))
      × (length packets' ≡ length packets)
      × ((j : ℕ)
          → j < a.payload_sub_len_size
          → IsPacket payload_type timestamp ssrc a.payload_sub_len_size 0 start a.payload_buffer
              a.payload_sub_length packets' j)
unfolding construct_rtp_packets
construct_rtp_packets_lem a pt start ts ssrc packets h hl hp hs =
    let (after, run, same_length, before, filled) =
      packet_loop_lem pt ts ssrc a.payload_sub_len_size a.payload_sub_len_size 0 start
        a.payload_buffer a.payload_sub_length packets hs hl (omega arith) in
    (after, ground arith, same_length, filled)
