-- ===== src/Rtp/Bounds.antt =====
-- Writing stays inside the buffer; reading is safe without an extension, and may leave the packet
-- with one.
use kvs_c.Base.{
  ℕ, zero, suc, ◌+◌, ◌-◌, ◌*◌, ◌^◌, ◌≤◌, ◌<◌, ◌≡◌, refl, ap, Bool, true, false, Option, none, some,
  List, [], ◌∷◌, ◌++◌, arith, length, length-append, length-drop, drop, if◌then◌else◌,
  length-eq_zero, get_elem?, Option-cases, inl, inr, get_or,
}
use kvs_c.Base.Bytes.{
  read16-some, read32-some, get_elem?-some, get_elem?-eq-get_or, length-read_block, read16,
  read_block,
}
use kvs_c.Status.{Status, success}
use kvs_c.Rtp.{RtpPacketHeader, RtpPacket, set_rtp_packet}
use kvs_c.Rtp.Parse.{
  host_load32, load_words, read_extension, read_fixed, read_rest, set_rtp_packet_from_bytes,
  csrc_end, csrc_count_of, extension_of, parsed_header, FixedHeader, Extension,
}
use kvs_c.Rtp.Serialize.{
  csrc_bytes, fixed_bytes, tail_bytes, copy_from, payload_bytes, set_bytes_from_rtp_packet,
}

pub length-csrc_bytes : (ws : List ℕ) → length (csrc_bytes ws) ≡ length ws * 4
unfolding csrc_bytes
length-csrc_bytes [] = refl
length-csrc_bytes (w ∷ ws) = omega (arith, length-csrc_bytes ws)

load_words-some :
    (e : Bool) (n : ℕ) (m : List ℕ)
    → n * 4 ≤ length m
    → (ws : List ℕ) × (load_words e n m ≡ some ws)
unfolding load_words
load_words-some e zero m h = ([], refl)
load_words-some e (suc n) (a ∷ b ∷ c ∷ d ∷ m) h =
    let (ws, ew) = load_words-some e n m (omega arith) in (host_load32 e a b c d ∷ ws, rw ew)
load_words-some e (suc n) _ h = absurd (omega arith)

-- The fixed header of a long enough memory, with its first byte.
read_fixed-some :
    (m : List ℕ)
    → 12 ≤ length m
    → (f : FixedHeader) × (read_fixed m ≡ some f) × (f.byte0 ≡ get_or m 0 0)
unfolding read_fixed
read_fixed-some m h =
    let (b, eb) = get_elem?-some m 1 (omega arith) in
    let (s, es) = read16-some m 2 (omega arith) in
    let (t, et) = read32-some m 4 (omega arith) in
    let (r, er) = read32-some m 8 (omega arith) in
    (
      record { byte0 = get_or m 0 0; byte1 = b; sequence_number = s; timestamp = t; ssrc = r },
      rw (get_elem?-eq-get_or m 0 0 (omega arith), eb, es, et, er),
      refl,
    )

-- A packet without an extension is read inside its memory: the read succeeds or answers that the
-- packet is too small, and the payload is what the memory holds behind the header.
parse_plain :
    (big_endian : Bool) (m : List ℕ) (p : RtpPacket)
    → 12 ≤ length m
    → length m < 2 ^ 32
    → extension_of (get_or m 0 0) ≡ false
    → csrc_end (get_or m 0 0) ≤ length m
    → (q : RtpPacket) × (set_rtp_packet_from_bytes big_endian m (length m) p ≡ some (success, q))
      × (q.payload ≡ some (drop (csrc_end (get_or m 0 0)) m))
      × (q.payload_length ≡ length m - csrc_end (get_or m 0 0))
      × (q.header.extension ≡ false)
unfolding set_rtp_packet_from_bytes read_rest set_rtp_packet read_extension parsed_header
parse_plain e m p h hs plain fits =
    let (f, ef, e0) = read_fixed-some m h in
    let (ws, ew) =
      load_words-some e (csrc_count_of (get_or m 0 0)) (drop 12 m)
        (omega (arith, length-drop 12 m)) in
    let ext : Extension = record {
      profile = 0;
      length = 0;
      payload = none;
      offset = csrc_end (get_or m 0 0);
    } in
    (
      record p {
        header = parsed_header f ws ext;
        payload = some (drop ext.offset m);
        payload_length = length m - ext.offset;
      },
      ground arith,
      refl,
      refl,
      ground arith,
    )

get_elem?-none {ℓ} : {A : Type ℓ} (m : List A) (i : ℕ) → length m ≤ i → get_elem? m i ≡ none
get_elem?-none [] i h = refl
get_elem?-none (x ∷ m) zero h = absurd (omega arith)
get_elem?-none (x ∷ m) (suc i) h = get_elem?-none m i (omega arith)

-- When memory ends inside the four bytes in front of an extension, they are not both read.
read_extension-none : (m : List ℕ) (i : ℕ) → length m < i + 4 → read_extension true m i ≡ none
unfolding read_extension read16
read_extension-none m i h = ground (arith, get_elem?-none m (i + 2 + 1) (omega arith))

-- A packet whose extension bit is set and that ends before the extension's four header bytes is
-- read behind its end, whatever it holds.
pub parse_overread :
    (big_endian : Bool) (m : List ℕ) (p : RtpPacket)
    → 12 ≤ length m
    → extension_of (get_or m 0 0) ≡ true
    → csrc_end (get_or m 0 0) ≤ length m
    → length m < csrc_end (get_or m 0 0) + 4
    → set_rtp_packet_from_bytes big_endian m (length m) p ≡ none
unfolding set_rtp_packet_from_bytes read_rest
parse_overread e m p h ext fits short =
    let (f, ef, e0) = read_fixed-some m h in
    let (ws, ew) =
      load_words-some e (csrc_count_of (get_or m 0 0)) (drop 12 m)
        (omega (arith, length-drop 12 m)) in
    ground (arith, read_extension-none m (csrc_end (get_or m 0 0)) short)

read_extension_payload :
    (m : List ℕ) (i : ℕ) (ext : Extension)
    → read_extension true m i ≡ some ext
    → ext.payload ≡ some (drop (i + 4) m)
unfolding read_extension
read_extension_payload m i ext h = ground arith

-- A packet whose extension claims to end behind the packet is accepted, and its payload length wraps
-- round: it is 2 ^ 32 less what is missing, and the memory holds none of it.
pub parse_wraps :
    (big_endian : Bool) (m : List ℕ) (p : RtpPacket) (ext : Extension)
    → 12 ≤ length m
    → length m < 2 ^ 32
    → extension_of (get_or m 0 0) ≡ true
    → csrc_end (get_or m 0 0) ≤ length m
    → read_extension true m (csrc_end (get_or m 0 0)) ≡ some ext
    → length m < ext.offset
    → ext.offset < 2 ^ 32
    → (q : RtpPacket) × (set_rtp_packet_from_bytes big_endian m (length m) p ≡ some (success, q))
      × (q.payload_length ≡ 2 ^ 32 - (ext.offset - length m))
      × (q.payload ≡ some [])
unfolding set_rtp_packet_from_bytes read_rest set_rtp_packet parsed_header
parse_wraps e m p ext h hs on fits ee beyond small =
    let (f, ef, e0) = read_fixed-some m h in
    let (ws, ew) =
      load_words-some e (csrc_count_of (get_or m 0 0)) (drop 12 m)
        (omega (arith, length-drop 12 m)) in
    (
      record p {
        header = parsed_header f ws ext;
        payload = some (drop ext.offset m);
        payload_length = 2 ^ 32 - (ext.offset - length m);
      },
      ground (arith, read_extension_payload m (csrc_end (get_or m 0 0)) ext),
      refl,
      ap some (length-eq_zero (drop ext.offset m) (omega (arith, length-drop ext.offset m))),
    )

-- What is written, by parts.
pub length-fixed_bytes : (h : RtpPacketHeader) → length (fixed_bytes h) ≡ 12
unfolding fixed_bytes
length-fixed_bytes h = refl

length-copy_from :
    (m : Option (List ℕ)) (n : ℕ) (bytes : List ℕ) → copy_from m n ≡ some bytes → length bytes ≡ n
unfolding copy_from
length-copy_from none zero bytes h = ground arith
length-copy_from none (suc n) bytes h = cc
length-copy_from (some m) n bytes h = length-read_block n m bytes h

length-payload_bytes :
    (m : Option (List ℕ)) (n : ℕ) (bytes : List ℕ)
    → payload_bytes m n ≡ some bytes
    → length bytes ≤ n
unfolding payload_bytes
length-payload_bytes none n bytes h = ground arith
length-payload_bytes (some m) n bytes h = omega (arith, length-read_block n m bytes h)

length-tail_bytes :
    (p : RtpPacket) (status : Status) (bytes : List ℕ)
    → tail_bytes p ≡ some (status, bytes)
    → length bytes
      ≤ (if p.header.extension then 4 + p.header.extension_length else 0) + p.payload_length
unfolding tail_bytes
length-tail_bytes p status bytes h =
    elim (Option-cases (payload_bytes p.payload p.payload_length)) [
      | inl no_body ↦
          elim (Option-cases (copy_from p.header.extension_payload p.header.extension_length)) [
            | inl no_ext ↦ ground arith
            | inr (ext, ee) ↦ ground arith
          ]
      | inr (body, eb) ↦
          elim (Option-cases (copy_from p.header.extension_payload p.header.extension_length)) [
            | inl no_ext ↦ ground (arith, length-payload_bytes p.payload p.payload_length body eb)
            | inr (ext, ee) ↦ ground (
              arith,
              length-payload_bytes p.payload p.payload_length body eb,
              length-copy_from p.header.extension_payload p.header.extension_length ext ee,
              length-append ext body,
            )
          ]
    ]

-- No write of setBytesFromRtpPacket leaves a buffer of the stated size, whatever the status, when
-- the packet's size fits a UINT32.
pub set_bytes_fit :
    (p : RtpPacket) (packet_length : ℕ) (status : Status) (bytes : List ℕ)
    → 12
        + p.header.csrc_count * 4
        + (if p.header.extension then 4 + p.header.extension_length else 0)
        + p.payload_length
      < 2 ^ 32
    → set_bytes_from_rtp_packet p packet_length ≡ some (status, bytes)
    → length bytes ≤ packet_length
unfolding set_bytes_from_rtp_packet
set_bytes_fit p n status bytes hs h =
    elim (Option-cases (read_block p.header.csrc_count p.header.csrc_array)) [
      | inl no_words ↦ ground arith
      | inr (words, ew) ↦ elim (Option-cases (tail_bytes p)) [
        | inl no_tail ↦ ground arith
        | inr ((st, rest), et) ↦ ground (
          arith,
          length-fixed_bytes p.header,
          length-append (fixed_bytes p.header) (csrc_bytes words ++ rest),
          length-append (csrc_bytes words) rest,
          length-csrc_bytes words,
          length-read_block p.header.csrc_count p.header.csrc_array words ew,
          length-tail_bytes p st rest et,
        )
      ]
    ]
