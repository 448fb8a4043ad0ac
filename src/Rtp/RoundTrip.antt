-- ===== src/Rtp/RoundTrip.antt =====
-- Reading back what was written.
use kvs_c.Base.{
  ℕ, ◌+◌, ◌-◌, ◌*◌, ◌/◌, ◌%◌, ◌^◌, ◌≤◌, ◌<◌, ◌≡◌, refl, ap, ap₂, ◌∙◌, sym, Bool, true, false, none,
  some, List, [], ◌++◌, map, arith, length, length-append, drop, append_assoc,
}
use kvs_c.Base.Bytes.{drop-append_more, drop-append, be16}
use kvs_c.Status.{success}
use kvs_c.Rtp.{RtpPacketHeader, RtpPacket, rtp_get_raw_packet_size, set_rtp_packet}
use kvs_c.Rtp.Parse.{
  load_words, read_extension, read_fixed, read_rest, set_rtp_packet_from_bytes, csrc_end,
  csrc_count_of, extension_of, parsed_header, FixedHeader, Extension,
}
use kvs_c.Rtp.Serialize.{
  first_byte, second_byte, csrc_bytes, fixed_bytes, set_bytes_from_rtp_packet,
}
use kvs_c.Rtp.Bounds.{length-csrc_bytes, length-fixed_bytes}
use kvs_c.Rtp.Wire.{first_byte_fields, second_byte_fields}
use kvs_c.Rtp.Written.{
  FitsWire, host_view, plain_wire, extended_wire, load_words-csrc_bytes, read_fixed-fixed_bytes,
  read_extension-be16, set_bytes_plain, set_bytes_extended,
}

-- Reading, from its parts.
read_whole :
    (e : Bool) (m : List ℕ) (n : ℕ) (old : RtpPacket) (f : FixedHeader) (ws : List ℕ)
    (ext : Extension)
    → 12 ≤ n
    → read_fixed m ≡ some f
    → csrc_end f.byte0 ≤ n
    → load_words e (csrc_count_of f.byte0) (drop 12 m) ≡ some ws
    → read_extension (extension_of f.byte0) m (csrc_end f.byte0) ≡ some ext
    → set_rtp_packet_from_bytes e m n old
      ≡ some (
          set_rtp_packet
            (parsed_header f ws ext)
            (some (drop ext.offset m))
            ((n + 2 ^ 32 - ext.offset) % 2 ^ 32)
            old)
unfolding set_rtp_packet_from_bytes read_rest
read_whole e m n old f ws ext h ef hc ew ee = ground arith

-- The fixed header that is read back from the packet's first bytes.
abbrev fixed_of : RtpPacketHeader → FixedHeader
fixed_of h = record {
  byte0 = first_byte h.version h.padding h.extension h.csrc_count;
  byte1 = second_byte h.marker h.payload_type;
  sequence_number = h.sequence_number;
  timestamp = h.timestamp;
  ssrc = h.ssrc;
}

parsed_header-fixed_of :
    (h : RtpPacketHeader) (ws : List ℕ) (ext : Extension)
    → FitsWire h
    → parsed_header (fixed_of h) ws ext ≡ record h {
      csrc_array = ws;
      extension_profile = ext.profile;
      extension_payload = ext.payload;
      extension_length = ext.length;
    }
unfolding parsed_header
parsed_header-fixed_of h ws ext w = ground (
  arith,
  first_byte_fields h.version h.csrc_count h.padding h.extension w.version_fits w.csrc_fits,
  second_byte_fields h.marker h.payload_type w.payload_type_fits,
)

-- Reading what starts with the fixed header and the csrc array of `h`.
read_wire :
    (e : Bool) (h : RtpPacketHeader) (rest : List ℕ) (old : RtpPacket) (ext : Extension) (n : ℕ)
    → FitsWire h
    → n ≡ 12 + h.csrc_count * 4 + length rest
    → let m = fixed_bytes h ++ (csrc_bytes h.csrc_array ++ rest) in
      read_extension h.extension m (12 + h.csrc_count * 4) ≡ some ext
      → set_rtp_packet_from_bytes e m n old
        ≡ some (
            set_rtp_packet
              (record h {
                csrc_array = map (host_view e) h.csrc_array;
                extension_profile = ext.profile;
                extension_payload = ext.payload;
                extension_length = ext.length;
              })
              (some (drop ext.offset m))
              ((n + 2 ^ 32 - ext.offset) % 2 ^ 32)
              old)
read_wire e h rest old ext n w hn ee =
    let m : List ℕ = fixed_bytes h ++ (csrc_bytes h.csrc_array ++ rest) in
    let (ev, ep, ex, ec) =
      first_byte_fields h.version h.csrc_count h.padding h.extension w.version_fits w.csrc_fits in
    read_whole e m n old (fixed_of h) (map (host_view e) h.csrc_array) ext (omega arith)
      (read_fixed-fixed_bytes h (csrc_bytes h.csrc_array ++ rest) w) (omega arith)
      (rw ec (
        unfold fixed_bytes in load_words-csrc_bytes e h.csrc_array rest h.csrc_count (omega arith)))
      (rw (ec, ex) ee)
    ∙ ap
        (λ k.
          some
            (set_rtp_packet k (some (drop ext.offset m)) ((n + 2 ^ 32 - ext.offset) % 2 ^ 32) old))
        (parsed_header-fixed_of h (map (host_view e) h.csrc_array) ext w)

length-wire :
    (h : RtpPacketHeader) (rest : List ℕ)
    → FitsWire h
    → length (fixed_bytes h ++ (csrc_bytes h.csrc_array ++ rest))
      ≡ 12 + h.csrc_count * 4 + length rest
unfolding fixed_bytes
length-wire h rest w =
    omega (arith, length-append (csrc_bytes h.csrc_array) rest, length-csrc_bytes h.csrc_array)

-- Behind the fixed header and the csrc array stands the rest.
drop-wire :
    (h : RtpPacketHeader) (rest : List ℕ) (k n : ℕ)
    → FitsWire h
    → n ≡ 12 + h.csrc_count * 4 + k
    → drop n (fixed_bytes h ++ (csrc_bytes h.csrc_array ++ rest)) ≡ drop k rest
drop-wire h rest k n w e =
    drop-append_more (fixed_bytes h) (csrc_bytes h.csrc_array ++ rest) (h.csrc_count * 4 + k) n
      (unfold fixed_bytes in omega arith)
    ∙ drop-append_more (csrc_bytes h.csrc_array) rest k (h.csrc_count * 4 + k)
        (omega (arith, length-csrc_bytes h.csrc_array))

-- A packet without an extension is written in full, in as many bytes as RTP_GET_RAW_PACKET_SIZE
-- says, and reading those bytes gives the packet back: every field of the header and the payload. The
-- csrc elements come back as the host loads them, so their bytes are reversed on a little-endian host.
pub parse-serialize_plain :
    (big_endian : Bool) (p old : RtpPacket) (body : List ℕ)
    → FitsWire p.header
    → p.header.extension ≡ false
    → p.payload ≡ some body
    → p.payload_length ≡ length body
    → length body + 76 < 2 ^ 32
    → let h = p.header in
      (bytes : List ℕ) × (set_bytes_from_rtp_packet p (rtp_get_raw_packet_size p)
        ≡ some (success, bytes))
      × (length bytes ≡ rtp_get_raw_packet_size p)
      × (set_rtp_packet_from_bytes big_endian bytes (length bytes) old
          ≡ some (
            success,
            record old {
              header = record h {
                csrc_array = map (host_view big_endian) h.csrc_array;
                extension_profile = 0;
                extension_payload = none;
                extension_length = 0;
              };
              payload = some body;
              payload_length = length body;
            },
          ))
unfolding read_extension set_rtp_packet
parse-serialize_plain e p old body w plain eb el hs =
    let h = p.header in
    let size : length (plain_wire h body) ≡ 12 + h.csrc_count * 4 + length body =
      length-wire h body w in
    let ext : Extension = record {
      profile = 0;
      length = 0;
      payload = none;
      offset = 12 + h.csrc_count * 4;
    } in
    (
      plain_wire h body,
      set_bytes_plain p body w plain eb el,
      ground arith,
      read_wire e h body old ext (length (plain_wire h body)) w size (rw plain refl)
          ∙ ground (arith, drop-wire h body 0 (12 + h.csrc_count * 4) w (omega arith)),
    )

abbrev extension_front : RtpPacketHeader → List ℕ → List ℕ
extension_front h rest = be16 h.extension_profile ++ (be16 (h.extension_length / 4) ++ rest)

read_extension-wire :
    (h : RtpPacketHeader) (rest : List ℕ)
    → FitsWire h
    → h.extension ≡ true
    → read_extension h.extension
        (fixed_bytes h ++ (csrc_bytes h.csrc_array ++ extension_front h rest))
        (12 + h.csrc_count * 4)
      ≡ some (record {
        profile = h.extension_profile;
        length = h.extension_length;
        payload = some rest;
        offset = 12 + h.csrc_count * 4 + 4 + h.extension_length;
      })
read_extension-wire h rest w extended =
    ap₂ (λ b m. read_extension b m (12 + h.csrc_count * 4)) extended
      (sym (append_assoc (fixed_bytes h) (csrc_bytes h.csrc_array) (extension_front h rest)))
    ∙ read_extension-be16 (fixed_bytes h ++ csrc_bytes h.csrc_array) rest (12 + h.csrc_count * 4)
        h.extension_profile h.extension_length
        (omega (
          arith,
          length-append (fixed_bytes h) (csrc_bytes h.csrc_array),
          length-fixed_bytes h,
          length-csrc_bytes h.csrc_array,
        ))
        w.profile_fits w.extension_fits w.extension_words

drop_body :
    (h : RtpPacketHeader) (ext body : List ℕ)
    → FitsWire h
    → length ext ≡ h.extension_length
    → drop (12 + h.csrc_count * 4 + 4 + h.extension_length) (extended_wire h ext body) ≡ body
drop_body h ext body w le =
    drop-wire h (extension_front h (ext ++ body)) (4 + h.extension_length)
      (12 + h.csrc_count * 4 + 4 + h.extension_length) w (omega arith)
    ∙ drop-append_more (extension_front h []) (ext ++ body) h.extension_length
        (4 + h.extension_length) (omega arith)
    ∙ drop-append ext body h.extension_length (sym le)

-- A packet with an extension is written in full, in as many bytes as RTP_GET_RAW_PACKET_SIZE says,
-- and reading those bytes gives the packet back: every field of the header, the extension with the
-- payload behind it, and the payload. The csrc elements come back as the host loads them.
pub parse-serialize_extended :
    (big_endian : Bool) (p old : RtpPacket) (ext body : List ℕ)
    → FitsWire p.header
    → p.header.extension ≡ true
    → p.header.extension_payload ≡ some ext
    → length ext ≡ p.header.extension_length
    → p.payload ≡ some body
    → p.payload_length ≡ length body
    → length ext + length body + 76 < 2 ^ 32
    → let h = p.header in
      (bytes : List ℕ) × (set_bytes_from_rtp_packet p (rtp_get_raw_packet_size p)
        ≡ some (success, bytes))
      × (length bytes ≡ rtp_get_raw_packet_size p)
      × (set_rtp_packet_from_bytes big_endian bytes (length bytes) old
          ≡ some (
            success,
            record old {
              header = record h {
                csrc_array = map (host_view big_endian) h.csrc_array;
                extension_payload = some (ext ++ body);
              };
              payload = some body;
              payload_length = length body;
            },
          ))
unfolding set_rtp_packet
parse-serialize_extended e p old ext body w extended ee le eb el hs =
    let h = p.header in
    let front : List ℕ =
      be16 h.extension_profile ++ (be16 (h.extension_length / 4) ++ (ext ++ body)) in
    let size : length (extended_wire h ext body) ≡ 12 + h.csrc_count * 4 + length front =
      length-wire h front w in
    let offset : ℕ = 12 + h.csrc_count * 4 in
    let x : Extension = record {
      profile = h.extension_profile;
      length = h.extension_length;
      payload = some (ext ++ body);
      offset = offset + 4 + h.extension_length;
    } in
    (
      extended_wire h ext body,
      set_bytes_extended p ext body w extended ee le eb el,
      ground (arith, length-append ext body),
      read_wire e h front old x (length (extended_wire h ext body)) w size
            (read_extension-wire h (ext ++ body) w extended)
          ∙ ground (arith, length-append ext body, drop_body h ext body w le),
    )
