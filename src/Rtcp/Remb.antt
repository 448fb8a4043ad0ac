-- ===== src/Rtcp/Remb.antt =====
-- isRembPacket and rembValueGet on the layout of a REMB message.
use kvs_c.Base.{
  ℕ, zero, suc, ◌+◌, ◌*◌, ◌/◌, ◌%◌, ◌^◌, ◌≤◌, ◌<◌, ◌≡◌, refl, sym, ap, ◌∙◌, none, some, List, [],
  ◌∷◌, ◌++◌, arith, length, length-append, drop, ◌==◌, if◌then◌else◌, append_assoc, ◌&&◌,
}
use kvs_c.Base.Masks.{and_18}
use kvs_c.Base.Bytes.{
  read8, read32, read_block, be16, be32, from_be32, get_elem?-append_more, drop-append,
  read32-append_more,
}
use kvs_c.Status.{success, rtcp_input_remb_invalid}
use kvs_c.Rtcp.{same_bytes, is_remb_packet, ssrc_loop, shift_left32, remb_value_get}

-- A list of SSRCs in network order.
abbrev pub ssrc_bytes : List ℕ → List ℕ
ssrc_bytes [] = []
ssrc_bytes (w ∷ ws) = be32 w ++ ssrc_bytes ws

abbrev pub AllUint32 : List ℕ → Type 0
AllUint32 [] = Unit
AllUint32 (w ∷ ws) = (w < 2 ^ 32) × AllUint32 ws

-- A REMB message behind its twelve bytes of SSRCs and identifier: the count of SSRCs, six bits of
-- exponent, eighteen of mantissa, and the SSRCs.
abbrev pub remb_tail : (exponent mantissa : ℕ) → List ℕ → List ℕ
remb_tail exponent mantissa ssrcs =
    length ssrcs
    ∷ (exponent * 4 + mantissa / 2 ^ 16)
    ∷ (be16 (mantissa % 2 ^ 16) ++ ssrc_bytes ssrcs)

length-ssrc_bytes : (ws : List ℕ) → length (ssrc_bytes ws) ≡ length ws * 4
length-ssrc_bytes [] = refl
length-ssrc_bytes (w ∷ ws) = omega (arith, length-ssrc_bytes ws)

read32-be32 : (w : ℕ) (rest : List ℕ) → w < 2 ^ 32 → read32 (be32 w ++ rest) 0 ≡ some w
unfolding read32
read32-be32 w rest h = ground arith

ssrc_loop-ssrc_bytes :
    (n i : ℕ) (ws front : List ℕ)
    → n ≡ length ws
    → 16 + i * 4 ≡ length front
    → AllUint32 ws
    → ssrc_loop n i (front ++ ssrc_bytes ws) ≡ some ws
unfolding ssrc_loop
ssrc_loop-ssrc_bytes zero i [] front hn hi u = refl
ssrc_loop-ssrc_bytes zero i (w ∷ ws) front hn hi u = absurd (omega arith)
ssrc_loop-ssrc_bytes (suc n) i [] front hn hi u = absurd (omega arith)
ssrc_loop-ssrc_bytes (suc n) i (w ∷ ws) front hn hi (hw, u) =
    let ih =
      ssrc_loop-ssrc_bytes n (i + 1) ws (front ++ be32 w) (omega arith)
        (omega (arith, length-append front (be32 w))) u in
    rw at_word
      (rw (ap (ssrc_loop n (i + 1)) (sym (append_assoc front (be32 w) (ssrc_bytes ws))) ∙ ih))
  where
    at_word : read32 (front ++ ssrc_bytes (w ∷ ws)) (16 + i * 4) ≡ some w
    at_word =
        read32-append_more front (ssrc_bytes (w ∷ ws)) 0 (16 + i * 4) (omega arith)
        ∙ read32-be32 w (ssrc_bytes ws) hw

-- The bit rate and the SSRCs of a REMB message come back when the exponent is below 32; the rate is
-- the mantissa shifted by the exponent and cut to 32 bits.
remb_value_get-remb_tail :
    (front : List ℕ) (exponent mantissa : ℕ) (ssrcs : List ℕ)
    → length front ≡ 12
    → exponent < 32
    → mantissa < 2 ^ 18
    → length ssrcs < 256
    → AllUint32 ssrcs
    → let payload = front ++ remb_tail exponent mantissa ssrcs in
      remb_value_get payload (length payload)
      ≡ some (
        success,
        some (record { maximum_bit_rate = mantissa * 2 ^ exponent % 2 ^ 32; ssrc_list = ssrcs }),
      )
unfolding remb_value_get shift_left32 read32
remb_value_get-remb_tail front ex man ssrcs hf he hm hn u = ground (
  arith,
  read32-append_more front tail 0 12 (omega arith),
  get_elem?-append_more front tail 1 13 (omega arith),
  get_elem?-append_more front tail 0 12 (omega arith),
  and_18 (
      from_be32 (length ssrcs) (ex * 4 + man / 2 ^ 16) (man % 2 ^ 16 / 256 % 256)
        (man % 2 ^ 16 % 256)),
  length-append front tail,
  length-ssrc_bytes ssrcs,
  ap (ssrc_loop (length ssrcs) 0) (sym (append_assoc front first (ssrc_bytes ssrcs))),
  loop,
)
  where
    tail : List ℕ
    tail = remb_tail ex man ssrcs

    first : List ℕ
    first = length ssrcs ∷ (ex * 4 + man / 2 ^ 16) ∷ be16 (man % 2 ^ 16)

    loop : ssrc_loop (length ssrcs) 0 ((front ++ first) ++ ssrc_bytes ssrcs) ≡ some ssrcs
    loop =
        ssrc_loop-ssrc_bytes (length ssrcs) 0 ssrcs (front ++ first) refl
          (omega (arith, length-append front first)) u

-- A message whose exponent is 32 or more runs into a shift by the width of the type or more, which C
-- leaves undefined, whatever else it holds.
pub remb_shift_undefined :
    (payload : List ℕ) (word exponent_byte : ℕ)
    → 16 ≤ length payload
    → read32 payload 12 ≡ some word
    → read8 payload 13 ≡ some exponent_byte
    → 128 ≤ exponent_byte
    → remb_value_get payload (length payload) ≡ none
unfolding remb_value_get shift_left32
remb_shift_undefined payload word b h ew eb hb = ground arith

-- A payload of sixteen bytes or more is REMB exactly when the four letters of the identifier stand
-- behind the first eight bytes; otherwise it is refused as invalid.
is_remb_packet-letters :
    (front rest : List ℕ) (a b c d : ℕ)
    → length front ≡ 8
    → 4 ≤ length rest
    → let payload = front ++ (a ∷ b ∷ c ∷ d ∷ rest) in
      is_remb_packet payload (length payload)
      ≡ some (
          if (0x52 == a) && ((0x45 == b) && ((0x4D == c) && (0x42 == d)))
          then success
          else rtcp_input_remb_invalid)
unfolding is_remb_packet same_bytes read_block
is_remb_packet-letters front rest a b c d hf hr =
    rw (drop_eight) (ground (arith, length-append front (a ∷ b ∷ c ∷ d ∷ rest)))
  where
    drop_eight : drop 8 (front ++ (a ∷ b ∷ c ∷ d ∷ rest)) ≡ a ∷ b ∷ c ∷ d ∷ rest
    drop_eight = drop-append front (a ∷ b ∷ c ∷ d ∷ rest) 8 (omega arith)
