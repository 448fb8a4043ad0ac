-- ===== src/Rtp/Wire.antt =====
-- The first two bytes of an RTP packet: what is packed into them is what is read back.
use kvs_c.Base.{
  ℕ, ◌+◌, ◌-◌, ◌*◌, ◌/◌, ◌%◌, ◌<◌, ◌≡◌, Bool, true, false, arith, ltb, if◌then◌else◌, bit_and,
}
use kvs_c.Base.Bits.{and_1, and_3, and_15, and_127, or_fields, or_16, or_32, or_128}
use kvs_c.Rtp.Serialize.{first_byte, second_byte}

bit : Bool → ℕ → ℕ
bit b n = if b then n else 0

first_byte_value :
    (v c : ℕ) (p e : Bool) → v < 4 → c < 16 → first_byte v p e c ≡ v * 64 + bit p 32 + bit e 16 + c
unfolding first_byte bit
first_byte_value v c false false hv hc = omega (arith, or_fields v c hv hc)
first_byte_value v c false true hv hc =
    rw (or_fields v c hv hc) (omega (arith, or_16 ((v * 64 + c) % 256) (omega arith)))
first_byte_value v c true false hv hc =
    rw (or_fields v c hv hc) (omega (arith, or_32 ((v * 64 + c) % 256) (omega arith)))
first_byte_value v c true true hv hc =
    rw (or_fields v c hv hc, or_32 ((v * 64 + c) % 256) (omega arith))
      (omega
        (arith, or_16 ((v * 64 + c) % 256 + 32 * (1 - (v * 64 + c) % 256 / 32 % 2)) (omega arith)))

-- The masks on a byte of that value.
masks :
    (v c : ℕ) (p e : Bool)
    → v < 4
    → c < 16
    → let b = v * 64 + bit p 32 + bit e 16 + c in
      (bit_and (b / 64) 3 ≡ v)
      × (ltb 0 (bit_and (b / 32) 1) ≡ p)
      × (ltb 0 (bit_and (b / 16) 1) ≡ e)
      × (bit_and b 0xF ≡ c)
unfolding bit
masks v c p e hv hc =
    let b : ℕ = v * 64 + bit p 32 + bit e 16 + c in
    ground (arith, and_3 (b / 64), and_1 (b / 32), and_1 (b / 16), and_15 b)

-- Version, padding, extension and csrc count come back from the byte.
pub first_byte_fields :
    (v c : ℕ) (p e : Bool)
    → v < 4
    → c < 16
    → let b = first_byte v p e c in
      (bit_and (b / 64) 3 ≡ v)
      × (ltb 0 (bit_and (b / 32) 1) ≡ p)
      × (ltb 0 (bit_and (b / 16) 1) ≡ e)
      × (bit_and b 0xF ≡ c)
first_byte_fields v c p e hv hc = rw (first_byte_value v c p e hv hc) (masks v c p e hv hc)

-- Marker and payload type come back from the byte.
pub second_byte_fields :
    (m : Bool) (t : ℕ)
    → t < 128
    → let b = second_byte m t in (ltb 0 (bit_and (b / 128) 1) ≡ m) × (bit_and b 0x7F ≡ t)
unfolding second_byte
second_byte_fields m t h =
    ground
      (arith, or_128 t h, and_1 (t / 128), and_1 ((t + 128) / 128), and_127 t, and_127 (t + 128))
