-- ===== src/Base/Masks.antt =====
-- The mask of the low 18 bits of a word of any width, from the digit recursion of `bit_and`.
use Prim.Native.Nat.{
  ℕ, zero, suc, ◌+◌, ◌*◌, ◌/◌, ◌%◌, ◌^◌, ◌≤◌, min, bit_and, digits, bit_and-bitwise,
}
use mathlib.Core.Path.{◌≡◌, refl, ap}
use native.Mathlib.Omega.{arith}

-- The recursion with its bound on the digits written out.
abbrev conj : ℕ → ℕ → ℕ → ℕ
conj bound x y = digits (λ z. zero) min bound x y

-- Any bound that covers the first argument gives the same.
conj_bound : (k l x y : ℕ) → x ≤ k → x ≤ l → conj k x y ≡ conj l x y
conj_bound (suc k) (suc l) (suc x) y hk hl =
    omega (arith, conj_bound k l (suc x / 2) (y / 2) (omega arith) (omega arith))
conj_bound (suc k) (suc l) zero y hk hl = refl
conj_bound (suc k) zero zero y hk hl = refl
conj_bound zero (suc l) zero y hk hl = refl
conj_bound zero zero zero y hk hl = refl
conj_bound (suc k) zero (suc x) y hk hl = absurd (omega arith)
conj_bound zero l (suc x) y hk hl = absurd (omega arith)

and_zero_left : (y : ℕ) → bit_and 0 y ≡ 0
and_zero_left y = bit_and-bitwise 0 y

-- The lowest digit, and the digits above it.
and_halves : (x y : ℕ) → bit_and x y ≡ min (x % 2) (y % 2) + 2 * bit_and (x / 2) (y / 2)
and_halves (suc x) y =
    let upper = conj_bound x (suc x / 2) (suc x / 2) (y / 2) (omega arith) (omega arith) in
    omega (arith, upper, bit_and-bitwise (suc x) y, bit_and-bitwise (suc x / 2) (y / 2))
and_halves zero y = omega (arith, and_zero_left y, and_zero_left (y / 2))

and_zero_right : (bound x : ℕ) → x ≤ bound → bit_and x 0 ≡ 0
and_zero_right bound zero h = refl
and_zero_right zero (suc x) h = absurd (omega arith)
and_zero_right (suc bound) (suc x) h =
    omega (arith, and_zero_right bound (suc x / 2) (omega arith), and_halves (suc x) 0)

-- The digits of a mask, six at a time.
and_63 : (x : ℕ) → bit_and x 63 ≡ x % 64
and_63 x = omega (
  arith,
  and_halves x 63,
  and_halves (x / 2) 31,
  and_halves (x / 2 / 2) 15,
  and_halves (x / 2 / 2 / 2) 7,
  and_halves (x / 2 / 2 / 2 / 2) 3,
  and_halves (x / 2 / 2 / 2 / 2 / 2) 1,
  and_zero_right (x / 2 / 2 / 2 / 2 / 2 / 2) (x / 2 / 2 / 2 / 2 / 2 / 2) (omega arith),
)

-- A one at the lowest digit of the mask.
and_odd : (m y x : ℕ) → y ≡ 2 * m + 1 → bit_and x y ≡ x % 2 + 2 * bit_and (x / 2) m
and_odd m y x e =
    let half : y / 2 ≡ m = omega arith in omega (arith, and_halves x y, ap (bit_and (x / 2)) half)

-- Six more digits of a mask of ones.
and_six_more : (m x : ℕ) → bit_and x (m * 64 + 63) ≡ x % 64 + 64 * bit_and (x / 64) m
and_six_more m x =
    let deep : x / 2 / 2 / 2 / 2 / 2 / 2 ≡ x / 64 = omega arith in
    omega (
      arith,
      and_odd (m * 32 + 31) (m * 64 + 63) x (omega arith),
      and_odd (m * 16 + 15) (m * 32 + 31) (x / 2) (omega arith),
      and_odd (m * 8 + 7) (m * 16 + 15) (x / 2 / 2) (omega arith),
      and_odd (m * 4 + 3) (m * 8 + 7) (x / 2 / 2 / 2) (omega arith),
      and_odd (m * 2 + 1) (m * 4 + 3) (x / 2 / 2 / 2 / 2) (omega arith),
      and_odd m (m * 2 + 1) (x / 2 / 2 / 2 / 2 / 2) (omega arith),
      ap (λ (t : ℕ). bit_and t m) deep,
    )

pub and_18 : (x : ℕ) → bit_and x 0x3FFFF ≡ x % 2 ^ 18
and_18 x = omega (arith, and_six_more 4095 x, and_six_more 63 (x / 64), and_63 (x / 64 / 64))
