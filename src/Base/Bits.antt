-- ===== src/Base/Bits.antt =====
-- Masks and shifts on one byte as arithmetic; each fact is a table that is checked by evaluation.
use Prim.Native.Nat.{ℕ, zero, suc, ◌+◌, ◌-◌, ◌*◌, ◌/◌, ◌%◌, ◌<◌, bit_and, bit_or}
use mathlib.Core.Path.{◌≡◌, refl}
use mathlib.Core.Bool.{Bool, true, false}
use native.Mathlib.Omega.{arith}
use kvs_c.Base.Tests.{◌==◌, ==_iff, if◌then◌else◌}

-- Whether a test passes at the first numbers, from the last of them down.
pub passes : (test : ℕ → Bool) → (count : ℕ) → Bool
passes test zero = true
passes test (suc last) = if test last then passes test last else false

pub passes_at :
    (test : ℕ → Bool) (count i : ℕ) → i < count → passes test count ≡ true → test i ≡ true
unfolding passes
passes_at test zero i below ok = elim below [ ]
passes_at test (suc last) i below ok =
    let earlier = passes_at test last i in ground (earlier, arith)

-- Two functions that agree in the table of the first numbers.
table :
    (f g : ℕ → ℕ) (count : ℕ)
    → passes (λ i. f i == g i) count ≡ true
    → (i : ℕ) → i < count
    → f i ≡ g i
table f g count ok i below = (==_iff (f i) (g i)).0 (passes_at _ count i below ok)

-- The same for two arguments.
table₂ :
    (f g : ℕ → ℕ → ℕ) (rows columns : ℕ)
    → passes (λ i. passes (λ j. f i j == g i j) columns) rows ≡ true
    → (i j : ℕ) → i < rows
    → j < columns
    → f i j ≡ g i j
table₂ f g rows columns ok i j hi hj =
    (==_iff (f i j) (g i j)).0 (passes_at _ columns j hj (passes_at _ rows i hi ok))

pub and_3 : (b : ℕ) → b < 256 → bit_and b 3 ≡ b % 4
unfolding passes
and_3 = table _ _ 256 refl

pub and_1 : (b : ℕ) → b < 256 → bit_and b 1 ≡ b % 2
unfolding passes
and_1 = table _ _ 256 refl

pub and_15 : (b : ℕ) → b < 256 → bit_and b 0xF ≡ b % 16
unfolding passes
and_15 = table _ _ 256 refl

pub and_31 : (b : ℕ) → b < 256 → bit_and b 0x1F ≡ b % 32
unfolding passes
and_31 = table _ _ 256 refl

pub and_127 : (b : ℕ) → b < 256 → bit_and b 0x7F ≡ b % 128
unfolding passes
and_127 = table _ _ 256 refl

pub and_128 : (b : ℕ) → b < 256 → bit_and b 0x80 ≡ b / 128 * 128
unfolding passes
and_128 = table _ _ 256 refl

pub and_64 : (b : ℕ) → b < 256 → bit_and b 0x40 ≡ b / 64 % 2 * 64
unfolding passes
and_64 = table _ _ 256 refl

pub and_32 : (b : ℕ) → b < 256 → bit_and b 0x20 ≡ b / 32 % 2 * 32
unfolding passes
and_32 = table _ _ 256 refl

pub and_16 : (b : ℕ) → b < 256 → bit_and b 0x10 ≡ b / 16 % 2 * 16
unfolding passes
and_16 = table _ _ 256 refl

-- A two-bit field above a four-bit one.
pub or_fields : (v c : ℕ) → v < 4 → c < 16 → bit_or (v * 64) c ≡ v * 64 + c
unfolding passes
or_fields = table₂ _ _ 4 16 refl

pub or_128 : (b : ℕ) → b < 128 → bit_or b 128 ≡ b + 128
unfolding passes
or_128 = table _ _ 128 refl

-- The bits 5 and 4, in a byte of those fields where they are clear.
pub or_32 : (b : ℕ) → b < 256 → bit_or b 32 ≡ b + 32 * (1 - b / 32 % 2)
unfolding passes
or_32 = table _ _ 256 refl

pub or_16 : (b : ℕ) → b < 256 → bit_or b 16 ≡ b + 16 * (1 - b / 16 % 2)
unfolding passes
or_16 = table _ _ 256 refl

-- The first byte of a FU-A payload keeps its indicator, and the first bit of the second one tells
-- whether a unit starts; both together give the header of a unit whose first bit is not set.
pub fu_indicator : (b : ℕ) → b < 256 → bit_and (bit_or 28 (bit_and b 0x60)) 31 ≡ 28
unfolding passes
fu_indicator = table _ _ 256 refl

pub fu_starts : (b : ℕ) → b < 256 → bit_and (bit_or (bit_and b 0x1F) 0x80) 0x80 ≡ 128
unfolding passes
fu_starts = table _ _ 256 refl

pub fu_ends : (b : ℕ) → b < 256 → bit_and (bit_or (bit_and b 0x1F) 0x40) 0x80 ≡ 0
unfolding passes
fu_ends = table _ _ 256 refl

pub fu_middle : (b : ℕ) → b < 256 → bit_and (bit_and b 0x1F) 0x80 ≡ 0
unfolding passes
fu_middle = table _ _ 256 refl

pub fu_rebuilt :
    (b : ℕ)
    → b < 128
    → bit_or
        (bit_and (bit_or 28 (bit_and b 0x60)) 0x60)
        (bit_and (bit_or (bit_and b 0x1F) 0x80) 0x1F)
      ≡ b
unfolding passes
fu_rebuilt = table _ _ 128 refl

-- The bytes in front of a fragmentation unit of H.265: the packet type, the marks, and the first byte.
pub fu_type_h265 :
    (b : ℕ) → b < 256 → bit_and (bit_or (bit_or 98 (bit_and b 0x81)) (bit_and b 1) / 2) 0x3F ≡ 49
unfolding passes
fu_type_h265 = table _ _ 256 refl

pub fu_starts_h265 :
    (b : ℕ) → b < 256 → bit_and (bit_or (bit_and (bit_and b 0x7E / 2) 0x3F) 0x80) 0x80 ≡ 128
unfolding passes
fu_starts_h265 = table _ _ 256 refl

pub fu_ends_h265 :
    (b : ℕ) → b < 256 → bit_and (bit_or (bit_and (bit_and b 0x7E / 2) 0x3F) 0x40) 0x80 ≡ 0
unfolding passes
fu_ends_h265 = table _ _ 256 refl

pub fu_middle_h265 : (b : ℕ) → b < 256 → bit_and (bit_and (bit_and b 0x7E / 2) 0x3F) 0x80 ≡ 0
unfolding passes
fu_middle_h265 = table _ _ 256 refl

pub fu_rebuilt_h265 :
    (b : ℕ)
    → b < 256
    → bit_or
        (bit_and (bit_or (bit_and (bit_and b 0x7E / 2) 0x3F) 0x80) 0x3F * 2)
        (bit_and (bit_or (bit_or 98 (bit_and b 0x81)) (bit_and b 1)) 0x81)
      ≡ b
unfolding passes
fu_rebuilt_h265 = table _ _ 256 refl
