-- ===== src/Base/Bytes.antt =====
-- Memory as a list of bytes from a pointer on; `none` is an access behind its end.
-- getInt16 and getInt32 of the sources turn a host load of network bytes into the number, whatever
-- the host's byte order, and putUnalignedInt16BigEndian and putUnalignedInt32BigEndian write one.
use Prim.Native.Nat.{ℕ, zero, suc, ◌+◌, ◌*◌, ◌/◌, ◌%◌, ◌^◌, ◌≤◌, ◌<◌}
use mathlib.Core.Path.{◌≡◌, refl, ap}
use mathlib.Core.Option.{Option, none, some}
use mathlib.Core.List.{List, [], ◌∷◌, ◌++◌, append-nil, append_assoc}
use native.Mathlib.Omega.{arith}
use kvs_c.Base.Tests.{ltb, leb, if◌then◌else◌}
use kvs_c.Base.Lists.{set, length-append, take-append_length, length, get_elem?, get_or, take, drop}

infixl 5 ◌>>=◌ ◌>>◌
abbrev pub ◌>>=◌ {ℓ κ} : {A : Type ℓ} {B : Type κ} → Option A → (A → Option B) → Option B
none >>= f = none
some a >>= f = f a

abbrev pub ◌>>◌ {ℓ} : {B : Type ℓ} → Option (Unit {0}) → Option B → Option B
m >> k = m >>= λ _. k

-- Every element of a list is a byte.
abbrev pub AllBytes : List ℕ → Type 0
AllBytes [] = Unit
AllBytes (b ∷ bs) = (b < 256) × AllBytes bs

-- The bytes of a UINT16 and of a UINT32 in network order.
abbrev pub be16 : ℕ → List ℕ
be16 n = (n / 256 % 256) ∷ (n % 256) ∷ []

abbrev pub be32 : ℕ → List ℕ
be32 n = (n / 2 ^ 24 % 256) ∷ (n / 2 ^ 16 % 256) ∷ (n / 256 % 256) ∷ (n % 256) ∷ []

abbrev pub from_be16 : ℕ → ℕ → ℕ
from_be16 a b = a * 256 + b

abbrev pub from_be32 : ℕ → ℕ → ℕ → ℕ → ℕ
from_be32 a b c d = a * 2 ^ 24 + b * 2 ^ 16 + c * 256 + d

-- A byte of memory.
abbrev pub read8 : List ℕ → ℕ → Option ℕ
read8 mem i = get_elem? mem i

-- `getInt16(*(PUINT16) (p + i))`
unfoldable pub read16 : List ℕ → ℕ → Option ℕ
read16 mem i = do a ← get_elem? mem i; b ← get_elem? mem (i + 1); some (from_be16 a b)

-- `getInt32(*(PUINT32) (p + i))`
unfoldable pub read32 : List ℕ → ℕ → Option ℕ
read32 mem i = do
  a ← get_elem? mem i
  b ← get_elem? mem (i + 1)
  c ← get_elem? mem (i + 2)
  d ← get_elem? mem (i + 3)
  some (from_be32 a b c d)

-- The source of MEMCPY: `n` elements from the pointer on.
unfoldable pub read_block {ℓ} : {A : Type ℓ} → ℕ → List A → Option (List A)
read_block zero mem = some []
read_block (suc n) [] = none
read_block (suc n) (x ∷ mem) = do xs ← read_block n mem; some (x ∷ xs)

-- MEMCPY to an offset of a block, and a store into an element of an array.
unfoldable pub write_at : List ℕ → ℕ → List ℕ → Option (List ℕ)
write_at block i piece =
    if leb (i + length piece) (length block)
    then some (take i block ++ (piece ++ drop (i + length piece) block))
    else none

unfoldable pub store : List ℕ → ℕ → ℕ → Option (List ℕ)
store xs i v = if ltb i (length xs) then some (set xs i v) else none

pub read_block-append {ℓ} :
    {A : Type ℓ} (xs ys : List A) (n : ℕ) → n ≡ length xs → read_block n (xs ++ ys) ≡ some xs
unfolding read_block
read_block-append [] ys zero h = refl
read_block-append [] ys (suc n) h = absurd (omega arith)
read_block-append (x ∷ xs) ys zero h = absurd (omega arith)
read_block-append (x ∷ xs) ys (suc n) h = rw (read_block-append xs ys n (omega arith))

pub read_block-take {ℓ} :
    {A : Type ℓ} (n : ℕ) (xs : List A) → n ≤ length xs → read_block n xs ≡ some (take n xs)
unfolding read_block
read_block-take zero xs h = refl
read_block-take (suc n) [] h = absurd (omega arith)
read_block-take (suc n) (x ∷ xs) h = rw (read_block-take n xs (omega arith))

pub read_block_short {ℓ} :
    {A : Type ℓ} (n : ℕ) (xs : List A) → length xs < n → read_block n xs ≡ none
unfolding read_block
read_block_short zero xs h = absurd (omega arith)
read_block_short (suc n) [] h = refl
read_block_short (suc n) (x ∷ xs) h = rw (read_block_short n xs (omega arith))

pub get_elem?-append {ℓ} :
    {A : Type ℓ} (xs ys : List A) (i : ℕ) → get_elem? (xs ++ ys) (length xs + i) ≡ get_elem? ys i
get_elem?-append [] ys i = ap (get_elem? ys) (omega arith)
get_elem?-append (x ∷ xs) ys i =
    let e : suc (length xs) + i ≡ suc (length xs + i) = omega arith in
    rw e (get_elem?-append xs ys i)

pub read16-append : (xs ys : List ℕ) (i : ℕ) → read16 (xs ++ ys) (length xs + i) ≡ read16 ys i
unfolding read16
read16-append xs ys i =
    let e : length xs + i + 1 ≡ length xs + (i + 1) = omega arith in
    rw (e, get_elem?-append xs ys i, get_elem?-append xs ys (i + 1))

pub drop-append {ℓ} : {A : Type ℓ} (xs ys : List A) (n : ℕ) → n ≡ length xs → drop n (xs ++ ys) ≡ ys
drop-append [] ys zero h = refl
drop-append [] ys (suc n) h = absurd (omega arith)
drop-append (x ∷ xs) ys zero h = absurd (omega arith)
drop-append (x ∷ xs) ys (suc n) h = drop-append xs ys n (omega arith)

pub length-read_block {ℓ} :
    {A : Type ℓ} (n : ℕ) (mem xs : List A) → read_block n mem ≡ some xs → length xs ≡ n
unfolding read_block
length-read_block zero mem xs h = ground (arith, h)
length-read_block (suc n) [] xs h = cc
length-read_block (suc n) (x ∷ mem) [] h = ground arith
length-read_block (suc n) (x ∷ mem) (y ∷ ys) h = ground (arith, length-read_block n mem ys)

pub get_elem?-some {ℓ} :
    {A : Type ℓ} (m : List A) (i : ℕ) → i < length m → (x : A) × (get_elem? m i ≡ some x)
get_elem?-some [] i h = absurd (omega arith)
get_elem?-some (x ∷ m) zero h = (x, refl)
get_elem?-some (x ∷ m) (suc i) h = get_elem?-some m i (omega arith)

pub read16-some : (m : List ℕ) (i : ℕ) → i + 2 ≤ length m → (v : ℕ) × (read16 m i ≡ some v)
unfolding read16
read16-some m i h =
    let (a, ea) = get_elem?-some m i (omega arith) in
    let (b, eb) = get_elem?-some m (i + 1) (omega arith) in (from_be16 a b, rw (ea, eb))

pub read32-some : (m : List ℕ) (i : ℕ) → i + 4 ≤ length m → (v : ℕ) × (read32 m i ≡ some v)
unfolding read32
read32-some m i h =
    let (a, ea) = get_elem?-some m i (omega arith) in
    let (b, eb) = get_elem?-some m (i + 1) (omega arith) in
    let (c, ec) = get_elem?-some m (i + 2) (omega arith) in
    let (d, ed) = get_elem?-some m (i + 3) (omega arith) in (from_be32 a b c d, rw (ea, eb, ec, ed))

pub get_elem?-eq-get_or :
    (m : List ℕ) (i d : ℕ) → i < length m → get_elem? m i ≡ some (get_or m i d)
get_elem?-eq-get_or [] i d h = absurd (omega arith)
get_elem?-eq-get_or (x ∷ m) zero d h = refl
get_elem?-eq-get_or (x ∷ m) (suc i) d h = get_elem?-eq-get_or m i d (omega arith)

pub drop-append_more {ℓ} :
    {A : Type ℓ} (xs ys : List A) (k n : ℕ) → n ≡ length xs + k → drop n (xs ++ ys) ≡ drop k ys
drop-append_more [] ys k n h = ap (λ i. drop i ys) (omega arith)
drop-append_more (x ∷ xs) ys k zero h = absurd (omega arith)
drop-append_more (x ∷ xs) ys k (suc n) h = drop-append_more xs ys k n (omega arith)

pub read_block_whole {ℓ} :
    {A : Type ℓ} (xs : List A) (n : ℕ) → n ≡ length xs → read_block n xs ≡ some xs
read_block_whole xs n h = rw (append-nil xs) at (read_block-append xs [] n h)

pub read16-append_more :
    (xs ys : List ℕ) (k n : ℕ) → n ≡ length xs + k → read16 (xs ++ ys) n ≡ read16 ys k
read16-append_more xs ys k n h = rw h (read16-append xs ys k)

pub read32-append_more :
    (xs ys : List ℕ) (k n : ℕ) → n ≡ length xs + k → read32 (xs ++ ys) n ≡ read32 ys k
unfolding read32
read32-append_more xs ys k n h =
    let e1 : length xs + k + 1 ≡ length xs + (k + 1) = omega arith in
    let e2 : length xs + k + 2 ≡ length xs + (k + 2) = omega arith in
    let e3 : length xs + k + 3 ≡ length xs + (k + 3) = omega arith in
    rw h (
      rw (e1, e2, e3)
        (rw (
          get_elem?-append xs ys k,
          get_elem?-append xs ys (k + 1),
          get_elem?-append xs ys (k + 2),
          get_elem?-append xs ys (k + 3),
        )))

pub get_elem?-append_more {ℓ} :
    {A : Type ℓ} (xs ys : List A) (k n : ℕ)
    → n ≡ length xs + k
    → get_elem? (xs ++ ys) n ≡ get_elem? ys k
get_elem?-append_more xs ys k n h = rw h (get_elem?-append xs ys k)

-- A copy right behind the bytes in front.
pub write_at-append :
    (front rest piece : List ℕ) (n : ℕ)
    → n ≡ length front
    → length piece ≤ length rest
    → write_at (front ++ rest) n piece ≡ some ((front ++ piece) ++ drop (length piece) rest)
unfolding write_at
write_at-append front rest piece n hn h = rw hn (
    ground (
      arith,
      length-append front rest,
      take-append_length front rest,
      drop-append_more front rest (length piece) (length front + length piece) refl,
      append_assoc front piece (drop (length piece) rest),
    ))

set-append :
    (front rest : List ℕ) (v : ℕ)
    → 0 < length rest
    → set (front ++ rest) (length front) v ≡ (front ++ (v ∷ [])) ++ drop 1 rest
set-append [] [] v h = absurd (omega arith)
set-append [] (x ∷ rest) v h = refl
set-append (x ∷ front) rest v h = ap (λ l. x ∷ l) (set-append front rest v h)

-- A store right behind the elements in front.
pub store-append :
    (front rest : List ℕ) (v n : ℕ)
    → n ≡ length front
    → 0 < length rest
    → store (front ++ rest) n v ≡ some ((front ++ (v ∷ [])) ++ drop 1 rest)
unfolding store
store-append front rest v n hn h =
    rw hn (ground (arith, length-append front rest, set-append front rest v h))

pub drop-drop_sum : (i j t : ℕ) (xs : List ℕ) → t ≡ i + j → drop j (drop i xs) ≡ drop t xs
drop-drop_sum zero j t xs h = ap (λ n. drop n xs) (omega arith)
drop-drop_sum (suc i) j zero xs h = absurd (omega arith)
drop-drop_sum (suc i) zero (suc t) [] h = refl
drop-drop_sum (suc i) (suc j) (suc t) [] h = refl
drop-drop_sum (suc i) j (suc t) (x ∷ xs) h = drop-drop_sum i j t xs (omega arith)
