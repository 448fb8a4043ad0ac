-- ===== src/Payload/H264/Fragments.antt =====
-- The packets of a NAL unit, and one round of createPayloadFromNalu of RtpH264Payloader.c.
use kvs_c.Base.{
  ℕ, zero, suc, ◌+◌, ◌-◌, ◌^◌, ◌≤◌, ◌<◌, ◌≡◌, refl, sym, ap, ◌∙◌, Bool, true, false, Option, none,
  some, List, [], ◌∷◌, ◌++◌, arith, length, length-append, length-take, length-drop, take_all,
  drop_all, take, drop, leb, ◌==◌, if◌then◌else◌, min, bit_and, bit_or,
}
use kvs_c.Base.Bytes.{read_block, read_block-take, read_block_whole, write_at-append, store-append}
use native.Mathlib.Decide.{dec_le}
use kvs_c.Status.{success}
use kvs_c.Payload.Chunks.{chunk_loop, chunks}
use kvs_c.Payload.H264.{
  NaluProgress, NaluArray, put_payload, add_payload, fu_header, fragment_round,
}

-- The second byte of a FU-A payload: the type of the unit, with a bit for its start or for its end.
abbrev pub second_byte : (header : ℕ) (first last : Bool) → ℕ
second_byte header true last = bit_or (bit_and header 0x1F) 0x80
second_byte header false true = bit_or (bit_and header 0x1F) 0x40
second_byte header false false = bit_and header 0x1F

abbrev pub is_last : List (List ℕ) → Bool
is_last [] = true
is_last (c ∷ cs) = false

-- The FU-A packets of the pieces of a unit.
abbrev pub fu_packets : (header : ℕ) (first : Bool) → List (List ℕ) → List (List ℕ)
fu_packets header first [] = []
fu_packets header first (c ∷ cs) =
    (bit_or 28 (bit_and header 0x60) ∷ second_byte header first (is_last cs) ∷ c)
    ∷ fu_packets header false cs

-- The packets of a unit: itself when it fits the MTU, and otherwise pieces of it without its header.
abbrev pub nalu_packets : (mtu header : ℕ) (rest : List ℕ) → List (List ℕ)
nalu_packets mtu header rest =
    if leb (suc (length rest)) mtu
    then (header ∷ rest) ∷ []
    else fu_packets header true (chunks (mtu - 2) rest)

-- What does not change in an array while a unit is written to it.
pub record Limits : Type 0 where
  pub buffer_at : ℕ
  pub sub_at : ℕ
  pub max_length : ℕ
  pub max_sub : ℕ

-- An array with what is written and what is left of its memory.
abbrev pub array_of : Limits → (done room done_sub room_sub : List ℕ) → NaluArray
array_of l done room done_sub room_sub = record {
  memory = record { payload_buffer = done ++ room; payload_sub_length = done_sub ++ room_sub };
  payload_buffer_at = l.buffer_at;
  payload_sub_length_at = l.sub_at;
  max_payload_length = l.max_length;
  max_payload_sub_len_size = l.max_sub;
}

-- The variables in the middle of a pass that counts, and of one that writes.
abbrev pub sizing : (total count : ℕ) (left : List ℕ) → NaluProgress
sizing total count left = record {
  remaining = length left;
  cur_in_nalu = left;
  payload_length = total;
  payload_sub_len_size = count;
  payload_at = 0;
  array = none;
}

abbrev pub writing :
    Limits → (total count : ℕ) (left done room done_sub room_sub : List ℕ) → NaluProgress
writing l total count left done room done_sub room_sub = record {
  remaining = length left;
  cur_in_nalu = left;
  payload_length = total;
  payload_sub_len_size = count;
  payload_at = length done;
  array = some (array_of l done room done_sub room_sub);
}

pub add_payload-sizing :
    (size total count : ℕ) (bytes : Option (List ℕ)) (left : List ℕ)
    → total + size < 2 ^ 32
    → count + 1 < 2 ^ 32
    → add_payload size bytes (sizing total count left)
      ≡ some (success, sizing (total + size) (count + 1) left)
unfolding add_payload
add_payload-sizing size total count bytes left ht hc = ground arith

pub add_payload-writing :
    (l : Limits) (total count : ℕ) (p left done room done_sub room_sub : List ℕ)
    → length p ≤ length room
    → 0 < length room_sub
    → total + length p ≤ l.max_length
    → count + 1 ≤ l.max_sub
    → l.max_length < 2 ^ 32
    → l.max_sub < 2 ^ 32
    → length done_sub ≡ l.sub_at + count
    → add_payload (length p) (some p) (writing l total count left done room done_sub room_sub)
      ≡ some (
        success,
        writing l
            (total + length p)
            (count + 1)
            left
            (done ++ p)
            (drop (length p) room)
            (done_sub ++ (length p ∷ []))
            (drop 1 room_sub),
      )
unfolding add_payload put_payload
add_payload-writing l total count p left done room done_sub room_sub hr hs ht hc small small_sub
      at_sub =
    ground (
      arith,
      write_at-append done room p (length done) refl hr,
      store-append done_sub room_sub (length p) (l.sub_at + (count + 1) - 1) (omega (arith, at_sub))
          hs,
      length-append done p,
    )

-- The second byte that the code computes is that of the piece.
pub last_piece :
    (f m : ℕ) (xs : List ℕ)
    → length (drop m xs) ≤ f
    → is_last (chunk_loop f m (drop m xs)) ≡ (length xs == min m (length xs))
last_piece f m xs hf = go (drop m xs) f hf (length-drop m xs)
  where
    go :
        (ys : List ℕ) (f : ℕ)
        → length ys ≤ f
        → length ys ≡ length xs - m
        → is_last (chunk_loop f m ys) ≡ (length xs == min m (length xs))
    go [] zero h e = ground arith
    go [] (suc f) h e = ground arith
    go (y ∷ ys) zero h e = absurd (omega arith)
    go (y ∷ ys) (suc f) h e = ground arith

fu_header-second_byte :
    (header n r cur : ℕ) (first last : Bool)
    → first ≡ (r == n - 1)
    → last ≡ (r == cur)
    → fu_header (bit_and header 0x1F) n r cur ≡ second_byte header first last
fu_header-second_byte header n r cur true last ef el = ground arith
fu_header-second_byte header n r cur false true ef el = ground arith
fu_header-second_byte header n r cur false false ef el = ground arith

-- The packet of the first piece of what is left of a unit.
abbrev pub fu_packet : (header : ℕ) (first last : Bool) → List ℕ → List ℕ
fu_packet header first last piece =
    bit_or 28 (bit_and header 0x60) ∷ second_byte header first last ∷ piece

taken : (m : ℕ) (xs : List ℕ) → read_block (min m (length xs)) xs ≡ some (take m xs)
taken m xs = elim (dec_le m (length xs)) [
  | yes le ↦ let e : min m (length xs) ≡ m = omega arith in rw e (read_block-take m xs le)
  | no gt ↦
      let e : min m (length xs) ≡ length xs = omega arith in
      rw e (read_block_whole xs (length xs) refl ∙ ap some (sym (take_all m xs (omega arith))))
]

dropped : (m : ℕ) (xs : List ℕ) → drop (min m (length xs)) xs ≡ drop m xs
dropped m xs = elim (dec_le m (length xs)) [
  | yes le ↦ ap (λ n. drop n xs) (omega arith)
  | no gt ↦ drop_all (min m (length xs)) xs (omega arith) ∙ sym (drop_all m xs (omega arith))
]

-- One round adds the packet of a piece, and goes on behind it.
pub fragment_round-add_payload :
    (mtu header n : ℕ) (first last : Bool) (xs : List ℕ) (f f' : NaluProgress)
    → first ≡ (length xs == n - 1)
    → last ≡ (length xs == min (mtu - 2) (length xs))
    → let p = fu_packet header first last (take (mtu - 2) xs) in
      add_payload (length p) (some p) (record f { remaining = length xs; cur_in_nalu = xs })
        ≡ some (success, f')
      → fragment_round mtu
          (bit_and header 0x1F)
          (bit_and header 0x60)
          n
          (record f { remaining = length xs; cur_in_nalu = xs })
        ≡ some (
          success,
          record f' { remaining = length (drop (mtu - 2) xs); cur_in_nalu = drop (mtu - 2) xs },
        )
unfolding fragment_round
fragment_round-add_payload mtu header n first last xs f f' ef el added =
    let cur : ℕ = min (mtu - 2) (length xs) in
    let size : 2 + cur ≡ length (fu_packet header first last (take (mtu - 2) xs)) =
      omega (arith, length-take (mtu - 2) xs) in
    let left : length xs - cur ≡ length (drop (mtu - 2) xs) =
      omega (arith, length-drop (mtu - 2) xs) in
    rw
      (
        taken (mtu - 2) xs,
        fu_header-second_byte header n (length xs) cur first last ef el,
        size,
        added,
        left,
        dropped (mtu - 2) xs,
      )
      refl
