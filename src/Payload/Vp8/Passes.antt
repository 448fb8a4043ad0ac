-- ===== src/Payload/Vp8/Passes.antt =====
-- createPayloadForVP8 in both its passes: the sizes, and the packets.
use kvs_c.Base.{
  ℕ, zero, suc, ◌+◌, ◌-◌, ◌^◌, ◌≤◌, ◌<◌, ◌≡◌, refl, sym, ap, ap₂, ◌∙◌, some, List, [], ◌∷◌, ◌++◌,
  arith, length, length-append, length-take, length-drop, take_all, drop_all, take, drop, ◌==◌,
  if◌then◌else◌, append_assoc, append-nil,
}
use kvs_c.Base.Bytes.{
  drop-drop_sum, ◌>>=◌, read_block-take, write_at, write_at-append, store-append,
}
use native.Mathlib.Decide.{dec_lt}
use kvs_c.Payload.Chunks.{chunk_loop, chunks, concat, lengths}
use kvs_c.Payload.Vp8.{Progress, round, write_piece, consumed_of, payload_loop}

-- The packets of the pieces: the first one starts a partition.
abbrev pub packets : (index : ℕ) → List (List ℕ) → List (List ℕ)
packets index [] = []
packets index (c ∷ cs) = ((if index == 0 then 0x10 else 0) ∷ c) ∷ packets (index + 1) cs

-- The packets of a frame.
abbrev pub frame_packets : (mtu : ℕ) → List ℕ → List (List ℕ)
frame_packets mtu frame = packets 0 (chunks (mtu - 1) frame)

-- The variables in the middle of a writing pass, with what is written and what is left of the memory.
abbrev pub writing : (done room done_sub room_sub data_left : List ℕ) → Progress
writing done room done_sub room_sub data_left = record {
  payload_length = length done;
  payload_sub_len_size = length done_sub;
  position = length done;
  current_data = data_left;
  buffers =
      some (record { payload_buffer = done ++ room; payload_sub_length = done_sub ++ room_sub });
}

-- One round appends one packet.
round-writing :
    (k : ℕ) (done room done_sub room_sub xs : List ℕ)
    → k ≤ length xs
    → k + 1 ≤ length room
    → 0 < length room_sub
    → length done + length room < 2 ^ 32
    → length done_sub + length room_sub < 2 ^ 32
    → round k (writing done room done_sub room_sub xs)
      ≡ some (
          writing
            (done ++ ((if length done_sub == 0 then 0x10 else 0) ∷ take k xs))
            (drop (k + 1) room)
            (done_sub ++ ((k + 1) ∷ []))
            (drop 1 room_sub)
            (drop k xs))
unfolding round write_piece
round-writing k done room done_sub room_sub xs hk hr hs small small_sub = ground (
  arith,
  write_at-append done room (d ∷ []) (length done) refl (omega arith),
  read_block-take k xs hk,
  second_copy,
  store-append done_sub room_sub (k + 1) (length done_sub) refl hs,
  length-append done (d ∷ take k xs),
  length-append done_sub ((k + 1) ∷ []),
  taken,
)
  where
    d : ℕ
    d = if length done_sub == 0 then 0x10 else 0

    taken : length (take k xs) ≡ k
    taken = omega (arith, length-take k xs)

    reassociated :
        ((done ++ (d ∷ [])) ++ take k xs) ++ drop (length (take k xs)) (drop 1 room)
        ≡ (done ++ (d ∷ take k xs)) ++ drop (k + 1) room
    reassociated =
        ap₂ ◌++◌ (append_assoc done (d ∷ []) (take k xs))
          (drop-drop_sum 1 (length (take k xs)) (k + 1) room (omega (arith, taken)))

    second_copy :
        write_at ((done ++ (d ∷ [])) ++ drop 1 room) (length done + 1) (take k xs)
        ≡ some ((done ++ (d ∷ take k xs)) ++ drop (k + 1) room)
    second_copy =
        write_at-append (done ++ (d ∷ [])) (drop 1 room) (take k xs) (length done + 1)
          (omega (arith, length-append done (d ∷ []))) (omega (arith, taken, length-drop 1 room))
        ∙ ap some reassociated

-- A round takes what the next piece of the specification holds.
pub consumed-piece :
    (mtu : ℕ) (xs : List ℕ)
    → 2 ≤ mtu
    → mtu < 2 ^ 32
    → let k = consumed_of mtu (length xs) in
      (k ≤ length xs)
      × (take k xs ≡ take (mtu - 1) xs)
      × (drop k xs ≡ drop (mtu - 1) xs)
      × (length (take (mtu - 1) xs) ≡ k)
consumed-piece mtu xs h hm = elim (dec_lt (mtu - 1) (length xs)) [
  | yes less ↦ ground (arith, length-take (mtu - 1) xs)
  | no all ↦ ground (
    arith,
    take_all (mtu - 1) xs,
    take_all (length xs) xs,
    drop_all (mtu - 1) xs,
    drop_all (length xs) xs,
  )
]

-- What the loop leaves in the writing pass.
abbrev pub finished : (done room done_sub room_sub : List ℕ) → List (List ℕ) → Progress
finished done room done_sub room_sub pk =
    writing (done ++ concat pk) (drop (length (concat pk)) room) (done_sub ++ lengths pk)
      (drop (length pk) room_sub) []

-- Writing a packet before the others.
finished-cons :
    (done room done_sub room_sub p : List ℕ) (pk : List (List ℕ)) (k : ℕ)
    → k ≡ length p
    → finished (done ++ p) (drop k room) (done_sub ++ (k ∷ [])) (drop 1 room_sub) pk
      ≡ finished done room done_sub room_sub (p ∷ pk)
finished-cons done room done_sub room_sub p pk k hk = rw hk (
    rw (
      append_assoc done p (concat pk),
      append_assoc done_sub (length p ∷ []) (lengths pk),
      drop-drop_sum 1 (length pk) (suc (length pk)) room_sub (omega arith),
      drop-drop_sum (length p) (length (concat pk)) (length (p ++ concat pk)) room
          (length-append p (concat pk)),
    ))

-- One round, with the piece of the specification.
round-piece :
    (mtu : ℕ) (done room done_sub room_sub xs : List ℕ)
    → 2 ≤ mtu
    → mtu < 2 ^ 32
    → let piece = take (mtu - 1) xs in
      suc (length piece) ≤ length room
      → 0 < length room_sub
      → length done + length room < 2 ^ 32
      → length done_sub + length room_sub < 2 ^ 32
      → round (consumed_of mtu (length xs)) (writing done room done_sub room_sub xs)
        ≡ some (
            writing
              (done ++ ((if length done_sub == 0 then 0x10 else 0) ∷ piece))
              (drop (suc (length piece)) room)
              (done_sub ++ (suc (length piece) ∷ []))
              (drop 1 room_sub)
              (drop (mtu - 1) xs))
round-piece mtu done room done_sub room_sub xs h hm hr hs small small_sub =
    let (k_le, same_take, same_drop, size) = consumed-piece mtu xs h hm in
    let k : ℕ = consumed_of mtu (length xs) in
    let e : k + 1 ≡ suc (length (take (mtu - 1) xs)) = omega arith in
    rw (same_take, same_drop, e) at
      (round-writing k done room done_sub room_sub xs k_le (omega arith) hs small small_sub)

-- A round of the loop while bytes remain.
pub loop-next :
    (f mtu r : ℕ) (p : Progress)
    → payload_loop (suc f) mtu (suc r) p
      ≡ (round (consumed_of mtu (suc r)) p >>= payload_loop f mtu (suc r - consumed_of mtu (suc r)))
unfolding payload_loop
loop-next f mtu r p = ground arith

pub loop-writing :
    (f mtu n r : ℕ) (done room done_sub room_sub xs : List ℕ)
    → 2 ≤ mtu
    → mtu < 2 ^ 32
    → r ≡ length xs
    → n ≡ length done_sub
    → length xs ≤ f
    → let pk = packets n (chunk_loop f (mtu - 1) xs) in
      length (concat pk) ≤ length room
      → length pk ≤ length room_sub
      → length done + length room < 2 ^ 32
      → length done_sub + length room_sub < 2 ^ 32
      → payload_loop f mtu r (writing done room done_sub room_sub xs)
        ≡ some (finished done room done_sub room_sub pk)
unfolding payload_loop
loop-writing zero mtu n r done room done_sub room_sub [] h hm er en hf hr hs small small_sub =
    rw er (rw (append-nil done, append-nil done_sub))
loop-writing zero mtu n r done room done_sub room_sub (x ∷ xs) h hm er en hf hr hs small small_sub =
    absurd (omega arith)
loop-writing (suc f) mtu n r done room done_sub room_sub [] h hm er en hf hr hs small small_sub =
    rw er (rw (append-nil done, append-nil done_sub))
loop-writing (suc f) mtu n r done room done_sub room_sub (x ∷ xs) h hm er en hf hr hs small
      small_sub =
    let sizes = length-append (d ∷ piece) (concat pk) in
    let room_pk : length
          (concat (packets (length done_sub) (chunk_loop (suc f) (mtu - 1) (x ∷ xs))))
        ≤ length room =
      rw en at hr in
    let room_sub_pk : length (packets (length done_sub) (chunk_loop (suc f) (mtu - 1) (x ∷ xs)))
        ≤ length room_sub =
      rw en at hs in
    let (k_le, same_take, same_drop, size) = consumed-piece mtu (x ∷ xs) h hm in
    let left = length-drop (mtu - 1) (x ∷ xs) in
    let ih =
      loop-writing f mtu (length done_sub + 1) (suc (length xs) - k) (done ++ (d ∷ piece))
        (drop (suc (length piece)) room) (done_sub ++ (suc (length piece) ∷ [])) (drop 1 room_sub)
        (drop (mtu - 1) (x ∷ xs)) h hm
        (ap (λ i. i) (sym (length-drop k (x ∷ xs))) ∙ ap length same_drop)
        (omega (arith, length-append done_sub (suc (length piece) ∷ []))) (omega (arith, left))
        (omega (arith, room_pk, sizes, length-drop (suc (length piece)) room))
        (omega (arith, room_sub_pk, length-drop 1 room_sub))
        (omega (
          arith,
          room_pk,
          sizes,
          length-append done (d ∷ piece),
          length-drop (suc (length piece)) room,
        ))
        (omega (
          arith,
          room_sub_pk,
          length-append done_sub (suc (length piece) ∷ []),
          length-drop 1 room_sub,
        )) in
    ap (λ i. payload_loop (suc f) mtu i (writing done room done_sub room_sub (x ∷ xs))) er
    ∙ loop-next f mtu (length xs) (writing done room done_sub room_sub (x ∷ xs))
    ∙ ap (λ o. o >>= payload_loop f mtu (suc (length xs) - k))
        (round-piece mtu done room done_sub room_sub (x ∷ xs) h hm (omega (arith, room_pk, sizes))
          (omega (arith, room_sub_pk)) small small_sub)
    ∙ ih
    ∙ ap some (finished-cons done room done_sub room_sub (d ∷ piece) pk (suc (length piece)) refl)
    ∙ ap
        (λ i. some (
          finished done room done_sub room_sub (packets i (chunk_loop (suc f) (mtu - 1) (x ∷ xs)))))
        (sym en)
  where
    k : ℕ
    k = consumed_of mtu (suc (length xs))

    d : ℕ
    d = if length done_sub == 0 then 0x10 else 0

    piece : List ℕ
    piece = take (mtu - 1) (x ∷ xs)

    pk : List (List ℕ)
    pk = packets (length done_sub + 1) (chunk_loop f (mtu - 1) (drop (mtu - 1) (x ∷ xs)))
