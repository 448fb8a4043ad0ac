-- ===== src/Payload/Vp8/Sizes.antt =====
-- createPayloadForVP8 with a NULL buffer, and with buffers of the sizes that it then reports.
use kvs_c.Base.{
  ℕ, zero, suc, ◌+◌, ◌-◌, ◌^◌, ◌≤◌, ◌<◌, ◌≡◌, refl, sym, ap, ap₂, ◌∙◌, none, some, List, [], ◌∷◌,
  arith, length, length-append, length-drop, take, drop, drop_all, append-nil, length-map,
}
use kvs_c.Base.Bytes.{◌>>=◌}
use kvs_c.Status.{success}
use kvs_c.Payload.Chunks.{chunk_loop, chunks, concat, lengths}
use kvs_c.Payload.Vp8.{
  Progress, round, write_piece, consumed_of, payload_loop, create_payload_for_vp8,
}
use kvs_c.Payload.Vp8.Passes.{packets, frame_packets, consumed-piece, loop-next, loop-writing}

-- The variables of the loop in a pass that only counts.
abbrev sizing : (total count : ℕ) → List ℕ → Progress
sizing total count frame = record {
  payload_length = total;
  payload_sub_len_size = count;
  position = 0;
  current_data = frame;
  buffers = none;
}

round-sizing :
    (k size total count : ℕ) (frame : List ℕ)
    → size ≡ k + 1
    → total + size < 2 ^ 32
    → count + 1 < 2 ^ 32
    → round k (sizing total count frame) ≡ some (sizing (total + size) (count + 1) frame)
unfolding round write_piece
round-sizing k size total count frame e ht hc = ground arith

loop-sizing :
    (f mtu r i total count : ℕ) (frame xs : List ℕ)
    → 2 ≤ mtu
    → mtu < 2 ^ 32
    → r ≡ length xs
    → length xs ≤ f
    → let pk = packets i (chunk_loop f (mtu - 1) xs) in
      total + length (concat pk) < 2 ^ 32
      → count + length pk < 2 ^ 32
      → payload_loop f mtu r (sizing total count frame)
        ≡ some (sizing (total + length (concat pk)) (count + length pk) frame)
unfolding payload_loop
loop-sizing zero mtu r i total count frame [] h hm er hf ht hc = ground arith
loop-sizing zero mtu r i total count frame (x ∷ xs) h hm er hf ht hc = absurd (omega arith)
loop-sizing (suc f) mtu r i total count frame [] h hm er hf ht hc = ground arith
loop-sizing (suc f) mtu r i total count frame (x ∷ xs) h hm er hf ht hc =
    let (k_le, same_take, same_drop, size) = consumed-piece mtu (x ∷ xs) h hm in
    let left = length-drop (mtu - 1) (x ∷ xs) in
    let ih =
      loop-sizing f mtu (suc (length xs) - k) (i + 1) (total + suc (length piece)) (count + 1) frame
        (drop (mtu - 1) (x ∷ xs)) h hm (sym (length-drop k (x ∷ xs)) ∙ ap length same_drop)
        (omega (arith, left)) (omega (arith, length-append piece (concat pk))) (omega arith) in
    ap (λ j. payload_loop (suc f) mtu j (sizing total count frame)) er
    ∙ loop-next f mtu (length xs) (sizing total count frame)
    ∙ ap (λ o. o >>= payload_loop f mtu (suc (length xs) - k)) (one_round size)
    ∙ ih
    ∙ ap₂ (λ a b. some (sizing a b frame)) (omega (arith, length-append piece (concat pk)))
        (omega arith)
  where
    k : ℕ
    k = consumed_of mtu (suc (length xs))

    piece : List ℕ
    piece = take (mtu - 1) (x ∷ xs)

    pk : List (List ℕ)
    pk = packets (i + 1) (chunk_loop f (mtu - 1) (drop (mtu - 1) (x ∷ xs)))

    one_round :
        length piece ≡ k
        → round k (sizing total count frame)
          ≡ some (sizing (total + suc (length piece)) (count + 1) frame)
    one_round size =
        round-sizing k (suc (length piece)) total count frame (omega arith)
          (omega (arith, length-append piece (concat pk))) (omega arith)

-- There are no more packets than bytes in them.
count-le : (i : ℕ) (cs : List (List ℕ)) → length (packets i cs) ≤ length (concat (packets i cs))
count-le i [] = omega arith
count-le i (c ∷ cs) =
    omega (arith, count-le (i + 1) cs, length-append c (concat (packets (i + 1) cs)))

-- With a NULL buffer `createPayloadForVP8` reports the bytes and the number of the packets; with
-- memory of these sizes it fills it with the packets and with their lengths, and reports the same.
pub create_payload_for_vp8-frame_packets :
    (mtu : ℕ) (frame : List ℕ) (room room_sub : List ℕ)
    → 2 ≤ mtu
    → mtu < 2 ^ 32
    → length (concat (frame_packets mtu frame)) < 2 ^ 32
    → length room ≡ length (concat (frame_packets mtu frame))
    → length room_sub ≡ length (frame_packets mtu frame)
    → let pk = frame_packets mtu frame in
      (create_payload_for_vp8 mtu frame (length frame) none
        ≡ some (record {
          status = success;
          payload_length = length (concat pk);
          payload_sub_len_size = length pk;
          buffers = none;
        }))
      × (create_payload_for_vp8 mtu frame
            (length frame)
            (some (record { payload_buffer = room; payload_sub_length = room_sub }))
          ≡ some (record {
            status = success;
            payload_length = length (concat pk);
            payload_sub_len_size = length pk;
            buffers = some (record { payload_buffer = concat pk; payload_sub_length = lengths pk });
          }))
unfolding create_payload_for_vp8
create_payload_for_vp8-frame_packets mtu frame room room_sub h hm small er es =
    let count = count-le 0 (chunks (mtu - 1) frame) in
    (
      rw
          (loop-sizing (length frame) mtu (length frame) 0 0 0 frame frame h hm refl (omega arith)
            (omega arith) (omega arith))
          (ground arith),
      rw
          (loop-writing (length frame) mtu 0 (length frame) [] room [] room_sub frame h hm refl refl
            (omega arith) (omega arith) (omega arith) (omega arith) (omega arith))
          (rw (
            drop_all (length (concat pk)) room (omega arith),
            drop_all (length pk) room_sub (omega arith),
            append-nil (concat pk),
            append-nil (lengths pk),
            length-map pk length,
          )),
    )
  where
    pk : List (List ℕ)
    pk = frame_packets mtu frame
