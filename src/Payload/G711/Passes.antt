-- ===== src/Payload/G711/Passes.antt =====
-- createPayloadForG711 against the cut of a frame into pieces, and back through the depayloader.
use kvs_c.Base.{
  ℕ, zero, suc, ◌+◌, ◌-◌, ◌≤◌, ◌<◌, ◌≡◌, refl, sym, ap, ◌∙◌, none, some, List, [], ◌∷◌, ◌++◌, arith,
  length, length-append, length-take, length-drop, take_all, drop_all, take, drop, append_assoc,
  append-nil,
}
use native.Mathlib.Decide.{dec_lt}
use kvs_c.Base.Bytes.{
  ◌>>=◌, read_block_whole, write_at, write_at-append, store, store-append, drop-drop_sum,
}
use kvs_c.Status.{success}
use kvs_c.Payload.Chunks.{chunk_loop, chunks, lengths, ceiling, length-chunk_loop}
use kvs_c.Payload.G711.{sub_length_loop, create_payload_for_g711}

chunk_loop_nil : (f m : ℕ) → chunk_loop {A = ℕ} f m [] ≡ []
chunk_loop_nil zero m = refl
chunk_loop_nil (suc f) m = refl

one_piece :
    (f m : ℕ) (xs : List ℕ) → 0 < length xs → length xs ≤ m → chunk_loop (suc f) m xs ≡ xs ∷ []
one_piece f m [] h hm = absurd (omega arith)
one_piece f m (x ∷ xs) h hm =
    rw (take_all m (x ∷ xs) hm, drop_all m (x ∷ xs) hm, chunk_loop_nil f m)

-- A round that takes a whole MTU, and the last one.
loop-more :
    (f m r i : ℕ) (subs : List ℕ)
    → m < r
    → sub_length_loop (suc f) m r i subs ≡ (store subs i m >>= sub_length_loop f m (r - m) (i + 1))
unfolding sub_length_loop
loop-more f m r i subs h = ground arith

loop_last :
    (f m r i : ℕ) (subs : List ℕ) → r ≤ m → sub_length_loop (suc f) m r i subs ≡ store subs i r
unfolding sub_length_loop
loop_last f m r i subs h = ground arith

-- The sub lengths that the loop writes are the lengths of the pieces.
sub_length_loop-lengths :
    (f m r i : ℕ) (done rest xs : List ℕ)
    → 0 < m
    → 0 < r
    → r ≡ length xs
    → i ≡ length done
    → length xs ≤ f
    → let cs = chunk_loop f m xs in
      length cs ≤ length rest
      → sub_length_loop f m r i (done ++ rest)
        ≡ some ((done ++ lengths cs) ++ drop (length cs) rest)
unfolding sub_length_loop
sub_length_loop-lengths zero m r i done rest xs hm hr er ei hf hc = absurd (omega arith)
sub_length_loop-lengths (suc f) m r i done rest [] hm hr er ei hf hc = absurd (omega arith)
sub_length_loop-lengths (suc f) m r i done rest (x ∷ xs) hm hr er ei hf hc = elim (dec_lt m r) [
  | yes more ↦
      let size : length (take m (x ∷ xs)) ≡ m = omega (arith, length-take m (x ∷ xs)) in
      let left = length-drop m (x ∷ xs) in
      let ih =
        sub_length_loop-lengths f m (r - m) (i + 1) (done ++ (m ∷ [])) (drop 1 rest)
          (drop m (x ∷ xs)) hm (omega arith) (omega arith)
          (omega (arith, length-append done (m ∷ []))) (omega arith)
          (omega (arith, length-drop 1 rest)) in
      loop-more f m r i (done ++ rest) more
      ∙ ap (λ o. o >>= sub_length_loop f m (r - m) (i + 1))
          (store-append done rest m i ei (omega arith))
      ∙ ih
      ∙ rw (
        size,
        append_assoc done (m ∷ []) (lengths (chunk_loop f m (drop m (x ∷ xs)))),
        drop-drop_sum 1 (length (chunk_loop f m (drop m (x ∷ xs))))
            (suc (length (chunk_loop f m (drop m (x ∷ xs))))) rest (omega arith),
      )
  | no last ↦
      loop_last f m r i (done ++ rest) (omega arith)
      ∙ store-append done rest r i ei (omega arith)
      ∙ ap (λ n. some ((done ++ (n ∷ [])) ++ drop 1 rest)) er
      ∙ ap (λ cs. some ((done ++ lengths cs) ++ drop (length cs) rest))
          (sym (one_piece f m (x ∷ xs) (omega arith) (omega arith)))
]

-- With a NULL buffer `createPayloadForG711` reports the length of a frame that is not empty and the
-- number of its pieces of MTU size; with memory of these sizes it fills it with the frame and with
-- the lengths of the pieces, and reports the same.
pub create_payload_for_g711-chunks :
    (mtu : ℕ) (frame room room_sub : List ℕ)
    → 0 < mtu
    → 0 < length frame
    → length room ≡ length frame
    → length room_sub ≡ length (chunks mtu frame)
    → let n = length frame in
      let pieces = chunks mtu frame in
      (create_payload_for_g711 mtu frame n none 0 0
        ≡ some (record {
          status = success;
          payload_length = n;
          payload_sub_len_size = length pieces;
          buffers = none;
        }))
      × (create_payload_for_g711 mtu frame n
            (some (record { payload_buffer = room; payload_sub_length = room_sub }))
            n
            (length pieces)
          ≡ some (record {
            status = success;
            payload_length = n;
            payload_sub_len_size = length pieces;
            buffers = some (record { payload_buffer = frame; payload_sub_length = lengths pieces });
          }))
unfolding create_payload_for_g711
create_payload_for_g711-chunks mtu frame room room_sub hm hf er es = (
  ground (arith, count),
  ground (arith, count, read_block_whole frame (length frame) refl, copied, subs),
)
  where
    cs : List (List ℕ)
    cs = chunks mtu frame

    count : length cs ≡ ceiling (length frame) mtu
    count = length-chunk_loop (length frame) mtu frame hm (omega arith)

    copied : write_at room 0 frame ≡ some frame
    copied =
        write_at-append [] room frame 0 refl (omega arith)
        ∙ rw (drop_all (length frame) room (omega arith), append-nil frame)

    subs : sub_length_loop (length frame) mtu (length frame) 0 room_sub ≡ some (lengths cs)
    subs =
        sub_length_loop-lengths (length frame) mtu (length frame) 0 [] room_sub frame hm hf refl
          refl (omega arith) (omega arith)
        ∙ rw (drop_all (length cs) room_sub (omega arith), append-nil (lengths cs))
