-- ===== src/Payload/H264/Passes.antt =====
-- createPayloadFromNalu of RtpH264Payloader.c in both its passes: the sizes, and the packets.
use kvs_c.Base.{
  ℕ, zero, suc, ◌+◌, ◌-◌, ◌^◌, ◌≤◌, ◌<◌, ◌≡◌, refl, sym, ap, ap₂, ◌∙◌, Bool, true, false, none,
  some, List, [], ◌∷◌, ◌++◌, arith, length, length-append, length-drop, take, drop, ltb, leb, ◌==◌,
  if◌then◌else◌, append_assoc, append-nil, bit_and, Bool-cases, inl, inr,
}
use mathlib.Core.Path.{subst}
use kvs_c.Base.Bytes.{drop-drop_sum, read_block, read_block_whole}
use kvs_c.Status.{success}
use kvs_c.Payload.Chunks.{chunk_loop, chunks, concat, lengths}
use kvs_c.Payload.H264.{NaluProgress, fragment_round, fragment_loop, create_payload_from_nalu}
use kvs_c.Payload.H264.Fragments.{
  is_last, fu_packets, nalu_packets, Limits, array_of, sizing, writing, add_payload-sizing,
  add_payload-writing, last_piece, fu_packet, fragment_round-add_payload,
}

-- A round of the loop while bytes remain.
loop-next :
    (fuel mtu t i n : ℕ) (f f' : NaluProgress) (r : ℕ)
    → f.remaining ≡ suc r
    → fragment_round mtu t i n f ≡ some (success, f')
    → fragment_loop (suc fuel) mtu t i n f ≡ fragment_loop fuel mtu t i n f'
unfolding fragment_loop
loop-next fuel mtu t i n f f' r er round =
    let some_left : (f.remaining == 0) ≡ false = ground (arith, er) in rw (some_left, round) refl

sizing_loop :
    (fuel mtu header n total count : ℕ) (first : Bool) (xs : List ℕ)
    → 3 ≤ mtu
    → length xs ≤ fuel
    → length xs ≤ n - 1
    → first ≡ (length xs == n - 1)
    → let pk = fu_packets header first (chunk_loop fuel (mtu - 2) xs) in
      total + length (concat pk) < 2 ^ 32
      → count + length pk < 2 ^ 32
      → fragment_loop fuel mtu (bit_and header 0x1F) (bit_and header 0x60) n (sizing total count xs)
        ≡ some (success, sizing (total + length (concat pk)) (count + length pk) [])
unfolding fragment_loop
sizing_loop zero mtu header n total count first [] h hf hn ef ht hc = ground arith
sizing_loop zero mtu header n total count first (x ∷ xs) h hf hn ef ht hc = absurd (omega arith)
sizing_loop (suc fuel) mtu header n total count first [] h hf hn ef ht hc = ground arith
sizing_loop (suc fuel) mtu header n total count first (x ∷ xs) h hf hn ef ht hc =
    let left = length-drop (mtu - 2) (x ∷ xs) in
    let sizes = length-append p (concat pk) in
    loop-next fuel mtu (bit_and header 0x1F) (bit_and header 0x60) n (sizing total count (x ∷ xs))
      (sizing (total + length p) (count + 1) (drop (mtu - 2) (x ∷ xs))) (length xs) refl
      (fragment_round-add_payload mtu header n first last (x ∷ xs) (sizing total count (x ∷ xs))
        (sizing (total + length p) (count + 1) (x ∷ xs)) ef
        (last_piece fuel (mtu - 2) (x ∷ xs) (omega (arith, left)))
        (add_payload-sizing (length p) total count (some p) (x ∷ xs) (omega (arith, sizes))
          (omega arith)))
    ∙ sizing_loop fuel mtu header n (total + length p) (count + 1) false (drop (mtu - 2) (x ∷ xs)) h
        (omega (arith, left)) (omega (arith, left)) (ground (arith, left)) (omega (arith, sizes))
        (omega arith)
    ∙ ap₂ (λ a b. some (success, sizing a b [])) (omega (arith, sizes)) (omega arith)
  where
    rest : List (List ℕ)
    rest = chunk_loop fuel (mtu - 2) (drop (mtu - 2) (x ∷ xs))

    last : Bool
    last = is_last rest

    p : List ℕ
    p = fu_packet header first last (take (mtu - 2) (x ∷ xs))

    pk : List (List ℕ)
    pk = fu_packets header false rest

-- What the loop leaves in the writing pass.
abbrev finished :
    Limits → (total count : ℕ) (done room done_sub room_sub : List ℕ) → List (List ℕ) → NaluProgress
finished l total count done room done_sub room_sub pk =
    writing l (total + length (concat pk)) (count + length pk) [] (done ++ concat pk)
      (drop (length (concat pk)) room) (done_sub ++ lengths pk) (drop (length pk) room_sub)

finished-cons :
    (l : Limits) (total count : ℕ) (done room done_sub room_sub p : List ℕ) (pk : List (List ℕ))
    → finished l
        (total + length p)
        (count + 1)
        (done ++ p)
        (drop (length p) room)
        (done_sub ++ (length p ∷ []))
        (drop 1 room_sub)
        pk
      ≡ finished l total count done room done_sub room_sub (p ∷ pk)
finished-cons l total count done room done_sub room_sub p pk =
    let e1 : total + length p + length (concat pk) ≡ total + length (p ++ concat pk) =
      omega (arith, length-append p (concat pk)) in
    let e2 : count + 1 + length pk ≡ count + suc (length pk) = omega arith in
    rw (
      e1,
      e2,
      append_assoc done p (concat pk),
      append_assoc done_sub (length p ∷ []) (lengths pk),
      drop-drop_sum 1 (length pk) (suc (length pk)) room_sub (omega arith),
      drop-drop_sum (length p) (length (concat pk)) (length (p ++ concat pk)) room
          (length-append p (concat pk)),
    )

-- There is room for more packets.
pub record HasRoom (l : Limits) (total count : ℕ) (room done_sub room_sub : List ℕ)
    (pk : List (List ℕ)) : Type 0 where
  pub bytes : length (concat pk) ≤ length room
  pub subs : length pk ≤ length room_sub
  pub total_fits : total + length (concat pk) ≤ l.max_length
  pub count_fits : count + length pk ≤ l.max_sub
  pub length_small : l.max_length < 2 ^ 32
  pub sub_small : l.max_sub < 2 ^ 32
  pub at_sub : length done_sub ≡ l.sub_at + count

HasRoom-cons :
    (l : Limits) (total count : ℕ) (room done_sub room_sub p : List ℕ) (pk : List (List ℕ))
    → HasRoom l total count room done_sub room_sub (p ∷ pk)
    → HasRoom l
        (total + length p)
        (count + 1)
        (drop (length p) room)
        (done_sub ++ (length p ∷ []))
        (drop 1 room_sub)
        pk
HasRoom-cons l total count room done_sub room_sub p pk r =
    let sizes = length-append p (concat pk) in
    record {
      bytes = omega (arith, sizes, r.bytes, length-drop (length p) room);
      subs = omega (arith, r.subs, length-drop 1 room_sub);
      total_fits = omega (arith, sizes, r.total_fits);
      count_fits = omega (arith, r.count_fits);
      length_small = r.length_small;
      sub_small = r.sub_small;
      at_sub = omega (arith, length-append done_sub (length p ∷ []), r.at_sub);
    }

writing_loop :
    (fuel mtu header n total count : ℕ) (first : Bool) (l : Limits)
    (xs done room done_sub room_sub : List ℕ)
    → 3 ≤ mtu
    → length xs ≤ fuel
    → length xs ≤ n - 1
    → first ≡ (length xs == n - 1)
    → let pk = fu_packets header first (chunk_loop fuel (mtu - 2) xs) in
      HasRoom l total count room done_sub room_sub pk
      → fragment_loop fuel mtu
          (bit_and header 0x1F)
          (bit_and header 0x60)
          n
          (writing l total count xs done room done_sub room_sub)
        ≡ some (success, finished l total count done room done_sub room_sub pk)
unfolding fragment_loop
writing_loop zero mtu header n total count first l [] done room done_sub room_sub h hf hn ef r =
    let e1 : total + 0 ≡ total = omega arith in
    let e2 : count + 0 ≡ count = omega arith in rw (e1, e2, append-nil done, append-nil done_sub)
writing_loop zero mtu header n total count first l (x ∷ xs) done room done_sub room_sub h hf hn ef
      r =
    absurd (omega arith)
writing_loop (suc fuel) mtu header n total count first l [] done room done_sub room_sub h hf hn ef
      r =
    let e1 : total + 0 ≡ total = omega arith in
    let e2 : count + 0 ≡ count = omega arith in rw (e1, e2, append-nil done, append-nil done_sub)
writing_loop (suc fuel) mtu header n total count first l (x ∷ xs) done room done_sub room_sub h hf
      hn ef r =
    let left = length-drop (mtu - 2) (x ∷ xs) in
    let sizes = length-append p (concat pk) in
    loop-next fuel mtu (bit_and header 0x1F) (bit_and header 0x60) n
      (writing l total count (x ∷ xs) done room done_sub room_sub)
      (writing l (total + length p) (count + 1) (drop (mtu - 2) (x ∷ xs)) (done ++ p)
        (drop (length p) room) (done_sub ++ (length p ∷ [])) (drop 1 room_sub))
      (length xs) refl
      (fragment_round-add_payload mtu header n first last (x ∷ xs)
        (writing l total count (x ∷ xs) done room done_sub room_sub)
        (writing l (total + length p) (count + 1) (x ∷ xs) (done ++ p) (drop (length p) room)
          (done_sub ++ (length p ∷ [])) (drop 1 room_sub))
        ef (last_piece fuel (mtu - 2) (x ∷ xs) (omega (arith, left)))
        (add_payload-writing l total count p (x ∷ xs) done room done_sub room_sub
          (omega (arith, sizes, r.bytes)) (omega (arith, r.subs))
          (omega (arith, sizes, r.total_fits)) (omega (arith, r.count_fits)) r.length_small
          r.sub_small r.at_sub))
    ∙ writing_loop fuel mtu header n (total + length p) (count + 1) false l
        (drop (mtu - 2) (x ∷ xs)) (done ++ p) (drop (length p) room) (done_sub ++ (length p ∷ []))
        (drop 1 room_sub) h (omega (arith, left)) (omega (arith, left)) (ground (arith, left))
        (HasRoom-cons l total count room done_sub room_sub p pk r)
    ∙ ap (λ f. some (success, f)) (finished-cons l total count done room done_sub room_sub p pk)
  where
    rest : List (List ℕ)
    rest = chunk_loop fuel (mtu - 2) (drop (mtu - 2) (x ∷ xs))

    last : Bool
    last = is_last rest

    p : List ℕ
    p = fu_packet header first last (take (mtu - 2) (x ∷ xs))

    pk : List (List ℕ)
    pk = fu_packets header false rest

-- The limits of an array whose write pointers stand behind what is there.
abbrev pub limits_behind : (done done_sub : List ℕ) (max_length max_sub : ℕ) → Limits
limits_behind done done_sub max_length max_sub = record {
  buffer_at = length done;
  sub_at = length done_sub;
  max_length = max_length;
  max_sub = max_sub;
}

-- What both passes over a unit leave when its packets are `pk`.
abbrev Passed :
    (mtu header max_length max_sub : ℕ) (rest done room done_sub room_sub : List ℕ)
    → List (List ℕ)
    → Type 0
Passed mtu header max_length max_sub rest done room done_sub room_sub pk =
    let l = limits_behind done done_sub max_length max_sub in
    (create_payload_from_nalu mtu (header ∷ rest) (suc (length rest)) none
      ≡ some (success, length (concat pk), length pk, none))
    × (create_payload_from_nalu mtu (header ∷ rest) (suc (length rest))
          (some (array_of l done room done_sub room_sub))
        ≡ some (
          success,
          length (concat pk),
          length pk,
          some (
              array_of l (done ++ concat pk) (drop (length (concat pk)) room)
                (done_sub ++ lengths pk) (drop (length pk) room_sub)),
        ))

module _ (mtu header max_length max_sub : ℕ) (rest done room done_sub room_sub : List ℕ)
    (h : 3 ≤ mtu) where
  limits : Limits
  limits = limits_behind done done_sub max_length max_sub

  whole_unit :
      leb (suc (length rest)) mtu ≡ true
      → HasRoom limits 0 0 room done_sub room_sub ((header ∷ rest) ∷ [])
      → Passed mtu header max_length max_sub rest done room done_sub room_sub ((header ∷ rest) ∷ [])
  unfolding create_payload_from_nalu limits
  whole_unit single r =
      let above : ltb 2 mtu ≡ true = ground arith in
      let size : length (rest ++ []) ≡ length rest = ap length (append-nil rest) in
      let z : 0 + suc (length rest) ≡ suc (length rest) = omega arith in
      let counted =
        add_payload-sizing (suc (length rest)) 0 0 (read_block (suc (length rest)) (header ∷ rest))
          (header ∷ rest) (omega (arith, r.total_fits, r.length_small, size)) (omega arith) in
      let written =
        add_payload-writing limits 0 0 (header ∷ rest) (header ∷ rest) done room done_sub room_sub
          (omega (arith, r.bytes, size)) (omega (arith, r.subs)) (omega (arith, r.total_fits, size))
          (omega (arith, r.count_fits)) r.length_small r.sub_small r.at_sub in
      (
        subst
            (λ x.
              create_payload_from_nalu mtu (header ∷ rest) (suc (length rest)) none
              ≡ some (success, length x, 1, none))
            (sym (append-nil (header ∷ rest))) (rw (above, single) (rw counted (rw z refl))),
        subst
            (λ x.
              create_payload_from_nalu mtu (header ∷ rest) (suc (length rest))
                (some (array_of limits done room done_sub room_sub))
              ≡ some (
                success,
                length x,
                1,
                some (
                    array_of limits (done ++ x) (drop (length x) room)
                      (done_sub ++ (suc (length rest) ∷ [])) (drop 1 room_sub)),
              ))
            (sym (append-nil (header ∷ rest)))
            (rw (above, single)
              (rw (read_block_whole (header ∷ rest) (suc (length rest)) refl, written)
                (rw z refl))),
      )

  cut_unit :
      leb (suc (length rest)) mtu ≡ false
      → HasRoom limits 0 0 room done_sub room_sub (fu_packets header true (chunks (mtu - 2) rest))
      → Passed mtu header max_length max_sub rest done room done_sub room_sub
          (fu_packets header true (chunks (mtu - 2) rest))
  unfolding create_payload_from_nalu limits
  cut_unit cut r =
      let above : ltb 2 mtu ≡ true = ground arith in
      let e : suc (length rest) - 1 ≡ length rest = omega arith in
      let pk : List (List ℕ) = fu_packets header true (chunks (mtu - 2) rest) in
      let z1 : 0 + length (concat pk) ≡ length (concat pk) = omega arith in
      let z2 : 0 + length pk ≡ length pk = omega arith in
      let counted =
        sizing_loop (length rest) mtu header (suc (length rest)) 0 0 true rest h (omega arith)
          (omega arith) (ground arith) (omega (arith, r.total_fits, r.length_small))
          (omega (arith, r.count_fits, r.sub_small)) in
      let written =
        writing_loop (length rest) mtu header (suc (length rest)) 0 0 true limits rest done room
          done_sub room_sub h (omega arith) (omega arith) (ground arith) r in
      (
        rw (above, cut, e) (rw counted (rw (z1, z2) refl)),
        rw (above, cut, e) (rw written (rw (z1, z2) refl)),
      )

-- createPayloadFromNalu of a unit that has a header, in both its passes, with any MTU above the size of
-- the FU-A header: without an array it reports the bytes and the number of the packets of the unit, and
-- with an array that has room it writes the packets behind what is there, and their lengths.
pub create_payload_from_nalu-nalu_packets :
    (mtu header max_length max_sub : ℕ) (rest done room done_sub room_sub : List ℕ)
    → let l = limits_behind done done_sub max_length max_sub in
      let pk = nalu_packets mtu header rest in
      3 ≤ mtu
      → HasRoom l 0 0 room done_sub room_sub pk
      → (create_payload_from_nalu mtu (header ∷ rest) (suc (length rest)) none
          ≡ some (success, length (concat pk), length pk, none))
        × (create_payload_from_nalu mtu
              (header ∷ rest)
              (suc (length rest))
              (some (array_of l done room done_sub room_sub))
            ≡ some (
              success,
              length (concat pk),
              length pk,
              some (
                  array_of l
                    (done ++ concat pk)
                    (drop (length (concat pk)) room)
                    (done_sub ++ lengths pk)
                    (drop (length pk) room_sub)),
            ))
unfolding limits
create_payload_from_nalu-nalu_packets mtu header max_length max_sub rest done room done_sub room_sub
      h r =
    elim (Bool-cases (leb (suc (length rest)) mtu)) [
      | inl single ↦
          subst (Passed mtu header max_length max_sub rest done room done_sub room_sub)
            (sym (choose single))
            (whole_unit mtu header max_length max_sub rest done room done_sub room_sub h single
              (rw (choose single) at r))
      | inr cut ↦
          subst (Passed mtu header max_length max_sub rest done room done_sub room_sub)
            (sym (choose cut))
            (cut_unit mtu header max_length max_sub rest done room done_sub room_sub h cut
              (rw (choose cut) at r))
    ]
  where
    choose :
        {c : Bool}
        → leb (suc (length rest)) mtu ≡ c
        → nalu_packets mtu header rest
          ≡ (if c then (header ∷ rest) ∷ [] else fu_packets header true (chunks (mtu - 2) rest))
    choose e =
        ap (λ c. if c then (header ∷ rest) ∷ [] else fu_packets header true (chunks (mtu - 2) rest))
          e
