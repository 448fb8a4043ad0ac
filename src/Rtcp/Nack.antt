-- ===== src/Rtcp/Nack.antt =====
-- rtcpNackListGet against the list that a NACK stands for.
use kvs_c.Base.{
  ℕ, zero, suc, ◌+◌, ◌*◌, ◌/◌, ◌%◌, ◌^◌, ◌≤◌, ◌<◌, ◌≡◌, refl, sym, ap, ap₂, ◌∙◌, Option, none, some,
  List, [], ◌∷◌, ◌++◌, arith, length, length-append, set, drop, ◌==◌, if◌then◌else◌, bit_and,
  append_assoc, append-nil, Option-cases, Bool-cases, inl, inr,
}
use mathlib.Core.Path.{fun_ext}
use kvs_c.Base.Bytes.{◌>>=◌, read16, read32, be16, be32, read16-append_more}
use kvs_c.Status.{success}
use kvs_c.Rtcp.{NackList, push, bit_loop, word_loop, rtcp_nack_list_get}

-- RFC 4585: the numbers behind `pid` whose bit is set in the mask, from the bit `j` on.
abbrev pub lost_behind : (rounds j pid blp : ℕ) → List ℕ
lost_behind zero j pid blp = []
lost_behind (suc n) j pid blp =
    if bit_and blp (2 ^ j) / 2 ^ j == 0
    then lost_behind n (j + 1) pid blp
    else ((pid + j + 1) % 2 ^ 16) ∷ lost_behind n (j + 1) pid blp

-- The sequence numbers that a list of (PID, BLP) pairs reports as lost.
abbrev pub lost : List (ℕ × ℕ) → List ℕ
lost [] = []
lost ((pid, blp) ∷ fci) = pid ∷ (lost_behind 16 0 pid blp ++ lost fci)

-- The pairs as they stand in the payload.
abbrev pub fci_bytes : List (ℕ × ℕ) → List ℕ
fci_bytes [] = []
fci_bytes ((pid, blp) ∷ fci) = be16 pid ++ (be16 blp ++ fci_bytes fci)

abbrev pub AllUint16 : List (ℕ × ℕ) → Type 0
AllUint16 [] = Unit
AllUint16 ((pid, blp) ∷ fci) = (pid < 2 ^ 16) × (blp < 2 ^ 16) × AllUint16 fci

-- The pushes of a list of values.
push_all : ℕ → List ℕ → NackList → Option NackList
push_all limit [] l = some l
push_all limit (x ∷ xs) l = do l' ← push limit x l; push_all limit xs l'

push_all-append :
    (limit : ℕ) (xs ys : List ℕ) (l : NackList)
    → push_all limit (xs ++ ys) l ≡ (push_all limit xs l >>= push_all limit ys)
unfolding push_all
push_all-append limit [] ys l = refl
push_all-append limit (x ∷ xs) ys l = elim (Option-cases (push limit x l)) [
  | inl e ↦ rw e
  | inr (l', e) ↦ rw e (push_all-append limit xs ys l')
]

bit_loop-push_all :
    (limit n j pid blp : ℕ) (l : NackList)
    → bit_loop limit n j pid blp l ≡ push_all limit (lost_behind n j pid blp) l
unfolding bit_loop push_all
bit_loop-push_all limit zero j pid blp l = refl
bit_loop-push_all limit (suc n) j pid blp l = elim (Bool-cases (bit_and blp (2 ^ j) / 2 ^ j == 0)) [
  | inl clear ↦ rw clear (bit_loop-push_all limit n (j + 1) pid blp l)
  | inr bit ↦ rw bit (
      ap (λ k. push limit ((pid + j + 1) % 2 ^ 16) l >>= k)
        (fun_ext (λ l'. bit_loop-push_all limit n (j + 1) pid blp l')))
]

read16-be16 : (v : ℕ) (rest : List ℕ) → v < 2 ^ 16 → read16 (be16 v ++ rest) 0 ≡ some v
unfolding read16
read16-be16 v rest h = ground arith

word_loop-push_all :
    (limit n i : ℕ) (fci : List (ℕ × ℕ)) (front : List ℕ) (l : NackList)
    → n ≡ length fci
    → i ≡ length front
    → AllUint16 fci
    → word_loop limit n i (front ++ fci_bytes fci) l ≡ push_all limit (lost fci) l
unfolding word_loop push_all read16
word_loop-push_all limit zero i [] front l hn hi u = refl
word_loop-push_all limit zero i (x ∷ fci) front l hn hi u = absurd (omega arith)
word_loop-push_all limit (suc n) i [] front l hn hi u = absurd (omega arith)
word_loop-push_all limit (suc n) i ((pid, blp) ∷ fci) front l hn hi (hp, hb, u) =
    rw (at_pid, at_blp)
      (ap (λ k. push limit pid l >>= k)
        (fun_ext (λ l'.
          ap₂ (λ m k. m >>= k) (bit_loop-push_all limit 16 0 pid blp l')
            (fun_ext (
              later (λ l''.
                word_loop-push_all limit n (i + 4) fci (front ++ words) l'' (omega arith)
                  (omega (arith, length-append front words)) u)))
          ∙ sym (push_all-append limit (lost_behind 16 0 pid blp) (lost fci) l'))))
  where
    words : List ℕ
    words = be16 pid ++ be16 blp

    at_pid : read16 (front ++ fci_bytes ((pid, blp) ∷ fci)) i ≡ some pid
    at_pid =
        read16-append_more front (fci_bytes ((pid, blp) ∷ fci)) 0 i (omega arith)
        ∙ read16-be16 pid (be16 blp ++ fci_bytes fci) hp

    at_blp : read16 (front ++ fci_bytes ((pid, blp) ∷ fci)) (i + 2) ≡ some blp
    at_blp =
        read16-append_more front (fci_bytes ((pid, blp) ∷ fci)) 2 (i + 2) (omega arith)
        ∙ read16-be16 blp (fci_bytes fci) hb

    later :
        ((l'' : NackList)
          → word_loop limit n (i + 4) ((front ++ words) ++ fci_bytes fci) l''
            ≡ push_all limit (lost fci) l'')
        → (l'' : NackList)
        → word_loop limit n (i + 4) (front ++ fci_bytes ((pid, blp) ∷ fci)) l''
          ≡ push_all limit (lost fci) l''
    later ih l'' =
        ap (λ m. word_loop limit n (i + 4) m l'') (sym (append_assoc front words (fci_bytes fci)))
        ∙ ih l''

set_middle :
    (front rest : List ℕ) (x y : ℕ)
    → set (front ++ (y ∷ rest)) (length front) x ≡ (front ++ (x ∷ [])) ++ rest
set_middle [] rest x y = refl
set_middle (z ∷ front) rest x y = ap (λ l. z ∷ l) (set_middle front rest x y)

-- One push where there is room.
push-room :
    (limit x y : ℕ) (front rest : List ℕ)
    → length front < limit
    → limit < 2 ^ 16
    → push limit x (record { sequence_numbers = some (front ++ (y ∷ rest)); count = length front })
      ≡ some (record {
        sequence_numbers = some ((front ++ (x ∷ [])) ++ rest);
        count = length (front ++ (x ∷ []));
      })
unfolding push
push-room limit x y front rest hl h =
    ground (
      arith,
      set_middle front rest x y,
      length-append front (y ∷ rest),
      length-append front (x ∷ []),
    )

-- Pushing into an array with room writes the values one after the other behind those in front.
push_all-room :
    (limit : ℕ) (xs front rest : List ℕ)
    → length front + length rest ≡ limit
    → length xs ≤ length rest
    → limit < 2 ^ 16
    → push_all limit xs (record { sequence_numbers = some (front ++ rest); count = length front })
      ≡ some (record {
        sequence_numbers = some (front ++ (xs ++ drop (length xs) rest));
        count = length front + length xs;
      })
unfolding push_all push
push_all-room limit [] front rest hl hx h = ground arith
push_all-room limit (x ∷ xs) front [] hl hx h = absurd (omega arith)
push_all-room limit (x ∷ xs) front (y ∷ rest) hl hx h =
    rw (push-room limit x y front rest (omega arith) h) (
      push_all-room limit xs (front ++ (x ∷ [])) rest (omega (arith, length-append front (x ∷ [])))
        (omega arith) h
      ∙ ap₂ (λ l n. some (record { sequence_numbers = some l; count = n }))
          (append_assoc front (x ∷ []) (xs ++ drop (length xs) rest))
          (omega (arith, length-append front (x ∷ []))))

-- Without an array only the count grows.
push_all-none :
    (limit : ℕ) (xs : List ℕ) (n : ℕ)
    → n + length xs < 2 ^ 16
    → push_all limit xs (record { sequence_numbers = none; count = n })
      ≡ some (record { sequence_numbers = none; count = n + length xs })
unfolding push_all push
push_all-none limit [] n h = ground arith
push_all-none limit (x ∷ xs) n h = ground (arith, push_all-none limit xs (n + 1))

-- An array that is as long as stated and has no room for all values is written behind its end.
push_all-overrun :
    (limit : ℕ) (xs front rest : List ℕ)
    → length front + length rest ≡ limit
    → length rest < length xs
    → limit < 2 ^ 16
    → push_all limit xs (record { sequence_numbers = some (front ++ rest); count = length front })
      ≡ none
unfolding push_all push
push_all-overrun limit [] front rest hl hx h = absurd (omega arith)
push_all-overrun limit (x ∷ xs) front [] hl hx h = ground (arith, append-nil front)
push_all-overrun limit (x ∷ xs) front (y ∷ rest) hl hx h =
    rw (push-room limit x y front rest (omega arith) h) (
      push_all-overrun limit xs (front ++ (x ∷ [])) rest
        (omega (arith, length-append front (x ∷ []))) (omega arith) h)

-- The payload of a NACK: the two SSRCs and the pairs.
abbrev pub nack_payload : ℕ → ℕ → List (ℕ × ℕ) → List ℕ
nack_payload sender receiver fci = be32 sender ++ (be32 receiver ++ fci_bytes fci)

length-fci_bytes : (fci : List (ℕ × ℕ)) → length (fci_bytes fci) ≡ length fci * 4
length-fci_bytes [] = refl
length-fci_bytes ((pid, blp) ∷ fci) = omega (arith, length-fci_bytes fci)

-- The two SSRCs and the pushes of the lost numbers.
get-push_all :
    (sender receiver limit : ℕ) (fci : List (ℕ × ℕ)) (xs : Option (List ℕ))
    → sender < 2 ^ 32
    → receiver < 2 ^ 32
    → AllUint16 fci
    → let payload = nack_payload sender receiver fci in
      rtcp_nack_list_get payload (length payload) xs limit ≡ (
        push_all limit (lost fci) (record { sequence_numbers = xs; count = 0 }) >>= λ l. some (
          success,
          some (record {
            sender_ssrc = sender;
            receiver_ssrc = receiver;
            list = l.sequence_numbers;
            list_len = l.count;
          }),
        ))
unfolding rtcp_nack_list_get read32
get-push_all sender receiver limit fci xs hs hr u = ground (
  arith,
  length-fci_bytes fci,
  word_loop-push_all limit (length fci) 8 fci (be32 sender ++ be32 receiver)
      (record { sequence_numbers = xs; count = 0 }) refl refl u,
)

-- Into an array of the stated length, below 2 ^ 16, with room for them, `rtcpNackListGet` writes exactly the
-- sequence numbers that the NACK reports as lost, in order, leaves the rest of the array alone, and
-- answers with their number and with both SSRCs.
pub rtcp_nack_list_get-lost :
    (sender receiver limit : ℕ) (fci : List (ℕ × ℕ)) (xs : List ℕ)
    → sender < 2 ^ 32
    → receiver < 2 ^ 32
    → AllUint16 fci
    → length xs ≡ limit
    → length (lost fci) ≤ limit
    → limit < 2 ^ 16
    → let payload = nack_payload sender receiver fci in
      rtcp_nack_list_get payload (length payload) (some xs) limit
      ≡ some (
        success,
        some (record {
          sender_ssrc = sender;
          receiver_ssrc = receiver;
          list = some (lost fci ++ drop (length (lost fci)) xs);
          list_len = length (lost fci);
        }),
      )
rtcp_nack_list_get-lost sender receiver limit fci xs hs hr u hx room h =
    get-push_all sender receiver limit fci (some xs) hs hr u
    ∙ rw (push_all-room limit (lost fci) [] xs (omega arith) (omega arith) h) (ground arith)

-- With NULL for the list `rtcpNackListGet` only counts them.
rtcp_nack_list_get-count :
    (sender receiver limit : ℕ) (fci : List (ℕ × ℕ))
    → sender < 2 ^ 32
    → receiver < 2 ^ 32
    → AllUint16 fci
    → length (lost fci) < 2 ^ 16
    → let payload = nack_payload sender receiver fci in
      rtcp_nack_list_get payload (length payload) none limit
      ≡ some (
        success,
        some (record {
          sender_ssrc = sender;
          receiver_ssrc = receiver;
          list = none;
          list_len = length (lost fci);
        }),
      )
rtcp_nack_list_get-count sender receiver limit fci hs hr u h =
    get-push_all sender receiver limit fci none hs hr u
    ∙ rw (push_all-none limit (lost fci) 0 (omega arith)) (ground arith)

-- Where more numbers are lost than the array holds, whose length is below 2 ^ 16, `rtcpNackListGet`
-- writes behind its end.
pub rtcp_nack_list_get_overrun :
    (sender receiver limit : ℕ) (fci : List (ℕ × ℕ)) (xs : List ℕ)
    → sender < 2 ^ 32
    → receiver < 2 ^ 32
    → AllUint16 fci
    → length xs ≡ limit
    → limit < length (lost fci)
    → limit < 2 ^ 16
    → let payload = nack_payload sender receiver fci in
      rtcp_nack_list_get payload (length payload) (some xs) limit ≡ none
rtcp_nack_list_get_overrun sender receiver limit fci xs hs hr u hx over h =
    get-push_all sender receiver limit fci (some xs) hs hr u
    ∙ rw (push_all-overrun limit (lost fci) [] xs (omega arith) (omega arith) h)
