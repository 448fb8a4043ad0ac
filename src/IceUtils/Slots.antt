-- ===== src/IceUtils/Slots.antt =====
-- What the store of transaction ids of IceUtils.c finds: the ids in its slots.
use kvs_c.Base.{
  ℕ, zero, suc, ◌+◌, ◌%◌, ◌^◌, ◌≤◌, ◌<◌, ◌≡◌, ◌≢◌, ◌⊎◌, inl, inr, refl, sym, ap, ◌∙◌, Bool, true,
  false, Option, some, List, [], ◌∷◌, length, get_elem?, arith, Bool-cases,
}
use kvs_c.Base.Bytes.{get_elem?-some}
use native.Mathlib.Nat.{mod-eq_of_lt, mod_self}
use native.Mathlib.Decide.{dec_lt}
use kvs_c.IceUtils.{
  TransactionIdStore, max_stored, next_index, same_id, has_loop, transaction_id_store_has_id,
}

-- The slots are there, and the indices are those of slots.
pub record IsStore (s : TransactionIdStore) : Type 0 where
  pub slots : length s.transaction_ids ≡ s.max_transaction_ids_count
  pub small : s.max_transaction_ids_count < max_stored
  pub next_inside : s.next_transaction_id_index < s.max_transaction_ids_count
  pub earliest_inside : s.earliest_transaction_id_index < s.max_transaction_ids_count
  pub count_fits : s.transaction_id_count ≤ s.max_transaction_ids_count

same_id_sound : (a b : List ℕ) → same_id a b ≡ true → a ≡ b
same_id_sound [] [] h = refl
same_id_sound [] (y ∷ ys) h = absurd (cc h)
same_id_sound (x ∷ xs) [] h = absurd (cc h)
same_id_sound (x ∷ xs) (y ∷ ys) h =
    let heads : x ≡ y = ground (arith, h) in
    let tails : xs ≡ ys = same_id_sound xs ys (ground (arith, h)) in rw (heads, tails) refl

same_id_refl : (a : List ℕ) → same_id a a ≡ true
same_id_refl [] = refl
same_id_refl (x ∷ xs) = let rest = same_id_refl xs in ground (arith, rest)

-- The index behind one, with and without the end.
next_inside :
    (s : TransactionIdStore) (i : ℕ)
    → s.max_transaction_ids_count < max_stored
    → i + 1 < s.max_transaction_ids_count
    → next_index s i ≡ i + 1
next_inside s i small h = let e : (i + 1) % 2 ^ 32 ≡ i + 1 = omega arith in rw e (mod-eq_of_lt h)

next_end :
    (s : TransactionIdStore) (i : ℕ)
    → s.max_transaction_ids_count < max_stored
    → i + 1 ≡ s.max_transaction_ids_count
    → next_index s i ≡ 0
next_end s i small h =
    let e : (i + 1) % 2 ^ 32 ≡ s.max_transaction_ids_count = omega (arith, h) in
    rw e (mod_self s.max_transaction_ids_count)

pub next_index-fits :
    (s : TransactionIdStore) (i : ℕ)
    → s.max_transaction_ids_count < max_stored
    → i < s.max_transaction_ids_count
    → next_index s i < s.max_transaction_ids_count
next_index-fits s i small h = elim (dec_lt (i + 1) s.max_transaction_ids_count) [
  | yes lt ↦ let e = next_inside s i small lt in rw e lt
  | no ge ↦ let e = next_end s i small (omega arith) in rw e (omega arith)
]

-- An id is in a slot.
abbrev pub InSlot : TransactionIdStore → List ℕ → Type 0
InSlot s id =
    (k : ℕ) × (k < s.max_transaction_ids_count) × (get_elem? s.transaction_ids k ≡ some id)

-- What rounds of the search from a slot find: an id that is there, or that it is in none of the slots
-- that were searched, those behind the start and those behind the wrap.
abbrev Finds : TransactionIdStore → List ℕ → (n i : ℕ) → Option Bool → Type 0
Finds s id n i r =
    (b : Bool) × (r ≡ some b)
    × (b ≡ true → InSlot s id)
    × (b ≡ false
        → (k : ℕ) → k < s.max_transaction_ids_count
        → ((i ≤ k) × (k < i + n)) ⊎ (k + s.max_transaction_ids_count < i + n)
        → get_elem? s.transaction_ids k ≢ some id)

wrapped :
    (i k n m : ℕ) → k < i → ((i ≤ k) × (k < i + suc n)) ⊎ (k + m < i + suc n) → k + m < i + suc n
wrapped i k n m h (inl (le, lt)) = absurd (omega arith)
wrapped i k n m h (inr lt) = lt

straight :
    (i k n m : ℕ)
    → i < k
    → suc n ≤ m
    → ((i ≤ k) × (k < i + suc n)) ⊎ (k + m < i + suc n)
    → k < i + suc n
straight i k n m h hn (inl (le, lt)) = lt
straight i k n m h hn (inr lt) = omega arith

has_loop-Finds :
    (n i : ℕ) (s : TransactionIdStore) (id : List ℕ)
    → length s.transaction_ids ≡ s.max_transaction_ids_count
    → s.max_transaction_ids_count < max_stored
    → i < s.max_transaction_ids_count
    → n ≤ s.max_transaction_ids_count
    → Finds s id n i (has_loop n i s id)
unfolding has_loop
has_loop-Finds zero i s id hl hs hi hn =
    (false, refl, (λ e. absurd (cc e)), λ e k hk r. absurd (ground arith))
has_loop-Finds (suc n) i s id hl hs hi hn =
    let (slot, e) = get_elem?-some s.transaction_ids i (omega (arith, hl)) in
    let (b, run, here, away) =
      has_loop-Finds n (next_index s i) s id hl hs (next_index-fits s i hs hi) (omega arith) in
    elim (Bool-cases (same_id id slot)) [
      | inl same ↦
          let eq = same_id_sound id slot same in
          (true, rw (e, same) refl, (λ _. (i, hi, e ∙ ap some (sym eq))), λ c. absurd (cc c))
      | inr other ↦ (
        b,
        rw (e, other) run,
        here,
        λ c k hk r at_k. elim (dec_lt i k) [
          | no le ↦ elim (dec_lt k i) [
            | no same_index ↦
                let at_i : k ≡ i = omega arith in
                let clash : some slot ≡ some id =
                  sym e ∙ ap (get_elem? s.transaction_ids) (sym at_i) ∙ at_k in
                let yes_same = same_id_refl id in cc (clash, yes_same, other)
            | yes before ↦
                let gap : k + s.max_transaction_ids_count < i + suc n =
                  wrapped i k n s.max_transaction_ids_count before r in
                elim (dec_lt (i + 1) s.max_transaction_ids_count) [
                  | yes inner ↦
                      let t = next_inside s i hs inner in
                      away c k hk (inr (omega (arith, t, gap))) at_k
                  | no outer ↦
                      let t = next_end s i hs (omega arith) in
                      away c k hk (inl (omega (arith, t), omega (arith, t, gap))) at_k
                ]
          ]
          | yes behind ↦
              let t = next_inside s i hs (omega arith) in
              let gap : k < i + suc n = straight i k n s.max_transaction_ids_count behind hn r in
              away c k hk (inl (omega (arith, t), omega (arith, t, gap))) at_k
        ],
      )
    ]

-- transactionIdStoreHasId of a store returns, and finds an id exactly when a slot holds it.
pub transaction_id_store_has_id-InSlot :
    (s : TransactionIdStore) (id : List ℕ)
    → IsStore s
    → (b : Bool) × (transaction_id_store_has_id s id ≡ some b)
      × (b ≡ true → InSlot s id)
      × (b ≡ false → ¬ InSlot s id)
unfolding transaction_id_store_has_id
transaction_id_store_has_id-InSlot s id h =
    let (b, run, here, away) =
      has_loop-Finds s.max_transaction_ids_count s.earliest_transaction_id_index s id h.slots
        h.small h.earliest_inside (omega arith) in
    (
      b,
      run,
      here,
      λ c (k, hk, at_k). elim (dec_lt k s.earliest_transaction_id_index) [
        | yes before ↦ away c k hk (inr (omega arith)) at_k
        | no behind ↦ away c k hk (inl (omega arith, omega (arith, h.earliest_inside))) at_k
      ],
    )

pub has_id-true :
    (s : TransactionIdStore) (id : List ℕ)
    → IsStore s
    → InSlot s id
    → transaction_id_store_has_id s id ≡ some true
has_id-true s id h slot =
    let (b, run, here, away) = transaction_id_store_has_id-InSlot s id h in
    elim (Bool-cases b) [
      | inl found ↦ run ∙ ap some found
      | inr missing ↦ absurd (away missing slot)
    ]
