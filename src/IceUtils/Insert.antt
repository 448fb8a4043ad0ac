-- ===== src/IceUtils/Insert.antt =====
-- What creating, filling and clearing the store of transaction ids of IceUtils.c leave.
use kvs_c.Base.{
  ℕ, zero, suc, ◌+◌, ◌%◌, ◌^◌, ◌<◌, ◌≡◌, ◌≢◌, inl, inr, refl, sym, ap, ◌∙◌, true, false, ◌&&◌, some,
  List, length, length-set, replicate, length-replicate, set, get_elem?, get_elem?-set_self,
  get_elem?-set_ne, arith, ltb, ◌==◌, min, Bool-cases,
}
use kvs_c.Base.Bytes.{get_elem?-some}
use native.Mathlib.Nat.{mod-eq_of_lt}
use kvs_c.Status.{success}
use kvs_c.IceUtils.{
  TransactionIdStore, create_transaction_id_store, max_stored, next_index, put_id,
  transaction_id_store_insert, same_id, transaction_id_store_has_id, remove_loop,
  transaction_id_store_remove, transaction_id_store_clear,
}
use kvs_c.IceUtils.Slots.{
  IsStore, InSlot, next_index-fits, has_id-true, transaction_id_store_has_id-InSlot,
}

-- A store whose slots are those of another one but for the slot of the next id.
filled :
    (s s' : TransactionIdStore) (id : List ℕ)
    → IsStore s
    → IsStore s'
    → s'.max_transaction_ids_count ≡ s.max_transaction_ids_count
    → s'.transaction_ids ≡ set s.transaction_ids s.next_transaction_id_index id
    → (transaction_id_store_has_id s' id ≡ some true)
      × ((k : ℕ) (other : List ℕ)
          → k < s.max_transaction_ids_count
          → k ≢ s.next_transaction_id_index
          → get_elem? s.transaction_ids k ≡ some other
          → transaction_id_store_has_id s' other ≡ some true)
filled s s' id h h' same_max same_ids = (
  has_id-true s' id h' (
    s.next_transaction_id_index,
    omega (arith, same_max, h.next_inside),
    ap (λ l. get_elem? l s.next_transaction_id_index) same_ids
        ∙ get_elem?-set_self s.transaction_ids s.next_transaction_id_index id
            (omega (arith, h.slots, h.next_inside)),
  ),
  λ k other hk ne e. has_id-true s' other h' (
    k,
    omega (arith, same_max),
    ap (λ l. get_elem? l k) same_ids ∙ get_elem?-set_ne s.transaction_ids id (λ q. ne (sym q)) ∙ e,
  ),
)

-- Inserting an id into a store returns a store, which has that id, and every id that it had but the one
-- in the slot that is taken.
pub transaction_id_store_insert-has_id :
    (s : TransactionIdStore) (id : List ℕ)
    → IsStore s
    → (s' : TransactionIdStore) × (transaction_id_store_insert s id ≡ some s')
      × IsStore s'
      × (transaction_id_store_has_id s' id ≡ some true)
      × ((k : ℕ) (other : List ℕ)
          → k < s.max_transaction_ids_count
          → k ≢ s.next_transaction_id_index
          → get_elem? s.transaction_ids k ≡ some other
          → transaction_id_store_has_id s' other ≡ some true)
unfolding transaction_id_store_insert put_id
transaction_id_store_insert-has_id s id h =
    let at_next : s.next_transaction_id_index % s.max_transaction_ids_count
        ≡ s.next_transaction_id_index =
      mod-eq_of_lt h.next_inside in
    let inside : ltb s.next_transaction_id_index (length s.transaction_ids) ≡ true =
      ground (arith, h.slots, h.next_inside) in
    let next_fits = next_index-fits s s.next_transaction_id_index h.small h.next_inside in
    let earliest_fits =
      next_index-fits s s.earliest_transaction_id_index h.small h.earliest_inside in
    let size = length-set s.transaction_ids s.next_transaction_id_index id in
    elim (Bool-cases
      (next_index s s.next_transaction_id_index == s.earliest_transaction_id_index)) [
        | inl full ↦
            let s' : TransactionIdStore = record s {
              transaction_ids = set s.transaction_ids s.next_transaction_id_index id;
              next_transaction_id_index = next_index s s.next_transaction_id_index;
              earliest_transaction_id_index = next_index s s.earliest_transaction_id_index;
            } in
            let is_store : IsStore s' = record {
              slots = size ∙ h.slots;
              small = h.small;
              next_inside = next_fits;
              earliest_inside = earliest_fits;
              count_fits = h.count_fits;
            } in
            let (new_one, others) = filled s s' id h is_store refl refl in
            (s', rw (at_next, inside, full) refl, is_store, new_one, others)
        | inr free ↦
            let s' : TransactionIdStore = record s {
              transaction_ids = set s.transaction_ids s.next_transaction_id_index id;
              next_transaction_id_index = next_index s s.next_transaction_id_index;
              transaction_id_count =
                  min ((s.transaction_id_count + 1) % 2 ^ 32) s.max_transaction_ids_count;
            } in
            let is_store : IsStore s' = record {
              slots = size ∙ h.slots;
              small = h.small;
              next_inside = next_fits;
              earliest_inside = h.earliest_inside;
              count_fits = omega arith;
            } in
            let (new_one, others) = filled s s' id h is_store refl refl in
            (s', rw (at_next, inside, free) refl, is_store, new_one, others)
      ]

-- transactionIdStoreClear resets the indices and leaves the slots: it forgets no id.
transaction_id_store_clear-has_id :
    (s : TransactionIdStore) (id : List ℕ)
    → IsStore s
    → IsStore (transaction_id_store_clear s)
      × (transaction_id_store_has_id s id ≡ some true
          → transaction_id_store_has_id (transaction_id_store_clear s) id ≡ some true)
unfolding transaction_id_store_clear
transaction_id_store_clear-has_id s id h =
    let cleared : IsStore (transaction_id_store_clear s) = record {
      slots = h.slots;
      small = h.small;
      next_inside = omega (arith, h.next_inside);
      earliest_inside = omega (arith, h.next_inside);
      count_fits = omega arith;
    } in
    (
      cleared,
      λ e.
          let (b, run, here, away) = transaction_id_store_has_id-InSlot s id h in
          let (k, hk, at_k) = here (let same : some b ≡ some true = sym run ∙ e in cc same) in
          has_id-true (transaction_id_store_clear s) id cleared (k, hk, at_k),
    )

-- A store that is created is one, and its size is what was asked for.
create_transaction_id_store-IsStore :
    (n : ℕ)
    → 0 < n
    → n < max_stored
    → (s : TransactionIdStore) × (create_transaction_id_store true n ≡ (success, some s))
      × IsStore s
      × (s.max_transaction_ids_count ≡ n)
unfolding create_transaction_id_store
create_transaction_id_store-IsStore n h hn =
    let allowed : (ltb n max_stored && ltb 0 n) ≡ true = ground arith in
    let s : TransactionIdStore = record {
      max_transaction_ids_count = n;
      next_transaction_id_index = 0;
      earliest_transaction_id_index = 0;
      transaction_id_count = 0;
      transaction_ids = replicate n (replicate 12 0);
    } in
    (
      s,
      rw allowed refl,
      record {
        slots = length-replicate n (replicate 12 0);
        small = hn;
        next_inside = h;
        earliest_inside = h;
        count_fits = omega arith;
      },
      refl,
    )

-- Rounds of the removal return, keep the store, and leave every other id where it is.
remove_loop-IsStore :
    (n i : ℕ) (s : TransactionIdStore) (id : List ℕ)
    → IsStore s
    → i < s.max_transaction_ids_count
    → (s' : TransactionIdStore) × (remove_loop n i s id ≡ some s')
      × IsStore s'
      × ((other : List ℕ) → same_id id other ≡ false → InSlot s other → InSlot s' other)
unfolding remove_loop
remove_loop-IsStore zero i s id h hi = (s, refl, h, λ other ne slot. slot)
remove_loop-IsStore (suc n) i s id h hi =
    let (slot, e) = get_elem?-some s.transaction_ids i (omega (arith, h.slots)) in
    let (s', run, is_store, kept) =
      remove_loop-IsStore n (next_index s i) s id h (next_index-fits s i h.small hi) in
    elim (Bool-cases (same_id id slot)) [
      | inr other ↦ (s', rw (e, other) run, is_store, kept)
      | inl same ↦ (
        record s { transaction_ids = set s.transaction_ids i (replicate 12 0) },
        rw (e, same) refl,
        record {
          slots = length-set s.transaction_ids i (replicate 12 0) ∙ h.slots;
          small = h.small;
          next_inside = h.next_inside;
          earliest_inside = h.earliest_inside;
          count_fits = h.count_fits;
        },
        λ other ne (k, hk, at_k). (
          k,
          hk,
          get_elem?-set_ne s.transaction_ids (replicate 12 0) (λ q.
                let both : some slot ≡ some other =
                  sym e ∙ ap (get_elem? s.transaction_ids) q ∙ at_k in
                let equal : slot ≡ other = cc both in
                let clash : same_id id other ≡ true = rw (← equal) same in cc (clash, ne))
              ∙ at_k,
        ),
      )
    ]

-- Removing an id from a store returns a store that has every other id that it had.
transaction_id_store_remove-has_id :
    (s : TransactionIdStore) (id other : List ℕ)
    → IsStore s
    → same_id id other ≡ false
    → transaction_id_store_has_id s other ≡ some true
    → (s' : TransactionIdStore) × (transaction_id_store_remove s id ≡ some s')
      × IsStore s'
      × (transaction_id_store_has_id s' other ≡ some true)
unfolding transaction_id_store_remove
transaction_id_store_remove-has_id s id other h ne has =
    let (s', run, is_store, kept) =
      remove_loop-IsStore s.max_transaction_ids_count s.earliest_transaction_id_index s id h
        h.earliest_inside in
    let (b, found, here, away) = transaction_id_store_has_id-InSlot s other h in
    let same : some b ≡ some true = sym found ∙ has in
    (s', run, is_store, has_id-true s' other is_store (kept other ne (here (cc same))))
