-- ===== src/IceUtils/Tests.antt =====
-- The store of transaction ids of IceUtils.c with two slots.
use kvs_c.Base.{ℕ, ◌<◌, ◌≡◌, ◌≢◌, refl, Bool, true, false, some, List, [], ◌∷◌, arith, get_elem?}
use kvs_c.IceUtils.{TransactionIdStore, transaction_id_store_insert, transaction_id_store_has_id}
use kvs_c.IceUtils.Slots.{IsStore, InSlot, transaction_id_store_has_id-InSlot}
use kvs_c.IceUtils.Insert.{transaction_id_store_insert-has_id}

abbrev first_id : List ℕ
first_id = 1 ∷ 2 ∷ 3 ∷ 4 ∷ 5 ∷ 6 ∷ 7 ∷ 8 ∷ 9 ∷ 10 ∷ 11 ∷ 12 ∷ []

abbrev second_id : List ℕ
second_id = 2 ∷ 2 ∷ 3 ∷ 4 ∷ 5 ∷ 6 ∷ 7 ∷ 8 ∷ 9 ∷ 10 ∷ 11 ∷ 12 ∷ []

abbrev two_ids : TransactionIdStore
two_ids = record {
  max_transaction_ids_count = 2;
  next_transaction_id_index = 0;
  earliest_transaction_id_index = 1;
  transaction_id_count = 1;
  transaction_ids = first_id ∷ second_id ∷ [];
}

two_ids-IsStore : IsStore two_ids
two_ids-IsStore = record {
  slots = refl;
  small = omega arith;
  next_inside = omega arith;
  earliest_inside = omega arith;
  count_fits = omega arith;
}

transaction_id_store_has_id-InSlot_example :
    (b : Bool) × (transaction_id_store_has_id two_ids first_id ≡ some b)
    × (b ≡ true → InSlot two_ids first_id)
    × (b ≡ false → ¬ InSlot two_ids first_id)
transaction_id_store_has_id-InSlot_example =
    transaction_id_store_has_id-InSlot two_ids first_id two_ids-IsStore

transaction_id_store_insert-has_id_example :
    (s' : TransactionIdStore) × (transaction_id_store_insert two_ids first_id ≡ some s')
    × IsStore s'
    × (transaction_id_store_has_id s' first_id ≡ some true)
    × ((k : ℕ) (other : List ℕ)
        → k < 2
        → k ≢ 0
        → get_elem? two_ids.transaction_ids k ≡ some other
        → transaction_id_store_has_id s' other ≡ some true)
transaction_id_store_insert-has_id_example =
    transaction_id_store_insert-has_id two_ids first_id two_ids-IsStore
