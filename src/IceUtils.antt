-- ===== src/IceUtils.antt =====
-- src/source/Ice/IceUtils.c: the store of the transaction ids that were sent. A slot is the list of the
-- bytes of an id; `none` is an access behind the slots. NULL arguments are not values of the model.
pub mod Slots
pub mod Insert
mod Tests
use kvs_c.Base.{
  ℕ, zero, suc, ◌+◌, ◌%◌, ◌^◌, Bool, true, false, ◌&&◌, Option, none, some, List, [], ◌∷◌, length,
  replicate, set, get_elem?, ltb, ◌==◌, if◌then◌else◌, min,
}
use kvs_c.Base.Bytes.{◌>>=◌}
use kvs_c.Status.{Status, success, invalid_arg, not_enough_memory}

-- `TransactionIdStore`
pub record TransactionIdStore : Type 0 where
  pub max_transaction_ids_count : ℕ
  pub next_transaction_id_index : ℕ
  pub earliest_transaction_id_index : ℕ
  pub transaction_id_count : ℕ
  pub transaction_ids : List (List ℕ)

-- MAX_STORED_TRANSACTION_ID_COUNT and STUN_TRANSACTION_ID_LEN
abbrev pub max_stored : ℕ
max_stored = 100

abbrev pub id_len : ℕ
id_len = 12

-- createTransactionIdStore; the memory is cleared.
unfoldable pub create_transaction_id_store :
    (allocated : Bool) (max_id_count : ℕ) → Status × Option TransactionIdStore
create_transaction_id_store allocated max_id_count =
    if ltb max_id_count max_stored && ltb 0 max_id_count
    then (if allocated
        then (
          success,
          some (record {
            max_transaction_ids_count = max_id_count;
            next_transaction_id_index = 0;
            earliest_transaction_id_index = 0;
            transaction_id_count = 0;
            transaction_ids = replicate max_id_count (replicate id_len 0);
          }),
        )
        else (not_enough_memory, none))
    else (invalid_arg, none)

-- `(index + 1) % maxTransactionIdsCount`
abbrev pub next_index : TransactionIdStore → ℕ → ℕ
next_index s i = (i + 1) % 2 ^ 32 % s.max_transaction_ids_count

unfoldable pub put_id : List (List ℕ) → ℕ → List ℕ → Option (List (List ℕ))
put_id ids i id = if ltb i (length ids) then some (set ids i id) else none

-- transactionIdStoreInsert
unfoldable pub transaction_id_store_insert : TransactionIdStore → List ℕ → Option TransactionIdStore
transaction_id_store_insert s id = do
  ids ← put_id s.transaction_ids (s.next_transaction_id_index % s.max_transaction_ids_count) id
  let next = next_index s s.next_transaction_id_index
  some (
      if next == s.earliest_transaction_id_index
      then record s {
        transaction_ids = ids;
        next_transaction_id_index = next;
        earliest_transaction_id_index = next_index s s.earliest_transaction_id_index;
      }
      else record s {
        transaction_ids = ids;
        next_transaction_id_index = next;
        transaction_id_count =
            min ((s.transaction_id_count + 1) % 2 ^ 32) s.max_transaction_ids_count;
      })

-- `MEMCMP(...) == 0`
abbrev pub same_id : List ℕ → List ℕ → Bool
same_id [] [] = true
same_id (x ∷ xs) (y ∷ ys) = (x == y) && same_id xs ys
same_id _ _ = false

-- The loop of transactionIdStoreHasId, `rounds` of it.
pub has_loop : (rounds i : ℕ) → TransactionIdStore → List ℕ → Option Bool
has_loop zero i s id = some false
has_loop (suc rounds) i s id = do
  slot ← get_elem? s.transaction_ids i
  let rest = has_loop rounds (next_index s i) s id
  (if same_id id slot then some true else rest)

-- transactionIdStoreHasId
pub transaction_id_store_has_id : TransactionIdStore → List ℕ → Option Bool
transaction_id_store_has_id s id =
    has_loop s.max_transaction_ids_count s.earliest_transaction_id_index s id

-- The loop of transactionIdStoreRemove: the first slot with the id is cleared.
pub remove_loop : (rounds i : ℕ) → TransactionIdStore → List ℕ → Option TransactionIdStore
remove_loop zero i s id = some s
remove_loop (suc rounds) i s id = do
  slot ← get_elem? s.transaction_ids i
  let rest = remove_loop rounds (next_index s i) s id
  (if same_id id slot
      then some (record s { transaction_ids = set s.transaction_ids i (replicate id_len 0) })
      else rest)

-- transactionIdStoreRemove
pub transaction_id_store_remove : TransactionIdStore → List ℕ → Option TransactionIdStore
transaction_id_store_remove s id =
    remove_loop s.max_transaction_ids_count s.earliest_transaction_id_index s id

-- transactionIdStoreClear
unfoldable pub transaction_id_store_clear : TransactionIdStore → TransactionIdStore
transaction_id_store_clear s = record s {
  next_transaction_id_index = 0;
  earliest_transaction_id_index = 0;
  transaction_id_count = 0;
}
