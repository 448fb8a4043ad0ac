-- ===== src/RollingBuffer/Invariant.antt =====
-- The representation invariant of RollingBuffer.c, and that each operation keeps it.
use kvs_c.Base.{
  ℕ, ◌+◌, ◌^◌, ◌≤◌, ◌<◌, ◌≡◌, Bool, true, Option, none, some, arith, length, length-set,
  length-replicate, get_or, Option-cases, inl, inr,
}
use kvs_c.Status.{success}
use kvs_c.RollingBuffer.{
  RollingBuffer, FreeDataFunc, map_index, create_rolling_buffer, call_free, append_data,
  insert_data, extract_data, is_empty,
}

pub record IsValid (r : RollingBuffer) : Type 0 where
  pub positive : 0 < r.capacity
  pub small : r.capacity < 2 ^ 32
  pub storage : length r.data_buffer ≡ r.capacity
  pub ordered : r.tail_index ≤ r.head_index
  pub bounded : r.head_index ≤ r.tail_index + r.capacity
  pub head_fits : r.head_index < 2 ^ 64

-- What the callback is trusted with: it succeeds.
abbrev pub FreeSucceeds : RollingBuffer → Type 0
FreeSucceeds r = (f : FreeDataFunc) → r.free_data_fn ≡ some f → (v : ℕ) → (f v).0 ≡ success

-- What `call_free` leaves alone.
pub record SameRing (r r' : RollingBuffer) : Type 0 where
  pub capacity_eq : r'.capacity ≡ r.capacity
  pub head_eq : r'.head_index ≡ r.head_index
  pub tail_eq : r'.tail_index ≡ r.tail_index
  pub length_eq : length r'.data_buffer ≡ length r.data_buffer
  pub free_eq : r'.free_data_fn ≡ r.free_data_fn

pub call_free-SameRing : (r : RollingBuffer) (i : ℕ) → SameRing r (call_free r i).1
unfolding call_free
call_free-SameRing r i =
    elim r.free_data_fn
      as (λ o.
        SameRing (record r { free_data_fn = o }) (call_free (record r { free_data_fn = o }) i).1) [
          | none ↦ ground arith
          | some f ↦ ground (
            arith,
            length-set r.data_buffer (map_index r i) (f (get_or r.data_buffer (map_index r i) 0)).1,
          )
        ]

pub call_free_succeeds : (r : RollingBuffer) (i : ℕ) → FreeSucceeds r → (call_free r i).0 ≡ success
unfolding call_free
call_free_succeeds r i ok = elim (Option-cases r.free_data_fn) [
  | inl e ↦ rw (e, call_free)
  | inr (f, e) ↦ rw (e, call_free) (ok f e _)
]

-- A buffer that is created is valid and empty.
create_rolling_buffer-IsValid :
    (allocated : Bool) (capacity : ℕ) (f : Option FreeDataFunc) {r : RollingBuffer}
    → capacity < 2 ^ 32
    → (create_rolling_buffer allocated capacity f).1 ≡ some r
    → IsValid r × (is_empty r ≡ true)
unfolding create_rolling_buffer is_empty
create_rolling_buffer-IsValid allocated capacity f hc h =
    ground (arith, length-replicate {A = ℕ} capacity 0)

-- An insertion, in range or not, keeps the buffer valid.
insert_data-IsValid : {r : RollingBuffer} (i v : ℕ) → IsValid r → IsValid (insert_data r i v).1
unfolding insert_data
insert_data-IsValid {r} i v h = ground (
  arith,
  call_free-SameRing r i,
  length-set (call_free r i).1.data_buffer (map_index (call_free r i).1 i) v,
  length-set r.data_buffer (map_index r i) v,
)

pub extract_data-IsValid : {r : RollingBuffer} (i : ℕ) → IsValid r → IsValid (extract_data r i).2
unfolding extract_data
extract_data-IsValid {r} i h = ground (arith, length-set r.data_buffer (map_index r i) 0)

-- An append that does not run the head past the last UINT64, with a callback that succeeds.
pub append_data-IsValid :
    {r : RollingBuffer} (v : ℕ)
    → IsValid r
    → FreeSucceeds r
    → r.head_index + 1 < 2 ^ 64
    → IsValid (append_data r v).2
unfolding append_data
append_data-IsValid {r} v h ok hi = ground (
  arith,
  call_free-SameRing r r.tail_index,
  call_free_succeeds r r.tail_index ok,
  length-set r.data_buffer (map_index r r.tail_index) v,
  length-set r.data_buffer (map_index r r.head_index) v,
  length-set (call_free r r.tail_index).1.data_buffer
      (map_index (call_free r r.tail_index).1 (call_free r r.tail_index).1.head_index) v,
)

-- What an append leaves alone, and how it moves the head.
pub append_data-SameConfig :
    {r : RollingBuffer} (v : ℕ)
    → IsValid r
    → FreeSucceeds r
    → r.head_index + 1 < 2 ^ 64
    → let r' = (append_data r v).2 in
      (r'.capacity ≡ r.capacity)
      × (r'.free_data_fn ≡ r.free_data_fn)
      × (r'.head_index ≡ r.head_index + 1)
unfolding append_data
append_data-SameConfig {r} v h ok hi =
    ground (arith, call_free-SameRing r r.tail_index, call_free_succeeds r r.tail_index ok)
