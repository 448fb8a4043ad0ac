-- ===== src/RollingBuffer.antt =====
-- src/source/Rtcp/RollingBuffer.c: a ring of UINT64 slots addressed by ever growing indices.
-- A slot holds a pointer as a number, 0 is NULL. Each function runs under the buffer's lock, so one
-- call is one step. A NULL `pRollingBuffer` (or a NULL result pointer of `rollingBufferExtractData`,
-- `rollingBufferGetSize` and `rollingBufferIsEmpty`), where the code only returns STATUS_NULL_ARG,
-- is not a value of the model.
pub mod Invariant
pub mod Window
pub mod Refine
pub mod Runs
pub mod Free
pub mod Access
mod Tests
use kvs_c.Base.{
  ℕ, zero, suc, ◌+◌, ◌-◌, ◌%◌, ◌^◌, Bool, true, false, not, ◌&&◌, Option, none, some, List, [], ◌∷◌,
  ◌++◌, ltb, leb, ◌==◌, if◌then◌else◌, get_or, set, replicate,
}
use kvs_c.Status.{
  Status, success, invalid_arg, not_enough_memory, rolling_buffer_not_in_range, succeeded,
}

-- `FreeDataFunc`: what the callback returns for the value of a slot, and what it leaves there.
abbrev pub FreeDataFunc : Type 0
FreeDataFunc = ℕ → Status × ℕ

-- `RollingBuffer`. `freed` is a ghost: the values on which `freeDataFn` was called, oldest first.
pub record RollingBuffer : Type 0 where
  pub capacity : ℕ
  pub head_index : ℕ
  pub tail_index : ℕ
  pub data_buffer : List ℕ
  pub free_data_fn : Option FreeDataFunc
  pub freed : List ℕ

-- UINT64 addition.
abbrev pub add64 : ℕ → ℕ → ℕ
add64 a b = (a + b) % 2 ^ 64

-- ROLLING_BUFFER_MAP_INDEX
abbrev pub map_index : RollingBuffer → ℕ → ℕ
map_index r index = index % r.capacity

-- createRollingBuffer; `allocated` says whether MEMALLOC succeeds.
pub create_rolling_buffer : Bool → ℕ → Option FreeDataFunc → Status × Option RollingBuffer
create_rolling_buffer allocated capacity free_fn =
    if capacity == 0
    then (invalid_arg, none)
    else if allocated
    then (success, some fresh)
    else (not_enough_memory, none)
  where
    fresh : RollingBuffer
    fresh = record {
      capacity = capacity;
      head_index = 0;
      tail_index = 0;
      data_buffer = replicate capacity 0;
      free_data_fn = free_fn;
      freed = [];
    }

-- The call of `freeDataFn` on the slot of `index`, when there is a callback: its status, and the
-- buffer with the slot as the callback leaves it.
pub call_free : RollingBuffer → ℕ → Status × RollingBuffer
call_free r index = elim r.free_data_fn [
  | none ↦ (success, r)
  | some f ↦
      let slot = get_or r.data_buffer (map_index r index) 0 in
      let (status, left) = f slot in
      (
        status,
        record r {
          data_buffer = set r.data_buffer (map_index r index) left;
          freed = r.freed ++ (slot ∷ []);
        },
      )
]

-- Whether the code has a callback (`freeDataFn != NULL`).
abbrev pub has_free : RollingBuffer → Bool
has_free r = elim r.free_data_fn [ none ↦ false | some f ↦ true ]

-- The write of `rollingBufferAppendData` at the head, and the step of the head.
pub put_head : RollingBuffer → ℕ → RollingBuffer
put_head r value = record r {
  data_buffer = set r.data_buffer (map_index r r.head_index) value;
  head_index = add64 r.head_index 1;
}

-- The end of `rollingBufferAppendData`: `*pIndex` is the index before the head.
abbrev pub appended : RollingBuffer → Status × ℕ × RollingBuffer
appended r = (success, (r.head_index + 2 ^ 64 - 1) % 2 ^ 64, r)

-- The branch of a full buffer: the callback on the tail, whose failure ends the call, then the write.
pub evict : RollingBuffer → ℕ → Status × ℕ × RollingBuffer
unfolding call_free put_head
evict r value =
    let (status, r') = call_free r r.tail_index in
    if succeeded status
    then appended (put_head (record r' { tail_index = add64 r'.tail_index 1 }) value)
    else (status, 0, r')

-- rollingBufferAppendData; the second component is `*pIndex` (0 where the code does not write it).
pub append_data : RollingBuffer → ℕ → Status × ℕ × RollingBuffer
unfolding put_head evict
append_data r value =
    if r.head_index == r.tail_index
    then appended (record r {
      data_buffer = set r.data_buffer (map_index r r.tail_index) value;
      head_index = add64 r.tail_index 1;
    })
    else if r.head_index == add64 r.tail_index r.capacity
    then evict r value
    else appended (put_head r value)

-- Whether `index` is between the tail and the head.
abbrev pub in_range : RollingBuffer → ℕ → Bool
in_range r index = ltb index r.head_index && leb r.tail_index index

-- rollingBufferInsertData; the status of the callback is ignored.
pub insert_data : RollingBuffer → ℕ → ℕ → Status × RollingBuffer
unfolding call_free
insert_data r index value =
    if in_range r index
    then (let r' : RollingBuffer = if occupied then (call_free r index).1 else r in
        (success, record r' { data_buffer = set r'.data_buffer (map_index r' index) value }))
    else (rolling_buffer_not_in_range, r)
  where
    occupied : Bool
    occupied = not (get_or r.data_buffer (map_index r index) 0 == 0) && has_free r

-- rollingBufferExtractData; the second component is `*pData`.
pub extract_data : RollingBuffer → ℕ → Status × ℕ × RollingBuffer
extract_data r index =
    if in_range r index
    then (let value = get_or r.data_buffer (map_index r index) 0 in
        (
          success,
          value,
          (if not (value == 0)
              then record r { data_buffer = set r.data_buffer (map_index r index) 0 }
              else r),
        ))
    else (success, 0, r)

-- rollingBufferGetSize: the difference, cut to UINT32.
unfoldable pub get_size : RollingBuffer → ℕ
get_size r = (r.head_index + 2 ^ 64 - r.tail_index) % 2 ^ 64 % 2 ^ 32

-- rollingBufferIsEmpty
pub is_empty : RollingBuffer → Bool
is_empty r = r.head_index == r.tail_index

-- One round of the loop of freeRollingBuffer: with a callback the slot becomes NULL after the call.
pub free_step : RollingBuffer → RollingBuffer
unfolding call_free
free_step r =
    let r' = (call_free r r.tail_index).1 in
    record r' {
      data_buffer =
          if has_free r then set r'.data_buffer (map_index r' r.tail_index) 0 else r'.data_buffer;
      tail_index = add64 r.tail_index 1;
    }

-- `while (tailIndex < headIndex)`, on fuel.
pub free_loop : ℕ → RollingBuffer → RollingBuffer
unfolding free_step
free_loop zero r = r
free_loop (suc fuel) r =
    let rest = free_loop fuel (free_step r) in if ltb r.tail_index r.head_index then rest else r

-- freeRollingBuffer, up to the release of the memory: the buffer is as the loop leaves it.
-- Each round moves the tail by one, so the distance to the head is enough fuel.
pub free_rolling_buffer : RollingBuffer → RollingBuffer
unfolding free_loop
free_rolling_buffer r = free_loop (r.head_index - r.tail_index) r
