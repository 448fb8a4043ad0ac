-- ===== src/RollingBuffer/Access.antt =====
-- rollingBufferExtractData, rollingBufferInsertData and freeRollingBuffer on the queue of a valid ring.
use kvs_c.Base.{
  ℕ, ◌+◌, ◌-◌, ◌%◌, ◌≤◌, ◌<◌, ◌≡◌, false, [], ◌∷◌, ◌++◌, some, arith, set, get_or, set-set, ◌==◌,
  if◌then◌else◌, set-get_or, get_or-set_self,
}
use kvs_c.Status.{success, rolling_buffer_not_in_range}
use kvs_c.RollingBuffer.{
  RollingBuffer, FreeDataFunc, call_free, insert_data, extract_data, in_range,
}
use kvs_c.RollingBuffer.Invariant.{IsValid}
use kvs_c.RollingBuffer.Window.{window-set_in, get_or-window}
use kvs_c.RollingBuffer.Refine.{contents}

-- The slot of an index in range is the slot of its place in the queue.
place : (r : RollingBuffer) (i : ℕ) → r.tail_index ≤ i → r.tail_index + (i - r.tail_index) ≡ i
place r i h = omega arith

-- Extracting an index in range answers with the value at its place in the queue, leaves NULL there
-- and everything else as it was.
extract_data-contents :
    {r : RollingBuffer} (i : ℕ)
    → IsValid r
    → r.tail_index ≤ i
    → i < r.head_index
    → let (status, value, r') = extract_data r i in
      (status ≡ success)
      × (value ≡ get_or (contents r) (i - r.tail_index) 0)
      × (contents r' ≡ set (contents r) (i - r.tail_index) 0)
      × (r'.tail_index ≡ r.tail_index)
      × (r'.head_index ≡ r.head_index)
      × (r'.freed ≡ r.freed)
unfolding extract_data
extract_data-contents {r} i h lo hi = ground (
  arith,
  get_or-window r.data_buffer r.capacity r.tail_index (r.head_index - r.tail_index)
      (i - r.tail_index),
  window-set_in r.data_buffer r.capacity r.tail_index (r.head_index - r.tail_index)
      (i - r.tail_index) 0,
  place r i lo,
  set-get_or (contents r) (i - r.tail_index) 0,
)

-- Outside the range an extraction answers NULL and an insertion is refused; neither changes the buffer.
out_of_range :
    (r : RollingBuffer) (i v : ℕ)
    → in_range r i ≡ false
    → (extract_data r i ≡ (success, 0, r)) × (insert_data r i v ≡ (rolling_buffer_not_in_range, r))
unfolding extract_data insert_data
out_of_range r i v e = (rw e, rw e)

-- Putting an extracted value back where it was restores the buffer, with no call of the callback.
insert_data-extract_data :
    {r : RollingBuffer} (i : ℕ)
    → IsValid r
    → r.tail_index ≤ i
    → i < r.head_index
    → let (_, value, r') = extract_data r i in insert_data r' i value ≡ (success, r)
unfolding extract_data insert_data
insert_data-extract_data {r} i h lo hi = ground (
  arith,
  set-set r.data_buffer (i % r.capacity) 0 (get_or r.data_buffer (i % r.capacity) 0),
  set-get_or r.data_buffer (i % r.capacity) 0,
  get_or-set_self r.data_buffer (i % r.capacity) 0 0,
)

-- An insertion puts the value at its place; a value that it overwrites goes to the callback.
insert_data-contents :
    {r : RollingBuffer} (f : FreeDataFunc) (i v : ℕ)
    → IsValid r
    → r.tail_index ≤ i
    → i < r.head_index
    → r.free_data_fn ≡ some f
    → let old = get_or (contents r) (i - r.tail_index) 0 in
      let (status, r') = insert_data r i v in
      (status ≡ success)
      × (contents r' ≡ set (contents r) (i - r.tail_index) v)
      × (r'.freed ≡ (if old == 0 then r.freed else r.freed ++ (old ∷ [])))
unfolding insert_data call_free
insert_data-contents {r} f i v h lo hi e = ground (
  arith,
  get_or-window r.data_buffer r.capacity r.tail_index (r.head_index - r.tail_index)
      (i - r.tail_index),
  window-set_in r.data_buffer r.capacity r.tail_index (r.head_index - r.tail_index)
      (i - r.tail_index) v,
  place r i lo,
  set-set r.data_buffer (i % r.capacity) (f (get_or r.data_buffer (i % r.capacity) 0)).1 v,
)
