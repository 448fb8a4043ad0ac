-- ===== src/RollingBuffer/Tests.antt =====
-- Runs of RollingBuffer.c on small rings, and its theorems at concrete inputs.
use kvs_c.Base.{◌+◌, ◌≡◌, refl, true, min, [], ◌∷◌, ◌++◌, none, some, arith, length}
use kvs_c.Status.{success, invalid_arg}
use kvs_c.RollingBuffer.{
  RollingBuffer, FreeDataFunc, create_rolling_buffer, append_data, get_size, is_empty,
  free_rolling_buffer,
}
use kvs_c.RollingBuffer.Invariant.{IsValid, FreeSucceeds}
use kvs_c.RollingBuffer.Refine.{contents, keep_last, append_data-keep_last}
use kvs_c.RollingBuffer.Free.{free_rolling_buffer-freed}
use kvs_c.RollingBuffer.Runs.{append_all, append_all-history}

-- freeRtpRollingBufferData: succeeds and leaves NULL.
abbrev release : FreeDataFunc
release v = (success, 0)

abbrev empty_ring : RollingBuffer
empty_ring = record {
  capacity = 2;
  head_index = 0;
  tail_index = 0;
  data_buffer = 0 ∷ 0 ∷ [];
  free_data_fn = some release;
  freed = [];
}

-- After appends of 7, 8 and 9.
abbrev full_ring : RollingBuffer
full_ring = record {
  capacity = 2;
  head_index = 3;
  tail_index = 1;
  data_buffer = 9 ∷ 8 ∷ [];
  free_data_fn = some release;
  freed = 7 ∷ [];
}

full_ring-IsValid : IsValid full_ring
full_ring-IsValid = omega arith

empty_ring-IsValid : IsValid empty_ring
empty_ring-IsValid = omega arith

release_succeeds : FreeSucceeds full_ring
release_succeeds f e v = ground (arith, e)

three_appends : append_all empty_ring (7 ∷ 8 ∷ 9 ∷ []) ≡ full_ring
unfolding append_all append_data
three_appends = refl

size_of_full : get_size full_ring ≡ 2
unfolding get_size
size_of_full = refl

no_capacity : create_rolling_buffer true 0 none ≡ (invalid_arg, none)
unfolding create_rolling_buffer
no_capacity = refl

created : (create_rolling_buffer true 2 (some release)).1 ≡ some empty_ring
unfolding create_rolling_buffer
created = refl

append_data-keep_last_example :
    let (status, index, r) = append_data full_ring 5 in
    (status ≡ success) × (index ≡ 3) × (contents r ≡ keep_last 2 (8 ∷ 9 ∷ 5 ∷ []))
append_data-keep_last_example =
    append_data-keep_last 5 full_ring-IsValid release_succeeds (omega arith)

append_all-history_example :
    let r = append_all full_ring (5 ∷ 6 ∷ []) in
    (r.freed ++ contents r ≡ 7 ∷ 8 ∷ 9 ∷ 5 ∷ 6 ∷ [])
    × (length (contents r) ≡ min 2 (2 + 2))
    × IsValid r
append_all-history_example =
    append_all-history (5 ∷ 6 ∷ []) release full_ring-IsValid release_succeeds refl (omega arith)

free_rolling_buffer-freed_example :
    let r = free_rolling_buffer full_ring in (r.freed ≡ 7 ∷ 8 ∷ 9 ∷ []) × (is_empty r ≡ true)
free_rolling_buffer-freed_example = free_rolling_buffer-freed release full_ring-IsValid refl
