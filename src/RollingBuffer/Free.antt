-- ===== src/RollingBuffer/Free.antt =====
-- freeRollingBuffer: every value that the buffer holds goes to the callback, oldest first.
use kvs_c.Base.{
  ℕ, zero, suc, ◌+◌, ◌-◌, ◌%◌, ◌<◌, ◌≡◌, refl, sym, ap, ◌∙◌, true, [], ◌∷◌, ◌++◌, some, arith,
  lt→ltb, length-set, set, get_or, append_assoc, append-nil,
}
use native.Mathlib.Numerals.{add-one}
use kvs_c.RollingBuffer.{
  RollingBuffer, FreeDataFunc, is_empty, free_step, free_loop, free_rolling_buffer,
}
use kvs_c.RollingBuffer.Invariant.{IsValid}
use kvs_c.RollingBuffer.Window.{window, window-set_before}
use kvs_c.RollingBuffer.Refine.{contents}

-- The buffer after one round with the callback `f`.
abbrev stepped : RollingBuffer → FreeDataFunc → RollingBuffer
stepped r f =
    let slot = get_or r.data_buffer (r.tail_index % r.capacity) 0 in
    record r {
      data_buffer =
          set (set r.data_buffer (r.tail_index % r.capacity) (f slot).1) (r.tail_index % r.capacity)
            0;
      tail_index = r.tail_index + 1;
      freed = r.freed ++ (slot ∷ []);
    }

free_step-stepped :
    {r : RollingBuffer} (f : FreeDataFunc)
    → IsValid r
    → r.tail_index < r.head_index
    → r.free_data_fn ≡ some f
    → free_step r ≡ stepped r f
unfolding free_step
free_step-stepped f h lt e = ground arith

stepped-IsValid :
    {r : RollingBuffer} (f : FreeDataFunc)
    → IsValid r
    → r.tail_index < r.head_index
    → IsValid (stepped r f)
stepped-IsValid {r} f h lt = ground (
  arith,
  length-set r.data_buffer (r.tail_index % r.capacity)
      (f (get_or r.data_buffer (r.tail_index % r.capacity) 0)).1,
  length-set
      (set r.data_buffer (r.tail_index % r.capacity)
        (f (get_or r.data_buffer (r.tail_index % r.capacity) 0)).1)
      (r.tail_index % r.capacity) 0,
)

free_loop_lem :
    (n : ℕ) {r : RollingBuffer} (f : FreeDataFunc)
    → IsValid r
    → r.free_data_fn ≡ some f
    → r.head_index ≡ r.tail_index + n
    → let r' = free_loop n r in
      (r'.freed ≡ r.freed ++ window r.data_buffer r.capacity r.tail_index n)
      × (r'.tail_index ≡ r.head_index)
      × (r'.head_index ≡ r.head_index)
unfolding free_loop
free_loop_lem zero {r} f h e full = (sym (append-nil r.freed), omega arith, refl)
free_loop_lem (suc n) {r} f h e full =
    let ih =
      free_loop_lem n {r = stepped r f} f (stepped-IsValid f h (omega arith)) e (omega arith) in
    rw (lt→ltb r.tail_index r.head_index (omega arith), free_step-stepped f h (omega arith) e)
      (
        ih.0 ∙ append_assoc r.freed (slot ∷ []) _ ∙ ap (λ l. r.freed ++ (slot ∷ l)) behind,
        ih.1,
        ih.2,
      )
  where
    open r use {data_buffer as buf, capacity as c, tail_index as t}

    slot : ℕ
    slot = get_or buf (t % c) 0

    behind :
        window (set (set buf (t % c) (f slot).1) (t % c) 0) c (t + 1) n ≡ window buf c (suc t) n
    behind =
        ap (λ k. window (set (set buf (t % c) (f slot).1) (t % c) 0) c k n) (add-one t)
        ∙ window-set_before (set buf (t % c) (f slot).1) c t (suc t) n 0 (omega arith) (omega arith)
        ∙ window-set_before buf c t (suc t) n (f slot).1 (omega arith) (omega arith)

-- Freeing hands every value that the buffer holds to the callback, oldest first, and leaves it empty.
pub free_rolling_buffer-freed :
    {r : RollingBuffer} (f : FreeDataFunc)
    → IsValid r
    → r.free_data_fn ≡ some f
    → let r' = free_rolling_buffer r in (r'.freed ≡ r.freed ++ contents r) × (is_empty r' ≡ true)
unfolding free_rolling_buffer is_empty
free_rolling_buffer-freed {r} f h e =
    ground (arith, free_loop_lem (r.head_index - r.tail_index) f h e (omega arith))
