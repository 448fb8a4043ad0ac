-- ===== src/RollingBuffer/Runs.antt =====
-- Any number of appends, one after the other.
use kvs_c.Base.{
  ℕ, ◌+◌, ◌-◌, ◌^◌, ◌<◌, ◌≡◌, sym, ap, ◌∙◌, min, List, [], ◌∷◌, ◌++◌, some, arith, length,
  append_assoc, append-nil, length-append, length-drop,
}
use kvs_c.RollingBuffer.{RollingBuffer, FreeDataFunc, append_data}
use kvs_c.RollingBuffer.Invariant.{
  IsValid, FreeSucceeds, append_data-IsValid, append_data-SameConfig,
}
use kvs_c.RollingBuffer.Refine.{
  contents, length-contents, append_data-keep_last, append_data-history,
}

-- The calls of rollingBufferAppendData for a list of values, in order.
unfoldable pub append_all : RollingBuffer → List ℕ → RollingBuffer
append_all r [] = r
append_all r (v ∷ vs) = append_all (append_data r v).2 vs

-- After any sequence of appends that the indices have room for, the values handed to the callback
-- followed by those still held are exactly the values before, in order, and as many are held as fit.
pub append_all-history :
    (vs : List ℕ) {r : RollingBuffer} (f : FreeDataFunc)
    → IsValid r
    → FreeSucceeds r
    → r.free_data_fn ≡ some f
    → r.head_index + length vs < 2 ^ 64
    → let r' = append_all r vs in
      (r'.freed ++ contents r' ≡ r.freed ++ (contents r ++ vs))
      × (length (contents r') ≡ min r.capacity (length (contents r) + length vs))
      × IsValid r'
unfolding append_all
append_all-history [] {r} f h ok e hi =
    (ap (◌++◌ r.freed) (sym (append-nil (contents r))), omega (arith, length-contents r), h)
append_all-history (v ∷ vs) {r} f h ok e hi =
    let (same_cap, same_fn, head) = append_data-SameConfig v h ok (omega arith) in
    let (_, _, kept) = append_data-keep_last v h ok (omega arith) in
    let (history, size, valid) =
      append_all-history vs {r = (append_data r v).2} f (append_data-IsValid v h ok (omega arith))
        (λ g eg. ok g (sym same_fn ∙ eg)) (same_fn ∙ e) (omega arith) in
    (
      history
          ∙ sym (append_assoc (append_data r v).2.freed (contents (append_data r v).2) vs)
          ∙ ap (λ l. l ++ vs) (append_data-history f v h ok (omega arith) e)
          ∙ append_assoc r.freed (contents r ++ (v ∷ [])) vs
          ∙ ap (λ l. r.freed ++ l) (append_assoc (contents r) (v ∷ []) vs),
      omega (
        arith,
        size,
        same_cap,
        ap (length {A = ℕ}) kept,
        length-drop (length (contents r ++ (v ∷ [])) - r.capacity) (contents r ++ (v ∷ [])),
        length-append (contents r) (v ∷ []),
        length-contents r,
      ),
      valid,
    )
