-- ===== src/RollingBuffer/Refine.antt =====
-- A valid ring is a bounded queue: appending keeps the newest values and hands every older one to
-- the callback, in order; extracting and putting back works at an index's place in the queue.
use kvs_c.Base.{
  ℕ, suc, ◌+◌, ◌-◌, ◌%◌, ◌^◌, ◌≤◌, ◌<◌, ◌≡◌, refl, sym, ap, ap₂, ◌∙◌, List, [], ◌∷◌, ◌++◌, none,
  some, arith, length, length-set, set, get_or, drop, append_assoc, Option-cases, inl, inr,
  length-append, set-get_or,
}
use native.Mathlib.Decide.{dec_lt}
use kvs_c.Status.{success}
use kvs_c.RollingBuffer.{RollingBuffer, FreeDataFunc, append_data}
use kvs_c.RollingBuffer.Invariant.{IsValid, FreeSucceeds}
use kvs_c.RollingBuffer.Window.{window, length-window, window-set_next, window-set_before}

-- The values that the buffer holds, oldest first.
abbrev pub contents : RollingBuffer → List ℕ
contents r = window r.data_buffer r.capacity r.tail_index (r.head_index - r.tail_index)

-- The last `n` elements of a list.
abbrev pub keep_last : ℕ → List ℕ → List ℕ
keep_last n xs = drop (length xs - n) xs

pub length-contents : (r : RollingBuffer) → length (contents r) ≡ r.head_index - r.tail_index
length-contents r =
    length-window r.data_buffer r.capacity r.tail_index (r.head_index - r.tail_index)

keep_last_room : (n : ℕ) (xs : List ℕ) → length xs ≤ n → keep_last n xs ≡ xs
keep_last_room n xs h = let e : length xs - n ≡ 0 = omega arith in rw e

keep_last_full :
    (n x v : ℕ) (xs : List ℕ)
    → suc (length xs) ≡ n
    → keep_last n (x ∷ (xs ++ (v ∷ []))) ≡ xs ++ (v ∷ [])
keep_last_full n x v xs h =
    let e : suc (length (xs ++ (v ∷ []))) - n ≡ 1 = omega (arith, length-append xs (v ∷ [])) in rw e

-- The buffer after an append that finds room.
abbrev grown : RollingBuffer → ℕ → RollingBuffer
grown r v = record r {
  data_buffer = set r.data_buffer (r.head_index % r.capacity) v;
  head_index = r.head_index + 1;
}

contents-grown :
    {r : RollingBuffer} (v : ℕ)
    → IsValid r
    → r.head_index < r.tail_index + r.capacity
    → contents (grown r v) ≡ contents r ++ (v ∷ [])
contents-grown {r} v h room =
    ap₂ (λ i k. window (set buf (i % n) v) n t k) at_head one_more
    ∙ window-set_next buf n t (r.head_index - t) v h.storage (omega arith)
  where
    open r use {data_buffer as buf, capacity as n, tail_index as t}

    at_head : r.head_index ≡ t + (r.head_index - t)
    at_head = omega arith

    one_more : r.head_index + 1 - t ≡ suc (r.head_index - t)
    one_more = omega arith

append_data_room :
    {r : RollingBuffer} (v : ℕ)
    → IsValid r
    → r.head_index + 1 < 2 ^ 64
    → r.head_index < r.tail_index + r.capacity
    → append_data r v ≡ (success, r.head_index, grown r v)
unfolding append_data
append_data_room v h hi room = ground arith

-- The value of the oldest slot.
abbrev oldest : RollingBuffer → ℕ
oldest r = get_or r.data_buffer (r.tail_index % r.capacity) 0

-- The buffer after an append that evicts: `left` is what the callback left in the oldest slot.
abbrev rolled : RollingBuffer → ℕ → List ℕ → ℕ → RollingBuffer
rolled r left freed v = record r {
  data_buffer =
      set (set r.data_buffer (r.tail_index % r.capacity) left) (r.head_index % r.capacity) v;
  head_index = r.head_index + 1;
  tail_index = r.tail_index + 1;
  freed = freed;
}

append_data_full :
    {r : RollingBuffer} (f : FreeDataFunc) (v : ℕ)
    → IsValid r
    → FreeSucceeds r
    → r.head_index + 1 < 2 ^ 64
    → r.head_index ≡ r.tail_index + r.capacity
    → r.free_data_fn ≡ some f
    → let slot = get_or r.data_buffer (r.tail_index % r.capacity) 0 in
      append_data r v ≡ (success, r.head_index, rolled r (f slot).1 (r.freed ++ (slot ∷ [])) v)
unfolding append_data
append_data_full {r} f v h ok hi full e =
    ground (arith, ok f e (get_or r.data_buffer (r.tail_index % r.capacity) 0))

append_data_full_none :
    {r : RollingBuffer} (v : ℕ)
    → IsValid r
    → r.head_index + 1 < 2 ^ 64
    → r.head_index ≡ r.tail_index + r.capacity
    → r.free_data_fn ≡ none
    → let slot = get_or r.data_buffer (r.tail_index % r.capacity) 0 in
      append_data r v ≡ (success, r.head_index, rolled r slot r.freed v)
unfolding append_data
append_data_full_none {r} v h hi full e =
    ground (arith, set-get_or r.data_buffer (r.tail_index % r.capacity) 0)

window_roll :
    (buf : List ℕ) (cap t m left v : ℕ)
    → length buf ≡ cap
    → cap ≡ suc m
    → window (set (set buf (t % cap) left) ((suc t + m) % cap) v) cap (suc t) (suc m)
      ≡ window buf cap (suc t) m ++ (v ∷ [])
window_roll buf cap t m left v hl hm =
    window-set_next (set buf (t % cap) left) cap (suc t) m v
      (omega (arith, length-set buf (t % cap) left)) (omega arith)
    ∙ ap (λ l. l ++ (v ∷ []))
        (window-set_before buf cap t (suc t) m left (omega arith) (omega arith))

contents-rolled :
    {r : RollingBuffer} (left : ℕ) (freed : List ℕ) (v m : ℕ)
    → IsValid r
    → r.head_index ≡ r.tail_index + r.capacity
    → r.capacity ≡ suc m
    → (contents (rolled r left freed v)
        ≡ window r.data_buffer r.capacity (suc r.tail_index) m ++ (v ∷ []))
      × (contents r
          ≡ get_or r.data_buffer (r.tail_index % r.capacity) 0
            ∷ window r.data_buffer r.capacity (suc r.tail_index) m)
contents-rolled {r} left freed v m h full hm = (
  ap (λ i. window (set buf' (i % n) v) n (t + 1) (r.head_index + 1 - (t + 1))) at_head
      ∙ ap₂ (λ u k. window (set buf' ((suc t + m) % n) v) n u k) next_tail count
      ∙ window_roll buf n t m left v h.storage hm,
  ap (window buf n t) turn,
)
  where
    open r use {data_buffer as buf, capacity as n, tail_index as t}

    buf' : List ℕ
    buf' = set buf (t % n) left

    at_head : r.head_index ≡ suc t + m
    at_head = omega arith

    next_tail : t + 1 ≡ suc t
    next_tail = omega arith

    count : r.head_index + 1 - (t + 1) ≡ suc m
    count = omega arith

    turn : r.head_index - t ≡ suc m
    turn = omega arith

kept_full :
    {r : RollingBuffer} (left : ℕ) (freed : List ℕ) (v : ℕ)
    → IsValid r
    → r.head_index ≡ r.tail_index + r.capacity
    → contents (rolled r left freed v) ≡ keep_last r.capacity (contents r ++ (v ∷ []))
kept_full {r} left freed v h full =
    let m : ℕ = r.capacity - 1 in
    let hm : r.capacity ≡ suc m = omega arith in
    let (after, before) = contents-rolled left freed v m h full hm in
    let rest : List ℕ = window r.data_buffer r.capacity (suc r.tail_index) m in
    after
    ∙ sym (
        keep_last_full r.capacity (get_or r.data_buffer (r.tail_index % r.capacity) 0) v rest
          (omega (arith, length-window r.data_buffer r.capacity (suc r.tail_index) m)))
    ∙ ap (λ l. keep_last r.capacity (l ++ (v ∷ []))) (sym before)

-- An append keeps the newest `capacity` values, in order, and answers with the index of the new one.
pub append_data-keep_last :
    {r : RollingBuffer} (v : ℕ)
    → IsValid r
    → FreeSucceeds r
    → r.head_index + 1 < 2 ^ 64
    → let (status, index, r') = append_data r v in
      (status ≡ success)
      × (index ≡ r.head_index)
      × (contents r' ≡ keep_last r.capacity (contents r ++ (v ∷ [])))
append_data-keep_last {r} v h ok hi = elim (dec_lt r.head_index (r.tail_index + r.capacity)) [
  | yes room ↦ rw (append_data_room v h hi room) (
    refl,
    refl,
    contents-grown v h room ∙ sym (keep_last_room r.capacity (contents r ++ (v ∷ [])) (fits room)),
  )
  | no full ↦ elim (Option-cases r.free_data_fn) [
    | inl e ↦
        rw (append_data_full_none v h hi (omega arith) e)
          (refl, refl, kept_full (oldest r) r.freed v h (omega arith))
    | inr (f, e) ↦
        rw (append_data_full f v h ok hi (omega arith) e)
          (refl, refl, kept_full (f (oldest r)).1 (r.freed ++ (oldest r ∷ [])) v h (omega arith))
  ]
]
  where
    fits : r.head_index < r.tail_index + r.capacity → length (contents r ++ (v ∷ [])) ≤ r.capacity
    fits room = omega (arith, length-append (contents r) (v ∷ []), length-contents r)

-- With a callback nothing is lost and nothing is reordered: the values handed to the callback,
-- followed by the values that the buffer holds, are those from before with the new one behind them.
pub append_data-history :
    {r : RollingBuffer} (f : FreeDataFunc) (v : ℕ)
    → IsValid r
    → FreeSucceeds r
    → r.head_index + 1 < 2 ^ 64
    → r.free_data_fn ≡ some f
    → let r' = (append_data r v).2 in r'.freed ++ contents r' ≡ r.freed ++ (contents r ++ (v ∷ []))
append_data-history {r} f v h ok hi e = elim (dec_lt r.head_index (r.tail_index + r.capacity)) [
  | yes room ↦ rw (append_data_room v h hi room) (ap (◌++◌ r.freed) (contents-grown v h room))
  | no full ↦ rw (append_data_full f v h ok hi (omega arith) e) (shifted (omega arith))
]
  where
    shifted :
        r.head_index ≡ r.tail_index + r.capacity
        → (r.freed ++ (oldest r ∷ []))
            ++ contents (rolled r (f (oldest r)).1 (r.freed ++ (oldest r ∷ [])) v)
          ≡ r.freed ++ (contents r ++ (v ∷ []))
    shifted full =
        let m : ℕ = r.capacity - 1 in
        let hm : r.capacity ≡ suc m = omega arith in
        let (after, before) =
          contents-rolled (f (oldest r)).1 (r.freed ++ (oldest r ∷ [])) v m h full hm in
        append_assoc r.freed (oldest r ∷ []) _
        ∙ ap (λ l. r.freed ++ (oldest r ∷ l)) after
        ∙ ap (λ l. r.freed ++ (l ++ (v ∷ []))) (sym before)
