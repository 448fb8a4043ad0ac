-- ===== src/RollingBuffer/Window.antt =====
-- The slots of a ring as a list: what `index % capacity` selects for consecutive indices.
use kvs_c.Base.{
  ℕ, zero, suc, ◌+◌, ◌-◌, ◌*◌, ◌/◌, ◌%◌, ◌≤◌, ◌<◌, ◌≡◌, ◌≢◌, refl, ap, ap₂, sym, ◌∙◌, List, [], ◌∷◌,
  ◌++◌, arith, length, get_or, set, get_or-set_self, get_or-set_ne,
}
use native.Mathlib.Nat.{div-add-mod}
use native.Mathlib.Decide.{dec_lt}

-- Two indices less than one turn apart are in different slots.
pub mod-ne : (cap a k : ℕ) → 0 < k → k < cap → a % cap ≢ (a + k) % cap
mod-ne cap a k hk hc e = elim (dec_lt (a / cap) ((a + k) / cap)) [
  | yes p ↦
      omega (arith, div-add-mod a cap, div-add-mod (a + k) cap, turn (a / cap) ((a + k) / cap) p)
  | no p ↦ omega (
    arith,
    div-add-mod a cap,
    div-add-mod (a + k) cap,
    below ((a + k) / cap) (a / cap) (omega arith),
  )
]
  where
    turn : (p q : ℕ) → p < q → cap * p + cap ≤ cap * q
    turn p q h = grind arith

    below : (p q : ℕ) → p ≤ q → cap * p ≤ cap * q
    below p q h = grind arith

module _ (buf : List ℕ) (cap : ℕ) where
  -- The `n` slots from index `t` on.
  abbrev pub window : ℕ → ℕ → List ℕ
  window t zero = []
  window t (suc n) = get_or buf (t % cap) 0 ∷ window (suc t) n

  pub length-window : (t n : ℕ) → length (window t n) ≡ n
  length-window t zero = refl
  length-window t (suc n) = ap suc (length-window (suc t) n)

  pub window-snoc : (t n : ℕ) → window t (suc n) ≡ window t n ++ (get_or buf ((t + n) % cap) 0 ∷ [])
  window-snoc t zero = ap (λ k. get_or buf (k % cap) 0 ∷ []) (omega arith)
  window-snoc t (suc n) =
      ap (λ l. get_or buf (t % cap) 0 ∷ l)
        (window-snoc (suc t) n
          ∙ ap (λ k. window (suc t) n ++ (get_or buf (k % cap) 0 ∷ [])) (omega arith))

  pub get_or-window : (t n j : ℕ) → j < n → get_or (window t n) j 0 ≡ get_or buf ((t + j) % cap) 0
  get_or-window t zero j h = absurd (omega arith)
  get_or-window t (suc n) zero h = ap (λ k. get_or buf (k % cap) 0) (omega arith)
  get_or-window t (suc n) (suc j) h =
      get_or-window (suc t) n j (omega arith) ∙ ap (λ k. get_or buf (k % cap) 0) (omega arith)

-- A write past the window, less than a turn from its start, does not show in it.
pub window-set_past :
    (buf : List ℕ) (cap t n a v : ℕ)
    → t + n ≤ a
    → a < t + cap
    → window (set buf (a % cap) v) cap t n ≡ window buf cap t n
window-set_past buf cap t zero a v h k = refl
window-set_past buf cap t (suc n) a v h k =
    ap₂ ◌∷◌
      (get_or-set_ne buf (a % cap) (t % cap) v 0
        (λ e. mod-ne cap t (a - t) (omega arith) (omega arith) (sym e ∙ ap (λ x. x % cap) back)))
      (window-set_past buf cap (suc t) n a v (omega arith) (omega arith))
  where
    back : a ≡ t + (a - t)
    back = omega arith

-- A write just past the window extends it.
pub window-set_next :
    (buf : List ℕ) (cap t n v : ℕ)
    → length buf ≡ cap
    → n < cap
    → window (set buf ((t + n) % cap) v) cap t (suc n) ≡ window buf cap t n ++ (v ∷ [])
window-set_next buf cap t n v hl hn =
    window-snoc (set buf ((t + n) % cap) v) cap t n
    ∙ ap₂ (λ l x. l ++ (x ∷ [])) (window-set_past buf cap t n (t + n) v (omega arith) (omega arith))
        (get_or-set_self buf ((t + n) % cap) v 0 (omega arith))

-- A write before the window, less than a turn from its end, does not show in it.
pub window-set_before :
    (buf : List ℕ) (cap a t n v : ℕ)
    → a < t
    → t + n ≤ a + cap
    → window (set buf (a % cap) v) cap t n ≡ window buf cap t n
window-set_before buf cap a t zero v h k = refl
window-set_before buf cap a t (suc n) v h k =
    ap₂ ◌∷◌
      (get_or-set_ne buf (a % cap) (t % cap) v 0
        (λ e. mod-ne cap a (t - a) (omega arith) (omega arith) (e ∙ ap (λ x. x % cap) on)))
      (window-set_before buf cap a (suc t) n v (omega arith) (omega arith))
  where
    on : t ≡ a + (t - a)
    on = omega arith

-- A write inside the window is a write of the list.
pub window-set_in :
    (buf : List ℕ) (cap t n j v : ℕ)
    → length buf ≡ cap
    → j < n
    → n ≤ cap
    → window (set buf ((t + j) % cap) v) cap t n ≡ set (window buf cap t n) j v
window-set_in buf cap t zero j v hl hj hn = absurd (omega arith)
window-set_in buf cap t (suc n) zero v hl hj hn =
    ap (λ k. window (set buf (k % cap) v) cap t (suc n)) (omega arith)
    ∙ ap₂ ◌∷◌ (get_or-set_self buf (t % cap) v 0 (omega arith))
        (window-set_before buf cap t (suc t) n v (omega arith) (omega arith))
window-set_in buf cap t (suc n) (suc j) v hl hj hn =
    ap₂ ◌∷◌
      (get_or-set_ne buf ((t + suc j) % cap) (t % cap) v 0
        (λ e. mod-ne cap t (suc j) (omega arith) (omega arith) (sym e)))
      (ap (λ k. window (set buf (k % cap) v) cap (suc t) n) (omega arith)
        ∙ window-set_in buf cap (suc t) n j v hl (omega arith) (omega arith))
