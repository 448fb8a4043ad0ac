-- ===== src/Payload/Chunks.antt =====
-- The cut of a frame into pieces of a greatest size: the specification of the payloaders.
use kvs_c.Base.{
  ℕ, zero, suc, ◌+◌, ◌-◌, ◌/◌, ◌%◌, ◌≤◌, ◌<◌, ◌≡◌, refl, ap, ◌∙◌, sym, List, [], ◌∷◌, ◌++◌, map,
  arith, length, length-drop, take, drop, take-append-drop, ◌==◌, if◌then◌else◌,
}
use native.Mathlib.Nat.{div-eq-sub-div, mod-eq-sub-mod, mod-eq_of_lt, div-eq_of_lt}
use native.Mathlib.Decide.{dec_le}

-- Pieces of `m` elements, the last one with what is left; each round takes one piece.
abbrev pub chunk_loop {ℓ} : {A : Type ℓ} → (rounds m : ℕ) → List A → List (List A)
chunk_loop zero m xs = []
chunk_loop (suc n) m [] = []
chunk_loop (suc n) m (x ∷ xs) = take m (x ∷ xs) ∷ chunk_loop n m (drop m (x ∷ xs))

-- As many rounds as there are elements are enough for pieces that are not empty.
abbrev pub chunks {ℓ} : {A : Type ℓ} → ℕ → List A → List (List A)
chunks m xs = chunk_loop (length xs) m xs

abbrev pub concat {ℓ} : {A : Type ℓ} → List (List A) → List A
concat [] = []
concat (xs ∷ xss) = xs ++ concat xss

abbrev pub lengths {ℓ} : {A : Type ℓ} → List (List A) → List ℕ
lengths xss = map length xss

-- The number of pieces, as the payloaders compute it.
abbrev pub ceiling : ℕ → ℕ → ℕ
ceiling n m = n / m + (if n % m == 0 then 0 else 1)

ceiling-step : (n m : ℕ) → 0 < m → m ≤ n → ceiling n m ≡ suc (ceiling (n - m) m)
ceiling-step n m hm h =
    ground (arith, div-eq-sub-div {m = m} {n = n} hm h, mod-eq-sub-mod {n = n} {m = m} h)

ceiling_small : (n m : ℕ) → 0 < n → n < m → ceiling n m ≡ 1
ceiling_small n m hn h =
    ground (arith, div-eq_of_lt {n = n} {m = m} h, mod-eq_of_lt {n = n} {m = m} h)

ceiling_zero : (m : ℕ) → 0 < m → ceiling 0 m ≡ 0
ceiling_zero m h = ground (arith, div-eq_of_lt {n = 0} {m = m} h, mod-eq_of_lt {n = 0} {m = m} h)

module _ {ℓ} {A : Type ℓ} where
  pub concat-chunk_loop :
      (f m : ℕ) (xs : List A) → 0 < m → length xs ≤ f → concat (chunk_loop f m xs) ≡ xs
  concat-chunk_loop zero m [] hm h = refl
  concat-chunk_loop zero m (x ∷ xs) hm h = absurd (omega arith)
  concat-chunk_loop (suc f) m [] hm h = refl
  concat-chunk_loop (suc f) m (x ∷ xs) hm h =
      ap (λ r. take m (x ∷ xs) ++ r)
        (concat-chunk_loop f m (drop m (x ∷ xs)) hm (omega (arith, length-drop m (x ∷ xs))))
      ∙ take-append-drop m (x ∷ xs)

  pub length-chunk_loop :
      (f m : ℕ) (xs : List A)
      → 0 < m
      → length xs ≤ f
      → length (chunk_loop f m xs) ≡ ceiling (length xs) m
  length-chunk_loop zero m [] hm h = ground (arith, ceiling_zero m hm)
  length-chunk_loop zero m (x ∷ xs) hm h = absurd (omega arith)
  length-chunk_loop (suc f) m [] hm h = ground (arith, ceiling_zero m hm)
  length-chunk_loop (suc f) m (x ∷ xs) hm h =
      let ih = length-chunk_loop f m (drop m (x ∷ xs)) hm (omega (arith, length-drop m (x ∷ xs))) in
      elim (dec_le m (length (x ∷ xs))) [
        | yes le ↦
            ap suc (ih ∙ ap (λ n. ceiling n m) (length-drop m (x ∷ xs)))
            ∙ sym (ceiling-step (length (x ∷ xs)) m hm le)
        | no gt ↦
            ap suc (
              ih
              ∙ ap (λ n. ceiling n m) (omega (arith, length-drop m (x ∷ xs)))
              ∙ ceiling_zero m hm)
            ∙ sym (ceiling_small (length (x ∷ xs)) m (omega arith) (omega arith))
      ]
