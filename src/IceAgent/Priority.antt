-- ===== src/IceAgent/Priority.antt =====
-- The priorities that order the candidates and their pairs.
use kvs_c.Base.{
  ℕ, ◌+◌, ◌*◌, ◌≤◌, ◌<◌, ◌≡◌, ◌⊎◌, inl, inr, refl, Bool, true, false, not, arith, ltb, min,
  if◌then◌else◌,
}
use kvs_c.IceAgent.{CandidateType, IceCandidate}
use kvs_c.IceAgent.Pairs.{
  type_preference, max, compute_candidate_priority, compute_candidate_pair_priority,
}

preference_bound : (k : CandidateType) → type_preference k ≤ 126
preference_bound k = ground arith

local_bound : (b : Bool) → (if b then 0 else 65535) ≤ 65535
local_bound b = ground arith

-- The priority of a candidate does not wrap around, and is below 2 ^ 31.
pub compute_candidate_priority_lem :
    (c : IceCandidate)
    → (compute_candidate_priority c
        ≡ 16777216 * type_preference c.kind
          + 256 * (if c.is_point_to_point then 0 else 65535)
          + 255)
      × (compute_candidate_priority c < 2147483648)
unfolding compute_candidate_priority
compute_candidate_priority_lem c =
    let k = preference_bound c.kind in
    let l = local_bound c.is_point_to_point in (omega (arith, k, l), omega (arith, k, l))

-- Candidates are ordered by their types first: a host candidate comes before a peer reflexive one, that
-- before a server reflexive one, and that before a relayed one, whatever their addresses are.
pub compute_candidate_priority-type_preference :
    (c d : IceCandidate)
    → type_preference c.kind < type_preference d.kind
    → compute_candidate_priority c < compute_candidate_priority d
compute_candidate_priority-type_preference c d h =
    let (ec, bc) = compute_candidate_priority_lem c in
    let (ed, bd) = compute_candidate_priority_lem d in
    let lc = local_bound c.is_point_to_point in
    let ld = local_bound d.is_point_to_point in omega (arith, ec, ed, lc, ld)

-- The formula of RFC 5245 for priorities below 2 ^ 31, which does not wrap around.
pair_formula :
    (l r : ℕ) (c : Bool)
    → l < 2147483648
    → r < 2147483648
    → (t : ℕ) × (t ≤ 1)
      × (compute_candidate_pair_priority l r c ≡ 4294967296 * min l r + 2 * max l r + t)
unfolding compute_candidate_pair_priority
pair_formula l r true hl hr = (if ltb r l then 1 else 0, ground arith, ground arith)
pair_formula l r false hl hr = (if ltb l r then 1 else 0, ground arith, ground arith)

swap_agrees :
    (l r : ℕ) (c : Bool)
    → compute_candidate_pair_priority l r c ≡ compute_candidate_pair_priority r l (not c)
unfolding compute_candidate_pair_priority
swap_agrees l r true = refl
swap_agrees l r false = refl

above :
    (m m' x x' t t' : ℕ)
    → x < 2147483648
    → t ≤ 1
    → m < m'
    → 4294967296 * m + 2 * x + t < 4294967296 * m' + 2 * x' + t'
above m m' x x' t t' hx ht h = omega arith

beside :
    (m m' x x' t t' : ℕ)
    → m ≡ m'
    → t ≤ 1
    → x < x'
    → 4294967296 * m + 2 * x + t < 4294967296 * m' + 2 * x' + t'
beside m m' x x' t t' e ht h = omega arith

max_bound : (l r : ℕ) → l < 2147483648 → r < 2147483648 → max l r < 2147483648
max_bound l r hl hr = ground arith

-- The priority of a pair of candidates, whose own priorities are computed by computeCandidatePriority. The
-- two ends, of which one controls, compute the same one, though each calls its own candidate the local
-- one. And pairs are ordered by the candidate of theirs with the lower priority, then by the other one.
pub compute_candidate_pair_priority-order :
    (c d c' d' : IceCandidate) (controls : Bool)
    → let p = compute_candidate_priority c in
      let q = compute_candidate_priority d in
      let p' = compute_candidate_priority c' in
      let q' = compute_candidate_priority d' in
      (compute_candidate_pair_priority p q controls
        ≡ compute_candidate_pair_priority q p (not controls))
      × ((min p q < min p' q') ⊎ ((min p q ≡ min p' q') × (max p q < max p' q'))
          → compute_candidate_pair_priority p q controls
            < compute_candidate_pair_priority p' q' controls)
compute_candidate_pair_priority-order c d c' d' controls =
    let p = compute_candidate_priority c in
    let q = compute_candidate_priority d in
    let p' = compute_candidate_priority c' in
    let q' = compute_candidate_priority d' in
    let hp = (compute_candidate_priority_lem c).1 in
    let hq = (compute_candidate_priority_lem d).1 in
    let (t, ht, e) = pair_formula p q controls hp hq in
    let (t', _, e') =
      pair_formula p' q' controls (compute_candidate_priority_lem c').1
        (compute_candidate_priority_lem d').1 in
    (
      swap_agrees p q controls,
      λ h.
          rw (e, e')
            (elim h [
              | inl less ↦
                  above (min p q) (min p' q') (max p q) (max p' q') t t' (max_bound p q hp hq) ht
                    less
              | inr (same, less) ↦
                  beside (min p q) (min p' q') (max p q) (max p' q') t t' same ht less
            ]),
    )
