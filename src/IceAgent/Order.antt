-- ===== src/IceAgent/Order.antt =====
-- The list of candidate pairs is kept in the order of the priorities.
use kvs_c.Base.{
  ℕ, ◌≤◌, ◌≡◌, ◌⊎◌, ◌↔◌, inl, inr, refl, ap, ◌∙◌, Bool, true, false, ◌&&◌, List, [], ◌∷◌, arith,
  leb, ◌==◌, if◌then◌else◌, Bool-cases,
}
use kvs_c.Status.{Status, success, succeeded}
use kvs_c.IceAgent.{IceCandidatePair, IceAgent, is_valid}
use kvs_c.IceAgent.Pairs.{
  insert_ice_candidate_pair, new_pair, create_loop, create_ice_candidate_pairs,
}

-- Every pair of the list has at most the priority `n`.
abbrev pub AllBelow : ℕ → List IceCandidatePair → Type 0
AllBelow n [] = Unit
AllBelow n (p ∷ ps) = (p.priority ≤ n) × AllBelow n ps

-- The priorities of a list do not rise.
abbrev pub IsOrdered : List IceCandidatePair → Type 0
IsOrdered [] = Unit
IsOrdered (p ∷ ps) = AllBelow p.priority ps × IsOrdered ps

-- A pair is in a list.
abbrev pub IsIn : IceCandidatePair → List IceCandidatePair → Type 0
IsIn p [] = ⊥
IsIn p (q ∷ qs) = (p ≡ q) ⊎ IsIn p qs

below_trans : {m n : ℕ} (ps : List IceCandidatePair) → m ≤ n → AllBelow m ps → AllBelow n ps
below_trans [] le h = tt
below_trans (p ∷ ps) le (h, hs) = (omega arith, below_trans ps le hs)

insert-AllBelow :
    (n : ℕ) (ps : List IceCandidatePair) (p : IceCandidatePair)
    → p.priority ≤ n
    → AllBelow n ps
    → AllBelow n (insert_ice_candidate_pair ps p)
unfolding insert_ice_candidate_pair
insert-AllBelow n [] p h hs = (h, tt)
insert-AllBelow n (q ∷ qs) p h (hq, hs) = elim (Bool-cases (leb q.priority p.priority)) [
  | inl e ↦ rw e (h, (hq, hs))
  | inr e ↦ rw e (hq, insert-AllBelow n qs p h hs)
]

insert-IsOrdered :
    (ps : List IceCandidatePair) (p : IceCandidatePair)
    → IsOrdered ps
    → IsOrdered (insert_ice_candidate_pair ps p)
unfolding insert_ice_candidate_pair
insert-IsOrdered [] p h = (tt, tt)
insert-IsOrdered (q ∷ qs) p (below, ordered) = elim (Bool-cases (leb q.priority p.priority)) [
  | inl e ↦
      let le : q.priority ≤ p.priority = ground (arith, e) in
      rw e ((le, below_trans qs le below), (below, ordered))
  | inr e ↦
      rw e
        (insert-AllBelow q.priority qs p (ground (arith, e)) below, insert-IsOrdered qs p ordered)
]

insert-IsIn :
    (ps : List IceCandidatePair) (p q : IceCandidatePair)
    → IsIn q (insert_ice_candidate_pair ps p) ↔ ((q ≡ p) ⊎ IsIn q ps)
unfolding insert_ice_candidate_pair
insert-IsIn [] p q = (λ h. h, λ h. h)
insert-IsIn (r ∷ rs) p q = elim (Bool-cases (leb r.priority p.priority)) [
  | inl e ↦ rw e (λ h. h, λ h. h)
  | inr e ↦
      let (to, from) = insert-IsIn rs p q in
      rw e (
        λ h. elim h [
          | inl at_head ↦ inr (inl at_head)
          | inr later ↦ elim (to later) [ inl new ↦ inl new | inr old ↦ inr (inr old) ]
        ],
        λ h. elim h [
          | inl new ↦ inr (from (inl new))
          | inr (inl at_head) ↦ inl at_head
          | inr (inr old) ↦ inr (from (inr old))
        ],
      )
]

-- An address is in a list of candidates.
abbrev pub IsOneOf : ℕ → List ℕ → Type 0
IsOneOf d [] = ⊥
IsOneOf d (e ∷ es) = (d ≡ e) ⊎ IsOneOf d es

-- The candidates `d` that a pair with `c` is made for.
abbrev pub is_partner : IceAgent → (c d : ℕ) → Bool
is_partner a c d =
    is_valid (a.candidates d).state && ((a.candidates d).family == (a.candidates c).family)

module _ (allocate : ℕ → Status) (pair_id : ℕ → ℕ) (is_remote : Bool) (c : ℕ)
    (allocated : (d : ℕ) → succeeded (allocate d) ≡ true) where
  -- A pair of `c` with one of the candidates `ds`.
  abbrev pub IsMade : List ℕ → IceAgent → IceCandidatePair → Type 0
  IsMade ds a q =
      (d : ℕ) × IsOneOf d ds
      × (is_partner a c d ≡ true)
      × (q ≡ new_pair is_remote (pair_id d) c d a)

  abbrev IsCreated : List ℕ → IceAgent → Status × IceAgent → Type 0
  IsCreated ds a r =
      (r.0 ≡ success)
      × (IsOrdered a.pairs → IsOrdered r.1.pairs)
      × ((q : IceCandidatePair) → IsIn q r.1.pairs ↔ (IsIn q a.pairs ⊎ IsMade ds a q))

  one_more :
      (d : ℕ) (ds : List ℕ) (a : IceAgent) (q : IceCandidatePair)
      → IsMade ds a q
      → IsMade (d ∷ ds) a q
  one_more d ds a q (e, at_e, partner, is) = (e, inr at_e, partner, is)

  wrong : (x y : Bool) → x ≡ true → y ≡ false → x ≡ y → ⊥
  wrong x y h k e = cc (h, k, e)

  create_loop-IsCreated :
      (ds : List ℕ) (a : IceAgent) → IsCreated ds a (create_loop allocate pair_id is_remote c ds a)
  unfolding create_loop new_pair
  create_loop-IsCreated [] a = (
    refl,
    λ h. h,
    λ q. (λ h. inl h, λ h. elim h [ inl old ↦ old | inr (d, none, _, _) ↦ absurd none ]),
  )
  create_loop-IsCreated (d ∷ ds) a = elim (Bool-cases (is_partner a c d)) [
    | inl e ↦
        let p = new_pair is_remote (pair_id d) c d a in
        let b : IceAgent = record a { pairs = insert_ice_candidate_pair a.pairs p } in
        let (status, ordered, members) = create_loop-IsCreated ds b in
        rw (e, allocated d)
          (
            status,
            λ h. ordered (insert-IsOrdered a.pairs p h),
            λ q. (
              λ h. elim ((members q).0 h) [
                | inl before ↦ elim ((insert-IsIn a.pairs p q).0 before) [
                  | inl is ↦ inr (d, inl refl, e, is)
                  | inr old ↦ inl old
                ]
                | inr made ↦ inr (one_more d ds a q made)
              ],
              λ h. (members q).1 (elim h as (λ _. IsIn q b.pairs ⊎ IsMade ds b q) [
                | inl old ↦ inl ((insert-IsIn a.pairs p q).1 (inr old))
                | inr (f, inl same, partner, is) ↦ inl (
                    (insert-IsIn a.pairs p q).1
                      (inl (is ∙ ap (λ x. new_pair is_remote (pair_id x) c x a) same)))
                | inr (f, inr later, partner, is) ↦ inr (f, later, partner, is)
              ]),
            ),
          )
    | inr e ↦
        let (status, ordered, members) = create_loop-IsCreated ds a in
        rw e (
          status,
          ordered,
          λ q. (
            λ h. elim ((members q).0 h) [
              | inl old ↦ inl old
              | inr made ↦ inr (one_more d ds a q made)
            ],
            λ h. (members q).1 (elim h as (λ _. IsIn q a.pairs ⊎ IsMade ds a q) [
              | inl old ↦ inl old
              | inr (f, inl same, partner, is) ↦
                  absurd (
                    wrong (is_partner a c f) (is_partner a c d) partner e
                      (ap (is_partner a c) same))
              | inr (f, inr later, partner, is) ↦ inr (f, later, partner, is)
            ]),
          ),
        )
  ]

  -- createIceCandidatePairs of a valid candidate, when its allocations succeed: it succeeds; the list of
  -- pairs stays in the order of the priorities; and exactly the pairs of the candidate with the valid
  -- candidates of the other side that have an address of its family are added to it. A candidate that
  -- is not valid adds none.
  pub create_ice_candidate_pairs_lem :
      (a : IceAgent)
      → IsOrdered a.pairs
      → let r = create_ice_candidate_pairs allocate pair_id c is_remote a in
        let others = if is_remote then a.local_candidates else a.remote_candidates in
        (r.0 ≡ success)
        × IsOrdered r.1.pairs
        × ((is_valid (a.candidates c).state ≡ true)
            → (q : IceCandidatePair) → IsIn q r.1.pairs ↔ (IsIn q a.pairs ⊎ IsMade others a q))
        × ((is_valid (a.candidates c).state ≡ false) → r.1.pairs ≡ a.pairs)
  unfolding create_ice_candidate_pairs
  create_ice_candidate_pairs_lem a ordered = elim (Bool-cases (is_valid (a.candidates c).state)) [
    | inl valid ↦
        let (status, keeps, members) =
          create_loop-IsCreated (if is_remote then a.local_candidates else a.remote_candidates) a in
        rw valid (status, keeps ordered, λ _. members, λ e. cc e)
    | inr not_valid ↦ rw not_valid (refl, ordered, λ e. cc e, λ _. refl)
  ]
