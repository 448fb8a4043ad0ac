-- ===== src/IceAgent/Nominate.antt =====
-- The pair that iceAgentNominateCandidatePair nominates.
use kvs_c.Base.{
  ℕ, ◌≤◌, ◌≡◌, ◌⊎◌, inl, inr, refl, ap, ap₂, Bool, true, false, List, [], ◌∷◌, ◌++◌, map, arith,
  length, ltb, Bool-cases,
}
use kvs_c.Status.{success, succeeded}
use kvs_c.IceAgent.{IceCandidatePair, pair_frozen, is_succeeded}
use kvs_c.IceAgent.Setup.{
  find_pair, is_some, is_connected_pair, nominate, freeze, nominate_candidate_pair,
}
use kvs_c.IceAgent.Order.{IsOrdered, AllBelow, IsIn}

-- No pair of the list is nominated.
abbrev pub NoneNominated : List IceCandidatePair → Type 0
NoneNominated [] = Unit
NoneNominated (p ∷ ps) = (p.nominated ≡ false) × NoneNominated ps

abbrev pub frozen : IceCandidatePair → IceCandidatePair
frozen p = record p { state = pair_frozen }

-- The list `ps` with the pair `p` nominated and all others frozen, where `p` is connected and has the
-- highest priority among the connected pairs of `ps`.
pub record IsBest (ps result : List IceCandidatePair) : Type 0 where
  pub before : List IceCandidatePair
  pub best : IceCandidatePair
  pub after : List IceCandidatePair
  pub splits : ps ≡ before ++ (best ∷ after)
  pub connected : is_succeeded best.state ≡ true
  pub highest :
      (q : IceCandidatePair) → IsIn q ps → is_succeeded q.state ≡ true → q.priority ≤ best.priority
  pub nominated :
      result ≡ map frozen before ++ (record best { nominated = true } ∷ map frozen after)

pub freeze_lem : (p : IceCandidatePair) → p.nominated ≡ false → freeze p ≡ frozen p
freeze_lem p h = rw h refl

freeze_none : (ps : List IceCandidatePair) → NoneNominated ps → map freeze ps ≡ map frozen ps
freeze_none [] h = refl
freeze_none (p ∷ ps) (h, hs) = ap₂ (λ x y. x ∷ y) (freeze_lem p h) (freeze_none ps hs)

pub below_of :
    (n : ℕ) (ps : List IceCandidatePair) (q : IceCandidatePair)
    → AllBelow n ps
    → IsIn q ps
    → q.priority ≤ n
below_of n [] q h at_q = elim at_q [ ]
below_of n (p ∷ ps) q (h, hs) (inl e) = rw e h
below_of n (p ∷ ps) q (h, hs) (inr later) = below_of n ps q hs later

pub wrong : {x y : Bool} → x ≡ true → y ≡ false → x ≡ y → ⊥
wrong h k e = cc (h, k, e)

nominate-IsBest :
    (ps : List IceCandidatePair)
    → IsOrdered ps
    → NoneNominated ps
    → is_some (find_pair is_connected_pair ps) ≡ true
    → IsBest ps (map freeze (nominate is_connected_pair ps))
nominate-IsBest [] ordered fresh found = cc found
nominate-IsBest (p ∷ ps) (below, ordered) (new, fresh) found =
    elim (Bool-cases (is_succeeded p.state)) [
      | inl yes_ ↦ rw yes_ (record {
        before = [];
        best = p;
        after = ps;
        splits = refl;
        connected = yes_;
        highest = λ q at_q _. elim at_q [
          | inl e ↦ rw e (omega arith)
          | inr later ↦ below_of p.priority ps q below later
        ];
        nominated = ap (λ t. record p { nominated = true } ∷ t) (freeze_none ps fresh);
      })
      | inr no_ ↦
          let rest = nominate-IsBest ps ordered fresh (rw no_ at found) in
          rw no_ (record {
            before = p ∷ rest.before;
            best = rest.best;
            after = rest.after;
            splits = ap (λ t. p ∷ t) rest.splits;
            connected = rest.connected;
            highest = λ q at_q is. elim at_q [
              | inl e ↦ absurd (wrong is no_ (ap (λ r. is_succeeded r.state) e))
              | inr later ↦ rest.highest q later is
            ];
            nominated = ap₂ (λ x y. x ∷ y) (freeze_lem p new) rest.nominated;
          })
    ]

found_length :
    (ps : List IceCandidatePair)
    → is_some (find_pair is_connected_pair ps) ≡ true
    → ltb 0 (length ps) ≡ true
found_length [] h = cc h
found_length (p ∷ ps) h = ground arith

none_connected :
    (ps : List IceCandidatePair)
    → is_some (find_pair is_connected_pair ps) ≡ false
    → (q : IceCandidatePair) → IsIn q ps
    → is_succeeded q.state ≡ false
none_connected [] h q at_q = elim at_q [ ]
none_connected (p ∷ ps) h q at_q = elim (Bool-cases (is_succeeded p.state)) [
  | inl yes_ ↦ absurd (wrong refl (rw yes_ at h) refl)
  | inr no_ ↦ elim at_q [ inl e ↦ rw e no_ | inr later ↦ none_connected ps (rw no_ at h) q later ]
]

-- What iceAgentNominateCandidatePair does to a list of pairs that is in the order of the priorities, none
-- of which is nominated yet. Where a pair is connected it succeeds, and it nominates a connected pair
-- with the highest priority of all connected ones and freezes every other pair; where none is, it fails
-- and leaves the list.
pub nominate_candidate_pair-IsBest :
    (ps : List IceCandidatePair)
    → IsOrdered ps
    → NoneNominated ps
    → let r = nominate_candidate_pair ps in
      ((r.0 ≡ success) × IsBest ps r.1)
      ⊎ ((succeeded r.0 ≡ false)
          × (r.1 ≡ ps)
          × ((q : IceCandidatePair) → IsIn q ps → is_succeeded q.state ≡ false))
unfolding nominate_candidate_pair
nominate_candidate_pair-IsBest ps ordered fresh =
    elim (Bool-cases (is_some (find_pair is_connected_pair ps))) [
      | inl found ↦
          rw (found_length ps found, found) (inl (refl, nominate-IsBest ps ordered fresh found))
      | inr none_found ↦ elim (Bool-cases (ltb 0 (length ps))) [
        | inl some_ ↦ rw (some_, none_found) (inr (refl, refl, none_connected ps none_found))
        | inr empty ↦ rw empty (inr (refl, refl, none_connected ps none_found))
      ]
    ]
