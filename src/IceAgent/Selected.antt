-- ===== src/IceAgent/Selected.antt =====
-- The pairs that iceAgentReadyStateSetup keeps.
use kvs_c.Base.{
  ℕ, ◌≡◌, ◌≢◌, ◌⊎◌, inl, inr, refl, Bool, true, false, not, ◌&&◌, Option, some, none, List, [], ◌∷◌,
  arith, ◌==◌, Bool-cases,
}
use kvs_c.Status.{succeeded}
use kvs_c.IceAgent.{
  IceCandidate, IceCandidatePair, Sending, IceAgent, Outside, is_valid, is_relayed, is_failed,
  invalid_timestamp,
}
use kvs_c.IceAgent.Setup.{
  put, invalid, deselect, invalidate_candidate_pair, free_failed, keep_selected, select_ready,
  ready_state_setup, find_pair, is_usable, sending_of,
}
use kvs_c.IceAgent.Order.{IsIn, IsOneOf}

is_eq : (i j : ℕ) → (i == j) ≡ true → i ≡ j
is_eq i j e = ground (arith, e)

-- A candidate that is not valid stays so in the loop over the local candidates.
deselect_stays :
    (o : Outside) (selected i : ℕ) (is : List ℕ) (heap : ℕ → IceCandidate)
    → is_valid (heap i).state ≡ false
    → is_valid ((deselect o selected is heap).1 i).state ≡ false
unfolding deselect
deselect_stays o selected i [] heap h = h
deselect_stays o selected i (j ∷ is) heap h =
    let kept = deselect_stays o selected i is heap h in
    let rest =
      deselect_stays o selected i is (put heap j (invalid (heap j)))
        (elim (Bool-cases (j == i)) [ inl e ↦ rw e refl | inr e ↦ rw e h ]) in
    elim (Bool-cases (j == selected)) [
      | inl e ↦ rw e kept
      | inr e ↦
          elim (Bool-cases (is_relayed (heap j).kind && not (succeeded (o.shut_down_turn j)))) [
            | inl bad ↦ rw (e, bad) h
            | inr fine ↦ rw (e, fine) rest
          ]
    ]

denied : (b c : Bool) → (b && not c) ≡ true → c ≡ true → ⊥
denied b c h e = cc (wrong b c h, e)
  where
    wrong : (b c : Bool) → (b && not c) ≡ true → c ≡ false
    wrong b c h = ground (arith, h)

-- When the loop succeeds, every local candidate but the selected one is invalid.
deselect_lem :
    (o : Outside) (selected i : ℕ) (is : List ℕ) (heap : ℕ → IceCandidate)
    → succeeded (deselect o selected is heap).0 ≡ true
    → IsOneOf i is
    → i ≢ selected
    → is_valid ((deselect o selected is heap).1 i).state ≡ false
unfolding deselect
deselect_lem o selected i [] heap ok at_i other = elim at_i [ ]
deselect_lem o selected i (j ∷ is) heap ok at_i other = elim (Bool-cases (j == selected)) [
  | inl e ↦ rw e (elim at_i [
    | inl here ↦ absurd (other (ground (arith, here, e)))
    | inr later ↦ deselect_lem o selected i is heap (rw e at ok) later other
  ])
  | inr e ↦ elim (Bool-cases (is_relayed (heap j).kind && not (succeeded (o.shut_down_turn j)))) [
    | inl bad ↦
        absurd (
          denied (is_relayed (heap j).kind) (succeeded (o.shut_down_turn j)) bad
            (rw (e, bad) at ok))
    | inr fine ↦
        rw (e, fine)
          (elim at_i [
            | inl here ↦
                deselect_stays o selected i is (put heap j (invalid (heap j)))
                  (let same : (j == i) ≡ true = ground (arith, here) in rw same refl)
            | inr later ↦
                deselect_lem o selected i is (put heap j (invalid (heap j))) (rw (e, fine) at ok)
                  later other
          ])
  ]
]

head_or_later :
    (p q : IceCandidatePair) (ps : List IceCandidatePair) → IsIn q (p ∷ ps) → (q ≡ p) ⊎ IsIn q ps
head_or_later p q ps h = h

-- The pairs that are left have a valid local candidate.
kept_valid :
    (heap : ℕ → IceCandidate) (ps : List IceCandidatePair) (q : IceCandidatePair)
    → IsIn q (free_failed (invalidate_candidate_pair heap ps))
    → is_valid (heap q.local).state ≡ true
unfolding free_failed invalidate_candidate_pair
kept_valid heap [] q at_q = elim at_q [ ]
kept_valid heap (p ∷ ps) q at_q = elim (Bool-cases (is_valid (heap p.local).state)) [
  | inl valid ↦ elim (Bool-cases (is_failed p.state)) [
    | inl freed ↦ kept_valid heap ps q (rw (valid, freed) at at_q)
    | inr kept ↦ elim (head_or_later p q _ (rw (valid, kept) at at_q)) [
      | inl e ↦ rw e valid
      | inr later ↦ kept_valid heap ps q later
    ]
  ]
  | inr not_valid ↦ kept_valid heap ps q (rw not_valid at at_q)
]

wrong : {x : Bool} → x ≡ false → x ≡ true → ⊥
wrong h k = cc (h, k)

-- What the ready state leaves, for the data sending pair `s`: each pair that is left, whose local
-- candidate is among the local candidates of the agent, has the local candidate of the selected pair.
abbrev pub IsSelected : IceAgent → Sending → IceAgent → Type 0
IsSelected a s b =
    (b.data_sending ≡ some s)
    × (b.state_end_time ≡ invalid_timestamp)
    × ((q : IceCandidatePair)
        → IsIn q b.pairs
        → IsOneOf q.local a.local_candidates
        → q.local ≡ s.local)

eq_of_not : (i j : ℕ) → (i ≢ j → ⊥) → i ≡ j
eq_of_not i j h = elim (Bool-cases (i == j)) [
  | inl e ↦ is_eq i j e
  | inr e ↦ absurd (h λ same. differs i j e same)
]
  where
    differs : (i j : ℕ) → (i == j) ≡ false → i ≡ j → ⊥
    differs i j e same = ground (arith, e, same)

keep_selected-IsSelected :
    (o : Outside) (s : Sending) (a : IceAgent)
    → succeeded (keep_selected o s a).0 ≡ true
    → a.data_sending ≡ some s
    → IsSelected a s (keep_selected o s a).1
unfolding keep_selected
keep_selected-IsSelected o s a ok sent = elim (Bool-cases (succeeded o.address_string)) [
  | inr bad ↦ absurd (wrong bad (rw bad at ok))
  | inl named ↦
      let r = deselect o s.local a.local_candidates a.candidates in
      elim (Bool-cases (succeeded r.0)) [
        | inr bad ↦ absurd (wrong bad (rw (named, bad) at ok))
        | inl done ↦
            rw (named, done)
              (
                sent,
                refl,
                λ q at_q listed. eq_of_not q.local s.local λ other.
                    wrong
                      (deselect_lem o s.local q.local a.local_candidates a.candidates done listed
                        other)
                      (kept_valid r.1 a.pairs q at_q),
              )
      ]
]

-- Which pair the ready state sends with.
abbrev pub IsChosen : Option Sending → Option IceCandidatePair → Sending → Type 0
IsChosen sent found s =
    (sent ≡ some s)
    ⊎ ((p : IceCandidatePair) × (sent ≡ none) × (found ≡ some p) × (s ≡ sending_of p))

select_ready-IsSelected :
    (o : Outside) (sent : Option Sending) (found : Option IceCandidatePair) (a : IceAgent)
    → a.data_sending ≡ sent
    → succeeded (select_ready o sent found a).0 ≡ true
    → (s : Sending) × IsSelected a s (select_ready o sent found a).1 × IsChosen sent found s
unfolding select_ready
select_ready-IsSelected o (some s) found a e ok = (s, keep_selected-IsSelected o s a ok e, inl refl)
select_ready-IsSelected o none none a e ok = cc ok
select_ready-IsSelected o none (some p) a e ok = (
  sending_of p,
  keep_selected-IsSelected o (sending_of p)
      (record a { data_sending = some (sending_of p); stop_gathering = true }) ok refl,
  inr (p, refl, refl, refl),
)

-- When iceAgentReadyStateSetup succeeds, there is a data sending pair: the one that was selected
-- before, or else the first of the list that is nominated and succeeded; there is no time limit; and no
-- pair is left that has another local candidate of the agent than the selected pair.
pub ready_state_setup-IsSelected :
    (o : Outside) (a : IceAgent)
    → succeeded (ready_state_setup o a).0 ≡ true
    → (s : Sending) × IsSelected a s (ready_state_setup o a).1
      × IsChosen a.data_sending (find_pair is_usable a.pairs) s
unfolding ready_state_setup
ready_state_setup-IsSelected o a ok =
    let r = select_ready o a.data_sending (find_pair is_usable a.pairs) a in
    elim (Bool-cases (succeeded o.update_timer)) [
      | inr bad ↦ absurd (wrong bad (rw (bad, bad) at ok))
      | inl timed ↦ elim (Bool-cases (succeeded r.0)) [
        | inr bad ↦ absurd (wrong bad (rw (timed, bad) at ok))
        | inl good ↦
            rw (timed, good)
              (select_ready-IsSelected o a.data_sending (find_pair is_usable a.pairs) a refl good)
      ]
    ]
