-- ===== src/IceAgent/Found.antt =====
-- The pairs that the setups of IceAgent.c find, and the loops of which all calls succeed.
use kvs_c.Base.{
  ℕ, ◌≤◌, ◌≡◌, inl, inr, refl, ap, ◌∙◌, Bool, true, false, ◌&&◌, Option, none, some, List, [], ◌∷◌,
  map, arith, Bool-cases, length, ltb,
}
use kvs_c.Status.{success}
use kvs_c.IceAgent.{IceCandidate, IceCandidatePair, Outside, sent, is_succeeded, has_socket}
use kvs_c.IceAgent.Checks.{
  find_target, send_stun_packet, check_connection_of, check_nominated, pair_loop, has_id,
}
use kvs_c.IceAgent.Setup.{
  find_pair, is_usable, is_connected_pair, nominate, freeze, put, invalid, deselect,
  nominate_candidate_pair,
}
use kvs_c.IceAgent.Order.{IsOrdered, IsIn}
use kvs_c.IceAgent.Nominate.{NoneNominated, below_of, freeze_lem, wrong}

pub none_usable : (ps : List IceCandidatePair) → NoneNominated ps → find_pair is_usable ps ≡ none
none_usable [] h = refl
none_usable (p ∷ ps) (h, hs) = rw h (none_usable ps hs)

marked : Option IceCandidatePair → Option IceCandidatePair
marked none = none
marked (some p) = some (record p { nominated = true })

pub and_false : (b : Bool) → (b && false) ≡ false
and_false b = ground arith

-- The pair that is nominated is then the one that is found.
pub nominated_usable :
    (ps : List IceCandidatePair) (p : IceCandidatePair)
    → NoneNominated ps
    → find_pair is_connected_pair ps ≡ some p
    → find_pair is_usable (map freeze (nominate is_connected_pair ps))
      ≡ some (record p { nominated = true })
unfolding marked
nominated_usable [] p h found = cc found
nominated_usable (q ∷ qs) p (h, hs) found = elim (Bool-cases (is_succeeded q.state)) [
  | inl yes_ ↦ rw (yes_, yes_) (ap marked (rw yes_ at found))
  | inr no_ ↦ rw no_ (
      ap (λ r. find_pair is_usable (r ∷ map freeze (nominate is_connected_pair qs)))
        (freeze_lem q h)
      ∙ rw (and_false q.nominated) (nominated_usable qs p hs (rw no_ at found)))
]

-- Every pair has a local candidate with a socket.
abbrev pub HasSockets : (ℕ → IceCandidate) → List IceCandidatePair → Type 0
HasSockets heap [] = Unit
HasSockets heap (p ∷ ps) = (has_socket (heap p.local).socket ≡ true) × HasSockets heap ps

nominate-HasSockets :
    (heap : ℕ → IceCandidate) (ps : List IceCandidatePair)
    → HasSockets heap ps
    → HasSockets heap (nominate is_connected_pair ps)
nominate-HasSockets heap [] h = tt
nominate-HasSockets heap (p ∷ ps) (h, hs) = elim (Bool-cases (is_succeeded p.state)) [
  | inl found ↦ rw found (h, hs)
  | inr later ↦ rw later (h, nominate-HasSockets heap ps hs)
]

freeze-HasSockets :
    (heap : ℕ → IceCandidate) (ps : List IceCandidatePair)
    → HasSockets heap ps
    → HasSockets heap (map freeze ps)
freeze-HasSockets heap [] h = tt
freeze-HasSockets heap (p ∷ ps) (h, hs) = (kept, freeze-HasSockets heap ps hs)
  where
    kept : has_socket (heap (freeze p).local).socket ≡ true
    kept = elim (Bool-cases p.nominated) [ inl e ↦ rw e h | inr e ↦ rw e h ]

-- The pairs after a nomination still have their sockets.
pub nominees-HasSockets :
    (heap : ℕ → IceCandidate) (ps : List IceCandidatePair)
    → HasSockets heap ps
    → HasSockets heap (map freeze (nominate is_connected_pair ps))
nominees-HasSockets heap ps h =
    freeze-HasSockets heap (nominate is_connected_pair ps) (nominate-HasSockets heap ps h)

SomePair : Option IceCandidatePair → (IceCandidatePair → Type 0) → Type 0
SomePair none P = Unit
SomePair (some p) P = P p

find_pair-HasSockets :
    (heap : ℕ → IceCandidate) (test : IceCandidatePair → Bool) (ps : List IceCandidatePair)
    → HasSockets heap ps
    → SomePair (find_pair test ps) (λ p. has_socket (heap p.local).socket ≡ true)
unfolding SomePair
find_pair-HasSockets heap test [] h = tt
find_pair-HasSockets heap test (p ∷ ps) (h, hs) = elim (Bool-cases (test p)) [
  | inl here ↦ rw here h
  | inr later ↦ rw later (find_pair-HasSockets heap test ps hs)
]

found_target :
    (heap : ℕ → IceCandidate) (socket : Option ℕ) (remote : IceCandidate)
    (ps : List IceCandidatePair)
    → has_socket socket ≡ true
    → (find_target heap socket remote ps).0 ≡ success
unfolding find_target
found_target heap none remote ps h = cc h
found_target heap (some s) remote ps h = refl

-- A request that is sent leaves the pairs and the candidates.
check_nominated_sends :
    (o : Outside) (found : Option IceCandidatePair) (ps : List IceCandidatePair)
    (heap : ℕ → IceCandidate)
    → ((i : ℕ) → o.prepare_check i ≡ success)
    → ((i : ℕ) → o.send_check i ≡ sent)
    → SomePair found (λ p. has_socket (heap p.local).socket ≡ true)
    → check_nominated o found ps heap ≡ (success, ps, heap)
unfolding check_nominated check_connection_of send_stun_packet SomePair
check_nominated_sends o none ps heap ready sends h = refl
check_nominated_sends o (some p) ps heap ready sends h = elim (Bool-cases p.nominated) [
  | inl yes_ ↦
      rw (yes_, ready p.pair_id, sends p.pair_id)
        (ap (λ s. (s, ps, heap)) (found_target heap (heap p.local).socket (heap p.remote) ps h))
  | inr no_ ↦ rw no_ refl
]

-- The loop of iceAgentSendCandidateNomination, when every request is sent.
pub nomination_works :
    (o : Outside) (is : List ℕ) (ps : List IceCandidatePair) (heap : ℕ → IceCandidate)
    → ((i : ℕ) → o.prepare_check i ≡ success)
    → ((i : ℕ) → o.send_check i ≡ sent)
    → HasSockets heap ps
    → pair_loop (check_nominated o) is ps heap ≡ (success, ps, heap)
unfolding pair_loop
nomination_works o [] ps heap ready sends h = refl
nomination_works o (i ∷ is) ps heap ready sends h =
    let visited =
      check_nominated_sends o (find_pair (has_id i) ps) ps heap ready sends
        (find_pair-HasSockets heap (has_id i) ps h) in
    rw visited (nomination_works o is ps heap ready sends h)

pub deselect_works :
    (o : Outside) (selected : ℕ) (is : List ℕ) (heap : ℕ → IceCandidate)
    → ((i : ℕ) → o.shut_down_turn i ≡ success)
    → (deselect o selected is heap).0 ≡ success
unfolding deselect
deselect_works o selected [] heap h = refl
deselect_works o selected (i ∷ is) heap h = ground (
  arith,
  h i,
  deselect_works o selected is heap h,
  deselect_works o selected is (put heap i (invalid (heap i))) h,
)

priority_of : Option IceCandidatePair → ℕ
priority_of none = 0
priority_of (some p) = p.priority

-- The pair that is found has the highest priority of the connected ones.
pub found_highest :
    (ps : List IceCandidatePair) (p q : IceCandidatePair)
    → IsOrdered ps
    → find_pair is_connected_pair ps ≡ some p
    → IsIn q ps
    → is_succeeded q.state ≡ true
    → q.priority ≤ p.priority
unfolding priority_of
found_highest [] p q h found at_q is = elim at_q [ ]
found_highest (r ∷ rs) p q (below, ordered) found at_q is =
    elim (Bool-cases (is_succeeded r.state)) [
      | inl yes_ ↦ elim at_q [
        | inl e ↦
            let top : r.priority ≡ p.priority = ap priority_of (rw yes_ at found) in
            omega (arith, top, ap (λ (t : IceCandidatePair). t.priority) e)
        | inr later ↦
            let top : r.priority ≡ p.priority = ap priority_of (rw yes_ at found) in
            omega (arith, top, below_of r.priority rs q below later)
      ]
      | inr no_ ↦ elim at_q [
        | inl e ↦ absurd (wrong is no_ (ap (λ t. is_succeeded t.state) e))
        | inr later ↦ found_highest rs p q ordered (rw no_ at found) later is
      ]
    ]

found_length :
    (ps : List IceCandidatePair) (p : IceCandidatePair)
    → find_pair is_connected_pair ps ≡ some p
    → ltb 0 (length ps) ≡ true
found_length [] p h = cc h
found_length (q ∷ qs) p h = ground arith

-- What is nominated, when a pair is connected.
pub nominates :
    (ps : List IceCandidatePair) (p : IceCandidatePair)
    → find_pair is_connected_pair ps ≡ some p
    → nominate_candidate_pair ps ≡ (success, map freeze (nominate is_connected_pair ps))
unfolding nominate_candidate_pair
nominates ps p found = rw (found_length ps p found, found) refl
