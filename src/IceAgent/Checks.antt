-- ===== src/IceAgent/Checks.antt =====
-- The checks of IceAgent.c: a request is sent for a pair, and what comes of a request that cannot be sent.
use kvs_c.Base.{
  ℕ, Bool, true, false, not, ◌&&◌, Option, none, some, List, [], ◌∷◌, ◌==◌, map, if◌then◌else◌,
}
use kvs_c.Status.{Status, success, null_arg, succeeded}
use kvs_c.IceAgent.{
  IceCandidate, state_invalid, IceCandidatePair, PairState, pair_waiting, pair_in_progress,
  pair_failed, IceAgent, Outside, SendResult, sent, socket_closed, not_sent, is_failed,
}
use kvs_c.IceAgent.Pairs.{or_fatal}
use kvs_c.IceAgent.Setup.{find_pair, put, invalidate_candidate_pair}

-- A status, with the pairs and the heap of candidates.
abbrev pub Checked : Type 0
Checked = Status × List IceCandidatePair × (ℕ → IceCandidate)

abbrev pub has_id : ℕ → IceCandidatePair → Bool
has_id i p = p.pair_id == i

-- A write to the state of the pair `i`.
abbrev pub set_state : (i : ℕ) → PairState → List IceCandidatePair → List IceCandidatePair
set_state i state ps = map (λ p. if has_id i p then record p { state = state } else p) ps

-- Whether a pair that has not failed has this socket and this remote address.
abbrev is_target :
    (ℕ → IceCandidate) → (socket : ℕ) → (remote : IceCandidate) → IceCandidatePair → Bool
is_target heap socket remote p =
    not (is_failed p.state)
    && (elim (heap p.local).socket [ none ↦ false | some s ↦ s == socket ]
        && (((heap p.remote).family == remote.family)
            && ((heap p.remote).address == remote.address)))

-- findIceCandidatePairWithLocalSocketConnectionAndRemoteAddr, which compares the ports too.
unfoldable pub find_target :
    (ℕ → IceCandidate)
    → (socket : Option ℕ) → (remote : IceCandidate) → List IceCandidatePair
    → Status × Option IceCandidatePair
find_target heap none remote ps = (null_arg, none)
find_target heap (some socket) remote ps = (success, find_pair (is_target heap socket remote) ps)

abbrev fail_pair : Option IceCandidatePair → List IceCandidatePair → List IceCandidatePair
fail_pair none ps = ps
fail_pair (some p) ps = set_state p.pair_id pair_failed ps

-- iceAgentSendStunPacket from the sending on: what cannot be sent makes a pair fail, and the local
-- candidate invalid where its socket is closed; then the status is that of the search.
unfoldable pub send_stun_packet :
    SendResult → IceCandidatePair → List IceCandidatePair → (ℕ → IceCandidate) → Checked
send_stun_packet sent p ps heap =
    ((find_target heap (heap p.local).socket (heap p.remote) ps).0, ps, heap)
send_stun_packet not_sent p ps heap =
    let (status, target) = find_target heap (heap p.local).socket (heap p.remote) ps in
    (status, fail_pair target ps, heap)
send_stun_packet socket_closed p ps heap =
    let later = put heap p.local (record (heap p.local) { state = state_invalid }) in
    let left = invalidate_candidate_pair later ps in
    let (status, target) = find_target later (later p.local).socket (later p.remote) left in
    (status, fail_pair target left, later)

-- iceCandidatePairCheckConnection
unfoldable pub check_connection_of :
    Outside → IceCandidatePair → List IceCandidatePair → (ℕ → IceCandidate) → Checked
check_connection_of o p ps heap =
    if succeeded (o.prepare_check p.pair_id)
    then send_stun_packet (o.send_check p.pair_id) p ps heap
    else (o.prepare_check p.pair_id, ps, heap)

-- A pair that is waiting or in progress is checked.
abbrev pub is_open : PairState → Bool
is_open pair_waiting = true
is_open pair_in_progress = true
is_open _ = false

-- What is done with the pair of a node of the list.
abbrev Visit : Type 0
Visit = Option IceCandidatePair → List IceCandidatePair → (ℕ → IceCandidate) → Checked

-- A loop over the nodes of the list of pairs, which ends at the first failure. The states of the pairs
-- change on the way, the nodes do not.
unfoldable pub pair_loop : Visit → List ℕ → List IceCandidatePair → (ℕ → IceCandidate) → Checked
pair_loop visit [] ps heap = (success, ps, heap)
pair_loop visit (i ∷ is) ps heap =
    let r = visit (find_pair (has_id i) ps) ps heap in
    let rest = pair_loop visit is r.1 r.2 in if succeeded r.0 then rest else r

-- The body of the loop of iceAgentCheckCandidatePairConnection.
unfoldable pub check_open : Outside → Visit
check_open o none ps heap = (success, ps, heap)
check_open o (some p) ps heap =
    if is_open p.state
    then check_connection_of o p (set_state p.pair_id pair_in_progress ps) heap
    else (success, ps, heap)

-- The check of the pair that was triggered first.
unfoldable pub check_triggered : Outside → Visit
check_triggered o none ps heap = (success, ps, heap)
check_triggered o (some p) ps heap = check_connection_of o p ps heap

-- The body of the loop of iceAgentSendCandidateNomination.
unfoldable pub check_nominated : Outside → Visit
check_nominated o none ps heap = (success, ps, heap)
check_nominated o (some p) ps heap =
    if p.nominated then check_connection_of o p ps heap else (success, ps, heap)

abbrev pub ids : List IceCandidatePair → List ℕ
ids ps = map (λ p. p.pair_id) ps

-- The agent with what a check leaves.
abbrev checked_agent : IceAgent → Checked → Status × IceAgent
checked_agent a (status, ps, heap) = (status, record a { pairs = ps; candidates = heap })

-- The body of iceAgentCheckCandidatePairConnection: the pair that was triggered first, or all.
unfoldable pub check_pairs : Outside → List ℕ → IceAgent → Status × IceAgent
check_pairs o [] a = checked_agent a (pair_loop (check_open o) (ids a.pairs) a.pairs a.candidates)
check_pairs o (i ∷ queue) a =
    checked_agent (record a { triggered = queue })
      (check_triggered o (find_pair (has_id i) a.pairs) a.pairs a.candidates)

-- iceAgentCheckCandidatePairConnection
unfoldable pub check_candidate_pair_connection : Outside → IceAgent → Status × IceAgent
check_candidate_pair_connection o a = or_fatal (check_pairs o a.triggered a)

-- iceAgentSendCandidateNomination
unfoldable pub send_candidate_nomination : Outside → IceAgent → Status × IceAgent
send_candidate_nomination o a = or_fatal (
    if a.is_controlling
    then checked_agent a (pair_loop (check_nominated o) (ids a.pairs) a.pairs a.candidates)
    else (success, a))
