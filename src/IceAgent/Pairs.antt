-- ===== src/IceAgent/Pairs.antt =====
-- The candidate pairs of IceAgent.c: their priorities, and their order.
use kvs_c.Base.{
  ℕ, ◌+◌, ◌*◌, ◌%◌, ◌^◌, Bool, false, not, ◌&&◌, List, [], ◌∷◌, leb, ltb, ◌==◌, min, if◌then◌else◌,
}
use kvs_c.Status.{Status, success, succeeded}
use kvs_c.IceAgent.{
  CandidateType, host, peer_reflexive, server_reflexive, relayed, IceCandidate, IceCandidatePair,
  pair_waiting, IceAgent, is_valid, is_succeeded, ice_agent_fatal_error,
}

-- ICE_PRIORITY_..._CANDIDATE_TYPE_PREFERENCE
abbrev pub type_preference : CandidateType → ℕ
type_preference host = 126
type_preference server_reflexive = 100
type_preference peer_reflexive = 110
type_preference relayed = 0

-- computeCandidatePriority
unfoldable pub compute_candidate_priority : IceCandidate → ℕ
compute_candidate_priority c =
    (2 ^ 24 * type_preference c.kind + 2 ^ 8 * (if c.is_point_to_point then 0 else 65535) + 255)
    % 2 ^ 32

abbrev pub max : ℕ → ℕ → ℕ
max a b = if ltb b a then a else b

-- computeCandidatePairPriority, of the priorities of the local and the remote candidate
unfoldable pub compute_candidate_pair_priority :
    (local remote : ℕ) (is_local_controlling : Bool) → ℕ
compute_candidate_pair_priority local remote is_local_controlling =
    let controlling = if is_local_controlling then local else remote in
    let controlled = if is_local_controlling then remote else local in
    (2 ^ 32 * min controlled controlling
      + 2 * max controlled controlling
      + (if ltb controlled controlling then 1 else 0))
    % 2 ^ 64

-- insertIceCandidatePair
unfoldable pub insert_ice_candidate_pair :
    List IceCandidatePair → IceCandidatePair → List IceCandidatePair
insert_ice_candidate_pair [] p = p ∷ []
insert_ice_candidate_pair (q ∷ qs) p =
    let rest = insert_ice_candidate_pair qs p in
    if leb q.priority p.priority then p ∷ q ∷ qs else q ∷ rest

-- pruneUnconnectedIceCandidatePair
unfoldable pub prune_unconnected : List IceCandidatePair → List IceCandidatePair
prune_unconnected [] = []
prune_unconnected (p ∷ ps) =
    let rest = prune_unconnected ps in if not (is_succeeded p.state) then rest else p ∷ rest

-- A new pair of createIceCandidatePairs, for the candidate `c` and the one `d` of the other side.
unfoldable pub new_pair : (is_remote : Bool) (pair_id c d : ℕ) → IceAgent → IceCandidatePair
new_pair is_remote pair_id c d a = record {
  pair_id = pair_id;
  local = if is_remote then d else c;
  remote = if is_remote then c else d;
  nominated = false;
  priority =
      compute_candidate_pair_priority (a.candidates (if is_remote then d else c)).priority
        (a.candidates (if is_remote then c else d)).priority a.is_controlling;
  state = pair_waiting;
}

-- The loop of createIceCandidatePairs; `allocate d` is the first failure in making the pair with `d`, and
-- `pair_id d` the new object.
unfoldable pub create_loop :
    (allocate : ℕ → Status) (pair_id : ℕ → ℕ) (is_remote : Bool) (c : ℕ)
    → List ℕ
    → IceAgent
    → Status × IceAgent
create_loop allocate pair_id is_remote c [] a = (success, a)
create_loop allocate pair_id is_remote c (d ∷ ds) a =
    let pairs = insert_ice_candidate_pair a.pairs (new_pair is_remote (pair_id d) c d a) in
    let skipped = create_loop allocate pair_id is_remote c ds a in
    let made = create_loop allocate pair_id is_remote c ds (record a { pairs = pairs }) in
    if is_valid (a.candidates d).state && ((a.candidates d).family == (a.candidates c).family)
    then (if succeeded (allocate d) then made else (allocate d, a))
    else skipped

-- createIceCandidatePairs
unfoldable pub create_ice_candidate_pairs :
    (allocate : ℕ → Status) (pair_id : ℕ → ℕ) (c : ℕ) (is_remote : Bool)
    → IceAgent
    → Status × IceAgent
create_ice_candidate_pairs allocate pair_id c is_remote a =
    if is_valid (a.candidates c).state
    then create_loop allocate pair_id is_remote c
        (if is_remote then a.local_candidates else a.remote_candidates) a
    else (success, a)

-- A failure is recorded in the agent on the way out.
abbrev pub or_fatal : Status × IceAgent → Status × IceAgent
or_fatal (status, a) =
    if succeeded status then (status, a) else (status, ice_agent_fatal_error a status)
