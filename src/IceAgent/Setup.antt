-- ===== src/IceAgent/Setup.antt =====
-- What IceAgent.c does when a state is entered.
use kvs_c.Base.{
  ℕ, Bool, true, false, not, ◌&&◌, ◌||◌, Option, none, some, List, [], ◌∷◌, map, ltb, ◌==◌, length,
  if◌then◌else◌,
}
use kvs_c.Status.{
  Status, success, ice_candidate_pair_list_empty, ice_failed_to_nominate_candidate_pair,
  ice_no_nominated_valid_candidate_pair_available, succeeded,
}
use kvs_c.IceAgent.{
  IceCandidate, state_invalid, IceCandidatePair, pair_frozen, pair_waiting, pair_failed, Sending,
  IceAgent, Outside, is_valid, is_relayed, is_succeeded, is_failed, invalid_timestamp, from_now,
}
use kvs_c.IceAgent.Pairs.{or_fatal}

-- Two calls in a row that can fail; the second is made when the first succeeds.
abbrev pub and_then : Status → Status → Status
and_then a b = if succeeded a then b else a

-- The list after every pair is moved out of the frozen state.
abbrev pub waiting : IceCandidatePair → IceCandidatePair
waiting p = record p { state = pair_waiting }

-- iceAgentCheckConnectionStateSetup
unfoldable pub check_connection_state_setup : Outside → IceAgent → Status × IceAgent
check_connection_state_setup o a =
    let b = record a { pairs = map waiting a.pairs } in
    let request = and_then o.free_request o.make_request in
    or_fatal (
      if succeeded request
      then (success, record b { state_end_time = from_now o a.connection_check_timeout })
      else (request, b))

abbrev pub is_usable : IceCandidatePair → Bool
is_usable p = p.nominated && is_succeeded p.state

-- The first pair of a list with a property.
abbrev pub find_pair : (IceCandidatePair → Bool) → List IceCandidatePair → Option IceCandidatePair
find_pair test [] = none
find_pair test (p ∷ ps) = let rest = find_pair test ps in if test p then some p else rest

abbrev pub sending_of : IceCandidatePair → Sending
sending_of p = record { pair_id = p.pair_id; local = p.local }

-- The first pair that is nominated and succeeded becomes the data sending pair, if there is one.
abbrev pub select : Option IceCandidatePair → IceAgent → IceAgent
select none a = a
select (some p) a = record a { data_sending = some (sending_of p) }

-- The data sending pair of before a restart is taken out.
abbrev pub forget : Option Sending → IceAgent → IceAgent
forget none a = a
forget (some s) a = record a { restart = false; data_sending = none }

abbrev pub release : Option Sending → Outside → Status
release none o = success
release (some s) o = o.free_previous

-- iceAgentConnectedStateSetup
unfoldable pub connected_state_setup : Outside → IceAgent → Status × IceAgent
connected_state_setup o a =
    let b = forget a.data_sending a in
    let released = release a.data_sending o in
    or_fatal (
      if succeeded released
      then (o.add_timer, select (find_pair is_usable b.pairs) b)
      else (released, b))

-- The first pair that is connected is nominated, whose object is `p`.
abbrev pub nominate : (IceCandidatePair → Bool) → List IceCandidatePair → List IceCandidatePair
nominate test [] = []
nominate test (p ∷ ps) =
    let rest = nominate test ps in if test p then record p { nominated = true } ∷ ps else p ∷ rest

-- The pairs that are not nominated are frozen.
abbrev pub freeze : IceCandidatePair → IceCandidatePair
freeze p = if not p.nominated then record p { state = pair_frozen } else p

abbrev pub is_connected_pair : IceCandidatePair → Bool
is_connected_pair p = is_succeeded p.state

-- Whether the search for a pair to nominate ends at one.
abbrev pub is_some : Option IceCandidatePair → Bool
is_some none = false
is_some (some p) = true

-- iceAgentNominateCandidatePair, of an agent that is controlling
unfoldable pub nominate_candidate_pair : List IceCandidatePair → Status × List IceCandidatePair
nominate_candidate_pair ps =
    if not (ltb 0 (length ps))
    then (ice_candidate_pair_list_empty, ps)
    else if is_some (find_pair is_connected_pair ps)
    then (success, map freeze (nominate is_connected_pair ps))
    else (ice_failed_to_nominate_candidate_pair, ps)

-- iceAgentNominatingStateSetup
unfoldable pub nominating_state_setup : Outside → IceAgent → Status × IceAgent
nominating_state_setup o a =
    let (status, pairs) = nominate_candidate_pair a.pairs in
    let request = and_then status (and_then o.free_request o.make_request) in
    let b = record a { pairs = pairs } in
    or_fatal (
      if not a.is_controlling
      then (success, record a { state_end_time = from_now o a.nomination_timeout })
      else if succeeded request
      then (success, record b { state_end_time = from_now o a.nomination_timeout })
      else (request, b))

-- A write to the heap of candidates.
abbrev pub put : (ℕ → IceCandidate) → ℕ → IceCandidate → ℕ → IceCandidate
put heap i c j = if i == j then c else heap j

abbrev pub invalid : IceCandidate → IceCandidate
invalid c = record c { state = state_invalid; turn_stopped = is_relayed c.kind || c.turn_stopped }

-- The loop of iceAgentReadyStateSetup over the local candidates: those that are not selected.
unfoldable pub deselect :
    Outside → (selected : ℕ) → List ℕ → (ℕ → IceCandidate) → Status × (ℕ → IceCandidate)
deselect o selected [] heap = (success, heap)
deselect o selected (i ∷ is) heap =
    let kept = deselect o selected is heap in
    let rest = deselect o selected is (put heap i (invalid (heap i))) in
    if i == selected
    then kept
    else if is_relayed (heap i).kind && not (succeeded (o.shut_down_turn i))
    then (o.shut_down_turn i, heap)
    else rest

-- iceAgentInvalidateCandidatePair
unfoldable pub invalidate_candidate_pair :
    (ℕ → IceCandidate) → List IceCandidatePair → List IceCandidatePair
invalidate_candidate_pair heap [] = []
invalidate_candidate_pair heap (p ∷ ps) =
    (if not (is_valid (heap p.local).state) then record p { state = pair_failed } else p)
    ∷ invalidate_candidate_pair heap ps

-- The last loop of iceAgentReadyStateSetup: the pairs that failed are freed.
unfoldable pub free_failed : List IceCandidatePair → List IceCandidatePair
free_failed [] = []
free_failed (p ∷ ps) = let rest = free_failed ps in if is_failed p.state then rest else p ∷ rest

-- iceAgentReadyStateSetup from the selected pair on.
unfoldable pub keep_selected : Outside → Sending → IceAgent → Status × IceAgent
keep_selected o s a =
    let (status, heap) = deselect o s.local a.local_candidates a.candidates in
    let b = record a { state_end_time = invalid_timestamp; candidates = heap } in
    if not (succeeded o.address_string)
    then (o.address_string, a)
    else if succeeded status
    then (success, record b { pairs = free_failed (invalidate_candidate_pair heap a.pairs) })
    else (status, b)

-- The data sending pair is found when it is not yet selected.
unfoldable pub select_ready :
    Outside → Option Sending → Option IceCandidatePair → IceAgent → Status × IceAgent
select_ready o (some s) found a = keep_selected o s a
select_ready o none none a = (ice_no_nominated_valid_candidate_pair_available, a)
select_ready o none (some p) a =
    keep_selected o (sending_of p)
      (record a { data_sending = some (sending_of p); stop_gathering = true })

-- iceAgentReadyStateSetup
unfoldable pub ready_state_setup : Outside → IceAgent → Status × IceAgent
ready_state_setup o a = or_fatal (
    if succeeded o.update_timer
    then select_ready o a.data_sending (find_pair is_usable a.pairs) a
    else (o.update_timer, a))
