-- ===== src/IceAgent/Tests.antt =====
-- A state machine that keeps to the law, and the theorems at concrete agents.
use kvs_c.Base.{
  ℕ, ◌-◌, ◌≤◌, ◌<◌, ◌≡◌, ◌⊎◌, ◌↔◌, inl, inr, refl, ap, ◌∙◌, Bool, true, false, none, some, [], ◌∷◌,
  arith, ◌==◌, if◌then◌else◌, Bool-cases, min,
}
use kvs_c.Status.{
  Status, success, other_failure, ice_failed_to_recover_from_disconnection, succeeded,
}
use kvs_c.IceAgent.{
  IceState, new, check_connection, connected, nominating, ready, disconnected, failed, host,
  relayed, state_new, state_valid, pair_succeeded, IceCandidate, IceCandidatePair, Sending,
  IceAgent, Outside, sent, is_state, is_succeeded, notify, from_now,
}
use kvs_c.IceAgent.Pairs.{
  max, compute_candidate_priority, compute_candidate_pair_priority, create_ice_candidate_pairs,
}
use kvs_c.IceAgent.Setup.{
  nominate_candidate_pair, ready_state_setup, select_ready, keep_selected, deselect, find_pair,
  is_usable,
}
use kvs_c.IceAgent.Machine.{
  accepts, from_ice_agent_state, from_disconnected, StepStateMachine, IsStepStateMachine,
  execute_disconnected, execute_ice_agent_state, failed_grace_period, stepped_out, Round, ice_loop,
}
use kvs_c.IceAgent.Callbacks.{IsAgentOf, IsNext, from_ice_agent_state-IsNext}
use kvs_c.IceAgent.Priority.{
  compute_candidate_priority-type_preference, compute_candidate_pair_priority-order,
}
use kvs_c.IceAgent.Order.{IsOrdered, IsIn, IsMade, create_ice_candidate_pairs_lem}
use kvs_c.IceAgent.Nominate.{IsBest, nominate_candidate_pair-IsBest}
use kvs_c.IceAgent.Selected.{IsSelected, IsChosen, ready_state_setup-IsSelected}
use kvs_c.IceAgent.Rounds.{IsAnswered, ice_loop-ends}
use kvs_c.IceAgent.Progress.{IsWorking, checking, reaches_ready_state}
use kvs_c.IceAgent.Silence.{at_ready, silent_agent_fails}

-- The next state is tested and executed; what cannot be entered is an error.
go_with :
    StepStateMachine
    → Outside
    → IceState
    → IceAgent
    → IceState × IceAgent
    → Status × IceState × IceAgent
go_with step o s a (next, b) = if accepts next s then (success, r.0, r.1) else (other_failure, s, a)
  where
    r : IceState × IceAgent
    r = execute_ice_agent_state step next o b

go : StepStateMachine → StepStateMachine
go step o s a = go_with step o s a (from_ice_agent_state s o a)

-- The disconnected state steps once more, into a state that does not.
inner : StepStateMachine
inner = go (λ o s a. (other_failure, s, a))

machine : StepStateMachine
machine = go inner

same_execute :
    (f g : StepStateMachine) (next : IceState) (o : Outside) (a : IceAgent)
    → is_state disconnected next ≡ false
    → execute_ice_agent_state f next o a ≡ execute_ice_agent_state g next o a
unfolding execute_ice_agent_state
same_execute f g disconnected o a h = cc h
same_execute f g _ o a h = refl

same_go :
    (f g : StepStateMachine) (s : IceState) (o : Outside) (a : IceAgent)
    → is_state disconnected (from_ice_agent_state s o a).0 ≡ false
    → go f o s a ≡ go g o s a
unfolding go go_with
same_go f g s o a h =
    ap
      (λ r.
        if accepts (from_ice_agent_state s o a).0 s
        then (success, r.0, r.1)
        else (other_failure, s, a))
      (same_execute f g (from_ice_agent_state s o a).0 o (from_ice_agent_state s o a).1 h)

leaves_disconnected :
    (o : Outside) (a : IceAgent)
    → is_state disconnected a.state ≡ false
    → is_state disconnected (from_ice_agent_state disconnected o a).0 ≡ false
unfolding from_ice_agent_state from_disconnected
leaves_disconnected o a h = elim (Bool-cases (succeeded a.status)) [
  | inl ok ↦ rw ok h
  | inr bad ↦ rw bad refl
]

-- Both machines execute alike.
execute_inner :
    (next : IceState) (o : Outside) (a : IceAgent)
    → execute_ice_agent_state inner next o a ≡ execute_ice_agent_state machine next o a
unfolding execute_ice_agent_state execute_disconnected inner machine
execute_inner disconnected o a = elim (Bool-cases (is_state disconnected a.state)) [
  | inl there ↦ rw there refl
  | inr left ↦
      let b : IceAgent =
        notify
          (record a {
            detected_disconnection = true;
            grace_period_end_time = from_now o (failed_grace_period o);
          })
          disconnected in
      let same : b.state ≡ a.state = ground arith in
      rw left (
        ap stepped_out (
          same_go (λ o s a. (other_failure, s, a)) inner disconnected o b
            (leaves_disconnected o b (ap (is_state disconnected) same ∙ left))))
]
execute_inner _ o a = refl

done : IceState × IceAgent → Status × IceState × IceAgent
done r = (success, r.0, r.1)

machine-IsStepStateMachine : IsStepStateMachine machine
unfolding machine go go_with done
machine-IsStepStateMachine = record {
  enters = λ o s next a b asked allowed.
      ap (go_with inner o s a) asked ∙ rw allowed (ap done (execute_inner next o b));
}

abbrev outside : Outside
outside = record {
  time = 1000;
  second = 10;
  free_request = success;
  make_request = success;
  prepare_check = λ i. success;
  send_check = λ i. sent;
  free_previous = success;
  add_timer = success;
  update_timer = success;
  address_string = success;
  shut_down_turn = λ i. success;
  is_shutdown_complete = λ i. false;
}

-- Candidate 1 is a host and 2 is relayed, both local; the others are remote hosts.
abbrev candidates : ℕ → IceCandidate
candidates i = record {
  kind = if i == 2 then relayed else host;
  is_point_to_point = false;
  family = 4;
  address = i;
  socket = if i == 3 then none else some i;
  state = if i == 5 then state_new else state_valid;
  priority = if i == 2 then 16777215 else 2130706431;
  turn_stopped = false;
}

abbrev pair : ℕ → ℕ → IceCandidatePair
pair i local = record {
  pair_id = i;
  local = local;
  remote = 3;
  nominated = false;
  priority = 100 - i;
  state = pair_succeeded;
}

abbrev agent : IceAgent
agent = record {
  state = new;
  status = success;
  state_end_time = 0;
  is_controlling = true;
  restart = false;
  stop_gathering = false;
  start_time = 0;
  last_data_received_time = 500;
  detected_disconnection = false;
  grace_period_end_time = 0;
  has_callback = true;
  notified = [];
  candidates = candidates;
  local_candidates = 1 ∷ 2 ∷ [];
  remote_candidates = 3 ∷ 5 ∷ [];
  pairs = pair 1 1 ∷ pair 2 2 ∷ [];
  triggered = [];
  data_sending = none;
  connection_check_timeout = 100;
  nomination_timeout = 100;
}

agent-IsAgentOf : IsAgentOf new agent
agent-IsAgentOf = record { settled = λ _ n. cc n; over = λ e. cc (ap (is_state new) e) }

ice_loop-ends_example :
    (r : Round) × (ice_loop machine 6 success (λ _. outside) new agent ≡ some r)
    × (r.ends ≡ false)
    × (r.status ≡ success)
    × IsAgentOf r.machine_state r.agent
    × IsAnswered r.agent
ice_loop-ends_example =
    ice_loop-ends machine machine-IsStepStateMachine 6 success (λ _. outside) new agent
      agent-IsAgentOf (omega arith)

from_ice_agent_state-IsNext_example : IsNext new agent (from_ice_agent_state new outside agent)
from_ice_agent_state-IsNext_example = from_ice_agent_state-IsNext new outside agent agent-IsAgentOf

silent_agent_fails_example :
    let o' : Outside = record outside { time = 2000 } in
    (b : IceAgent) × (c : IceAgent) × (ice_loop machine 1 success
        (λ _. outside)
        ready
        (at_ready agent)
      ≡ some (record { ends = false; status = success; machine_state = ready; agent = b }))
    × (b.state ≡ ready)
    × (b.notified ≡ disconnected ∷ [])
    × (ice_loop machine 2 success (λ _. o') ready b
        ≡ some (record { ends = false; status = success; machine_state = failed; agent = c }))
    × (c.state ≡ failed)
    × (c.status ≡ ice_failed_to_recover_from_disconnection)
    × (c.notified ≡ failed ∷ disconnected ∷ [])
silent_agent_fails_example =
    silent_agent_fails machine machine-IsStepStateMachine 0 0 success success outside
      (record outside { time = 2000 }) agent (omega arith) (omega arith) (omega arith) (omega arith)

compute_candidate_pair_priority-order_example :
    let p = compute_candidate_priority (candidates 1) in
    let q = compute_candidate_priority (candidates 2) in
    (compute_candidate_pair_priority q p true ≡ compute_candidate_pair_priority p q false)
    × ((min q p < min p p) ⊎ ((min q p ≡ min p p) × (max q p < max p p))
        → compute_candidate_pair_priority q p true < compute_candidate_pair_priority p p true)
compute_candidate_pair_priority-order_example =
    compute_candidate_pair_priority-order (candidates 2) (candidates 1) (candidates 1)
      (candidates 1) true

compute_candidate_priority-type_preference_example :
    compute_candidate_priority (candidates 2) < compute_candidate_priority (candidates 1)
compute_candidate_priority-type_preference_example =
    compute_candidate_priority-type_preference (candidates 2) (candidates 1) (omega arith)

create_ice_candidate_pairs_lem_example :
    let r = create_ice_candidate_pairs (λ d. success) (λ d. 7) 1 false agent in
    (r.0 ≡ success)
    × IsOrdered r.1.pairs
    × ((true ≡ true)
        → (q : IceCandidatePair)
        → IsIn q r.1.pairs ↔ (
            IsIn q agent.pairs
            ⊎ IsMade (λ d. success) (λ d. 7) false 1 (λ d. refl) (3 ∷ 5 ∷ []) agent q))
    × ((true ≡ false) → r.1.pairs ≡ agent.pairs)
create_ice_candidate_pairs_lem_example =
    create_ice_candidate_pairs_lem (λ d. success) (λ d. 7) false 1 (λ d. refl) agent (omega arith)

nominate_candidate_pair-IsBest_example :
    let r = nominate_candidate_pair agent.pairs in
    ((r.0 ≡ success) × IsBest agent.pairs r.1)
    ⊎ ((succeeded r.0 ≡ false)
        × (r.1 ≡ agent.pairs)
        × ((q : IceCandidatePair)
            → IsIn q agent.pairs
            → ◌≡◌ {A = Bool} (is_succeeded q.state) false))
nominate_candidate_pair-IsBest_example =
    nominate_candidate_pair-IsBest agent.pairs (omega arith) (refl, (refl, tt))

abbrev nominated : IceAgent
nominated = record agent { pairs = record (pair 1 1) { nominated = true } ∷ pair 2 2 ∷ [] }

ready_state_setup-IsSelected_example :
    (s : Sending) × IsSelected nominated s (ready_state_setup outside nominated).1
    × IsChosen none (find_pair is_usable nominated.pairs) s
unfolding ready_state_setup select_ready keep_selected deselect
ready_state_setup-IsSelected_example = ready_state_setup-IsSelected outside nominated refl

outside-IsWorking : IsWorking outside
outside-IsWorking = record {
  freed = refl;
  made = refl;
  timed = refl;
  updated = refl;
  named = refl;
  prepared = λ i. refl;
  sends = λ i. refl;
  shut_down = λ i. refl;
}

reaches_ready_state_example :
    let a : IceAgent = record agent { last_data_received_time = 990 } in
    (b : IceAgent) × (ice_loop machine 4 success (λ _. outside) check_connection (checking a)
      ≡ some (record { ends = false; status = success; machine_state = ready; agent = b }))
    × (b.state ≡ ready)
    × (b.status ≡ success)
    × (b.data_sending ≡ some (record { pair_id = 1; local = 1 }))
    × (b.notified ≡ ready ∷ nominating ∷ connected ∷ [])
    × ((q : IceCandidatePair) → IsIn q agent.pairs → is_succeeded q.state ≡ true → q.priority ≤ 99)
reaches_ready_state_example =
    reaches_ready_state machine machine-IsStepStateMachine (λ _. outside) (λ _. outside-IsWorking) 0
      success (record agent { last_data_received_time = 990 }) (pair 1 1) refl (omega arith)
      (refl, (refl, tt)) (refl, (refl, tt)) refl
