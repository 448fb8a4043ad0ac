-- ===== src/IceAgent/Machine.antt =====
-- IceAgentStateMachine.c: the callbacks of the states, and stepIceAgentStateMachine. stepStateMachine is a
-- function of another library: it asks for the next state, tests that it is entered from the present
-- one, and runs what the new state executes.
use kvs_c.Base.{
  ℕ, zero, suc, ◌+◌, ◌*◌, ◌%◌, ◌^◌, ◌≡◌, Bool, true, false, not, ◌&&◌, ◌||◌, Option, none, some,
  List, [], ◌∷◌, leb, ltb, ◌==◌, if◌then◌else◌,
}
use kvs_c.Status.{
  Status, success, ice_no_connected_candidate_pair, ice_failed_to_nominate_candidate_pair,
  ice_failed_to_recover_from_disconnection, succeeded,
}
use kvs_c.IceAgent.{
  IceState, new, check_connection, connected, nominating, ready, disconnected, failed, IceAgent,
  Outside, is_state, is_relayed, invalid_timestamp, from_now, notify,
}
use kvs_c.IceAgent.Checks.{check_candidate_pair_connection, send_candidate_nomination}
use kvs_c.IceAgent.Setup.{
  check_connection_state_setup, connected_state_setup, nominating_state_setup, ready_state_setup,
  is_connected_pair, is_usable, find_pair, is_some,
}

abbrev any_state : List IceState → IceState → Bool
any_state [] s = false
any_state (x ∷ xs) s = is_state x s || any_state xs s

-- The second column of ICE_AGENT_STATE_MACHINE_STATES: the states that a state is entered from.
abbrev pub ice_accept_states : IceState → List IceState
ice_accept_states new = new ∷ []
ice_accept_states check_connection = new ∷ check_connection ∷ []
ice_accept_states connected = check_connection ∷ connected ∷ []
ice_accept_states nominating = connected ∷ nominating ∷ []
ice_accept_states ready = connected ∷ nominating ∷ ready ∷ disconnected ∷ []
ice_accept_states disconnected =
    check_connection ∷ connected ∷ nominating ∷ ready ∷ disconnected ∷ []
ice_accept_states failed =
    check_connection ∷ connected ∷ nominating ∷ ready ∷ disconnected ∷ failed ∷ []

abbrev pub accepts : (next current : IceState) → Bool
accepts next current = any_state (ice_accept_states next) current

-- The state that a callback asks for, and the agent. The callbacks return STATUS_SUCCESS.
abbrev pub Next : Type 0
Next = IceState × IceAgent

-- The end of a callback: a failure asks for the failed state, and is recorded.
abbrev pub ask : Status → IceState → IceAgent → Next
ask status s a = if succeeded status then (s, a) else (failed, record a { status = status })

-- fromCheckConnectionIceAgentState
unfoldable pub from_check_connection : Outside → IceAgent → Next
from_check_connection o a =
    if not (succeeded a.status)
    then ask a.status check_connection a
    else if is_some (find_pair is_connected_pair a.pairs)
    then ask success connected a
    else if leb a.state_end_time o.time
    then ask ice_no_connected_candidate_pair check_connection a
    else ask success check_connection a

-- fromConnectedIceAgentState
unfoldable pub from_connected : Outside → IceAgent → Next
from_connected o a =
    if not (succeeded a.status) then ask a.status connected a else ask success nominating a

-- fromNominatingIceAgentState
unfoldable pub from_nominating : Outside → IceAgent → Next
from_nominating o a =
    if not (succeeded a.status)
    then ask a.status nominating a
    else if is_some (find_pair is_usable a.pairs)
    then ask success ready a
    else if leb a.state_end_time o.time
    then ask ice_failed_to_nominate_candidate_pair nominating a
    else ask success nominating a

-- KVS_ICE_ENTER_STATE_DISCONNECTION_GRACE_PERIOD and KVS_ICE_ENTER_STATE_FAILED_GRACE_PERIOD
abbrev pub disconnection_grace_period : Outside → ℕ
disconnection_grace_period o = 2 * (15 * o.second)

abbrev pub failed_grace_period : Outside → ℕ
failed_grace_period o = 15 * o.second

-- `lastDataReceivedTime + KVS_ICE_ENTER_STATE_DISCONNECTION_GRACE_PERIOD`
abbrev pub silent_from : Outside → IceAgent → ℕ
silent_from o a = (a.last_data_received_time + disconnection_grace_period o) % 2 ^ 64

-- IS_VALID_TIMESTAMP of lastDataReceivedTime
abbrev pub has_received : IceAgent → Bool
has_received a = not (a.last_data_received_time == invalid_timestamp)

-- iceAgentStateMachineCheckDisconnection; `s` is `*pNextState`.
unfoldable pub check_disconnection : Outside → IceState → IceAgent → Status × IceState × IceAgent
check_disconnection o s a =
    if not a.detected_disconnection && (has_received a && leb (silent_from o a) o.time)
    then (success, disconnected, a)
    else if a.detected_disconnection
    then (if has_received a && ltb o.time (silent_from o a)
        then (success, s, notify (record a { detected_disconnection = false }) a.state)
        else if leb a.grace_period_end_time o.time
        then (ice_failed_to_recover_from_disconnection, s, a)
        else (success, s, a))
    else (success, s, a)

-- fromReadyIceAgentState
unfoldable pub from_ready_ice_agent : Outside → IceAgent → Next
from_ready_ice_agent o a =
    let (status, s, b) = check_disconnection o ready a in
    if not (succeeded a.status) then ask a.status ready a else ask status s b

-- fromDisconnectedIceAgentState
unfoldable pub from_disconnected : Outside → IceAgent → Next
from_disconnected o a = ask a.status a.state a

-- The third column of ICE_AGENT_STATE_MACHINE_STATES, with fromNewIceAgentState and
-- fromFailedIceAgentState.
unfoldable pub from_ice_agent_state : IceState → Outside → IceAgent → Next
from_ice_agent_state new o a = (check_connection, a)
from_ice_agent_state check_connection o a = from_check_connection o a
from_ice_agent_state connected o a = from_connected o a
from_ice_agent_state nominating o a = from_nominating o a
from_ice_agent_state ready o a = from_ready_ice_agent o a
from_ice_agent_state disconnected o a = from_disconnected o a
from_ice_agent_state failed o a = (failed, a)

-- `stepStateMachine`: the status of the step, the machine's state, and the agent.
abbrev pub StepStateMachine : Type 0
StepStateMachine = Outside → IceState → IceAgent → Status × IceState × IceAgent

-- The end of what a state executes: a failure is recorded, and is not returned.
abbrev pub record_failure : Status × IceAgent → IceAgent
record_failure (status, a) = if succeeded status then a else record a { status = status }

-- A call, and then another when it succeeds.
abbrev pub and_next : Status × IceAgent → (IceAgent → Status × IceAgent) → Status × IceAgent
and_next (status, a) f = if succeeded status then f a else (status, a)

-- executeCheckConnectionIceAgentState
unfoldable pub execute_check_connection : Outside → IceAgent → IceAgent
execute_check_connection o a = started (record_failure checked)
  where
    checked : Status × IceAgent
    checked =
        if not (is_state check_connection a.state)
        then and_next (check_connection_state_setup o a)
            (λ b. check_candidate_pair_connection o (record b { state = check_connection }))
        else check_candidate_pair_connection o a

    started : IceAgent → IceAgent
    started b = if b.start_time == 0 then record b { start_time = o.time } else b

-- executeConnectedIceAgentState
unfoldable pub execute_connected : Outside → IceAgent → IceAgent
execute_connected o a =
    record_failure
      (and_next (connected_state_setup o a) (λ b. (success, record b { state = connected })))

-- executeNominatingIceAgentState
unfoldable pub execute_nominating : Outside → IceAgent → IceAgent
execute_nominating o a = record_failure (
    if not (is_state nominating a.state)
    then and_next (nominating_state_setup o a) (λ b. sent (record b { state = nominating }))
    else sent a)
  where
    sent : IceAgent → Status × IceAgent
    sent b =
        if b.is_controlling
        then send_candidate_nomination o b
        else check_candidate_pair_connection o b

-- The local candidates of executeReadyIceAgentState whose TURN connection is shut down are freed.
unfoldable pub free_shut_down : Outside → IceAgent → List ℕ → List ℕ
free_shut_down o a [] = []
free_shut_down o a (i ∷ is) =
    let rest = free_shut_down o a is in
    if is_relayed (a.candidates i).kind && o.is_shutdown_complete i then rest else i ∷ rest

-- executeReadyIceAgentState
unfoldable pub execute_ready_ice_agent : Outside → IceAgent → IceAgent
execute_ready_ice_agent o a = record (record_failure entered) { start_time = 0 }
  where
    freed : IceAgent → IceAgent
    freed b = record b { local_candidates = free_shut_down o b b.local_candidates }

    entered : Status × IceAgent
    entered =
        if not (is_state ready a.state)
        then and_next (ready_state_setup o a) (λ b. (success, freed (record b { state = ready })))
        else (success, freed a)

-- The state of the machine and the agent after the step out of the disconnected state.
abbrev pub stepped_out : Status × IceState × IceAgent → IceState × IceAgent
stepped_out (status, s, a) = (s, record_failure (status, a))

-- executeDisconnectedIceAgentState; it steps the machine out of the state.
unfoldable pub execute_disconnected : StepStateMachine → Outside → IceAgent → IceState × IceAgent
execute_disconnected step o a =
    if is_state disconnected a.state
    then (disconnected, a)
    else stepped_out (
        step o disconnected (
          notify
            (record a {
              detected_disconnection = true;
              grace_period_end_time = from_now o (failed_grace_period o);
            })
            disconnected))

-- The fourth column of ICE_AGENT_STATE_MACHINE_STATES, with executeNewIceAgentState and
-- executeFailedIceAgentState: the state that the machine is left in, and the agent.
unfoldable pub execute_ice_agent_state :
    StepStateMachine → IceState → Outside → IceAgent → IceState × IceAgent
execute_ice_agent_state step new o a = (new, record a { state = new })
execute_ice_agent_state step check_connection o a = (check_connection, execute_check_connection o a)
execute_ice_agent_state step connected o a = (connected, execute_connected o a)
execute_ice_agent_state step nominating o a = (nominating, execute_nominating o a)
execute_ice_agent_state step ready o a = (ready, execute_ready_ice_agent o a)
execute_ice_agent_state step disconnected o a = execute_disconnected step o a
execute_ice_agent_state step failed o a = (failed, record a { state = failed })

-- A step into a state that is entered from the present one executes it.
pub record IsStepStateMachine (step : StepStateMachine) : Type 0 where
  pub enters :
      (o : Outside) (s next : IceState) (a b : IceAgent)
      → from_ice_agent_state s o a ≡ (next, b)
      → accepts next s ≡ true
      → let r = execute_ice_agent_state step next o b in step o s a ≡ (success, r.0, r.1)

-- What a round leaves: whether it ends the loop by an error, its status, the machine's state, the agent.
pub record Round : Type 0 where
  pub ends : Bool
  pub status : Status
  pub machine_state : IceState
  pub agent : IceAgent

module _ (step : StepStateMachine) where
  -- A step of a round.
  abbrev pub step_round : Outside → IceState → IceAgent → Round
  step_round o s a =
      let (status, s', b) = step o s a in
      record { ends = not (succeeded status); status = status; machine_state = s'; agent = b }

  -- The steps of a round of stepIceAgentStateMachine: a second one when the agent has an error.
  unfoldable pub ice_round : Outside → IceState → IceAgent → Round
  ice_round o s a =
      let r = step_round o s a in
      let forced = step_round o r.machine_state r.agent in
      if not r.ends && (not (is_state failed r.agent.state) && not (succeeded r.agent.status))
      then forced
      else r

  -- stepIceAgentStateMachine: rounds while the state changes; `none` is fuel that runs out, and `reset` is
  -- the status of resetStateMachineRetryCount.
  unfoldable pub ice_loop :
      (fuel : ℕ) (reset : Status) → (ℕ → Outside) → IceState → IceAgent → Option Round
  ice_loop zero reset outside s a = none
  ice_loop (suc fuel) reset outside s a =
      let r = ice_round (outside fuel) s a in
      let rest = ice_loop fuel reset outside r.machine_state (notify r.agent r.agent.state) in
      if r.ends
      then some r
      else if is_state a.state r.agent.state
      then some (record r { status = reset })
      else rest
