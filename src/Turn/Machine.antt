-- ===== src/Turn/Machine.antt =====
-- stepTurnConnectionStateMachine of TurnConnectionStateMachine.c. stepStateMachine is a function of
-- another library: it asks for the next state, tests that it is entered from the present one, and
-- runs what the new state executes.
use kvs_c.Base.{ℕ, zero, suc, ◌≡◌, Bool, true, false, not, ◌&&◌, Option, none, some, if◌then◌else◌}
use kvs_c.Status.{Status, success, succeeded}
use kvs_c.Turn.{
  TurnState, new, clean_up, failed, TurnConnection, Outside, is_state, accepts, after, from_state,
}
use kvs_c.Turn.Execute.{execute_state}

-- `stepStateMachine`: the machine's state and the connection, and the status of the step.
abbrev pub StepStateMachine : Type 0
StepStateMachine = Outside → TurnState → TurnConnection → Status × TurnState × TurnConnection

-- A step into the next state executes it; a callback that fails ends the step.
pub record IsStepStateMachine (step : StepStateMachine) : Type 0 where
  pub enters :
      (o : Outside) (s next : TurnState) (c c' : TurnConnection)
      → from_state s o c ≡ (success, some next, c')
      → accepts next s ≡ true
      → step o s c ≡ ((execute_state next o c').0, next, (execute_state next o c').1)

-- What a round leaves: whether it ends the loop, the status, the machine's state, and the connection.
pub record Round : Type 0 where
  pub ends : Bool
  pub status : Status
  pub machine_state : TurnState
  pub connection : TurnConnection

module _ (step : StepStateMachine) where
  -- One round of the loop, up to the comparison of the states.
  unfoldable pub turn_round : Outside → TurnState → TurnConnection → Round
  turn_round o s c =
      let (status, s', c') = step o s c in
      if succeeded status
        && (c'.stop_turn_connection
            && (not (is_state new c'.state) && not (is_state clean_up c'.state)))
      then forced (step o s' (record c' { state = clean_up; state_timeout_time = after o 10 }))
      else if not (succeeded status) && not (is_state failed c'.state)
      then forced (step o s' (record c' { state = failed; error_status = status }))
      else record { ends = false; status = status; machine_state = s'; connection = c' }
    where
      forced : Status × TurnState × TurnConnection → Round
      forced r = record {
        ends = not (succeeded r.0);
        status = r.0;
        machine_state = r.1;
        connection = r.2;
      }

  -- stepTurnConnectionStateMachine: rounds while the state changes; `none` is fuel that runs out, and
  -- `reset` is the status of resetStateMachineRetryCount.
  unfoldable pub turn_loop :
      (fuel : ℕ) (reset : Status) → (ℕ → Outside) → TurnState → TurnConnection → Option Round
  turn_loop zero reset outside s c = none
  turn_loop (suc fuel) reset outside s c =
      let r = turn_round (outside fuel) s c in
      let rest = turn_loop fuel reset outside r.machine_state r.connection in
      if r.ends
      then some r
      else if is_state c.state r.connection.state
      then some (record r { status = reset })
      else rest
