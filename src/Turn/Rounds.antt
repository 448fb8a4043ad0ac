-- ===== src/Turn/Rounds.antt =====
-- The rounds of stepTurnConnectionStateMachine that end a connection.
use kvs_c.Base.{◌≡◌, ◌≢◌, refl, Bool, true, false, not, ◌&&◌, some, arith, if◌then◌else◌}
use kvs_c.Status.{Status, success, succeeded}
use kvs_c.Turn.{
  TurnState, new, check_socket_connection, get_credentials, allocation, create_permission,
  bind_channel, ready, clean_up, failed, TurnConnection, Outside, is_state, accepts, after,
  from_state, from_check_socket_connection, from_get_credentials, from_allocation,
  from_create_permission, from_bind_channel, from_ready, from_clean_up, from_failed,
}
use kvs_c.Turn.Execute.{execute_state, execute_clean_up}
use kvs_c.Turn.Machine.{StepStateMachine, IsStepStateMachine, turn_round}

-- A connection that has failed sends the machine to the failed state, from any state but two.
failed_wins :
    (t : TurnState) (o : Outside) (c : TurnConnection)
    → t ≢ new
    → t ≢ failed
    → let c' : TurnConnection = record c { state = failed } in
      (from_state t o c' ≡ (success, some failed, c')) × (accepts failed t ≡ true)
unfolding from_state from_check_socket_connection from_get_credentials from_allocation
    from_create_permission from_bind_channel from_ready from_clean_up
failed_wins new o c a b = absurd (a refl)
failed_wins check_socket_connection o c a b = (refl, refl)
failed_wins get_credentials o c a b = (refl, refl)
failed_wins allocation o c a b = (refl, refl)
failed_wins create_permission o c a b = (refl, refl)
failed_wins bind_channel o c a b = (refl, refl)
failed_wins ready o c a b = (refl, refl)
failed_wins clean_up o c a b = (refl, refl)
failed_wins failed o c a b = absurd (b refl)

-- A connection that is to be cleaned up sends the machine there, from any state but two.
clean_up_wins :
    (t : TurnState) (o : Outside) (c : TurnConnection)
    → t ≢ new
    → t ≢ clean_up
    → let c' : TurnConnection = record c { state = clean_up } in
      (from_state t o c' ≡ (success, some clean_up, c')) × (accepts clean_up t ≡ true)
unfolding from_state from_check_socket_connection from_get_credentials from_allocation
    from_create_permission from_bind_channel from_ready from_failed
clean_up_wins new o c a b = absurd (a refl)
clean_up_wins check_socket_connection o c a b = (refl, refl)
clean_up_wins get_credentials o c a b = (refl, refl)
clean_up_wins allocation o c a b = (refl, refl)
clean_up_wins create_permission o c a b = (refl, refl)
clean_up_wins bind_channel o c a b = (refl, refl)
clean_up_wins ready o c a b = (refl, refl)
clean_up_wins failed o c a b = (refl, refl)
clean_up_wins clean_up o c a b = absurd (b refl)

-- When a step fails the connection goes to the failed state within the round: from any state of the
-- machine but the first and the failed one, the status is recorded, the allocation is given up, and
-- both the machine and the connection are in the failed state.
pub turn_round_fails :
    (step : StepStateMachine) (o : Outside) (s s' : TurnState) (c c' : TurnConnection)
    (status : Status)
    → IsStepStateMachine step
    → step o s c ≡ (status, s', c')
    → succeeded status ≡ false
    → is_state failed c'.state ≡ false
    → s' ≢ new
    → s' ≢ failed
    → turn_round step o s c ≡ record {
      ends = false;
      status = success;
      machine_state = failed;
      connection = record c' { state = failed; error_status = status; has_allocation = false };
    }
unfolding turn_round execute_state
turn_round_fails step o s s' c c' status law run bad live not_new not_failed =
    let failing : TurnConnection = record c' { state = failed; error_status = status } in
    let (next, allowed) = failed_wins s' o failing not_new not_failed in
    let entered = law.enters o s' failed failing failing next allowed in
    rw (run, bad, live) (rw entered refl)

-- What holds of both ends of a test.
if_both : {A : Type 0} (P : A → Type 0) (b : Bool) {x y : A} → P x → P y → P (if b then x else y)
if_both P true px py = px
if_both P false px py = py

-- What the cleaning up executes leaves the timeout.
execute_clean_up_lem :
    (o : Outside) (c : TurnConnection)
    → ((execute_clean_up o c).1.state ≡ clean_up)
      × ((execute_clean_up o c).1.state_timeout_time ≡ c.state_timeout_time)
unfolding execute_clean_up
execute_clean_up_lem o c =
    if_both P c.has_allocation
      (if_both P (not (succeeded o.lifetime_attribute.0)) (refl, refl)
        (if_both P (not o.lifetime_attribute.1) (refl, refl)
          (if_both P (succeeded o.send_packet) (refl, refl) (refl, refl))))
      (refl, refl)
  where
    P : Status × TurnConnection → Type 0
    P r = (r.1.state ≡ clean_up) × (r.1.state_timeout_time ≡ c.state_timeout_time)

stop_test : (a b c : Bool) → a ≡ true → b ≡ false → c ≡ false → (a && (not b && not c)) ≡ true
stop_test a b c ha hb hc = ground (arith, ha, hb, hc)

-- A connection that is told to stop goes to the cleaning up within the round in which its step
-- succeeds, with its timeout set, whatever the state it is in: but when it is new, or cleans up already.
pub turn_round_stops :
    (step : StepStateMachine) (o : Outside) (s s' : TurnState) (c c' : TurnConnection)
    (status : Status)
    → IsStepStateMachine step
    → step o s c ≡ (status, s', c')
    → succeeded status ≡ true
    → c'.stop_turn_connection ≡ true
    → is_state new c'.state ≡ false
    → is_state clean_up c'.state ≡ false
    → s' ≢ new
    → s' ≢ clean_up
    → let r = turn_round step o s c in
      (r.machine_state ≡ clean_up)
      × (r.connection.state ≡ clean_up)
      × (r.connection.state_timeout_time ≡ after o 10)
unfolding turn_round execute_state
turn_round_stops step o s s' c c' status law run ok stop old over not_new not_over =
    let stopping : TurnConnection = record c' {
      state = clean_up;
      state_timeout_time = after o 10;
    } in
    let (next, allowed) = clean_up_wins s' o stopping not_new not_over in
    let entered = law.enters o s' clean_up stopping stopping next allowed in
    let test =
      stop_test c'.stop_turn_connection (is_state new c'.state) (is_state clean_up c'.state) stop
        old over in
    let (state, timeout) = execute_clean_up_lem o stopping in
    rw (run, ok, test) (rw entered (refl, state, timeout))
