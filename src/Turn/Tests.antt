-- ===== src/Turn/Tests.antt =====
-- TurnConnectionStateMachine.c with a machine that follows the states' table.
use kvs_c.Base.{◌≡◌, refl, ap, arith, ◌∙◌, true, false, ◌&&◌, none, some, [], ◌∷◌, if◌then◌else◌}
use kvs_c.Status.{Status, success, other_failure, succeeded}
use kvs_c.Turn.{
  TurnState, new, check_socket_connection, create_permission, bind_channel, clean_up, failed,
  peer_bind_channel, peer_ready, TurnConnection, Outside, Next, accepts, after, from_state,
}
use kvs_c.Turn.Execute.{execute_state, execute_check_socket_connection}
use kvs_c.Turn.Machine.{StepStateMachine, IsStepStateMachine, turn_round, turn_loop}
use kvs_c.Turn.Rounds.{turn_round_fails, turn_round_stops}
use kvs_c.Turn.Progress.{at_state, reaches_next_state}

-- The next state is tested and executed; what cannot be entered is an error.
go_on : Outside → TurnState → Next → Status × TurnState × TurnConnection
go_on o s (status, none, c') = (status, s, c')
go_on o s (status, some n, c') =
    if succeeded status && accepts n s
    then ((execute_state n o c').0, n, (execute_state n o c').1)
    else (other_failure, s, c')

machine : StepStateMachine
machine o s c = go_on o s (from_state s o c)

machine-IsStepStateMachine : IsStepStateMachine machine
unfolding machine go_on
machine-IsStepStateMachine = record { enters = λ o s next c c' e a. ap (go_on o s) e ∙ rw a refl }

abbrev outside : Outside
outside = record {
  time = 100;
  second = 10;
  millisecond = 1;
  is_connected = true;
  is_closed = false;
  refresh_permission = (success, false);
  update_timer = success;
  free_packets = success;
  free_turn_packet = success;
  close_socket = success;
  package_request = success;
  init_secure = success;
  server_address = success;
  send_packet = success;
  long_term_key = success;
  prepare_packets = success;
  lifetime_attribute = (success, true);
  check_peers = λ ps. (success, ps);
}

-- The request cannot be made.
abbrev broken : Outside
broken = record outside { package_request = other_failure }

abbrev connection : TurnConnection
connection = record {
  state = new;
  state_timeout_time = 0;
  credential_obtained = true;
  has_allocation = true;
  shutdown_complete = false;
  error_status = success;
  peers = peer_ready ∷ peer_ready ∷ [];
  current_timer_calling_period = 50;
  deallocate_packet_sent = false;
  receive_data = false;
  needs_tls = true;
  stop_turn_connection = false;
}

abbrev stopped : TurnConnection
stopped = record connection { stop_turn_connection = true }

turn_round_fails_example : turn_round machine broken new connection ≡ record {
  ends = false;
  status = success;
  machine_state = failed;
  connection = record connection {
    state = failed;
    error_status = other_failure;
    has_allocation = false;
  };
}
unfolding machine go_on from_state execute_state execute_check_socket_connection
turn_round_fails_example =
    turn_round_fails machine broken new check_socket_connection connection
      (record connection { state = check_socket_connection }) other_failure
      machine-IsStepStateMachine refl refl refl (λ e. cc e) (λ e. cc e)

turn_round_stops_example :
    let r = turn_round machine outside new stopped in
    (r.machine_state ≡ clean_up)
    × (r.connection.state ≡ clean_up)
    × (r.connection.state_timeout_time ≡ after outside 10)
unfolding machine go_on from_state execute_state execute_check_socket_connection
turn_round_stops_example =
    turn_round_stops machine outside new check_socket_connection stopped
      (record stopped { state = check_socket_connection }) success machine-IsStepStateMachine refl
      refl refl refl refl (λ e. cc e) (λ e. cc e)

-- Two peers with permission, of which one is not ready yet.
abbrev permitted : TurnConnection
permitted = record connection { peers = peer_ready ∷ peer_bind_channel ∷ [] }

reaches_next_state_example :
    (c' : TurnConnection) × (turn_loop machine 3 success
        (λ _. outside)
        create_permission
        (at_state create_permission permitted)
      ≡ some (record {
        ends = false;
        status = success;
        machine_state = bind_channel;
        connection = c';
      }))
    × (c'.state ≡ bind_channel)
    × (c'.peers ≡ peer_ready ∷ peer_bind_channel ∷ [])
reaches_next_state_example =
    reaches_next_state machine machine-IsStepStateMachine (λ _. outside)
      (λ _. record {
        connected = refl;
        packaged = refl;
        secured = refl;
        addressed = refl;
        sent = refl;
        freed = refl;
        keyed = refl;
        prepared = refl;
        permitted = refl;
        timed = refl;
        peers_stay = λ ps. refl;
      })
      0 success create_permission bind_channel permitted (λ j k. omega arith)
      (omega arith, refl, omega arith)
