-- ===== src/IceAgent/Execution.antt =====
-- What the states of IceAgentStateMachine.c execute does to the agent's state.
use kvs_c.Base.{ℕ, ◌≡◌, ◌⊎◌, refl, true, Option, none, some, List, [], ◌∷◌, arith, if◌then◌else◌}
use kvs_c.Status.{Status, succeeded}
use kvs_c.IceAgent.{
  IceState, check_connection, connected, nominating, ready, IceCandidatePair, Sending, IceAgent,
  Outside,
}
use kvs_c.IceAgent.Checks.{check_pairs, check_candidate_pair_connection, send_candidate_nomination}
use kvs_c.IceAgent.Setup.{
  check_connection_state_setup, connected_state_setup, nominating_state_setup, ready_state_setup,
  sending_of, select_ready, keep_selected, find_pair, is_usable,
}
use kvs_c.IceAgent.Machine.{
  execute_check_connection, execute_connected, execute_nominating, execute_ready_ice_agent,
}

-- A call leaves the agent's state.
abbrev Keeps : IceAgent → Status × IceAgent → Type 0
Keeps a r = r.1.state ≡ a.state

check_connection_state_setup-Keeps :
    (o : Outside) (a : IceAgent) → Keeps a (check_connection_state_setup o a)
unfolding check_connection_state_setup
check_connection_state_setup-Keeps o a = ground arith

connected_state_setup-Keeps : (o : Outside) (a : IceAgent) → Keeps a (connected_state_setup o a)
unfolding connected_state_setup
connected_state_setup-Keeps o a = ground arith

nominating_state_setup-Keeps : (o : Outside) (a : IceAgent) → Keeps a (nominating_state_setup o a)
unfolding nominating_state_setup
nominating_state_setup-Keeps o a = ground arith

keep_selected-Keeps : (o : Outside) (s : Sending) (a : IceAgent) → Keeps a (keep_selected o s a)
unfolding keep_selected
keep_selected-Keeps o s a = ground arith

select_ready-Keeps :
    (o : Outside) (s : Option Sending) (p : Option IceCandidatePair) (a : IceAgent)
    → Keeps a (select_ready o s p a)
unfolding select_ready
select_ready-Keeps o (some s) p a = keep_selected-Keeps o s a
select_ready-Keeps o none none a = refl
select_ready-Keeps o none (some p) a =
    keep_selected-Keeps o (sending_of p)
      (record a { data_sending = some (sending_of p); stop_gathering = true })

ready_state_setup-Keeps : (o : Outside) (a : IceAgent) → Keeps a (ready_state_setup o a)
unfolding ready_state_setup
ready_state_setup-Keeps o a =
    ground (arith, select_ready-Keeps o a.data_sending (find_pair is_usable a.pairs) a)

check_pairs-Keeps : (o : Outside) (queue : List ℕ) (a : IceAgent) → Keeps a (check_pairs o queue a)
unfolding check_pairs
check_pairs-Keeps o [] a = refl
check_pairs-Keeps o (i ∷ queue) a = refl

check_candidate_pair_connection-Keeps :
    (o : Outside) (a : IceAgent) → Keeps a (check_candidate_pair_connection o a)
unfolding check_candidate_pair_connection
check_candidate_pair_connection-Keeps o a = ground (arith, check_pairs-Keeps o a.triggered a)

send_candidate_nomination-Keeps :
    (o : Outside) (a : IceAgent) → Keeps a (send_candidate_nomination o a)
unfolding send_candidate_nomination
send_candidate_nomination-Keeps o a = ground arith

-- An agent that has executed the state `s`: without an error it is there.
abbrev pub Entered : IceState → IceAgent → IceAgent → Type 0
Entered s a b = ((b.state ≡ a.state) ⊎ (b.state ≡ s)) × (succeeded b.status ≡ true → b.state ≡ s)

pub execute_check_connection-Entered :
    (o : Outside) (a : IceAgent) → Entered check_connection a (execute_check_connection o a)
unfolding execute_check_connection
execute_check_connection-Entered o a = ground (
  arith,
  check_connection_state_setup-Keeps o a,
  check_candidate_pair_connection-Keeps o
      (record (check_connection_state_setup o a).1 { state = check_connection }),
  check_candidate_pair_connection-Keeps o a,
)

pub execute_connected-Entered :
    (o : Outside) (a : IceAgent) → Entered connected a (execute_connected o a)
unfolding execute_connected
execute_connected-Entered o a = ground (arith, connected_state_setup-Keeps o a)

sent-Keeps :
    (o : Outside) (a : IceAgent)
    → Keeps a (
        if a.is_controlling
        then send_candidate_nomination o a
        else check_candidate_pair_connection o a)
sent-Keeps o a =
    ground (arith, send_candidate_nomination-Keeps o a, check_candidate_pair_connection-Keeps o a)

pub execute_nominating-Entered :
    (o : Outside) (a : IceAgent) → Entered nominating a (execute_nominating o a)
unfolding execute_nominating
execute_nominating-Entered o a = ground (
  arith,
  nominating_state_setup-Keeps o a,
  sent-Keeps o (record (nominating_state_setup o a).1 { state = nominating }),
  sent-Keeps o a,
)

pub execute_ready_ice_agent-Entered :
    (o : Outside) (a : IceAgent) → Entered ready a (execute_ready_ice_agent o a)
unfolding execute_ready_ice_agent
execute_ready_ice_agent-Entered o a = ground (arith, ready_state_setup-Keeps o a)
