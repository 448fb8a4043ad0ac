-- ===== src/IceAgent/Progress.antt =====
-- How a controlling agent with a connected pair becomes ready.
use kvs_c.Base.{
  ℕ, suc, ◌≤◌, ◌≡◌, refl, ap, ◌∙◌, true, false, not, ◌&&◌, none, some, List, ◌∷◌, map, leb,
}
use kvs_c.Status.{Status, success, succeeded}
use kvs_c.IceAgent.{
  IceState, check_connection, connected, nominating, ready, failed, IceCandidate, IceCandidatePair,
  IceAgent, Outside, sent, is_state, is_succeeded, invalid_timestamp, notify, from_now,
}
use kvs_c.IceAgent.Checks.{send_candidate_nomination, ids}
use kvs_c.IceAgent.Setup.{
  find_pair, is_usable, is_connected_pair, sending_of, nominate, freeze, deselect,
  invalidate_candidate_pair, free_failed, connected_state_setup, nominating_state_setup,
  keep_selected, select_ready, ready_state_setup,
}
use kvs_c.IceAgent.Machine.{
  accepts, from_ice_agent_state, from_check_connection, from_connected, from_nominating,
  check_disconnection, from_ready_ice_agent, has_received, silent_from, StepStateMachine,
  IsStepStateMachine, execute_connected, execute_nominating, free_shut_down,
  execute_ready_ice_agent, execute_ice_agent_state, ice_round, ice_loop,
}
use kvs_c.IceAgent.Order.{IsOrdered, IsIn}
use kvs_c.IceAgent.Found.{
  HasSockets, nominees-HasSockets, and_false, none_usable, nominated_usable, nomination_works,
  deselect_works, found_highest, nominates,
}
use kvs_c.IceAgent.Nominate.{NoneNominated}

-- Every call outside succeeds, and every request that is sent for a pair leaves its socket.
pub record IsWorking (o : Outside) : Type 0 where
  pub freed : o.free_request ≡ success
  pub made : o.make_request ≡ success
  pub timed : o.add_timer ≡ success
  pub updated : o.update_timer ≡ success
  pub named : o.address_string ≡ success
  pub prepared : (i : ℕ) → o.prepare_check i ≡ success
  pub sends : (i : ℕ) → o.send_check i ≡ sent
  pub shut_down : (i : ℕ) → o.shut_down_turn i ≡ success

-- An agent that controls, is checking its pairs, and has no data sending pair yet.
abbrev pub checking : IceAgent → IceAgent
checking a = record a {
  state = check_connection;
  status = success;
  is_controlling = true;
  has_callback = true;
  detected_disconnection = false;
  data_sending = none;
}

-- The pairs after the nomination.
abbrev nominees_of : List IceCandidatePair → List IceCandidatePair
nominees_of ps = map freeze (nominate is_connected_pair ps)

module _ (step : StepStateMachine) (law : IsStepStateMachine step) (outside : ℕ → Outside) where
  -- A round that changes the agent's state.
  advance :
      (n : ℕ) (reset : Status) (s next : IceState) (a b c : IceAgent)
      → from_ice_agent_state s (outside n) a ≡ (next, b)
      → accepts next s ≡ true
      → execute_ice_agent_state step next (outside n) b ≡ (next, c)
      → succeeded c.status ≡ true
      → is_state a.state c.state ≡ false
      → ice_loop step (suc n) reset outside s a
        ≡ ice_loop step n reset outside next (notify c c.state)
  unfolding ice_loop ice_round
  advance n reset s next a b c asked allowed executed fine moves =
      rw (law.enters (outside n) s next a b asked allowed)
        (rw executed (rw (fine, and_false (not (is_state failed c.state))) (rw moves refl)))

  -- The last round: a ready agent that is not silent stays so.
  stays_ready :
      (n : ℕ) (reset : Status) (a : IceAgent)
      → (has_received a && leb (silent_from (outside n) a) (outside n).time) ≡ false
      → let b : IceAgent = record a {
        state = ready;
        status = success;
        detected_disconnection = false;
      } in
        ice_loop step (suc n) reset outside ready b
        ≡ some (record {
          ends = false;
          status = reset;
          machine_state = ready;
          agent = record b {
            local_candidates = free_shut_down (outside n) b b.local_candidates;
            start_time = 0;
          };
        })
  unfolding ice_loop ice_round from_ice_agent_state from_ready_ice_agent check_disconnection
      execute_ice_agent_state execute_ready_ice_agent
  stays_ready n reset a heard =
      let b : IceAgent = record a {
        state = ready;
        status = success;
        detected_disconnection = false;
      } in
      rw (law.enters (outside n) ready ready b b (rw heard refl) refl) refl

module _ (o : Outside) (works : IsWorking o) where
  connects :
      (a : IceAgent)
      → NoneNominated a.pairs
      → let b : IceAgent = record a { data_sending = none } in
        connected_state_setup o b ≡ (success, b)
  unfolding connected_state_setup
  connects a fresh = rw (works.timed, none_usable a.pairs fresh) refl

  connecting :
      (a : IceAgent)
      → NoneNominated a.pairs
      → let b : IceAgent = record a { data_sending = none } in
        execute_connected o b ≡ record b { state = connected }
  unfolding execute_connected
  connecting a fresh = rw (connects a fresh) refl

  nominates_setup :
      (a : IceAgent) (p : IceCandidatePair)
      → find_pair is_connected_pair a.pairs ≡ some p
      → let b : IceAgent = record a { is_controlling = true } in
        nominating_state_setup o b ≡ (
          success,
          record b {
            pairs = nominees_of a.pairs;
            state_end_time = from_now o a.nomination_timeout;
          },
        )
  unfolding nominating_state_setup
  nominates_setup a p found = rw (nominates a.pairs p found) (rw (works.freed, works.made) refl)

  sends_nomination :
      (a : IceAgent)
      → HasSockets a.candidates a.pairs
      → send_candidate_nomination o (record a { is_controlling = true })
        ≡ (success, record a { is_controlling = true })
  unfolding send_candidate_nomination
  sends_nomination a socket =
      rw (nomination_works o (ids a.pairs) a.pairs a.candidates works.prepared works.sends socket)
        refl

  -- A connected agent that nominates.
  nominating_works :
      (a : IceAgent) (p : IceCandidatePair)
      → find_pair is_connected_pair a.pairs ≡ some p
      → HasSockets a.candidates a.pairs
      → let b : IceAgent = record a { is_controlling = true; state = connected } in
        execute_nominating o b ≡ record b {
          state = nominating;
          pairs = nominees_of a.pairs;
          state_end_time = from_now o a.nomination_timeout;
        }
  unfolding execute_nominating
  nominating_works a p found socket =
      let c : IceAgent = record a {
        state = nominating;
        pairs = nominees_of a.pairs;
        state_end_time = from_now o a.nomination_timeout;
      } in
      rw (nominates_setup (record a { state = connected }) p found)
        (rw (sends_nomination c (nominees-HasSockets a.candidates a.pairs socket)) refl)

  -- The candidates that are left valid.
  abbrev left_valid : IceAgent → IceCandidatePair → ℕ → IceCandidate
  left_valid a p = (deselect o p.local a.local_candidates a.candidates).1

  -- The agent that sends with the pair `p`.
  abbrev sending_with : IceAgent → IceCandidatePair → IceAgent
  sending_with a p = record a {
    data_sending = some (sending_of p);
    stop_gathering = true;
    state_end_time = invalid_timestamp;
    candidates = left_valid a p;
    pairs = free_failed (invalidate_candidate_pair (left_valid a p) a.pairs);
  }

  keeps :
      (a : IceAgent) (p : IceCandidatePair)
      → keep_selected o
          (sending_of p)
          (record a { data_sending = some (sending_of p); stop_gathering = true })
        ≡ (success, sending_with a p)
  unfolding keep_selected
  keeps a p =
      rw (ap succeeded works.named)
        (rw (deselect_works o p.local a.local_candidates a.candidates works.shut_down) refl)

  selects :
      (a : IceAgent) (p : IceCandidatePair)
      → find_pair is_usable a.pairs ≡ some p
      → let b : IceAgent = record a { data_sending = none } in
        ready_state_setup o b ≡ (success, sending_with b p)
  unfolding ready_state_setup select_ready
  selects a p usable =
      let b : IceAgent = record a { data_sending = none } in
      rw (ap succeeded works.updated, usable) (rw (keeps b p) refl)

  -- A nominating agent that becomes ready.
  readies :
      (a : IceAgent) (p : IceCandidatePair)
      → find_pair is_usable a.pairs ≡ some p
      → let b : IceAgent = record a { data_sending = none; state = nominating } in
        let c : IceAgent = record (sending_with b p) { state = ready } in
        execute_ready_ice_agent o b
        ≡ record c { local_candidates = free_shut_down o c c.local_candidates; start_time = 0 }
  unfolding execute_ready_ice_agent
  readies a p usable = rw (selects (record a { state = nominating }) p usable) refl

module _ (step : StepStateMachine) (law : IsStepStateMachine step) (outside : ℕ → Outside)
    (works : (n : ℕ) → IsWorking (outside n)) where
  -- An agent that controls and checks its pairs, in the order of their priorities, one of which is
  -- connected and none of which is nominated yet, becomes ready in one call of
  -- stepIceAgentStateMachine: four rounds are enough. In each round, which reads the clock anew, the
  -- calls outside succeed and every request leaves its socket; every pair has a local candidate with a
  -- socket, and the agent is not silent in the last round. It then sends with the connected pair that has the highest priority, and it has reported
  -- the connected, the nominating and the ready state, in this order.
  pub reaches_ready_state :
      (n : ℕ) (reset : Status) (a : IceAgent) (p : IceCandidatePair)
      → find_pair is_connected_pair a.pairs ≡ some p
      → IsOrdered a.pairs
      → NoneNominated a.pairs
      → HasSockets a.candidates a.pairs
      → (has_received a && leb (silent_from (outside n) a) (outside n).time) ≡ false
      → (b : IceAgent) × (ice_loop step
            (suc (suc (suc (suc n))))
            reset
            outside
            check_connection
            (checking a)
          ≡ some (record { ends = false; status = reset; machine_state = ready; agent = b }))
        × (b.state ≡ ready)
        × (b.status ≡ success)
        × (b.data_sending ≡ some (sending_of p))
        × (b.notified ≡ ready ∷ nominating ∷ connected ∷ a.notified)
        × ((q : IceCandidatePair)
            → IsIn q a.pairs
            → is_succeeded q.state ≡ true
            → q.priority ≤ p.priority)
  unfolding from_ice_agent_state from_check_connection from_connected from_nominating
      execute_ice_agent_state
  reaches_ready_state n reset a p found ordered fresh socket heard = (
    record c3 {
      local_candidates = free_shut_down (outside n) c3 c3.local_candidates;
      start_time = 0;
    },
    advance step law outside (suc (suc (suc n))) reset check_connection connected (checking a)
          (checking a) (record (checking a) { state = connected }) (rw found refl) refl
          (ap (λ b. (connected, b))
            (connecting (outside (suc (suc (suc n)))) (works (suc (suc (suc n)))) (checking a)
              fresh))
          refl refl
        ∙ advance step law outside (suc (suc n)) reset connected nominating c1 c1
            (record c2 { notified = connected ∷ a.notified }) refl refl
            (ap (λ b. (nominating, b))
              (nominating_works (outside (suc (suc n))) (works (suc (suc n))) c1 p found socket))
            refl refl
        ∙ advance step law outside (suc n) reset nominating ready c2 c2
            (record c3 { notified = nominating ∷ connected ∷ a.notified }) (rw usable refl) refl
            (ap (λ b. (ready, b))
              (readies (outside (suc n)) (works (suc n)) c2 (record p { nominated = true }) usable))
            refl refl
        ∙ stays_ready step law outside n reset c3 heard,
    refl,
    refl,
    refl,
    refl,
    λ q at_q is. found_highest a.pairs p q ordered found at_q is,
  )
    where
      usable : find_pair is_usable (nominees_of a.pairs) ≡ some (record p { nominated = true })
      usable = nominated_usable a.pairs p fresh found

      c1 : IceAgent
      c1 = record (checking a) { state = connected; notified = connected ∷ a.notified }

      c2 : IceAgent
      c2 = record c1 {
        state = nominating;
        pairs = nominees_of a.pairs;
        state_end_time = from_now (outside (suc (suc n))) a.nomination_timeout;
        notified = nominating ∷ connected ∷ a.notified;
      }

      sending : IceAgent
      sending =
          record (sending_with (outside (suc n)) (works (suc n)) c2
            (record p { nominated = true })) { state = ready }

      c3 : IceAgent
      c3 = record sending {
        local_candidates = free_shut_down (outside (suc n)) sending sending.local_candidates;
        start_time = 0;
        notified = ready ∷ nominating ∷ connected ∷ a.notified;
      }
