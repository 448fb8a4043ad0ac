-- ===== src/IceAgent/Silence.antt =====
-- What becomes of a ready agent that receives nothing more.
use kvs_c.Base.{ℕ, suc, ◌≤◌, ◌≡◌, ◌≢◌, refl, true, false, not, some, ◌∷◌, arith, leb, ltb, ◌==◌}
use kvs_c.Status.{Status, success, ice_failed_to_recover_from_disconnection}
use kvs_c.IceAgent.{ready, disconnected, failed, IceAgent, Outside, invalid_timestamp, from_now}
use kvs_c.IceAgent.Machine.{
  StepStateMachine, IsStepStateMachine, check_disconnection, from_ready_ice_agent,
  from_disconnected, from_ice_agent_state, silent_from, failed_grace_period, free_shut_down,
  execute_ready_ice_agent, execute_disconnected, execute_ice_agent_state, ice_round, ice_loop,
}

le→leb : (a b : ℕ) → a ≤ b → leb a b ≡ true
le→leb a b h = ground arith

le→not_ltb : (a b : ℕ) → a ≤ b → ltb b a ≡ false
le→not_ltb a b h = ground arith

ne→not_eq : (a b : ℕ) → a ≢ b → not (a == b) ≡ true
ne→not_eq a b h = ground (arith, h)

-- An agent that is ready, and of which no disconnection is detected.
abbrev pub at_ready : IceAgent → IceAgent
at_ready a = record a {
  state = ready;
  status = success;
  detected_disconnection = false;
  has_callback = true;
}

-- The agent after the disconnection is reported.
abbrev pub disconnected_at : Outside → IceAgent → IceAgent
disconnected_at o a =
    let b : IceAgent = record (at_ready a) {
      detected_disconnection = true;
      grace_period_end_time = from_now o (failed_grace_period o);
      notified = disconnected ∷ a.notified;
    } in
    record b { local_candidates = free_shut_down o b b.local_candidates; start_time = 0 }

-- The agent after its failure is reported.
abbrev pub lost_at : Outside → IceAgent → IceAgent
lost_at o a = record (disconnected_at o a) {
  state = failed;
  status = ice_failed_to_recover_from_disconnection;
  notified = failed ∷ disconnected ∷ a.notified;
}

module _ (step : StepStateMachine) (law : IsStepStateMachine step) where
  falls_silent :
      (n : ℕ) (reset : Status) (o : Outside) (a : IceAgent)
      → a.last_data_received_time ≢ invalid_timestamp
      → silent_from o a ≤ o.time
      → ice_loop step (suc n) reset (λ _. o) ready (at_ready a)
        ≡ some (record {
          ends = false;
          status = reset;
          machine_state = ready;
          agent = disconnected_at o a;
        })
  unfolding ice_loop ice_round from_ice_agent_state from_ready_ice_agent from_disconnected
      check_disconnection execute_ice_agent_state execute_disconnected execute_ready_ice_agent
  falls_silent n reset o a received silent =
      let heard = ne→not_eq a.last_data_received_time invalid_timestamp received in
      let late = le→leb (silent_from o a) o.time silent in
      let b : IceAgent = record (at_ready a) {
        detected_disconnection = true;
        grace_period_end_time = from_now o (failed_grace_period o);
        notified = disconnected ∷ a.notified;
      } in
      let inner = law.enters o disconnected ready b b refl refl in
      let outer =
        law.enters o ready disconnected (at_ready a) (at_ready a) (rw (heard, late) refl) refl in
      rw outer (rw inner refl)

  stays_silent :
      (n : ℕ) (reset : Status) (o o' : Outside) (a : IceAgent)
      → a.last_data_received_time ≢ invalid_timestamp
      → silent_from o' a ≤ o'.time
      → from_now o (failed_grace_period o) ≤ o'.time
      → ice_loop step (suc (suc n)) reset (λ _. o') ready (disconnected_at o a)
        ≡ some
            (record { ends = false; status = reset; machine_state = failed; agent = lost_at o a })
  unfolding ice_loop ice_round from_ice_agent_state from_ready_ice_agent check_disconnection
      execute_ice_agent_state
  stays_silent n reset o o' a received silent over =
      let heard = ne→not_eq a.last_data_received_time invalid_timestamp received in
      let late = le→not_ltb (silent_from o' a) o'.time silent in
      let ended = le→leb (from_now o (failed_grace_period o)) o'.time over in
      let b : IceAgent = disconnected_at o a in
      let c : IceAgent = record b { status = ice_failed_to_recover_from_disconnection } in
      let first = law.enters o' ready failed b c (rw (heard, late, ended) refl) refl in
      let second = law.enters o' failed failed (lost_at o a) (lost_at o a) refl refl in
      rw first (rw second refl)

  -- A ready agent that has received something, but nothing more for the grace period, reports in the next
  -- call of stepIceAgentStateMachine that it is disconnected, and stays ready to go on trying. A call at
  -- or after the end of the second grace period, when it still has received nothing, puts it in the
  -- failed state, with the error of a disconnection that it has not recovered from, and reports that:
  -- one report each, in this order. One round is enough for the first call and two for the second.
  pub silent_agent_fails :
      (n m : ℕ) (reset reset' : Status) (o o' : Outside) (a : IceAgent)
      → a.last_data_received_time ≢ invalid_timestamp
      → silent_from o a ≤ o.time
      → silent_from o' a ≤ o'.time
      → from_now o (failed_grace_period o) ≤ o'.time
      → (b : IceAgent) × (c : IceAgent) × (ice_loop step (suc n) reset (λ _. o) ready (at_ready a)
          ≡ some (record { ends = false; status = reset; machine_state = ready; agent = b }))
        × (b.state ≡ ready)
        × (b.notified ≡ disconnected ∷ a.notified)
        × (ice_loop step (suc (suc m)) reset' (λ _. o') ready b
            ≡ some (record { ends = false; status = reset'; machine_state = failed; agent = c }))
        × (c.state ≡ failed)
        × (c.status ≡ ice_failed_to_recover_from_disconnection)
        × (c.notified ≡ failed ∷ disconnected ∷ a.notified)
  silent_agent_fails n m reset reset' o o' a received silent silent' over = (
    disconnected_at o a,
    lost_at o a,
    falls_silent n reset o a received silent,
    refl,
    refl,
    stays_silent m reset' o o' a received silent' over,
    refl,
    refl,
    refl,
  )
