-- ===== src/IceAgent/Steps.antt =====
-- A step of the state machine of the ICE agent succeeds, and goes on in the order of the states.
use kvs_c.Base.{◌≤◌, ◌≡◌, ◌⊎◌, inl, inr, refl, sym, ap, ◌∙◌, true, false, arith, Bool-cases}
use kvs_c.Status.{success, succeeded}
use kvs_c.IceAgent.{
  IceState, new, check_connection, connected, nominating, ready, disconnected, failed, IceAgent,
  Outside, is_state, notify, from_now,
}
use kvs_c.IceAgent.Machine.{
  from_ice_agent_state, from_disconnected, StepStateMachine, IsStepStateMachine,
  execute_disconnected, execute_ice_agent_state, failed_grace_period, execute_check_connection,
  execute_connected, execute_nominating, execute_ready_ice_agent,
}
use kvs_c.IceAgent.Callbacks.{
  rank, home, IsAgentOf, from_ice_agent_state-IsNext, from_ice_agent_state_fails,
}
use kvs_c.IceAgent.Execution.{
  Entered, execute_check_connection-Entered, execute_connected-Entered, execute_nominating-Entered,
  execute_ready_ice_agent-Entered,
}

-- What a step leaves, from the state `s` of the machine and the agent `a`: the machine is in a later
-- state, or it stays and so does the agent's state.
pub record IsStepped (s : IceState) (a : IceAgent) (s' : IceState) (b : IceAgent) : Type 0 where
  pub agent : IsAgentOf s' b
  pub left : is_state new s' ≡ false
  pub back : is_state disconnected s' ≡ false
  pub onward : rank s ≤ rank s'
  pub stays : rank s' ≡ rank s → b.state ≡ a.state

-- The step into a state that is neither the first, nor the disconnected, nor the failed one.
entered-IsStepped :
    (s next : IceState) (a b : IceAgent)
    → home next ≡ next
    → is_state new next ≡ false
    → is_state disconnected next ≡ false
    → is_state failed next ≡ false
    → rank s ≤ rank next
    → (rank next ≡ rank s → a.state ≡ next)
    → Entered next a b
    → IsStepped s a next b
entered-IsStepped s next a b at_home n d f up same (moves, there) = record {
  agent = record { settled = λ ok _. there ok ∙ sym at_home; over = λ e. absurd (wrong f e) };
  left = n;
  back = d;
  onward = up;
  stays = λ r. elim moves [ inl e ↦ e | inr e ↦ e ∙ sym (same r) ];
}
  where
    wrong : {t : IceState} → is_state failed t ≡ false → t ≡ failed → ⊥
    wrong h e = cc (h, e)

over_rank : (s : IceState) → rank failed ≡ rank s → s ≡ failed
over_rank s e = ground (arith, e)

pub failed-IsStepped :
    (s : IceState) (a b : IceAgent) → IsAgentOf s a → b.state ≡ failed → IsStepped s a failed b
failed-IsStepped s a b h e = record {
  agent = record { settled = λ _ _. e; over = λ _. e };
  left = refl;
  back = refl;
  onward = below s;
  stays = λ r. e ∙ sym (h.over (over_rank s r));
}
  where
    below : (t : IceState) → rank t ≤ rank failed
    below t = ground arith

-- The three answers of a callback, by the state `next` that it asks for.
abbrev Answer : (s next : IceState) → IceAgent → Type 0
Answer s next a =
    (next ≡ failed)
    ⊎ (((is_state disconnected next ≡ false) × (is_state new next ≡ false))
        × (rank s ≤ rank next)
        × (rank next ≡ rank s → a.state ≡ next))
    ⊎ ((next ≡ disconnected) × (s ≡ ready) × (a.state ≡ ready))

-- The agent that executeDisconnectedIceAgentState steps the machine with.
abbrev disconnecting : Outside → IceAgent → IceAgent
disconnecting o a =
    notify
      (record a {
        detected_disconnection = true;
        grace_period_end_time = from_now o (failed_grace_period o);
      })
      disconnected

disconnecting-state : (o : Outside) (a : IceAgent) → (disconnecting o a).state ≡ a.state
disconnecting-state o a = ground arith

moved_along : (s : IceState) (a b c : IceAgent) → b.state ≡ a.state → Entered s b c → Entered s a c
moved_along s a b c e (inl m, there) = (inl (m ∙ e), there)
moved_along s a b c e (inr m, there) = (inr m, there)

module _ (step : StepStateMachine) (law : IsStepStateMachine step) where
  -- The step out of the disconnected state goes to the ready state, or fails.
  out_of_disconnected :
      (o : Outside) (a : IceAgent)
      → a.state ≡ ready
      → (s' : IceState) × (b : IceAgent) × (step o disconnected a ≡ (success, s', b))
        × (((s' ≡ ready) × Entered ready a b) ⊎ ((s' ≡ failed) × (b.state ≡ failed)))
  unfolding from_ice_agent_state from_disconnected execute_ice_agent_state
  out_of_disconnected o a at_ready = elim (Bool-cases (succeeded a.status)) [
    | inl ok ↦ (
      ready,
      execute_ready_ice_agent o a,
      law.enters o disconnected ready a a (rw ok (ap (λ s. (s, a)) at_ready)) refl,
      inl (refl, execute_ready_ice_agent-Entered o a),
    )
    | inr bad ↦ (
      failed,
      record a { state = failed },
      law.enters o disconnected failed a a (rw bad refl) refl,
      inr (refl, refl),
    )
  ]

  -- A state that is neither the failed nor the disconnected one.
  into_next :
      (o : Outside) (s next : IceState) (a b : IceAgent)
      → IsAgentOf s a
      → b.state ≡ a.state
      → is_state disconnected next ≡ false
      → is_state new next ≡ false
      → rank s ≤ rank next
      → (rank next ≡ rank s → a.state ≡ next)
      → let r = execute_ice_agent_state step next o b in IsStepped s a r.0 r.1
  unfolding execute_ice_agent_state
  into_next o s failed a b h e d n up same =
      failed-IsStepped s a (record b { state = failed }) h refl
  into_next o s disconnected a b h e d n up same = cc d
  into_next o s new a b h e d n up same = cc n
  into_next o s check_connection a b h e d n up same =
      entered-IsStepped s check_connection a (execute_check_connection o b) refl refl refl refl up
        same
        (moved_along check_connection a b (execute_check_connection o b) e
          (execute_check_connection-Entered o b))
  into_next o s connected a b h e d n up same =
      entered-IsStepped s connected a (execute_connected o b) refl refl refl refl up same
        (moved_along connected a b (execute_connected o b) e (execute_connected-Entered o b))
  into_next o s nominating a b h e d n up same =
      entered-IsStepped s nominating a (execute_nominating o b) refl refl refl refl up same
        (moved_along nominating a b (execute_nominating o b) e (execute_nominating-Entered o b))
  into_next o s ready a b h e d n up same =
      entered-IsStepped s ready a (execute_ready_ice_agent o b) refl refl refl refl up same (
        moved_along ready a b (execute_ready_ice_agent o b) e (execute_ready_ice_agent-Entered o b))

  -- The disconnected state.
  into_disconnected :
      (o : Outside) (a b : IceAgent)
      → IsAgentOf ready a
      → b.state ≡ a.state
      → a.state ≡ ready
      → let r = execute_ice_agent_state step disconnected o b in IsStepped ready a r.0 r.1
  unfolding execute_ice_agent_state execute_disconnected
  into_disconnected o a b h e at_ready =
      let connected_yet : is_state disconnected b.state ≡ false =
        ap (is_state disconnected) (e ∙ at_ready) in
      let c : IceAgent = disconnecting o b in
      let (s', d, stepped, where_to) =
        out_of_disconnected o c (disconnecting-state o b ∙ e ∙ at_ready) in
      rw connected_yet (
        rw stepped (elim where_to [
          | inl (is, entered) ↦ rw is (
              entered-IsStepped ready ready a d refl refl refl refl (omega arith) (λ _. at_ready)
                (moved_along ready a c d (disconnecting-state o b ∙ e) entered))
          | inr (is, over) ↦ rw is (failed-IsStepped ready a d h over)
        ]))

  -- What a state executes, when a callback has asked for it.
  step_into :
      (o : Outside) (s next : IceState) (a b : IceAgent)
      → IsAgentOf s a
      → b.state ≡ a.state
      → Answer s next a
      → let r = execute_ice_agent_state step next o b in IsStepped s a r.0 r.1
  unfolding execute_ice_agent_state
  step_into o s next a b h e (inl over) =
      rw over (failed-IsStepped s a (record b { state = failed }) h refl)
  step_into o s next a b h e (inr (inl ((d, n), up, same))) = into_next o s next a b h e d n up same
  step_into o s next a b h e (inr (inr (is, at_s, at_a))) =
      rw (is, at_s) (into_disconnected o a b (rw at_s at h) e at_a)

  -- A step does not fail, and goes on.
  pub steps :
      (o : Outside) (s : IceState) (a : IceAgent)
      → IsAgentOf s a
      → (s' : IceState) × (b : IceAgent) × (step o s a ≡ (success, s', b)) × IsStepped s a s' b
  steps o s a h =
      let (allowed, same, answer) = from_ice_agent_state-IsNext s o a h in
      let asked = from_ice_agent_state s o a in
      let r = execute_ice_agent_state step asked.0 o asked.1 in
      (
        r.0,
        r.1,
        law.enters o s asked.0 a asked.1 refl allowed,
        step_into o s asked.0 a asked.1 h same answer,
      )

  -- A step of an agent with an error goes to the failed state.
  pub step_fails :
      (o : Outside) (s : IceState) (a : IceAgent)
      → IsAgentOf s a
      → is_state new s ≡ false
      → succeeded a.status ≡ false
      → (b : IceAgent) × (step o s a ≡ (success, failed, b)) × (b.state ≡ failed)
  unfolding execute_ice_agent_state
  step_fails o s a h old bad =
      let asked = from_ice_agent_state s o a in
      let over = from_ice_agent_state_fails s o a old bad in
      let allowed = (from_ice_agent_state-IsNext s o a h).0 in
      (
        record asked.1 { state = failed },
        law.enters o s failed a asked.1 (ap (λ t. (t, asked.1)) over) (rw over at allowed),
        refl,
      )
