-- ===== src/IceAgent/Rounds.antt =====
-- A call of stepIceAgentStateMachine ends, and leaves no error of the agent unanswered.
use kvs_c.Base.{
  ℕ, zero, suc, ◌+◌, ◌≤◌, ◌<◌, ◌≡◌, ◌⊎◌, inl, inr, refl, Bool, true, false, not, ◌&&◌, some, ◌∷◌,
  arith, Bool-cases, if◌then◌else◌,
}
use kvs_c.Status.{Status, success, succeeded}
use kvs_c.IceAgent.{IceState, failed, IceAgent, Outside, is_state, notify}
use kvs_c.IceAgent.Machine.{StepStateMachine, IsStepStateMachine, Round, ice_round, ice_loop}
use kvs_c.IceAgent.Callbacks.{rank, IsAgentOf}
use kvs_c.IceAgent.Steps.{IsStepped, failed-IsStepped, steps, step_fails}

-- An agent with an error is in the failed state.
abbrev pub IsAnswered : IceAgent → Type 0
IsAnswered a = (a.state ≡ failed) ⊎ (succeeded a.status ≡ true)

-- A round that does not end by an error.
abbrev quiet_round : IceState → IceAgent → Round
quiet_round s a = record { ends = false; status = success; machine_state = s; agent = a }

is_failed-eq : (s : IceState) → is_state failed s ≡ true → s ≡ failed
is_failed-eq s e = ground (arith, e)

not_stays : (x y : Bool) → (x ≡ true) ⊎ (y ≡ true) → (not x && not y) ≡ false
not_stays x y h = ground (arith, h)

IsAnswered-cases :
    (a : IceAgent)
    → IsAnswered a ⊎ ((is_state failed a.state ≡ false) × (succeeded a.status ≡ false))
IsAnswered-cases a = elim (Bool-cases (is_state failed a.state)) [
  | inl over ↦ inl (inl (is_failed-eq a.state over))
  | inr live ↦ elim (Bool-cases (succeeded a.status)) [
    | inl ok ↦ inl (inr ok)
    | inr bad ↦ inr (live, bad)
  ]
]

answered_test :
    (a : IceAgent)
    → IsAnswered a
    → (not (is_state failed a.state) && not (succeeded a.status)) ≡ false
answered_test a (inl e) =
    not_stays (is_state failed a.state) (succeeded a.status) (inl (ground (arith, e)))
answered_test a (inr e) = not_stays (is_state failed a.state) (succeeded a.status) (inr e)

rank_bound : (s : IceState) → rank s ≤ 6
rank_bound s = ground arith

same_state : (s t : IceState) → s ≡ t → is_state t s ≡ true
same_state s t e = rw e (itself t)
  where
    itself : (u : IceState) → is_state u u ≡ true
    itself u = ground arith

notify-IsAgentOf : (s t : IceState) (a : IceAgent) → IsAgentOf s a → IsAgentOf s (notify a t)
notify-IsAgentOf s t a h = noted a.has_callback
  where
    noted : (b : Bool) → IsAgentOf s (if b then record a { notified = t ∷ a.notified } else a)
    noted true = record { settled = h.settled; over = h.over }
    noted false = h

lt_of_ne : (m n : ℕ) → m ≤ n → (n ≡ m → ⊥) → m < n
lt_of_ne m n h ne = omega arith

module _ (step : StepStateMachine) (law : IsStepStateMachine step) where
  -- A round ends without an error, and the agent is in the failed state when it has one.
  rounds :
      (o : Outside) (s : IceState) (a : IceAgent)
      → IsAgentOf s a
      → (s' : IceState) × (b : IceAgent) × (ice_round step o s a ≡ quiet_round s' b)
        × IsStepped s a s' b
        × IsAnswered b
  unfolding ice_round
  rounds o s a h =
      let (s', b, stepped, gone) = steps step law o s a h in
      elim (IsAnswered-cases b) [
        | inl answered ↦ (s', b, rw stepped (rw (answered_test b answered) refl), gone, answered)
        | inr (live, bad) ↦
            let (c, forced, over) = step_fails step law o s' b gone.agent gone.left bad in
            (
              failed,
              c,
              rw stepped (rw (live, bad) (rw forced refl)),
              failed-IsStepped s a c h over,
              inl over,
            )
      ]

  -- stepIceAgentStateMachine ends within seven rounds less those of the states that the machine has
  -- passed, whatever the calls outside give in each round. It never returns an error of the machine, but
  -- the status of resetStateMachineRetryCount; and it leaves an agent without an error, or in the failed
  -- state: no error of a callback, of an entry or of a time limit is left unanswered.
  pub ice_loop-ends :
      (fuel : ℕ) (reset : Status) (outside : ℕ → Outside) (s : IceState) (a : IceAgent)
      → IsAgentOf s a
      → 6 < rank s + fuel
      → (r : Round) × (ice_loop step fuel reset outside s a ≡ some r)
        × (r.ends ≡ false)
        × (r.status ≡ reset)
        × IsAgentOf r.machine_state r.agent
        × IsAnswered r.agent
  unfolding ice_loop
  ice_loop-ends zero reset outside s a h enough = absurd (omega (arith, rank_bound s))
  ice_loop-ends (suc fuel) reset outside s a h enough =
      let (s', b, ran, gone, answered) = rounds (outside fuel) s a h in
      elim (Bool-cases (is_state a.state b.state)) [
        | inl same ↦ (
          record (quiet_round s' b) { status = reset },
          rw ran (rw same refl),
          refl,
          refl,
          gone.agent,
          answered,
        )
        | inr moved ↦
            let further : rank s < rank s' =
              lt_of_ne (rank s) (rank s') gone.onward
                (λ e. cc (moved, same_state b.state a.state (gone.stays e))) in
            let (r, returned, error, status, agent, fine) =
              ice_loop-ends fuel reset outside s' (notify b b.state)
                (notify-IsAgentOf s' b.state b gone.agent) (omega arith) in
            (r, rw ran (rw moved returned), error, status, agent, fine)
      ]
