-- ===== src/IceAgent/Callbacks.antt =====
-- What the callbacks of IceAgentStateMachine.c ask for.
use kvs_c.Base.{
  ℕ, ◌≤◌, ◌≡◌, ◌⊎◌, inl, inr, refl, Bool, true, false, not, ◌&&◌, arith, leb, ltb, if◌then◌else◌,
}
use kvs_c.Status.{Status, succeeded}
use kvs_c.IceAgent.{
  IceState, new, check_connection, connected, nominating, ready, disconnected, failed, IceAgent,
  Outside, is_state, notify,
}
use kvs_c.IceAgent.Setup.{is_connected_pair, is_usable, find_pair, is_some}
use kvs_c.IceAgent.Machine.{
  accepts, Next, ask, from_check_connection, from_connected, from_nominating, check_disconnection,
  has_received, silent_from, from_ready_ice_agent, from_disconnected, from_ice_agent_state,
}

-- The order in which an agent goes through the states; out of the disconnected state it goes back.
abbrev pub rank : IceState → ℕ
rank new = 1
rank check_connection = 2
rank connected = 3
rank nominating = 4
rank ready = 5
rank disconnected = 5
rank failed = 6

-- The state of the agent while the machine is in a state.
abbrev pub home : IceState → IceState
home disconnected = ready
home s = s

-- An agent without an error is in the state that the machine is in, once it has left the first one;
-- where the machine has failed, so has the agent.
pub record IsAgentOf (s : IceState) (a : IceAgent) : Type 0 where
  pub settled : succeeded a.status ≡ true → is_state new s ≡ false → a.state ≡ home s
  pub over : s ≡ failed → a.state ≡ failed

-- A callback asks for the failed state; for a later state, or to stay in the one that the agent is in;
-- or, from the ready state, for the disconnected one.
abbrev pub IsNext : IceState → IceAgent → Next → Type 0
IsNext s a (next, b) =
    (accepts next s ≡ true)
    × (b.state ≡ a.state)
    × ((next ≡ failed)
        ⊎ (((is_state disconnected next ≡ false) × (is_state new next ≡ false))
            × (rank s ≤ rank next)
            × (rank next ≡ rank s → a.state ≡ next))
        ⊎ ((next ≡ disconnected) × (s ≡ ready) × (a.state ≡ ready)))

if-IsNext :
    (s : IceState) (a : IceAgent) (b : Bool) (x y : Next)
    → (b ≡ true → IsNext s a x)
    → (b ≡ false → IsNext s a y)
    → IsNext s a (if b then x else y)
if-IsNext s a true x y hx hy = hx refl
if-IsNext s a false x y hx hy = hy refl

-- An agent with an error goes to the failed state.
erring :
    (s t : IceState) (a : IceAgent) (status : Status)
    → succeeded status ≡ false
    → accepts failed s ≡ true
    → IsNext s a (ask status t a)
erring s t a status e ok = rw e (ok, refl, inl refl)

opposite_true : (b : Bool) → not b ≡ true → b ≡ false
opposite_true true h = cc h
opposite_true false h = refl

opposite_false : (b : Bool) → not b ≡ false → b ≡ true
opposite_false true h = refl
opposite_false false h = cc h

from_check_connection-IsNext :
    (o : Outside) (a : IceAgent)
    → IsAgentOf check_connection a
    → IsNext check_connection a (from_check_connection o a)
unfolding from_check_connection
from_check_connection-IsNext o a h =
    if-IsNext check_connection a (not (succeeded a.status)) _ _
      (λ e. erring check_connection check_connection a a.status (opposite_true _ e) refl)
      λ ok.
        if-IsNext check_connection a (is_some (find_pair is_connected_pair a.pairs)) _ _
          (λ e. (refl, refl, inr (inl ((refl, refl), omega arith, λ r. absurd (omega (arith, r))))))
          λ none.
            if-IsNext check_connection a (leb a.state_end_time o.time) _ _
              (λ e. (refl, refl, inl refl))
              λ e. (
                refl,
                refl,
                inr (inl ((refl, refl), omega arith, λ r. h.settled (opposite_false _ ok) refl)),
              )

from_connected-IsNext :
    (o : Outside) (a : IceAgent) → IsAgentOf connected a → IsNext connected a (from_connected o a)
unfolding from_connected
from_connected-IsNext o a h =
    if-IsNext connected a (not (succeeded a.status)) _ _
      (λ e. erring connected connected a a.status (opposite_true _ e) refl)
      λ ok. (refl, refl, inr (inl ((refl, refl), omega arith, λ r. absurd (omega (arith, r)))))

from_nominating-IsNext :
    (o : Outside) (a : IceAgent)
    → IsAgentOf nominating a
    → IsNext nominating a (from_nominating o a)
unfolding from_nominating
from_nominating-IsNext o a h =
    if-IsNext nominating a (not (succeeded a.status)) _ _
      (λ e. erring nominating nominating a a.status (opposite_true _ e) refl)
      λ ok.
        if-IsNext nominating a (is_some (find_pair is_usable a.pairs)) _ _
          (λ e. (refl, refl, inr (inl ((refl, refl), omega arith, λ r. absurd (omega (arith, r))))))
          λ none.
            if-IsNext nominating a (leb a.state_end_time o.time) _ _ (λ e. (refl, refl, inl refl))
              λ e. (
                refl,
                refl,
                inr (inl ((refl, refl), omega arith, λ r. h.settled (opposite_false _ ok) refl)),
              )

-- What the test of the connection gives, for an agent in the ready state.
abbrev IsChecked : IceAgent → Status × IceState × IceAgent → Type 0
IsChecked a (status, s, b) = IsNext ready a (ask status s b)

if-IsChecked :
    (a : IceAgent) (b : Bool) (x y : Status × IceState × IceAgent)
    → IsChecked a x
    → IsChecked a y
    → IsChecked a (if b then x else y)
if-IsChecked a true x y hx hy = hx
if-IsChecked a false x y hx hy = hy

notify-state : (a : IceAgent) (s : IceState) → (notify a s).state ≡ a.state
notify-state a s = ground arith

check_disconnection-IsChecked :
    (o : Outside) (a : IceAgent) → a.state ≡ ready → IsChecked a (check_disconnection o ready a)
unfolding check_disconnection
check_disconnection-IsChecked o a at_ready =
    if-IsChecked a
      (not a.detected_disconnection && (has_received a && leb (silent_from o a) o.time)) _ _
      (refl, refl, inr (inr (refl, refl, at_ready)))
      (if-IsChecked a a.detected_disconnection _ _
        (if-IsChecked a (has_received a && ltb o.time (silent_from o a)) _ _
          (refl, notify-state (record a { detected_disconnection = false }) a.state, stays)
          (if-IsChecked a (leb a.grace_period_end_time o.time) _ _ (refl, refl, inl refl)
            (refl, refl, stays)))
        (refl, refl, stays))
  where
    stays :
        (ready ≡ failed)
        ⊎ (((is_state disconnected ready ≡ false) × (is_state new ready ≡ false))
            × (rank ready ≤ rank ready)
            × (rank ready ≡ rank ready → a.state ≡ ready))
        ⊎ ((ready ≡ disconnected) × (ready ≡ ready) × (a.state ≡ ready))
    stays = inr (inl ((refl, refl), omega arith, λ r. at_ready))

from_ready_ice_agent-IsNext :
    (o : Outside) (a : IceAgent) → IsAgentOf ready a → IsNext ready a (from_ready_ice_agent o a)
unfolding from_ready_ice_agent
from_ready_ice_agent-IsNext o a h =
    if-IsNext ready a (not (succeeded a.status)) _ _
      (λ e. erring ready ready a a.status (opposite_true _ e) refl)
      λ ok. check_disconnection-IsChecked o a (h.settled (opposite_false _ ok) refl)

from_disconnected-IsNext :
    (o : Outside) (a : IceAgent)
    → IsAgentOf disconnected a
    → IsNext disconnected a (from_disconnected o a)
unfolding from_disconnected
from_disconnected-IsNext o a h =
    if-IsNext disconnected a (succeeded a.status) _ _
      (λ ok.
        let at_ready : a.state ≡ ready = h.settled ok refl in
        rw at_ready (refl, refl, inr (inl ((refl, refl), omega arith, λ r. refl))))
      (λ e. (refl, refl, inl refl))

-- The state that a callback asks for is entered from the present one, whatever the calls outside are, so
-- that the machine never refuses it; the callback leaves the agent's own state; and it asks for the
-- failed state, for a state that is not an earlier one and is the agent's own when it stays, or, from
-- the ready state, for the disconnected one.
pub from_ice_agent_state-IsNext :
    (s : IceState) (o : Outside) (a : IceAgent)
    → IsAgentOf s a
    → IsNext s a (from_ice_agent_state s o a)
unfolding from_ice_agent_state
from_ice_agent_state-IsNext new o a h =
    (refl, refl, inr (inl ((refl, refl), omega arith, λ r. absurd (omega (arith, r)))))
from_ice_agent_state-IsNext check_connection o a h = from_check_connection-IsNext o a h
from_ice_agent_state-IsNext connected o a h = from_connected-IsNext o a h
from_ice_agent_state-IsNext nominating o a h = from_nominating-IsNext o a h
from_ice_agent_state-IsNext ready o a h = from_ready_ice_agent-IsNext o a h
from_ice_agent_state-IsNext disconnected o a h = from_disconnected-IsNext o a h
from_ice_agent_state-IsNext failed o a h = (refl, refl, inl refl)

-- A callback asks for the failed state as soon as the agent has an error, but in the first state.
pub from_ice_agent_state_fails :
    (s : IceState) (o : Outside) (a : IceAgent)
    → is_state new s ≡ false
    → succeeded a.status ≡ false
    → (from_ice_agent_state s o a).0 ≡ failed
unfolding from_ice_agent_state from_check_connection from_connected from_nominating
    from_ready_ice_agent from_disconnected
from_ice_agent_state_fails new o a n e = cc n
from_ice_agent_state_fails check_connection o a n e = rw e refl
from_ice_agent_state_fails connected o a n e = rw e refl
from_ice_agent_state_fails nominating o a n e = rw e refl
from_ice_agent_state_fails ready o a n e = rw e refl
from_ice_agent_state_fails disconnected o a n e = rw e refl
from_ice_agent_state_fails failed o a n e = refl
