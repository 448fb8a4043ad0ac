-- ===== src/Turn/Accepts.antt =====
-- The transitions that the callbacks of TurnConnectionStateMachine.c ask for.
use kvs_c.Base.{◌≡◌, refl, Bool, true, false, not, ◌||◌, some, arith, ltb, ◌==◌, if◌then◌else◌}
use kvs_c.Status.{succeeded}
use kvs_c.Turn.{
  TurnState, new, check_socket_connection, get_credentials, allocation, create_permission,
  bind_channel, ready, clean_up, failed, TurnConnection, Outside, Next, is_state, is_over, accepts,
  from_state, from_check_socket_connection, from_get_credentials, from_allocation,
  from_create_permission, from_bind_channel, from_ready, from_clean_up, from_failed,
}
use kvs_c.Turn.Execute.{
  execute_state, execute_check_socket_connection, execute_get_credentials, execute_allocation,
  execute_create_permission, execute_bind_channel, execute_ready, execute_clean_up,
}

-- What is wanted of a callback in the state `s`.
abbrev IsAccepted : TurnState → TurnConnection → Next → Type 0
IsAccepted s c r =
    (next : TurnState) → r.1 ≡ some next → (accepts next s ≡ true) × (r.2.state ≡ c.state)

if-IsAccepted :
    {s : TurnState} (b : Bool) (c : TurnConnection) (x y : Next)
    → (b ≡ true → IsAccepted s c x)
    → IsAccepted s c y
    → IsAccepted s c (if b then x else y)
if-IsAccepted true c x y hx hy = hx refl
if-IsAccepted false c x y hx hy = hy

over-accepts :
    (s next : TurnState) → is_over s ≡ true → some s ≡ some next → accepts next ready ≡ true
over-accepts s next over e = ground (arith, e, over)

from_ready-IsAccepted : (o : Outside) (c : TurnConnection) → IsAccepted ready c (from_ready o c)
unfolding from_ready
from_ready-IsAccepted o c =
    if-IsAccepted (is_over c.state) c _ _ (λ over next e. (over-accepts c.state next over e, refl))
      (if-IsAccepted (not (succeeded o.refresh_permission.0)) c _ _ (λ b next e. absurd (cc e))
        (if-IsAccepted o.refresh_permission.1 c _ _
          (λ b.
            if-IsAccepted (succeeded o.update_timer) c _ _ (λ ok next e. (ground (arith, e), refl))
              (λ next e. absurd (cc e)))
          (if-IsAccepted (not (c.current_timer_calling_period == o.second)) c _ _
            (λ b.
              if-IsAccepted (succeeded o.update_timer) c _ _
                (λ ok next e. (ground (arith, e), refl)) (λ next e. absurd (cc e)))
            (λ next e. (ground (arith, e), refl)))))

failed-accepts :
    (s next : TurnState)
    → is_state failed s ≡ true
    → some s ≡ some next
    → accepts next clean_up ≡ true
failed-accepts s next is_failed e = ground (arith, e, is_failed)

ends-accepts :
    (b : Bool) (next : TurnState)
    → some (if b then clean_up else failed) ≡ some next
    → accepts next clean_up ≡ true
ends-accepts true next e = ground (arith, e)
ends-accepts false next e = ground (arith, e)

from_clean_up-IsAccepted :
    (o : Outside) (c : TurnConnection) → IsAccepted clean_up c (from_clean_up o c)
unfolding from_clean_up
from_clean_up-IsAccepted o c =
    if-IsAccepted (is_state failed c.state) c _ _
      (λ f next e. (failed-accepts c.state next f e, refl))
      (if-IsAccepted (o.is_closed || (not c.has_allocation || ltb c.state_timeout_time o.time)) c _
        _
        (λ b.
          if-IsAccepted (not (succeeded o.free_packets)) c _ _ (λ b next e. absurd (cc e))
            (if-IsAccepted (not (succeeded o.close_socket)) c _ _ (λ b next e. absurd (cc e))
              (λ next e. (ends-accepts (succeeded c.error_status) next e, refl))))
        (λ next e. (ground (arith, e), refl)))

-- The next state that a callback asks for is one that is entered from the present state, so that the
-- machine refuses no transition, whatever the state of the connection and the calls outside are; and
-- a callback does not change the connection's own state.
from_state-accepts :
    (s next : TurnState) (o : Outside) (c : TurnConnection)
    → (from_state s o c).1 ≡ some next
    → (accepts next s ≡ true) × ((from_state s o c).2.state ≡ c.state)
unfolding from_state from_check_socket_connection from_get_credentials from_allocation
    from_create_permission from_bind_channel from_ready from_clean_up from_failed
from_state-accepts new next o c e = ground (arith, e)
from_state-accepts check_socket_connection next o c e = ground (arith, e)
from_state-accepts get_credentials next o c e = ground (arith, e)
from_state-accepts allocation next o c e = ground (arith, e)
from_state-accepts create_permission next o c e = ground (arith, e)
from_state-accepts bind_channel next o c e = ground (arith, e)
from_state-accepts ready next o c e = from_ready-IsAccepted o c next e
from_state-accepts clean_up next o c e = from_clean_up-IsAccepted o c next e
from_state-accepts failed next o c e = ground (arith, e)

-- What a state executes leaves the connection in that state when it succeeds.
execute_state-state :
    (s : TurnState) (o : Outside) (c : TurnConnection)
    → succeeded (execute_state s o c).0 ≡ true
    → (execute_state s o c).1.state ≡ s
unfolding execute_state execute_check_socket_connection execute_get_credentials execute_allocation
    execute_create_permission execute_bind_channel execute_ready execute_clean_up
execute_state-state new o c e = refl
execute_state-state check_socket_connection o c e = ground (arith, e)
execute_state-state get_credentials o c e = ground (arith, e)
execute_state-state allocation o c e = ground (arith, e)
execute_state-state create_permission o c e = ground (arith, e)
execute_state-state bind_channel o c e = refl
execute_state-state ready o c e = refl
execute_state-state clean_up o c e = ground (arith, e)
execute_state-state failed o c e = refl
