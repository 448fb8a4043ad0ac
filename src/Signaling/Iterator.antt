-- ===== src/Signaling/Iterator.antt =====
-- signalingStateMachineIterator of StateMachine.c. stepStateMachine is a function of another library: it
-- asks for the next state, tests that it is entered from the present one, counts the repetitions of a
-- state, and runs what the state executes.
use kvs_c.Base.{
  ℕ, zero, suc, ◌≡◌, ◌⊎◌, Bool, true, false, not, ◌&&◌, ◌||◌, Option, none, some, ltb, leb, ◌==◌,
  if◌then◌else◌,
}
use kvs_c.Status.{
  Status, success, signaling_invalid_ready_state, signaling_get_token_call_failed,
  signaling_describe_call_failed, signaling_describe_media_call_failed,
  signaling_create_call_failed, signaling_get_endpoint_call_failed,
  signaling_get_ice_config_call_failed, signaling_ready_callback_failed,
  signaling_connect_call_failed, signaling_connected_callback_failed,
  signaling_disconnected_callback_failed, signaling_delete_call_failed,
  signaling_join_session_call_failed, signaling_join_session_connected_failed,
  service_call_not_authorized_error, operation_timed_out, succeeded,
}
use kvs_c.Signaling.{SignalingState, not_authorized, SignalingClient, Outside, is_state, accepts}
use kvs_c.Signaling.Callbacks.{from_signaling_state}
use kvs_c.Signaling.Execute.{execute_signaling_state}

-- `stepStateMachine`: its status, the machine's state, and the client.
abbrev pub StepStateMachine : Type 0
StepStateMachine =
    Outside → SignalingState → SignalingClient → Status × SignalingState × SignalingClient

-- A step into a state that is entered from the present one executes it; or the step fails, for a state
-- that is not entered from it or that was repeated too often, and the state stays.
pub record IsStepStateMachine (step : StepStateMachine) : Type 0 where
  pub moves :
      (o : Outside) (s next : SignalingState) (c c' : SignalingClient)
      → from_signaling_state s o c ≡ (next, c')
      → ((accepts next s ≡ true)
          × (step o s c ≡ (
            (execute_signaling_state next o c').0,
            next,
            (execute_signaling_state next o c').1,
          )))
        ⊎ ((status : Status) × (succeeded status ≡ false) × (step o s c ≡ (status, s, c')))

-- The last column of SIGNALING_STATE_MACHINE_STATES: the statuses that are not tried again.
abbrev pub is_state_error : Status → Bool
is_state_error signaling_invalid_ready_state = true
is_state_error signaling_get_token_call_failed = true
is_state_error signaling_describe_call_failed = true
is_state_error signaling_describe_media_call_failed = true
is_state_error signaling_create_call_failed = true
is_state_error signaling_get_endpoint_call_failed = true
is_state_error signaling_get_ice_config_call_failed = true
is_state_error signaling_ready_callback_failed = true
is_state_error signaling_connect_call_failed = true
is_state_error signaling_connected_callback_failed = true
is_state_error signaling_disconnected_callback_failed = true
is_state_error signaling_delete_call_failed = true
is_state_error signaling_join_session_call_failed = true
is_state_error signaling_join_session_connected_failed = true
is_state_error _ = false

abbrev is_not_authorized : Status → Bool
is_not_authorized service_call_not_authorized_error = true
is_not_authorized _ = false

-- Whether the credentials, where there are some, have expired.
abbrev is_expired : Option ℕ → (time : ℕ) → Bool
is_expired none time = false
is_expired (some t) time = ltb t time

-- The result is set where the call was not authorized or the credentials have expired.
abbrev pub fix_up : Outside → Status → SignalingClient → SignalingClient
fix_up o status c =
    if is_not_authorized status || is_expired c.credentials_expiration o.time
    then record c { result = not_authorized }
    else c

-- What the loop returns: its status, the machine's state, and the client.
abbrev pub Iterated : Type 0
Iterated = Status × SignalingState × SignalingClient

module _ (step : StepStateMachine) (expiration : ℕ) (final : SignalingState) where
  -- signalingStateMachineIterator, from `retStatus` on; `none` is fuel that runs out.
  unfoldable pub iterator_loop :
      (fuel : ℕ) → (ℕ → Outside) → Status → SignalingState → SignalingClient → Option Iterated
  iterator_loop zero outside status s c = none
  iterator_loop (suc fuel) outside status s c =
      let o = outside fuel in
      let r = step o s (fix_up o status c) in
      let rest = iterator_loop fuel outside r.0 r.1 r.2 in
      if o.shutdown
      then some (status, s, c)
      else if not (succeeded status) && (not c.retry || is_state_error status)
      then some (status, s, c)
      else if not (expiration == 0 || leb o.time expiration)
      then some (operation_timed_out, s, c)
      else if is_state r.1 final
      then some (success, r.1, r.2)
      else rest
