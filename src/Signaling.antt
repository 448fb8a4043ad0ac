-- ===== src/Signaling.antt =====
-- src/source/Signaling/StateMachine.c: the states of the signaling client, the states that each is
-- entered from. Callbacks is what asks for the next state, Execute what runs in a state, Iterator the loop.
-- The calls to the service are parameters: functions of the client.
-- Locks, logs and profiling are left out, and arguments are not NULL.
pub mod Callbacks
pub mod Execute
pub mod Iterator
pub mod Refused
pub mod Trapped
pub mod Progress
mod Tests
use kvs_c.Base.{ℕ, Bool, true, false, not, ◌&&◌, ◌||◌, Option, List, [], ◌∷◌, if◌then◌else◌, take}
use kvs_c.Status.{Status}

pub data SignalingState : Type 0 where
  new get_token describe create get_endpoint get_ice_config ready connect : SignalingState
  connected disconnected delete deleted describe_media join_session : SignalingState
  join_session_waiting join_session_connected : SignalingState

-- The codes of SERVICE_CALL_RESULT, an enumeration of another library, that the callbacks test for.
pub data ServiceCallResult : Type 0 where
  not_set result_ok bad_request forbidden not_authorized resource_not_found : ServiceCallResult
  resource_deleted service_error network_connection_timeout : ServiceCallResult
  network_read_timeout request_timeout gateway_timeout : ServiceCallResult
  signaling_go_away signaling_reconnect_ice unknown : ServiceCallResult
  -- any other code
  other_result : ℕ → ServiceCallResult

-- The fields of the signaling client that the callbacks use, those of what it points to included.
-- `channel_arn` is pChannelInfo->pChannelArn, empty when it is NULL; `has_relay` is the test of
-- pKvsNgtcp2Transport; `notified` are the states that stateChangeFn was called with, the last one first.
pub record SignalingClient : Type 0 where
  pub result : ServiceCallResult
  pub deleting : Bool
  pub client_ready : Bool
  pub is_connected : Bool
  pub refresh_ice_config : Bool
  pub offer_received : Bool
  pub retry : Bool
  pub has_relay : Bool
  pub channel_arn : List ℕ
  pub description_arn : List ℕ
  pub use_media_storage : Bool
  pub storage_status : Bool
  pub describe_time : ℕ
  pub describe_media_time : ℕ
  pub get_endpoint_time : ℕ
  pub credentials_expiration : Option ℕ
  pub has_callback : Bool
  pub notified : List SignalingState

-- A call to the service.
abbrev pub Call : Type 0
Call = SignalingClient → Status × SignalingClient

-- What the calls outside give: the clock, the flag that asks to stop, the application's callback, MAX_ARN_LEN,
-- INVALID_TIMESTAMP_VALUE, the calls to the service, and the status of the wait for an offer.
pub record Outside : Type 0 where
  pub time : ℕ
  pub shutdown : Bool
  pub callback : SignalingState → Status
  pub max_arn_len : ℕ
  pub invalid_timestamp : ℕ
  pub describe_channel : Call
  pub describe_media_storage_conf : Call
  pub create_channel : Call
  pub get_channel_endpoint : Call
  pub get_ice_config : Call
  pub connect_signaling_channel : Call
  pub join_storage_session : Call
  pub delete_channel : Call
  pub wait_for_offer : Status

abbrev pub is_state : SignalingState → SignalingState → Bool
is_state new new = true
is_state get_token get_token = true
is_state describe describe = true
is_state create create = true
is_state get_endpoint get_endpoint = true
is_state get_ice_config get_ice_config = true
is_state ready ready = true
is_state connect connect = true
is_state connected connected = true
is_state disconnected disconnected = true
is_state delete delete = true
is_state deleted deleted = true
is_state describe_media describe_media = true
is_state join_session join_session = true
is_state join_session_waiting join_session_waiting = true
is_state join_session_connected join_session_connected = true
is_state _ _ = false

abbrev pub any_state : List SignalingState → SignalingState → Bool
any_state [] s = false
any_state (x ∷ xs) s = is_state x s || any_state xs s

-- The second column of SIGNALING_STATE_MACHINE_STATES.
abbrev pub signaling_accept_states : SignalingState → List SignalingState
signaling_accept_states new = new ∷ []
signaling_accept_states get_token =
    new ∷ describe ∷ describe_media ∷ create ∷ get_endpoint ∷ get_ice_config ∷ ready ∷ connect
    ∷ connected ∷ join_session ∷ join_session_waiting ∷ join_session_connected ∷ delete ∷ get_token
    ∷ []
signaling_accept_states describe =
    get_token ∷ create ∷ get_endpoint ∷ get_ice_config ∷ connect ∷ connected ∷ join_session
    ∷ join_session_connected ∷ delete ∷ describe ∷ ready ∷ disconnected ∷ []
signaling_accept_states describe_media = describe ∷ describe_media ∷ []
signaling_accept_states create = describe ∷ describe_media ∷ create ∷ []
signaling_accept_states get_endpoint =
    describe ∷ describe_media ∷ create ∷ get_token ∷ ready ∷ connect ∷ connected ∷ join_session
    ∷ join_session_connected ∷ get_endpoint ∷ []
signaling_accept_states get_ice_config =
    describe ∷ describe_media ∷ connect ∷ connected ∷ join_session ∷ join_session_connected
    ∷ get_endpoint ∷ ready ∷ get_ice_config ∷ []
signaling_accept_states ready = get_ice_config ∷ disconnected ∷ ready ∷ []
signaling_accept_states connect = ready ∷ disconnected ∷ connected ∷ join_session ∷ connect ∷ []
signaling_accept_states connected = connect ∷ connected ∷ join_session ∷ []
signaling_accept_states disconnected =
    connect ∷ connected ∷ join_session ∷ join_session_waiting ∷ join_session_connected ∷ []
signaling_accept_states delete =
    get_token ∷ describe ∷ describe_media ∷ create ∷ get_endpoint ∷ get_ice_config ∷ ready ∷ connect
    ∷ connected ∷ join_session ∷ disconnected ∷ delete ∷ []
signaling_accept_states deleted = delete ∷ deleted ∷ []
signaling_accept_states join_session =
    connected ∷ join_session_waiting ∷ join_session_connected ∷ []
signaling_accept_states join_session_waiting = join_session ∷ []
signaling_accept_states join_session_connected = join_session_waiting ∷ join_session_connected ∷ []

abbrev pub accepts : (next current : SignalingState) → Bool
accepts next current = any_state (signaling_accept_states next) current
