-- ===== src/Signaling/Callbacks.antt =====
-- The callbacks of StateMachine.c that ask for the next state of the signaling client.
use kvs_c.Base.{ℕ, Bool, true, false, not, List, [], ◌∷◌, if◌then◌else◌, take}
use kvs_c.Signaling.{
  SignalingState, new, get_token, describe, create, get_endpoint, get_ice_config, ready, connect,
  connected, disconnected, delete, deleted, describe_media, join_session, join_session_waiting,
  join_session_connected, ServiceCallResult, not_set, result_ok, bad_request, forbidden,
  not_authorized, resource_not_found, resource_deleted, service_error, network_connection_timeout,
  network_read_timeout, request_timeout, gateway_timeout, signaling_go_away,
  signaling_reconnect_ice, SignalingClient, Outside,
}

-- `*pState`, and the client. The callbacks return STATUS_SUCCESS.
abbrev pub Next : Type 0
Next = SignalingState × SignalingClient

abbrev is_empty_text : List ℕ → Bool
is_empty_text [] = true
is_empty_text (b ∷ bs) = false

-- What fromGetTokenSignalingState asks for when the result is good.
unfoldable pub from_token : Outside → SignalingClient → Next
from_token o c =
    if c.deleting
    then (delete, c)
    else if c.has_relay
    then (get_endpoint, c)
    else if not (is_empty_text c.channel_arn)
    then (get_endpoint, record c { description_arn = take o.max_arn_len c.channel_arn })
    else (describe, c)

abbrev pub is_ok : ServiceCallResult → Bool
is_ok result_ok = true
is_ok _ = false

-- fromGetTokenSignalingState
unfoldable pub from_get_token : Outside → SignalingClient → Next
from_get_token o c = if is_ok c.result then from_token o c else (get_token, c)

-- The switch of fromDescribeSignalingState, whose result is overwritten.
abbrev described : SignalingClient → ServiceCallResult → SignalingState
described c result_ok =
    if c.deleting then delete else if c.use_media_storage then describe_media else get_endpoint
described c resource_not_found = create
described c forbidden = get_token
described c not_authorized = get_token
described c _ = describe

-- fromDescribeSignalingState; `state` is assigned once more behind the switch.
unfoldable pub from_describe : SignalingClient → Next
from_describe c = let state = described c c.result in let state = create in (state, c)

-- fromDescribeMediaStorageConfState
unfoldable pub from_describe_media : ServiceCallResult → SignalingClient → Next
from_describe_media result_ok c = (if c.deleting then delete else get_endpoint, c)
from_describe_media resource_not_found c = (create, c)
from_describe_media forbidden c = (get_token, c)
from_describe_media not_authorized c = (get_token, c)
from_describe_media _ c = (describe_media, c)

-- fromCreateSignalingState
unfoldable pub from_create : ServiceCallResult → SignalingClient → Next
from_create result_ok c = (describe, c)
from_create forbidden c = (get_token, c)
from_create not_authorized c = (get_token, c)
from_create _ c = (create, c)

-- fromGetEndpointSignalingState
unfoldable pub from_get_endpoint : ServiceCallResult → SignalingClient → Next
from_get_endpoint result_ok c = (get_ice_config, c)
from_get_endpoint forbidden c = (get_token, c)
from_get_endpoint not_authorized c = (get_token, c)
from_get_endpoint _ c = (get_endpoint, c)

-- fromGetIceConfigSignalingState
unfoldable pub from_get_ice_config : Outside → ServiceCallResult → SignalingClient → Next
from_get_ice_config o result_ok c = (ready, c)
from_get_ice_config o forbidden c = (get_token, c)
from_get_ice_config o not_authorized c = (get_token, c)
from_get_ice_config o resource_not_found c = (
  describe,
  record c {
    describe_time = o.invalid_timestamp;
    describe_media_time = o.invalid_timestamp;
    get_endpoint_time = o.invalid_timestamp;
  },
)
from_get_ice_config o _ c = (get_ice_config, c)

-- The exchange of refreshIceConfig, which overwrites the state.
abbrev pub refreshed : SignalingState → SignalingClient → Next
refreshed s c =
    (if c.refresh_ice_config then get_ice_config else s, record c { refresh_ice_config = false })

abbrev after_ready : ServiceCallResult → SignalingState
after_ready result_ok = ready
after_ready signaling_reconnect_ice = get_ice_config
after_ready forbidden = get_token
after_ready not_authorized = get_token
after_ready _ = connect

-- fromReadySignalingState
unfoldable pub from_ready_client : SignalingClient → Next
from_ready_client c = refreshed (after_ready c.result) c

abbrev after_connect : SignalingClient → ServiceCallResult → SignalingState
after_connect c result_ok = if c.is_connected then connected else connect
after_connect c resource_not_found = describe
after_connect c forbidden = get_token
after_connect c not_authorized = get_token
after_connect c service_error = get_endpoint
after_connect c bad_request = get_endpoint
after_connect c signaling_reconnect_ice = get_ice_config
after_connect c network_connection_timeout = get_endpoint
after_connect c network_read_timeout = get_endpoint
after_connect c request_timeout = get_endpoint
after_connect c gateway_timeout = get_endpoint
after_connect c _ = get_token

-- fromConnectSignalingState
unfoldable pub from_connect : SignalingClient → Next
from_connect c = refreshed (after_connect c c.result) c

abbrev after_connected : SignalingClient → ServiceCallResult → SignalingState
after_connected c result_ok =
    if not c.is_connected
    then disconnected
    else if c.storage_status
    then join_session
    else connected
after_connected c resource_not_found = describe
after_connected c forbidden = get_token
after_connected c not_authorized = get_token
after_connected c service_error = get_endpoint
after_connected c bad_request = get_endpoint
after_connected c network_connection_timeout = get_endpoint
after_connected c network_read_timeout = get_endpoint
after_connected c request_timeout = get_endpoint
after_connected c gateway_timeout = get_endpoint
after_connected c signaling_go_away = describe
after_connected c signaling_reconnect_ice = get_ice_config
after_connected c _ = get_token

-- fromConnectedSignalingState
unfoldable pub from_connected_client : SignalingClient → Next
from_connected_client c = refreshed (after_connected c c.result) c

abbrev after_join : SignalingClient → ServiceCallResult → SignalingState
after_join c result_ok = if not c.is_connected then disconnected else join_session_waiting
after_join c resource_not_found = describe
after_join c forbidden = get_token
after_join c not_authorized = get_token
after_join c service_error = get_endpoint
after_join c signaling_reconnect_ice = get_ice_config
after_join c bad_request = get_endpoint
after_join c network_connection_timeout = get_endpoint
after_join c network_read_timeout = get_endpoint
after_join c request_timeout = get_endpoint
after_join c gateway_timeout = get_endpoint
after_join c _ = get_token

-- fromJoinStorageSessionState
unfoldable pub from_join_session : SignalingClient → Next
from_join_session c = refreshed (after_join c c.result) c

-- fromJoinStorageSessionWaitingState
unfoldable pub from_join_session_waiting : ServiceCallResult → SignalingClient → Next
from_join_session_waiting result_ok c =
    (if not c.is_connected then disconnected else join_session_connected, c)
from_join_session_waiting not_set c = (if not c.is_connected then disconnected else join_session, c)
from_join_session_waiting _ c = (get_token, c)

abbrev after_joined : SignalingClient → ServiceCallResult → SignalingState
after_joined c result_ok =
    if not c.is_connected
    then disconnected
    else if c.storage_status
    then get_ice_config
    else connected
after_joined c signaling_go_away = describe
after_joined c signaling_reconnect_ice = get_ice_config
after_joined c _ = get_token

-- fromJoinStorageSessionConnectedState
unfoldable pub from_join_session_connected : SignalingClient → Next
from_join_session_connected c = refreshed (after_joined c c.result) c

abbrev after_disconnected : ServiceCallResult → SignalingState
after_disconnected forbidden = get_token
after_disconnected not_authorized = get_token
after_disconnected signaling_reconnect_ice = get_ice_config
after_disconnected _ = ready

-- fromDisconnectedSignalingState
unfoldable pub from_disconnected_client : SignalingClient → Next
from_disconnected_client c = refreshed (after_disconnected c.result) c

-- fromDeleteSignalingState
unfoldable pub from_delete : ServiceCallResult → SignalingClient → Next
from_delete forbidden c = (get_token, c)
from_delete not_authorized c = (get_token, c)
from_delete result_ok c = (deleted, c)
from_delete resource_deleted c = (deleted, c)
from_delete resource_not_found c = (deleted, c)
from_delete bad_request c = (describe, c)
from_delete _ c = (delete, c)

-- fromNewSignalingState
abbrev pub from_new_client : SignalingClient → Next
from_new_client c = (get_token, c)

-- fromDeletedSignalingState
abbrev pub from_deleted : SignalingClient → Next
from_deleted c = (deleted, c)

-- The third column of SIGNALING_STATE_MACHINE_STATES.
unfoldable pub from_signaling_state : SignalingState → Outside → SignalingClient → Next
from_signaling_state new o c = from_new_client c
from_signaling_state get_token o c = from_get_token o c
from_signaling_state describe o c = from_describe c
from_signaling_state describe_media o c = from_describe_media c.result c
from_signaling_state create o c = from_create c.result c
from_signaling_state get_endpoint o c = from_get_endpoint c.result c
from_signaling_state get_ice_config o c = from_get_ice_config o c.result c
from_signaling_state ready o c = from_ready_client c
from_signaling_state connect o c = from_connect c
from_signaling_state connected o c = from_connected_client c
from_signaling_state disconnected o c = from_disconnected_client c
from_signaling_state delete o c = from_delete c.result c
from_signaling_state deleted o c = from_deleted c
from_signaling_state join_session o c = from_join_session c
from_signaling_state join_session_waiting o c = from_join_session_waiting c.result c
from_signaling_state join_session_connected o c = from_join_session_connected c
