-- ===== src/Signaling/Refused.antt =====
-- The transitions that the callbacks of the signaling client ask for and the table does not allow.
use kvs_c.Base.{◌≡◌, refl, Bool, true, false, not, ◌&&◌, ◌||◌, arith}
use kvs_c.Signaling.{
  SignalingState, new, get_token, describe, create, get_endpoint, get_ice_config, ready, connect,
  connected, disconnected, delete, deleted, describe_media, join_session, join_session_waiting,
  join_session_connected, ServiceCallResult, forbidden, not_authorized, signaling_reconnect_ice,
  SignalingClient, Outside, accepts,
}
use kvs_c.Signaling.Callbacks.{
  is_ok, from_signaling_state, from_token, from_get_token, from_describe, from_describe_media,
  from_create, from_get_endpoint, from_get_ice_config, from_ready_client, from_connect,
  from_connected_client, from_join_session, from_join_session_waiting, from_join_session_connected,
  from_disconnected_client, from_delete,
}

-- The results that end the authorization, and the one that asks for new ICE servers.
abbrev pub leaves_session : ServiceCallResult → Bool
leaves_session forbidden = true
leaves_session not_authorized = true
leaves_session signaling_reconnect_ice = true
leaves_session _ = false

-- The cases in which a callback asks for a state that is not entered from the present one.
abbrev pub is_refused : SignalingState → SignalingClient → Bool
is_refused disconnected c = c.refresh_ice_config || leaves_session c.result
is_refused join_session_connected c =
    not c.refresh_ice_config && (is_ok c.result && (c.is_connected && not c.storage_status))
is_refused _ c = false

-- The state that a callback asks for is entered from the present one but in these cases: a disconnected
-- client that is to refresh its ICE servers, or whose last call was not authorized or asks for new
-- servers; and a client in a session without storage that is connected, whose last call succeeded, and
-- that is not to refresh its ICE servers.
-- Then the machine refuses the transition.
pub from_signaling_state-accepts :
    (s : SignalingState) (o : Outside) (c : SignalingClient)
    → accepts (from_signaling_state s o c).0 s ≡ not (is_refused s c)
unfolding from_signaling_state from_token from_get_token from_describe from_describe_media
    from_create from_get_endpoint from_get_ice_config from_ready_client from_connect
    from_connected_client from_join_session from_join_session_waiting from_join_session_connected
    from_disconnected_client from_delete
from_signaling_state-accepts new o c = refl
from_signaling_state-accepts get_token o c = ground arith
from_signaling_state-accepts describe o c = refl
from_signaling_state-accepts describe_media o c = ground arith
from_signaling_state-accepts create o c = ground arith
from_signaling_state-accepts get_endpoint o c = ground arith
from_signaling_state-accepts get_ice_config o c = ground arith
from_signaling_state-accepts ready o c = ground arith
from_signaling_state-accepts connect o c = ground arith
from_signaling_state-accepts connected o c = ground arith
from_signaling_state-accepts disconnected o c = ground arith
from_signaling_state-accepts delete o c = ground arith
from_signaling_state-accepts deleted o c = refl
from_signaling_state-accepts join_session o c = ground arith
from_signaling_state-accepts join_session_waiting o c = ground arith
from_signaling_state-accepts join_session_connected o c = ground arith
