-- ===== src/Signaling/Execute.antt =====
-- What runs in a state of the signaling client, by StateMachine.c.
use kvs_c.Base.{true, false, ◌∷◌, if◌then◌else◌}
use kvs_c.Status.{Status, success, operation_timed_out, succeeded}
use kvs_c.Signaling.{
  SignalingState, new, get_token, describe, create, get_endpoint, get_ice_config, ready, connect,
  connected, disconnected, delete, deleted, describe_media, join_session, join_session_waiting,
  join_session_connected, ServiceCallResult, not_set, result_ok, unknown, SignalingClient, Call,
  Outside,
}

-- The call of stateChangeFn, if there is one.
abbrev pub notify_client : Outside → SignalingState → Call
notify_client o s c =
    if c.has_callback then (o.callback s, record c { notified = s ∷ c.notified }) else (success, c)

-- A call is made when the callback succeeds.
abbrev pub notify_and : Outside → SignalingState → Call → Call
notify_and o s call c =
    let (status, c') = notify_client o s c in if succeeded status then call c' else (status, c')

-- `result` and `clientReady` are reset.
abbrev pub reset_client : SignalingClient → SignalingClient
reset_client c = record c { result = not_set; client_ready = false }

-- executeGetTokenSignalingState
unfoldable pub execute_get_token : Outside → Call
execute_get_token o c =
    notify_and o get_token (λ c'. (success, record c' { result = result_ok })) (reset_client c)

-- executeDescribeSignalingState
unfoldable pub execute_describe : Outside → Call
execute_describe o c = notify_and o describe o.describe_channel (reset_client c)

-- executeDescribeMediaStorageConfState, which leaves `clientReady`
unfoldable pub execute_describe_media : Outside → Call
execute_describe_media o c =
    notify_and o describe_media o.describe_media_storage_conf (record c { result = not_set })

-- executeCreateSignalingState
unfoldable pub execute_create : Outside → Call
execute_create o c = notify_and o create o.create_channel (reset_client c)

-- executeGetEndpointSignalingState
unfoldable pub execute_get_endpoint : Outside → Call
execute_get_endpoint o c = notify_and o get_endpoint o.get_channel_endpoint (reset_client c)

-- executeGetIceConfigSignalingState
unfoldable pub execute_get_ice_config : Outside → Call
execute_get_ice_config o c = notify_and o get_ice_config o.get_ice_config (reset_client c)

-- executeReadySignalingState
unfoldable pub execute_ready_client : Outside → Call
execute_ready_client o c =
    notify_client o ready (record c { client_ready = true; result = not_set })

-- executeConnectSignalingState
unfoldable pub execute_connect : Outside → Call
execute_connect o c = notify_and o connect o.connect_signaling_channel c

-- executeJoinStorageSessionState
unfoldable pub execute_join_session : Outside → Call
execute_join_session o c =
    notify_and o join_session (λ c'. o.join_storage_session (record c' { offer_received = false }))
      c

-- The loop that waits for the offer: it ends when there is one, or with the status of a wait that fails.
abbrev wait_loop : Outside → Call
wait_loop o c =
    if c.offer_received
    then (success, c)
    else (o.wait_for_offer, record c { offer_received = succeeded o.wait_for_offer })

-- `result` on the way out of the waiting state.
abbrev waited_result : Status → ServiceCallResult
waited_result operation_timed_out = not_set
waited_result success = result_ok
waited_result _ = unknown

-- executeJoinStorageSessionWaitingState
unfoldable pub execute_join_session_waiting : Outside → Call
execute_join_session_waiting o c =
    let (status, c') = notify_and o join_session_waiting (wait_loop o) c in
    (status, record c' { result = waited_result status })

-- executeDeleteSignalingState
unfoldable pub execute_delete : Outside → Call
execute_delete o c = notify_and o delete o.delete_channel (reset_client c)

-- executeNewSignalingState
abbrev pub execute_new_client : Outside → Call
execute_new_client o c = notify_client o new (reset_client c)

-- executeConnectedSignalingState
abbrev pub execute_connected_client : Outside → Call
execute_connected_client o c = notify_client o connected c

-- executeDisconnectedSignalingState
abbrev pub execute_disconnected_client : Outside → Call
execute_disconnected_client o c = notify_client o disconnected c

-- executeDeletedSignalingState
abbrev pub execute_deleted : Outside → Call
execute_deleted o c = notify_client o deleted c

-- executeJoinStorageSessionConnectedState
abbrev pub execute_join_session_connected : Outside → Call
execute_join_session_connected o c = notify_client o join_session_connected c

-- The fourth column of SIGNALING_STATE_MACHINE_STATES.
unfoldable pub execute_signaling_state : SignalingState → Outside → Call
execute_signaling_state new o c = execute_new_client o c
execute_signaling_state get_token o c = execute_get_token o c
execute_signaling_state describe o c = execute_describe o c
execute_signaling_state describe_media o c = execute_describe_media o c
execute_signaling_state create o c = execute_create o c
execute_signaling_state get_endpoint o c = execute_get_endpoint o c
execute_signaling_state get_ice_config o c = execute_get_ice_config o c
execute_signaling_state ready o c = execute_ready_client o c
execute_signaling_state connect o c = execute_connect o c
execute_signaling_state connected o c = execute_connected_client o c
execute_signaling_state disconnected o c = execute_disconnected_client o c
execute_signaling_state delete o c = execute_delete o c
execute_signaling_state deleted o c = execute_deleted o c
execute_signaling_state join_session o c = execute_join_session o c
execute_signaling_state join_session_waiting o c = execute_join_session_waiting o c
execute_signaling_state join_session_connected o c = execute_join_session_connected o c
