-- ===== src/Turn/Execute.antt =====
-- The callbacks of TurnConnectionStateMachine.c that run when the machine is in a state.
use kvs_c.Base.{true, false, not, ◌&&◌, length, leb, ◌==◌, if◌then◌else◌}
use kvs_c.Status.{
  Status, success, turn_connection_get_credentials_failed, turn_connection_allocation_failed,
  internal_error, succeeded,
}
use kvs_c.Turn.{
  TurnState, new, check_socket_connection, get_credentials, allocation, create_permission,
  bind_channel, ready, clean_up, failed, TurnConnection, Outside, is_state, after,
}

-- The status, and the connection.
abbrev pub Done : Type 0
Done = Status × TurnConnection

-- The first failure of two calls in a row.
abbrev pub and_then : Status → Status → Status
and_then a b = if succeeded a then b else a

-- executeCheckSocketConnectionTurnState
unfoldable pub execute_check_socket_connection : Outside → TurnConnection → Done
execute_check_socket_connection o c =
    if is_state check_socket_connection c.state
    then (success, c)
    else (o.package_request, record c { state = check_socket_connection })

-- executeGetCredentialsTurnState
unfoldable pub execute_get_credentials : Outside → TurnConnection → Done
execute_get_credentials o c =
    if is_state get_credentials c.state
    then (if leb o.time c.state_timeout_time
        then (and_then o.server_address o.send_packet, c)
        else (turn_connection_get_credentials_failed, c))
    else if c.needs_tls && not (succeeded o.init_secure)
    then (o.init_secure, record c { receive_data = true })
    else (
      and_then o.server_address o.send_packet,
      record c { receive_data = true; state = get_credentials },
    )

-- executeAllocationTurnState; its request is made anew on entry.
unfoldable pub execute_allocation : Outside → TurnConnection → Done
execute_allocation o c =
    if is_state allocation c.state
    then (if leb o.time c.state_timeout_time
        then (o.send_packet, c)
        else (turn_connection_allocation_failed, c))
    else if succeeded request
    then (o.send_packet, record c { state = allocation })
    else (request, c)
  where
    request : Status
    request = and_then o.free_turn_packet (and_then o.long_term_key o.package_request)

-- The peers after checkTurnPeerConnections.
abbrev checked : Outside → TurnConnection → Done
checked o c = ((o.check_peers c.peers).0, record c { peers = (o.check_peers c.peers).1 })

-- executeCreatePermissionTurnState; `prepare_packets` is the first failure in making the three packets.
unfoldable pub execute_create_permission : Outside → TurnConnection → Done
execute_create_permission o c =
    if not (is_state create_permission c.state) && not (succeeded o.prepare_packets)
    then (o.prepare_packets, c)
    else (let (status, c') = checked o (record c { state = create_permission }) in
        if succeeded status && (length c'.peers == 0)
        then (success, record c' { state_timeout_time = after o 5 })
        else (status, c'))

-- executeBindChannelTurnState
unfoldable pub execute_bind_channel : Outside → TurnConnection → Done
execute_bind_channel o c = checked o (record c { state = bind_channel })

-- executeReadyTurnState
unfoldable pub execute_ready : Outside → TurnConnection → Done
execute_ready o c = checked o (record c { state = ready })

-- executeCleanUpTurnState
unfoldable pub execute_clean_up : Outside → TurnConnection → Done
execute_clean_up o c =
    if c.has_allocation
    then (if not (succeeded o.lifetime_attribute.0)
        then (o.lifetime_attribute.0, record c { state = clean_up })
        else if not o.lifetime_attribute.1
        then (internal_error, record c { state = clean_up })
        else if succeeded o.send_packet
        then (success, record c { state = clean_up; deallocate_packet_sent = true })
        else (o.send_packet, record c { state = clean_up }))
    else (success, record c { state = clean_up })

-- The fourth column of TURN_CONNECTION_STATE_MACHINE_STATES, with executeNewTurnState and
-- executeFailedTurnState.
unfoldable pub execute_state : TurnState → Outside → TurnConnection → Done
execute_state new o c = (success, record c { state = new })
execute_state check_socket_connection o c = execute_check_socket_connection o c
execute_state get_credentials o c = execute_get_credentials o c
execute_state allocation o c = execute_allocation o c
execute_state create_permission o c = execute_create_permission o c
execute_state bind_channel o c = execute_bind_channel o c
execute_state ready o c = execute_ready o c
execute_state clean_up o c = execute_clean_up o c
execute_state failed o c = (success, record c { state = failed; has_allocation = false })
