-- ===== src/Turn.antt =====
-- src/source/Ice/TurnConnectionStateMachine.c: the states of a TURN connection, the states that each
-- is entered from, and what the machine calls: `from_state` for the next state, and Execute on entry.
-- The calls to sockets, timers and other files are parameters, by their results. A callback reads the
-- clock once.
pub mod Execute
pub mod Machine
pub mod Accepts
pub mod Rounds
pub mod Progress
mod Tests
use kvs_c.Base.{
  ℕ, zero, suc, ◌+◌, ◌*◌, ◌%◌, ◌^◌, Bool, true, false, not, ◌&&◌, ◌||◌, Option, none, some, List,
  [], ◌∷◌, length, map, ltb, ◌==◌, if◌then◌else◌,
}
use kvs_c.Status.{
  Status, success, turn_connection_failed_to_create_permission,
  turn_connection_failed_to_bind_channel, succeeded,
}

pub data TurnState : Type 0 where
  new check_socket_connection get_credentials allocation create_permission : TurnState
  bind_channel ready clean_up failed : TurnState

pub data PeerState : Type 0 where
  peer_create_permission peer_bind_channel peer_ready peer_failed : PeerState

-- The fields of `TurnConnection` that the callbacks of the machine use; `peers` are the connection
-- states of turnPeerList, and `needs_tls` is the test of the protocol and of pTlsSession.
pub record TurnConnection : Type 0 where
  pub state : TurnState
  pub state_timeout_time : ℕ
  pub credential_obtained : Bool
  pub has_allocation : Bool
  pub shutdown_complete : Bool
  pub error_status : Status
  pub peers : List PeerState
  pub current_timer_calling_period : ℕ
  pub deallocate_packet_sent : Bool
  pub receive_data : Bool
  pub needs_tls : Bool
  pub stop_turn_connection : Bool

-- What the calls out of the file give: the clock with its units, the socket, and statuses.
pub record Outside : Type 0 where
  pub time : ℕ
  pub second : ℕ
  pub millisecond : ℕ
  pub is_connected : Bool
  pub is_closed : Bool
  pub refresh_permission : Status × Bool
  pub update_timer : Status
  pub free_packets : Status
  pub free_turn_packet : Status
  pub close_socket : Status
  pub package_request : Status
  pub init_secure : Status
  pub server_address : Status
  pub send_packet : Status
  pub long_term_key : Status
  pub prepare_packets : Status
  pub lifetime_attribute : Status × Bool
  pub check_peers : List PeerState → Status × List PeerState

abbrev pub is_state : TurnState → TurnState → Bool
is_state new new = true
is_state check_socket_connection check_socket_connection = true
is_state get_credentials get_credentials = true
is_state allocation allocation = true
is_state create_permission create_permission = true
is_state bind_channel bind_channel = true
is_state ready ready = true
is_state clean_up clean_up = true
is_state failed failed = true
is_state _ _ = false

abbrev pub any_state : List TurnState → TurnState → Bool
any_state [] s = false
any_state (x ∷ xs) s = is_state x s || any_state xs s

-- The second column of TURN_CONNECTION_STATE_MACHINE_STATES: the states that a state is entered from.
abbrev pub accept_states : TurnState → List TurnState
accept_states new = new ∷ clean_up ∷ []
accept_states check_socket_connection = new ∷ check_socket_connection ∷ []
accept_states get_credentials = check_socket_connection ∷ get_credentials ∷ []
accept_states allocation = allocation ∷ get_credentials ∷ []
accept_states create_permission = create_permission ∷ allocation ∷ ready ∷ []
accept_states bind_channel = bind_channel ∷ create_permission ∷ []
accept_states ready = ready ∷ bind_channel ∷ []
accept_states clean_up =
    clean_up ∷ failed ∷ check_socket_connection ∷ get_credentials ∷ allocation ∷ create_permission
    ∷ bind_channel ∷ ready ∷ []
accept_states failed =
    clean_up ∷ failed ∷ check_socket_connection ∷ get_credentials ∷ allocation ∷ create_permission
    ∷ bind_channel ∷ ready ∷ []

abbrev pub accepts : (next current : TurnState) → Bool
accepts next current = any_state (accept_states next) current

-- The time of a timeout.
abbrev pub after : Outside → (seconds : ℕ) → ℕ
after o seconds = (o.time + seconds * o.second) % 2 ^ 64

-- A callback's status, `*pState` where it is written, and the connection.
abbrev pub Next : Type 0
Next = Status × Option TurnState × TurnConnection

-- `state == TURN_STATE_CLEAN_UP || state == TURN_STATE_FAILED`
abbrev pub is_over : TurnState → Bool
is_over s = is_state clean_up s || is_state failed s

abbrev pub is_peer_ready : PeerState → Bool
is_peer_ready peer_ready = true
is_peer_ready _ = false

abbrev pub has_permission : PeerState → Bool
has_permission peer_bind_channel = true
has_permission peer_ready = true
has_permission _ = false

abbrev pub count_peers : (PeerState → Bool) → List PeerState → ℕ
count_peers test [] = 0
count_peers test (p ∷ ps) = (if test p then 1 else 0) + count_peers test ps

-- fromCheckSocketConnectionTurnState
unfoldable pub from_check_socket_connection : Outside → TurnConnection → Next
from_check_socket_connection o c =
    if is_over c.state
    then (success, some c.state, c)
    else if o.is_connected
    then (success, some get_credentials, record c { state_timeout_time = after o 5 })
    else (success, some check_socket_connection, c)

-- fromGetCredentialsTurnState
unfoldable pub from_get_credentials : Outside → TurnConnection → Next
from_get_credentials o c =
    if is_over c.state
    then (success, some c.state, c)
    else if c.credential_obtained
    then (success, some allocation, record c { state_timeout_time = after o 5 })
    else (success, some get_credentials, c)

-- fromAllocationTurnState
unfoldable pub from_allocation : Outside → TurnConnection → Next
from_allocation o c =
    if is_over c.state
    then (success, some c.state, c)
    else if c.has_allocation
    then (success, some create_permission, record c { state_timeout_time = after o 5 })
    else (success, some allocation, c)

-- fromCreatePermissionTurnState
unfoldable pub from_create_permission : Outside → TurnConnection → Next
from_create_permission o c =
    if is_over c.state
    then (success, some c.state, c)
    else if length c.peers == 0
    then (success, some create_permission, record c { state_timeout_time = after o 5 })
    else if ltb c.state_timeout_time o.time || (permitted == length c.peers)
    then (if ltb 0 permitted
        then (success, some bind_channel, record c { state_timeout_time = after o 5 })
        else (turn_connection_failed_to_create_permission, some create_permission, c))
    else (success, some create_permission, c)
  where
    permitted : ℕ
    permitted = count_peers has_permission c.peers

-- fromBindChannelTurnState
unfoldable pub from_bind_channel : Outside → TurnConnection → Next
from_bind_channel o c =
    if is_over c.state
    then (success, some c.state, c)
    else if ltb c.state_timeout_time o.time || (ready_peers == length c.peers)
    then (if ltb 0 ready_peers
        then (success, some ready, c)
        else (turn_connection_failed_to_bind_channel, none, c))
    else (success, some bind_channel, c)
  where
    ready_peers : ℕ
    ready_peers = count_peers is_peer_ready c.peers

-- fromReadyTurnState
unfoldable pub from_ready : Outside → TurnConnection → Next
from_ready o c =
    if is_over c.state
    then (success, some c.state, c)
    else if not (succeeded o.refresh_permission.0)
    then (o.refresh_permission.0, none, c)
    else if o.refresh_permission.1
    then timed create_permission (record c {
      peers = map (λ p. peer_create_permission) c.peers;
      current_timer_calling_period = 50 * o.millisecond;
      state_timeout_time = after o 5;
    })
    else if not (c.current_timer_calling_period == o.second)
    then timed ready (record c { current_timer_calling_period = o.second })
    else (success, some ready, c)
  where
    timed : TurnState → TurnConnection → Next
    timed next c' =
        if succeeded o.update_timer then (success, some next, c') else (o.update_timer, none, c')

-- fromCleanUpTurnState
unfoldable pub from_clean_up : Outside → TurnConnection → Next
from_clean_up o c =
    if is_state failed c.state
    then (success, some c.state, c)
    else if o.is_closed || (not c.has_allocation || ltb c.state_timeout_time o.time)
    then (if not (succeeded o.free_packets)
        then (o.free_packets, none, c)
        else if not (succeeded o.close_socket)
        then (o.close_socket, none, c)
        else (
          success,
          some (if succeeded c.error_status then clean_up else failed),
          record c { shutdown_complete = true },
        ))
    else (success, some clean_up, c)

-- fromFailedTurnState
unfoldable pub from_failed : Outside → TurnConnection → Next
from_failed o c =
    if is_state clean_up c.state
    then (success, some c.state, c)
    else if c.shutdown_complete
    then (success, some failed, c)
    else (success, some clean_up, record c { state_timeout_time = after o 10 })

-- The third column of TURN_CONNECTION_STATE_MACHINE_STATES; fromNewTurnState is its first entry.
unfoldable pub from_state : TurnState → Outside → TurnConnection → Next
from_state new o c = (success, some check_socket_connection, c)
from_state check_socket_connection o c = from_check_socket_connection o c
from_state get_credentials o c = from_get_credentials o c
from_state allocation o c = from_allocation o c
from_state create_permission o c = from_create_permission o c
from_state bind_channel o c = from_bind_channel o c
from_state ready o c = from_ready o c
from_state clean_up o c = from_clean_up o c
from_state failed o c = from_failed o c
