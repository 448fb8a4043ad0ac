-- ===== src/IceAgent.antt =====
-- src/source/Ice/IceAgent.c and IceAgentStateMachine.c: the candidates and pairs of an ICE agent and the
-- states that it steps through. A candidate is an object of a heap, known by its address, so that a pair
-- and the list of candidates share it; a pair is known by `pair_id`. The calls to sockets, timers, TURN
-- connections and STUN packets are parameters, by their results, and a call reads the clock once.
-- Locks, logs, profiling and statistics are left out, and arguments are not NULL.
pub mod Pairs
pub mod Setup
pub mod Checks
pub mod Machine
pub mod Priority
pub mod Order
pub mod Nominate
pub mod Selected
pub mod Callbacks
pub mod Execution
pub mod Steps
pub mod Rounds
pub mod Silence
pub mod Found
pub mod Progress
mod Tests
use kvs_c.Base.{
  ℕ, ◌+◌, ◌*◌, ◌%◌, ◌^◌, Bool, true, false, ◌||◌, Option, none, some, List, [], ◌∷◌, ◌==◌,
  if◌then◌else◌,
}
use kvs_c.Status.{Status, success}

pub data IceState : Type 0 where
  new check_connection connected nominating ready disconnected failed : IceState

-- ICE_CANDIDATE_TYPE
pub data CandidateType : Type 0 where
  host peer_reflexive server_reflexive relayed : CandidateType

-- ICE_CANDIDATE_STATE
pub data CandidateState : Type 0 where
  state_new state_valid state_invalid : CandidateState

-- ICE_CANDIDATE_PAIR_STATE
pub data PairState : Type 0 where
  pair_frozen pair_waiting pair_in_progress pair_succeeded pair_failed : PairState

-- The fields of `IceCandidate` that the pairs depend on; `family` is the one of its address, `address` the
-- address with its port, `socket` is pSocketConnection unless that is NULL, and `turn_stopped` says that
-- its TURN connection was told to shut down.
pub record IceCandidate : Type 0 where
  pub kind : CandidateType
  pub is_point_to_point : Bool
  pub family : ℕ
  pub address : ℕ
  pub socket : Option ℕ
  pub state : CandidateState
  pub priority : ℕ
  pub turn_stopped : Bool

-- `IceCandidatePair`; `local` and `remote` are addresses of candidates.
pub record IceCandidatePair : Type 0 where
  pub pair_id : ℕ
  pub local : ℕ
  pub remote : ℕ
  pub nominated : Bool
  pub priority : ℕ
  pub state : PairState

-- What is read of pDataSendingIceCandidatePair: which pair it is, and its local candidate.
pub record Sending : Type 0 where
  pub pair_id : ℕ
  pub local : ℕ

-- The fields of `__IceAgent` that the states use. `notified` are the states that connectionStateChangedFn
-- was called with, the last one first, and `has_callback` says that it is not NULL.
pub record IceAgent : Type 0 where
  pub state : IceState
  pub status : Status
  pub state_end_time : ℕ
  pub is_controlling : Bool
  pub restart : Bool
  pub stop_gathering : Bool
  pub start_time : ℕ
  pub last_data_received_time : ℕ
  pub detected_disconnection : Bool
  pub grace_period_end_time : ℕ
  pub has_callback : Bool
  pub notified : List IceState
  pub candidates : ℕ → IceCandidate
  pub local_candidates : List ℕ
  pub remote_candidates : List ℕ
  pub pairs : List IceCandidatePair
  pub triggered : List ℕ
  pub data_sending : Option Sending
  pub connection_check_timeout : ℕ
  pub nomination_timeout : ℕ

-- What comes of iceUtilsSendStunPacket: it succeeds, it fails with STATUS_SOCKET_CONNECTION_CLOSED_ALREADY,
-- or it fails otherwise.
pub data SendResult : Type 0 where
  sent socket_closed not_sent : SendResult

-- What the calls out of the two files give: the clock with its unit, and statuses. `prepare_check` is the
-- first failure of what iceCandidatePairCheckConnection does for a pair before it sends the request, and
-- `send_check` what comes of the sending; `free_request` and `make_request`
-- are the first failure in freeing and in making the binding request, and `free_previous` in freeing
-- what the pair before a restart used.
pub record Outside : Type 0 where
  pub time : ℕ
  pub second : ℕ
  pub free_request : Status
  pub make_request : Status
  pub prepare_check : ℕ → Status
  pub send_check : ℕ → SendResult
  pub free_previous : Status
  pub add_timer : Status
  pub update_timer : Status
  pub address_string : Status
  pub shut_down_turn : ℕ → Status
  pub is_shutdown_complete : ℕ → Bool

abbrev pub is_state : IceState → IceState → Bool
is_state new new = true
is_state check_connection check_connection = true
is_state connected connected = true
is_state nominating nominating = true
is_state ready ready = true
is_state disconnected disconnected = true
is_state failed failed = true
is_state _ _ = false

abbrev pub is_valid : CandidateState → Bool
is_valid state_valid = true
is_valid _ = false

abbrev pub is_relayed : CandidateType → Bool
is_relayed relayed = true
is_relayed _ = false

abbrev pub is_succeeded : PairState → Bool
is_succeeded pair_succeeded = true
is_succeeded _ = false

abbrev pub is_failed : PairState → Bool
is_failed pair_failed = true
is_failed _ = false

abbrev pub has_socket : Option ℕ → Bool
has_socket none = false
has_socket (some s) = true

-- INVALID_TIMESTAMP_VALUE
abbrev pub invalid_timestamp : ℕ
invalid_timestamp = 18446744073709551615

-- `GETTIME() + t`
abbrev pub from_now : Outside → ℕ → ℕ
from_now o t = (o.time + t) % 2 ^ 64

-- iceAgentFatalError
abbrev pub ice_agent_fatal_error : IceAgent → Status → IceAgent
ice_agent_fatal_error a status = record a { status = status }

-- A call of connectionStateChangedFn, if there is one.
abbrev pub notify : IceAgent → IceState → IceAgent
notify a s = if a.has_callback then record a { notified = s ∷ a.notified } else a
