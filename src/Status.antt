-- ===== src/Status.antt =====
-- The STATUS codes of src/include/.../webrtcclient/Include.h that the modelled code returns.
-- CHK(cond, code) of the sources is an early return with `code` when `cond` fails.
use kvs_c.Base.{Bool, true, false}

pub data Status : Type 0 where
  success null_arg invalid_arg not_enough_memory buffer_too_small : Status
  invalid_operation not_found : Status
  rtp_input_packet_too_small rtp_input_mtu_too_small rtp_invalid_nalu : Status
  rtp_invalid_extension_len : Status
  rtcp_input_packet_too_small rtcp_input_packet_invalid_version : Status
  rtcp_input_nack_list_invalid rtcp_input_partial_packet : Status
  rtcp_input_remb_too_small rtcp_input_remb_invalid : Status
  rolling_buffer_not_in_range hash_key_not_present : Status
  turn_connection_get_credentials_failed turn_connection_allocation_failed : Status
  turn_connection_failed_to_create_permission turn_connection_failed_to_bind_channel : Status
  ice_no_connected_candidate_pair ice_candidate_pair_list_empty : Status
  ice_failed_to_nominate_candidate_pair ice_no_nominated_valid_candidate_pair_available : Status
  ice_failed_to_recover_from_disconnection : Status
  signaling_invalid_ready_state signaling_get_token_call_failed : Status
  signaling_describe_call_failed signaling_describe_media_call_failed : Status
  signaling_create_call_failed signaling_get_endpoint_call_failed : Status
  signaling_get_ice_config_call_failed signaling_ready_callback_failed : Status
  signaling_connect_call_failed signaling_connected_callback_failed : Status
  signaling_disconnected_callback_failed signaling_delete_call_failed : Status
  signaling_join_session_call_failed signaling_join_session_connected_failed : Status
  service_call_not_authorized_error operation_timed_out : Status
  internal_error : Status
  -- any other failure code, by its number
  other_failure : Status

abbrev pub succeeded : Status → Bool
succeeded success = true
succeeded _ = false
