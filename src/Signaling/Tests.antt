-- ===== src/Signaling/Tests.antt =====
-- A state machine that keeps to the laws, and the theorems at a concrete signaling client.
use kvs_c.Base.{ℕ, zero, suc, ◌≡◌, refl, ap, ◌∙◌, true, false, none, some, [], ◌∷◌, if◌then◌else◌}
use kvs_c.Status.{Status, success, other_failure, operation_timed_out}
use kvs_c.Signaling.{
  SignalingState, new, get_token, describe, create, get_endpoint, get_ice_config, ready,
  disconnected, not_set, result_ok, forbidden, SignalingClient, Outside, accepts,
}
use kvs_c.Signaling.Callbacks.{from_signaling_state}
use kvs_c.Signaling.Execute.{execute_signaling_state}
use kvs_c.Signaling.Iterator.{StepStateMachine, Iterated, iterator_loop}
use kvs_c.Signaling.Refused.{from_signaling_state-accepts}
use kvs_c.Signaling.Progress.{IsSteady, IsServing, with_relay, reaches_ready_client}

-- The next state is tested and executed; what cannot be entered is an error.
go_with : Outside → SignalingState → SignalingState × SignalingClient → Iterated
go_with o s (next, c) = if accepts next s then (r.0, next, r.1) else (other_failure, s, c)
  where
    r : Status × SignalingClient
    r = execute_signaling_state next o c

machine : StepStateMachine
machine o s c = go_with o s (from_signaling_state s o c)

machine-IsSteady : IsSteady machine
unfolding machine go_with
machine-IsSteady = record {
  enters = λ o s next c c' asked allowed moves. ap (go_with o s) asked ∙ rw allowed refl;
}

abbrev outside : Outside
outside = record {
  time = 1000;
  shutdown = false;
  callback = λ s. success;
  max_arn_len = 2;
  invalid_timestamp = 0;
  describe_channel = λ c. (success, record c { result = result_ok });
  describe_media_storage_conf = λ c. (success, record c { result = result_ok });
  create_channel = λ c. (success, record c { result = result_ok });
  get_channel_endpoint = λ c. (success, record c { result = result_ok; get_endpoint_time = 1000 });
  get_ice_config = λ c. (success, record c { result = result_ok });
  connect_signaling_channel = λ c. (success, record c { result = result_ok });
  join_storage_session = λ c. (success, record c { result = result_ok });
  delete_channel = λ c. (success, record c { result = result_ok });
  wait_for_offer = success;
}

abbrev client : SignalingClient
client = record {
  result = not_set;
  deleting = false;
  client_ready = false;
  is_connected = false;
  refresh_ice_config = false;
  offer_received = false;
  retry = true;
  has_relay = false;
  channel_arn = [];
  description_arn = [];
  use_media_storage = false;
  storage_status = false;
  describe_time = 0;
  describe_media_time = 0;
  get_endpoint_time = 0;
  credentials_expiration = none;
  has_callback = true;
  notified = [];
}

-- The service answers every call, and the time that the client has is over in the fourth round.
abbrev late : ℕ → Outside
late zero = record outside { time = 2001 }
late (suc n) = outside

abbrev ended : Iterated
ended = (
  operation_timed_out,
  create,
  record client { result = result_ok; notified = create ∷ describe ∷ get_token ∷ [] },
)

goes : (n : ℕ) → (late n).shutdown ≡ false
goes zero = refl
goes (suc n) = refl

from_signaling_state-accepts_example :
    accepts
      (from_signaling_state disconnected outside (record client { result = forbidden })).0
      disconnected
    ≡ false
from_signaling_state-accepts_example =
    from_signaling_state-accepts disconnected outside (record client { result = forbidden })

outside-IsServing : IsServing 2000 outside
outside-IsServing = record {
  endpoint_time = 1000;
  goes = refl;
  in_time = refl;
  told = λ s. refl;
  endpoint = λ c h. refl;
  ice_config = λ c h. refl;
}

reaches_ready_client_example :
    (d d' : SignalingClient) × (iterator_loop machine 2000 get_token 1
        (λ _. outside)
        success
        new
        (with_relay client)
      ≡ some (success, get_token, d))
    × (iterator_loop machine 2000 ready 3 (λ _. outside) success get_token d
        ≡ some (success, ready, d'))
    × (d.result ≡ result_ok)
    × (d'.client_ready ≡ true)
    × (d'.notified ≡ ready ∷ get_ice_config ∷ get_endpoint ∷ get_token ∷ [])
reaches_ready_client_example =
    reaches_ready_client machine 2000 2000 (λ _. outside) (λ _. outside) 0 0 client machine-IsSteady
      (λ _. outside-IsServing) (λ _. outside-IsServing)
