-- ===== src/Signaling/Trapped.antt =====
-- What the loop of the signaling client comes to: a good end, and a client that cannot get there.
use kvs_c.Base.{◌≡◌, Bool, true, false, Option, none, some, []}
use kvs_c.Status.{Status}
use kvs_c.Signaling.{
  SignalingState, new, get_token, describe, create, SignalingClient, Call, Outside,
}
use kvs_c.Signaling.Iterator.{Iterated}

-- A client that is not deleted and has neither a relay nor the ARN of its channel.
pub record IsNamed (c : SignalingClient) : Type 0 where
  pub stays : c.deleting ≡ false
  pub no_relay : c.has_relay ≡ false
  pub no_arn : c.channel_arn ≡ []

-- A call to the service does not give a client what is missing there.
abbrev pub KeepsNamed : Call → Type 0
KeepsNamed f = (c : SignalingClient) → IsNamed c → IsNamed (f c).1

pub record KeepNamed (o : Outside) : Type 0 where
  pub describes : KeepsNamed o.describe_channel
  pub creates : KeepsNamed o.create_channel

-- The states in front of the channel.
abbrev pub is_trapped : SignalingState → Bool
is_trapped new = true
is_trapped get_token = true
is_trapped describe = true
is_trapped create = true
is_trapped _ = false

-- What the loop returns, if it does.
abbrev Returns : (Iterated → Type 0) → Option Iterated → Type 0
Returns P none = Unit
Returns P (some r) = P r
