-- ===== src/Signaling/Progress.antt =====
-- How a signaling client with a relay becomes ready, by the two calls of signalingStateMachineIterator that
-- createSignalingSync and signalingFetchSync make.
use kvs_c.Base.{
  ℕ, suc, ◌≡◌, refl, ◌∙◌, Bool, true, false, ◌||◌, not, if◌then◌else◌, some, none, ◌∷◌, leb, ◌==◌,
}
use kvs_c.Status.{success}
use kvs_c.Signaling.{
  SignalingState, new, get_token, get_endpoint, get_ice_config, ready, result_ok, not_set,
  SignalingClient, Outside, is_state, accepts,
}
use kvs_c.Signaling.Callbacks.{
  from_signaling_state, from_token, from_get_token, from_get_endpoint, from_get_ice_config,
}
use kvs_c.Signaling.Execute.{
  execute_get_token, execute_get_endpoint, execute_get_ice_config, execute_ready_client,
  execute_signaling_state,
}
use kvs_c.Signaling.Iterator.{StepStateMachine, iterator_loop}

-- A step into another state, that is entered from the present one, executes it. Nothing is said of a step
-- that repeats a state, which stepStateMachine counts.
pub record IsSteady (step : StepStateMachine) : Type 0 where
  pub enters :
      (o : Outside) (s next : SignalingState) (c c' : SignalingClient)
      → from_signaling_state s o c ≡ (next, c')
      → accepts next s ≡ true
      → is_state s next ≡ false
      → let r = execute_signaling_state next o c' in step o s c ≡ (r.0, next, r.1)

-- A round before the expiration, in which nobody asks to stop and the callback succeeds; the two calls give
-- what getChannelEndpoint and getIceConfig give a client with a relay.
pub record IsServing (expiration : ℕ) (o : Outside) : Type 0 where
  pub endpoint_time : ℕ
  pub goes : o.shutdown ≡ false
  pub in_time : (expiration == 0 || leb o.time expiration) ≡ true
  pub told : (s : SignalingState) → o.callback s ≡ success
  pub endpoint :
      (c : SignalingClient)
      → c.has_relay ≡ true
      → o.get_channel_endpoint c
        ≡ (success, record c { result = result_ok; get_endpoint_time = endpoint_time })
  pub ice_config :
      (c : SignalingClient)
      → c.has_relay ≡ true
      → o.get_ice_config c ≡ (success, record c { result = result_ok })

-- A client with a relay, that is not being deleted. It has no credentials, since the get_token state
-- executes without asking for them.
abbrev pub with_relay : SignalingClient → SignalingClient
with_relay c = record c {
  deleting = false;
  has_relay = true;
  has_callback = true;
  credentials_expiration = none;
}

-- A round that is not stopped and not late.
through :
    {A : Type 0} (stops in_time : Bool) (x y z : A)
    → stops ≡ false
    → in_time ≡ true
    → (if stops then x else if not in_time then y else z) ≡ z
through false true x y z h k = refl
through true t x y z h k = cc h
through false false x y z h k = cc k

module _ (step : StepStateMachine) (law : IsSteady step) (expiration : ℕ) (outside : ℕ → Outside)
    (serves : (n : ℕ) → IsServing expiration (outside n)) where
  -- A round that does not reach the final state.
  advance :
      (n : ℕ) (final s next : SignalingState) (c c' d : SignalingClient)
      → let b : SignalingClient = record c { credentials_expiration = none } in
        from_signaling_state s (outside n) b ≡ (next, c')
        → accepts next s ≡ true
        → is_state s next ≡ false
        → execute_signaling_state next (outside n) c' ≡ (success, d)
        → is_state next final ≡ false
        → iterator_loop step expiration final (suc n) outside success s b
          ≡ iterator_loop step expiration final n outside success next d
  unfolding iterator_loop
  advance n final s next c c' d asked allowed moves executed before =
      through (outside n).shutdown (expiration == 0 || leb (outside n).time expiration) _ _ _
        (serves n).goes (serves n).in_time
      ∙ rw
          (law.enters (outside n) s next (record c { credentials_expiration = none }) c' asked
            allowed moves)
          (rw executed (rw before refl))

  -- A round that reaches it.
  arrives :
      (n : ℕ) (s next : SignalingState) (c c' d : SignalingClient)
      → let b : SignalingClient = record c { credentials_expiration = none } in
        from_signaling_state s (outside n) b ≡ (next, c')
        → accepts next s ≡ true
        → is_state s next ≡ false
        → execute_signaling_state next (outside n) c' ≡ (success, d)
        → is_state next next ≡ true
        → iterator_loop step expiration next (suc n) outside success s b ≡ some (success, next, d)
  unfolding iterator_loop
  arrives n s next c c' d asked allowed moves executed there =
      through (outside n).shutdown (expiration == 0 || leb (outside n).time expiration) _ _ _
        (serves n).goes (serves n).in_time
      ∙ rw
          (law.enters (outside n) s next (record c { credentials_expiration = none }) c' asked
            allowed moves)
          (rw executed (rw there refl))

  -- The client in the get_token state.
  abbrev with_token : SignalingClient → SignalingClient
  with_token c = record (with_relay c) {
    result = result_ok;
    client_ready = false;
    notified = get_token ∷ c.notified;
  }

  gets_token :
      (n : ℕ) (c : SignalingClient)
      → iterator_loop step expiration get_token (suc n) outside success new (with_relay c)
        ≡ some (success, get_token, with_token c)
  unfolding from_signaling_state execute_signaling_state execute_get_token
  gets_token n c =
      arrives n new get_token (with_relay c) (with_relay c) (with_token c) refl refl refl
        (rw ((serves n).told get_token) refl) refl

  -- The client in the states behind it.
  abbrev with_endpoint : (n : ℕ) → SignalingClient → SignalingClient
  with_endpoint n c = record (with_token c) {
    get_endpoint_time = (serves n).endpoint_time;
    notified = get_endpoint ∷ get_token ∷ c.notified;
  }

  abbrev with_ice_config : (n : ℕ) → SignalingClient → SignalingClient
  with_ice_config n c = record (with_endpoint n c) {
    notified = get_ice_config ∷ get_endpoint ∷ get_token ∷ c.notified;
  }

  abbrev ready_client : (n : ℕ) → SignalingClient → SignalingClient
  ready_client n c = record (with_ice_config n c) {
    result = not_set;
    client_ready = true;
    notified = ready ∷ get_ice_config ∷ get_endpoint ∷ get_token ∷ c.notified;
  }

  gets_ready :
      (n : ℕ) (c : SignalingClient)
      → iterator_loop step expiration ready
          (suc (suc (suc n)))
          outside
          success
          get_token
          (with_token c)
        ≡ some (success, ready, ready_client (suc (suc n)) c)
  unfolding from_signaling_state from_token from_get_token from_get_endpoint from_get_ice_config
      execute_signaling_state execute_get_endpoint execute_get_ice_config execute_ready_client
  gets_ready n c =
      let k : ℕ = suc (suc n) in
      advance k ready get_token get_endpoint (with_token c) (with_token c) (with_endpoint k c) refl
        refl refl
        (rw ((serves k).told get_endpoint) (
          (serves k).endpoint
            (record (with_endpoint k c) {
              result = not_set;
              get_endpoint_time = c.get_endpoint_time;
            })
            refl))
        refl
      ∙ advance (suc n) ready get_endpoint get_ice_config (with_endpoint k c) (with_endpoint k c)
          (with_ice_config k c) refl refl refl
          (rw ((serves (suc n)).told get_ice_config)
            ((serves (suc n)).ice_config (record (with_ice_config k c) { result = not_set }) refl))
          refl
      ∙ arrives n get_ice_config ready (with_ice_config k c) (with_ice_config k c)
          (ready_client k c) refl refl refl (rw ((serves n).told ready) refl) refl

-- A client with a relay becomes ready by two calls of signalingStateMachineIterator, the one of
-- createSignalingSync from the new to the get_token state, and the one of signalingFetchSync from there to
-- the ready state: one round is enough for the first, three for the second. The client must not be
-- deleted or told to stop, each round comes before the expiration of its call, and the application's callback
-- succeeds. The client has then reported the four states in their order, and the service was asked neither
-- for a description of the channel nor to create one.
pub reaches_ready_client :
    (step : StepStateMachine) (e e' : ℕ) (outside outside' : ℕ → Outside) (n n' : ℕ)
    (c : SignalingClient)
    → IsSteady step
    → ((k : ℕ) → IsServing e (outside k))
    → ((k : ℕ) → IsServing e' (outside' k))
    → (d d' : SignalingClient) × (iterator_loop step e get_token
          (suc n)
          outside
          success
          new
          (with_relay c)
        ≡ some (success, get_token, d))
      × (iterator_loop step e' ready (suc (suc (suc n'))) outside' success get_token d
          ≡ some (success, ready, d'))
      × (d.result ≡ result_ok)
      × (d'.client_ready ≡ true)
      × (d'.notified ≡ ready ∷ get_ice_config ∷ get_endpoint ∷ get_token ∷ c.notified)
reaches_ready_client step e e' outside outside' n n' c law serves serves' = (
  with_token step law e outside serves c,
  ready_client step law e' outside' serves' (suc (suc n')) c,
  gets_token step law e outside serves n c,
  gets_ready step law e' outside' serves' n' c,
  refl,
  refl,
  refl,
)
