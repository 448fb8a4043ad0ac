-- ===== src/Turn/Progress.antt =====
-- How a TURN connection becomes ready by TurnConnectionStateMachine.c, call by call.
use kvs_c.Base.{
  ℕ, suc, ◌<◌, ◌≡◌, ◌≤◌, leb, refl, ap, ◌∙◌, Bool, true, false, not, ◌&&◌, ◌||◌, some, List, arith,
  length, ltb, ◌==◌, Bool-cases, inl, inr,
}
use kvs_c.Status.{Status, success, succeeded}
use kvs_c.Turn.{
  TurnState, new, check_socket_connection, get_credentials, allocation, create_permission,
  bind_channel, ready, TurnConnection, Outside, PeerState, count_peers, is_peer_ready,
  has_permission, is_state, accepts, after, from_state, from_check_socket_connection,
  from_get_credentials, from_allocation, from_create_permission, from_bind_channel, from_ready,
}
use kvs_c.Turn.Execute.{
  execute_state, execute_check_socket_connection, execute_get_credentials, execute_allocation,
  execute_create_permission, execute_bind_channel, execute_ready,
}
use kvs_c.Turn.Machine.{StepStateMachine, IsStepStateMachine, turn_round, turn_loop}

-- Every call outside succeeds, the socket is connected, and the peers stay as they are.
pub record IsWorking (o : Outside) : Type 0 where
  pub connected : o.is_connected ≡ true
  pub packaged : o.package_request ≡ success
  pub secured : o.init_secure ≡ success
  pub addressed : o.server_address ≡ success
  pub sent : o.send_packet ≡ success
  pub freed : o.free_turn_packet ≡ success
  pub keyed : o.long_term_key ≡ success
  pub prepared : o.prepare_packets ≡ success
  pub permitted : o.refresh_permission ≡ (success, false)
  pub timed : o.update_timer ≡ success
  pub peers_stay : (ps : List PeerState) → o.check_peers ps ≡ (success, ps)

-- What a connection in the state `s` has come to know, so that the next call takes it to the state `t`, where it
-- waits for the next answer: no credentials yet; the credentials, but no allocation; the allocation and some
-- peers, not all of which gave permission; the permission of all peers, not all of which are ready; peers that all
-- are ready.
abbrev pub IsAnswered : (s t : TurnState) → TurnConnection → Type 0
IsAnswered new get_credentials c = c.credential_obtained ≡ false
IsAnswered get_credentials allocation c =
    (c.credential_obtained ≡ true) × (c.has_allocation ≡ false)
IsAnswered allocation create_permission c =
    (c.has_allocation ≡ true)
    × (0 < length c.peers)
    × (count_peers has_permission c.peers < length c.peers)
IsAnswered create_permission bind_channel c =
    (0 < length c.peers)
    × (count_peers has_permission c.peers ≡ length c.peers)
    × (count_peers is_peer_ready c.peers < length c.peers)
IsAnswered bind_channel ready c =
    (0 < length c.peers) × (count_peers is_peer_ready c.peers ≡ length c.peers)
IsAnswered _ _ c = ⊥

-- A connection in the state `s` that is not told to stop.
abbrev pub at_state : TurnState → TurnConnection → TurnConnection
at_state s c = record c { state = s; stop_turn_connection = false }

and_not : (b c : Bool) → c ≡ true → (b && not c) ≡ false
and_not true c h = rw h refl
and_not false c h = refl

-- The tests of the peers: all of them are as wanted, or some are not and there is time.
all_there : (late : Bool) (k n : ℕ) → k ≡ n → 0 < n → ((late || (k == n)) ≡ true) × (ltb 0 k ≡ true)
all_there late k n e h = (ground (arith, e), ground (arith, e, h))

some_missing : (t u k n : ℕ) → u ≤ t → k < n → (ltb t u || (k == n)) ≡ false
some_missing t u k n h l = ground (arith, h, l)

module _ (step : StepStateMachine) (law : IsStepStateMachine step) (outside : ℕ → Outside)
    (works : (k : ℕ) → IsWorking (outside k)) where
  -- A round that changes the state, of a connection that is not told to stop.
  advance :
      (n : ℕ) (reset : Status) (s next : TurnState) (c c' c'' : TurnConnection)
      → from_state s (outside n) c ≡ (success, some next, c')
      → accepts next s ≡ true
      → execute_state next (outside n) c' ≡ (success, c'')
      → c''.stop_turn_connection ≡ false
      → is_state c.state c''.state ≡ false
      → turn_loop step (suc n) reset outside s c ≡ turn_loop step n reset outside next c''
  unfolding turn_loop turn_round
  advance n reset s next c c' c'' asked allowed executed goes moves =
      rw (law.enters (outside n) s next c c' asked allowed) (rw (executed, goes) (rw moves refl))

  -- A round that stays in the state.
  waits :
      (n : ℕ) (reset : Status) (s : TurnState) (c c' c'' : TurnConnection)
      → from_state s (outside n) c ≡ (success, some s, c')
      → accepts s s ≡ true
      → execute_state s (outside n) c' ≡ (success, c'')
      → c''.stop_turn_connection ≡ false
      → is_state c.state c''.state ≡ true
      → turn_loop step (suc n) reset outside s c
        ≡ some (record { ends = false; status = reset; machine_state = s; connection = c'' })
  unfolding turn_loop turn_round
  waits n reset s c c' c'' asked allowed executed goes stays =
      rw (law.enters (outside n) s s c c' asked allowed) (rw (executed, goes) (rw stays refl))

  -- What a call of stepTurnConnectionStateMachine comes to.
  abbrev Arrives : (n : ℕ) (reset : Status) (s t : TurnState) → TurnConnection → Type 0
  Arrives n reset s t c =
      (c' : TurnConnection) × (turn_loop step (suc (suc (suc n))) reset outside s c
        ≡ some (record { ends = false; status = reset; machine_state = t; connection = c' }))
      × (c'.state ≡ t)
      × (c'.peers ≡ c.peers)

  asks_credentials :
      (n : ℕ) (reset : Status) (c : TurnConnection)
      → ((j k : ℕ) → (outside j).time ≤ after (outside k) 5)
      → c.credential_obtained ≡ false
      → Arrives n reset new get_credentials (at_state new c)
  unfolding from_state execute_state from_check_socket_connection from_get_credentials
      execute_check_socket_connection execute_get_credentials
  asks_credentials n reset c quick missing =
      let k : ℕ = suc (suc n) in
      let w = works (suc n) in
      let c1 : TurnConnection = at_state check_socket_connection c in
      let c1' : TurnConnection = record c1 { state_timeout_time = after (outside (suc n)) 5 } in
      let c2 : TurnConnection = record c1' { receive_data = true; state = get_credentials } in
      let tls : (c.needs_tls && not (succeeded (outside (suc n)).init_secure)) ≡ false =
        and_not c.needs_tls (succeeded (outside (suc n)).init_secure) (ap succeeded w.secured) in
      let in_time : leb (outside n).time (after (outside (suc n)) 5) ≡ true =
        ground (arith, quick n (suc n)) in
      (
        c2,
        advance k reset new check_socket_connection (at_state new c) (at_state new c) c1 refl refl
              (rw (works k).packaged refl) refl refl
            ∙ advance (suc n) reset check_socket_connection get_credentials c1 c1' c2
                (rw w.connected refl) refl (rw (tls, w.addressed, w.sent) refl) refl refl
            ∙ waits n reset get_credentials c2 c2 c2 (rw missing refl) refl
                (rw (in_time, (works n).addressed, (works n).sent) refl) refl refl,
        refl,
        refl,
      )

  asks_allocation :
      (n : ℕ) (reset : Status) (c : TurnConnection)
      → ((j k : ℕ) → (outside j).time ≤ after (outside k) 5)
      → c.credential_obtained ≡ true
      → c.has_allocation ≡ false
      → Arrives n reset get_credentials allocation (at_state get_credentials c)
  unfolding from_state execute_state from_get_credentials from_allocation execute_allocation
  asks_allocation n reset c quick creds missing =
      let k : ℕ = suc (suc n) in
      let w = works k in
      let c1 : TurnConnection = record (at_state get_credentials c) {
        state_timeout_time = after (outside k) 5;
      } in
      let c2 : TurnConnection = record c1 { state = allocation } in
      let in_time : leb (outside (suc n)).time (after (outside k) 5) ≡ true =
        ground (arith, quick (suc n) k) in
      (
        c2,
        advance k reset get_credentials allocation (at_state get_credentials c) c1 c2
              (rw creds refl) refl (rw (w.freed, w.keyed, w.packaged, w.sent) refl) refl refl
            ∙ waits (suc n) reset allocation c2 c2 c2 (rw missing refl) refl
                (rw (in_time, (works (suc n)).sent) refl) refl refl,
        refl,
        refl,
      )

  asks_permission :
      (n : ℕ) (reset : Status) (c : TurnConnection)
      → ((j k : ℕ) → (outside j).time ≤ after (outside k) 5)
      → c.has_allocation ≡ true
      → 0 < length c.peers
      → count_peers has_permission c.peers < length c.peers
      → Arrives n reset allocation create_permission (at_state allocation c)
  unfolding from_state execute_state from_allocation from_create_permission
      execute_create_permission
  asks_permission n reset c quick alloc some_peers missing =
      let k : ℕ = suc (suc n) in
      let c1 : TurnConnection = record (at_state allocation c) {
        state_timeout_time = after (outside k) 5;
      } in
      let c2 : TurnConnection = record c1 { state = create_permission } in
      let not_empty : (length c.peers == 0) ≡ false = ground (arith, some_peers) in
      let wait =
        some_missing (after (outside k) 5) (outside (suc n)).time
          (count_peers has_permission c.peers) (length c.peers) (quick (suc n) k) missing in
      (
        c2,
        advance k reset allocation create_permission (at_state allocation c) c1 c2 (rw alloc refl)
              refl (rw ((works k).prepared, (works k).peers_stay c.peers, not_empty) refl) refl refl
            ∙ waits (suc n) reset create_permission c2 c2 c2 (rw (not_empty, wait) refl) refl
                (rw ((works (suc n)).peers_stay c.peers, not_empty) refl) refl refl,
        refl,
        refl,
      )

  asks_channels :
      (n : ℕ) (reset : Status) (c : TurnConnection)
      → ((j k : ℕ) → (outside j).time ≤ after (outside k) 5)
      → 0 < length c.peers
      → count_peers has_permission c.peers ≡ length c.peers
      → count_peers is_peer_ready c.peers < length c.peers
      → Arrives n reset create_permission bind_channel (at_state create_permission c)
  unfolding from_state execute_state from_create_permission from_bind_channel execute_bind_channel
  asks_channels n reset c quick some_peers all missing =
      let k : ℕ = suc (suc n) in
      let c1 : TurnConnection = record (at_state create_permission c) {
        state_timeout_time = after (outside k) 5;
      } in
      let c2 : TurnConnection = record c1 { state = bind_channel } in
      let not_empty : (length c.peers == 0) ≡ false = ground (arith, some_peers) in
      let (permitted, some_permitted) =
        all_there (ltb c.state_timeout_time (outside k).time) (count_peers has_permission c.peers)
          (length c.peers) all some_peers in
      let wait =
        some_missing (after (outside k) 5) (outside (suc n)).time
          (count_peers is_peer_ready c.peers) (length c.peers) (quick (suc n) k) missing in
      (
        c2,
        advance k reset create_permission bind_channel (at_state create_permission c) c1 c2
              (rw (not_empty, permitted, some_permitted) refl) refl
              (rw ((works k).peers_stay c.peers) refl) refl refl
            ∙ waits (suc n) reset bind_channel c2 c2 c2 (rw wait refl) refl
                (rw ((works (suc n)).peers_stay c.peers) refl) refl refl,
        refl,
        refl,
      )

  comes_ready :
      (n : ℕ) (reset : Status) (c : TurnConnection)
      → 0 < length c.peers
      → count_peers is_peer_ready c.peers ≡ length c.peers
      → Arrives n reset bind_channel ready (at_state bind_channel c)
  unfolding from_state execute_state from_bind_channel from_ready execute_ready
  comes_ready n reset c some_peers all =
      let k : ℕ = suc (suc n) in
      let o : Outside = outside (suc n) in
      let w = works (suc n) in
      let c1 : TurnConnection = at_state ready c in
      let c2 : TurnConnection = record c1 { current_timer_calling_period = o.second } in
      let (all_are, some_are) =
        all_there (ltb c.state_timeout_time (outside k).time) (count_peers is_peer_ready c.peers)
          (length c.peers) all some_peers in
      let asked : from_state ready o c1 ≡ (success, some ready, c2) =
        elim (Bool-cases (c.current_timer_calling_period == o.second)) [
          | inl same ↦
              let period : c.current_timer_calling_period ≡ o.second = ground (arith, same) in
              rw (w.permitted, same)
                (ap (λ t. (success, some ready, record c1 { current_timer_calling_period = t }))
                  period)
          | inr other ↦ rw (w.permitted, other, w.timed) refl
        ] in
      (
        c2,
        advance k reset bind_channel ready (at_state bind_channel c) (at_state bind_channel c) c1
              (rw (all_are, some_are) refl) refl (rw ((works k).peers_stay c.peers) refl) refl refl
            ∙ waits (suc n) reset ready c1 c2 c2 asked refl (rw (w.peers_stay c.peers) refl) refl
                refl,
        refl,
        refl,
      )

  -- On its way from new to ready a TURN connection goes on by one state that waits for an answer with each
  -- call of stepTurnConnectionStateMachine, once the answer to the last one is there: to the credentials,
  -- the allocation, the permissions, the channels, and to ready; and there the call ends, within three
  -- rounds. The connection is not told to stop, in each round the calls outside succeed and the socket is
  -- connected, the check of the peers leaves their states, and the call takes less than five seconds.
  pub reaches_next_state :
      (n : ℕ) (reset : Status) (s t : TurnState) (c : TurnConnection)
      → ((j k : ℕ) → (outside j).time ≤ after (outside k) 5)
      → IsAnswered s t c
      → Arrives n reset s t (at_state s c)
  reaches_next_state n reset new get_credentials c quick missing =
      asks_credentials n reset c quick missing
  reaches_next_state n reset get_credentials allocation c quick (creds, missing) =
      asks_allocation n reset c quick creds missing
  reaches_next_state n reset allocation create_permission c quick (alloc, some_peers, missing) =
      asks_permission n reset c quick alloc some_peers missing
  reaches_next_state n reset create_permission bind_channel c quick (some_peers, all, missing) =
      asks_channels n reset c quick some_peers all missing
  reaches_next_state n reset bind_channel ready c quick (some_peers, all) =
      comes_ready n reset c some_peers all
  reaches_next_state n reset _ _ c quick h = elim h [ ]
