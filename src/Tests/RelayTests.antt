-- ===== src/Tests/RelayTests.antt =====
-- A relay with the agent 7 at port 80, whose service is the object 0 and has the user 5.
use r_nat.Common.{
  ℕ, Option, none, some, List, [], ◌∷◌, Bool, true, ◌≡◌, refl, arith, nat_key, lookup, insert,
  update, Ensures,
}
use r_nat.Flow.{Limited, Traffic, arrives, leaves, exchange, waiting}
use r_nat.Relay.State.{App, Session, LoadPolicy, new_session, Effect, service_block_recv}
use r_nat.Protocol.{A2r, put_a2r, parse_a2r}
use r_nat.Relay.Tunnel.{on_agent_connect, on_agent_recv, on_bind, on_agent_hangs_up, on_session}
use r_nat.Relay.User.{cli_index, on_user_connect, on_user_disconnect}
use r_nat.Relay.Step.{
  Event, agent_connects, agent_disconnects, agent_sends, user_connects, step, run,
}
use r_nat.Relay.Isolation.Tables.{IsSeparate}
use r_nat.Relay.Isolation.Users.{run-separates}
use r_nat.Relay.Registry.{is_bound}
use r_nat.Relay.Registry.Invariant.{IsRegistered, Runs, here, next, step-IsRegistered}
use r_nat.Relay.Assignment.{IsAssigned, on_user_connect-IsAssigned}
use r_nat.Relay.Corking.{tunnel_cork, tunnel_never_stalls, completions, on_user_sent-stalls}
use r_nat.Relay.Blocking.{agent_blocked, user_blocked}
use r_nat.Relay.Ending.{relay_ends-session_of}
use r_nat.Relay.Sessions.{session_of, on_session-leaks}

abbrev no_effects : List Effect
no_effects = []

-- What AppLogic1 starts from.
abbrev pub empty_relay : App
empty_relay = record {
  load_policy = LoadPolicy.by_seq;
  queue_limit = 4;
  char_is_signed = true;
  services = [];
  agents = [];
  service_at = λ r. record { port = 0; agents = []; sessions = [] };
  session_at = λ r. new_session;
  next_ref = 0;
  effects = no_effects;
}

-- A session of the user 5 with the agent 7.
abbrev pub user_session : Session
user_session = record new_session { seq = 5; agent_id = 7 }

abbrev pub relay_with : Session → App
relay_with ses = record empty_relay {
  services = (80, 0) ∷ [];
  agents = (7, record { seq = 7; ports = (80, tt) ∷ []; sessions = (5, 1) ∷ [] }) ∷ [];
  service_at = λ r. record { port = 80; agents = (7, tt) ∷ []; sessions = (5, 1) ∷ [] };
  session_at = update (λ r. new_session) 1 ses;
  next_ref = 2;
}

abbrev pub listening : ℕ → Option Bool
listening port = some true

pub relay-IsRegistered : IsRegistered (relay_with user_session)
unfolding lookup is_bound
relay-IsRegistered = record {
  served = λ p r x. refl;
  port = λ p r x. ground arith;
  fresh = λ p r x. ground arith;
  bound = λ p r a x c. ground arith;
}

step-IsRegistered_example :
    Ensures IsRegistered (step listening (agent_disconnects 7) (relay_with user_session))
step-IsRegistered_example =
    step-IsRegistered listening (agent_disconnects 7) (relay_with user_session) tt
      relay-IsRegistered

pub agent_connected : Runs listening empty_relay (on_agent_connect 7 empty_relay)
unfolding step lookup
agent_connected = next here (agent_connects 7) refl refl

on_user_connect-IsAssigned_example :
    IsAssigned
      (relay_with user_session)
      (on_user_connect 0 9 1 2 (relay_with user_session))
      80
      0
      9
      1
      2
unfolding lookup
on_user_connect-IsAssigned_example =
    on_user_connect-IsAssigned (relay_with user_session) 80 0 9 1 2 relay-IsRegistered refl

abbrev history : List Traffic
history = arrives ∷ arrives ∷ leaves ∷ []

tunnel_never_stalls_example :
    let t = exchange (tunnel_cork 4 0 1 5 (omega arith)) history (relay_with user_session) in
    ((t.session_at 1).tunnel_traffic ≡ 1) × Limited 4 1 (agent_blocked 5 t.effects)
unfolding waiting agent_blocked
tunnel_never_stalls_example =
    tunnel_never_stalls 4 0 1 5 1 (omega arith) history (relay_with user_session) refl refl refl
      refl

abbrev blocked_relay : App
blocked_relay =
    record (relay_with
      (record user_session { user_corked = true; user_traffic = 2; tunnel_traffic = 3 })) {
        effects = service_block_recv 0 5 true ∷ [];
      }

on_user_sent-stalls_example :
    let t = completions 2 0 1 5 4 blocked_relay in
    ((t.session_at 1).user_traffic ≡ 0)
    × ((t.session_at 1).user_corked ≡ true)
    × (user_blocked 0 5 t.effects ≡ true)
unfolding user_blocked
on_user_sent-stalls_example =
    on_user_sent-stalls 2 4 0 1 5 blocked_relay refl refl (omega arith) (omega arith) (omega arith)

abbrev agent_gone : App
agent_gone = relay_with (record user_session { tunnel_disconnected = true })

relay_ends-session_of_example :
    let s = relay_with user_session in
    (session_of (on_agent_hangs_up 80 5 (on_user_disconnect 0 5 s)) 0 5 ≡ none)
    × (session_of (on_user_disconnect 0 5 (on_agent_hangs_up 80 5 s)) 0 5 ≡ none)
unfolding lookup
relay_ends-session_of_example =
    relay_ends-session_of 80 0 1 5 (relay_with user_session) refl refl refl

on_session-leaks_example :
    session_of
      (on_user_disconnect 0 6
        (on_agent_hangs_up 80 6 (on_session 7 80 6 (relay_with user_session))))
      0
      6
    ≡ some 2
unfolding lookup
on_session-leaks_example =
    on_session-leaks 7 80 6 0 (record { seq = 7; ports = (80, tt) ∷ []; sessions = (5, 1) ∷ [] })
      (relay_with user_session) refl refl refl (λ e. absurd (omega (arith, e)))

-- An agent comes and binds a port, and two users of the port come.
abbrev events : List Event
events =
    agent_connects 7
    ∷ agent_sends 7 (put_a2r (A2r.bind 80))
    ∷ user_connects 0 9 1 2
    ∷ user_connects 0 10 1 2
    ∷ []

abbrev state_or : App → Option App → App
state_or s none = s
state_or s (some t) = t

run-separates_example : IsSeparate (state_or empty_relay (run listening events empty_relay))
unfolding run step on_agent_connect on_agent_recv on_user_connect lookup insert parse_a2r put_a2r
    on_bind cli_index
run-separates_example =
    run-separates listening events empty_relay
      (state_or empty_relay (run listening events empty_relay)) (λ r. refl) refl
