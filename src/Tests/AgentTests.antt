-- ===== src/Tests/AgentTests.antt =====
-- An agent with one remote, the object 0, whose user (80, 5) has the session 1.
use r_nat.Common.{
  ℕ, Option, none, some, List, [], ◌∷◌, Bool, true, ◌++◌, Ensures, ◌≡◌, refl, arith, lookup, update,
  nat_key, insert,
}
use r_nat.Flow.{Traffic, arrives, leaves}
use r_nat.Protocol.{Bytes, A2r, R2a, put_a2r, put_r2a, parse_r2a}
use r_nat.Connection.{concat}
use r_nat.Relay.State.{
  LoadPolicy, service_send, tunnel_sent as relay_tunnel_sent, emit as relay_emit,
}
use r_nat.Relay.Tunnel.{on_agent_recv, cork_tunnel as relay_cork_tunnel}
use r_nat.Agent.State.{
  App, Session, Effect, clean_session, send, tunnel_sent, user_key, Endpoint, new_session,
  user_conn, send_v, user_sent, post_reconnect,
}
use r_nat.Relay.User.{cli_index}
use r_nat.Agent.Tunnel.{
  on_connect, on_server_recv, open_session, cork_tunnel, on_server_disconnect, on_relay_hangs_up,
  on_session_disconnect,
}
use r_nat.Agent.User.{on_user_disconnect, on_user_recv, cork_user, way_back}
use r_nat.Agent.Sessions.{
  IsOpened, ClosesBoth, session_of, on_connect-IsOpened, on_server_disconnect-closes,
}
use r_nat.Agent.Step.{Event, server_sends, user_disconnects, step, run}
use r_nat.Agent.Ending.{agent_ends-session_of}
use r_nat.Agent.Isolation.Tables.{IsSeparate}
use r_nat.Agent.Isolation.Users.{run-IsSeparate}
use r_nat.Link.{agent_to_relay}
use r_nat.Tests.RelayTests.{relay_with, user_session}

abbrev pub endpoint : Endpoint
endpoint = record { address = 1; port = 8080 }

abbrev agent_with : Session → App
agent_with ses = record {
  load_policy = LoadPolicy.by_seq;
  queue_limit = 4;
  char_is_signed = true;
  service_ports = 80 ∷ [];
  service_ep = (80, endpoint ∷ []) ∷ [];
  remote_at = λ r. record { ep = endpoint; tunnel = 0; users = ((80, 5), 1) ∷ [] };
  session_at = update (λ r. new_session) 1 ses;
  next_ref = 2;
  effects = [];
}

abbrev pub open_agent : App
open_agent = agent_with (record new_session { session_conn_ready = true })

abbrev text : Bytes
text = 104 ∷ 105 ∷ []

abbrev silent_listen : ℕ → Option Bool
silent_listen port = none

agent_to_relay_example :
    let r = relay_with user_session in
    let parts = put_a2r (A2r.carry 80 5 []) ∷ text ∷ [] in
    ((on_user_recv 0 1 (80, 5) text open_agent).effects
      ≡ send_v (way_back 0 1 open_agent) parts (user_sent 0 1 (80, 5))
        ∷ (cork_user 4 1 open_agent).effects)
    × (on_agent_recv silent_listen 7 (concat parts) r
        ≡ some (
            relay_emit
              (service_send 0 5 text (relay_tunnel_sent 0 1 7 4))
              (relay_cork_tunnel 4 7 1 r)))
unfolding lookup
agent_to_relay_example =
    agent_to_relay silent_listen 0 1 80 5 7 0 1
      (record { seq = 7; ports = (80, tt) ∷ []; sessions = (5, 1) ∷ [] }) text open_agent
      (relay_with user_session) (omega arith) (omega arith) refl refl refl

abbrev history : List Traffic
history = arrives ∷ arrives ∷ arrives ∷ arrives ∷ arrives ∷ leaves ∷ []

on_connect-IsOpened_example :
    IsOpened open_agent (on_connect 0 80 6 1 open_agent) 0 80 6 1 (endpoint ∷ [])
unfolding lookup
on_connect-IsOpened_example =
    on_connect-IsOpened 0 80 6 1 (endpoint ∷ []) open_agent refl refl (omega arith)

on_server_disconnect-closes_example :
    let t = on_server_disconnect 0 open_agent in
    ((t.remote_at 0).users ≡ [])
    × (new : List Effect) × (t.effects ≡ post_reconnect 0 ∷ (new ++ open_agent.effects))
    × Ensures (ClosesBoth new) (session_of open_agent 0 (80, 5))
on_server_disconnect-closes_example = on_server_disconnect-closes 0 (80, 5) open_agent

abbrev relay_gone : App
relay_gone = agent_with (record new_session { tunnel_disconnected = true })

agent_ends-session_of_example :
    let t = on_user_disconnect 0 1 (80, 5) open_agent in
    (session_of (on_relay_hangs_up 0 (80, 5) t) 0 (80, 5) ≡ none)
    × (session_of
          (on_user_disconnect 0 1 (80, 5) (on_relay_hangs_up 0 (80, 5) open_agent))
          0
          (80, 5)
        ≡ none)
    × (session_of (on_session_disconnect 0 1 (80, 5) t) 0 (80, 5) ≡ none)
unfolding lookup
agent_ends-session_of_example = agent_ends-session_of 0 1 80 5 open_agent refl

abbrev no_users : App
no_users = record open_agent { remote_at = λ r. record { ep = endpoint; tunnel = 0; users = [] } }

-- Two users come, and the first one's connection to the service ends.
abbrev events : List Event
events =
    server_sends 0 (put_r2a (R2a.connect 80 5 1 2))
    ∷ server_sends 0 (put_r2a (R2a.connect 80 6 1 2))
    ∷ user_disconnects 0 2 (80, 5)
    ∷ []

run-IsSeparate_example :
    let t = run events no_users in
    IsSeparate t
    × ((on_server_recv 0 (put_r2a (R2a.carry 80 6 (65 ∷ []))) t).effects
        ≡ send (user_conn 3) (65 ∷ []) (some (tunnel_sent 0 3 (80, 6)))
          ∷ (cork_tunnel t.queue_limit 3 t).effects)
unfolding run step on_server_recv on_connect on_user_disconnect open_session lookup insert parse_r2a
    put_r2a cli_index clean_session
run-IsSeparate_example =
    run-IsSeparate events no_users 0 80 6 3 (65 ∷ []) (λ r. refl) (omega arith) (omega arith) refl
