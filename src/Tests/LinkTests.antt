-- ===== src/Tests/LinkTests.antt =====
-- The relay of RelayTests and the agent of AgentTests together.
use r_nat.Common.{ℕ, some, [], ◌∷◌, true, ◌≡◌, refl, arith, map, nat_key, contains, lookup}
use r_nat.Protocol.{Bytes, A2r, R2a, put_a2r, put_r2a}
use r_nat.Connection.{concat}
use r_nat.Relay.State.{App, AgentInfo, agent_send, agent_send_v, user_sent}
use r_nat.Relay.User.{on_user_connect, on_user_recv, cork_user}
use r_nat.Relay.Step.{agent_sends, run}
use r_nat.Relay.Registry.Invariant.{IsRegistered}
use r_nat.Agent.State.{App as AgentApp, user_key, user_conn, session_conn, send, close, tunnel_sent}
use r_nat.Agent.Tunnel.{on_server_connect, on_server_recv, cork_tunnel}
use r_nat.Agent.Sessions.{IsOpened, session_of as agent_session_of}
use r_nat.Link.Announcing.{sent_on, Serves, IsWider, serves_in, on_server_connect-Serves}
use r_nat.Link.HalfClosed.{disconnect-stays_open}
use r_nat.Relay.Tunnel.{on_agent_recv}
use r_nat.Relay.Sessions.{session_of}
use r_nat.Link.Opening.{on_user_connect-reaches}
use r_nat.Tests.RelayTests.{user_session, relay_with, listening, relay-IsRegistered}
use r_nat.Tests.AgentTests.{endpoint, open_agent}

abbrev two_services : AgentApp
two_services = record open_agent { service_ports = 80 ∷ 443 ∷ [] }

on_server_connect-Serves_example :
    let bufs = sent_on 0 0 (on_server_connect 0 two_services).effects in
    (t : App) × (run listening (map (agent_sends 7) bufs) (relay_with user_session) ≡ some t)
    × Serves 7 (80 ∷ 443 ∷ []) (serves_in t)
    × IsWider (serves_in (relay_with user_session)) (serves_in t)
    × IsRegistered t
unfolding lookup sent_on
on_server_connect-Serves_example =
    on_server_connect-Serves listening 0 7 two_services (relay_with user_session) relay-IsRegistered
      refl (omega arith, refl, (omega arith, refl, tt)) refl

abbrev text : Bytes
text = 104 ∷ 105 ∷ []

on_user_connect-reaches_example :
    let connect = put_r2a (R2a.connect 80 9 1 2) in
    let parts = put_r2a (R2a.carry 80 9 []) ∷ text ∷ [] in
    let t = on_user_connect 0 9 1 2 (relay_with user_session) in
    let u = on_server_recv 0 connect open_agent in
    (agent_seq : ℕ) × (agent : AgentInfo) × (lookup agent_seq (relay_with user_session).agents
      ≡ some agent)
    × (contains 80 agent.ports ≡ true)
    × (t.effects ≡ agent_send agent_seq connect ∷ [])
    × IsOpened open_agent u 0 80 9 1 (endpoint ∷ [])
    × ((on_user_recv 0 9 text t).effects
        ≡ agent_send_v agent_seq parts (user_sent 0 2 9 t.queue_limit)
          ∷ (cork_user t.queue_limit 0 9 2 t).effects)
    × ((on_server_recv 0 (concat parts) u).effects
        ≡ send (user_conn 2) text (some (tunnel_sent 0 2 (80, 9)))
          ∷ (cork_tunnel u.queue_limit 2 u).effects)
unfolding lookup
on_user_connect-reaches_example =
    on_user_connect-reaches 80 0 9 1 2 0 (endpoint ∷ []) text (relay_with user_session) open_agent
      relay-IsRegistered refl (omega arith) (omega arith) (omega arith) (omega arith) refl refl
      (omega arith)

disconnect-stays_open_example :
    let r = relay_with user_session in
    let b = on_server_recv 0 (put_r2a (R2a.disconnect 80 5)) open_agent in
    (u : App) × (on_agent_recv listening 7 (put_a2r (A2r.disconnect 80 5)) r ≡ some u)
    × (u.effects ≡ r.effects)
    × (session_of u 0 5 ≡ some 1)
    × (b.effects ≡ close (session_conn 1) ∷ open_agent.effects)
    × (agent_session_of b 0 (80, 5) ≡ some 1)
unfolding lookup
disconnect-stays_open_example =
    disconnect-stays_open listening 7 80 5 0 1 0 1 (relay_with user_session) open_agent
      (omega arith) (omega arith) refl refl refl refl refl
