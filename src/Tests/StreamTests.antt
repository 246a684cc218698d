-- ===== src/Tests/StreamTests.antt =====
-- The relay of RelayTests and the agent of AgentTests together, before their first user, and a user
-- that comes and sends two bytes.
use r_nat.Common.{
  ℕ, Option, none, some, ◌≡◌, refl, arith, [], ◌∷◌, ◌++◌, nat_key, lookup, insert, update, length,
}
use r_nat.Protocol.{Bytes, A2r, R2a, put_a2r, put_r2a, parse_a2r, byte_at}
use r_nat.Relay.State.{App}
use r_nat.Relay.Step.{agent_connects, agent_sends, run, step}
use r_nat.Relay.User.{on_user_connect, on_user_recv, cli_index, assign}
use r_nat.Agent.State.{App as AgentApp, user_key}
use r_nat.Agent.Tunnel.{on_server_recv, on_session_recv}
use r_nat.Agent.Isolation.Users.{empty-IsSeparate}
use r_nat.Relay.Tunnel.{on_session, on_agent_connect, on_agent_recv, on_bind}
use r_nat.Link.Ordering.{on_session-reorders}
use r_nat.Link.Stream.{
  System, user_comes, user_sends, arrives, SystemReach, here, next, packets_to, to_service,
}
use r_nat.Link.Stream.Delivery.{IsReady, got, SystemReach-delivers, SystemReach-drains}
use r_nat.Tests.RelayTests.{user_session, relay_with, empty_relay, listening}
use r_nat.Tests.AgentTests.{endpoint, open_agent}

-- An agent connects to an empty relay, and binds the port 80.
abbrev or_empty : Option App → App
or_empty none = empty_relay
or_empty (some r) = r

abbrev idle_relay : App
idle_relay =
    or_empty
      (run listening (agent_connects 7 ∷ agent_sends 7 (put_a2r (A2r.bind 80)) ∷ []) empty_relay)

abbrev idle_agent : AgentApp
idle_agent = record open_agent { remote_at = λ r. record { ep = endpoint; tunnel = 0; users = [] } }

abbrev idle_system : System
idle_system = record { relay = idle_relay; agent = idle_agent; arrived = 1; sent = λ seq. [] }

idle_system-IsReady : IsReady 0 80 7 0 idle_system
unfolding lookup packets_to to_service insert run step on_agent_connect on_agent_recv on_bind
    parse_a2r put_a2r byte_at
idle_system-IsReady = record {
  relaying = record {
    alone = refl;
    serves = refl;
    known = refl;
    fresh = λ seq x e. absurd (cc);
    assigned = λ seq x e. absurd (cc);
    up = λ x. ground arith;
  };
  receiving = record {
    separate = empty-IsSeparate idle_agent (λ r. refl);
    unused = λ x h. refl;
    eps = endpoint ∷ [];
    served = refl;
    some_eps = refl;
    up = λ x. ground arith;
  };
  caught_up = refl;
  no_users = λ seq. refl;
  none_known = λ seq. refl;
  unsent = λ seq. refl;
}

abbrev hello : Bytes
hello = 104 ∷ 105 ∷ []

abbrev with_user : System
with_user = record idle_system { relay = on_user_connect 0 9 1 2 idle_relay }

abbrev with_bytes : System
with_bytes = record with_user {
  relay = on_user_recv 0 9 hello with_user.relay;
  sent = update with_user.sent 9 hello;
}

abbrev with_session : System
with_session = record with_bytes {
  agent = on_server_recv 0 (put_r2a (R2a.connect 80 9 1 2)) idle_agent;
  arrived = 2;
}

with_session-reached : SystemReach 0 7 0 idle_system with_session
unfolding on_user_connect on_user_recv on_server_recv packets_to put_r2a lookup cli_index assign
    insert run step on_agent_recv parse_a2r put_a2r on_bind on_agent_connect
with_session-reached =
    next
      (next (next here (user_comes 9 1 2 refl (omega arith) (omega arith) (omega arith)))
        (user_sends 9 1 hello refl (omega arith)))
      (arrives (put_r2a (R2a.connect 80 9 1 2)) refl)

SystemReach-delivers_example :
    ((on_its_way : Bytes) × (with_session.sent 9 ≡ got 0 (80, 9) with_session.agent ++ on_its_way))
    × (with_session.arrived ≡ length (packets_to 7 with_session.relay.effects)
        → got 0 (80, 9) with_session.agent ≡ with_session.sent 9)
SystemReach-delivers_example =
    SystemReach-delivers 0 80 7 0 idle_system with_session 9 (omega arith) idle_system-IsReady
      with_session-reached

SystemReach-drains_example :
    (u : System) × SystemReach 0 7 0 idle_system u
    × (u.relay ≡ with_session.relay)
    × (u.sent ≡ with_session.sent)
    × ((seq : ℕ) → got 0 (80, seq) u.agent ≡ with_session.sent seq)
SystemReach-drains_example =
    SystemReach-drains 0 80 7 0 idle_system with_session (omega arith) idle_system-IsReady
      with_session-reached

-- The session's own connection to the relay is the number 8.
abbrev two_connections : App
two_connections = record (relay_with user_session) {
  agents =
      (7, record { seq = 7; ports = (80, tt) ∷ []; sessions = (5, 1) ∷ [] })
      ∷ (8, record { seq = 8; ports = []; sessions = [] })
      ∷ [];
}

on_session-reorders_example :
    let t =
      on_user_recv 0 5 (2 ∷ []) (on_session 8 80 5 (on_user_recv 0 5 (1 ∷ []) two_connections)) in
    (one : Bytes) × (two : Bytes) × (packets_to 7 t.effects
      ≡ packets_to 7 two_connections.effects ++ one ∷ [])
    × (packets_to 8 t.effects ≡ packets_to 8 two_connections.effects ++ two ∷ [])
    × (to_service 1 (on_session_recv 0 two (on_server_recv 0 one open_agent)).effects
        ≡ to_service 1 open_agent.effects ++ (1 ∷ []) ++ (2 ∷ []))
    × (to_service 1 (on_server_recv 0 one (on_session_recv 0 two open_agent)).effects
        ≡ to_service 1 open_agent.effects ++ (2 ∷ []) ++ (1 ∷ []))
unfolding lookup
on_session-reorders_example =
    on_session-reorders 0 80 8 5 1 0 1 (record { seq = 8; ports = []; sessions = [] }) (1 ∷ [])
      (2 ∷ []) two_connections open_agent (omega arith) (omega arith) refl refl refl refl refl
      (λ e. absurd (omega (arith, e))) refl
