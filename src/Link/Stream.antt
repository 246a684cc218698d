-- ===== src/Link/Stream.antt =====
-- A relay and an agent with one connection between them, interleaved in any order: the users of one
-- port come, send and go (user.cpp of r-nat-s/app1), and the agent takes what the relay sent on the
-- connection, in its order, when it likes (tunnel.cpp of r-nat-c/app1). The service's own connections
-- and the connection between the two stay up.
pub mod View
pub mod Relaying
pub mod Users
pub mod Receiving
pub mod Taking
pub mod Connecting
pub mod Order
pub mod Steps
pub mod Delivery
use r_nat.Common.{
  ℕ, suc, ◌<◌, ◌^◌, ◌≡◌, Option, none, some, List, [], ◌∷◌, ◌++◌, Bool, if◌then◌else◌, ◌==◌,
  get_elem?, Store, update,
}
use r_nat.Protocol.{Bytes}
use r_nat.Connection.{concat}
use r_nat.Relay.State.{
  App as RelayApp, Effect as RelayEffect, Sent as RelaySent, agent_send, agent_send_v,
  agent_block_recv, agent_close_all, service_start, service_send, service_block_recv,
  service_close_user, service_close,
}
use r_nat.Relay.Tunnel.{on_agent_data}
use r_nat.Relay.User.{on_user_connect, on_user_disconnect, on_user_recv}
use r_nat.Relay.Step.{on_sent as on_relay_sent}
use r_nat.Relay.Sessions.{session_of}
use r_nat.Agent.State.{
  App as AgentApp, User, Effect as AgentEffect, Sent as AgentSent, user_conn, session_conn,
  tunnel_conn, start, send, send_v, block_recv, close, post_reconnect,
}
use r_nat.Agent.Tunnel.{on_server_recv}
use r_nat.Agent.User.{on_user_recv as on_service_recv}
use r_nat.Agent.Step.{on_sent as on_agent_sent}

-- The packets that the relay gave the connection of the agent `k`, oldest first.
unfoldable pub packets_to : ℕ → List RelayEffect → List Bytes
packets_to k [] = []
packets_to k (agent_send a bs ∷ es) =
    let rest = packets_to k es in if a == k then rest ++ bs ∷ [] else rest
packets_to k (agent_send_v a parts pfn ∷ es) =
    let rest = packets_to k es in if a == k then rest ++ concat parts ∷ [] else rest
packets_to k (agent_block_recv a b ∷ es) = packets_to k es
packets_to k (agent_close_all ∷ es) = packets_to k es
packets_to k (service_start s p ∷ es) = packets_to k es
packets_to k (service_send s n bs pfn ∷ es) = packets_to k es
packets_to k (service_block_recv s n b ∷ es) = packets_to k es
packets_to k (service_close_user s n ∷ es) = packets_to k es
packets_to k (service_close s ∷ es) = packets_to k es

-- The bytes that the agent gave the service's connection of a session, in their order.
unfoldable pub to_service : ℕ → List AgentEffect → Bytes
to_service a [] = []
to_service a (send (user_conn session) bs pfn ∷ es) =
    let rest = to_service a es in if session == a then rest ++ bs else rest
to_service a (send (session_conn session) bs pfn ∷ es) = to_service a es
to_service a (send (tunnel_conn remote number) bs pfn ∷ es) = to_service a es
to_service a (send_v client parts pfn ∷ es) = to_service a es
to_service a (start client ep ∷ es) = to_service a es
to_service a (block_recv client b ∷ es) = to_service a es
to_service a (close client ∷ es) = to_service a es
to_service a (post_reconnect remote ∷ es) = to_service a es

-- `arrived` counts the packets that the agent has taken, and `sent` is what each user has sent.
pub record System : Type 0 where
  pub relay : RelayApp
  pub agent : AgentApp
  pub arrived : ℕ
  pub sent : Store Bytes

-- The users of the service `service`, and the agent's remote `remote`, which is the relay's agent `k`.
pub data SystemStep (service k remote : ℕ) (s : System) : System → Type 0 where
  user_comes :
      (seq ip port : ℕ)
      → session_of s.relay service seq ≡ none
      → seq < 2 ^ 32
      → ip < 2 ^ 32
      → port < 2 ^ 16
      → SystemStep service k remote s
          (record s { relay = on_user_connect service seq ip port s.relay })
  user_sends :
      (seq session : ℕ) (buf : Bytes)
      → session_of s.relay service seq ≡ some session
      → seq < 2 ^ 32
      → SystemStep service k remote s (record s {
        relay = on_user_recv service seq buf s.relay;
        sent = update s.sent seq (s.sent seq ++ buf);
      })
  user_goes :
      (seq : ℕ)
      → seq < 2 ^ 32
      → SystemStep service k remote s (record s { relay = on_user_disconnect service seq s.relay })
  relay_completes :
      (pfn : RelaySent)
      → SystemStep service k remote s (record s { relay = on_relay_sent pfn s.relay })
  data_comes_back :
      (a port id : ℕ) (buf : Bytes)
      → SystemStep service k remote s (record s { relay = on_agent_data a port id buf s.relay })
  arrives :
      (packet : Bytes)
      → get_elem? (packets_to k s.relay.effects) s.arrived ≡ some packet
      → SystemStep service k remote s
          (record s { agent = on_server_recv remote packet s.agent; arrived = suc s.arrived })
  service_sends :
      (r session : ℕ) (usr : User) (buf : Bytes)
      → SystemStep service k remote s
          (record s { agent = on_service_recv r session usr buf s.agent })
  agent_completes :
      (pfn : AgentSent)
      → SystemStep service k remote s (record s { agent = on_agent_sent pfn s.agent })

pub data SystemReach (service k remote : ℕ) (s : System) : System → Type 0 where
  here : SystemReach service k remote s s
  next :
      {t u : System}
      → SystemReach service k remote s t
      → SystemStep service k remote t u
      → SystemReach service k remote s u
