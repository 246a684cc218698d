-- ===== src/Link/HalfClosed.antt =====
-- DISCONNECT on its way between relay and agent: tunnel.cpp of both programs.
use r_nat.Common.{
  ℕ, ◌<◌, ◌^◌, ◌≡◌, refl, ap, ◌∙◌, Option, some, ◌∷◌, Bool, false, arith, nat_key, lookup,
}
use r_nat.Protocol.{A2r, R2a, put_a2r, put_r2a}
use r_nat.Protocol.RoundTrip.{parse-put_a2r, parse-put_r2a}
use r_nat.Relay.State.{App as RelayApp}
use r_nat.Relay.Tunnel.{on_agent_recv, on_agent_hangs_up, mark_tunnel_gone}
use r_nat.Relay.Sessions.{session_of, on_agent_hangs_up_lem}
use r_nat.Relay.Ending.{user_there}
use r_nat.Agent.State.{App as AgentApp, user_key, close, session_conn}
use r_nat.Agent.Tunnel.{on_server_recv}
use r_nat.Agent.Sessions.{session_of as agent_session_of, on_relay_hangs_up_lem}
use r_nat.Link.{on_agent_recv_lem, on_server_recv_lem}

-- An end is not passed on. The DISCONNECT that the agent sends when a service has hung up makes the
-- relay, while the user is there, call nothing: the user's connection stays open and its session
-- listed. The DISCONNECT that the relay sends when a user has hung up makes the agent, while the
-- service is there, close the session's connection to the relay and nothing else: the connection to the
-- service stays open and the session listed.
pub disconnect-stays_open :
    (listens : ℕ → Option Bool) (seq port id service x remote session : ℕ) (r : RelayApp)
    (a : AgentApp)
    → port < 2 ^ 16
    → id < 2 ^ 32
    → lookup port r.services ≡ some service
    → session_of r service id ≡ some x
    → (r.session_at x).user_disconnected ≡ false
    → agent_session_of a remote (port, id) ≡ some session
    → (a.session_at session).user_disconnected ≡ false
    → let b = on_server_recv remote (put_r2a (R2a.disconnect port id)) a in
      (u : RelayApp) × (on_agent_recv listens seq (put_a2r (A2r.disconnect port id)) r ≡ some u)
      × (u.effects ≡ r.effects)
      × (session_of u service id ≡ some x)
      × (b.effects ≡ close (session_conn session) ∷ a.effects)
      × (agent_session_of b remote (port, id) ≡ some session)
disconnect-stays_open listens seq port id service x remote session r a low fits e f there g up =
    let m = mark_tunnel_gone x r in
    let same : on_agent_hangs_up port id r ≡ m =
      on_agent_hangs_up_lem port service x id r e f
      ∙ user_there service x m (ground (arith, there)) in
    let back =
      on_server_recv_lem remote (put_r2a (R2a.disconnect port id)) (R2a.disconnect port id) a
        (parse-put_r2a (R2a.disconnect port id) (low, fits))
      ∙ on_relay_hangs_up_lem remote session (port, id) a g up in
    (
      m,
      on_agent_recv_lem listens seq (put_a2r (A2r.disconnect port id)) (A2r.disconnect port id) r
            (parse-put_a2r (A2r.disconnect port id) (low, fits))
          ∙ ap some same,
      refl,
      f,
      ap (λ b. b.effects) back,
      ap (λ b. agent_session_of b remote (port, id)) back ∙ g,
    )
