-- ===== src/Link.antt =====
-- Relay and agent together: DATA from user.cpp of one side to tunnel.cpp of the other. Between them
-- SendV joins the two parts, and the connection carries the packet.
pub mod Announcing
pub mod Opening
pub mod Stream
pub mod Ordering
pub mod HalfClosed
use r_nat.Common.{
  ℕ, ◌<◌, ◌^◌, ◌≡◌, refl, ap, ◌∙◌, Option, Bool, some, [], ◌∷◌, append-nil, nat_key, lookup,
}
use r_nat.Protocol.{Bytes, A2r, R2a, put_a2r, put_r2a, parse_a2r, parse_r2a}
use r_nat.Protocol.RoundTrip.{parse-put_a2r, parse-put_r2a}
use r_nat.Connection.{concat}
use r_nat.Relay.State.{
  App as RelayApp, user_sent, agent_send_v, tunnel_sent, service_send, AgentInfo,
  emit as relay_emit,
}
use r_nat.Relay.Tunnel.{on_agent_recv, dispatch, on_agent_data, cork_tunnel}
use r_nat.Relay.User.{on_user_recv, cork_user}
use r_nat.Agent.State.{
  App as AgentApp, user_key, user_conn, send, send_v, tunnel_sent as delivered,
  user_sent as sent_back,
}
use r_nat.Agent.Tunnel.{
  on_session_recv, on_session_notice, on_notice, on_server_recv, on_relay_data,
  cork_tunnel as agent_cork_tunnel,
}
use r_nat.Agent.User.{on_user_recv as on_service_recv, cork_user as agent_cork_user, way_back}

pub joined_r2a :
    (port id : ℕ) (buf : Bytes)
    → concat (put_r2a (R2a.carry port id []) ∷ buf ∷ []) ≡ put_r2a (R2a.carry port id buf)
unfolding concat put_r2a
joined_r2a port id buf = rw (append-nil buf)

joined_a2r :
    (port id : ℕ) (buf : Bytes)
    → concat (put_a2r (A2r.carry port id []) ∷ buf ∷ []) ≡ put_a2r (A2r.carry port id buf)
unfolding concat put_a2r
joined_a2r port id buf = rw (append-nil buf)

on_user_recv_lem :
    (service seq session : ℕ) (buf : Bytes) (r : RelayApp)
    → lookup seq (r.service_at service).sessions ≡ some session
    → (on_user_recv service seq buf r).effects
      ≡ agent_send_v
          (r.session_at session).agent_id
          (put_r2a (R2a.carry (r.service_at service).port seq []) ∷ buf ∷ [])
          (user_sent service session seq r.queue_limit)
        ∷ (cork_user r.queue_limit service seq session r).effects
unfolding on_user_recv
on_user_recv_lem service seq session buf r e = rw (e, on_user_recv) refl

pub on_relay_data_lem :
    (remote port id session : ℕ) (buf : Bytes) (a : AgentApp)
    → lookup (port, id) (a.remote_at remote).users ≡ some session
    → (on_relay_data remote (port, id) buf a).effects
      ≡ send (user_conn session) buf (some (delivered remote session (port, id)))
        ∷ (agent_cork_tunnel a.queue_limit session a).effects
unfolding on_relay_data
on_relay_data_lem remote port id session buf a e = rw (e, on_relay_data) refl

pub on_session_recv_lem :
    (remote : ℕ) (bs : Bytes) (m : R2a) (a : AgentApp)
    → parse_r2a bs ≡ some m
    → on_session_recv remote bs a ≡ on_session_notice (some m) remote a
unfolding on_session_recv
on_session_recv_lem remote bs m a e = ap (λ o. on_session_notice o remote a) e

pub on_server_recv_lem :
    (remote : ℕ) (bs : Bytes) (m : R2a) (a : AgentApp)
    → parse_r2a bs ≡ some m
    → on_server_recv remote bs a ≡ on_notice (some m) remote a
unfolding on_server_recv
on_server_recv_lem remote bs m a e = ap (λ o. on_notice o remote a) e

pub on_agent_recv_lem :
    (listens : ℕ → Option Bool) (seq : ℕ) (bs : Bytes) (m : A2r) (r : RelayApp)
    → parse_a2r bs ≡ some m
    → on_agent_recv listens seq bs r ≡ dispatch listens seq (some m) r
unfolding on_agent_recv
on_agent_recv_lem listens seq bs m r e = ap (λ o. dispatch listens seq o r) e

-- What a user sends to the relay reaches the service unchanged: the relay hands SendV of the session's
-- agent two parts, and the packet that they form makes the agent, on the session's connection or on
-- the tunnel, send exactly the user's bytes to the client of the session that it has for the user.
pub relay_to_agent :
    (service seq relay_session remote session : ℕ) (buf : Bytes) (r : RelayApp) (a : AgentApp)
    → (r.service_at service).port < 2 ^ 16
    → seq < 2 ^ 32
    → lookup seq (r.service_at service).sessions ≡ some relay_session
    → lookup ((r.service_at service).port, seq) (a.remote_at remote).users ≡ some session
    → let port = (r.service_at service).port in
      let parts = put_r2a (R2a.carry port seq []) ∷ buf ∷ [] in
      let arrived =
        send (user_conn session) buf (some (delivered remote session (port, seq)))
        ∷ (agent_cork_tunnel a.queue_limit session a).effects in
      ((on_user_recv service seq buf r).effects
        ≡ agent_send_v
            (r.session_at relay_session).agent_id
            parts
            (user_sent service relay_session seq r.queue_limit)
          ∷ (cork_user r.queue_limit service seq relay_session r).effects)
      × ((on_session_recv remote (concat parts) a).effects ≡ arrived)
      × ((on_server_recv remote (concat parts) a).effects ≡ arrived)
relay_to_agent service seq relay_session remote session buf r a hp hs e f =
    let port = (r.service_at service).port in
    let m = R2a.carry port seq buf in
    let read = ap parse_r2a (joined_r2a port seq buf) ∙ parse-put_r2a m (hp, hs) in
    let arrived = on_relay_data_lem remote port seq session buf a f in
    (
      on_user_recv_lem service seq relay_session buf r e,
      ap (λ s. s.effects) (on_session_recv_lem remote _ m a read) ∙ arrived,
      ap (λ s. s.effects) (on_server_recv_lem remote _ m a read) ∙ arrived,
    )

on_agent_data_lem :
    (seq port id service session : ℕ) (agent : AgentInfo) (buf : Bytes) (r : RelayApp)
    → lookup seq r.agents ≡ some agent
    → lookup port r.services ≡ some service
    → lookup id (r.service_at service).sessions ≡ some session
    → on_agent_data seq port id buf r
      ≡ relay_emit
          (service_send service id buf (tunnel_sent service session seq r.queue_limit))
          (cork_tunnel r.queue_limit seq session r)
unfolding on_agent_data
on_agent_data_lem seq port id service session agent buf r e f g = rw (e, f, g, on_agent_data) refl

-- What the service sends to the agent reaches the user unchanged: the agent hands SendV two parts, and
-- the packet that they form makes the relay, which knows the agent's connection, the service and the
-- user, send exactly the service's bytes to that user.
pub agent_to_relay :
    (listens : ℕ → Option Bool) (remote session port id seq service relay_session : ℕ)
    (agent : AgentInfo) (buf : Bytes) (a : AgentApp) (r : RelayApp)
    → port < 2 ^ 16
    → id < 2 ^ 32
    → lookup seq r.agents ≡ some agent
    → lookup port r.services ≡ some service
    → lookup id (r.service_at service).sessions ≡ some relay_session
    → let parts = put_a2r (A2r.carry port id []) ∷ buf ∷ [] in
      ((on_service_recv remote session (port, id) buf a).effects
        ≡ send_v (way_back remote session a) parts (sent_back remote session (port, id))
          ∷ (agent_cork_user a.queue_limit session a).effects)
      × (on_agent_recv listens seq (concat parts) r
          ≡ some (
              relay_emit
                (service_send service id buf (tunnel_sent service relay_session seq r.queue_limit))
                (cork_tunnel r.queue_limit seq relay_session r)))
agent_to_relay listens remote session port id seq service relay_session agent buf a r hp hi e f g =
    let m = A2r.carry port id buf in
    let read = ap parse_a2r (joined_a2r port id buf) ∙ parse-put_a2r m (hp, hi) in
    (
      unfold on_service_recv in refl,
      on_agent_recv_lem listens seq _ m r read
          ∙ ap some (on_agent_data_lem seq port id service relay_session agent buf r e f g),
    )
