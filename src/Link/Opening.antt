-- ===== src/Link/Opening.antt =====
-- A new user from __OnUserConnect of r-nat-s/app1/user.cpp to CONNECT in __OnServerRecv of
-- r-nat-c/app1/tunnel.cpp, and the first bytes that follow.
use r_nat.Common.{
  ℕ, ◌<◌, ◌^◌, ◌≡◌, refl, sym, ap, subst, ◌∙◌, some, none, List, [], ◌∷◌, true, length, contains,
  nat_key, lookup, lookup-insert, arith,
}
use r_nat.Endpoint.{Endpoint}
use r_nat.Protocol.{Bytes, R2a, put_r2a, parse_r2a}
use r_nat.Protocol.RoundTrip.{parse-put_r2a}
use r_nat.Connection.{concat}
use r_nat.Relay.State.{App as RelayApp, AgentInfo, agent_send, agent_send_v, user_sent}
use r_nat.Relay.User.{on_user_connect, assign, on_user_recv, cork_user}
use r_nat.Relay.Registry.Invariant.{IsRegistered}
use r_nat.Relay.Assignment.{on_user_connect-IsAssigned}
use r_nat.Agent.State.{App as AgentApp, user_key, user_conn, send, tunnel_sent as delivered}
use r_nat.Agent.Tunnel.{on_server_recv, cork_tunnel as agent_cork_tunnel}
use r_nat.Agent.Sessions.{IsOpened, on_connect-IsOpened}
use r_nat.Link.{joined_r2a, on_user_recv_lem, on_relay_data_lem, on_server_recv_lem}

-- The relay's session for a user that it has assigned.
record IsLinked (p r seq agent_seq : ℕ) (bs : Bytes) (s t : RelayApp) : Type 0 where
  asked : t.effects ≡ agent_send agent_seq bs ∷ s.effects
  listed : lookup seq (t.service_at r).sessions ≡ some s.next_ref
  port : (t.service_at r).port ≡ p
  agent_id : (t.session_at s.next_ref).agent_id ≡ agent_seq

assign-IsLinked :
    (r seq ip port agent_seq : ℕ) (agent : AgentInfo) (s : RelayApp)
    → IsLinked
        (s.service_at r).port
        r
        seq
        agent_seq
        (put_r2a (R2a.connect (s.service_at r).port seq ip port))
        s
        (assign r seq ip port agent_seq agent s)
unfolding assign
assign-IsLinked r seq ip port agent_seq agent s = record {
  asked = refl;
  listed = ground (arith, lookup-insert seq seq s.next_ref (s.service_at r).sessions);
  port = ground arith;
  agent_id = ground arith;
}

-- The bytes of a user of port `p` that was assigned.
linked_recv :
    (p r seq agent_seq : ℕ) (bs buf : Bytes) (s t : RelayApp)
    → IsLinked p r seq agent_seq bs s t
    → (on_user_recv r seq buf t).effects
      ≡ agent_send_v agent_seq
          (put_r2a (R2a.carry p seq []) ∷ buf ∷ [])
          (user_sent r s.next_ref seq t.queue_limit)
        ∷ (cork_user t.queue_limit r seq s.next_ref t).effects
linked_recv p r seq agent_seq bs buf s t k =
    on_user_recv_lem r seq s.next_ref buf t k.listed ∙ ground (arith, k.port, k.agent_id)

-- From a user's connection to its service: in a consistent relay, a user of a listed port is asked for
-- with one CONNECT, at an agent that is known and serves the port; that message makes an agent that
-- has the service, and not the user yet, open a session for the user at the endpoint of its policy;
-- and the first bytes of the user, sent on in the two parts of a DATA packet to the same agent, make
-- that agent, which gets them on the tunnel as it got the CONNECT, send exactly these bytes by that
-- session's client to the service.
pub on_user_connect-reaches :
    (p r seq ip port remote : ℕ) (eps : List Endpoint) (buf : Bytes) (s : RelayApp) (a : AgentApp)
    → IsRegistered s
    → lookup p s.services ≡ some r
    → p < 2 ^ 16
    → seq < 2 ^ 32
    → ip < 2 ^ 32
    → port < 2 ^ 16
    → lookup (p, seq) (a.remote_at remote).users ≡ none
    → lookup p a.service_ep ≡ some eps
    → 0 < length eps
    → let connect = put_r2a (R2a.connect p seq ip port) in
      let parts = put_r2a (R2a.carry p seq []) ∷ buf ∷ [] in
      let t = on_user_connect r seq ip port s in
      let u = on_server_recv remote connect a in
      (agent_seq : ℕ) × (agent : AgentInfo) × (lookup agent_seq s.agents ≡ some agent)
      × (contains p agent.ports ≡ true)
      × (t.effects ≡ agent_send agent_seq connect ∷ s.effects)
      × IsOpened a u remote p seq ip eps
      × ((on_user_recv r seq buf t).effects
          ≡ agent_send_v agent_seq parts (user_sent r s.next_ref seq t.queue_limit)
            ∷ (cork_user t.queue_limit r seq s.next_ref t).effects)
      × ((on_server_recv remote (concat parts) u).effects
          ≡ send (user_conn a.next_ref) buf (some (delivered remote a.next_ref (p, seq)))
            ∷ (agent_cork_tunnel u.queue_limit a.next_ref u).effects)
on_user_connect-reaches p r seq ip port remote eps buf s a h e bp bs bi bt f g n =
    let x = on_user_connect-IsAssigned s p r seq ip port h e in
    let connect = put_r2a (R2a.connect p seq ip port) in
    let k : IsLinked p r seq x.agent_seq connect s (on_user_connect r seq ip port s) =
      subst (λ t. IsLinked p r seq x.agent_seq connect s t) (sym x.result)
        (subst
          (λ q.
            IsLinked q r seq x.agent_seq (put_r2a (R2a.connect q seq ip port)) s
              (assign r seq ip port x.agent_seq x.agent s))
          (h.port p r e) (assign-IsLinked r seq ip port x.agent_seq x.agent s)) in
    let read =
      on_server_recv_lem remote connect (R2a.connect p seq ip port) a
        (parse-put_r2a (R2a.connect p seq ip port) (bp, bs, bi, bt)) in
    let o : IsOpened a (on_server_recv remote connect a) remote p seq ip eps =
      subst (λ u. IsOpened a u remote p seq ip eps) (sym read)
        (on_connect-IsOpened remote p seq ip eps a f g n) in
    let u = on_server_recv remote connect a in
    let m = R2a.carry p seq buf in
    (
      x.agent_seq,
      x.agent,
      x.known,
      x.bound,
      k.asked,
      o,
      linked_recv p r seq x.agent_seq connect buf s (on_user_connect r seq ip port s) k,
      ap (λ v. v.effects)
            (on_server_recv_lem remote _ m u
              (ap parse_r2a (joined_r2a p seq buf) ∙ parse-put_r2a m (bp, bs)))
          ∙ on_relay_data_lem remote p seq a.next_ref buf u o.listed,
    )
