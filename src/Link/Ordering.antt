-- ===== src/Link/Ordering.antt =====
-- SESSION between two DATA of one user: tunnel.cpp and user.cpp of r-nat-s/app1, tunnel.cpp and
-- session_tunnel.cpp of r-nat-c/app1.
use r_nat.Common.{
  ℕ, ◌<◌, ◌^◌, ◌≡◌, ◌≢◌, refl, sym, ap, subst, ◌∙◌, inl, inr, none, some, List, [], ◌∷◌, ◌++◌,
  arith, if◌then◌else◌, ◌==◌, nat_key, lookup, insert, lookup-insert, Option-cases,
}
use r_nat.Protocol.{Bytes, R2a, put_r2a, parse_r2a}
use r_nat.Protocol.RoundTrip.{parse-put_r2a}
use r_nat.Connection.{concat}
use r_nat.Relay.State.{App as RelayApp, AgentInfo, agent_send_v, user_sent, emit, set_agent}
use r_nat.Relay.Tunnel.{on_session, declare_session, add_to_agent}
use r_nat.Relay.User.{on_user_recv, cork_user}
use r_nat.Relay.Sessions.{session_of}
use r_nat.Agent.State.{App as AgentApp, User, user_key}
use r_nat.Agent.Tunnel.{on_server_recv, on_session_recv, on_relay_data, cork_tunnel}
use r_nat.Agent.Sessions.{session_of as agent_session_of}
use r_nat.Link.{joined_r2a, on_server_recv_lem, on_session_recv_lem}
use r_nat.Link.Stream.{packets_to, to_service}

-- The relay has handed the connection `a` the packet `p`, and its tables are the same.
record Handed (a : ℕ) (p : Bytes) (r t : RelayApp) : Type 0 where
  services : t.services ≡ r.services
  service_at : t.service_at ≡ r.service_at
  known : (seq : ℕ) → lookup seq t.agents ≡ lookup seq r.agents
  next_ref : t.next_ref ≡ r.next_ref
  packets :
      (j : ℕ)
      → packets_to j t.effects
        ≡ (if a == j then packets_to j r.effects ++ p ∷ [] else packets_to j r.effects)

corked-Handed :
    (limit service id x a : ℕ) (parts : List Bytes) (p : Bytes) (r : RelayApp)
    → concat parts ≡ p
    → Handed a p r (
        emit (agent_send_v a parts (user_sent service x id limit)) (cork_user limit service id x r))
unfolding cork_user packets_to
corked-Handed limit service id x a parts p r e = record {
  services = ground arith;
  service_at = ground arith;
  known = λ seq. ground arith;
  next_ref = ground arith;
  packets = λ j. ground (arith, e);
}

on_user_recv-Handed :
    (service id x : ℕ) (buf : Bytes) (r : RelayApp)
    → session_of r service id ≡ some x
    → Handed
        (r.session_at x).agent_id
        (put_r2a (R2a.carry (r.service_at service).port id buf))
        r
        (on_user_recv service id buf r)
unfolding on_user_recv
on_user_recv-Handed service id x buf r e =
    rw (e, on_user_recv)
      (corked-Handed r.queue_limit service id x _ _ _ r
        (joined_r2a (r.service_at service).port id buf))

-- The user has a new session, on the connection `seq`.
record Switched (service id seq : ℕ) (r t : RelayApp) : Type 0 where
  now : session_of t service id ≡ some r.next_ref
  on : (t.session_at r.next_ref).agent_id ≡ seq
  port : (t.service_at service).port ≡ (r.service_at service).port
  effects : t.effects ≡ r.effects

added-Switched :
    (service id seq x : ℕ) (r t : RelayApp)
    → Switched service id seq r t
    → Switched service id seq r (add_to_agent seq id x t)
added-Switched service id seq x r t h = elim (Option-cases (lookup seq t.agents)) [
  | inl e ↦ rw (e, add_to_agent) h
  | inr (agent, e) ↦
      rw (e, add_to_agent) (record { now = h.now; on = h.on; port = h.port; effects = h.effects })
]

declare_session-Switched :
    (service id seq : ℕ) (r : RelayApp)
    → Switched service id seq r (declare_session none seq service id r)
declare_session-Switched service id seq r = added-Switched service id seq r.next_ref r _ (record {
  now = ground (arith, lookup-insert id id r.next_ref (r.service_at service).sessions);
  on = ground arith;
  port = ground arith;
  effects = refl;
})

on_session-Switched :
    (seq port id service : ℕ) (agent : AgentInfo) (r : RelayApp)
    → lookup seq r.agents ≡ some agent
    → lookup port r.services ≡ some service
    → session_of r service seq ≡ none
    → Switched service id seq r (on_session seq port id r)
unfolding on_session
on_session-Switched seq port id service agent r e f g =
    let h =
      declare_session-Switched service id seq
        (set_agent seq (record agent { ports = insert port tt agent.ports }) r) in
    rw (e, f, g, on_session) (record { now = h.now; on = h.on; port = h.port; effects = h.effects })

-- What DATA adds to the bytes of its user's service.
record Delivered (remote session : ℕ) (usr : User) (buf : Bytes) (a b : AgentApp) : Type 0 where
  again : agent_session_of b remote usr ≡ some session
  bytes : to_service session b.effects ≡ to_service session a.effects ++ buf

corked_send :
    (remote session : ℕ) (usr : User) (buf : Bytes) (a : AgentApp)
    → agent_session_of a remote usr ≡ some session
    → Delivered remote session usr buf a (on_relay_data remote usr buf a)
unfolding on_relay_data cork_tunnel to_service
corked_send remote session usr buf a e =
    rw (e, on_relay_data) (record { again = ground (arith, e); bytes = ground arith })

module _ (remote port id session : ℕ) (low : port < 2 ^ 16) (fits : id < 2 ^ 32) where
  read_data :
      (buf : Bytes) → parse_r2a (put_r2a (R2a.carry port id buf)) ≡ some (R2a.carry port id buf)
  read_data buf = parse-put_r2a (R2a.carry port id buf) (low, fits)

  on_tunnel :
      (buf : Bytes) (a : AgentApp)
      → agent_session_of a remote (port, id) ≡ some session
      → Delivered remote session
          (port, id)
          buf
          a
          (on_server_recv remote (put_r2a (R2a.carry port id buf)) a)
  on_tunnel buf a e =
      subst (λ b. Delivered remote session (port, id) buf a b)
        (sym (on_server_recv_lem remote _ _ a (read_data buf)))
        (corked_send remote session (port, id) buf a e)

  on_own :
      (buf : Bytes) (a : AgentApp)
      → agent_session_of a remote (port, id) ≡ some session
      → Delivered remote session
          (port, id)
          buf
          a
          (on_session_recv remote (put_r2a (R2a.carry port id buf)) a)
  on_own buf a e =
      subst (λ b. Delivered remote session (port, id) buf a b)
        (sym (on_session_recv_lem remote _ _ a (read_data buf)))
        (corked_send remote session (port, id) buf a e)

-- What two buffers make of the bytes that were there.
in_turn :
    (remote session : ℕ) (usr : User) (xs ys : Bytes) (a b c : AgentApp)
    → Delivered remote session usr xs a b
    → Delivered remote session usr ys b c
    → to_service session c.effects ≡ to_service session a.effects ++ xs ++ ys
in_turn remote session usr xs ys a b c d e = e.bytes ∙ ap (λ bs. bs ++ ys) d.bytes

-- A user sends, SESSION comes, and the user sends again.
record Apart (k seq : ℕ) (one two : Bytes) (r t : RelayApp) : Type 0 where
  old : packets_to k t.effects ≡ packets_to k r.effects ++ one ∷ []
  new : packets_to seq t.effects ≡ packets_to seq r.effects ++ two ∷ []

both-Apart :
    (k seq a : ℕ) (one two p q : Bytes) (r r1 r2 t : RelayApp)
    → Handed k p r r1
    → r2.effects ≡ r1.effects
    → Handed a q r2 t
    → a ≡ seq
    → k ≢ seq
    → p ≡ one
    → q ≡ two
    → Apart k seq one two r t
both-Apart k seq a one two p q r r1 r2 t h same i at ne e f = record {
  old = ground (arith, h.packets k, i.packets k, ap (packets_to k) same, at, ne, e);
  new = ground (arith, h.packets seq, i.packets seq, ap (packets_to seq) same, at, ne, f);
}

apart :
    (service port seq id x : ℕ) (agent : AgentInfo) (first second : Bytes) (r : RelayApp)
    → (r.service_at service).port ≡ port
    → lookup port r.services ≡ some service
    → lookup seq r.agents ≡ some agent
    → session_of r service seq ≡ none
    → session_of r service id ≡ some x
    → (r.session_at x).agent_id ≢ seq
    → Apart
        (r.session_at x).agent_id
        seq
        (put_r2a (R2a.carry port id first))
        (put_r2a (R2a.carry port id second))
        r
        (on_user_recv service id second (on_session seq port id (on_user_recv service id first r)))
apart service port seq id x agent first second r p s e n f ne =
    let r1 = on_user_recv service id first r in
    let h1 = on_user_recv-Handed service id x first r f in
    let none_yet = ap (λ g. lookup seq (g service).sessions) h1.service_at ∙ n in
    let w =
      on_session-Switched seq port id service agent r1 (h1.known seq ∙ e)
        (ap (lookup port) h1.services ∙ s) none_yet in
    let r2 = on_session seq port id r1 in
    let h2 = on_user_recv-Handed service id r1.next_ref second r2 w.now in
    let port_of : (r2.service_at service).port ≡ port =
      w.port ∙ ap (λ g. (g service).port) h1.service_at ∙ p in
    both-Apart (r.session_at x).agent_id seq _ _ _ _ _ r r1 r2 _ h1 w.effects h2 w.on ne
      (ap (λ q. put_r2a (R2a.carry q id first)) p)
      (ap (λ q. put_r2a (R2a.carry q id second)) port_of)

-- A user's DATA can overtake each other: the relay gives what a user sends before SESSION to the
-- connection of the user's agent and what it sends after it to the session's connection, and the
-- agent, which takes DATA from both, gives the service the bytes in the order in which the two
-- packets arrive there, so that they are exchanged if the later one arrives first. No user of the
-- service has the number of the session's connection, and the two connections are different.
pub on_session-reorders :
    (service port seq id x remote session : ℕ) (agent : AgentInfo) (first second : Bytes)
    (r : RelayApp) (a : AgentApp)
    → port < 2 ^ 16
    → id < 2 ^ 32
    → (r.service_at service).port ≡ port
    → lookup port r.services ≡ some service
    → lookup seq r.agents ≡ some agent
    → session_of r service seq ≡ none
    → session_of r service id ≡ some x
    → (r.session_at x).agent_id ≢ seq
    → agent_session_of a remote (port, id) ≡ some session
    → let k = (r.session_at x).agent_id in
      let between = on_session seq port id (on_user_recv service id first r) in
      let t = on_user_recv service id second between in
      let before = to_service session a.effects in
      (one : Bytes) × (two : Bytes) × (packets_to k t.effects ≡ packets_to k r.effects ++ one ∷ [])
      × (packets_to seq t.effects ≡ packets_to seq r.effects ++ two ∷ [])
      × (to_service session (on_session_recv remote two (on_server_recv remote one a)).effects
          ≡ before ++ first ++ second)
      × (to_service session (on_server_recv remote one (on_session_recv remote two a)).effects
          ≡ before ++ second ++ first)
on_session-reorders service port seq id x remote session agent first second r a low fits p s e n f
      ne g =
    let ways = apart service port seq id x agent first second r p s e n f ne in
    let one = on_tunnel remote port id session low fits first in
    let two = on_own remote port id session low fits second in
    (
      put_r2a (R2a.carry port id first),
      put_r2a (R2a.carry port id second),
      ways.old,
      ways.new,
      in_turn remote session (port, id) first second _ _ _ (one a g) (two _ (one a g).again),
      in_turn remote session (port, id) second first _ _ _ (two a g) (one _ (two a g).again),
    )
